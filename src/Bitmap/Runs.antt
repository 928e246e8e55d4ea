-- ===== src/Bitmap/Runs.antt =====
-- Any sequence of allocations, releases and writes of blocks.
use operating_system_experie.Base.{
  ℕ, ◌≤◌, ◌<◌, ◌≡◌, refl, ap, sym, ◌∙◌, Bool, true, false, none, some, List, arith, max_blocks,
  if◌then◌else◌, ◌==◌, ==_of_ne, ==_of_eq, eq_of_==, ne_of_==, Bool-cases, inl, inr, subst,
}
use operating_system_experie.Base.Outcome.{ok}
use operating_system_experie.Device.{Device, IsBlock}
use operating_system_experie.Superblock.{SuperBlock}
use operating_system_experie.Bitmap.{allocate_block, mark_free}
use operating_system_experie.Bitmap.Mark.{bit_at}
use operating_system_experie.Bitmap.Alloc.{Allocated, allocate_block_lem, mark_free-Released}
use operating_system_experie.Bitmap.Keep.{bit_at-same}
use operating_system_experie.Bitmap.Guard.{
  IsGuarded, chosen_data, Allocated-IsGuarded, Released-IsGuarded, same-IsGuarded,
}

-- The blocks that were handed out and not given back.
abbrev pub Held : Type 0
Held = ℕ → Bool

abbrev pub change : ℕ → Bool → Held → Held
change n to held m = if n == m then to else held m

ok_inj : {A : Type 0} {a b : A} → ok a ≡ ok b → a ≡ b
ok_inj e = cc

some_inj : {a b : ℕ} → some a ≡ some b → a ≡ b
some_inj e = cc

not_none : {n : ℕ} → some n ≡ none → ⊥
not_none e = cc

clash : (b : Bool) → b ≡ true → b ≡ false → ⊥
clash b t f = cc

module _ ⦃dev : Device⦄ where
  open dev use {Disk, write_block, blocks, block, put}

  pub record State : Type 0 where
    pub disk : Disk
    pub sb : SuperBlock
    pub held : Held

  -- What the layers above the bitmap do with blocks: they write behind the bitmap only, and give back
  -- only blocks that they hold.
  pub data Step (s t : State) : Type 0 where
    allocate :
        (n : ℕ)
        → allocate_block s.disk s.sb ≡ ok (t.disk, t.sb, some n)
        → t.held ≡ change n true s.held
        → Step s t
    exhausted : allocate_block s.disk s.sb ≡ ok (t.disk, t.sb, none) → t.held ≡ s.held → Step s t
    release :
        (n : ℕ)
        → s.held n ≡ true
        → mark_free s.disk s.sb n ≡ ok (t.disk, t.sb)
        → t.held ≡ change n false s.held
        → Step s t
    write :
        (n : ℕ) (buf : List ℕ)
        → 6 ≤ n
        → n < blocks s.disk
        → IsBlock buf
        → write_block s.disk n buf ≡ ok t.disk
        → t.sb ≡ s.sb
        → t.held ≡ s.held
        → Step s t

  pub data Reach (s : State) : State → Type 0 where
    here : Reach s s
    next : {t u : State} → Reach s t → Step t u → Reach s u

  -- The disk is consistent, the system's blocks are taken, and what is held are data blocks that are
  -- taken.
  pub record IsSafe (s : State) : Type 0 where
    pub guarded : IsGuarded s.disk s.sb
    pub held_data :
        (n : ℕ) → s.held n ≡ true → (31 ≤ n) × (n < max_blocks) × (bit_at s.disk n ≡ true)

  -- The same state under other names.
  module _ (s t : State) (i : IsSafe s) where
    module _ (d : Disk) (sb : SuperBlock) (same_disk : d ≡ t.disk) (same_sb : sb ≡ t.sb)
        (g : IsGuarded d sb)
        (held_data : (n : ℕ)
          → t.held n ≡ true
          → (31 ≤ n) × (n < max_blocks) × (bit_at d n ≡ true)) where
      renamed : IsSafe t
      renamed = record {
        guarded = subst (λ e. IsGuarded e t.sb) same_disk (subst (λ x. IsGuarded d x) same_sb g);
        held_data = λ n h.
            let (lo, hi, taken) = held_data n h in
            (lo, hi, ap (λ e. bit_at e n) (sym same_disk) ∙ taken);
      }

    -- One more block is held.
    allocated :
        (n : ℕ) (a : Allocated s.disk s.sb (allocate_block s.disk s.sb))
        → allocate_block s.disk s.sb ≡ ok (t.disk, t.sb, some n)
        → t.held ≡ change n true s.held
        → IsSafe t
    allocated n a e h =
        let same = ok_inj (sym a.returns ∙ e) in
        let number = some_inj (ap (λ x. x.2) same) in
        renamed a.disk a.after (ap (λ x. x.0) same) (ap (λ x. x.1) same)
          (Allocated-IsGuarded s.disk s.sb i.guarded a)
          (λ k used. elim (Bool-cases (n == k)) [
            | inl q ↦
                let at : a.chosen ≡ k = number ∙ eq_of_== n k q in
                (
                  omega (arith, at, chosen_data s.disk s.sb i.guarded a),
                  omega (arith, at, a.first.below),
                  ap (bit_at a.disk) (sym at)
                      ∙ a.bits a.chosen a.first.below
                      ∙ rw (==_of_eq a.chosen a.chosen refl) refl,
                )
            | inr q ↦
                let before : s.held k ≡ true = sym (ap (λ f. f k) h ∙ rw q refl) ∙ used in
                let (lo, hi, taken) = i.held_data k before in
                (
                  lo,
                  hi,
                  a.bits k hi
                      ∙ rw (==_of_ne a.chosen k (λ x. ne_of_== n k q (sym number ∙ x))) taken,
                )
          ])

    released :
        (n : ℕ)
        → s.held n ≡ true
        → mark_free s.disk s.sb n ≡ ok (t.disk, t.sb)
        → t.held ≡ change n false s.held
        → IsSafe t
    released n mine e h =
        let (lo, hi, taken) = i.held_data n mine in
        let r = mark_free-Released s.disk s.sb i.guarded.consistent n hi taken in
        let same = ok_inj (sym r.returns ∙ e) in
        renamed r.disk r.after (ap (λ x. x.0) same) (ap (λ x. x.1) same)
          (Released-IsGuarded s.disk s.sb i.guarded n lo r)
          (λ k used. elim (Bool-cases (n == k)) [
            | inl q ↦ absurd (clash (t.held k) used (ap (λ f. f k) h ∙ rw q refl))
            | inr q ↦
                let before : s.held k ≡ true = sym (ap (λ f. f k) h ∙ rw q refl) ∙ used in
                let (lo', hi', taken') = i.held_data k before in
                (lo', hi', r.bits k hi' ∙ rw q taken')
          ])

    kept :
        t.held ≡ s.held
        → (n : ℕ) → t.held n ≡ true
        → (31 ≤ n) × (n < max_blocks) × (bit_at s.disk n ≡ true)
    kept h n used = i.held_data n (ap (λ f. f n) (sym h) ∙ used)

    written :
        (n : ℕ) (buf : List ℕ)
        → 6 ≤ n
        → n < blocks s.disk
        → IsBlock buf
        → write_block s.disk n buf ≡ ok t.disk
        → t.sb ≡ s.sb
        → t.held ≡ s.held
        → IsSafe t
    written n buf lo hi b e same_sb h =
        let same = ok_inj (sym (dev.write_block-ok s.disk n buf hi b) ∙ e) in
        let low = λ (k : ℕ) (lt : k < 6).
          dev.block-put s.disk n buf k hi b ∙ rw (==_of_ne n k (omega arith)) refl in
        renamed (put s.disk n buf) s.sb same (sym same_sb)
          (same-IsGuarded s.disk s.sb i.guarded (put s.disk n buf)
            (dev.blocks-put s.disk n buf hi b) low)
          (λ k used.
            let (lo', hi', taken) = kept h k used in
            (lo', hi', bit_at-same s.disk (put s.disk n buf) (λ k lo lt. low k lt) k hi' ∙ taken))

    refused : allocate_block s.disk s.sb ≡ ok (t.disk, t.sb, none) → t.held ≡ s.held → IsSafe t
    refused e h = elim (allocate_block_lem s.disk s.sb i.guarded.consistent) [
      | inl (returns, all) ↦
          let same = ok_inj (sym returns ∙ e) in
          renamed s.disk s.sb (ap (λ x. x.0) same) (ap (λ x. x.1) same) i.guarded (kept h)
      | inr a ↦ absurd (not_none (ap (λ x. x.2) (ok_inj (sym a.returns ∙ e))))
    ]

    Step-IsSafe : Step s t → IsSafe t
    Step-IsSafe (allocate n e h) = elim (allocate_block_lem s.disk s.sb i.guarded.consistent) [
      | inl (returns, all) ↦ absurd (not_none (sym (ap (λ x. x.2) (ok_inj (sym returns ∙ e)))))
      | inr a ↦ allocated n a e h
    ]
    Step-IsSafe (exhausted e h) = refused e h
    Step-IsSafe (release n mine e h) = released n mine e h
    Step-IsSafe (write n buf lo hi b e same h) = written n buf lo hi b e same h

  pub Reach-IsSafe : {s t : State} → IsSafe s → Reach s t → IsSafe t
  Reach-IsSafe i here = i
  Reach-IsSafe i (next {t} {u} r step) = Step-IsSafe t u (Reach-IsSafe i r) step

  -- Whatever blocks are allocated, given back and written from a safe state on, in any order, an
  -- allocation hands out a data block that nobody holds. In a safe state the blocks before the data
  -- are taken, and so are the data blocks that are held; writes are behind the bitmap, and only a
  -- block that is held is given back.
  pub Reach-allocate_block :
      {s t : State}
      → IsSafe s
      → Reach s t
      → (n : ℕ) (d : Disk) (sb : SuperBlock) → allocate_block t.disk t.sb ≡ ok (d, sb, some n)
      → (31 ≤ n) × (n < max_blocks) × (t.held n ≡ false)
  Reach-allocate_block {s} {t} i r n d sb e =
      let safe = Reach-IsSafe i r in
      elim (allocate_block_lem t.disk t.sb safe.guarded.consistent) [
        | inl (returns, all) ↦ absurd (not_none (sym (ap (λ x. x.2) (ok_inj (sym returns ∙ e)))))
        | inr a ↦
            let at : a.chosen ≡ n = some_inj (ap (λ x. x.2) (ok_inj (sym a.returns ∙ e))) in
            (
              omega (arith, at, chosen_data t.disk t.sb safe.guarded a),
              omega (arith, at, a.first.below),
              elim (Bool-cases (t.held n)) [
                | inl mine ↦
                    let (lo, hi, taken) = safe.held_data n mine in
                    absurd
                      (clash (bit_at t.disk n) taken (ap (bit_at t.disk) (sym at) ∙ a.first.clear))
                | inr free ↦ free
              ],
            )
      ]
