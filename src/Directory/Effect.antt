-- ===== src/Directory/Effect.antt =====
-- What the change of one slot does to the map of a directory.
use operating_system_experie.Base.{
  bytes_eq, bytes_eq_iff, ℕ, ◌≤◌, ◌<◌, ◌≡◌, ◌≢◌, refl, ap, sym, subst, ◌∙◌, Bool, true, false, List,
  Option, none, some, if◌then◌else◌, ◌==◌, ==_of_ne, ==_of_eq, eq_of_==, ne_of_==, Bool-cases, inl,
  inr,
}
use operating_system_experie.Base.Outcome.{ok}
use operating_system_experie.Device.{Device}
use operating_system_experie.Superblock.{SuperBlock}
use operating_system_experie.Inode.{Inode, IsTyped, read_inode}
use operating_system_experie.Inode.Table.{InImage}
use operating_system_experie.Directory.{DirEntry, max_name_len, is_empty}
use operating_system_experie.Directory.Slots.{
  text, named, named-text, named-ne, named_empty, slot, slots, HasDirBlocks, HasNames,
}
use operating_system_experie.Directory.View.{Names, update, bytes_ne, Shows, same_slot}

clash : (b : Bool) → b ≡ true → b ≡ false → ⊥
clash b t f = cc

-- The entry of one slot changes.
module _ (n : ℕ) (table table' : ℕ → DirEntry) (names : HasNames n table) (s : ℕ) (below : s < n)
    (entry : DirEntry)
    (entries : (t : ℕ) → t < n → table' t ≡ (if s == t then entry else table t)) where
  at_place : table' s ≡ entry
  at_place = entries s below ∙ rw (==_of_eq s s refl) refl

  elsewhere : (t : ℕ) → t < n → s ≢ t → table' t ≡ table t
  elsewhere t h ne = entries t h ∙ rw (==_of_ne s t ne) refl

  -- The new entry is free, or its name is readable and no other slot has it.
  abbrev pub IsFresh : Type 0
  IsFresh =
      is_empty entry ≡ false
      → (entry.name_len ≤ max_name_len)
        × ((t : ℕ) → t < n → s ≢ t → is_empty (table t) ≡ false → text entry ≢ text (table t))

  here : (t : ℕ) → s ≡ t → table' t ≡ entry
  here t q = ap (table') (sym q) ∙ at_place

  -- The new entry's name is no other's.
  alone :
      IsFresh
      → (t u : ℕ) → u < n
      → s ≡ t
      → s ≢ u
      → is_empty (table' t) ≡ false
      → is_empty (table' u) ≡ false
      → text (table' t) ≢ text (table' u)
  alone fresh t u hu e ne used used' same =
      (fresh (ap is_empty (sym (here t e)) ∙ used)).1 u hu ne
        (ap is_empty (sym (elsewhere u hu ne)) ∙ used')
        (ap text (sym (here t e)) ∙ same ∙ ap text (elsewhere u hu ne))

  unique_after :
      IsFresh
      → (t u : ℕ) → t < n
      → u < n
      → is_empty (table' t) ≡ false
      → is_empty (table' u) ≡ false
      → text (table' t) ≡ text (table' u)
      → t ≡ u
  unique_after fresh t u ht hu used used' same = elim (Bool-cases (s == t)) [
    | inl e ↦ elim (Bool-cases (s == u)) [
      | inl e' ↦ sym (eq_of_== s t e) ∙ eq_of_== s u e'
      | inr e' ↦ absurd (alone fresh t u hu (eq_of_== s t e) (ne_of_== s u e') used used' same)
    ]
    | inr e ↦ elim (Bool-cases (s == u)) [
      | inl e' ↦
          absurd (alone fresh u t ht (eq_of_== s u e') (ne_of_== s t e) used' used (sym same))
      | inr e' ↦
          let p = elsewhere t ht (ne_of_== s t e) in
          let q = elsewhere u hu (ne_of_== s u e') in
          names.unique t u ht hu (ap is_empty (sym p) ∙ used) (ap is_empty (sym q) ∙ used')
            (ap text (sym p) ∙ same ∙ ap text q)
    ]
  ]

  pub patched-HasNames : IsFresh → HasNames n table'
  patched-HasNames fresh = record {
    readable = λ t h u. elim (Bool-cases (s == t)) [
      | inl e ↦
          let q = here t (eq_of_== s t e) in
          subst (λ x. x.name_len ≤ max_name_len) (sym q) (fresh (ap is_empty (sym q) ∙ u)).0
      | inr e ↦
          let q = elsewhere t h (ne_of_== s t e) in
          subst (λ x. x.name_len ≤ max_name_len) (sym q)
            (names.readable t h (ap is_empty (sym q) ∙ u))
    ];
    unique = unique_after fresh;
  }

  -- A name that neither the old entry of the slot has nor the new one.
  pub kept-Shows :
      (q : List ℕ) (v : Option DirEntry)
      → named q (table s) ≡ false
      → named q entry ≡ false
      → Shows n table q v
      → Shows n table' q v
  kept-Shows q none old new h = λ t lt. elim (Bool-cases (s == t)) [
    | inl e ↦ rw (entries t lt, e) new
    | inr e ↦ rw (entries t lt, e) (h t lt)
  ]
  kept-Shows q (some e) old new h =
      let other : s ≢ h.at =
        λ same. clash (named q (table s)) (ap (λ t. named q (table t)) same ∙ h.matches) old in
      record {
        at = h.at;
        below = h.below;
        matches = ap (named q) (elsewhere h.at h.below other) ∙ h.matches;
        entry = elsewhere h.at h.below other ∙ h.entry;
      }

  -- A name that the old entry had and the new one has not.
  pub gone-Shows :
      (q : List ℕ) → named q (table s) ≡ true → named q entry ≡ false → Shows n table' q none
  gone-Shows q old new t lt = elim (Bool-cases (s == t)) [
    | inl e ↦ rw (entries t lt, e) new
    | inr e ↦
        rw (entries t lt, e)
          (elim (Bool-cases (named q (table t))) [
            | inl m ↦ absurd (ne_of_== s t e (same_slot names q s t below lt old m))
            | inr m ↦ m
          ])
  ]

  -- A name that the new entry has.
  pub placed-Shows : (q : List ℕ) → named q entry ≡ true → Shows n table' q (some entry)
  placed-Shows q new = record {
    at = s;
    below = below;
    matches = ap (named q) at_place ∙ new;
    entry = at_place;
  }

-- An entry under a new name comes to a free slot.
module _ (n : ℕ) (table table' : ℕ → DirEntry) (names : HasNames n table) (s : ℕ) (below : s < n)
    (entry : DirEntry) (entries : (t : ℕ) → t < n → table' t ≡ (if s == t then entry else table t))
    (name : List ℕ) (free : is_empty (table s) ≡ true) (used : is_empty entry ≡ false)
    (short : entry.name_len ≤ max_name_len) (called : text entry ≡ name)
    (absent : Shows n table name none) where
  pub added-HasNames : HasNames n table'
  added-HasNames = patched-HasNames n table table' names s below entry entries (λ u. (
    short,
    λ t h ne u' same.
        clash (named name (table t)) (named-text name (table t) u' (sym same ∙ called))
          (absent t h),
  ))

  pub added-Shows :
      (f : Names)
      → ((q : List ℕ) → Shows n table q (f q))
      → (q : List ℕ) → Shows n table' q (update f name (some entry) q)
  added-Shows f models q = elim (Bool-cases (bytes_eq name q)) [
    | inl e ↦ rw e (
        placed-Shows n table table' names s below entry entries q
          (named-text q entry used (called ∙ (bytes_eq_iff name q).0 e)))
    | inr e ↦ rw e (
        kept-Shows n table table' names s below entry entries q (f q) (named_empty q (table s) free)
          (named-ne q entry (λ same. bytes_ne name q e (sym called ∙ same))) (models q))
  ]

module _ ⦃dev : Device⦄ where
  open dev use {Disk, blocks}

  -- A well-formed directory whose inode is stored.
  pub record IsDirectory (d : Disk) (sb : SuperBlock) (dir : Inode) : Type 0 where
    pub stored : read_inode d sb dir.inode_no ≡ ok dir
    pub typed : IsTyped dir
    pub image : InImage d sb dir.inode_no
    pub held : HasDirBlocks d sb dir
    pub names : HasNames (slots dir) (slot d dir)
