-- ===== src/Fs/Dots.antt =====
-- The block of a new directory, as a table of entries.
use operating_system_experie.Base.{
  ℕ, ◌*◌, ◌^◌, ◌<◌, ◌≡◌, refl, ap, sym, ◌∙◌, Bool, true, false, List, none, some, arith, length,
  block_size, if◌then◌else◌, ◌==◌, eq_of_==, ne_of_==, Bool-cases, inl, inr,
}
use operating_system_experie.Base.Slices.{splice, zeros, length-splice, length-zeros}
use operating_system_experie.Base.Utf8.{is_utf8}
use operating_system_experie.Directory.{
  DirEntry, entries_per_block, dir_entry_size, is_empty, entry_at, new, to_bytes,
}
use operating_system_experie.Directory.Entry.{new-IsTyped}
use operating_system_experie.Directory.Slots.{named_empty, HasNames}
use operating_system_experie.Directory.View.{Names, update, Shows}
use operating_system_experie.Directory.Patch.{entry_at-splice_self, entry_at-splice_ne}
use operating_system_experie.Directory.Effect.{added-HasNames, added-Shows}
use operating_system_experie.Directory.Longer.{zeros_empty}
use operating_system_experie.Directory.Add.{IsName, new-used, new-short, text-new}
use operating_system_experie.Fs.{dot, dotdot, dot_block}

pub dot-IsName : IsName dot
unfolding is_utf8
dot-IsName = record {
  some_bytes = omega arith;
  short = omega arith;
  utf8 = refl;
  bytes = grind arith;
}

pub dotdot-IsName : IsName dotdot
unfolding is_utf8
dotdot-IsName = record {
  some_bytes = omega arith;
  short = omega arith;
  utf8 = refl;
  bytes = grind arith;
}

-- The map of a new directory.
abbrev pub dots : ℕ → ℕ → Names
dots self parent =
    update (update (λ q. none) dot (some (new self dot true))) dotdot
      (some (new parent dotdot true))

clash : (b : Bool) → b ≡ true → b ≡ false → ⊥
clash b t f = cc

-- The slots of a block when an entry is copied to one of them.
spliced :
    (buf : List ℕ)
    → length buf ≡ block_size
    → (e : DirEntry) → operating_system_experie.Directory.IsTyped e
    → (s t : ℕ) → s < entries_per_block
    → entry_at (splice (s * dir_entry_size) (to_bytes e) buf) t
      ≡ (if s == t then e else entry_at buf t)
spliced buf len e typed s t h = elim (Bool-cases (s == t)) [
  | inl q ↦ rw q (
      ap (entry_at (splice (s * dir_entry_size) (to_bytes e) buf)) (sym (eq_of_== s t q))
      ∙ entry_at-splice_self e buf s typed len h)
  | inr q ↦ rw q (entry_at-splice_ne e buf s t (ne_of_== s t q))
]

module _ (self parent : ℕ) (fits : self < 2 ^ 32) (fits' : parent < 2 ^ 32) where
  abbrev first : List ℕ
  first = splice 0 (to_bytes (new self dot true)) (zeros block_size)

  length-first : length first ≡ block_size
  length-first = length-splice 0 _ (zeros block_size) ∙ length-zeros block_size

  none_there : (q : List ℕ) → Shows entries_per_block (entry_at (zeros block_size)) q none
  none_there q t h = named_empty q (entry_at (zeros block_size) t) (zeros_empty t h)

  blank-HasNames : HasNames entries_per_block (entry_at (zeros block_size))
  blank-HasNames = record {
    readable = λ t h used. absurd (clash _ (zeros_empty t h) used);
    unique = λ t u h g used used' same. absurd (clash _ (zeros_empty t h) used);
  }

  first_entries :
      (t : ℕ)
      → t < entries_per_block
      → entry_at first t ≡ (if 0 == t then new self dot true else entry_at (zeros block_size) t)
  first_entries t h =
      spliced (zeros block_size) (length-zeros block_size) (new self dot true)
        (new-IsTyped self dot true fits dot-IsName.bytes) 0 t (omega arith)

  first-HasNames : HasNames entries_per_block (entry_at first)
  first-HasNames =
      added-HasNames entries_per_block (entry_at (zeros block_size)) (entry_at first) blank-HasNames
        0 (omega arith) (new self dot true) first_entries dot (zeros_empty 0 (omega arith))
        (new-used self dot true dot-IsName) (new-short self dot true dot-IsName)
        (text-new self dot true dot-IsName) (none_there dot)

  first-Shows :
      (q : List ℕ)
      → Shows entries_per_block
          (entry_at first)
          q
          (update (λ q. none) dot (some (new self dot true)) q)
  first-Shows =
      added-Shows entries_per_block (entry_at (zeros block_size)) (entry_at first) blank-HasNames 0
        (omega arith) (new self dot true) first_entries dot (zeros_empty 0 (omega arith))
        (new-used self dot true dot-IsName) (new-short self dot true dot-IsName)
        (text-new self dot true dot-IsName) (none_there dot) (λ q. none) none_there

  entries :
      (t : ℕ)
      → t < entries_per_block
      → entry_at (dot_block self parent) t
        ≡ (if 1 == t then new parent dotdot true else entry_at first t)
  unfolding dot_block
  entries t h =
      spliced first length-first (new parent dotdot true)
        (new-IsTyped parent dotdot true fits' dotdot-IsName.bytes) 1 t (omega arith)

  second_free : is_empty (entry_at first 1) ≡ true
  second_free = ap is_empty (first_entries 1 (omega arith)) ∙ zeros_empty 1 (omega arith)

  pub dot_block-HasNames : HasNames entries_per_block (entry_at (dot_block self parent))
  dot_block-HasNames =
      added-HasNames entries_per_block (entry_at first) (entry_at (dot_block self parent))
        first-HasNames 1 (omega arith) (new parent dotdot true) entries dotdot second_free
        (new-used parent dotdot true dotdot-IsName) (new-short parent dotdot true dotdot-IsName)
        (text-new parent dotdot true dotdot-IsName) (first-Shows dotdot)

  -- The two entries of a new directory, and no others.
  pub dot_block-Shows :
      (q : List ℕ)
      → Shows entries_per_block (entry_at (dot_block self parent)) q (dots self parent q)
  dot_block-Shows =
      added-Shows entries_per_block (entry_at first) (entry_at (dot_block self parent))
        first-HasNames 1 (omega arith) (new parent dotdot true) entries dotdot second_free
        (new-used parent dotdot true dotdot-IsName) (new-short parent dotdot true dotdot-IsName)
        (text-new parent dotdot true dotdot-IsName) (first-Shows dotdot)
        (update (λ q. none) dot (some (new self dot true))) first-Shows
