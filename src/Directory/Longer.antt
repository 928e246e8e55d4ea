-- ===== src/Directory/Longer.antt =====
-- A table of slots that is continued by free ones.
use operating_system_experie.Base.{
  get_or-replicate, ℕ, ◌+◌, ◌*◌, ◌≤◌, ◌<◌, ◌≡◌, ap, sym, ◌∙◌, Bool, true, false, List, Option, none,
  some, arith, block_size, ==_of_eq, subst,
}
use operating_system_experie.Base.Slices.{byte-slice, zeros}
use native.Mathlib.Decide.{dec_lt}
use operating_system_experie.Directory.{
  DirEntry, max_name_len, entries_per_block, dir_entry_size, is_empty, entry_at, from_bytes,
}
use operating_system_experie.Directory.Slots.{HasNames, named, named_empty, text}
use operating_system_experie.Directory.View.{Shows}

-- The slots of a block of zeros are free.
pub zeros_empty : (j : ℕ) → j < entries_per_block → is_empty (entry_at (zeros block_size) j) ≡ true
unfolding is_empty entry_at from_bytes
zeros_empty j h = ==_of_eq _ 0 (
    byte-slice (j * dir_entry_size) dir_entry_size (zeros block_size) 5 (omega arith)
    ∙ get_or-replicate {A = ℕ} block_size (j * dir_entry_size + 5) 0)

clash : (b : Bool) → b ≡ true → b ≡ false → ⊥
clash b t f = cc

-- The slots of a table stay, and the ones behind them are free.
module _ (n n' : ℕ) (longer : n ≤ n') (table table' : ℕ → DirEntry)
    (old : (s : ℕ) → s < n → table' s ≡ table s)
    (free : (s : ℕ) → n ≤ s → s < n' → is_empty (table' s) ≡ true) where
  used_old : (t : ℕ) → t < n' → is_empty (table' t) ≡ false → t < n
  used_old t g h = elim (dec_lt t n) [
    | yes lt ↦ lt
    | no ge ↦ absurd (clash (is_empty (table' t)) (free t (omega arith) g) h)
  ]

  pub continued-HasNames : HasNames n table → HasNames n' table'
  continued-HasNames names = record {
    readable = λ t h used.
        let q = old t (used_old t h used) in
        subst (λ x. x.name_len ≤ max_name_len) (sym q)
          (names.readable t (used_old t h used) (ap is_empty (sym q) ∙ used));
    unique = λ t u ht hu ut uu same.
        let p = old t (used_old t ht ut) in
        let q = old u (used_old u hu uu) in
        names.unique t u (used_old t ht ut) (used_old u hu uu) (ap is_empty (sym p) ∙ ut)
          (ap is_empty (sym q) ∙ uu) (ap text (sym p) ∙ same ∙ ap text q);
  }

  pub continued-Shows : (q : List ℕ) (v : Option DirEntry) → Shows n table q v → Shows n' table' q v
  continued-Shows q none h = λ t lt. elim (dec_lt t n) [
    | yes before ↦ ap (named q) (old t before) ∙ h t before
    | no behind ↦ named_empty q (table' t) (free t (omega arith) lt)
  ]
  continued-Shows q (some x) h = record {
    at = h.at;
    below = omega (arith, h.below);
    matches = ap (named q) (old h.at h.below) ∙ h.matches;
    entry = old h.at h.below ∙ h.entry;
  }
