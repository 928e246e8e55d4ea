-- ===== src/Directory/View.antt =====
-- What a directory promises: a map from names to entries.
use operating_system_experie.Base.{
  ℕ, ◌<◌, ◌≡◌, refl, ap, sym, ◌∙◌, Bool, true, false, not, List, Option, none, some, bytes_eq,
  bytes_eq_iff, ◌≢◌, arith, if◌then◌else◌, Option-cases, inl, inr,
}
use operating_system_experie.Base.FirstClear.{first_clear, first_clear-some, first_clear-none}
use operating_system_experie.Base.Outcome.{ok}
use operating_system_experie.Device.{Device}
use operating_system_experie.Superblock.{SuperBlock}
use operating_system_experie.Inode.{Inode}
use operating_system_experie.Directory.{DirEntry, dir_find}
use operating_system_experie.Directory.Slots.{
  named, named-used, slot, slots, HasDirBlocks, HasNames,
}
use operating_system_experie.Directory.Search.{found_slot, dir_find_search}

abbrev pub Names : Type 0
Names = List ℕ → Option DirEntry

abbrev pub update : Names → List ℕ → Option DirEntry → Names
update f name v q = if bytes_eq name q then v else f q

clash : (b : Bool) → b ≡ true → b ≡ false → ⊥
clash b t f = cc

pub bytes_ne : (xs ys : List ℕ) → bytes_eq xs ys ≡ false → xs ≢ ys
bytes_ne xs ys h e = clash (bytes_eq xs ys) ((bytes_eq_iff xs ys).1 e) h

used_of_not : (b : Bool) → not b ≡ false → b ≡ true
used_of_not b h = ground arith

free_of_not : (b : Bool) → not b ≡ true → b ≡ false
free_of_not b h = ground arith

-- An entry of a table has a name.
pub record Holds (n : ℕ) (table : ℕ → DirEntry) (q : List ℕ) (e : DirEntry) : Type 0 where
  pub at : ℕ
  pub below : at < n
  pub matches : named q (table at) ≡ true
  pub entry : table at ≡ e

abbrev pub Shows : ℕ → (ℕ → DirEntry) → List ℕ → Option DirEntry → Type 0
Shows n table q none = (s : ℕ) → s < n → named q (table s) ≡ false
Shows n table q (some e) = Holds n table q e

-- Two entries with one name are the same.
pub same_slot :
    {n : ℕ} {table : ℕ → DirEntry}
    → HasNames n table
    → (q : List ℕ) (s t : ℕ) → s < n
    → t < n
    → named q (table s) ≡ true
    → named q (table t) ≡ true
    → s ≡ t
same_slot {table} names q s t hs ht ms mt =
    let us = named-used q (table s) ms in
    let ut = named-used q (table t) mt in names.unique s t hs ht us.0 ut.0 (us.1 ∙ sym ut.1)

module _ ⦃dev : Device⦄ where
  open dev use {Disk, blocks, block}

  -- The slots of a directory hold the entries of a map, and no others.
  abbrev pub Models : Disk → Inode → Names → Type 0
  Models d dir f = (q : List ℕ) → Shows (slots dir) (slot d dir) q (f q)

  -- What `dir_find` returns for the value of a map.
  abbrev pub FindsAs : Disk → Inode → List ℕ → Option DirEntry → Type 0
  FindsAs d dir q none = dir_find d dir q ≡ ok none
  FindsAs d dir q (some e) =
      (at : ℕ) × (at < slots dir)
      × (slot d dir at ≡ e)
      × (named q (slot d dir at) ≡ true)
      × (dir_find d dir q ≡ ok (some (found_slot d dir at)))

  module _ (d : Disk) (sb : SuperBlock) (dir : Inode) (b : HasDirBlocks d sb dir)
      (names : HasNames (slots dir) (slot d dir)) where
    searched : List ℕ → Option ℕ
    searched q = first_clear (λ s. not (named q (slot d dir s))) (slots dir) 0

    -- In a directory with valid blocks and distinct, readable names `dir_find` computes the map that
    -- the slots hold: `none` for a name that no slot in use has, and for any other name the entry of
    -- the one slot that has it, with its block and its offset there.
    pub dir_find-FindsAs :
        (q : List ℕ) (v : Option DirEntry) → Shows (slots dir) (slot d dir) q v → FindsAs d dir q v
    unfolding searched
    dir_find-FindsAs q none h = elim (Option-cases (searched q)) [
      | inl e ↦ dir_find_search d sb dir b names q ∙ rw e refl
      | inr (s, e) ↦
          let r = first_clear-some (λ s. not (named q (slot d dir s))) (slots dir) 0 s e in
          absurd (
            clash (named q (slot d dir s)) (used_of_not (named q (slot d dir s)) r.clear)
              (h s (omega (arith, r.below))))
    ]
    dir_find-FindsAs q (some e) h = elim (Option-cases (searched q)) [
      | inl none_found ↦ absurd (
          clash (named q (slot d dir h.at)) h.matches (
            free_of_not (named q (slot d dir h.at)) (
              first_clear-none (λ s. not (named q (slot d dir s))) (slots dir) 0 h.at none_found
                (omega arith) (omega (arith, h.below)))))
      | inr (s, found) ↦
          let r = first_clear-some (λ s. not (named q (slot d dir s))) (slots dir) 0 s found in
          let below : s < slots dir = omega (arith, r.below) in
          let m = used_of_not (named q (slot d dir s)) r.clear in
          (
            s,
            below,
            ap (slot d dir) (same_slot names q s h.at below h.below m h.matches) ∙ h.entry,
            m,
            dir_find_search d sb dir b names q ∙ rw found refl,
          )
    ]
