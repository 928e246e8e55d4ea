-- ===== src/Directory/Refine.antt =====
-- `dir_add_entry` on every branch, against the map of the directory.
use operating_system_experie.Base.{
  ℕ, ◌+◌, ◌<◌, ◌^◌, ◌≡◌, refl, subst, ◌∙◌, Bool, true, false, not, List, Option, none, some, arith,
  le→leb, lt→leb, Option-cases, inl, inr, max_blocks,
}
use operating_system_experie.Base.FirstClear.{
  IsFirst, first_clear, first_clear-some, first_clear-none,
}
use operating_system_experie.Base.Outcome.{ok, ◌>>=◌}
use native.Mathlib.Decide.{dec_lt}
use operating_system_experie.Device.{Device}
use operating_system_experie.Superblock.{SuperBlock}
use operating_system_experie.Bitmap.Mark.{bit_at}
use operating_system_experie.Bitmap.Alloc.{allocate_block_lem}
use operating_system_experie.Inode.{Inode, direct_count}
use operating_system_experie.Directory.{
  DirEntry, failed, already_exists, too_large, no_free_blocks, is_empty, new, to_bytes, extend,
  dir_add_entry,
}
use operating_system_experie.Directory.Entry.{new-IsTyped}
use operating_system_experie.Directory.Slots.{ptr, slot, slots}
use operating_system_experie.Directory.Search.{free_from_search}
use operating_system_experie.Directory.View.{Names, Models, Shows, dir_find-FindsAs}
use operating_system_experie.Directory.Patch.{touched}
use operating_system_experie.Directory.Sound.{IsSound}
use operating_system_experie.Directory.Add.{
  IsName, Added, fills_slot, absent, new-short, new-used, text-new,
}
use operating_system_experie.Directory.Extend.{extend-Extended}

module _ ⦃dev : Device⦄ where
  open dev use {Disk, blocks, block}

  module _ (d : Disk) (sb : SuperBlock) (dir : Inode) (f : Names) (name : List ℕ) (child : ℕ)
      (is_dir : Bool) (now : ℕ) where
    abbrev pub IsFilled : Type 0
    IsFilled = (s : ℕ) → s < slots dir → is_empty (slot d dir s) ≡ false

    -- What `dir_add_entry` does: the name is there already, or it is put into the map, or the blocks
    -- of the directory are full and there is no further one.
    pub data Adds : Type 0 where
      already :
          (x : DirEntry)
          → f name ≡ some x
          → dir_add_entry d sb dir name child is_dir now ≡ ok (failed already_exists, d, sb, dir)
          → Adds
      put_in :
          f name ≡ none
          → (a : Added d sb dir f name child is_dir now) → a.after ≡ sb
          → a.inode ≡ touched dir now
          → Adds
      put_in_new_block :
          f name ≡ none
          → IsFilled
          → (a : Added d sb dir f name child is_dir now) → a.inode.block_count ≡ dir.block_count + 1
          → IsFirst (bit_at d) 0 max_blocks (ptr a.inode dir.block_count)
          → Adds
      at_limit :
          f name ≡ none
          → IsFilled
          → dir.block_count ≡ direct_count
          → dir_add_entry d sb dir name child is_dir now ≡ ok (failed too_large, d, sb, dir)
          → Adds
      disk_full :
          f name ≡ none
          → IsFilled
          → ((m : ℕ) → m < max_blocks → bit_at d m ≡ true)
          → dir_add_entry d sb dir name child is_dir now ≡ ok (failed no_free_blocks, d, sb, dir)
          → Adds

    module _ (i : IsSound d sb dir) (m : Models d dir f) (named_well : IsName name)
        (fits : child < 2 ^ 32) (small : now < 2 ^ 64) where
      searched : Option ℕ
      searched = first_clear (λ s. not (is_empty (slot d dir s))) (slots dir) 0

      used_of_not : (b : Bool) → not b ≡ false → b ≡ true
      used_of_not b h = ground arith

      free_of_not : (b : Bool) → not b ≡ true → b ≡ false
      free_of_not b h = ground arith

      -- No slot is free.
      module _ (e : f name ≡ none) (nothing : searched ≡ none) where
        filled : IsFilled
        unfolding searched
        filled s h = free_of_not (is_empty (slot d dir s)) (
            first_clear-none (λ s. not (is_empty (slot d dir s))) (slots dir) 0 s nothing
              (omega arith) (omega arith))

        to_extend :
            dir_add_entry d sb dir name child is_dir now
            ≡ extend d sb dir (to_bytes (new child name is_dir)) now
        unfolding dir_add_entry searched
        to_extend =
            rw
              (
                dir_add_entry,
                dir_find-FindsAs d sb dir i.directory.held i.directory.names name none
                    (absent d sb dir f name child is_dir now i m named_well fits small e),
                ◌>>=◌,
                free_from_search d sb dir i.directory.held dir.block_count 0 (omega arith),
                nothing,
                ◌>>=◌,
              )
              refl

        adds_block : Adds
        unfolding extend
        adds_block = elim (dec_lt dir.block_count direct_count) [
          | no limit ↦
              at_limit e filled (omega (arith, i.directory.held.few))
                (to_extend ∙ rw (extend, le→leb direct_count dir.block_count (omega arith)) refl)
          | yes room ↦ elim (allocate_block_lem d sb i.guarded.consistent) [
            | inl (returns, all) ↦ disk_full e filled all (
                to_extend
                ∙ rw (extend, lt→leb direct_count dir.block_count room, returns, ◌>>=◌) refl)
            | inr a ↦
                let x =
                  extend-Extended d sb dir now i small room (new child name is_dir)
                    (new-IsTyped child name is_dir fits named_well.bytes) a name f m
                    (absent d sb dir f name child is_dir now i m named_well fits small e)
                    (new-used child name is_dir named_well) (new-short child name is_dir named_well)
                    (text-new child name is_dir named_well) in
                put_in_new_block e filled
                  (record {
                    disk = x.disk;
                    after = a.after;
                    inode = x.inode;
                    returns = to_extend ∙ x.returns;
                    sound = x.sound;
                    keeps = x.keeps;
                    models = x.models;
                    size = x.size;
                  })
                  x.count x.lowest
          ]
        ]

      -- A slot is free.
      adds_here : (s : ℕ) → f name ≡ none → searched ≡ some s → Adds
      unfolding searched
      adds_here s e found =
          let first = first_clear-some (λ s. not (is_empty (slot d dir s))) (slots dir) 0 s found in
          let (a, same, inode) =
            fills_slot d sb dir f name child is_dir now i m named_well fits small s
              (omega (arith, first.below)) (used_of_not (is_empty (slot d dir s)) first.clear) e
              (free_from_search d sb dir i.directory.held dir.block_count 0 (omega arith)
                ∙ rw found refl) in
          put_in e a same inode

      there : (x : DirEntry) → f name ≡ some x → Adds
      unfolding dir_add_entry
      there x e =
          let (at, below, same, matches, found) =
            dir_find-FindsAs d sb dir i.directory.held i.directory.names name (some x)
              (subst (Shows (slots dir) (slot d dir) name) e (m name)) in
          already x e (rw (dir_add_entry, found, ◌>>=◌) refl)

      -- On a well-formed directory `dir_add_entry` puts a name of 1 to 28 bytes that is not there
      -- into the map, with its entry, in a free slot or, if there is none, in a new block: the
      -- directory stays well formed, the disk stays consistent, and the taken data blocks of others
      -- keep their bytes. Otherwise nothing changes, and the error says why: the name is there, the
      -- directory has its ten blocks and they are full, or they are full and no block of the disk is
      -- free. The superblock and the bits are consistent, and the blocks of the directory and of its
      -- inode are marked as taken.
      pub dir_add_entry-Adds : Adds
      dir_add_entry-Adds = elim (Option-cases (f name)) [
        | inr (x, e) ↦ there x e
        | inl e ↦ elim (Option-cases searched) [
          | inl nothing ↦ adds_block e nothing
          | inr (s, found) ↦ adds_here s e found
        ]
      ]
