-- ===== src/Fs/Enter.antt =====
-- src/fs.rs: the step that create and mkdir share. A new inode is stored, and its name enters the
-- directory.
use operating_system_experie.Base.{
  ℕ, ◌^◌, ◌<◌, ◌≡◌, ◌≢◌, ◌⊎◌, refl, ap, sym, subst, ◌∙◌, Bool, true, List, none, some, arith,
  max_blocks, inl, inr,
}
use native.Mathlib.Decide.{dec_lt}
use operating_system_experie.Base.Outcome.{ok}
use operating_system_experie.Device.{Device}
use operating_system_experie.Superblock.{SuperBlock}
use operating_system_experie.Bitmap.Mark.{bit_at}
use operating_system_experie.Bitmap.Spared.{IsSpared, first-IsSpared}
use operating_system_experie.Inode.{Inode, read_inode, direct_count}
use operating_system_experie.Inode.Table.{home, InImage}
use operating_system_experie.Directory.{
  DirError, too_large, no_free_blocks, done, failed, new, dir_add_entry,
}
use operating_system_experie.Directory.Slots.{ptr, slot, slots}
use operating_system_experie.Directory.View.{Names, update, Models, Shows}
use operating_system_experie.Directory.Sound.{IsSound, Keeps}
use operating_system_experie.Directory.Add.{IsName, Added}
use operating_system_experie.Directory.Refine.{
  Adds, IsFilled, already, put_in, put_in_new_block, at_limit, disk_full, dir_add_entry-Adds,
}
use operating_system_experie.Fs.{reply, enospc, inode_to_attr}
use operating_system_experie.Fs.Queries.{lookup}
use operating_system_experie.Fs.Lookup.{lookup-LooksUp, updated_here}
use operating_system_experie.Fs.Changes.{errno_of}

module _ ⦃dev : Device⦄ where
  open dev use {Disk, blocks, block}

  module _ (d : Disk) (sb : SuperBlock) (dir : Inode) (f : Names) (name : List ℕ) (now number : ℕ)
      (is_dir : Bool) (x : Inode) where
    -- The name leads to the inode.
    pub record Entered : Type 0 where
      pub disk : Disk
      pub after : SuperBlock
      pub dir' : Inode
      pub returns : dir_add_entry d sb dir name number is_dir now ≡ ok (done, disk, after, dir')
      pub sound : IsSound disk after dir'
      pub models : Models disk dir' (update f name (some (new number name is_dir)))
      pub keeps : Keeps d sb dir disk after dir'
      pub inode : read_inode disk after number ≡ ok x
      pub looked_up : lookup disk after dir.inode_no name ≡ ok (reply (inode_to_attr x))

    -- The directory takes the name, or it is full: it has its ten blocks, or no block is free for
    -- an eleventh.
    pub data Enters : Type 0 where
      entered : Entered → Enters
      no_room :
          (e : DirError)
          → dir_add_entry d sb dir name number is_dir now ≡ ok (failed e, d, sb, dir)
          → errno_of e ≡ enospc
          → IsFilled d sb dir f name number is_dir now
          → (dir.block_count ≡ direct_count) ⊎ ((m : ℕ) → m < max_blocks → bit_at d m ≡ true)
          → Enters

    module _ (i : IsSound d sb dir) (m : Models d dir f) (n : IsName name) (small : now < 2 ^ 64)
        (fits : number < 2 ^ 32) (stored : read_inode d sb number ≡ ok x)
        (other : number ≢ dir.inode_no) (image : InImage d sb number)
        (away : (k : ℕ) → k < dir.block_count → ptr dir k ≢ home sb number)
        (still : IsSpared d 1 (home sb number)) (e : f name ≡ none) where
      impossible : {A : Type 0} {a : A} → none ≡ some a → ⊥
      impossible e = cc

      entry_number : (new number name is_dir).inode ≡ number
      unfolding new
      entry_number = refl

      module _ (a : Added d sb dir f name number is_dir now)
          (apart : (j : ℕ) → j < a.inode.block_count → home sb number ≢ ptr a.inode j) where
        kept : read_inode a.disk a.after number ≡ ok x
        kept = a.keeps.inodes number other image apart ∙ stored

        enter : Enters
        enter = entered (record {
          disk = a.disk;
          after = a.after;
          dir' = a.inode;
          returns = a.returns;
          sound = a.sound;
          models = a.models;
          keeps = a.keeps;
          inode = kept;
          looked_up =
              ap (λ k. lookup a.disk a.after k name) (sym a.keeps.number)
              ∙ lookup-LooksUp a.disk a.after a.inode a.sound name n.utf8
                  (some (new number name is_dir))
                  (subst (Shows (slots a.inode) (slot a.disk a.inode) name)
                    (updated_here f name (some (new number name is_dir))) (a.models name))
              ∙ rw (entry_number, kept) refl;
        })

      enters : Adds d sb dir f name number is_dir now → Enters
      unfolding errno_of
      enters (already y q r) = absurd (impossible (sym e ∙ q))
      enters (put_in q a same at) = enter a (
          subst (λ y. (j : ℕ) → j < y.block_count → home sb number ≢ ptr y j) (sym at)
            (λ j h same. away j h (sym same)))
      enters (put_in_new_block q full a more lowest) = enter a (λ j h same.
          elim (dec_lt j dir.block_count) [
            | yes lt ↦ away j lt (sym ((a.keeps.blocks_kept j lt).1) ∙ sym same)
            | no ge ↦
                let last : j ≡ dir.block_count = omega (arith, more) in
                first-IsSpared d (ptr a.inode dir.block_count) (home sb number) lowest still
                  (ap (ptr a.inode) (sym last) ∙ sym same)
          ])
      enters (at_limit q full ten r) = no_room too_large r refl full (inl ten)
      enters (disk_full q full all r) = no_room no_free_blocks r refl full (inr all)

      pub enter-Enters : Enters
      enter-Enters = enters (dir_add_entry-Adds d sb dir f name number is_dir now i m n fits small)
