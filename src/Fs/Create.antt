-- ===== src/Fs/Create.antt =====
-- The handler `create` as a whole.
use operating_system_experie.Base.{
  ℕ, ◌^◌, ◌≤◌, ◌<◌, ◌≡◌, ◌≢◌, ◌⊎◌, true, false, List, Option, none, some, max_blocks,
}
use operating_system_experie.Base.FirstClear.{first_clear, IsFirst}
use operating_system_experie.Base.Outcome.{ok}
use operating_system_experie.Device.{Device}
use operating_system_experie.Superblock.{SuperBlock}
use operating_system_experie.Bitmap.Mark.{bit_at}
use operating_system_experie.Bitmap.Spared.{IsSpared}
use operating_system_experie.Inode.{Inode, read_inode, new_file, direct_count}
use operating_system_experie.Inode.Table.{home}
use operating_system_experie.Directory.{DirEntry, is_empty, new}
use operating_system_experie.Directory.Slots.{ptr, slot, slots}
use operating_system_experie.Directory.View.{Names, update, Models}
use operating_system_experie.Directory.Sound.{IsSound}
use operating_system_experie.Directory.Add.{IsName}
use operating_system_experie.Fs.{eexist, enospc, reply, error, inode_to_attr}
use operating_system_experie.Fs.Queries.{lookup}
use operating_system_experie.Fs.Numbers.{is_used}
use operating_system_experie.Fs.Changes.{create}

module _ ⦃dev : Device⦄ where
  open dev use {Disk, blocks, block}

  -- The state after a file was made under a number.
  pub record Created (d : Disk) (sb : SuperBlock) (dir : Inode) (f : Names) (name : List ℕ)
      (now number : ℕ) : Type 0 where
    pub disk : Disk
    pub after : SuperBlock
    pub dir' : Inode
    pub returns :
        create d sb dir.inode_no name now
        ≡ ok (reply (inode_to_attr (new_file number now)), disk, after)
    pub sound : IsSound disk after dir'
    pub models : Models disk dir' (update f name (some (new number name false)))
    pub inode : read_inode disk after number ≡ ok (new_file number now)
    pub looked_up :
        lookup disk after dir.inode_no name ≡ ok (reply (inode_to_attr (new_file number now)))
    pub others :
        (k : ℕ)
        → 31 ≤ k
        → k < max_blocks
        → bit_at d k ≡ true
        → k ≢ home sb number
        → k ≢ home sb dir.inode_no
        → ((j : ℕ) → j < dir.block_count → k ≢ ptr dir j)
        → block disk k ≡ block d k

  module _ (d : Disk) (sb : SuperBlock) (dir : Inode) (f : Names) (name : List ℕ) (now : ℕ)
      (i : IsSound d sb dir) (m : Models d dir f) (n : IsName name) (small : now < 2 ^ 64)
      (linked : dir.nlink ≢ 0)
      (away : (number k : ℕ)
        → 1000 ≤ number
        → number ≤ 2000
        → k < dir.block_count
        → ptr dir k ≢ home sb number)
      (still : (number : ℕ) → 1000 ≤ number → number ≤ 2000 → IsSpared d 1 (home sb number)) where
    -- A file that was stored, and has no name: the directory is full.
    pub record Unnamed (number : ℕ) : Type 0 where
      pub disk : Disk
      pub returns : create d sb dir.inode_no name now ≡ ok (error enospc, disk, sb)
      pub inode : read_inode disk sb number ≡ ok (new_file number now)
      pub sound : IsSound disk sb dir
      pub models : Models disk dir f
      pub filled : (s : ℕ) → s < slots dir → is_empty (slot disk dir s) ≡ false
      pub limit : (dir.block_count ≡ direct_count) ⊎ ((m : ℕ) → m < max_blocks → bit_at d m ≡ true)

    -- What `create` does: the name is there already, all numbers are used, or a file is made under
    -- the lowest that is not, and is named unless the directory is full.
    pub data Creates : Type 0 where
      present :
          (x : DirEntry)
          → f name ≡ some x
          → create d sb dir.inode_no name now ≡ ok (error eexist, d, sb)
          → Creates
      exhausted :
          f name ≡ none
          → ((number : ℕ) → 1000 ≤ number → number ≤ 2000 → is_used d sb number ≡ true)
          → create d sb dir.inode_no name now ≡ ok (error enospc, d, sb)
          → Creates
      made :
          (number : ℕ)
          → f name ≡ none
          → IsFirst (is_used d sb) 1000 2001 number
          → Created d sb dir f name now number
          → Creates
      no_name :
          (number : ℕ)
          → f name ≡ none
          → IsFirst (is_used d sb) 1000 2001 number
          → Unnamed number
          → Creates

    searched : Option ℕ
    searched = first_clear (is_used d sb) 1001 1000
