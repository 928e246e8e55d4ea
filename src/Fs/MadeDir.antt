-- ===== src/Fs/MadeDir.antt =====
-- What `mkdir` makes: the inode of a new directory, and the state after it.
use operating_system_experie.Base.{
  ℕ, ◌^◌, ◌≤◌, ◌<◌, ◌≡◌, ◌≢◌, ◌⊎◌, refl, true, false, List, some, arith, max_blocks, page_size, set,
}
use operating_system_experie.Base.Outcome.{ok, panic}
use operating_system_experie.Device.{Device}
use operating_system_experie.Superblock.{SuperBlock}
use operating_system_experie.Bitmap.Mark.{bit_at}
use operating_system_experie.Inode.{Inode, IsTyped, direct_count, new_dir}
use operating_system_experie.Inode.Table.{home}
use operating_system_experie.Directory.{is_empty, new}
use operating_system_experie.Directory.Slots.{ptr, slot, slots}
use operating_system_experie.Directory.View.{Names, update, Models}
use operating_system_experie.Directory.Effect.{IsDirectory}
use operating_system_experie.Directory.Sound.{IsSound}
use operating_system_experie.Fs.{reply, inode_to_attr}
use operating_system_experie.Fs.Dots.{dots}
use operating_system_experie.Fs.Queries.{lookup}
use operating_system_experie.Fs.Changes.{mkdir_at}

-- The inode of a new directory with its block.
abbrev pub made_dir : ℕ → ℕ → ℕ → Inode
made_dir number now n = record (new_dir number now) {
  direct_blocks = set (new_dir number now).direct_blocks 0 n;
  block_count = 1;
  size = page_size;
}

pub made_dir-IsTyped :
    (number now n : ℕ)
    → number < 2 ^ 32
    → now < 2 ^ 64
    → n < 2 ^ 32
    → IsTyped (made_dir number now n)
unfolding new_dir
made_dir-IsTyped number now n fits small below = record {
  inode_no = fits;
  mode = omega arith;
  uid = omega arith;
  gid = omega arith;
  size = omega arith;
  nlink = omega arith;
  block_count = omega arith;
  mtime = small;
  atime = small;
  ctime = small;
  direct_length = refl;
  direct_blocks = grind arith;
  indirect_block = omega arith;
}

pub first_pointer : (number now n : ℕ) → ptr (made_dir number now n) 0 ≡ n
unfolding new_dir
first_pointer number now n = refl

pub same_number : (number now n : ℕ) → (made_dir number now n).inode_no ≡ number
unfolding new_dir
same_number number now n = refl

module _ ⦃dev : Device⦄ where
  open dev use {Disk, blocks, block}

  -- The parent has no free slot, and cannot get one once the block `n` is taken.
  abbrev pub IsFull : Disk → Inode → ℕ → Type 0
  IsFull d dir n =
      ((s : ℕ) → s < slots dir → is_empty (slot d dir s) ≡ false)
      × ((dir.block_count ≡ direct_count) ⊎ ((k : ℕ) → k < max_blocks → n ≢ k → bit_at d k ≡ true))

  module _ (d : Disk) (sb : SuperBlock) (dir : Inode) (f : Names) (name : List ℕ)
      (now number n : ℕ) where
    -- The state after a directory was made under a number, in a block.
    pub record MadeDir : Type 0 where
      pub disk : Disk
      pub after : SuperBlock
      pub dir' : Inode
      pub sound : IsSound disk after dir'
      pub models : Models disk dir' (update f name (some (new number name true)))
      pub looked_up :
          lookup disk after dir.inode_no name ≡ ok (reply (inode_to_attr (made_dir number now n)))
      pub child : IsDirectory disk after (made_dir number now n)
      pub child_models : Models disk (made_dir number now n) (dots number dir.inode_no)
      pub taken : bit_at disk n ≡ true
      pub others :
          (k : ℕ)
          → 31 ≤ k
          → k < max_blocks
          → bit_at d k ≡ true
          → k ≢ home sb number
          → k ≢ home sb dir.inode_no
          → ((j : ℕ) → j < dir.block_count → k ≢ ptr dir j)
          → block disk k ≡ block d k

    -- What `mkdir` does with a number.
    pub data Makes : Type 0 where
      made_in :
          (x : MadeDir)
          → mkdir_at d sb dir dir.inode_no name number now
            ≡ ok (reply (inode_to_attr (made_dir number now n)), x.disk, x.after)
          → Makes
      overfull : IsFull d dir n → mkdir_at d sb dir dir.inode_no name number now ≡ panic → Makes
