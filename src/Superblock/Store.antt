-- ===== src/Superblock/Store.antt =====
-- The superblock on the device, and the layout that `init_superblock` gives the disk.
use operating_system_experie.Base.{
  ℕ, ◌+◌, ◌*◌, ◌≤◌, ◌<◌, ◌≡◌, refl, ◌∙◌, true, arith, block_size, if◌then◌else◌, ◌==◌, ==_of_ne,
}
use operating_system_experie.Base.Slices.{IsBytes}
use operating_system_experie.Base.Outcome.{ok, panic, ◌>>=◌}
use operating_system_experie.Device.{Device}
use operating_system_experie.Superblock.{
  SuperBlock, IsTyped, magic_bytes, from_bytes, is_valid, calc_bitmap_blocks, fresh, image,
  write_superblock, init_superblock, read_superblock,
}
use operating_system_experie.Superblock.RoundTrip.{image-IsBlock, from_bytes-image}

-- The layout of a new disk: the superblock, 5 blocks of bits, 25 blocks of inodes and the data, one
-- after the other, with a bit for every block and every data block free.
pub fresh_layout :
    (fresh.bitmap_blocks ≡ 5)
    × (fresh.inode_table_start ≡ 1 + fresh.bitmap_blocks)
    × (fresh.data_start ≡ fresh.inode_table_start + fresh.inode_table_blocks)
    × (fresh.data_start + fresh.free_blocks ≡ fresh.total_blocks)
    × (fresh.total_blocks ≤ fresh.bitmap_blocks * (block_size * 8))
unfolding fresh calc_bitmap_blocks
fresh_layout = (refl, refl, refl, refl, omega arith)

magic-IsBytes : IsBytes magic_bytes
magic-IsBytes = grind arith

pub fresh-IsTyped : IsTyped fresh
unfolding fresh calc_bitmap_blocks
fresh-IsTyped = record {
  magic_length = refl;
  magic_bytes = magic-IsBytes;
  total_blocks = omega arith;
  free_blocks = omega arith;
  bitmap_blocks = omega arith;
  inode_table_start = omega arith;
  inode_table_blocks = omega arith;
  data_start = omega arith;
  root_inode = omega arith;
}

pub fresh-is_valid : is_valid fresh ≡ true
unfolding is_valid fresh
fresh-is_valid = refl

module _ ⦃dev : Device⦄ where
  open dev use {Disk, read_block, write_block, blocks, block, put}

  module _ (d : Disk) (h : 0 < blocks d) where
    -- `read_superblock` returns what block 0 holds if its name is right, and panics otherwise.
    pub read_superblock_lem :
        read_superblock d
        ≡ (if is_valid (from_bytes (block d 0)) then ok (from_bytes (block d 0)) else panic)
    unfolding read_superblock
    read_superblock_lem = rw (read_superblock, dev.read_block-ok d 0 h)

    module _ (sb : SuperBlock) (t : IsTyped sb) where
      pub write_superblock-ok : write_superblock d sb ≡ ok (put d 0 (image sb))
      unfolding write_superblock
      write_superblock-ok = dev.write_block-ok d 0 (image sb) h (image-IsBlock sb t)

      pub block-write_superblock :
          (m : ℕ) → block (put d 0 (image sb)) m ≡ (if 0 == m then image sb else block d m)
      block-write_superblock m = dev.block-put d 0 (image sb) m h (image-IsBlock sb t)

  -- `read_superblock` returns what `write_superblock` wrote, if its name is right.
  pub read_superblock-write_superblock :
      (d : Disk) (sb : SuperBlock)
      → 0 < blocks d
      → IsTyped sb
      → is_valid sb ≡ true
      → (write_superblock d sb >>= read_superblock) ≡ ok sb
  read_superblock-write_superblock d sb h t valid = rw (
    write_superblock-ok d h sb t,
    read_superblock_lem (put d 0 (image sb))
        (rw (dev.blocks-put d 0 (image sb) h (image-IsBlock sb t)) h),
    block-write_superblock d h sb t 0,
    from_bytes-image sb t,
    valid,
  )

  -- The state after `init_superblock`.
  pub record Started (d : Disk) : Type 0 where
    pub disk : Disk
    pub returns : init_superblock d ≡ ok (disk, fresh)
    pub stored : block disk 0 ≡ image fresh
    pub readable : read_superblock disk ≡ ok fresh
    pub others : (k : ℕ) → 0 < k → block disk k ≡ block d k
    pub size : blocks disk ≡ blocks d

  -- `init_superblock` returns the new superblock and leaves it in block 0, from where it is read
  -- back; no other block changes.
  pub init_superblock-Started : (d : Disk) → 0 < blocks d → Started d
  unfolding init_superblock
  init_superblock-Started d h = record {
    disk = put d 0 (image fresh);
    returns = rw (
      init_superblock,
      dev.write_block-ok d 0 (image fresh) h (image-IsBlock fresh fresh-IsTyped),
    );
    stored = block-write_superblock d h fresh fresh-IsTyped 0;
    readable = rw (
      read_superblock_lem (put d 0 (image fresh))
          (rw (dev.blocks-put d 0 (image fresh) h (image-IsBlock fresh fresh-IsTyped)) h),
      block-write_superblock d h fresh fresh-IsTyped 0,
      from_bytes-image fresh fresh-IsTyped,
      fresh-is_valid,
    );
    others = λ k pos.
        block-write_superblock d h fresh fresh-IsTyped k ∙ rw (==_of_ne 0 k (omega arith)) refl;
    size = dev.blocks-put d 0 (image fresh) h (image-IsBlock fresh fresh-IsTyped);
  }
