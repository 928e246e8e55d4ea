-- ===== src/Fs/Write.antt =====
-- src/fs.rs: `write` on every branch, with the blocks that it allocates.
use operating_system_experie.Base.{
  ℕ, ◌+◌, ◌-◌, ◌/◌, ◌≤◌, ◌<◌, ◌≡◌, ◌≢◌, true, List, length, max_blocks, page_size, if◌then◌else◌,
  ltb,
}
use operating_system_experie.Base.Slices.{byte}
use operating_system_experie.Base.Outcome.{ok, panic}
use operating_system_experie.Device.{Device}
use operating_system_experie.Superblock.{SuperBlock}
use operating_system_experie.Bitmap.Mark.{bit_at}
use operating_system_experie.Inode.{Inode, read_inode}
use operating_system_experie.Inode.BlockMap.{pointer_at}
use operating_system_experie.Inode.Table.{home}
use operating_system_experie.Fs.{reply, error, enospc, efbig}
use operating_system_experie.Fs.Queries.{read}
use operating_system_experie.Fs.Contents.{max_file_blocks, write}
use operating_system_experie.Fs.Reading.{content_byte}
use operating_system_experie.Fs.Places.{among}
use operating_system_experie.Fs.Grown.{Grown}
use operating_system_experie.Fs.Grow.{cost, IsStuck}
use operating_system_experie.Fs.Extending.{required, IsOnDisk}

module _ ⦃dev : Device⦄ where
  open dev use {Disk, blocks, block}

  module _ (d : Disk) (sb : SuperBlock) (i : Inode) (offset : ℕ) (src : List ℕ) (now : ℕ) where
    abbrev pub end : ℕ
    end = offset + length src

    -- The blocks that the file lacks.
    abbrev pub lacking : ℕ
    lacking = required end - i.block_count

    abbrev pub price : ℕ
    price = cost i.block_count lacking

    -- The state after a write that succeeds.
    pub record Stores : Type 0 where
      pub disk : Disk
      pub after : SuperBlock
      pub inode : Inode
      pub returns : write d sb i.inode_no offset src now ≡ ok (reply (length src), disk, after)
      pub paid : sb.free_blocks ≡ price + after.free_blocks
      pub number : inode.inode_no ≡ i.inode_no
      pub count : inode.block_count ≡ i.block_count + lacking
      pub size : inode.size ≡ (if ltb i.size end then end else i.size)
      pub on_disk : IsOnDisk disk after inode
      pub contents :
          (p : ℕ)
          → p / page_size < inode.block_count
          → content_byte disk inode p ≡ (
              if among offset (length src) p
              then byte src (p - offset)
              else if ltb (p / page_size) i.block_count
              then content_byte d i p
              else 0)
      pub read_back : read disk after i.inode_no offset (length src) ≡ ok src
      pub others :
          (m : ℕ)
          → 6 ≤ m
          → m < max_blocks
          → bit_at d m ≡ true
          → m ≢ home sb i.inode_no
          → m ≢ i.indirect_block
          → ((k : ℕ) → k < i.block_count → pointer_at i d k ≢ m)
          → block disk m ≡ block d m
      pub inodes :
          (m : ℕ)
          → m ≢ i.inode_no
          → home sb m < max_blocks
          → bit_at d (home sb m) ≡ true
          → home sb m ≢ i.indirect_block
          → ((k : ℕ) → k < i.block_count → pointer_at i d k ≢ home sb m)
          → read_inode disk after m ≡ read_inode d sb m
      pub bits : (m : ℕ) → m < max_blocks → bit_at d m ≡ true → bit_at disk m ≡ true

    -- What `write` does.
    pub data Writes : Type 0 where
      nothing : length src ≡ 0 → write d sb i.inode_no offset src now ≡ ok (reply 0, d, sb) → Writes
      too_large :
          0 < length src
          → max_file_blocks < required end
          → write d sb i.inode_no offset src now ≡ ok (error efbig, d, sb)
          → Writes
      disk_full :
          (e : Disk) (sb' : SuperBlock)
          → 0 < length src
          → required end ≤ max_file_blocks
          → sb.free_blocks < price
          → ¬ IsStuck i.block_count lacking sb.free_blocks
          → write d sb i.inode_no offset src now ≡ ok (error enospc, e, sb')
          → read_inode e sb' i.inode_no ≡ ok i
          → ((k : ℕ) → k < i.block_count → block e (pointer_at i d k) ≡ block d (pointer_at i d k))
          → sb'.free_blocks ≡ 0
          → Writes
      panics :
          0 < length src
          → required end ≤ max_file_blocks
          → IsStuck i.block_count lacking sb.free_blocks
          → write d sb i.inode_no offset src now ≡ panic
          → Writes
      stores :
          0 < length src → required end ≤ max_file_blocks → price ≤ sb.free_blocks → Stores → Writes
