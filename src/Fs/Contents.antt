-- ===== src/Fs/Contents.antt =====
-- src/fs.rs: the handlers write and setattr.
use operating_system_experie.Base.{
  ℕ, zero, suc, ◌+◌, ◌-◌, ◌*◌, ◌/◌, ◌%◌, ◌^◌, Option, none, some, List, min, length, take, drop,
  set, if◌then◌else◌, ◌==◌, ltb, leb, block_size, page_size, bit_and, bit_or,
}
use operating_system_experie.Base.Slices.{splice, zeros}
use operating_system_experie.Base.Endian.{to_le_bytes}
use operating_system_experie.Base.Outcome.{Outcome, ok, ◌>>=◌, ◌>>◌, check, expect}
use operating_system_experie.Device.{Device}
use operating_system_experie.Superblock.{SuperBlock}
use operating_system_experie.Bitmap.{allocate_block}
use operating_system_experie.Inode.{Inode, direct_count, read_inode, write_inode, get_block}
use operating_system_experie.Fs.{enospc, efbig, Reply, reply, error, FileAttr, inode_to_attr}

abbrev pub max_file_blocks : ℕ
max_file_blocks = 20

-- The mode after `chmod`: the type of the file stays.
unfoldable pub new_mode : ℕ → Option ℕ → ℕ
new_mode mode none = mode
new_mode mode (some m) = bit_or (bit_and mode 0xF000) (bit_and m 0o777)

module _ ⦃dev : Device⦄ where
  open dev use {Disk, read_block, write_block}

  -- A new block becomes the first of a new indirect block.
  unfoldable pub attach_indirect :
      Disk → SuperBlock → Inode → ℕ → Outcome (Disk × SuperBlock × Inode)
  attach_indirect d sb i n = do
    (d, sb, got) ← allocate_block d sb
    indirect ← expect got
    d ← write_block d indirect (splice 0 (to_le_bytes 2 (n % 2 ^ 16)) (zeros block_size))
    ok (d, sb, record i { indirect_block = indirect })

  -- A new block becomes the last of an inode: a direct pointer, the first pointer of a new indirect
  -- block, or a later one.
  unfoldable pub attach : Disk → SuperBlock → Inode → ℕ → Outcome (Disk × SuperBlock × Inode)
  attach d sb i n =
      let at = i.block_count in
      if ltb at direct_count
      then ok (d, sb, record i { direct_blocks = set i.direct_blocks at n })
      else if at == direct_count
      then attach_indirect d sb i n
      else do
        buf ← read_block d i.indirect_block
        let offset = (at - direct_count) * 2
        check (leb (offset + 2) block_size)
        d ← write_block d i.indirect_block (splice offset (to_le_bytes 2 (n % 2 ^ 16)) buf)
        ok (d, sb, i)

  -- The loop that gives an inode `left` more blocks, each of them zeroed. `none` if the disk is
  -- full.
  unfoldable pub grow : ℕ → Disk → SuperBlock → Inode → Outcome (Option Inode × Disk × SuperBlock)
  grow zero d sb i = ok (some i, d, sb)
  grow (suc left) d sb i = do
    (d, sb, got) ← allocate_block d sb
    elim got [
      | none ↦ ok (none, d, sb)
      | some n ↦ do
        (d, sb, i) ← attach d sb i n
        d ← write_block d n (zeros block_size)
        grow left d sb (record i { block_count = (i.block_count + 1) % 2 ^ 16 })
    ]

  -- The loop that copies the data into the blocks, while some remain. Every round copies one byte
  -- at least, so as many rounds as bytes are enough.
  unfoldable pub store : ℕ → Disk → Inode → List ℕ → ℕ → ℕ → Outcome Disk
  store zero d i bytes index offset = ok d
  store (suc fuel) d i bytes index offset = if length bytes == 0 then ok d else do
    block ← get_block i d index
    n ← expect block
    buf ← read_block d n
    let to_write = min (length bytes) (page_size - offset)
    d ← write_block d n (splice offset (take to_write bytes) buf)
    store fuel d i (drop to_write bytes) ((index + 1) % 2 ^ 32) 0

  -- The data goes into the blocks, and the inode is stored with its new size and times.
  unfoldable pub write_data : Disk → SuperBlock → Inode → ℕ → List ℕ → ℕ → Outcome Disk
  write_data d sb i offset bytes now = do
    let size = length bytes
    d ← store size d i bytes (offset % 2 ^ 32 / page_size) (offset % page_size)
    let new_size = (offset + size) % 2 ^ 64
    let i = record i {
      size = if ltb i.size new_size then new_size % 2 ^ 32 else i.size;
      mtime = now;
      atime = now;
    }
    write_inode d sb i

  -- An offset is an i64.
  unfoldable pub write :
      Disk → SuperBlock → ℕ → ℕ → List ℕ → ℕ → Outcome (Reply ℕ × Disk × SuperBlock)
  write d sb ino offset bytes now = do
    i ← read_inode d sb (ino % 2 ^ 32)
    let size = length bytes
    let required = (offset + size + page_size - 1) % 2 ^ 64 / page_size % 2 ^ 32
    if size == 0
        then ok (reply 0, d, sb)
        else if ltb max_file_blocks required
        then ok (error efbig, d, sb)
        else do
          (grown, d, sb) ← grow (required - i.block_count) d sb i
          elim grown [
            | none ↦ ok (error enospc, d, sb)
            | some i ↦ do d ← write_data d sb i offset bytes now; ok (reply (size % 2 ^ 32), d, sb)
          ]

  -- A change of the mode. The other attributes that are asked for are not looked at.
  unfoldable pub setattr :
      Disk → SuperBlock → ℕ → Option ℕ → ℕ → Outcome (Reply FileAttr × Disk × SuperBlock)
  setattr d sb ino mode now = do
    i ← read_inode d sb (ino % 2 ^ 32)
    let i = record i { mode = new_mode i.mode mode; mtime = now }
    d ← write_inode d sb i
    ok (reply (inode_to_attr i), d, sb)
