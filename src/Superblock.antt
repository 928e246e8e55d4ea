-- ===== src/Superblock.antt =====
-- src/superblock.rs: the record in block 0, its bytes, and how it is read and written.
pub mod RoundTrip
pub mod Store
use operating_system_experie.Base.{
  ℕ, ◌+◌, ◌-◌, ◌*◌, ◌/◌, ◌^◌, ◌≡◌, ◌<◌, Bool, List, [], ◌∷◌, length, take, if◌then◌else◌,
  block_size, max_blocks, bytes_eq,
}
use operating_system_experie.Base.Slices.{IsBytes, slice, splice, zeros}
use operating_system_experie.Base.Endian.{to_le_bytes, u32_at}
use operating_system_experie.Base.Outcome.{Outcome, ok, panic, ◌>>=◌}
use operating_system_experie.Device.{Device}

-- b"SIMPLEFS-RUST"
abbrev pub name_bytes : List ℕ
name_bytes =
    b'S' ∷ b'I' ∷ b'M' ∷ b'P' ∷ b'L' ∷ b'E' ∷ b'F' ∷ b'S' ∷ b'-' ∷ b'R' ∷ b'U' ∷ b'S' ∷ b'T' ∷ []

-- b"SIMPLEFS-RUST\0\0\0"
abbrev pub magic_bytes : List ℕ
magic_bytes =
    b'S' ∷ b'I' ∷ b'M' ∷ b'P' ∷ b'L' ∷ b'E' ∷ b'F' ∷ b'S' ∷ b'-' ∷ b'R' ∷ b'U' ∷ b'S' ∷ b'T' ∷ 0 ∷ 0
    ∷ 0 ∷ []

pub record SuperBlock : Type 0 where
  pub magic : List ℕ
  pub total_blocks : ℕ
  pub free_blocks : ℕ
  pub bitmap_blocks : ℕ
  pub inode_table_start : ℕ
  pub inode_table_blocks : ℕ
  pub data_start : ℕ
  pub root_inode : ℕ

-- The ranges that the types of the fields give: `[u8; 16]` and seven times `u32`.
pub record IsTyped (sb : SuperBlock) : Type 0 where
  pub magic_length : length sb.magic ≡ 16
  pub magic_bytes : IsBytes sb.magic
  pub total_blocks : sb.total_blocks < 2 ^ 32
  pub free_blocks : sb.free_blocks < 2 ^ 32
  pub bitmap_blocks : sb.bitmap_blocks < 2 ^ 32
  pub inode_table_start : sb.inode_table_start < 2 ^ 32
  pub inode_table_blocks : sb.inode_table_blocks < 2 ^ 32
  pub data_start : sb.data_start < 2 ^ 32
  pub root_inode : sb.root_inode < 2 ^ 32

abbrev pub superblock_size : ℕ
superblock_size = 16 + 4 + 4 + 4 + 4 + 4 + 4 + 4

pub from_bytes : List ℕ → SuperBlock
from_bytes buf = record {
  magic = slice 0 16 buf;
  total_blocks = u32_at 16 buf;
  free_blocks = u32_at 20 buf;
  bitmap_blocks = u32_at 24 buf;
  inode_table_start = u32_at 28 buf;
  inode_table_blocks = u32_at 32 buf;
  data_start = u32_at 36 buf;
  root_inode = u32_at 40 buf;
}

pub to_bytes : SuperBlock → List ℕ
to_bytes sb =
    let buf = zeros superblock_size in
    let buf = splice 0 sb.magic buf in
    let buf = splice 16 (to_le_bytes 4 sb.total_blocks) buf in
    let buf = splice 20 (to_le_bytes 4 sb.free_blocks) buf in
    let buf = splice 24 (to_le_bytes 4 sb.bitmap_blocks) buf in
    let buf = splice 28 (to_le_bytes 4 sb.inode_table_start) buf in
    let buf = splice 32 (to_le_bytes 4 sb.inode_table_blocks) buf in
    let buf = splice 36 (to_le_bytes 4 sb.data_start) buf in
    splice 40 (to_le_bytes 4 sb.root_inode) buf

unfoldable pub is_valid : SuperBlock → Bool
is_valid sb = bytes_eq (take 13 sb.magic) name_bytes

unfoldable pub calc_bitmap_blocks : ℕ
calc_bitmap_blocks = (max_blocks + block_size * 8 - 1) / (block_size * 8)

-- The record that `init_superblock` builds.
unfoldable pub fresh : SuperBlock
fresh =
    let bitmap_blocks = calc_bitmap_blocks in
    let inode_table_start = 1 + bitmap_blocks in
    let inode_table_blocks : ℕ = 25 in
    let data_start = inode_table_start + inode_table_blocks in
    record {
      magic = magic_bytes;
      total_blocks = max_blocks;
      free_blocks = max_blocks - data_start;
      bitmap_blocks = bitmap_blocks;
      inode_table_start = inode_table_start;
      inode_table_blocks = inode_table_blocks;
      data_start = data_start;
      root_inode = 0;
    }

-- The block that holds a superblock: its bytes, and zeros behind them.
pub image : SuperBlock → List ℕ
image sb = splice 0 (to_bytes sb) (zeros block_size)

module _ ⦃dev : Device⦄ where
  open dev use {Disk, read_block, write_block}

  pub write_superblock : Disk → SuperBlock → Outcome Disk
  write_superblock d sb = write_block d 0 (image sb)

  pub init_superblock : Disk → Outcome (Disk × SuperBlock)
  init_superblock d = do let sb = fresh; d' ← write_block d 0 (image sb); ok (d', sb)

  pub read_superblock : Disk → Outcome SuperBlock
  read_superblock d = do
    buf ← read_block d 0
    let sb = from_bytes buf
    if is_valid sb then ok sb else panic
