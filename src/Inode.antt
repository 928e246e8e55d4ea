-- ===== src/Inode.antt =====
-- src/inode.rs: the record of a file, its bytes, its blocks and its place in the inode table. An i64
-- is held as its 64-bit pattern. The clock is read by the caller, and the time is an argument.
pub mod RoundTrip
pub mod Table
pub mod Typed
pub mod BlockMap
pub mod Permission
use operating_system_experie.Base.{
  ℕ, zero, suc, ◌+◌, ◌-◌, ◌*◌, ◌/◌, ◌%◌, ◌^◌, ◌≡◌, ◌<◌, Bool, not, Option, none, some, List, [],
  ◌∷◌, length, if◌then◌else◌, ◌==◌, ltb, leb, get_or, set, replicate, block_size, page_size,
  bit_and, bit_or,
}
use operating_system_experie.Base.Slices.{IsBytes, slice, splice, zeros}
use operating_system_experie.Base.Endian.{to_le_bytes, u16_at, u32_at, u64_at}
use operating_system_experie.Base.Outcome.{Outcome, ok, panic, ◌>>=◌, ◌>>◌, check}
use operating_system_experie.Device.{Device}
use operating_system_experie.Superblock.{SuperBlock}

abbrev pub direct_count : ℕ
direct_count = 10

abbrev pub inode_size : ℕ
inode_size = 84

-- `S_IFDIR` and `S_IFREG`, as Linux defines them.
abbrev pub s_ifdir : ℕ
s_ifdir = 0o040000

abbrev pub s_ifreg : ℕ
s_ifreg = 0o100000

pub record Inode : Type 0 where
  pub inode_no : ℕ
  pub mode : ℕ
  pub uid : ℕ
  pub gid : ℕ
  pub size : ℕ
  pub nlink : ℕ
  pub block_count : ℕ
  pub mtime : ℕ
  pub atime : ℕ
  pub ctime : ℕ
  pub direct_blocks : List ℕ
  pub indirect_block : ℕ

-- Every pointer is a u32.
abbrev pub IsPointers : List ℕ → Type 0
IsPointers ps = (i : ℕ) → get_or ps i 0 < 2 ^ 32

-- The ranges that the types of the fields give.
pub record IsTyped (i : Inode) : Type 0 where
  pub inode_no : i.inode_no < 2 ^ 32
  pub mode : i.mode < 2 ^ 16
  pub uid : i.uid < 2 ^ 16
  pub gid : i.gid < 2 ^ 16
  pub size : i.size < 2 ^ 32
  pub nlink : i.nlink < 2 ^ 16
  pub block_count : i.block_count < 2 ^ 16
  pub mtime : i.mtime < 2 ^ 64
  pub atime : i.atime < 2 ^ 64
  pub ctime : i.ctime < 2 ^ 64
  pub direct_length : length i.direct_blocks ≡ direct_count
  pub direct_blocks : IsPointers i.direct_blocks
  pub indirect_block : i.indirect_block < 2 ^ 32

-- `now` is what `current_timestamp` returns.
unfoldable pub new_file : ℕ → ℕ → Inode
new_file inode_no now = record {
  inode_no = inode_no;
  mode = bit_or s_ifreg 0o644;
  uid = 1000;
  gid = 1000;
  size = 0;
  nlink = 1;
  block_count = 0;
  mtime = now;
  atime = now;
  ctime = now;
  direct_blocks = replicate direct_count 0;
  indirect_block = 0;
}

unfoldable pub new_dir : ℕ → ℕ → Inode
new_dir inode_no now = record {
  inode_no = inode_no;
  mode = bit_or s_ifdir 0o755;
  uid = 1000;
  gid = 1000;
  size = 0;
  nlink = 2;
  block_count = 0;
  mtime = now;
  atime = now;
  ctime = now;
  direct_blocks = replicate direct_count 0;
  indirect_block = 0;
}

-- The loops over the direct pointers, `left` of them from `i` on.
pub read_pointers : ℕ → ℕ → List ℕ → List ℕ
read_pointers zero i buf = []
read_pointers (suc left) i buf = u32_at (38 + i * 4) buf ∷ read_pointers left (i + 1) buf

pub write_pointers : List ℕ → ℕ → List ℕ → List ℕ
write_pointers [] i buf = buf
write_pointers (p ∷ ps) i buf =
    write_pointers ps (i + 1) (splice (38 + i * 4) (to_le_bytes 4 p) buf)

pub from_bytes : ℕ → List ℕ → Inode
from_bytes inode_no buf = record {
  inode_no = inode_no;
  mode = u16_at 0 buf;
  uid = u16_at 2 buf;
  gid = u16_at 4 buf;
  size = u32_at 6 buf;
  nlink = u16_at 10 buf;
  block_count = u16_at 12 buf;
  mtime = u64_at 14 buf;
  atime = u64_at 22 buf;
  ctime = u64_at 30 buf;
  direct_blocks = read_pointers direct_count 0 buf;
  indirect_block = u32_at (38 + direct_count * 4) buf;
}

pub to_bytes : Inode → List ℕ
to_bytes i =
    let buf = zeros inode_size in
    let buf = splice 0 (to_le_bytes 2 i.mode) buf in
    let buf = splice 2 (to_le_bytes 2 i.uid) buf in
    let buf = splice 4 (to_le_bytes 2 i.gid) buf in
    let buf = splice 6 (to_le_bytes 4 i.size) buf in
    let buf = splice 10 (to_le_bytes 2 i.nlink) buf in
    let buf = splice 12 (to_le_bytes 2 i.block_count) buf in
    let buf = splice 14 (to_le_bytes 8 i.mtime) buf in
    let buf = splice 22 (to_le_bytes 8 i.atime) buf in
    let buf = splice 30 (to_le_bytes 8 i.ctime) buf in
    let buf = write_pointers i.direct_blocks 0 buf in
    splice (38 + direct_count * 4) (to_le_bytes 4 i.indirect_block) buf

-- The user and the group are not looked at.
pub check_permission : Inode → Bool → ℕ → ℕ → Bool
check_permission i want_write uid gid =
    let perm = bit_and i.mode 0o777 in
    if want_write then not (bit_and perm 0o222 == 0) else not (bit_and perm 0o444 == 0)

-- The block of an inode in the table, and its offset there.
pub inode_block_location : SuperBlock → ℕ → ℕ × ℕ
inode_block_location sb inode_no =
    let inodes_per_block = block_size / inode_size in
    (
      (sb.inode_table_start + inode_no / inodes_per_block) % 2 ^ 32,
      inode_no % inodes_per_block * inode_size,
    )

-- A pointer of 0 stands for no block.
abbrev pub nonzero : ℕ → Option ℕ
nonzero block = if block == 0 then none else some block

module _ ⦃dev : Device⦄ where
  open dev use {Disk, read_block, write_block}

  unfoldable pub get_block : Inode → Disk → ℕ → Outcome (Option ℕ)
  get_block i d index =
      if ltb index direct_count
      then ok (nonzero (get_or i.direct_blocks index 0))
      else if i.indirect_block == 0
      then ok none
      else do
        buf ← read_block d i.indirect_block
        let offset = (index - direct_count) * 2
        if ltb page_size (offset + 2) then ok none else ok (nonzero (u16_at offset buf))

  -- The slice of the two bytes is checked at run time.
  unfoldable pub set_block : Inode → Disk → ℕ → ℕ → Outcome (Disk × Inode)
  set_block i d index block_num =
      if ltb index direct_count
      then ok (d, record i { direct_blocks = set i.direct_blocks index block_num })
      else do
        buf ← read_block d i.indirect_block
        let offset = (index - direct_count) * 2
        check (leb (offset + 2) block_size)
        d ← write_block d i.indirect_block (splice offset (to_le_bytes 2 (block_num % 2 ^ 16)) buf)
        ok (d, i)

  pub read_inode : Disk → SuperBlock → ℕ → Outcome Inode
  read_inode d sb inode_no = do
    let (n, offset) = inode_block_location sb inode_no
    buf ← read_block d n
    ok (from_bytes inode_no (slice offset inode_size buf))

  -- The whole block is read first, so that the other inodes in it stay.
  pub write_inode : Disk → SuperBlock → Inode → Outcome Disk
  write_inode d sb i = do
    let (n, offset) = inode_block_location sb i.inode_no
    buf ← read_block d n
    write_block d n (splice offset (to_bytes i) buf)
