-- ===== src/Directory.antt =====
-- src/directory.rs: directory entries of 34 bytes, 15 to a block, in the blocks of the directory's
-- inode. A name is the list of its UTF-8 bytes. The time is an argument.
pub mod Entry
pub mod Find
pub mod Resolve
pub mod Slots
pub mod Search
pub mod View
pub mod Patch
pub mod Effect
pub mod Sound
pub mod Add
pub mod Remove
pub mod Longer
pub mod Extended
pub mod Attach
pub mod Extend
pub mod Refine
pub mod Runs
pub mod Beside
pub mod Path
pub mod Walk
use operating_system_experie.Base.{
  ℕ, zero, suc, ◌+◌, ◌-◌, ◌*◌, ◌/◌, ◌%◌, ◌^◌, ◌<◌, ◌≡◌, Bool, true, false, not, ◌&&◌, ◌||◌, Option,
  none, some, List, [], ◌∷◌, ◌++◌, min, length, take, set, if◌then◌else◌, ◌==◌, ltb, leb, bytes_eq,
  block_size, page_size, bit_and,
}
use operating_system_experie.Base.Slices.{IsBytes, byte, slice, splice, zeros}
use operating_system_experie.Base.Endian.{to_le_bytes, u32_at}
use operating_system_experie.Base.Utf8.{is_utf8}
use operating_system_experie.Base.Outcome.{Outcome, ok, panic, ◌>>=◌, ◌>>◌, check, expect}
use operating_system_experie.Device.{Device}
use operating_system_experie.Superblock.{SuperBlock}
use operating_system_experie.Bitmap.{allocate_block}
use operating_system_experie.Inode.{
  Inode, direct_count, get_block, read_inode, write_inode, s_ifdir,
}

abbrev pub dir_entry_header_size : ℕ
dir_entry_header_size = 4 + 1 + 1

abbrev pub max_name_len : ℕ
max_name_len = 28

abbrev pub dir_entry_size : ℕ
dir_entry_size = dir_entry_header_size + max_name_len

abbrev pub entries_per_block : ℕ
entries_per_block = page_size / dir_entry_size

pub record DirEntry : Type 0 where
  pub inode : ℕ
  pub entry_type : ℕ
  pub name_len : ℕ
  pub name : List ℕ

-- The ranges that the types of the fields give.
pub record IsTyped (e : DirEntry) : Type 0 where
  pub inode : e.inode < 2 ^ 32
  pub entry_type : e.entry_type < 256
  pub name_len : e.name_len < 256
  pub name_length : length e.name ≡ max_name_len
  pub name_bytes : IsBytes e.name

unfoldable pub new : ℕ → List ℕ → Bool → DirEntry
new inode name is_dir =
    let len = min (length name) max_name_len in
    record {
      inode = inode;
      entry_type = if is_dir then 2 else 1;
      name_len = len % 2 ^ 8;
      name = splice 0 (take len name) (zeros max_name_len);
    }

unfoldable pub is_empty : DirEntry → Bool
is_empty e = e.name_len == 0

-- `"???"`
abbrev pub unreadable : List ℕ
unreadable = b'?' ∷ b'?' ∷ b'?' ∷ []

-- The slice of the name is checked at run time.
unfoldable pub name_str : DirEntry → Outcome (List ℕ)
name_str e = do
  check (leb e.name_len max_name_len)
  let bytes = take e.name_len e.name
  ok (if is_utf8 bytes then bytes else unreadable)

unfoldable pub from_bytes : List ℕ → DirEntry
from_bytes buf = record {
  inode = u32_at 0 buf;
  entry_type = byte buf 4;
  name_len = byte buf 5;
  name = slice 6 max_name_len buf;
}

unfoldable pub to_bytes : DirEntry → List ℕ
to_bytes e =
    let buf = zeros dir_entry_size in
    let buf = splice 0 (to_le_bytes 4 e.inode) buf in
    let buf = set buf 4 e.entry_type in let buf = set buf 5 e.name_len in splice 6 e.name buf

-- The entry of a block at a slot number.
unfoldable pub entry_at : List ℕ → ℕ → DirEntry
entry_at buf j = from_bytes (slice (j * dir_entry_size) dir_entry_size buf)

-- An entry with its block and its offset there.
abbrev pub Found : Type 0
Found = DirEntry × ℕ × ℕ

-- The entries in use among the last `left` slots of a block, from slot `j` on.
unfoldable pub entries_in : ℕ → ℕ → ℕ → List ℕ → List Found
entries_in zero j n buf = []
entries_in (suc left) j n buf =
    let rest = entries_in left (j + 1) n buf in
    if is_empty (entry_at buf j) then rest else (entry_at buf j, n, j * dir_entry_size) ∷ rest

-- The first of these with a name.
unfoldable pub find_in : ℕ → ℕ → ℕ → List ℕ → List ℕ → Outcome (Option Found)
find_in zero j n buf name = ok none
find_in (suc left) j n buf name =
    let rest = find_in left (j + 1) n buf name in
    if is_empty (entry_at buf j) then rest else do
      s ← name_str (entry_at buf j)
      if bytes_eq s name then ok (some (entry_at buf j, n, j * dir_entry_size)) else rest

-- The offset of the first free slot.
unfoldable pub free_slot : ℕ → ℕ → List ℕ → Option ℕ
free_slot zero j buf = none
free_slot (suc left) j buf =
    let rest = free_slot left (j + 1) buf in
    if is_empty (entry_at buf j) then some (j * dir_entry_size) else rest

pub data DirError : Type 0 where
  already_exists no_free_blocks too_large not_found : DirError
  invalid_component not_a_directory no_such_entry no_such_directory resolution_failed : DirError

-- `Result<(), &'static str>`
pub data Status : Type 0 where
  done : Status
  failed : DirError → Status

module _ ⦃dev : Device⦄ where
  open dev use {Disk, read_block, write_block}

  -- The loop of `dir_lookup` over the blocks, `left` of them from `i` on.
  unfoldable pub lookup_from : ℕ → ℕ → Disk → Inode → Outcome (List Found)
  lookup_from zero i d dir = ok []
  lookup_from (suc left) i d dir = do
    block ← get_block dir d i
    elim block [
      | none ↦ lookup_from left (i + 1) d dir
      | some n ↦ do
        buf ← read_block d n
        rest ← lookup_from left (i + 1) d dir
        ok (entries_in entries_per_block 0 n buf ++ rest)
    ]

  unfoldable pub dir_lookup : Disk → Inode → Outcome (List Found)
  dir_lookup d dir = lookup_from dir.block_count 0 d dir

  unfoldable pub find_from : ℕ → ℕ → Disk → Inode → List ℕ → Outcome (Option Found)
  find_from zero i d dir name = ok none
  find_from (suc left) i d dir name = do
    block ← get_block dir d i
    elim block [
      | none ↦ find_from left (i + 1) d dir name
      | some n ↦ do
        buf ← read_block d n
        found ← find_in entries_per_block 0 n buf name
        elim found [ none ↦ find_from left (i + 1) d dir name | some x ↦ ok (some x) ]
    ]

  unfoldable pub dir_find : Disk → Inode → List ℕ → Outcome (Option Found)
  dir_find d dir name = find_from dir.block_count 0 d dir name

  -- The first free slot in the blocks of a directory: its block, its offset and the block's bytes.
  unfoldable pub free_from : ℕ → ℕ → Disk → Inode → Outcome (Option (ℕ × ℕ × List ℕ))
  free_from zero i d dir = ok none
  free_from (suc left) i d dir = do
    block ← get_block dir d i
    n ← expect block
    buf ← read_block d n
    elim (free_slot entries_per_block 0 buf) [
      | none ↦ free_from left (i + 1) d dir
      | some offset ↦ ok (some (n, offset, buf))
    ]

  -- What `dir_add_entry` does once no slot of the existing blocks is free.
  unfoldable pub extend :
      Disk → SuperBlock → Inode → List ℕ → ℕ → Outcome (Status × Disk × SuperBlock × Inode)
  extend d sb dir entry now =
      if leb direct_count dir.block_count then ok (failed too_large, d, sb, dir) else do
        (d, sb, got) ← allocate_block d sb
        elim got [
          | none ↦ ok (failed no_free_blocks, d, sb, dir)
          | some n ↦ do
            d ← write_block d n (splice 0 entry (zeros block_size))
            let count = (dir.block_count + 1) % 2 ^ 16
            let dir = record dir {
              direct_blocks = set dir.direct_blocks dir.block_count n;
              block_count = count;
              size = count * page_size % 2 ^ 32;
              mtime = now;
            }
            d ← write_inode d sb dir
            ok (done, d, sb, dir)
        ]

  unfoldable pub dir_add_entry :
      Disk
      → SuperBlock
      → Inode
      → List ℕ
      → ℕ
      → Bool
      → ℕ
      → Outcome (Status × Disk × SuperBlock × Inode)
  dir_add_entry d sb dir name child is_dir now = do
    found ← dir_find d dir name
    elim found [
      | some x ↦ ok (failed already_exists, d, sb, dir)
      | none ↦ do
        let entry = to_bytes (new child name is_dir)
        slot ← free_from dir.block_count 0 d dir
        elim slot [
          | some (n, offset, buf) ↦ do
            d ← write_block d n (splice offset entry buf)
            let dir = record dir { mtime = now }
            d ← write_inode d sb dir
            ok (done, d, sb, dir)
          | none ↦ extend d sb dir entry now
        ]
    ]

  unfoldable pub dir_remove_entry :
      Disk → SuperBlock → Inode → List ℕ → ℕ → Outcome (Status × Disk × SuperBlock × Inode)
  dir_remove_entry d sb dir name now = do
    found ← dir_find d dir name
    elim found [
      | none ↦ ok (failed not_found, d, sb, dir)
      | some (entry, n, offset) ↦ do
        buf ← read_block d n
        d ← write_block d n (set buf (offset + 5) 0)
        let dir = record dir { mtime = now }
        d ← write_inode d sb dir
        ok (done, d, sb, dir)
    ]
