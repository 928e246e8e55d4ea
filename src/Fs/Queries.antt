-- ===== src/Fs/Queries.antt =====
-- src/fs.rs: the handlers that leave the disk as it is: getattr, readdir, lookup, open, read.
use operating_system_experie.Base.{
  ℕ, zero, suc, ◌+◌, ◌-◌, ◌/◌, ◌%◌, ◌^◌, Bool, true, false, not, ◌&&◌, ◌||◌, none, some, List, [],
  ◌∷◌, ◌++◌, min, if◌then◌else◌, ◌==◌, ltb, leb, page_size, bit_and,
}
use operating_system_experie.Base.Slices.{slice}
use operating_system_experie.Base.Outcome.{Outcome, ok, ◌>>=◌}
use operating_system_experie.Device.{Device}
use operating_system_experie.Superblock.{SuperBlock}
use operating_system_experie.Inode.{Inode, read_inode, get_block, check_permission}
use operating_system_experie.Directory.{Found, name_str, dir_find, dir_lookup}
use operating_system_experie.Fs.{
  enoent, eacces, enotdir, Reply, reply, error, FileType, directory, regular_file, FileAttr, is_dir,
  inode_to_attr, to_str,
}

-- `O_WRONLY` and `O_RDWR`, as Linux defines them.
abbrev pub o_wronly : ℕ
o_wronly = 1

abbrev pub o_rdwr : ℕ
o_rdwr = 2

-- What `ReplyDirectory::add` is given.
pub record Listing : Type 0 where
  pub ino : ℕ
  pub offset : ℕ
  pub kind : FileType
  pub name : List ℕ

-- Whether the reply's buffer, which holds some listings, has no room for one more. This is the FUSE
-- library's.
abbrev pub IsFull : Type 0
IsFull = List Listing → Listing → Bool

-- The loop of `readdir` over the entries. An offset is an i64.
pub list_from : IsFull → ℕ → ℕ → List Found → List Listing → Outcome (List Listing)
list_from is_full offset i [] added = ok added
list_from is_full offset i (x ∷ xs) added = elim (leb offset i || leb (2 ^ 63) offset) [
  | false ↦ list_from is_full offset (i + 1) xs added
  | true ↦ do
    name ← name_str x.0
    let listing : Listing = record {
      ino = x.0.inode;
      offset = i + 1;
      kind = if x.0.entry_type == 2 then directory else regular_file;
      name = name;
    }
    elim (is_full added listing) [
      | true ↦ ok added
      | false ↦ list_from is_full offset (i + 1) xs (added ++ listing ∷ [])
    ]
]

module _ ⦃dev : Device⦄ where
  open dev use {Disk, read_block}

  unfoldable pub getattr : Disk → SuperBlock → ℕ → Outcome (Reply FileAttr)
  getattr d sb ino = do
    inode ← read_inode d sb (ino % 2 ^ 32)
    ok (if inode.nlink == 0 then error enoent else reply (inode_to_attr inode))

  pub readdir : IsFull → Disk → SuperBlock → ℕ → ℕ → Outcome (Reply (List Listing))
  readdir is_full d sb ino offset = do
    dir ← read_inode d sb (ino % 2 ^ 32)
    if not (is_dir dir) then ok (error enotdir) else do
      entries ← dir_lookup d dir
      listed ← list_from is_full offset 0 entries []
      ok (reply listed)

  unfoldable pub lookup : Disk → SuperBlock → ℕ → List ℕ → Outcome (Reply FileAttr)
  lookup d sb parent name = do
    dir ← read_inode d sb (parent % 2 ^ 32)
    found ← dir_find d dir (to_str name [])
    elim found [
      | none ↦ ok (error enoent)
      | some x ↦ do child ← read_inode d sb x.0.inode; ok (reply (inode_to_attr child))
    ]

  -- The reply is the file handle: the inode number.
  unfoldable pub open_file : Disk → SuperBlock → ℕ → ℕ → ℕ → ℕ → Outcome (Reply ℕ)
  open_file d sb ino flags uid gid = do
    inode ← read_inode d sb (ino % 2 ^ 32)
    let want_write = not (bit_and flags o_wronly == 0) || not (bit_and flags o_rdwr == 0)
    ok (if want_write && not (check_permission inode true uid gid) then error eacces else reply ino)

  -- The loop of `read` while bytes remain: the bytes copied. Every round copies one byte at least,
  -- so as many rounds as bytes are enough.
  unfoldable pub read_from : ℕ → Disk → Inode → ℕ → ℕ → ℕ → Outcome (List ℕ)
  read_from zero d inode remaining index offset = ok []
  read_from (suc fuel) d inode remaining index offset = if remaining == 0 then ok [] else do
    block ← get_block inode d index
    elim block [
      | none ↦ ok []
      | some n ↦ do
        buf ← read_block d n
        let to_copy = min remaining (page_size - offset)
        rest ← read_from fuel d inode (remaining - to_copy) ((index + 1) % 2 ^ 32) 0
        ok (slice offset to_copy buf ++ rest)
    ]

  -- An offset is an i64.
  unfoldable pub read : Disk → SuperBlock → ℕ → ℕ → ℕ → Outcome (List ℕ)
  read d sb ino offset size = do
    inode ← read_inode d sb (ino % 2 ^ 32)
    if leb inode.size offset && ltb offset (2 ^ 63) then ok [] else do
      let actual_size = min size ((inode.size + 2 ^ 64 - offset) % 2 ^ 32)
      read_from actual_size d inode actual_size (offset % 2 ^ 32 / page_size) (offset % page_size)
