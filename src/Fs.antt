-- ===== src/Fs.antt =====
-- src/fs.rs: what the handlers of the FUSE session share, and formatting. The state of the session
-- is a disk and a superblock. A name is the list of its bytes, and the time is an argument.
pub mod Queries
pub mod Changes
pub mod Contents
pub mod Format
pub mod Grown
pub mod OneMore
pub mod Attach
pub mod AttachIndirect
pub mod Grow
pub mod Dots
pub mod OneBlock
pub mod Root
pub mod Mount
pub mod Reading
pub mod Fuel
pub mod Places
pub mod Writing
pub mod Save
pub mod Overwrite
pub mod Extending
pub mod Write
pub mod Release
pub mod ReleaseAll
pub mod Lookup
pub mod Files
pub mod Unlink
pub mod Rmdir
pub mod Numbers
pub mod Enter
pub mod Create
pub mod MadeDir
pub mod NewDir
pub mod Mkdir
use operating_system_experie.Base.{
  ℕ, zero, suc, ◌+◌, ◌-◌, ◌*◌, ◌/◌, ◌%◌, ◌^◌, ◌<◌, ◌≡◌, Bool, true, false, not, ◌&&◌, ◌||◌, Option,
  none, some, List, [], ◌∷◌, ◌++◌, min, length, take, set, if◌then◌else◌, ◌==◌, ltb, leb,
  block_size, page_size, bit_and, bit_or,
}
use operating_system_experie.Base.Slices.{slice, splice, zeros}
use operating_system_experie.Base.Utf8.{is_utf8}
use operating_system_experie.Base.Outcome.{Outcome, ok, panic, ◌>>=◌, ◌>>◌, check, expect}
use operating_system_experie.Device.{Device}
use operating_system_experie.Superblock.{SuperBlock, init_superblock, write_superblock}
use operating_system_experie.Bitmap.{allocate_block, init_bitmap}
use operating_system_experie.Inode.{Inode, s_ifdir, new_dir, read_inode, write_inode}
use operating_system_experie.Directory.{new, to_bytes, dir_entry_size}

pub data Errno : Type 0 where
  enoent eexist eacces enotdir eisdir enotempty enospc efbig : Errno

-- What a handler sends back.
pub data Reply {ℓ} (A : Type ℓ) : Type ℓ where
  reply : A → Reply A
  error : Errno → Reply A

pub data FileType : Type 0 where
  directory regular_file : FileType

-- The times are seconds since 1970.
pub record FileAttr : Type 0 where
  pub ino : ℕ
  pub size : ℕ
  pub blocks : ℕ
  pub atime : ℕ
  pub mtime : ℕ
  pub ctime : ℕ
  pub crtime : ℕ
  pub kind : FileType
  pub perm : ℕ
  pub nlink : ℕ
  pub uid : ℕ
  pub gid : ℕ
  pub rdev : ℕ
  pub flags : ℕ
  pub blksize : ℕ

-- A time before 1970 counts as 1970.
unfoldable pub system_time_from_timestamp : ℕ → ℕ
system_time_from_timestamp ts = if leb (2 ^ 63) ts then 0 else ts

abbrev pub is_dir : Inode → Bool
is_dir i = not (bit_and i.mode s_ifdir == 0)

unfoldable pub inode_to_attr : Inode → FileAttr
inode_to_attr i = record {
  ino = i.inode_no;
  size = i.size;
  blocks = i.block_count;
  atime = system_time_from_timestamp i.atime;
  mtime = system_time_from_timestamp i.mtime;
  ctime = system_time_from_timestamp i.ctime;
  crtime = system_time_from_timestamp i.ctime;
  kind = if is_dir i then directory else regular_file;
  perm = i.mode;
  nlink = i.nlink;
  uid = i.uid;
  gid = i.gid;
  rdev = 0;
  flags = 0;
  blksize = block_size;
}

-- `name.to_str().unwrap_or(other)`
unfoldable pub to_str : List ℕ → List ℕ → List ℕ
to_str name other = if is_utf8 name then name else other

-- `.` and `..`
abbrev pub dot : List ℕ
dot = b'.' ∷ []

abbrev pub dotdot : List ℕ
dotdot = b'.' ∷ b'.' ∷ []

-- The block of a new directory: itself and its parent.
unfoldable pub dot_block : ℕ → ℕ → List ℕ
dot_block self parent =
    let buf = splice 0 (to_bytes (new self dot true)) (zeros block_size) in
    splice dir_entry_size (to_bytes (new parent dotdot true)) buf

module _ ⦃dev : Device⦄ where
  open dev use {Disk, read_block, write_block}

  pub format_new_fs : Disk → ℕ → Outcome (Disk × SuperBlock)
  format_new_fs d now = do
    (d, sb) ← init_superblock d
    d ← init_bitmap d sb
    (d, sb, got) ← allocate_block d sb
    n ← expect got
    d ← write_block d n (dot_block 1 1)
    let root = record (new_dir 1 now) {
      direct_blocks = set (new_dir 1 now).direct_blocks 0 n;
      block_count = 1;
      size = page_size;
      nlink = 2;
    }
    d ← write_inode d sb root
    let sb = record sb { root_inode = 1 }
    d ← write_superblock d sb
    ok (d, sb)
