-- ===== src/Directory/Extended.antt =====
-- The inode of a directory that gets a block, and the block.
use operating_system_experie.Base.{
  ℕ, ◌+◌, ◌*◌, ◌%◌, ◌^◌, ◌<◌, ◌∙◌, List, set, length-set, arith, block_size, page_size,
}
use operating_system_experie.Base.Slices.{splice, zeros}
use operating_system_experie.Inode.{Inode, IsTyped}
use operating_system_experie.Inode.BlockMap.{set-IsPointers}
use operating_system_experie.Directory.{DirEntry, to_bytes}

-- The inode of the directory with one more block.
abbrev pub extended : Inode → ℕ → ℕ → Inode
extended dir n now = record dir {
  direct_blocks = set dir.direct_blocks dir.block_count n;
  block_count = (dir.block_count + 1) % 2 ^ 16;
  size = (dir.block_count + 1) % 2 ^ 16 * page_size % 2 ^ 32;
  mtime = now;
}

pub extended-IsTyped :
    (dir : Inode) (n now : ℕ)
    → IsTyped dir
    → n < 2 ^ 32
    → now < 2 ^ 64
    → IsTyped (extended dir n now)
extended-IsTyped dir n now t small h = record {
  inode_no = t.inode_no;
  mode = t.mode;
  uid = t.uid;
  gid = t.gid;
  size = omega arith;
  nlink = t.nlink;
  block_count = omega arith;
  mtime = h;
  atime = t.atime;
  ctime = t.ctime;
  direct_length = length-set dir.direct_blocks dir.block_count n ∙ t.direct_length;
  direct_blocks = set-IsPointers dir.direct_blocks dir.block_count n t.direct_blocks small;
  indirect_block = t.indirect_block;
}

-- The first block of entries.
abbrev pub first_block : DirEntry → List ℕ
first_block e = splice 0 (to_bytes e) (zeros block_size)
