-- ===== src/Tests/InodeRuns.antt =====
-- src/inode.rs on a disk in memory.
use operating_system_experie.Base.{◌+◌, ◌≤◌, block_size, ◌<◌, ◌≡◌, ◌↔◌, refl, [], ◌∷◌, arith}
use operating_system_experie.Base.Outcome.{ok}
use operating_system_experie.Superblock.{fresh, calc_bitmap_blocks}
use operating_system_experie.Inode.{
  Inode, IsTyped, IsPointers, inode_size, nonzero, from_bytes, to_bytes, inode_block_location,
  get_block,
}
use operating_system_experie.Inode.RoundTrip.{from_bytes-to_bytes_inode}
use operating_system_experie.Inode.Table.{InImage, Written, write_inode-Written, location_in_table}
use operating_system_experie.Inode.BlockMap.{pointer_at, get_block_lem, Set, set_block-Set}
use operating_system_experie.Memory.{memory, blank}

-- A file with an indirect block.
abbrev pub notes : Inode
notes = record {
  inode_no = 1000;
  mode = 0o100644;
  uid = 1000;
  gid = 1000;
  size = 5200;
  nlink = 1;
  block_count = 11;
  mtime = 1700000000;
  atime = 1700000000;
  ctime = 1700000000;
  direct_blocks = 32 ∷ 33 ∷ 34 ∷ 35 ∷ 36 ∷ 37 ∷ 38 ∷ 39 ∷ 40 ∷ 41 ∷ [];
  indirect_block = 43;
}

fit-IsPointers : IsPointers notes.direct_blocks
fit-IsPointers = grind arith

pub notes-IsTyped : IsTyped notes
notes-IsTyped = record {
  inode_no = omega arith;
  mode = omega arith;
  uid = omega arith;
  gid = omega arith;
  size = omega arith;
  nlink = omega arith;
  block_count = omega arith;
  mtime = omega arith;
  atime = omega arith;
  ctime = omega arith;
  direct_length = refl;
  direct_blocks = fit-IsPointers;
  indirect_block = omega arith;
}

from_bytes-to_bytes_inode_example : from_bytes 1000 (to_bytes notes) ≡ notes
from_bytes-to_bytes_inode_example = from_bytes-to_bytes_inode notes notes-IsTyped

pub notes-InImage : InImage ⦃dev = memory⦄ blank fresh 1000
unfolding fresh calc_bitmap_blocks
notes-InImage = omega arith

write_inode-Written_example : Written ⦃dev = memory⦄ blank fresh notes
write_inode-Written_example =
    write_inode-Written ⦃dev = memory⦄ blank fresh notes notes-IsTyped notes-InImage

-- The first inode number that `create` tries lies in the data area.
location_in_table_example :
    (fresh.inode_table_start ≤ (inode_block_location fresh 1000).0)
    × (((inode_block_location fresh 1000).0 < fresh.data_start) ↔ (1000 < 150))
    × (((inode_block_location fresh 1000).0 < fresh.total_blocks) ↔ (1000 < 122844))
    × ((inode_block_location fresh 1000).1 + inode_size ≤ block_size)
location_in_table_example = location_in_table 1000 (omega arith)

get_block_example :
    get_block ⦃dev = memory⦄ notes blank 10
    ≡ ok (nonzero (pointer_at ⦃dev = memory⦄ notes blank 10))
get_block_example = get_block_lem ⦃dev = memory⦄ notes blank 10 (omega arith)

set_block-Set_example : Set ⦃dev = memory⦄ notes blank 10 42
set_block-Set_example =
    set_block-Set ⦃dev = memory⦄ notes blank 10 42 notes-IsTyped (omega arith) (omega arith)
      (λ h. omega arith) (omega arith)
