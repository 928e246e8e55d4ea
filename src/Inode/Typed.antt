-- ===== src/Inode/Typed.antt =====
-- Whatever bytes the table holds, what `read_inode` returns fits the types of the fields.
use operating_system_experie.Base.{
  ℕ, zero, suc, ◌+◌, ◌*◌, ◌^◌, ◌≤◌, ◌<◌, ◌≡◌, refl, ap, List, length, arith,
}
use operating_system_experie.Base.Slices.{IsBytes, slice, length-slice, slice-IsBytes}
use operating_system_experie.Base.Endian.{from_le_bytes-slice_lt}
use operating_system_experie.Base.Outcome.{ok}
use operating_system_experie.Device.{Device}
use operating_system_experie.Superblock.{SuperBlock}
use operating_system_experie.Inode.{
  Inode, IsTyped, IsPointers, new_file, inode_size, direct_count, read_pointers, from_bytes,
  read_inode,
}
use operating_system_experie.Inode.Table.{InImage, home, offset, read_inode_lem}

length-read_pointers : (left i : ℕ) (buf : List ℕ) → length (read_pointers left i buf) ≡ left
unfolding read_pointers
length-read_pointers zero i buf = refl
length-read_pointers (suc left) i buf = ap suc (length-read_pointers left (i + 1) buf)

read_pointers-IsPointers :
    (left i : ℕ) (buf : List ℕ)
    → 38 + (i + left) * 4 ≤ length buf
    → IsBytes buf
    → IsPointers (read_pointers left i buf)
unfolding read_pointers
read_pointers-IsPointers zero i buf h b k = omega arith
read_pointers-IsPointers (suc left) i buf h b zero =
    from_le_bytes-slice_lt 4 (38 + i * 4) buf (omega arith) b
read_pointers-IsPointers (suc left) i buf h b (suc k) =
    read_pointers-IsPointers left (i + 1) buf (omega arith) b k

pub from_bytes-IsTyped :
    (n : ℕ) (buf : List ℕ)
    → n < 2 ^ 32
    → length buf ≡ inode_size
    → IsBytes buf
    → IsTyped (from_bytes n buf)
unfolding from_bytes
from_bytes-IsTyped n buf h len b = record {
  inode_no = h;
  mode = from_le_bytes-slice_lt 2 0 buf (omega arith) b;
  uid = from_le_bytes-slice_lt 2 2 buf (omega arith) b;
  gid = from_le_bytes-slice_lt 2 4 buf (omega arith) b;
  size = from_le_bytes-slice_lt 4 6 buf (omega arith) b;
  nlink = from_le_bytes-slice_lt 2 10 buf (omega arith) b;
  block_count = from_le_bytes-slice_lt 2 12 buf (omega arith) b;
  mtime = from_le_bytes-slice_lt 8 14 buf (omega arith) b;
  atime = from_le_bytes-slice_lt 8 22 buf (omega arith) b;
  ctime = from_le_bytes-slice_lt 8 30 buf (omega arith) b;
  direct_length = length-read_pointers direct_count 0 buf;
  direct_blocks = read_pointers-IsPointers direct_count 0 buf (omega arith) b;
  indirect_block = from_le_bytes-slice_lt 4 78 buf (omega arith) b;
}

-- The inode of a new file.
pub new_file-IsTyped : (n now : ℕ) → n < 2 ^ 32 → now < 2 ^ 64 → IsTyped (new_file n now)
unfolding new_file
new_file-IsTyped n now h small = record {
  inode_no = h;
  mode = omega arith;
  uid = omega arith;
  gid = omega arith;
  size = omega arith;
  nlink = omega arith;
  block_count = omega arith;
  mtime = small;
  atime = small;
  ctime = small;
  direct_length = refl;
  direct_blocks = grind arith;
  indirect_block = omega arith;
}

module _ ⦃dev : Device⦄ where
  open dev use {Disk, block}

  -- The inode that was read.
  pub record ReadTyped (d : Disk) (sb : SuperBlock) (n : ℕ) : Type 0 where
    pub inode : Inode
    pub returns : read_inode d sb n ≡ ok inode
    pub number : inode.inode_no ≡ n
    pub typed : IsTyped inode

  -- `read_inode` of a number whose block is one of the image returns an inode under that number,
  -- every field of which fits its type, whatever the block holds.
  pub read_inode-ReadTyped :
      (d : Disk) (sb : SuperBlock) (n : ℕ) → n < 2 ^ 32 → InImage d sb n → ReadTyped d sb n
  unfolding from_bytes
  read_inode-ReadTyped d sb n h inside =
      let whole = dev.block-IsBlock d (home sb n) inside.1 in
      record {
        inode = from_bytes n (slice (offset n) inode_size (block d (home sb n)));
        returns = read_inode_lem d sb n inside;
        number = refl;
        typed =
            from_bytes-IsTyped n (slice (offset n) inode_size (block d (home sb n))) h
              (length-slice (offset n) inode_size (block d (home sb n)) (omega (arith, whole.0)))
              (slice-IsBytes (offset n) inode_size (block d (home sb n)) whole.1);
      }
