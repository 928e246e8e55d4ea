-- ===== src/Superblock/RoundTrip.antt =====
-- The bytes of a superblock.
use operating_system_experie.Base.{
  ℕ, ◌^◌, ◌<◌, ◌≡◌, ap, sym, ◌∙◌, List, length, ◌++◌, tabulate, tabulate-get_or, get_or, arith,
  subst, drop, ◌≤◌, block_size,
}
use operating_system_experie.Base.Slices.{
  IsBytes, splice, zeros, length-splice, length-zeros, length-slice, splice-zero, slice-IsBytes,
  splice-IsBytes, zeros-IsBytes,
}
use operating_system_experie.Base.Endian.{
  to_le_bytes, from_le_bytes-to_le_bytes, from_le_bytes-slice_lt, to_le_bytes-IsBytes,
}
use operating_system_experie.Device.{IsBlock}
use operating_system_experie.Superblock.{
  SuperBlock, IsTyped, superblock_size, from_bytes, to_bytes, image,
}

pub length-to_bytes : (sb : SuperBlock) → length (to_bytes sb) ≡ superblock_size
unfolding to_bytes
length-to_bytes sb = simp length-splice

-- The superblock with the given 16 bytes as its magic.
abbrev with_magic : SuperBlock → (ℕ → ℕ) → SuperBlock
with_magic sb m = record sb { magic = tabulate 16 m }

layout :
    (sb : SuperBlock) (m : ℕ → ℕ) (rest : List ℕ)
    → IsTyped sb
    → from_bytes (to_bytes (with_magic sb m) ++ rest) ≡ with_magic sb m
unfolding from_bytes to_bytes splice
layout sb m rest t = λ i. record {
  magic = tabulate 16 m;
  total_blocks = from_le_bytes-to_le_bytes 4 sb.total_blocks t.total_blocks i;
  free_blocks = from_le_bytes-to_le_bytes 4 sb.free_blocks t.free_blocks i;
  bitmap_blocks = from_le_bytes-to_le_bytes 4 sb.bitmap_blocks t.bitmap_blocks i;
  inode_table_start = from_le_bytes-to_le_bytes 4 sb.inode_table_start t.inode_table_start i;
  inode_table_blocks = from_le_bytes-to_le_bytes 4 sb.inode_table_blocks t.inode_table_blocks i;
  data_start = from_le_bytes-to_le_bytes 4 sb.data_start t.data_start i;
  root_inode = from_le_bytes-to_le_bytes 4 sb.root_inode t.root_inode i;
}

-- Reading back from any buffer that starts with the bytes.
from_bytes-append :
    (sb : SuperBlock) (rest : List ℕ) → IsTyped sb → from_bytes (to_bytes sb ++ rest) ≡ sb
from_bytes-append sb rest t =
    subst (λ m. from_bytes (to_bytes (record sb { magic = m }) ++ rest) ≡ record sb { magic = m })
      (sym (tabulate-get_or 16 sb.magic 0 t.magic_length))
      (layout sb (λ i. get_or sb.magic i 0) rest t)

-- A superblock whose fields have the ranges of their types is read back from any buffer, of 44
-- bytes at least, that its bytes are copied to the front of.
pub from_bytes-to_bytes :
    (sb : SuperBlock) (buf : List ℕ)
    → IsTyped sb
    → superblock_size ≤ length buf
    → from_bytes (splice 0 (to_bytes sb) buf) ≡ sb
from_bytes-to_bytes sb buf t h =
    ap from_bytes (splice-zero (to_bytes sb) buf (omega (arith, length-to_bytes sb)))
    ∙ from_bytes-append sb (drop (length (to_bytes sb)) buf) t

-- What is read from a whole block is in range.
pub from_bytes-IsTyped :
    (buf : List ℕ) → superblock_size ≤ length buf → IsBytes buf → IsTyped (from_bytes buf)
unfolding from_bytes
from_bytes-IsTyped buf h b = record {
  magic_length = length-slice 0 16 buf (omega arith);
  magic_bytes = slice-IsBytes 0 16 buf b;
  total_blocks = from_le_bytes-slice_lt 4 16 buf (omega arith) b;
  free_blocks = from_le_bytes-slice_lt 4 20 buf (omega arith) b;
  bitmap_blocks = from_le_bytes-slice_lt 4 24 buf (omega arith) b;
  inode_table_start = from_le_bytes-slice_lt 4 28 buf (omega arith) b;
  inode_table_blocks = from_le_bytes-slice_lt 4 32 buf (omega arith) b;
  data_start = from_le_bytes-slice_lt 4 36 buf (omega arith) b;
  root_inode = from_le_bytes-slice_lt 4 40 buf (omega arith) b;
}

pub to_bytes-IsBytes : (sb : SuperBlock) → IsTyped sb → IsBytes (to_bytes sb)
unfolding to_bytes
to_bytes-IsBytes sb t = word 40 sb.root_inode _ (
    word 36 sb.data_start _ (
      word 32 sb.inode_table_blocks _ (
        word 28 sb.inode_table_start _ (
          word 24 sb.bitmap_blocks _ (
            word 20 sb.free_blocks _ (
              word 16 sb.total_blocks _ (
                splice-IsBytes 0 sb.magic (zeros superblock_size) t.magic_bytes
                  (zeros-IsBytes superblock_size))))))))
  where
    word : (o v : ℕ) (buf : List ℕ) → IsBytes buf → IsBytes (splice o (to_le_bytes 4 v) buf)
    word o v buf b = splice-IsBytes o (to_le_bytes 4 v) buf (to_le_bytes-IsBytes 4 v) b

-- The block that holds a superblock is a whole block.
pub image-IsBlock : (sb : SuperBlock) → IsTyped sb → IsBlock (image sb)
unfolding image
image-IsBlock sb t = (
  length-splice 0 (to_bytes sb) (zeros block_size) ∙ length-zeros block_size,
  splice-IsBytes 0 (to_bytes sb) (zeros block_size) (to_bytes-IsBytes sb t)
      (zeros-IsBytes block_size),
)

pub from_bytes-image : (sb : SuperBlock) → IsTyped sb → from_bytes (image sb) ≡ sb
unfolding image
from_bytes-image sb t =
    from_bytes-to_bytes sb (zeros block_size) t (omega (arith, length-zeros block_size))

-- Another free count in range keeps the types.
pub IsTyped-count :
    {sb : SuperBlock} → IsTyped sb → (v : ℕ) → v < 2 ^ 32 → IsTyped (record sb { free_blocks = v })
IsTyped-count t v h = record {
  magic_length = t.magic_length;
  magic_bytes = t.magic_bytes;
  total_blocks = t.total_blocks;
  free_blocks = h;
  bitmap_blocks = t.bitmap_blocks;
  inode_table_start = t.inode_table_start;
  inode_table_blocks = t.inode_table_blocks;
  data_start = t.data_start;
  root_inode = t.root_inode;
}

pub IsTyped-root :
    {sb : SuperBlock} → IsTyped sb → (v : ℕ) → v < 2 ^ 32 → IsTyped (record sb { root_inode = v })
IsTyped-root t v h = record {
  magic_length = t.magic_length;
  magic_bytes = t.magic_bytes;
  total_blocks = t.total_blocks;
  free_blocks = t.free_blocks;
  bitmap_blocks = t.bitmap_blocks;
  inode_table_start = t.inode_table_start;
  inode_table_blocks = t.inode_table_blocks;
  data_start = t.data_start;
  root_inode = h;
}
