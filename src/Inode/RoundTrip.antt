-- ===== src/Inode/RoundTrip.antt =====
-- The bytes of an inode.
use operating_system_experie.Base.{
  ℕ, ◌+◌, ◌*◌, ◌^◌, ◌<◌, ◌≡◌, refl, sym, subst, ◌∙◌, List, [], ◌∷◌, length, tabulate,
  tabulate-get_or, get_or,
}
use operating_system_experie.Base.Slices.{
  IsBytes, splice, length-splice, splice-IsBytes, zeros-IsBytes,
}
use operating_system_experie.Base.Endian.{
  to_le_bytes, from_le_bytes-to_le_bytes, to_le_bytes-IsBytes,
}
use operating_system_experie.Inode.{
  Inode, IsTyped, inode_size, write_pointers, read_pointers, from_bytes, to_bytes,
}

abbrev with_direct : Inode → (ℕ → ℕ) → Inode
with_direct i p = record i { direct_blocks = tabulate 10 p }

layout :
    (i : Inode) (p : ℕ → ℕ)
    → IsTyped i
    → ((k : ℕ) → p k < 2 ^ 32)
    → from_bytes i.inode_no (to_bytes (with_direct i p)) ≡ with_direct i p
unfolding from_bytes to_bytes splice write_pointers read_pointers
layout i p t fits = λ e. record {
  inode_no = i.inode_no;
  mode = from_le_bytes-to_le_bytes 2 i.mode t.mode e;
  uid = from_le_bytes-to_le_bytes 2 i.uid t.uid e;
  gid = from_le_bytes-to_le_bytes 2 i.gid t.gid e;
  size = from_le_bytes-to_le_bytes 4 i.size t.size e;
  nlink = from_le_bytes-to_le_bytes 2 i.nlink t.nlink e;
  block_count = from_le_bytes-to_le_bytes 2 i.block_count t.block_count e;
  mtime = from_le_bytes-to_le_bytes 8 i.mtime t.mtime e;
  atime = from_le_bytes-to_le_bytes 8 i.atime t.atime e;
  ctime = from_le_bytes-to_le_bytes 8 i.ctime t.ctime e;
  direct_blocks = tabulate 10 (λ k. from_le_bytes-to_le_bytes 4 (p k) (fits k) e);
  indirect_block = from_le_bytes-to_le_bytes 4 i.indirect_block t.indirect_block e;
}

-- An inode whose fields have the ranges of their types is read back from its bytes.
pub from_bytes-to_bytes_inode : (i : Inode) → IsTyped i → from_bytes i.inode_no (to_bytes i) ≡ i
from_bytes-to_bytes_inode i t =
    subst
      (λ ps.
        from_bytes i.inode_no (to_bytes (record i { direct_blocks = ps }))
        ≡ record i { direct_blocks = ps })
      (sym (tabulate-get_or 10 i.direct_blocks 0 t.direct_length))
      (layout i (λ k. get_or i.direct_blocks k 0) t t.direct_blocks)

length-write_pointers :
    (ps : List ℕ) (k : ℕ) (buf : List ℕ) → length (write_pointers ps k buf) ≡ length buf
unfolding write_pointers
length-write_pointers [] k buf = refl
length-write_pointers (p ∷ ps) k buf =
    length-write_pointers ps (k + 1) (splice (38 + k * 4) (to_le_bytes 4 p) buf)
    ∙ length-splice (38 + k * 4) (to_le_bytes 4 p) buf

write_pointers-IsBytes :
    (ps : List ℕ) (k : ℕ) (buf : List ℕ) → IsBytes buf → IsBytes (write_pointers ps k buf)
unfolding write_pointers
write_pointers-IsBytes [] k buf b = b
write_pointers-IsBytes (p ∷ ps) k buf b =
    write_pointers-IsBytes ps (k + 1) (splice (38 + k * 4) (to_le_bytes 4 p) buf)
      (splice-IsBytes (38 + k * 4) (to_le_bytes 4 p) buf (to_le_bytes-IsBytes 4 p) b)

pub length-to_bytes : (i : Inode) → length (to_bytes i) ≡ inode_size
unfolding to_bytes
length-to_bytes i = simp (length-splice, length-write_pointers)

pub to_bytes-IsBytes : (i : Inode) → IsBytes (to_bytes i)
unfolding to_bytes
to_bytes-IsBytes i = word 4 78 i.indirect_block _ (
    write_pointers-IsBytes i.direct_blocks 0 _ (
      word 8 30 i.ctime _ (
        word 8 22 i.atime _ (
          word 8 14 i.mtime _ (
            word 2 12 i.block_count _ (
              word 2 10 i.nlink _ (
                word 4 6 i.size _ (
                  word 2 4 i.gid _
                    (word 2 2 i.uid _ (word 2 0 i.mode _ (zeros-IsBytes inode_size)))))))))))
  where
    word : (k o v : ℕ) (buf : List ℕ) → IsBytes buf → IsBytes (splice o (to_le_bytes k v) buf)
    word k o v buf b = splice-IsBytes o (to_le_bytes k v) buf (to_le_bytes-IsBytes k v) b
