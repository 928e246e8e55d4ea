-- ===== src/Fs/Format.antt =====
-- A disk that was formatted: the superblock and the bits are consistent, and the root directory is
-- there, with its two entries.
use operating_system_experie.Base.{
  Bool-cases, inl, inr, ℕ, ◌^◌, ◌≤◌, ◌<◌, ◌≡◌, ◌≢◌, refl, ap, sym, ◌∙◌, Bool, true, false, [], ◌∷◌,
  arith, max_blocks, block_size, page_size, if◌then◌else◌, ◌==◌, ltb, ==_of_ne,
}
use operating_system_experie.Base.Slices.{
  IsBytes, slice, splice, zeros, length-splice, length-zeros, splice-IsBytes, zeros-IsBytes,
}
use operating_system_experie.Base.Outcome.{ok}
use operating_system_experie.Device.{Device, IsBlock}
use operating_system_experie.Superblock.{
  SuperBlock, image, fresh, calc_bitmap_blocks, is_valid, init_superblock, write_superblock,
}
use operating_system_experie.Superblock.RoundTrip.{IsTyped-root, image-IsBlock}
use operating_system_experie.Superblock.Store.{write_superblock-ok, block-write_superblock}
use operating_system_experie.Bitmap.{allocate_block}
use operating_system_experie.Bitmap.Mark.{bit_at, IsFull}
use operating_system_experie.Base.FirstClear.{IsFirst}
use operating_system_experie.Bitmap.Alloc.{IsConsistent, Allocated, allocate_block-Allocated}
use operating_system_experie.Bitmap.Format.{Prepared, init_bitmap-Prepared}
use operating_system_experie.Bitmap.Keep.{bit_at-same, IsConsistent-same}
use operating_system_experie.Inode.{Inode, IsTyped, inode_size, from_bytes, new_dir, read_inode}
use operating_system_experie.Inode.Table.{
  InImage, Written, write_inode-Written, home, offset, read_inode_lem,
}
use operating_system_experie.Directory.{new}
use operating_system_experie.Directory.Entry.{new-IsTyped, to_bytes_entry-IsBytes}
use operating_system_experie.Fs.{dot, dotdot, dot_block, format_new_fs}

dot-IsBytes : IsBytes dot
dot-IsBytes = grind arith

dotdot-IsBytes : IsBytes dotdot
dotdot-IsBytes = grind arith

pub dot_block-IsBlock :
    (self parent : ℕ) → self < 2 ^ 32 → parent < 2 ^ 32 → IsBlock (dot_block self parent)
unfolding dot_block
dot_block-IsBlock self parent hs hp = (
  length-splice 34 _ (splice 0 _ (zeros block_size))
      ∙ length-splice 0 _ (zeros block_size)
      ∙ length-zeros block_size,
  splice-IsBytes 34 _ _
      (to_bytes_entry-IsBytes (new parent dotdot true)
        (new-IsTyped parent dotdot true hp dotdot-IsBytes))
      (splice-IsBytes 0 _ _
        (to_bytes_entry-IsBytes (new self dot true) (new-IsTyped self dot true hs dot-IsBytes))
        (zeros-IsBytes block_size)),
)

-- The inode of the root directory: one block, the first of the data.
unfoldable pub root_of : ℕ → Inode
root_of now = record (new_dir 1 now) {
  direct_blocks = 31 ∷ 0 ∷ 0 ∷ 0 ∷ 0 ∷ 0 ∷ 0 ∷ 0 ∷ 0 ∷ 0 ∷ [];
  block_count = 1;
  size = page_size;
  nlink = 2;
}

pub root_of-IsTyped : (now : ℕ) → now < 2 ^ 64 → IsTyped (root_of now)
unfolding root_of new_dir
root_of-IsTyped now h = record {
  inode_no = omega arith;
  mode = omega arith;
  uid = omega arith;
  gid = omega arith;
  size = omega arith;
  nlink = omega arith;
  block_count = omega arith;
  mtime = h;
  atime = h;
  ctime = h;
  direct_length = refl;
  direct_blocks = grind arith;
  indirect_block = omega arith;
}

-- A superblock that names a root.
abbrev rooted : SuperBlock → SuperBlock
rooted sb = record sb { root_inode = 1 }

clash : (b : Bool) → b ≡ true → b ≡ false → ⊥
clash b t f = cc

-- The number that is above 31 numbers and no more.
first_is :
    (p : ℕ → Bool) (n hi : ℕ)
    → ((m : ℕ) → m < hi → p m ≡ ltb m 31)
    → 31 < hi
    → IsFirst p 0 hi n
    → n ≡ 31
first_is p n hi h lt f = elim (Bool-cases (ltb n 31)) [
  | inl e ↦ absurd (clash (p n) (h n f.below ∙ e) f.clear)
  | inr e ↦ elim (Bool-cases (ltb 31 n)) [
    | inl o ↦ absurd (clash (p 31) (f.before 31 (omega arith) (ground arith)) (h 31 lt))
    | inr o ↦ ground arith
  ]
]

one_more : (m : ℕ) → (if 31 == m then true else ltb m 31) ≡ ltb m 32
one_more m = ground arith

module _ ⦃dev : Device⦄ where
  open dev use {Disk, read_block, write_block, blocks, block, put}

  -- The state that formatting leads to.
  pub record Formatted (d : Disk) (now : ℕ) : Type 0 where
    pub disk : Disk
    pub sb : SuperBlock
    pub returns : format_new_fs d now ≡ ok (disk, sb)
    pub consistent : IsConsistent disk sb
    pub free : sb.free_blocks ≡ 20448
    pub bits : (m : ℕ) → m < max_blocks → bit_at disk m ≡ ltb m 32
    pub root : read_inode disk sb sb.root_inode ≡ ok (root_of now)
    pub entries : block disk 31 ≡ dot_block 1 1
    pub number : sb.root_inode ≡ 1
    pub table : sb.inode_table_start ≡ 6

  module _ (d : Disk) (full : IsFull d) (now : ℕ) (small : now < 2 ^ 64) where
    p : Prepared d
    p = init_bitmap-Prepared d full

    bits31 : (m : ℕ) → m < max_blocks → bit_at p.disk m ≡ ltb m 31
    bits31 m h = p.bits m h ∙ (unfold fresh calc_bitmap_blocks in refl)

    a : Allocated p.disk fresh (allocate_block p.disk fresh)
    a =
        allocate_block-Allocated p.disk fresh p.consistent 31 (omega arith)
          (bits31 31 (omega arith))

    chosen : a.chosen ≡ 31
    chosen = first_is (bit_at p.disk) a.chosen max_blocks bits31 (omega arith) a.first

    start : a.after.inode_table_start ≡ 6
    start =
        sym (ap (λ sb. sb.inode_table_start) a.one_less) ∙ (unfold fresh calc_bitmap_blocks in refl)

    dots-IsBlock : IsBlock (dot_block 1 1)
    dots-IsBlock = dot_block-IsBlock 1 1 (omega arith) (omega arith)

    abbrev d1 : Disk
    d1 = put a.disk 31 (dot_block 1 1)

    inside : 31 < blocks a.disk
    inside = omega (arith, a.consistent.full)

    blocks1 : blocks d1 ≡ blocks a.disk
    blocks1 = dev.blocks-put a.disk 31 (dot_block 1 1) inside dots-IsBlock

    block1 : (k : ℕ) → block d1 k ≡ (if 31 == k then dot_block 1 1 else block a.disk k)
    block1 k = dev.block-put a.disk 31 (dot_block 1 1) k inside dots-IsBlock

    image1 : InImage d1 a.after 1
    image1 = (omega (arith, start), omega (arith, start, blocks1, inside))

    w : Written d1 a.after (root_of now)
    unfolding root_of new_dir
    w = write_inode-Written d1 a.after (root_of now) (root_of-IsTyped now small) image1

    rooted-IsTyped : operating_system_experie.Superblock.IsTyped (rooted a.after)
    rooted-IsTyped = IsTyped-root a.consistent.typed 1 (omega arith)

    abbrev final : Disk
    final = put w.disk 0 (image (rooted a.after))

    above : 0 < blocks w.disk
    above = omega (arith, w.size, blocks1, inside)

    block2 : (k : ℕ) → block final k ≡ (if 0 == k then image (rooted a.after) else block w.disk k)
    block2 k = block-write_superblock w.disk above (rooted a.after) rooted-IsTyped k

    blocks2 : blocks final ≡ blocks w.disk
    blocks2 =
        dev.blocks-put w.disk 0 (image (rooted a.after)) above
          (image-IsBlock (rooted a.after) rooted-IsTyped)

    sizes : blocks final ≡ blocks a.disk
    sizes = blocks2 ∙ w.size ∙ blocks1

    beside : (k : ℕ) → k ≢ 6 → k ≢ home a.after (root_of now).inode_no
    unfolding root_of new_dir
    beside k h e = h (e ∙ omega (arith, start))

    past_inode : (k : ℕ) → k ≢ 0 → k ≢ 6 → block final k ≡ block d1 k
    past_inode k h0 h6 =
        block2 k ∙ rw (==_of_ne 0 k (λ e. h0 (sym e))) (w.blocks_beside k (beside k h6))

    bitmap_same : (k : ℕ) → 1 ≤ k → k < 6 → block final k ≡ block a.disk k
    bitmap_same k lo hi =
        past_inode k (omega arith) (omega arith) ∙ block1 k ∙ rw (==_of_ne 31 k (omega arith)) refl

    bits_after : (m : ℕ) → m < max_blocks → bit_at final m ≡ ltb m 32
    bits_after m h =
        bit_at-same a.disk final bitmap_same m h
        ∙ a.bits m h
        ∙ ap (λ c. if c == m then true else bit_at p.disk m) chosen
        ∙ ap (λ b. if 31 == m then true else b) (bits31 m h)
        ∙ one_more m

    image2 : InImage final (rooted a.after) 1
    image2 = (image1.0, omega (arith, image1.1, blocks2, w.size))

    table_stays : block final (home a.after 1) ≡ block w.disk (home a.after 1)
    table_stays =
        block2 (home a.after 1) ∙ rw (==_of_ne 0 (home a.after 1) (omega (arith, start))) refl

    root_stays : read_inode final (rooted a.after) 1 ≡ read_inode w.disk a.after 1
    root_stays =
        read_inode_lem final (rooted a.after) 1 image2
        ∙ ap (λ b. ok (from_bytes 1 (slice (offset 1) inode_size b))) table_stays
        ∙ sym (read_inode_lem w.disk a.after 1 (image1.0, omega (arith, image1.1, w.size)))

    free_after : a.after.free_blocks ≡ 20448
    unfolding fresh calc_bitmap_blocks
    free_after = omega (arith, ap (λ sb. sb.free_blocks) a.one_less)

    -- Formatting a disk with all its blocks succeeds: the superblock and the bits are consistent, the
    -- blocks before 32 are taken and 20448 are free, the inode of the root is read back, and its
    -- block, the first of the data, holds `.` and `..`.
    pub format_new_fs-Formatted : Formatted d now
    unfolding format_new_fs root_of new_dir
    format_new_fs-Formatted = record {
      disk = final;
      sb = rooted a.after;
      returns =
          rw
            (
              format_new_fs,
              p.starts,
              p.returns,
              a.returns,
              chosen,
              dev.write_block-ok a.disk 31 (dot_block 1 1) inside dots-IsBlock,
              w.returns,
              write_superblock-ok w.disk above (rooted a.after) rooted-IsTyped,
            )
            refl;
      consistent =
          IsConsistent-same a.disk final bitmap_same a.after (rooted a.after) a.consistent
            rooted-IsTyped (unfold is_valid in a.consistent.named) refl refl sizes (block2 0);
      free = free_after;
      bits = bits_after;
      root = root_stays ∙ w.same;
      entries = past_inode 31 (omega arith) (omega arith) ∙ block1 31;
      number = refl;
      table = start;
    }
