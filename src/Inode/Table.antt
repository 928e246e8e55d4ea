-- ===== src/Inode/Table.antt =====
-- Inodes in the blocks of the table.
use operating_system_experie.Base.{
  ℕ, ◌+◌, ◌*◌, ◌/◌, ◌%◌, ◌^◌, ◌≤◌, ◌<◌, ◌≡◌, ◌≢◌, ◌↔◌, ◌⊎◌, refl, ap, sym, ◌∙◌, List, arith,
  if◌then◌else◌, ◌==◌, Bool-cases, inl, inr, eq_of_==, ==_of_ne, ==_of_eq, block_size,
}
use operating_system_experie.Base.Slices.{
  slice, splice, length-splice, slice-splice_self, slice-splice_ne, splice-IsBytes,
}
use operating_system_experie.Base.Outcome.{ok}
use operating_system_experie.Device.{Device, IsBlock}
use operating_system_experie.Superblock.{SuperBlock, fresh, calc_bitmap_blocks}
use operating_system_experie.Inode.{
  Inode, IsTyped, inode_size, from_bytes, to_bytes, inode_block_location, read_inode, write_inode,
}
use operating_system_experie.Inode.RoundTrip.{
  from_bytes-to_bytes_inode, length-to_bytes, to_bytes-IsBytes,
}

-- The block of an inode number, where the u32 addition does not wrap.
abbrev pub home : SuperBlock → ℕ → ℕ
home sb n = sb.inode_table_start + n / 6

abbrev pub offset : ℕ → ℕ
offset n = n % 6 * 84

pub inode_block_location_lem :
    (sb : SuperBlock) (n : ℕ)
    → home sb n < 2 ^ 32
    → inode_block_location sb n ≡ (home sb n, offset n)
unfolding inode_block_location
inode_block_location_lem sb n h = ap (λ k. (k, offset n)) (omega arith)

-- On a new disk an inode never lies before the inode table. It lies in the table exactly if its
-- number is below 150, and on the disk exactly if it is below 122844: the numbers from 150 to
-- 122843 lie in the data area. The 84 bytes never leave the block.
pub location_in_table :
    (n : ℕ)
    → n < 2 ^ 32
    → (fresh.inode_table_start ≤ (inode_block_location fresh n).0)
      × (((inode_block_location fresh n).0 < fresh.data_start) ↔ (n < 150))
      × (((inode_block_location fresh n).0 < fresh.total_blocks) ↔ (n < 122844))
      × ((inode_block_location fresh n).1 + inode_size ≤ block_size)
unfolding inode_block_location fresh calc_bitmap_blocks
location_in_table n h = (
  omega arith,
  (λ below. omega arith, λ below. omega arith),
  (λ below. omega arith, λ below. omega arith),
  omega arith,
)

-- Two inodes of one block have ranges that do not meet.
apart :
    (n m : ℕ)
    → n ≢ m
    → n / 6 ≡ m / 6
    → (m % 6 * 84 + 84 ≤ n % 6 * 84) ⊎ (n % 6 * 84 + 84 ≤ m % 6 * 84)
apart n m ne same = omega arith

module _ ⦃dev : Device⦄ where
  open dev use {Disk, read_block, write_block, blocks, block, put}

  -- The block of an inode number is one of the image.
  abbrev pub InImage : Disk → SuperBlock → ℕ → Type 0
  InImage d sb n = (home sb n < 2 ^ 32) × (home sb n < blocks d)

  pub read_inode_lem :
      (d : Disk) (sb : SuperBlock) (n : ℕ)
      → InImage d sb n
      → read_inode d sb n ≡ ok (from_bytes n (slice (offset n) inode_size (block d (home sb n))))
  unfolding read_inode
  read_inode_lem d sb n h =
      rw (read_inode, inode_block_location_lem sb n h.0, dev.read_block-ok d (home sb n) h.1)

  -- An inode is read from its block only.
  pub read_inode-same :
      (d e : Disk) (sb sb' : SuperBlock) (n : ℕ)
      → InImage d sb n
      → sb'.inode_table_start ≡ sb.inode_table_start
      → blocks e ≡ blocks d
      → block e (home sb n) ≡ block d (home sb n)
      → read_inode e sb' n ≡ read_inode d sb n
  read_inode-same d e sb sb' n h table size same =
      read_inode_lem e sb' n (omega (arith, h.0, table), omega (arith, h.1, table, size))
      ∙ ap (λ b. ok (from_bytes n (slice (offset n) inode_size b)))
          (ap (λ t. block e (t + n / 6)) table ∙ same)
      ∙ sym (read_inode_lem d sb n h)

  -- The state after an inode is written.
  pub record Written (d : Disk) (sb : SuperBlock) (i : Inode) : Type 0 where
    pub disk : Disk
    pub returns : write_inode d sb i ≡ ok disk
    pub same : read_inode disk sb i.inode_no ≡ ok i
    pub others :
        (n : ℕ) → n ≢ i.inode_no → InImage d sb n → read_inode disk sb n ≡ read_inode d sb n
    pub blocks_beside : (k : ℕ) → k ≢ home sb i.inode_no → block disk k ≡ block d k
    pub size : blocks disk ≡ blocks d

  module _ (d : Disk) (sb : SuperBlock) (i : Inode) (t : IsTyped i)
      (h : InImage d sb i.inode_no) where
    abbrev here : ℕ
    here = home sb i.inode_no

    abbrev patched : List ℕ
    patched = splice (offset i.inode_no) (to_bytes i) (block d here)

    patched-IsBlock : IsBlock patched
    patched-IsBlock = (
      length-splice (offset i.inode_no) (to_bytes i) (block d here)
          ∙ (dev.block-IsBlock d here h.1).0,
      splice-IsBytes (offset i.inode_no) (to_bytes i) (block d here) (to_bytes-IsBytes i)
          (dev.block-IsBlock d here h.1).1,
    )

    abbrev after : Disk
    after = put d here patched

    kept : blocks after ≡ blocks d
    kept = dev.blocks-put d here patched h.1 patched-IsBlock

    still : (n : ℕ) → InImage d sb n → InImage after sb n
    still n g = (g.0, omega (arith, g.1, kept))

    block_after : (k : ℕ) → block after k ≡ (if here == k then patched else block d k)
    block_after k = dev.block-put d here patched k h.1 patched-IsBlock

    own : slice (offset i.inode_no) inode_size patched ≡ to_bytes i
    own =
        ap (λ k. slice (offset i.inode_no) k patched) (sym (length-to_bytes i))
        ∙ slice-splice_self (offset i.inode_no) (to_bytes i) (block d here)
            (omega (arith, length-to_bytes i, (dev.block-IsBlock d here h.1).0))

    other :
        (n : ℕ)
        → n ≢ i.inode_no
        → slice (offset n) inode_size (block after (home sb n))
          ≡ slice (offset n) inode_size (block d (home sb n))
    other n ne = rw (block_after (home sb n)) (elim (Bool-cases (here == home sb n)) [
      | inl e ↦
          let same = eq_of_== here (home sb n) e in
          rw e (
            slice-splice_ne (offset n) inode_size (offset i.inode_no) (to_bytes i) (block d here)
              (rw (length-to_bytes i) (apart i.inode_no n (λ p. ne (sym p)) (omega arith)))
            ∙ ap (λ k. slice (offset n) inode_size (block d k)) same)
      | inr e ↦ rw e refl
    ])

    -- An inode that was written is read back; every other inode of the image, and every other
    -- block, stays.
    pub write_inode-Written : Written d sb i
    unfolding write_inode
    write_inode-Written = record {
      disk = after;
      returns =
          rw (write_inode, inode_block_location_lem sb i.inode_no h.0, dev.read_block-ok d here h.1)
            (dev.write_block-ok d here patched h.1 patched-IsBlock);
      same =
          read_inode_lem after sb i.inode_no (still i.inode_no h)
          ∙ rw (block_after here, ==_of_eq here here refl, own)
              (ap ok (from_bytes-to_bytes_inode i t));
      others = λ n ne g.
          read_inode_lem after sb n (still n g)
          ∙ ap (λ b. ok (from_bytes n b)) (other n ne)
          ∙ sym (read_inode_lem d sb n g);
      blocks_beside = λ k ne. block_after k ∙ rw (==_of_ne here k (λ e. ne (sym e))) refl;
      size = kept;
    }
