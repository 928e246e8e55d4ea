-- ===== src/Directory/Patch.antt =====
-- One slot of a directory changes, and its inode is stored.
use operating_system_experie.Base.{
  ℕ, zero, suc, ◌+◌, ◌*◌, ◌/◌, ◌%◌, ◌^◌, ◌≤◌, ◌<◌, ◌≡◌, ◌≢◌, ◌⊎◌, refl, ap, sym, ◌∙◌, true, false,
  List, [], ◌∷◌, length, set, get_or-set_self, arith, block_size, if◌then◌else◌, ◌==◌, ==_of_ne,
  ==_of_eq, eq_of_==, ne_of_==, Bool-cases, inl, inr,
}
use operating_system_experie.Base.Slices.{
  slice, splice, slice-splice_self, slice-splice_ne, byte-slice,
}
use operating_system_experie.Base.Outcome.{ok}
use operating_system_experie.Device.{Device, IsBlock}
use operating_system_experie.Superblock.{SuperBlock}
use operating_system_experie.Inode.{Inode, IsTyped, write_inode, read_inode}
use operating_system_experie.Inode.Table.{
  read_inode-same, InImage, Written, write_inode-Written, home,
}
use operating_system_experie.Directory.{
  DirEntry, entries_per_block, dir_entry_size, is_empty, entry_at, from_bytes, to_bytes,
}
use operating_system_experie.Directory.Entry.{from_bytes-to_bytes_entry, length-to_bytes_entry}
use operating_system_experie.Directory.Slots.{ptr, slot, slots, place, HasDirBlocks}

-- The entry that is copied to a slot is read there, and the other slots stay.
pub entry_at-splice_self :
    (e : DirEntry) (buf : List ℕ) (j : ℕ)
    → operating_system_experie.Directory.IsTyped e
    → length buf ≡ block_size
    → j < entries_per_block
    → entry_at (splice (j * dir_entry_size) (to_bytes e) buf) j ≡ e
unfolding entry_at
entry_at-splice_self e buf j t len h =
    ap from_bytes (
      ap (λ k. slice (j * dir_entry_size) k (splice (j * dir_entry_size) (to_bytes e) buf))
        (sym (length-to_bytes_entry e))
      ∙ slice-splice_self (j * dir_entry_size) (to_bytes e) buf
          (omega (arith, length-to_bytes_entry e)))
    ∙ from_bytes-to_bytes_entry e t

apart :
    (j k : ℕ)
    → j ≢ k
    → (k * dir_entry_size + dir_entry_size ≤ j * dir_entry_size)
      ⊎ (j * dir_entry_size + dir_entry_size ≤ k * dir_entry_size)
apart j k h = omega arith

pub entry_at-splice_ne :
    (e : DirEntry) (buf : List ℕ) (j k : ℕ)
    → j ≢ k
    → entry_at (splice (j * dir_entry_size) (to_bytes e) buf) k ≡ entry_at buf k
unfolding entry_at
entry_at-splice_ne e buf j k h = ap from_bytes (
    slice-splice_ne (k * dir_entry_size) dir_entry_size (j * dir_entry_size) (to_bytes e) buf
      (rw (length-to_bytes_entry e) (apart j k h)))

-- A single byte is copied.
set-splice : (buf : List ℕ) (i v : ℕ) → set buf i v ≡ splice i (v ∷ []) buf
unfolding splice
set-splice [] i v = refl
set-splice (b ∷ []) zero v = refl
set-splice (b ∷ c ∷ buf) zero v = refl
set-splice (b ∷ buf) (suc i) v = ap (λ l. b ∷ l) (set-splice buf i v)

-- A slot whose name length becomes 0 is free, and the other slots stay.
pub entry_at-set_self :
    (buf : List ℕ) (j : ℕ)
    → length buf ≡ block_size
    → j < entries_per_block
    → is_empty (entry_at (set buf (j * dir_entry_size + 5) 0) j) ≡ true
unfolding entry_at from_bytes is_empty
entry_at-set_self buf j len h = ==_of_eq _ 0 (
    byte-slice (j * dir_entry_size) dir_entry_size (set buf (j * dir_entry_size + 5) 0) 5
      (omega arith)
    ∙ get_or-set_self buf (j * dir_entry_size + 5) 0 0 (omega arith))

pub entry_at-set_ne :
    (buf : List ℕ) (j k : ℕ)
    → j ≢ k
    → entry_at (set buf (j * dir_entry_size + 5) 0) k ≡ entry_at buf k
unfolding entry_at
entry_at-set_ne buf j k h =
    ap (λ b. from_bytes (slice (k * dir_entry_size) dir_entry_size b))
      (set-splice buf (j * dir_entry_size + 5) 0)
    ∙ ap from_bytes (
        slice-splice_ne (k * dir_entry_size) dir_entry_size (j * dir_entry_size + 5) (0 ∷ []) buf
          (single j k h))
  where
    single :
        (j k : ℕ)
        → j ≢ k
        → (k * dir_entry_size + dir_entry_size ≤ j * dir_entry_size + 5)
          ⊎ (j * dir_entry_size + 5 + 1 ≤ k * dir_entry_size)
    single j k h = omega arith

-- The inode of a directory after a change.
abbrev pub touched : Inode → ℕ → Inode
touched dir now = record dir { mtime = now }

pub touched-IsTyped :
    (dir : Inode) (now : ℕ) → IsTyped dir → now < 2 ^ 64 → IsTyped (touched dir now)
touched-IsTyped dir now t h = record {
  inode_no = t.inode_no;
  mode = t.mode;
  uid = t.uid;
  gid = t.gid;
  size = t.size;
  nlink = t.nlink;
  block_count = t.block_count;
  mtime = h;
  atime = t.atime;
  ctime = t.ctime;
  direct_length = t.direct_length;
  direct_blocks = t.direct_blocks;
  indirect_block = t.indirect_block;
}

module _ ⦃dev : Device⦄ where
  open dev use {Disk, write_block, blocks, block, put}

  -- The state after one slot and the inode were written.
  pub record Patched (d : Disk) (sb : SuperBlock) (dir : Inode) (now s : ℕ) (buf : List ℕ)
      : Type 0 where
    pub middle : Disk
    pub disk : Disk
    pub writes : write_block d (place dir s).0 buf ≡ ok middle
    pub stores : write_inode middle sb (touched dir now) ≡ ok disk
    pub inode : read_inode disk sb dir.inode_no ≡ ok (touched dir now)
    pub entries :
        (t : ℕ)
        → t < slots dir
        → slot disk (touched dir now) t
          ≡ (if s == t then entry_at buf (s % entries_per_block) else slot d dir t)
    pub held : HasDirBlocks disk sb (touched dir now)
    pub inodes :
        (n : ℕ)
        → n ≢ dir.inode_no
        → InImage d sb n
        → home sb n ≢ (place dir s).0
        → read_inode disk sb n ≡ read_inode d sb n
    pub size : blocks disk ≡ blocks d
    pub others : (k : ℕ) → k ≢ home sb dir.inode_no → k ≢ (place dir s).0 → block disk k ≡ block d k

  module _ (d : Disk) (sb : SuperBlock) (dir : Inode) (now s : ℕ) (buf : List ℕ)
      (b : HasDirBlocks d sb dir) (t : IsTyped dir) (image : InImage d sb dir.inode_no)
      (small : now < 2 ^ 64) (below : s < slots dir) (whole : IsBlock buf)
      (beside : (k : ℕ)
        → s % entries_per_block ≢ k
        → entry_at buf k ≡ entry_at (block d (place dir s).0) k) where
    abbrev here : ℕ
    here = (place dir s).0

    inside : here < blocks d
    inside = b.inside (s / entries_per_block) (omega arith)

    abbrev d1 : Disk
    d1 = put d here buf

    blocks1 : blocks d1 ≡ blocks d
    blocks1 = dev.blocks-put d here buf inside whole

    w : Written d1 sb (touched dir now)
    w =
        write_inode-Written d1 sb (touched dir now) (touched-IsTyped dir now t small)
          (image.0, omega (arith, image.1, blocks1))

    block_after :
        (k : ℕ) → k ≢ home sb dir.inode_no → block w.disk k ≡ (if here == k then buf else block d k)
    block_after k h = w.blocks_beside k h ∙ dev.block-put d here buf k inside whole

    in_block :
        (u : ℕ)
        → u < slots dir
        → (here == ptr dir (u / entries_per_block)) ≡ true
        → slot w.disk (touched dir now) u ≡ entry_at buf (u % entries_per_block)
    unfolding slot
    in_block u h e =
        ap (λ b. entry_at b (u % entries_per_block))
          (block_after (ptr dir (u / entries_per_block))
              (b.apart (u / entries_per_block) (omega arith))
            ∙ rw e refl)

    -- A slot of the changed block, and one of another block.
    slot_after :
        (u : ℕ)
        → u < slots dir
        → slot w.disk (touched dir now) u
          ≡ (if s == u then entry_at buf (s % entries_per_block) else slot d dir u)
    unfolding slot
    slot_after u h = elim (Bool-cases (here == ptr dir (u / entries_per_block))) [
      | inl e ↦
          let same = eq_of_== here (ptr dir (u / entries_per_block)) e in
          let row =
            b.distinct (s / entries_per_block) (u / entries_per_block) (omega arith) (omega arith)
              same in
          in_block u h e ∙ elim (Bool-cases (s == u)) [
            | inl q ↦ rw q (ap (λ k. entry_at buf (k % entries_per_block)) (sym (eq_of_== s u q)))
            | inr q ↦
                let ne = ne_of_== s u q in
                rw q (
                  beside (u % entries_per_block) (omega arith)
                  ∙ ap (λ k. entry_at (block d k) (u % entries_per_block)) same)
          ]
      | inr e ↦
          let ne : (s == u) ≡ false = ==_of_ne s u (λ q.
            ne_of_== here (ptr dir (u / entries_per_block)) e
              (ap (λ k. ptr dir (k / entries_per_block)) q)) in
          rw ne (
            ap (λ b. entry_at b (u % entries_per_block))
              (block_after (ptr dir (u / entries_per_block))
                  (b.apart (u / entries_per_block) (omega arith))
                ∙ rw e refl))
    ]

    pub patch-Patched : Patched d sb dir now s buf
    patch-Patched = record {
      middle = d1;
      disk = w.disk;
      writes = dev.write_block-ok d here buf inside whole;
      stores = w.returns;
      inode = w.same;
      entries = slot_after;
      held = record {
        few = b.few;
        there = b.there;
        inside = λ k h. omega (arith, b.inside k h, w.size, blocks1);
        distinct = b.distinct;
        apart = b.apart;
      };
      inodes = λ n ne h away.
          w.others n ne (h.0, omega (arith, h.1, blocks1))
          ∙ read_inode-same d d1 sb sb n h refl blocks1 (
              dev.block-put d here buf (home sb n) inside whole
              ∙ rw (==_of_ne here (home sb n) (λ e. away (sym e))) refl);
      size = w.size ∙ blocks1;
      others = λ k h g. block_after k h ∙ rw (==_of_ne here k (λ e. g (sym e))) refl;
    }
