-- ===== src/Fs/Save.antt =====
-- src/fs.rs: the end of `write`, which puts the data into the blocks of a file and stores its inode.
use operating_system_experie.Base.{
  ℕ, ◌+◌, ◌-◌, ◌*◌, ◌/◌, ◌%◌, ◌^◌, ◌≤◌, ◌<◌, ◌≡◌, ◌≢◌, refl, ap, sym, ◌∙◌, true, List, min, length,
  tabulate-get_or, arith, page_size, if◌then◌else◌, ltb,
}
use operating_system_experie.Base.Slices.{IsBytes, byte}
use operating_system_experie.Base.Tabulate.{tabulate_ext}
use operating_system_experie.Base.Outcome.{ok, ◌>>=◌}
use native.Mathlib.Nat.{mod-eq_of_lt}
use operating_system_experie.Device.{Device}
use operating_system_experie.Superblock.{SuperBlock}
use operating_system_experie.Inode.{Inode, IsTyped, read_inode}
use operating_system_experie.Inode.BlockMap.{pointer_at}
use operating_system_experie.Inode.Table.{
  InImage, Written, write_inode-Written, home, read_inode-same,
}
use operating_system_experie.Fs.Queries.{read}
use operating_system_experie.Fs.Contents.{write_data, max_file_blocks}
use operating_system_experie.Fs.Reading.{content_byte, content, HasBlocks, read_lem}
use operating_system_experie.Fs.Places.{among}
use operating_system_experie.Fs.Writing.{
  IsBlockMap, IsMapped, Stored, store-Stored, cell, content_byte-cell,
}

-- The inode after a write.
abbrev pub written : Inode → ℕ → ℕ → Inode
written i end now = record i {
  size = if ltb i.size end then end else i.size;
  mtime = now;
  atime = now;
}

pub written-IsTyped :
    (i : Inode) (end now : ℕ)
    → IsTyped i
    → end < 2 ^ 32
    → now < 2 ^ 64
    → IsTyped (written i end now)
written-IsTyped i end now t he hn = record {
  inode_no = t.inode_no;
  mode = t.mode;
  uid = t.uid;
  gid = t.gid;
  size = ground (arith, t.size);
  nlink = t.nlink;
  block_count = t.block_count;
  mtime = hn;
  atime = hn;
  ctime = t.ctime;
  direct_length = t.direct_length;
  direct_blocks = t.direct_blocks;
  indirect_block = t.indirect_block;
}

module _ ⦃dev : Device⦄ where
  open dev use {Disk, blocks, block}

  -- The blocks of a file on a disk fit its size, and lie away from its place in the inode table.
  pub record IsPlaced (d : Disk) (sb : SuperBlock) (i : Inode) (n : ℕ) (ptr : ℕ → ℕ) : Type 0 where
    pub typed : IsTyped i
    pub image : InImage d sb i.inode_no
    pub map : IsBlockMap i n (blocks d) ptr
    pub pointers : (k : ℕ) → k < n → pointer_at i d k ≡ ptr k
    pub few : n ≤ max_file_blocks
    pub fits : i.size ≤ n * page_size
    pub apart : (k : ℕ) → k < n → ptr k ≢ home sb i.inode_no
    pub indirect_apart : i.indirect_block ≢ home sb i.inode_no

  module _ (d : Disk) (sb : SuperBlock) (i : Inode) (n : ℕ) (ptr : ℕ → ℕ)
      (f : IsPlaced d sb i n ptr) (offset : ℕ) (src : List ℕ) (now : ℕ) (b : IsBytes src)
      (some_bytes : 0 < length src) (room : offset + length src ≤ n * page_size)
      (small : now < 2 ^ 64) where
    on : IsMapped i n (blocks d) ptr f.map d
    on = record { size = refl; pointers = f.pointers }

    abbrev after : Inode
    after = written i (offset + length src) now

    s : Stored i n (blocks d) ptr f.map (length src) d src (offset / page_size) (offset % page_size)
    s =
        store-Stored i n (blocks d) ptr f.map (length src) d src (offset / page_size)
          (offset % page_size) on b (omega arith) (omega arith) (omega arith)

    w : Written s.disk sb after
    w =
        write_inode-Written s.disk sb after
          (written-IsTyped i (offset + length src) now f.typed (omega (arith, f.few)) small)
          (f.image.0, omega (arith, f.image.1, s.mapped.size))

    returns : write_data d sb i offset src now ≡ ok w.disk
    unfolding write_data
    returns = rw (write_data, offset_small, s.returns, ◌>>=◌, end_small, end_fits, w.returns) refl
      where
        offset_small : offset % 2 ^ 32 ≡ offset
        offset_small = omega (arith, f.few)

        end_small : (offset + length src) % 2 ^ 64 ≡ offset + length src
        end_small = omega (arith, f.few)

        end_fits : (offset + length src) % 2 ^ 32 ≡ offset + length src
        end_fits = omega (arith, f.few)

    -- The inode is written beside the blocks of the file.
    block_stays : (k : ℕ) → k ≢ home sb i.inode_no → block w.disk k ≡ block s.disk k
    block_stays k h = w.blocks_beside k h

    pointers_after : (k : ℕ) → k < n → pointer_at after w.disk k ≡ ptr k
    pointers_after k h = rw (block_stays i.indirect_block f.indirect_apart) (s.mapped.pointers k h)

    now_cell :
        (p : ℕ)
        → p / page_size < n
        → content_byte w.disk after p ≡ cell i n (blocks d) ptr f.map s.disk p
    unfolding content_byte cell
    now_cell p h =
        ap (λ k. byte (block w.disk k) (p % page_size)) (pointers_after (p / page_size) h)
        ∙ ap (λ c. byte c (p % page_size))
            (block_stays (ptr (p / page_size)) (f.apart (p / page_size) h))

    contents_after :
        (p : ℕ)
        → p / page_size < n
        → content_byte w.disk after p
          ≡ (if among offset (length src) p then byte src (p - offset) else content_byte d i p)
    contents_after p h =
        now_cell p h
        ∙ s.cells p h
        ∙ ap
            (λ o.
              if among o (length src) p
              then byte src (p - o)
              else cell i n (blocks d) ptr f.map d p)
            place
        ∙ ap (λ c. if among offset (length src) p then byte src (p - offset) else c)
            (sym (content_byte-cell i n (blocks d) ptr f.map d on p h))
      where
        place : offset / page_size * page_size + offset % page_size ≡ offset
        place = omega arith

    sizes : blocks w.disk ≡ blocks d
    sizes = w.size ∙ s.mapped.size

    after-HasBlocks : HasBlocks w.disk after n
    after-HasBlocks = record {
      few = f.map.few;
      indirect = omega (arith, sizes, f.map.indirect);
      there = λ k h e. f.map.there k h (sym (pointers_after k h) ∙ e);
      inside = λ k h. omega (arith, pointers_after k h, sizes, f.map.inside k h);
    }

    size_after : after.size ≤ n * page_size
    size_after = ground (arith, f.fits)

    as_long : min (length src) (after.size - offset) ≡ length src
    as_long = ground arith

    bytes_back : content w.disk after offset (length src) ≡ src
    bytes_back =
        tabulate_ext (length src) (λ j. content_byte w.disk after (offset + j)) (λ j. byte src j)
          (λ j h. contents_after (offset + j) (omega arith) ∙ rw (in_range j h, distance j) refl)
        ∙ sym (tabulate-get_or (length src) src 0 refl)
      where
        in_range : (j : ℕ) → j < length src → among offset (length src) (offset + j) ≡ true
        in_range j h = ground arith

        distance : (j : ℕ) → offset + j - offset ≡ j
        distance j = omega arith

    read_back : read w.disk sb i.inode_no offset (length src) ≡ ok src
    read_back =
        read_lem w.disk sb i.inode_no offset (length src) n after
          (ap (read_inode w.disk sb) (mod-eq_of_lt f.typed.inode_no) ∙ w.same) after-HasBlocks
          size_after (omega (arith, size_after, f.few)) (omega (arith, f.few))
        ∙ rw as_long (ap ok bytes_back)

    -- The state after the data and the inode are written.
    pub record Saved : Type 0 where
      pub disk : Disk
      pub returns : write_data d sb i offset src now ≡ ok disk
      pub inode : read_inode disk sb i.inode_no ≡ ok (written i (offset + length src) now)
      pub contents :
          (p : ℕ)
          → p / page_size < n
          → content_byte disk (written i (offset + length src) now) p
            ≡ (if among offset (length src) p then byte src (p - offset) else content_byte d i p)
      pub read_back : read disk sb i.inode_no offset (length src) ≡ ok src
      pub pointers :
          (k : ℕ) → k < n → pointer_at (written i (offset + length src) now) disk k ≡ ptr k
      pub size : blocks disk ≡ blocks d
      pub inodes :
          (m : ℕ)
          → m ≢ i.inode_no
          → InImage d sb m
          → ((j : ℕ) → j < n → ptr j ≢ home sb m)
          → read_inode disk sb m ≡ read_inode d sb m
      pub others :
          (k : ℕ)
          → k ≢ home sb i.inode_no
          → ((j : ℕ) → j < n → ptr j ≢ k)
          → block disk k ≡ block d k

    pub write_data-Saved : Saved
    write_data-Saved = record {
      disk = w.disk;
      returns = returns;
      inode = w.same;
      contents = contents_after;
      read_back = read_back;
      pointers = pointers_after;
      size = sizes;
      inodes = λ m ne at away.
          w.others m ne (at.0, omega (arith, at.1, s.mapped.size))
          ∙ read_inode-same d s.disk sb sb m at refl s.mapped.size (s.others (home sb m) away);
      others = λ k h apart. block_stays k h ∙ s.others k apart;
    }
