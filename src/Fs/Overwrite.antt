-- ===== src/Fs/Overwrite.antt =====
-- Writing to the blocks that a file has, and reading what was written.
use operating_system_experie.Base.{
  ℕ, ◌+◌, ◌-◌, ◌*◌, ◌/◌, ◌%◌, ◌^◌, ◌≤◌, ◌<◌, ◌≡◌, ◌≢◌, refl, false, List, length, arith, page_size,
  if◌then◌else◌, ltb, ==_of_ne,
}
use operating_system_experie.Base.Slices.{IsBytes, byte}
use operating_system_experie.Base.Outcome.{ok, ◌>>=◌}
use native.Mathlib.Nat.{mod-eq_of_lt}
use operating_system_experie.Device.{Device}
use operating_system_experie.Superblock.{SuperBlock}
use operating_system_experie.Inode.{Inode, read_inode}
use operating_system_experie.Inode.Table.{home}
use operating_system_experie.Fs.{reply}
use operating_system_experie.Fs.Queries.{read}
use operating_system_experie.Fs.Contents.{write, grow, max_file_blocks}
use operating_system_experie.Fs.Reading.{content_byte}
use operating_system_experie.Fs.Places.{among}
use operating_system_experie.Fs.Save.{written, IsPlaced, Saved, write_data-Saved}

module _ ⦃dev : Device⦄ where
  open dev use {Disk, blocks, block}

  -- A file on a disk whose size and blocks fit each other, away from its place in the inode table.
  pub record IsFile (d : Disk) (sb : SuperBlock) (i : Inode) (n : ℕ) (ptr : ℕ → ℕ) : Type 0 where
    pub stored : read_inode d sb i.inode_no ≡ ok i
    pub placed : IsPlaced d sb i n ptr
    pub enough : n ≤ i.block_count

  module _ (d : Disk) (sb : SuperBlock) (i : Inode) (n : ℕ) (ptr : ℕ → ℕ) (f : IsFile d sb i n ptr)
      (offset : ℕ) (src : List ℕ) (now : ℕ) (b : IsBytes src) (some_bytes : 0 < length src)
      (room : offset + length src ≤ n * page_size) (small : now < 2 ^ 64) where
    s : Saved d sb i n ptr f.placed offset src now b some_bytes room small
    s = write_data-Saved d sb i n ptr f.placed offset src now b some_bytes room small

    no_growth :
        (offset + length src + page_size - 1) % 2 ^ 64 / page_size % 2 ^ 32 - i.block_count ≡ 0
    no_growth = omega (arith, f.enough, f.placed.few)

    in_limit :
        ltb max_file_blocks ((offset + length src + page_size - 1) % 2 ^ 64 / page_size % 2 ^ 32)
        ≡ false
    in_limit = ground (arith, f.placed.few)

    returns : write d sb i.inode_no offset src now ≡ ok (reply (length src), s.disk, sb)
    unfolding write grow
    returns =
        rw
          (
            write,
            mod-eq_of_lt f.placed.typed.inode_no,
            f.stored,
            ◌>>=◌,
            ==_of_ne (length src) 0 (omega arith),
            in_limit,
            no_growth,
            grow,
            s.returns,
            length_fits,
          )
          refl
      where
        length_fits : length src % 2 ^ 32 ≡ length src
        length_fits = omega (arith, f.placed.few)

    -- The state after a write.
    pub record Overwritten : Type 0 where
      pub disk : Disk
      pub returns : write d sb i.inode_no offset src now ≡ ok (reply (length src), disk, sb)
      pub inode : read_inode disk sb i.inode_no ≡ ok (written i (offset + length src) now)
      pub contents :
          (p : ℕ)
          → p / page_size < n
          → content_byte disk (written i (offset + length src) now) p
            ≡ (if among offset (length src) p then byte src (p - offset) else content_byte d i p)
      pub read_back : read disk sb i.inode_no offset (length src) ≡ ok src
      pub others :
          (k : ℕ)
          → k ≢ home sb i.inode_no
          → ((j : ℕ) → j < n → ptr j ≢ k)
          → block disk k ≡ block d k

    -- A write into the blocks that a file has succeeds: it stores the bytes at the offset, so that
    -- `read` returns them, leaves the other bytes of the file, grows its size to the end of what
    -- was written, and changes no block but the file's and the one of its inode. At least one byte is
    -- written, the file has at most 20 blocks, which hold its size, and these are different ones,
    -- none of them its indirect block or the block of its inode.
    pub write-Overwritten : Overwritten
    write-Overwritten = record {
      disk = s.disk;
      returns = returns;
      inode = s.inode;
      contents = s.contents;
      read_back = s.read_back;
      others = s.others;
    }
