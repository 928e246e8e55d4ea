-- ===== src/Fs/OneBlock.antt =====
-- A directory of one block, which holds the entries of a new directory.
use operating_system_experie.Base.{ℕ, zero, suc, ◌^◌, ◌/◌, ◌%◌, ◌≤◌, ◌<◌, ◌≡◌, ◌≢◌, refl, arith}
use operating_system_experie.Base.Outcome.{ok}
use operating_system_experie.Device.{Device}
use operating_system_experie.Superblock.{SuperBlock}
use operating_system_experie.Inode.{Inode, IsTyped, read_inode}
use operating_system_experie.Inode.Table.{home, InImage}
use operating_system_experie.Directory.{entries_per_block, entry_at}
use operating_system_experie.Directory.Slots.{ptr, slot, slots, HasDirBlocks, HasNames}
use operating_system_experie.Directory.View.{Models}
use operating_system_experie.Directory.Effect.{IsDirectory}
use operating_system_experie.Directory.Longer.{continued-HasNames, continued-Shows}
use operating_system_experie.Fs.{dot_block}
use operating_system_experie.Fs.Dots.{dots, dot_block-HasNames, dot_block-Shows}

module _ ⦃dev : Device⦄ where
  open dev use {Disk, blocks, block}

  module _ (d : Disk) (sb : SuperBlock) (dir : Inode) (n self parent : ℕ)
      (count : dir.block_count ≡ 1) (first : ptr dir 0 ≡ n) (behind : 31 ≤ n)
      (inside : n < blocks d) (apart : n ≢ home sb dir.inode_no)
      (holds : block d n ≡ dot_block self parent) (fits : self < 2 ^ 32)
      (fits' : parent < 2 ^ 32) where
    pub pointer : (k : ℕ) → k < dir.block_count → ptr dir k ≡ n
    pointer zero h = first
    pointer (suc k) h = absurd (omega (arith, count))

    pub held : HasDirBlocks d sb dir
    held = record {
      few = omega (arith, count);
      there = λ k h. omega (arith, pointer k h, behind);
      inside = λ k h. omega (arith, pointer k h, inside);
      distinct = λ j k hj hk e. omega (arith, count);
      apart = λ k h. omega (arith, pointer k h, apart);
    }

    slots_are : slots dir ≡ entries_per_block
    slots_are = omega (arith, count)

    same : (s : ℕ) → s < entries_per_block → slot d dir s ≡ entry_at (dot_block self parent) s
    unfolding slot
    same s h =
        let row : s / entries_per_block ≡ 0 = omega arith in
        let column : s % entries_per_block ≡ s = omega arith in rw (row, column, first, holds) refl

    names : HasNames (slots dir) (slot d dir)
    names = rw slots_are (
        continued-HasNames entries_per_block entries_per_block (omega arith)
          (entry_at (dot_block self parent)) (slot d dir) same (λ s h g. absurd (omega arith))
          (dot_block-HasNames self parent fits fits'))

    pub dots-IsDirectory :
        read_inode d sb dir.inode_no ≡ ok dir
        → IsTyped dir
        → InImage d sb dir.inode_no
        → IsDirectory d sb dir
    dots-IsDirectory stored typed image = record {
      stored = stored;
      typed = typed;
      image = image;
      held = held;
      names = names;
    }

    pub dots-Models : Models d dir (dots self parent)
    dots-Models q = rw slots_are (
        continued-Shows entries_per_block entries_per_block (omega arith)
          (entry_at (dot_block self parent)) (slot d dir) same (λ s h g. absurd (omega arith)) q
          (dots self parent q) (dot_block-Shows self parent fits fits' q))
