-- ===== src/Tests/WriteRuns.antt =====
-- src/fs.rs: a write into an empty file of a formatted disk in memory, which takes 12 blocks and an
-- indirect one.
use operating_system_experie.Base.{ℕ, ◌<◌, ◌≡◌, refl, List, replicate, arith}
use operating_system_experie.Bitmap.Guard.{same-IsGuarded}
use operating_system_experie.Inode.{Inode, IsTyped, new_file}
use operating_system_experie.Inode.Table.{home, Written, write_inode-Written}
use operating_system_experie.Inode.Typed.{new_file-IsTyped}
use operating_system_experie.Fs.Extending.{IsOnDisk}
use operating_system_experie.Fs.Grow.{Grows, grow-Grows}
use operating_system_experie.Memory.{memory}
use operating_system_experie.Tests.RootRuns.{rooted}

abbrev empty : Inode
empty = new_file 1000 1700000000

empty-IsTyped : IsTyped empty
empty-IsTyped = new_file-IsTyped 1000 1700000000 (omega arith) (omega arith)

w : Written ⦃dev = memory⦄ rooted.formatted.disk rooted.formatted.sb empty
unfolding new_file
w =
    write_inode-Written ⦃dev = memory⦄ rooted.formatted.disk rooted.formatted.sb empty empty-IsTyped
      (omega (arith, rooted.formatted.table), omega (arith, rooted.formatted.table))

at_172 : home rooted.formatted.sb empty.inode_no ≡ 172
unfolding new_file
at_172 = omega (arith, rooted.formatted.table)

same : (k : ℕ) → k < 6 → memory.block w.disk k ≡ memory.block rooted.formatted.disk k
same k h = w.blocks_beside k (omega (arith, at_172))

empty-IsOnDisk : IsOnDisk ⦃dev = memory⦄ w.disk rooted.formatted.sb empty
unfolding new_file
empty-IsOnDisk = record {
  stored = w.same;
  typed = empty-IsTyped;
  guarded =
      same-IsGuarded ⦃dev = memory⦄ rooted.formatted.disk rooted.formatted.sb rooted.sound.guarded
        w.disk w.size same;
  laid = record {
    few = omega arith;
    behind = λ k h. absurd (omega arith);
    inside = λ k h. absurd (omega arith);
    taken = λ k h. absurd (omega arith);
    distinct = λ j k h g ne. absurd (omega arith);
    indirect = record {
      none_yet = λ h. refl;
      behind = λ h. absurd (omega arith);
      inside = omega arith;
      taken = λ h. absurd (omega arith);
      beside = λ k h. absurd (omega arith);
    };
  };
  fits = omega arith;
  home_inside = omega (arith, at_172);
  apart = λ k h. absurd (omega arith);
  indirect_apart = λ e. omega (arith, at_172, e);
}

data_bytes : List ℕ
data_bytes = replicate 6000 7

none_there : empty.block_count ≡ 0
unfolding new_file
none_there = refl

grow-Grows_example : Grows ⦃dev = memory⦄ 12 w.disk rooted.formatted.sb empty
grow-Grows_example =
    grow-Grows ⦃dev = memory⦄ 12 w.disk rooted.formatted.sb empty empty-IsTyped
      empty-IsOnDisk.guarded empty-IsOnDisk.laid (omega (arith, none_there))
