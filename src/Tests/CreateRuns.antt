-- ===== src/Tests/CreateRuns.antt =====
-- src/fs.rs: a file and a directory are made in the root directory of a disk in memory.
use operating_system_experie.Base.{ℕ, zero, suc, ◌≤◌, ◌<◌, ◌≢◌, arith, inr, ltb}
use operating_system_experie.Base.CountClear.{count_clear_ext, count_clear-ltb}
use operating_system_experie.Bitmap.Mark.{bit_at}
use operating_system_experie.Bitmap.Spared.{IsSpared}
use operating_system_experie.Inode.{Inode}
use operating_system_experie.Inode.Table.{home}
use operating_system_experie.Directory.Slots.{ptr}
use operating_system_experie.Fs.Dots.{dots}
use operating_system_experie.Fs.Format.{root_of}
use operating_system_experie.Fs.Mkdir.{Mkdirs, mkdir-Mkdirs}
use operating_system_experie.Memory.{memory}
use operating_system_experie.Tests.DirectoryRuns.{notes_name}
use operating_system_experie.Tests.RootRuns.{rooted, notes_name-IsName}

abbrev root : Inode
root = root_of 1700000000

linked : root.nlink ≢ 0
unfolding root_of
linked = omega arith

away :
    (number k : ℕ)
    → 500 ≤ number
    → number ≤ 2000
    → k < root.block_count
    → ptr root k ≢ home rooted.formatted.sb number
unfolding root_of
away number zero lo hi h = omega (arith, rooted.formatted.table)
away number (suc k) lo hi h = absurd (omega arith)

still :
    (number : ℕ)
    → 500 ≤ number
    → number ≤ 2000
    → IsSpared ⦃dev = memory⦄ rooted.formatted.disk 2 (home rooted.formatted.sb number)
still number lo hi = inr (
    omega (
      arith,
      rooted.formatted.table,
      count_clear_ext (bit_at ⦃dev = memory⦄ rooted.formatted.disk) (λ m. ltb m 32)
          (home rooted.formatted.sb number)
          (λ m h. rooted.formatted.bits m (omega (arith, rooted.formatted.table))),
      count_clear-ltb 32 (home rooted.formatted.sb number),
    ))

below : (number : ℕ) → number ≤ 900 → number ≤ 2000
below number hi = omega arith

mkdir-Mkdirs_example :
    Mkdirs ⦃dev = memory⦄ rooted.formatted.disk rooted.formatted.sb root
      (dots 1 1)
      notes_name
      1700000001
mkdir-Mkdirs_example =
    mkdir-Mkdirs ⦃dev = memory⦄ rooted.formatted.disk rooted.formatted.sb root (dots 1 1) notes_name
      1700000001 rooted.sound rooted.models notes_name-IsName (omega arith) linked
      (λ number k lo hi. away number k lo (below number hi))
      (λ number lo hi. still number lo (below number hi))
