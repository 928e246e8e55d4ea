-- ===== src/Tests/FsRuns.antt =====
-- src/fs.rs on a disk in memory.
use operating_system_experie.Base.{
  ℕ, zero, suc, ◌-◌, ◌<◌, ◌≡◌, ◌≢◌, refl, List, [], ◌∷◌, min, arith,
}
use operating_system_experie.Base.Outcome.{ok}
use operating_system_experie.Superblock.{fresh}
use operating_system_experie.Inode.{Inode}
use operating_system_experie.Inode.BlockMap.{pointer_at}
use operating_system_experie.Inode.Table.{Written, write_inode-Written}
use operating_system_experie.Fs.Queries.{read}
use operating_system_experie.Fs.Reading.{content, read_lem}
use operating_system_experie.Fs.Fuel.{read_from_fuel, store_fuel}
use operating_system_experie.Fs.Queries.{read_from}
use operating_system_experie.Fs.Contents.{store}
use operating_system_experie.Memory.{memory, blank}
use operating_system_experie.Tests.InodeRuns.{notes, notes-IsTyped, notes-InImage}

-- A disk with the inode of a short file.
abbrev short : Inode
short = record notes { size = 700; block_count = 2; indirect_block = 0 }

short-IsTyped : operating_system_experie.Inode.IsTyped short
short-IsTyped = record {
  inode_no = omega arith;
  mode = omega arith;
  uid = omega arith;
  gid = omega arith;
  size = omega arith;
  nlink = omega arith;
  block_count = omega arith;
  mtime = omega arith;
  atime = omega arith;
  ctime = omega arith;
  direct_length = refl;
  direct_blocks = notes-IsTyped.direct_blocks;
  indirect_block = omega arith;
}

short_written : Written ⦃dev = memory⦄ blank fresh short
short_written = write_inode-Written ⦃dev = memory⦄ blank fresh short short-IsTyped notes-InImage

short_there : (k : ℕ) → k < 2 → pointer_at ⦃dev = memory⦄ short short_written.disk k ≢ 0
short_there zero h = omega arith
short_there (suc zero) h = omega arith
short_there (suc (suc k)) h = absurd (omega arith)

short_inside : (k : ℕ) → k < 2 → pointer_at ⦃dev = memory⦄ short short_written.disk k < 20480
short_inside zero h = omega arith
short_inside (suc zero) h = omega arith
short_inside (suc (suc k)) h = absurd (omega arith)

read_example :
    read ⦃dev = memory⦄ short_written.disk fresh 1000 600 4096
    ≡ ok (content ⦃dev = memory⦄ short_written.disk short 600 (min 4096 (700 - 600)))
read_example =
    read_lem ⦃dev = memory⦄ short_written.disk fresh 1000 600 4096 2 short short_written.same
      (record {
        few = omega arith;
        indirect = omega arith;
        there = short_there;
        inside = short_inside;
      })
      (omega arith) (omega arith) (omega arith)

abbrev hello : List ℕ
hello = b'h' ∷ b'e' ∷ b'l' ∷ b'l' ∷ b'o' ∷ []

read_from_fuel_example :
    read_from ⦃dev = memory⦄ 700 short_written.disk short 600 0 100
    ≡ read_from ⦃dev = memory⦄ 600 short_written.disk short 600 0 100
read_from_fuel_example =
    read_from_fuel ⦃dev = memory⦄ 700 600 short_written.disk short 600 0 100 (omega arith)
      (omega arith) (omega arith)

store_fuel_example :
    store ⦃dev = memory⦄ 9 short_written.disk short hello 0 508
    ≡ store ⦃dev = memory⦄ 5 short_written.disk short hello 0 508
store_fuel_example =
    store_fuel ⦃dev = memory⦄ 9 5 short_written.disk short hello 0 508 (omega arith) (omega arith)
      (omega arith)
