-- ===== src/Tests/SuperblockRuns.antt =====
-- src/superblock.rs on a disk in memory.
use operating_system_experie.Base.{◌≡◌, refl, arith}
use operating_system_experie.Base.Outcome.{ok, ◌>>=◌}
use operating_system_experie.Superblock.{
  fresh, calc_bitmap_blocks, write_superblock, read_superblock,
}
use operating_system_experie.Superblock.Store.{
  fresh-IsTyped, fresh-is_valid, read_superblock-write_superblock,
}
use operating_system_experie.Memory.{memory, blank}

read_superblock-write_superblock_example :
    (write_superblock ⦃dev = memory⦄ blank fresh >>= read_superblock ⦃dev = memory⦄) ≡ ok fresh
read_superblock-write_superblock_example =
    read_superblock-write_superblock ⦃dev = memory⦄ blank fresh (omega arith) fresh-IsTyped
      fresh-is_valid

fresh_counts : (fresh.free_blocks ≡ 20449) × (fresh.data_start ≡ 31)
unfolding fresh calc_bitmap_blocks
fresh_counts = (refl, refl)
