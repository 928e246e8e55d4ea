-- ===== src/Tests/BitmapRuns.antt =====
-- src/bitmap.rs on a disk in memory that was just prepared.
use operating_system_experie.Base.{
  ℕ, ◌*◌, ◌<◌, ◌≡◌, ◌⊎◌, refl, ◌∙◌, true, false, none, arith, max_blocks,
}
use operating_system_experie.Base.FirstClear.{first_clear}
use operating_system_experie.Base.Outcome.{ok}
use operating_system_experie.Superblock.{fresh, calc_bitmap_blocks}
use operating_system_experie.Bitmap.{find_free, mark_free, allocate_block}
use operating_system_experie.Bitmap.Mark.{bit_at}
use operating_system_experie.Bitmap.Scan.{find_free_lem}
use operating_system_experie.Bitmap.Alloc.{
  IsConsistent, Allocated, Released, allocate_block_lem, allocate_block-Allocated,
  mark_free-Released, mark_free-allocate_block,
}
use operating_system_experie.Bitmap.Format.{Prepared, init_bitmap-Prepared}
use operating_system_experie.Memory.{Cells, memory, blank}

init_bitmap-Prepared_example : Prepared ⦃dev = memory⦄ blank
init_bitmap-Prepared_example = init_bitmap-Prepared ⦃dev = memory⦄ blank (omega arith)

five : fresh.bitmap_blocks ≡ 5
unfolding fresh calc_bitmap_blocks
five = refl

find_free_example :
    find_free ⦃dev = memory⦄ 5 0 blank
    ≡ ok (first_clear (bit_at ⦃dev = memory⦄ blank) (5 * 4096) (0 * 4096))
find_free_example = find_free_lem ⦃dev = memory⦄ 5 0 blank (omega arith) (omega arith)

-- The prepared disk.
abbrev start : Prepared ⦃dev = memory⦄ blank
start = init_bitmap-Prepared ⦃dev = memory⦄ blank (omega arith)

allocate_block_example :
    ((allocate_block ⦃dev = memory⦄ start.disk fresh ≡ ok (start.disk, fresh, none))
      × ((m : ℕ) → m < max_blocks → bit_at ⦃dev = memory⦄ start.disk m ≡ true))
    ⊎ Allocated ⦃dev = memory⦄ start.disk fresh (allocate_block ⦃dev = memory⦄ start.disk fresh)
allocate_block_example = allocate_block_lem ⦃dev = memory⦄ start.disk fresh start.consistent

taken_7 : bit_at ⦃dev = memory⦄ start.disk 7 ≡ true
unfolding fresh calc_bitmap_blocks
taken_7 = start.bits 7 (omega arith) ∙ refl

free_31 : bit_at ⦃dev = memory⦄ start.disk 31 ≡ false
unfolding fresh calc_bitmap_blocks
free_31 = start.bits 31 (omega arith) ∙ refl

mark_free-Released_example :
    Released ⦃dev = memory⦄ start.disk fresh start.consistent 7
      (mark_free ⦃dev = memory⦄ start.disk fresh 7)
mark_free-Released_example =
    mark_free-Released ⦃dev = memory⦄ start.disk fresh start.consistent 7 (omega arith) taken_7

abbrev handed_out :
    Allocated ⦃dev = memory⦄ start.disk fresh (allocate_block ⦃dev = memory⦄ start.disk fresh)
handed_out =
    allocate_block-Allocated ⦃dev = memory⦄ start.disk fresh start.consistent 31 (omega arith)
      free_31

mark_free-allocate_block_example :
    (d' : Cells) × (mark_free ⦃dev = memory⦄ handed_out.disk handed_out.after handed_out.chosen
      ≡ ok (d', fresh))
    × ((m : ℕ) → m < max_blocks → bit_at ⦃dev = memory⦄ d' m ≡ bit_at ⦃dev = memory⦄ start.disk m)
    × IsConsistent ⦃dev = memory⦄ d' fresh
mark_free-allocate_block_example =
    mark_free-allocate_block ⦃dev = memory⦄ start.disk fresh start.consistent handed_out
