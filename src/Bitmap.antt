-- ===== src/Bitmap.antt =====
-- src/bitmap.rs: one bit for each block, in the blocks behind the superblock. A `&mut SuperBlock`
-- is passed in and returned. `free_blocks` is a u32, and its `-=` and `+=` wrap in a release build.
pub mod Scan
pub mod Mark
pub mod Alloc
pub mod Init
pub mod Format
pub mod Keep
pub mod Guard
pub mod Runs
pub mod Spared
use operating_system_experie.Base.{
  ℕ, zero, suc, ◌+◌, ◌-◌, ◌*◌, ◌/◌, ◌%◌, ◌^◌, Bool, true, false, Option, none, some, List, [], ◌∷◌,
  leb, ltb, ◌==◌, if◌then◌else◌, block_size, max_blocks, set, get_or,
}
use operating_system_experie.Base.Slices.{byte, slice, zeros}
use operating_system_experie.Base.Bits.{test_bit, set_bit, clear_bit}
use operating_system_experie.Base.Outcome.{Outcome, ok, panic, ◌>>=◌}
use operating_system_experie.Device.{Device}
use operating_system_experie.Superblock.{SuperBlock, read_superblock, write_superblock}

-- The byte and the bit of a block. The source returns the mask `1 << bit` in place of the bit.
abbrev pub locate : ℕ → ℕ × ℕ
locate n = (n / 8, n % 8)

-- The first clear bit among the last `left` of the eight.
pub scan_bits : ℕ → ℕ → Option ℕ
scan_bits zero value = none
scan_bits (suc left) value =
    let rest = scan_bits left value in
    if test_bit value (8 - suc left) then rest else some (8 - suc left)

-- The first byte, from `offset` on, that is not 0xFF and has a clear bit: its offset and the bit.
pub scan_bytes : List ℕ → ℕ → Option (ℕ × ℕ)
scan_bytes [] offset = none
scan_bytes (value ∷ values) offset =
    let rest = scan_bytes values (offset + 1) in
    if value == 255
    then rest
    else elim (scan_bits 8 value) [ none ↦ rest | some bit ↦ some (offset, bit) ]

-- `for block_num in 0..n { bitmap[byte_idx] |= mask }`, where the byte lies in the bitmap.
pub mark_below : ℕ → List ℕ → List ℕ
mark_below zero bitmap = bitmap
mark_below (suc n) bitmap =
    let bitmap = mark_below n bitmap in set bitmap (n / 8) (set_bit (byte bitmap (n / 8)) (n % 8))

module _ ⦃dev : Device⦄ where
  open dev use {Disk, read_block, write_block}

  pub is_allocated : Disk → ℕ → Outcome Bool
  is_allocated d n = if leb max_blocks n then ok true else do
    let (byte_idx, bit) = locate n
    buf ← read_block d (1 + byte_idx / block_size)
    ok (test_bit (byte buf (byte_idx % block_size)) bit)

  -- Both markings: read the block of bits, change one byte, write it, and write the superblock.
  pub update : (ℕ → ℕ → ℕ) → (ℕ → ℕ) → Disk → SuperBlock → ℕ → Outcome (Disk × SuperBlock)
  update change count d sb n = do
    let (byte_idx, bit) = locate n
    let in_block = byte_idx % block_size
    buf ← read_block d (1 + byte_idx / block_size)
    d ←
        write_block d (1 + byte_idx / block_size)
          (set buf in_block (change (byte buf in_block) bit))
    let sb = record sb { free_blocks = count sb.free_blocks }
    d ← write_superblock d sb
    ok (d, sb)

  pub mark_allocated : Disk → SuperBlock → ℕ → Outcome (Disk × SuperBlock)
  mark_allocated = update set_bit (λ free. (free + 2 ^ 32 - 1) % 2 ^ 32)

  pub mark_free : Disk → SuperBlock → ℕ → Outcome (Disk × SuperBlock)
  mark_free = update clear_bit (λ free. (free + 1) % 2 ^ 32)

  -- The scan over the blocks of bits, `left` of them from `idx` on: the number of the first block
  -- whose bit is clear.
  pub find_free : ℕ → ℕ → Disk → Outcome (Option ℕ)
  find_free zero idx d = ok none
  find_free (suc left) idx d = do
    buf ← read_block d (1 + idx)
    elim (scan_bytes buf 0) [
      | none ↦ find_free left (idx + 1) d
      | some (offset, bit) ↦ ok (some (((idx * block_size + offset) * 8 + bit) % 2 ^ 32))
    ]

  -- What the scan found is marked, unless it lies past the end of the disk.
  claim : Disk → SuperBlock → Option ℕ → Outcome (Disk × SuperBlock × Option ℕ)
  claim d sb none = ok (d, sb, none)
  claim d sb (some n) =
      if leb max_blocks n
      then ok (d, sb, none)
      else do (d, sb) ← mark_allocated d sb n; ok (d, sb, some n)

  pub allocate_block : Disk → SuperBlock → Outcome (Disk × SuperBlock × Option ℕ)
  allocate_block d sb = if sb.free_blocks == 0 then ok (d, sb, none) else do
    sb_local ← read_superblock d
    found ← find_free sb_local.bitmap_blocks 0 d
    claim d sb found

  -- `for i in 0..bitmap_blocks { write_block(1 + i, &bitmap[i * 512..(i + 1) * 512]) }`
  write_bitmap : ℕ → ℕ → List ℕ → Disk → Outcome Disk
  write_bitmap zero i bitmap d = ok d
  write_bitmap (suc left) i bitmap d = do
    d ← write_block d (1 + i) (slice (i * block_size) block_size bitmap)
    write_bitmap left (i + 1) bitmap d

  pub init_bitmap : Disk → SuperBlock → Outcome Disk
  init_bitmap d sb =
      write_bitmap sb.bitmap_blocks 0
        (mark_below sb.data_start (zeros (sb.bitmap_blocks * block_size))) d
