-- ===== src/Bitmap/Keep.antt =====
-- Writes outside the bitmap keep the superblock and the bits consistent.
use operating_system_experie.Base.{
  ℕ, ◌+◌, ◌/◌, ◌≤◌, ◌<◌, ◌≡◌, ap, sym, ◌∙◌, true, arith, max_blocks, block_size,
}
use operating_system_experie.Base.CountClear.{count_clear_ext}
use operating_system_experie.Device.{Device}
use operating_system_experie.Superblock.{SuperBlock, IsTyped, image, is_valid}
use operating_system_experie.Bitmap.Mark.{bit_at, bit_in}
use operating_system_experie.Bitmap.Alloc.{IsConsistent}

module _ ⦃dev : Device⦄ where
  open dev use {Disk, blocks, block}

  module _ (d e : Disk) (same : (k : ℕ) → 1 ≤ k → k < 6 → block e k ≡ block d k) where
    -- The bits are those of the blocks 1 to 5.
    pub bit_at-same : (m : ℕ) → m < max_blocks → bit_at e m ≡ bit_at d m
    bit_at-same m h =
        ap (λ b. bit_in b m) (same (1 + m / 8 / block_size) (omega arith) (omega arith))

    -- The superblock may change in what does not concern the bitmap.
    pub IsConsistent-same :
        (sb after : SuperBlock)
        → IsConsistent d sb
        → IsTyped after
        → is_valid after ≡ true
        → after.bitmap_blocks ≡ sb.bitmap_blocks
        → after.free_blocks ≡ sb.free_blocks
        → blocks e ≡ blocks d
        → block e 0 ≡ image after
        → IsConsistent e after
    IsConsistent-same sb after c t v five free size stored = record {
      full = omega (arith, c.full, size);
      typed = t;
      named = v;
      five = five ∙ c.five;
      stored = stored;
      counted =
          free ∙ c.counted ∙ sym (count_clear_ext (bit_at e) (bit_at d) max_blocks bit_at-same);
    }
