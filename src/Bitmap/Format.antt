-- ===== src/Bitmap/Format.antt =====
-- The first two steps of formatting a disk lead to a consistent state.
use operating_system_experie.Base.{ℕ, ◌-◌, ◌<◌, ◌≡◌, refl, ◌∙◌, sym, arith, max_blocks, ltb}
use operating_system_experie.Base.Outcome.{ok}
use operating_system_experie.Base.CountClear.{count_clear_ext, count_clear-ltb}
use operating_system_experie.Device.{Device}
use operating_system_experie.Superblock.{fresh, calc_bitmap_blocks, init_superblock}
use operating_system_experie.Superblock.Store.{
  fresh-IsTyped, fresh-is_valid, init_superblock-Started, Started,
}
use operating_system_experie.Bitmap.{init_bitmap}
use operating_system_experie.Bitmap.Mark.{bit_at, IsFull}
use operating_system_experie.Bitmap.Init.{init_bitmap-Initialised, Initialised}
use operating_system_experie.Bitmap.Alloc.{IsConsistent}

module _ ⦃dev : Device⦄ where
  open dev use {Disk, blocks, block}

  -- The state after `init_superblock` and `init_bitmap`.
  pub record Prepared (d : Disk) : Type 0 where
    pub started : Disk
    pub disk : Disk
    pub starts : init_superblock d ≡ ok (started, fresh)
    pub returns : init_bitmap started fresh ≡ ok disk
    pub bits : (m : ℕ) → m < max_blocks → bit_at disk m ≡ ltb m fresh.data_start
    pub consistent : IsConsistent disk fresh

  -- On any disk with all its blocks, `init_superblock` and then `init_bitmap` leave the superblock
  -- and the bits consistent, with the blocks before the data taken and the others free.
  pub init_bitmap-Prepared : (d : Disk) → IsFull d → Prepared d
  init_bitmap-Prepared d full = record {
    started = s.disk;
    disk = b.disk;
    starts = s.returns;
    returns = b.returns;
    bits = b.bits;
    consistent = record {
      full = omega (arith, full, s.size, b.size);
      typed = fresh-IsTyped;
      named = fresh-is_valid;
      five = five;
      stored = b.superblock ∙ s.stored;
      counted =
          free
          ∙ sym (count_clear-ltb fresh.data_start max_blocks)
          ∙ sym (count_clear_ext (bit_at b.disk) _ max_blocks b.bits);
    };
  }
    where
      five : fresh.bitmap_blocks ≡ 5
      five = unfold fresh calc_bitmap_blocks in refl

      free : fresh.free_blocks ≡ max_blocks - fresh.data_start
      free = unfold fresh calc_bitmap_blocks in refl

      s : Started d
      s = init_superblock-Started d (omega arith)

      b : Initialised s.disk fresh
      b = init_bitmap-Initialised s.disk fresh (omega (arith, full, s.size)) five
