-- ===== src/Bitmap/Init.antt =====
-- The bitmap of a new disk.
use operating_system_experie.Base.{
  ℕ, zero, suc, ◌+◌, ◌-◌, ◌*◌, ◌/◌, ◌%◌, ◌≤◌, ◌<◌, ◌≡◌, ◌≢◌, refl, ap, ap₂, sym, ◌∙◌, Bool, true,
  false, ◌&&◌, ◌||◌, List, length, arith, max_blocks, block_size, if◌then◌else◌, ◌==◌, leb, ltb,
  Bool-cases, inl, inr, eq_of_==, ne_of_==, set, length-set, get_or-set_self, get_or-set_ne, le→ltb,
  le→leb, lt→ltb, get_or-replicate,
}
use operating_system_experie.Base.Slices.{
  IsBytes, byte, slice, zeros, set-IsBytes, zeros-IsBytes, length-zeros, slice-IsBytes,
  length-slice, byte-slice,
}
use operating_system_experie.Base.Bits.{test_bit, set_bit, test_bit-set_bit, test_bit_zero}
use operating_system_experie.Base.Outcome.{ok}
use operating_system_experie.Device.{Device, IsBlock}
use operating_system_experie.Superblock.{SuperBlock}
use operating_system_experie.Bitmap.{mark_below, write_bitmap, init_bitmap}
use operating_system_experie.Bitmap.Mark.{bit_at, bit_in, IsFull}

abbrev bit_of : List ℕ → ℕ → Bool
bit_of buf m = test_bit (byte buf (m / 8)) (m % 8)

length-mark_below : (n : ℕ) (buf : List ℕ) → length (mark_below n buf) ≡ length buf
unfolding mark_below
length-mark_below zero buf = refl
length-mark_below (suc n) buf =
    length-set (mark_below n buf) (n / 8) (set_bit (byte (mark_below n buf) (n / 8)) (n % 8))
    ∙ length-mark_below n buf

mark_below-IsBytes : (n : ℕ) (buf : List ℕ) → IsBytes buf → IsBytes (mark_below n buf)
unfolding mark_below
mark_below-IsBytes zero buf b = b
mark_below-IsBytes (suc n) buf b =
    let before = mark_below-IsBytes n buf b in
    set-IsBytes (mark_below n buf) (n / 8) (set_bit (byte (mark_below n buf) (n / 8)) (n % 8))
      (test_bit-set_bit (byte (mark_below n buf) (n / 8)) (n % 8) 0 (before (n / 8)) (omega arith)
        (omega arith)).1
      before

-- Marking sets the bits below the bound and leaves the others.
bit_of-mark_below :
    (n : ℕ) (buf : List ℕ) (m : ℕ)
    → IsBytes buf
    → m / 8 < length buf
    → bit_of (mark_below n buf) m ≡ (ltb m n || bit_of buf m)
unfolding mark_below
bit_of-mark_below zero buf m b h = rw (le→ltb m 0 (omega arith)) refl
bit_of-mark_below (suc n) buf m b h = elim (Bool-cases (n / 8 == m / 8)) [
  | inl e ↦
      let here = eq_of_== (n / 8) (m / 8) e in
      ap (λ j. test_bit (byte (set old (n / 8) new) j) (m % 8)) (sym here)
      ∙ ap (λ v. test_bit v (m % 8))
          (get_or-set_self old (n / 8) new 0 (omega (arith, length-mark_below n buf)))
      ∙ (test_bit-set_bit (byte old (n / 8)) (n % 8) (m % 8) (mark_below-IsBytes n buf b (n / 8))
          (omega arith) (omega arith)).0
      ∙ ap (λ j. (n % 8 == m % 8) || test_bit (byte old j) (m % 8)) here
      ∙ ap (λ t. (n % 8 == m % 8) || t) (bit_of-mark_below n buf m b h)
      ∙ ground (arith, here)
  | inr e ↦
      let apart = ne_of_== (n / 8) (m / 8) e in
      ap (λ v. test_bit v (m % 8)) (get_or-set_ne old (n / 8) (m / 8) new 0 apart)
      ∙ bit_of-mark_below n buf m b h
      ∙ ap (λ t. t || bit_of buf m) (ground (arith, apart))
]
  where
    old : List ℕ
    old = mark_below n buf

    new : ℕ
    new = set_bit (byte (mark_below n buf) (n / 8)) (n % 8)

lower_step : (i k : ℕ) → 1 + i ≢ k → leb (1 + (i + 1)) k ≡ leb (1 + i) k
lower_step i k ne = ground arith

range_step :
    (i k left : ℕ)
    → 1 + i ≢ k
    → (leb (1 + (i + 1)) k && ltb k (1 + (i + 1) + left))
      ≡ (leb (1 + i) k && ltb k (1 + i + suc left))
range_step i k left ne = ap₂ ◌&&◌ (lower_step i k ne) (ap (ltb k) (omega arith))

before : (i k left : ℕ) → 1 + i ≡ k → (leb (1 + (i + 1)) k && ltb k (1 + (i + 1) + left)) ≡ false
before i k left e = ap (λ t. t && ltb k (1 + (i + 1) + left)) (above i k e)
  where
    above : (i k : ℕ) → 1 + i ≡ k → leb (1 + (i + 1)) k ≡ false
    above i k e = ground arith

within : (i k left : ℕ) → 1 + i ≡ k → (leb (1 + i) k && ltb k (1 + i + suc left)) ≡ true
within i k left e =
    ap₂ ◌&&◌ (le→leb (1 + i) k (omega arith)) (lt→ltb k (1 + i + suc left) (omega arith))

bit_of-new :
    (start size m : ℕ) → m / 8 < size → bit_of (mark_below start (zeros size)) m ≡ ltb m start
bit_of-new start size m h =
    bit_of-mark_below start (zeros size) m (zeros-IsBytes size) (omega (arith, length-zeros size))
    ∙ rw (get_or-replicate {A = ℕ} size (m / 8) 0, test_bit_zero (m % 8) (omega arith))
        (ground arith)

module _ ⦃dev : Device⦄ where
  open dev use {Disk, read_block, write_block, blocks, block, put}

  -- The pieces of a buffer in the blocks from `1 + i` on.
  record Written (left i : ℕ) (bitmap : List ℕ) (d : Disk) : Type 0 where
    disk : Disk
    returns : write_bitmap left i bitmap d ≡ ok disk
    placed :
        (k : ℕ)
        → block disk k ≡ (
            if leb (1 + i) k && ltb k (1 + i + left)
            then slice ((k - 1) * block_size) block_size bitmap
            else block d k)
    size : blocks disk ≡ blocks d

  module _ (left i : ℕ) (bitmap : List ℕ) (d : Disk) (in_disk : 1 + i < blocks d)
      (whole : IsBlock (slice (i * block_size) block_size bitmap)) where
    abbrev piece : List ℕ
    piece = slice (i * block_size) block_size bitmap

    placed_first :
        (k : ℕ)
        → (if leb (1 + (i + 1)) k && ltb k (1 + (i + 1) + left)
            then slice ((k - 1) * block_size) block_size bitmap
            else block (put d (1 + i) piece) k)
          ≡ (if leb (1 + i) k && ltb k (1 + i + suc left)
              then slice ((k - 1) * block_size) block_size bitmap
              else block d k)
    placed_first k = elim (Bool-cases (1 + i == k)) [
      | inl e ↦
          let same : i ≡ k - 1 = ground (arith, eq_of_== (1 + i) k e) in
          rw
            (
              dev.block-put d (1 + i) piece k in_disk whole,
              e,
              before i k left (eq_of_== (1 + i) k e),
              within i k left (eq_of_== (1 + i) k e),
            )
            (ap (λ j. slice (j * block_size) block_size bitmap) same)
      | inr e ↦
          rw (dev.block-put d (1 + i) piece k in_disk whole, e)
            (ap (λ t. if t then slice ((k - 1) * block_size) block_size bitmap else block d k)
              (range_step i k left (ne_of_== (1 + i) k e)))
    ]

    Written-step : Written left (i + 1) bitmap (put d (1 + i) piece) → Written (suc left) i bitmap d
    unfolding write_bitmap
    Written-step rest = record {
      disk = rest.disk;
      returns = rw (write_bitmap, dev.write_block-ok d (1 + i) piece in_disk whole) rest.returns;
      placed = λ k. rest.placed k ∙ placed_first k;
      size = rest.size ∙ dev.blocks-put d (1 + i) piece in_disk whole;
    }

  write_bitmap-Written :
      (left i : ℕ) (bitmap : List ℕ) (d : Disk)
      → i + left < blocks d
      → (i + left) * block_size ≤ length bitmap
      → IsBytes bitmap
      → Written left i bitmap d
  write_bitmap-Written zero i bitmap d h long b = record {
    disk = d;
    returns = unfold write_bitmap in refl;
    placed = λ k. ground arith;
    size = refl;
  }
  write_bitmap-Written (suc left) i bitmap d h long b =
      let whole : IsBlock (slice (i * block_size) block_size bitmap) = (
        length-slice (i * block_size) block_size bitmap (omega arith),
        slice-IsBytes (i * block_size) block_size bitmap b,
      ) in
      let piece : List ℕ = slice (i * block_size) block_size bitmap in
      let kept = dev.blocks-put d (1 + i) piece (omega arith) whole in
      Written-step left i bitmap d (omega arith) whole (
        write_bitmap-Written left (i + 1) bitmap (put d (1 + i) piece) (omega (arith, kept))
          (omega arith) b)

  -- The state after `init_bitmap`: the bits say that what lies before the data is taken and that the
  -- rest is free; block 0 and the blocks behind the bits are as before.
  pub record Initialised (d : Disk) (sb : SuperBlock) : Type 0 where
    pub disk : Disk
    pub returns : init_bitmap d sb ≡ ok disk
    pub bits : (m : ℕ) → m < max_blocks → bit_at disk m ≡ ltb m sb.data_start
    pub superblock : block disk 0 ≡ block d 0
    pub others : (k : ℕ) → 6 ≤ k → block disk k ≡ block d k
    pub size : blocks disk ≡ blocks d

  -- `init_bitmap` of a disk with five blocks of bits takes the blocks before the data, and no other.
  pub init_bitmap-Initialised :
      (d : Disk) (sb : SuperBlock) → IsFull d → sb.bitmap_blocks ≡ 5 → Initialised d sb
  init_bitmap-Initialised d sb full five = record {
    disk = w.disk;
    returns = unfold init_bitmap in rw (init_bitmap, five) w.returns;
    bits = λ m h.
        ap (λ b. bit_in b m) (w.placed (1 + m / 8 / block_size) ∙ rw (in_bits m h) refl)
        ∙ ap (λ v. test_bit v (m % 8))
            (byte-slice ((1 + m / 8 / block_size - 1) * block_size) block_size new
                (m / 8 % block_size) (omega arith)
              ∙ ap (byte new) (omega arith))
        ∙ bit_of-new sb.data_start 2560 m (omega arith);
    superblock = w.placed 0 ∙ refl;
    others = λ k h. w.placed k ∙ rw (behind k h) refl;
    size = w.size;
  }
    where
      new : List ℕ
      new = mark_below sb.data_start (zeros (5 * block_size))

      w : Written 5 0 new d
      w =
          write_bitmap-Written 5 0 new d (omega arith)
            (omega (
              arith,
              length-mark_below sb.data_start (zeros (5 * block_size)),
              length-zeros (5 * block_size),
            ))
            (mark_below-IsBytes sb.data_start (zeros (5 * block_size))
              (zeros-IsBytes (5 * block_size)))

      in_bits :
          (m : ℕ)
          → m < max_blocks
          → (leb (1 + 0) (1 + m / 8 / block_size) && ltb (1 + m / 8 / block_size) (1 + 0 + 5))
            ≡ true
      in_bits m h = ground arith

      behind : (k : ℕ) → 6 ≤ k → (leb (1 + 0) k && ltb k (1 + 0 + 5)) ≡ false
      behind k h = ground arith
