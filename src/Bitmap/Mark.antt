-- ===== src/Bitmap/Mark.antt =====
-- The bits on the device, and what `mark_allocated` and `mark_free` do to them.
use operating_system_experie.Base.{
  ℕ, ◌+◌, ◌-◌, ◌/◌, ◌%◌, ◌^◌, ◌≤◌, ◌<◌, ◌≡◌, ◌≢◌, refl, ap, ap₂, sym, ◌∙◌, Bool, true, false, ◌||◌,
  List, arith, max_blocks, block_size, if◌then◌else◌, ◌==◌, leb, set, Bool-cases, inl, inr,
  ==_of_ne, eq_of_==, ne_of_==, length-set, get_or-set_self, get_or-set_ne,
}
use operating_system_experie.Base.Slices.{byte, set-IsBytes}
use operating_system_experie.Base.Bits.{
  test_bit, set_bit, clear_bit, test_bit-set_bit, test_bit-clear_bit,
}
use operating_system_experie.Base.Outcome.{Outcome, ok}
use operating_system_experie.Device.{Device, IsBlock}
use operating_system_experie.Superblock.{SuperBlock, IsTyped, image}
use operating_system_experie.Superblock.RoundTrip.{image-IsBlock, IsTyped-count}
use operating_system_experie.Superblock.Store.{write_superblock-ok, block-write_superblock}
use operating_system_experie.Bitmap.{update, is_allocated, mark_allocated, mark_free}

-- The bit of a block number in a block of bits.
abbrev pub bit_in : List ℕ → ℕ → Bool
bit_in buf n = test_bit (byte buf (n / 8 % block_size)) (n % 8)

-- A change of one bit of a byte to a value leaves the other bits, and a byte.
abbrev pub Writes : Bool → (ℕ → ℕ → ℕ) → Type 0
Writes to change =
    (x k j : ℕ)
    → x < 256
    → k < 8
    → j < 8
    → (test_bit (change x k) j ≡ (if k == j then to else test_bit x j)) × (change x k < 256)

set_bit-Writes : Writes true set_bit
set_bit-Writes x k j hx hk hj = ground (arith, test_bit-set_bit x k j hx hk hj)

clear_bit-Writes : Writes false clear_bit
clear_bit-Writes x k j hx hk hj = ground (arith, test_bit-clear_bit x k j hx hk hj)

same_test :
    (n m : ℕ)
    → n / 8 / block_size ≡ m / 8 / block_size
    → n / 8 % block_size ≡ m / 8 % block_size
    → (n % 8 == m % 8) ≡ (n == m)
same_test n m p q = ground arith

moved : (n m : ℕ) → n / 8 % block_size ≢ m / 8 % block_size → n ≢ m
moved n m h e = h (ap (λ k. k / 8 % block_size) e)

module _ (to : Bool) (change : ℕ → ℕ → ℕ) (w : Writes to change) (buf : List ℕ) (b : IsBlock buf)
    (n : ℕ) where
  abbrev changed : List ℕ
  changed = set buf (n / 8 % block_size) (change (byte buf (n / 8 % block_size)) (n % 8))

  changed-IsBlock : IsBlock changed
  changed-IsBlock = (
    length-set buf (n / 8 % block_size) (change (byte buf (n / 8 % block_size)) (n % 8)) ∙ b.0,
    set-IsBytes buf (n / 8 % block_size) (change (byte buf (n / 8 % block_size)) (n % 8))
        (w (byte buf (n / 8 % block_size)) (n % 8) 0 (b.1 (n / 8 % block_size)) (omega arith)
          (omega arith)).1
        b.1,
  )

  -- Within one block of bits, only the bit of `n` changes.
  bit_in-changed :
      (m : ℕ)
      → n / 8 / block_size ≡ m / 8 / block_size
      → bit_in changed m ≡ (if n == m then to else bit_in buf m)
  bit_in-changed m same = elim (Bool-cases (n / 8 % block_size == m / 8 % block_size)) [
    | inl e ↦
        let here = eq_of_== (n / 8 % block_size) (m / 8 % block_size) e in
        ap (λ j. test_bit (byte changed j) (m % 8)) (sym here)
        ∙ ap (λ v. test_bit v (m % 8))
            (get_or-set_self buf (n / 8 % block_size)
              (change (byte buf (n / 8 % block_size)) (n % 8)) 0 (omega (arith, b.0)))
        ∙ (w (byte buf (n / 8 % block_size)) (n % 8) (m % 8) (b.1 (n / 8 % block_size))
            (omega arith) (omega arith)).0
        ∙ ap₂ (λ c j. if c then to else test_bit (byte buf j) (m % 8)) (same_test n m same here)
            here
    | inr e ↦
        let apart = ne_of_== (n / 8 % block_size) (m / 8 % block_size) e in
        ap (λ v. test_bit v (m % 8))
          (get_or-set_ne buf (n / 8 % block_size) (m / 8 % block_size)
            (change (byte buf (n / 8 % block_size)) (n % 8)) 0 apart)
        ∙ ap (λ c. if c then to else bit_in buf m) (sym (==_of_ne n m (moved n m apart)))
  ]

module _ ⦃dev : Device⦄ where
  open dev use {Disk, read_block, write_block, blocks, block, put}

  -- Whether the block of a number is marked as taken.
  abbrev pub bit_at : Disk → ℕ → Bool
  bit_at d n = bit_in (block d (1 + n / 8 / block_size)) n

  -- The image has all its blocks.
  abbrev pub IsFull : Disk → Type 0
  IsFull d = max_blocks ≤ blocks d

  -- `is_allocated` reads the bit of a block of the disk, and takes any other number as taken.
  pub is_allocated_lem :
      (d : Disk) (n : ℕ) → IsFull d → is_allocated d n ≡ ok (leb max_blocks n || bit_at d n)
  unfolding is_allocated
  is_allocated_lem d n full = elim (Bool-cases (leb max_blocks n)) [
    | inl e ↦ rw (is_allocated, e)
    | inr e ↦ rw (is_allocated, e, dev.read_block-ok d (1 + n / 8 / block_size) (ground arith))
  ]

  -- The state after `n` is marked, with every other bit and every block from 6 on as before.
  pub record Marked (to : Bool) (free : ℕ) (d : Disk) (sb : SuperBlock) (n : ℕ)
      (r : Outcome (Disk × SuperBlock)) : Type 0 where
    pub disk : Disk
    pub returns : r ≡ ok (disk, record sb { free_blocks = free })
    pub bits : (m : ℕ) → m < max_blocks → bit_at disk m ≡ (if n == m then to else bit_at d m)
    pub stored : block disk 0 ≡ image (record sb { free_blocks = free })
    pub others : (k : ℕ) → 6 ≤ k → block disk k ≡ block d k
    pub size : blocks disk ≡ blocks d

  module _ (to : Bool) (change : ℕ → ℕ → ℕ) (w : Writes to change) (count : ℕ → ℕ) (d : Disk)
      (sb : SuperBlock) (n : ℕ) (full : IsFull d) (inside : n < max_blocks)
      (t : IsTyped (record sb { free_blocks = count sb.free_blocks })) where
    abbrev home : ℕ
    home = 1 + n / 8 / block_size

    abbrev counted : SuperBlock
    counted = record sb { free_blocks = count sb.free_blocks }

    home-lt : home < blocks d
    home-lt = omega arith

    home-IsBlock : IsBlock (block d home)
    home-IsBlock = dev.block-IsBlock d home home-lt

    abbrev flipped : List ℕ
    flipped = changed to change w (block d home) home-IsBlock n

    flipped-IsBlock : IsBlock flipped
    flipped-IsBlock = changed-IsBlock to change w (block d home) home-IsBlock n

    abbrev mid : Disk
    mid = put d home flipped

    mid-blocks : blocks mid ≡ blocks d
    mid-blocks = dev.blocks-put d home flipped home-lt flipped-IsBlock

    mid-pos : 0 < blocks mid
    mid-pos = omega (arith, mid-blocks)

    abbrev end : Disk
    end = put mid 0 (image counted)

    block-end : (k : ℕ) → 0 < k → block end k ≡ (if home == k then flipped else block d k)
    block-end k h =
        block-write_superblock mid mid-pos counted t k
        ∙ rw (==_of_ne 0 k (omega arith)) (dev.block-put d home flipped k home-lt flipped-IsBlock)

    bit_at-end : (m : ℕ) → bit_at end m ≡ (if n == m then to else bit_at d m)
    bit_at-end m =
        ap (λ b. bit_in b m) (block-end (1 + m / 8 / block_size) (omega arith))
        ∙ elim (Bool-cases (home == 1 + m / 8 / block_size)) [
          | inl e ↦
              let same = eq_of_== home (1 + m / 8 / block_size) e in
              rw e (
                bit_in-changed to change w (block d home) home-IsBlock n m (omega arith)
                ∙ ap (λ k. if n == m then to else bit_in (block d k) m) same)
          | inr e ↦
              let apart : n ≢ m = λ p. ne_of_== _ _ e (ap (λ k. 1 + k / 8 / block_size) p) in
              rw (e, ==_of_ne n m apart) refl
        ]

    pub update-Marked : Marked to (count sb.free_blocks) d sb n (update change count d sb n)
    unfolding update
    update-Marked = record {
      disk = end;
      returns = rw (
        update,
        dev.read_block-ok d home home-lt,
        dev.write_block-ok d home flipped home-lt flipped-IsBlock,
        write_superblock-ok mid mid-pos counted t,
      );
      bits = λ m h. bit_at-end m;
      stored = block-write_superblock mid mid-pos counted t 0;
      others = λ k h. block-end k (omega arith) ∙ rw (==_of_ne home k (omega arith)) refl;
      size = dev.blocks-put mid 0 (image counted) mid-pos (image-IsBlock counted t) ∙ mid-blocks;
    }

  module _ (d : Disk) (sb : SuperBlock) (n : ℕ) (full : IsFull d) (inside : n < max_blocks)
      (t : IsTyped sb) where
    -- `mark_allocated` sets the bit of a block of the disk, takes one off the free count and stores
    -- the superblock; every other bit, and every block behind the bits, stays.
    pub mark_allocated_lem :
        Marked true ((sb.free_blocks + 2 ^ 32 - 1) % 2 ^ 32) d sb n (mark_allocated d sb n)
    unfolding mark_allocated
    mark_allocated_lem =
        update-Marked true set_bit set_bit-Writes (λ free. (free + 2 ^ 32 - 1) % 2 ^ 32) d sb n full
          inside (IsTyped-count t ((sb.free_blocks + 2 ^ 32 - 1) % 2 ^ 32) (omega arith))

    -- `mark_free` clears the bit and adds one to the free count, in the same way.
    pub mark_free_lem : Marked false ((sb.free_blocks + 1) % 2 ^ 32) d sb n (mark_free d sb n)
    unfolding mark_free
    mark_free_lem =
        update-Marked false clear_bit clear_bit-Writes (λ free. (free + 1) % 2 ^ 32) d sb n full
          inside (IsTyped-count t ((sb.free_blocks + 1) % 2 ^ 32) (omega arith))
