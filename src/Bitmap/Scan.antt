-- ===== src/Bitmap/Scan.antt =====
-- The scan for a free block, against the lowest clear bit.
use operating_system_experie.Base.{
  ℕ, zero, suc, ◌+◌, ◌*◌, ◌/◌, ◌%◌, ◌^◌, ◌≤◌, ◌<◌, ◌≡◌, refl, ap, ap₂, sym, ◌∙◌, Bool, List, [],
  ◌∷◌, length, arith, Option, none, some, block_size, ◌==◌, Bool-cases, Option-cases, inl, inr,
  eq_of_==,
}
use mathlib.Core.Option
use operating_system_experie.Base.Slices.{byte}
use operating_system_experie.Base.Bits.{test_bit}
use operating_system_experie.Base.FirstClear.{
  first_clear, first_clear-some, first_clear-add, first_clear_shift, or_else,
}
use operating_system_experie.Base.Outcome.{ok, ◌>>=◌}
use operating_system_experie.Device.{Device}
use operating_system_experie.Bitmap.{scan_bits, scan_bytes, find_free}
use operating_system_experie.Bitmap.Mark.{bit_in, bit_at}

scan_bits_lem : (value : ℕ) → scan_bits 8 value ≡ first_clear (test_bit value) 8 0
unfolding scan_bits first_clear
scan_bits_lem value = refl

-- The number of a bit in a run of bytes.
abbrev bit_number : ℕ × ℕ → ℕ
bit_number (offset, bit) = offset * 8 + bit

module _ (p : ℕ → Bool) (value : ℕ) (values : List ℕ) (offset : ℕ)
    (first : (j : ℕ) → j < 8 → p (offset * 8 + j) ≡ test_bit value j) where
  first_byte : first_clear p 8 (offset * 8) ≡ Option.map (λ b. offset * 8 + b) (scan_bits 8 value)
  first_byte =
      ap (first_clear p 8) (omega arith)
      ∙ first_clear_shift p (test_bit value) (offset * 8) 8 0 (λ j lo hi. first j (omega arith))
      ∙ ap (Option.map (λ b. offset * 8 + b)) (sym (scan_bits_lem value))

  split :
      first_clear p (suc (length values) * 8) (offset * 8)
      ≡ or_else
          (Option.map (λ b. offset * 8 + b) (scan_bits 8 value))
          (first_clear p (length values * 8) ((offset + 1) * 8))
  split =
      ap (λ k. first_clear p k (offset * 8)) (omega arith)
      ∙ first_clear-add p 8 (length values * 8) (offset * 8)
      ∙ ap₂ or_else first_byte (ap (first_clear p (length values * 8)) (omega arith))

  scan_bytes_step :
      Option.map bit_number (scan_bytes values (offset + 1))
        ≡ first_clear p (length values * 8) ((offset + 1) * 8)
      → Option.map bit_number (scan_bytes (value ∷ values) offset)
        ≡ first_clear p (suc (length values) * 8) (offset * 8)
  unfolding scan_bytes
  scan_bytes_step ih = elim (Bool-cases (value == 255)) [
    | inl full ↦ rw (full, split, full_byte (eq_of_== value 255 full)) ih
    | inr part ↦
        rw (part, split)
          (elim (Option-cases (scan_bits 8 value)) [ inl e ↦ rw e ih | inr (b, e) ↦ rw e refl ])
  ]
    where
      full_byte : value ≡ 255 → scan_bits 8 value ≡ none
      full_byte e = rw e (unfold scan_bits test_bit in refl)

-- `scan_bytes` finds the lowest clear bit of its bytes, counted from the bit number of the first.
scan_bytes_lem :
    (p : ℕ → Bool) (values : List ℕ) (offset : ℕ)
    → ((i j : ℕ)
        → i < length values
        → j < 8
        → p ((offset + i) * 8 + j) ≡ test_bit (byte values i) j)
    → Option.map bit_number (scan_bytes values offset)
      ≡ first_clear p (length values * 8) (offset * 8)
scan_bytes_lem p [] offset h = unfold first_clear scan_bytes in refl
scan_bytes_lem p (value ∷ values) offset h =
    scan_bytes_step p value values offset
      (λ j hj. ap (λ n. p (n * 8 + j)) (omega arith) ∙ h 0 j (omega arith) hj)
      (scan_bytes_lem p values (offset + 1)
        (λ i j hi hj. ap (λ n. p (n * 8 + j)) (omega arith) ∙ h (suc i) j (omega arith) hj))

bit_in_lem :
    (buf : List ℕ) (i j : ℕ)
    → i < block_size
    → j < 8
    → bit_in buf (i * 8 + j) ≡ test_bit (byte buf i) j
bit_in_lem buf i j hi hj =
    let at_byte : (i * 8 + j) / 8 % block_size ≡ i = omega arith in
    let at_bit : (i * 8 + j) % 8 ≡ j = omega arith in
    λ t. test_bit (byte buf (at_byte t)) (at_bit t)

map-map :
    (f : ℕ × ℕ → ℕ) (g : ℕ → ℕ) (o : Option (ℕ × ℕ))
    → Option.map g (Option.map f o) ≡ Option.map (λ x. g (f x)) o
map-map f g none = refl
map-map f g (some x) = refl

module _ ⦃dev : Device⦄ where
  open dev use {Disk, read_block, blocks, block}

  bit_at-bit_in :
      (d : Disk) (idx m : ℕ) → m < 4096 → bit_at d (idx * 4096 + m) ≡ bit_in (block d (1 + idx)) m
  bit_at-bit_in d idx m h =
      let at_block : 1 + (idx * 4096 + m) / 8 / block_size ≡ 1 + idx = omega arith in
      let at_byte : (idx * 4096 + m) / 8 % block_size ≡ m / 8 % block_size = omega arith in
      let at_bit : (idx * 4096 + m) % 8 ≡ m % 8 = omega arith in
      λ t. test_bit (byte (block d (at_block t)) (at_byte t)) (at_bit t)

  -- One block of bits.
  scan_block :
      (d : Disk) (idx : ℕ)
      → 1 + idx < blocks d
      → first_clear (bit_at d) 4096 (idx * 4096)
        ≡ Option.map (λ place. idx * 4096 + bit_number place) (scan_bytes (block d (1 + idx)) 0)
  scan_block d idx h =
      let buf = block d (1 + idx) in
      let whole = (dev.block-IsBlock d (1 + idx) h).0 in
      ap (first_clear (bit_at d) 4096) (omega arith)
      ∙ first_clear_shift (bit_at d) (bit_in buf) (idx * 4096) 4096 0
          (λ m lo hi. bit_at-bit_in d idx m (omega arith))
      ∙ ap (Option.map (λ n. idx * 4096 + n)) (
          ap (λ k. first_clear (bit_in buf) (k * 8) 0) (sym whole)
          ∙ sym (
              scan_bytes_lem (bit_in buf) buf 0 (λ i j hi hj.
                ap (λ k. bit_in buf (k * 8 + j)) (omega arith)
                ∙ bit_in_lem buf i j (omega arith) hj)))
      ∙ map-map bit_number (λ n. idx * 4096 + n) (scan_bytes buf 0)

  in_u32 :
      (d : Disk) (idx : ℕ) (place : ℕ × ℕ)
      → 1 + idx < blocks d
      → (idx + 1) * 4096 ≤ 2 ^ 32
      → scan_bytes (block d (1 + idx)) 0 ≡ some place
      → ((idx * block_size + place.0) * 8 + place.1) % 2 ^ 32 ≡ idx * 4096 + bit_number place
  in_u32 d idx place h fits e =
      let first =
        first_clear-some (bit_at d) 4096 (idx * 4096) (idx * 4096 + bit_number place)
          (scan_block d idx h ∙ ap (Option.map (λ p. idx * 4096 + bit_number p)) e) in
      omega (arith, first.below)

  -- The scan over the blocks of bits finds the lowest clear bit.
  pub find_free_lem :
      (left idx : ℕ) (d : Disk)
      → idx + left < blocks d
      → (idx + left) * 4096 ≤ 2 ^ 32
      → find_free left idx d ≡ ok (first_clear (bit_at d) (left * 4096) (idx * 4096))
  unfolding find_free
  find_free_lem zero idx d h fits = unfold first_clear in refl
  find_free_lem (suc left) idx d h fits =
      rw (find_free, dev.read_block-ok d (1 + idx) (omega arith), split_block)
        (elim (Option-cases (scan_bytes (block d (1 + idx)) 0)) [
          | inl e ↦ rw (◌>>=◌, e) (find_free_lem left (idx + 1) d (omega arith) (omega arith))
          | inr (place, e) ↦
              rw (◌>>=◌, e)
                (ap (λ n. ok (some n)) (in_u32 d idx place (omega arith) (omega arith) e))
        ])
    where
      split_block :
          first_clear (bit_at d) (suc left * 4096) (idx * 4096)
          ≡ or_else
              (Option.map
                (λ place. idx * 4096 + bit_number place)
                (scan_bytes (block d (1 + idx)) 0))
              (first_clear (bit_at d) (left * 4096) ((idx + 1) * 4096))
      split_block =
          ap (λ k. first_clear (bit_at d) k (idx * 4096)) (omega arith)
          ∙ first_clear-add (bit_at d) 4096 (left * 4096) (idx * 4096)
          ∙ ap₂ or_else (scan_block d idx (omega arith))
              (ap (first_clear (bit_at d) (left * 4096)) (omega arith))
