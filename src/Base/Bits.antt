-- ===== src/Base/Bits.antt =====
-- The bits of a byte under `|`, `&` and `!`, checked over all bytes.
use Prim.Native.Nat.{ℕ, ◌-◌, ◌^◌, ◌<◌, bit_and, bit_or, bit_and-bitwise}
use mathlib.Core.Path.{◌≡◌, refl}
use mathlib.Core.Bool.{Bool, true, false, ◌&&◌, ◌||◌, not}
use native.Mathlib.Omega.{arith}
use operating_system_experie.Base.Tests.{
  ltb, ◌==◌, if◌then◌else◌, all_below, all_below_sound, ltb→lt,
}

-- `(x & (1u8 << k)) != 0`
unfoldable pub test_bit : ℕ → ℕ → Bool
test_bit x k = not (bit_and x (2 ^ k) == 0)

-- `x | (1u8 << k)`
unfoldable pub set_bit : ℕ → ℕ → ℕ
set_bit x k = bit_or x (2 ^ k)

-- `x & !(1u8 << k)`: on a byte `!m` is 255 - m.
unfoldable pub clear_bit : ℕ → ℕ → ℕ
clear_bit x k = bit_and x (255 - 2 ^ k)

same : Bool → Bool → Bool
same true b = b
same false b = not b

same_sound : (a b : Bool) → same a b ≡ true → a ≡ b
unfolding same
same_sound a b h = ground arith

-- A test of a byte and two bit numbers, over all of them.
over_bytes : (ℕ → ℕ → ℕ → Bool) → Bool
over_bytes p = all_below 256 (λ x. all_below 8 (λ k. all_below 8 (λ j. p x k j)))

over_bytes_sound :
    (p : ℕ → ℕ → ℕ → Bool) (x k j : ℕ)
    → over_bytes p ≡ true
    → x < 256
    → k < 8
    → j < 8
    → p x k j ≡ true
unfolding over_bytes
over_bytes_sound p x k j h hx hk hj =
    all_below_sound 8 (λ j. p x k j) j
      (all_below_sound 8 (λ k. all_below 8 (λ j. p x k j)) k
        (all_below_sound 256 (λ x. all_below 8 (λ k. all_below 8 (λ j. p x k j))) x h hx) hk)
      hj

set_table :
    over_bytes
      (λ x k j. same (test_bit (set_bit x k) j) ((k == j) || test_bit x j) && ltb (set_bit x k) 256)
    ≡ true
unfolding over_bytes same test_bit set_bit
set_table = refl

clear_table :
    over_bytes (λ x k j.
      same (test_bit (clear_bit x k) j) (not (k == j) && test_bit x j) && ltb (clear_bit x k) 256)
    ≡ true
unfolding over_bytes same test_bit clear_bit
clear_table = refl

full_table : over_bytes (λ x k j. if x == 255 then test_bit x j else true) ≡ true
unfolding over_bytes test_bit
full_table = refl

-- An `&&` that holds holds on both sides.
and_true : (a b : Bool) → (a && b) ≡ true → (a ≡ true) × (b ≡ true)
and_true a b h = ground arith

module _ (x k j : ℕ) (hx : x < 256) (hk : k < 8) (hj : j < 8) where
  -- `|` sets the one bit, and the result is a byte.
  pub test_bit-set_bit :
      (test_bit (set_bit x k) j ≡ ((k == j) || test_bit x j)) × (set_bit x k < 256)
  test_bit-set_bit =
      let (a, b) = and_true _ _ (over_bytes_sound _ x k j set_table hx hk hj) in
      (same_sound _ _ a, ltb→lt _ _ b)

  -- `& !` clears the one bit, and the result is a byte.
  pub test_bit-clear_bit :
      (test_bit (clear_bit x k) j ≡ (not (k == j) && test_bit x j)) × (clear_bit x k < 256)
  test_bit-clear_bit =
      let (a, b) = and_true _ _ (over_bytes_sound _ x k j clear_table hx hk hj) in
      (same_sound _ _ a, ltb→lt _ _ b)

-- Every bit of 0xFF is set.
pub test_bit_full : (j : ℕ) → j < 8 → test_bit 255 j ≡ true
test_bit_full j hj = over_bytes_sound _ 255 0 j full_table (omega arith) (omega arith) hj

-- No bit of 0 is set.
pub test_bit_zero : (j : ℕ) → j < 8 → test_bit 0 j ≡ false
unfolding test_bit
test_bit_zero j hj = zero_case j hj
  where
    zero_case : (j : ℕ) → j < 8 → not (bit_and 0 (2 ^ j) == 0) ≡ false
    zero_case j h = rw (bit_and-bitwise 0 (2 ^ j))
