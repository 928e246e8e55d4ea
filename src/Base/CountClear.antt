-- ===== src/Base/CountClear.antt =====
-- How many numbers below a bound fail a test: what the free count of a bitmap counts.
use Prim.Native.Nat.{ℕ, zero, suc, ◌-◌, ◌≤◌, ◌<◌}
use mathlib.Core.Path.{◌≡◌, refl, sym, ap, ◌∙◌}
use mathlib.Core.Logic.{inl, inr}
use mathlib.Core.Bool.{Bool, true, false}
use native.Mathlib.Omega.{arith}
use operating_system_experie.Base.Tests.{ltb, if◌then◌else◌, ◌==◌, Bool-cases, eq_of_==, ==_of_ne}

unfoldable pub count_clear : (ℕ → Bool) → ℕ → ℕ
count_clear p zero = 0
count_clear p (suc n) = let rest = count_clear p n in if p n then rest else suc rest

pub count_clear-le : (p : ℕ → Bool) (n : ℕ) → count_clear p n ≤ n
unfolding count_clear
count_clear-le p zero = omega arith
count_clear-le p (suc n) = ground (arith, count_clear-le p n)

pub count_clear_ext :
    (p q : ℕ → Bool) (n : ℕ) → ((m : ℕ) → m < n → p m ≡ q m) → count_clear p n ≡ count_clear q n
unfolding count_clear
count_clear_ext p q zero h = refl
count_clear_ext p q (suc n) h =
    rw (h n (omega arith), count_clear_ext p q n (λ m hm. h m (omega arith)))

-- Setting one clear bit takes one off the count.
pub count_clear-set :
    (p q : ℕ → Bool) (k n : ℕ)
    → k < n
    → p k ≡ false
    → ((m : ℕ) → m < n → q m ≡ (if k == m then true else p m))
    → suc (count_clear q n) ≡ count_clear p n
unfolding count_clear
count_clear-set p q k zero lt clear h = absurd (omega arith)
count_clear-set p q k (suc n) lt clear h = elim (Bool-cases (k == n)) [
  | inl e ↦
      let here : n ≡ k = sym (eq_of_== k n e) in
      let low =
        count_clear_ext q p n (λ m hm. h m (omega arith) ∙ rw (==_of_ne k m (omega arith)) refl) in
      let p_here : p n ≡ false = rw here clear in
      let q_here : q n ≡ true = h n (omega arith) ∙ rw e refl in rw (p_here, q_here, low)
  | inr e ↦
      let low = count_clear-set p q k n (ground arith) clear (λ m hm. h m (omega arith)) in
      let same : q n ≡ p n = h n (omega arith) ∙ rw e refl in
      rw same (elim (Bool-cases (p n)) [ inl t ↦ rw t low | inr f ↦ rw f (ap suc low) ])
]

-- The count is zero exactly if the scan finds nothing.
pub count_clear-zero : (p : ℕ → Bool) (n m : ℕ) → count_clear p n ≡ 0 → m < n → p m ≡ true
unfolding count_clear
count_clear-zero p zero m e lt = absurd (omega arith)
count_clear-zero p (suc n) m e lt = elim (Bool-cases (p n)) [
  | inl t ↦ elim (Bool-cases (n == m)) [
    | inl same ↦ rw (← eq_of_== n m same) t
    | inr other ↦ count_clear-zero p n m (rw t at e) (ground arith)
  ]
  | inr f ↦ absurd (omega (arith, rw f at e))
]

pub count_clear_pos : (p : ℕ → Bool) (n m : ℕ) → m < n → p m ≡ false → 0 < count_clear p n
unfolding count_clear
count_clear_pos p zero m lt clear = absurd (omega arith)
count_clear_pos p (suc n) m lt clear = elim (Bool-cases (n == m)) [
  | inl same ↦ let here : n ≡ m = eq_of_== n m same in rw (here, clear) (omega arith)
  | inr other ↦ ground (arith, count_clear_pos p n m)
]

-- The numbers below `start` are taken and the others are not.
pub count_clear-ltb : (start n : ℕ) → count_clear (λ m. ltb m start) n ≡ n - start
unfolding count_clear
count_clear-ltb start zero = omega arith
count_clear-ltb start (suc n) = ground (arith, count_clear-ltb start n)

pub count_clear_full : (p : ℕ → Bool) (n : ℕ) → ((m : ℕ) → m < n → p m ≡ true) → count_clear p n ≡ 0
unfolding count_clear
count_clear_full p zero h = refl
count_clear_full p (suc n) h =
    rw (h n (omega arith), count_clear_full p n (λ m l. h m (omega arith)))
