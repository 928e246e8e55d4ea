-- ===== src/Base/FirstClear.antt =====
-- The lowest number of a range at which a test fails: the specification of the scan of the bitmap.
use Prim.Native.Nat.{ℕ, zero, suc, ◌+◌, ◌≤◌, ◌<◌}
use mathlib.Core.Path.{◌≡◌, refl, ap, ap₂, ◌∙◌}
use mathlib.Core.Bool.{Bool, true, false}
use mathlib.Core.Option
use Prim.Native.Nat.add
use native.Mathlib.Decide.{dec_le}
use mathlib.Core.Option.{Option, none, some}
use native.Mathlib.Omega.{arith}
use operating_system_experie.Base.Tests.{if◌then◌else◌, Bool-cases}
use mathlib.Core.Logic.{inl, inr}

-- Among the `left` numbers from `start` on.
unfoldable pub first_clear : (ℕ → Bool) → ℕ → ℕ → Option ℕ
first_clear p zero start = none
first_clear p (suc left) start =
    let rest = first_clear p left (start + 1) in if p start then rest else some start

-- A number that is found is in the range, fails the test, and is the lowest to do so.
pub record IsFirst (p : ℕ → Bool) (lo hi n : ℕ) : Type 0 where
  pub above : lo ≤ n
  pub below : n < hi
  pub clear : p n ≡ false
  pub before : (m : ℕ) → lo ≤ m → m < n → p m ≡ true

pub first_clear-some :
    (p : ℕ → Bool) (left start n : ℕ)
    → first_clear p left start ≡ some n
    → IsFirst p start (start + left) n
unfolding first_clear
first_clear-some p zero start n e = cc
first_clear-some p (suc left) start n e = elim (Bool-cases (p start)) [
  | inl t ↦
      let r = first_clear-some p left (start + 1) n (rw t at e) in
      record {
        above = omega (arith, r.above);
        below = omega (arith, r.below);
        clear = r.clear;
        before = λ m lo hi. elim (dec_le (start + 1) m) [
          | yes above ↦ r.before m above hi
          | no not_above ↦ let same : m ≡ start = omega arith in rw same t
        ];
      }
  | inr f ↦
      let same : start ≡ n = ground arith in
      record {
        above = omega arith;
        below = omega arith;
        clear = rw (← same) f;
        before = λ m lo hi. absurd (omega arith);
      }
]

-- If nothing is found, the test holds on the whole range.
pub first_clear-none :
    (p : ℕ → Bool) (left start m : ℕ)
    → first_clear p left start ≡ none
    → start ≤ m
    → m < start + left
    → p m ≡ true
unfolding first_clear
first_clear-none p zero start m e lo hi = absurd (omega arith)
first_clear-none p (suc left) start m e lo hi = elim (Bool-cases (p start)) [
  | inl t ↦ elim (dec_le (start + 1) m) [
    | yes above ↦ first_clear-none p left (start + 1) m (rw t at e) above (omega arith)
    | no not_above ↦ let same : m ≡ start = omega arith in rw same t
  ]
  | inr f ↦ ground arith
]

pub first_clear_full :
    (p : ℕ → Bool) (left start : ℕ)
    → ((m : ℕ) → start ≤ m → m < start + left → p m ≡ true)
    → first_clear p left start ≡ none
unfolding first_clear
first_clear_full p zero start h = refl
first_clear_full p (suc left) start h =
    rw (h start (omega arith) (omega arith))
      (first_clear_full p left (start + 1) (λ m lo hi. h m (omega arith) (omega arith)))

-- The first result, or else the second.
abbrev pub or_else : Option ℕ → Option ℕ → Option ℕ
or_else none b = b
or_else (some n) b = some n

pub first_clear-add :
    (p : ℕ → Bool) (a b start : ℕ)
    → first_clear p (a + b) start ≡ or_else (first_clear p a start) (first_clear p b (start + a))
unfolding first_clear
first_clear-add p zero b start = ap₂ (first_clear p) (omega arith) (omega arith)
first_clear-add p (suc a) b start =
    ap (λ k. first_clear p k start) (add.suc a b) ∙ elim (Bool-cases (p start)) [
      | inl t ↦ rw t (
          first_clear-add p a b (start + 1)
          ∙ ap (λ k. or_else (first_clear p a (start + 1)) (first_clear p b k)) (omega arith))
      | inr f ↦ rw f refl
    ]

-- A test moved by `s`.
pub first_clear_shift :
    (p q : ℕ → Bool) (s left start : ℕ)
    → ((m : ℕ) → start ≤ m → m < start + left → p (s + m) ≡ q m)
    → first_clear p left (s + start) ≡ Option.map (λ n. s + n) (first_clear q left start)
unfolding first_clear
first_clear_shift p q s zero start h = refl
first_clear_shift p q s (suc left) start h =
    rw (h start (omega arith) (omega arith)) (elim (Bool-cases (q start)) [
      | inl t ↦ rw t (
          ap (first_clear p left) (omega arith)
          ∙ first_clear_shift p q s left (start + 1) (λ m lo hi. h m (omega arith) (omega arith)))
      | inr f ↦ rw f refl
    ])
