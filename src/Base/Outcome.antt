-- ===== src/Base/Outcome.antt =====
-- What a call of the program does: it returns a value, or it panics.
use mathlib.Core.Path.{◌≡◌, refl}
use mathlib.Core.Logic.{◌⊎◌, inl, inr}
use mathlib.Core.Bool.{Bool, true, false}
use mathlib.Core.Option.{Option, none, some}

pub data Outcome {ℓ} (A : Type ℓ) : Type ℓ where
  ok : A → Outcome A
  panic : Outcome A

infixl 5 ◌>>=◌ ◌>>◌
abbrev pub ◌>>=◌ {ℓ κ} : {A : Type ℓ} {B : Type κ} → Outcome A → (A → Outcome B) → Outcome B
ok a >>= f = f a
panic >>= f = panic

abbrev pub ◌>>◌ {ℓ} : {B : Type ℓ} → Outcome (Unit {0}) → Outcome B → Outcome B
m >> k = m >>= λ _. k

-- An index or a length that the language checks at run time.
abbrev pub check : Bool → Outcome (Unit {0})
check true = ok tt
check false = panic

-- `.unwrap()` and `.expect(...)`
abbrev pub expect {ℓ} : {A : Type ℓ} → Option A → Outcome A
expect none = panic
expect (some a) = ok a

pub ok_inj {ℓ} : {A : Type ℓ} {a b : A} → ok a ≡ ok b → a ≡ b
ok_inj e = cc

pub Outcome-cases {ℓ} : {A : Type ℓ} (o : Outcome A) → ((a : A) × (o ≡ ok a)) ⊎ (o ≡ panic)
Outcome-cases (ok a) = inl (a, refl)
Outcome-cases panic = inr refl
