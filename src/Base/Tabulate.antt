-- ===== src/Base/Tabulate.antt =====
-- Lists given by their elements.
use operating_system_experie.Base.Lists.{length, tabulate, take, drop, length-drop}
use operating_system_experie.Base.Slices.{byte, slice, byte-drop}
use Prim.Native.Nat.{ℕ, zero, suc, ◌+◌, ◌≤◌, ◌<◌}
use mathlib.Core.Path.{◌≡◌, refl, ap, ap₂, sym, ◌∙◌}
use mathlib.Core.List.{List, [], ◌∷◌, ◌++◌}
use native.Mathlib.Nat.{zero-add, suc-add}
use native.Mathlib.Omega.{arith}

module _ {ℓ} {A : Type ℓ} where
  pub tabulate_ext :
      (n : ℕ) (f g : ℕ → A) → ((j : ℕ) → j < n → f j ≡ g j) → tabulate n f ≡ tabulate n g
  tabulate_ext zero f g h = refl
  tabulate_ext (suc n) f g h =
      ap₂ ◌∷◌ (h 0 (omega arith))
        (tabulate_ext n (λ j. f (suc j)) (λ j. g (suc j)) (λ j l. h (suc j) (omega arith)))

  pub tabulate-add :
      (a b : ℕ) (f : ℕ → A) → tabulate a f ++ tabulate b (λ j. f (a + j)) ≡ tabulate (a + b) f
  tabulate-add zero b f =
      tabulate_ext b (λ j. f (0 + j)) f (λ j h. ap f (zero-add j))
      ∙ ap (λ k. tabulate k f) (sym (zero-add b))
  tabulate-add (suc a) b f =
      ap (λ l. f 0 ∷ (tabulate a (λ j. f (suc j)) ++ l))
        (tabulate_ext b (λ j. f (suc a + j)) (λ j. f (suc (a + j))) (λ j h. ap f (suc-add a j)))
      ∙ ap (λ l. f 0 ∷ l) (tabulate-add a b (λ j. f (suc j)))
      ∙ ap (λ k. tabulate k f) (sym (suc-add a b))

pub length-tabulate {ℓ} : {A : Type ℓ} (n : ℕ) (f : ℕ → A) → length (tabulate n f) ≡ n
length-tabulate zero f = refl
length-tabulate (suc n) f = ap suc (length-tabulate n (λ j. f (suc j)))

take-tabulate : (n : ℕ) (buf : List ℕ) → n ≤ length buf → take n buf ≡ tabulate n (λ j. byte buf j)
take-tabulate zero buf h = refl
take-tabulate (suc n) [] h = absurd (omega arith)
take-tabulate (suc n) (b ∷ buf) h = ap (λ l. b ∷ l) (take-tabulate n buf (omega arith))

-- A range of a buffer, byte by byte.
pub slice-tabulate :
    (o n : ℕ) (buf : List ℕ)
    → o + n ≤ length buf
    → slice o n buf ≡ tabulate n (λ j. byte buf (o + j))
slice-tabulate o n buf h =
    take-tabulate n (drop o buf) (omega (arith, length-drop o buf))
    ∙ tabulate_ext n (λ j. byte (drop o buf) j) (λ j. byte buf (o + j)) (λ j l. byte-drop o buf j)
