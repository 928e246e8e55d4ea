-- ===== src/Base/Slices.antt =====
-- `buf[o..o+n]`, and `buf[o..o+src.len()].copy_from_slice(src)`, on buffers of bytes.
use operating_system_experie.Base.Tests.{ltb, leb, if◌then◌else◌}
use operating_system_experie.Base.Lists.{
  length, get_or, take, drop, replicate, set, length-take, length-drop, length-replicate,
  get_or-replicate,
}
use Prim.Native.Nat.{ℕ, zero, suc, ◌+◌, ◌-◌, ◌≤◌, ◌<◌}
use mathlib.Core.Path.{◌≡◌, refl, ap, sym, ◌∙◌}
use Prim.Native.Nat.add
use mathlib.Core.Logic.{◌⊎◌, inl, inr}
use mathlib.Core.Bool.{◌&&◌}
use mathlib.Core.List.{List, [], ◌∷◌, ◌++◌}
use native.Mathlib.Omega.{arith}

-- The byte at an index; 0 past the end.
abbrev pub byte : List ℕ → ℕ → ℕ
byte buf i = get_or buf i 0

-- Every element is a byte.
abbrev pub IsBytes : List ℕ → Type 0
IsBytes buf = (i : ℕ) → byte buf i < 256

-- `vec![0u8; n]`
abbrev pub zeros : ℕ → List ℕ
zeros n = replicate n 0

-- `&data[o..o + n]`
abbrev pub slice : ℕ → ℕ → List ℕ → List ℕ
slice o n buf = take n (drop o buf)

-- `buf[o..o + src.len()].copy_from_slice(src)`. What would lie past the end is dropped: where the
-- source could get there it panics, and the model tests for that before the call.
unfoldable pub splice : ℕ → List ℕ → List ℕ → List ℕ
splice o src [] = []
splice zero [] (b ∷ buf) = b ∷ buf
splice zero (s ∷ src) (b ∷ buf) = s ∷ splice zero src buf
splice (suc o) src (b ∷ buf) = b ∷ splice o src buf

pub length-splice : (o : ℕ) (src buf : List ℕ) → length (splice o src buf) ≡ length buf
unfolding splice
length-splice zero src [] = refl
length-splice (suc o) src [] = refl
length-splice zero [] (b ∷ buf) = refl
length-splice zero (s ∷ src) (b ∷ buf) = ap suc (length-splice zero src buf)
length-splice (suc o) src (b ∷ buf) = ap suc (length-splice o src buf)

pub length-slice : (o n : ℕ) (buf : List ℕ) → o + n ≤ length buf → length (slice o n buf) ≡ n
length-slice o n buf h = omega (arith, length-take n (drop o buf), length-drop o buf)

-- What was copied in is read back.
pub slice-splice_self :
    (o : ℕ) (src buf : List ℕ)
    → o + length src ≤ length buf
    → slice o (length src) (splice o src buf) ≡ src
unfolding splice
slice-splice_self zero [] [] h = refl
slice-splice_self zero (s ∷ src) [] h = absurd (omega arith)
slice-splice_self (suc o) src [] h = absurd (omega arith)
slice-splice_self zero [] (b ∷ buf) h = refl
slice-splice_self zero (s ∷ src) (b ∷ buf) h =
    ap (λ l. s ∷ l) (slice-splice_self zero src buf (omega arith))
slice-splice_self (suc o) src (b ∷ buf) h = slice-splice_self o src buf (omega arith)

take-splice : (n o : ℕ) (src buf : List ℕ) → n ≤ o → take n (splice o src buf) ≡ take n buf
unfolding splice
take-splice zero o src buf h = refl
take-splice (suc n) zero src buf h = absurd (omega arith)
take-splice (suc n) (suc o) src [] h = refl
take-splice (suc n) (suc o) src (b ∷ buf) h =
    ap (λ l. b ∷ l) (take-splice n o src buf (omega arith))

drop-splice :
    (m o : ℕ) (src buf : List ℕ) → o + length src ≤ m → drop m (splice o src buf) ≡ drop m buf
unfolding splice
drop-splice zero zero [] [] h = refl
drop-splice zero zero [] (b ∷ buf) h = refl
drop-splice zero zero (s ∷ src) buf h = absurd (omega arith)
drop-splice zero (suc o) src buf h = absurd (omega arith)
drop-splice (suc m) zero src [] h = refl
drop-splice (suc m) (suc o) src [] h = refl
drop-splice (suc m) zero [] (b ∷ buf) h = refl
drop-splice (suc m) zero (s ∷ src) (b ∷ buf) h = drop-splice m zero src buf (omega arith)
drop-splice (suc m) (suc o) src (b ∷ buf) h = drop-splice m o src buf (omega arith)

slice-splice_before :
    (m n o : ℕ) (src buf : List ℕ) → m + n ≤ o → slice m n (splice o src buf) ≡ slice m n buf
unfolding splice
slice-splice_before zero n o src buf h = take-splice n o src buf (omega arith)
slice-splice_before (suc m) n zero src buf h = absurd (omega arith)
slice-splice_before (suc m) n (suc o) src [] h = refl
slice-splice_before (suc m) n (suc o) src (b ∷ buf) h =
    slice-splice_before m n o src buf (omega arith)

-- A copy leaves every range beside it alone.
pub slice-splice_ne :
    (m n o : ℕ) (src buf : List ℕ)
    → (m + n ≤ o) ⊎ (o + length src ≤ m)
    → slice m n (splice o src buf) ≡ slice m n buf
slice-splice_ne m n o src buf (inl h) = slice-splice_before m n o src buf h
slice-splice_ne m n o src buf (inr h) = ap (take n) (drop-splice m o src buf h)

-- A byte of the result is one of the copied bytes or the old byte.
pub byte-splice :
    (o : ℕ) (src buf : List ℕ) (i : ℕ)
    → i < length buf
    → byte (splice o src buf) i
      ≡ (if leb o i && ltb i (o + length src) then byte src (i - o) else byte buf i)
unfolding splice
byte-splice o src [] i h = absurd (omega arith)
byte-splice zero [] (b ∷ buf) i h = ground arith
byte-splice zero (s ∷ src) (b ∷ buf) zero h = ground arith
byte-splice zero (s ∷ src) (b ∷ buf) (suc i) h =
    byte-splice zero src buf i (omega arith) ∙ ground arith
byte-splice (suc o) src (b ∷ buf) zero h = ground arith
byte-splice (suc o) src (b ∷ buf) (suc i) h = byte-splice o src buf i (omega arith) ∙ ground arith

pub byte_past_end : (buf : List ℕ) (i : ℕ) → length buf ≤ i → byte buf i ≡ 0
byte_past_end [] i h = refl
byte_past_end (b ∷ buf) zero h = absurd (omega arith)
byte_past_end (b ∷ buf) (suc i) h = byte_past_end buf i (omega arith)

pub splice-IsBytes :
    (o : ℕ) (src buf : List ℕ) → IsBytes src → IsBytes buf → IsBytes (splice o src buf)
unfolding splice
splice-IsBytes o src [] hs hb i = hb i
splice-IsBytes zero [] (b ∷ buf) hs hb i = hb i
splice-IsBytes zero (s ∷ src) (b ∷ buf) hs hb zero = hs 0
splice-IsBytes zero (s ∷ src) (b ∷ buf) hs hb (suc i) =
    splice-IsBytes zero src buf (λ j. hs (suc j)) (λ j. hb (suc j)) i
splice-IsBytes (suc o) src (b ∷ buf) hs hb zero = hb 0
splice-IsBytes (suc o) src (b ∷ buf) hs hb (suc i) = splice-IsBytes o src buf hs (λ j. hb (suc j)) i

pub take-IsBytes : (n : ℕ) (buf : List ℕ) → IsBytes buf → IsBytes (take n buf)
take-IsBytes zero buf h i = omega arith
take-IsBytes (suc n) [] h i = omega arith
take-IsBytes (suc n) (b ∷ buf) h zero = h 0
take-IsBytes (suc n) (b ∷ buf) h (suc i) = take-IsBytes n buf (λ j. h (suc j)) i

pub drop-IsBytes : (n : ℕ) (buf : List ℕ) → IsBytes buf → IsBytes (drop n buf)
drop-IsBytes zero buf h i = h i
drop-IsBytes (suc n) [] h i = omega arith
drop-IsBytes (suc n) (b ∷ buf) h i = drop-IsBytes n buf (λ j. h (suc j)) i

pub slice-IsBytes : (o n : ℕ) (buf : List ℕ) → IsBytes buf → IsBytes (slice o n buf)
slice-IsBytes o n buf h = take-IsBytes n (drop o buf) (drop-IsBytes o buf h)

pub set-IsBytes : (buf : List ℕ) (i v : ℕ) → v < 256 → IsBytes buf → IsBytes (set buf i v)
set-IsBytes [] i v hv h j = h j
set-IsBytes (b ∷ buf) zero v hv h zero = hv
set-IsBytes (b ∷ buf) zero v hv h (suc j) = h (suc j)
set-IsBytes (b ∷ buf) (suc i) v hv h zero = h 0
set-IsBytes (b ∷ buf) (suc i) v hv h (suc j) = set-IsBytes buf i v hv (λ k. h (suc k)) j

pub length-zeros : (n : ℕ) → length (zeros n) ≡ n
length-zeros n = length-replicate n 0

pub zeros-IsBytes : (n : ℕ) → IsBytes (zeros n)
zeros-IsBytes n i = omega (arith, get_or-replicate {A = ℕ} n i 0)

-- A copy over a whole buffer.
pub splice_whole : (src buf : List ℕ) → length src ≡ length buf → splice 0 src buf ≡ src
unfolding splice
splice_whole [] [] h = refl
splice_whole [] (b ∷ buf) h = absurd (omega arith)
splice_whole (s ∷ src) [] h = absurd (omega arith)
splice_whole (s ∷ src) (b ∷ buf) h = ap (λ l. s ∷ l) (splice_whole src buf (omega arith))

-- A copy to the front of a buffer.
pub splice-zero :
    (src buf : List ℕ) → length src ≤ length buf → splice 0 src buf ≡ src ++ drop (length src) buf
unfolding splice
splice-zero [] [] h = refl
splice-zero [] (b ∷ buf) h = refl
splice-zero (s ∷ src) [] h = absurd (omega arith)
splice-zero (s ∷ src) (b ∷ buf) h = ap (λ l. s ∷ l) (splice-zero src buf (omega arith))

pub byte-drop : (o : ℕ) (buf : List ℕ) (i : ℕ) → byte (drop o buf) i ≡ byte buf (o + i)
byte-drop zero buf i = ap (byte buf) (omega arith)
byte-drop (suc o) [] i = refl
byte-drop (suc o) (b ∷ buf) i = byte-drop o buf i ∙ ap (byte (b ∷ buf)) (sym (add.suc o i))

pub byte-take : (n : ℕ) (buf : List ℕ) (i : ℕ) → i < n → byte (take n buf) i ≡ byte buf i
byte-take zero buf i h = absurd (omega arith)
byte-take (suc n) [] i h = refl
byte-take (suc n) (b ∷ buf) zero h = refl
byte-take (suc n) (b ∷ buf) (suc i) h = byte-take n buf i (omega arith)

pub byte-slice :
    (o n : ℕ) (buf : List ℕ) (i : ℕ) → i < n → byte (slice o n buf) i ≡ byte buf (o + i)
byte-slice o n buf i h = byte-take n (drop o buf) i h ∙ byte-drop o buf i
