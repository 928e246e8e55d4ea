-- ===== src/Base/Endian.antt =====
-- `to_le_bytes` and `from_le_bytes` at every width: `k` bytes hold a number below 256 ^ k.
use Prim.Native.Nat.{ℕ, zero, suc, ◌+◌, ◌*◌, ◌/◌, ◌%◌, ◌^◌, ◌≤◌, ◌<◌}
use mathlib.Core.Path.{◌≡◌, refl, ap}
use mathlib.Core.List.{List, [], ◌∷◌}
use native.Mathlib.Omega.{arith}
use native.Mathlib.Nat.{pow-suc}
use operating_system_experie.Base.Lists.{length}
use operating_system_experie.Base.Slices.{IsBytes, slice, length-slice, slice-IsBytes}

abbrev pub to_le_bytes : ℕ → ℕ → List ℕ
to_le_bytes zero v = []
to_le_bytes (suc k) v = (v % 256) ∷ to_le_bytes k (v / 256)

abbrev pub from_le_bytes : List ℕ → ℕ
from_le_bytes [] = 0
from_le_bytes (b ∷ bs) = b + 256 * from_le_bytes bs

pub length-to_le_bytes : (k v : ℕ) → length (to_le_bytes k v) ≡ k
length-to_le_bytes zero v = refl
length-to_le_bytes (suc k) v = ap suc (length-to_le_bytes k (v / 256))

pub to_le_bytes-IsBytes : (k v : ℕ) → IsBytes (to_le_bytes k v)
to_le_bytes-IsBytes zero v i = omega arith
to_le_bytes-IsBytes (suc k) v zero = omega arith
to_le_bytes-IsBytes (suc k) v (suc i) = to_le_bytes-IsBytes k (v / 256) i

-- A number that fits the width is read back.
pub from_le_bytes-to_le_bytes : (k v : ℕ) → v < 256 ^ k → from_le_bytes (to_le_bytes k v) ≡ v
from_le_bytes-to_le_bytes zero v h = omega arith
from_le_bytes-to_le_bytes (suc k) v h =
    omega
      (arith, pow-suc 256 k, from_le_bytes-to_le_bytes k (v / 256) (omega (arith, pow-suc 256 k)))

-- What is read fits the width.
pub from_le_bytes-lt :
    (k : ℕ) (bs : List ℕ) → length bs ≡ k → IsBytes bs → from_le_bytes bs < 256 ^ k
from_le_bytes-lt zero [] e h = omega arith
from_le_bytes-lt zero (b ∷ bs) e h = absurd (omega arith)
from_le_bytes-lt (suc k) [] e h = absurd (omega arith)
from_le_bytes-lt (suc k) (b ∷ bs) e h =
    omega (arith, pow-suc 256 k, h 0, from_le_bytes-lt k bs (omega arith) (λ i. h (suc i)))

-- `u16::from_le_bytes([data[o], data[o + 1]])`, and so for four and eight bytes.
abbrev pub u16_at : ℕ → List ℕ → ℕ
u16_at o buf = from_le_bytes (slice o 2 buf)

abbrev pub u32_at : ℕ → List ℕ → ℕ
u32_at o buf = from_le_bytes (slice o 4 buf)

abbrev pub u64_at : ℕ → List ℕ → ℕ
u64_at o buf = from_le_bytes (slice o 8 buf)

-- Whatever the bytes, what is read at an offset fits the width.
pub from_le_bytes-slice_lt :
    (k o : ℕ) (buf : List ℕ)
    → o + k ≤ length buf
    → IsBytes buf
    → from_le_bytes (slice o k buf) < 256 ^ k
from_le_bytes-slice_lt k o buf h b =
    from_le_bytes-lt k (slice o k buf) (length-slice o k buf h) (slice-IsBytes o k buf b)
