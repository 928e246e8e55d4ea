-- ===== src/Base/Utf8.antt =====
-- `std::str::from_utf8`: which byte strings are texts. After a first byte, `need` bytes follow, the
-- next of them in a range.
use operating_system_experie.Base.Tests.{ltb, leb, ◌==◌, if◌then◌else◌}
use Prim.Native.Nat.{ℕ, ◌-◌}
use mathlib.Core.Bool.{Bool, ◌&&◌, ◌||◌}
use mathlib.Core.List.{List, [], ◌∷◌}

within : ℕ → ℕ → ℕ → Bool
within lo hi b = leb lo b && leb b hi

-- How many bytes follow a first byte.
follow : ℕ → ℕ
follow b = if ltb b 0x80 then 0 else if ltb b 0xE0 then 1 else if ltb b 0xF0 then 2 else 3

is_first : ℕ → Bool
is_first b = ltb b 0x80 || within 0xC2 0xF4 b

-- The range of the byte after a first byte: no overlong forms, no surrogates, at most U+10FFFF.
next_low : ℕ → ℕ
next_low b = if b == 0xE0 then 0xA0 else if b == 0xF0 then 0x90 else 0x80

next_high : ℕ → ℕ
next_high b = if b == 0xED then 0x9F else if b == 0xF4 then 0x8F else 0xBF

utf8_from : ℕ → ℕ → ℕ → List ℕ → Bool
utf8_from need lo hi [] = need == 0
utf8_from need lo hi (b ∷ bs) =
    let start = need == 0 in
    let rest =
      utf8_from (if start then follow b else need - 1) (if start then next_low b else 0x80)
        (if start then next_high b else 0xBF) bs in
    (if start then is_first b else within lo hi b) && rest

unfoldable pub is_utf8 : List ℕ → Bool
unfolding utf8_from within follow is_first next_low next_high
is_utf8 bs = utf8_from 0 0 0 bs
