-- ===== src/Inode/Permission.antt =====
-- The permission test, against the bits of the mode.
use operating_system_experie.Base.{
  ℕ, ◌/◌, ◌%◌, ◌^◌, ◌<◌, ◌≡◌, refl, Bool, true, false, not, ◌||◌, ◌&&◌, ◌==◌, if◌then◌else◌,
  bit_and, arith, all_below, all_below_sound,
}
use operating_system_experie.Inode.{Inode, check_permission}

-- Bit `k` of a mode.
abbrev pub mode_bit : ℕ → ℕ → Bool
mode_bit mode k = mode / 2 ^ k % 2 == 1

same : Bool → Bool → Bool
same true b = b
same false b = not b

same_sound : (a b : Bool) → same a b ≡ true → a ≡ b
unfolding same
same_sound a b h = ground arith

abbrev agrees : ℕ → Bool
agrees mode =
    same (not (bit_and (bit_and mode 0o777) 0o222 == 0))
      (mode_bit mode 7 || mode_bit mode 4 || mode_bit mode 1)
    && same (not (bit_and (bit_and mode 0o777) 0o444 == 0))
        (mode_bit mode 8 || mode_bit mode 5 || mode_bit mode 2)

table : all_below 65536 agrees ≡ true
unfolding same
table = refl

both : (a b : Bool) → (a && b) ≡ true → (a ≡ true) × (b ≡ true)
both a b h = ground arith

-- Writing is allowed if a write bit of any of the three classes is set, reading if a read bit is,
-- whatever the user and the group.
pub check_permission_lem :
    (i : Inode) (want_write : Bool) (uid gid : ℕ)
    → i.mode < 2 ^ 16
    → check_permission i want_write uid gid ≡ (
        if want_write
        then (mode_bit i.mode 7 || mode_bit i.mode 4 || mode_bit i.mode 1)
        else (mode_bit i.mode 8 || mode_bit i.mode 5 || mode_bit i.mode 2))
unfolding check_permission
check_permission_lem i true uid gid h =
    same_sound _ _ (both _ _ (all_below_sound 65536 agrees i.mode table h)).0
check_permission_lem i false uid gid h =
    same_sound _ _ (both _ _ (all_below_sound 65536 agrees i.mode table h)).1
