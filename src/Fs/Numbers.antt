-- ===== src/Fs/Numbers.antt =====
-- The search of `create` and `mkdir` for a number of an inode.
use operating_system_experie.Base.{
  ℕ, zero, suc, ◌+◌, ◌≤◌, ◌<◌, ◌≡◌, refl, ap, sym, ◌∙◌, eq_of_==, Bool, true, false, not, arith,
  ◌==◌, Bool-cases, inl, inr,
}
use operating_system_experie.Base.FirstClear.{first_clear}
use operating_system_experie.Base.Slices.{slice}
use operating_system_experie.Base.Outcome.{ok_inj, ok, ◌>>=◌}
use operating_system_experie.Device.{Device}
use operating_system_experie.Superblock.{SuperBlock}
use operating_system_experie.Inode.{Inode, inode_size, from_bytes, read_inode}
use operating_system_experie.Inode.Table.{InImage, home, offset, read_inode_lem}
use operating_system_experie.Fs.Changes.{unused_inode}

true_of_not : (b : Bool) → not b ≡ false → b ≡ true
true_of_not b h = ground arith

module _ ⦃dev : Device⦄ where
  open dev use {Disk, block}

  -- Whether the inode of a number has a link.
  unfoldable pub is_used : Disk → SuperBlock → ℕ → Bool
  is_used d sb n =
      not ((from_bytes n (slice (offset n) inode_size (block d (home sb n)))).nlink == 0)

  -- The lowest number whose inode has no link.
  pub unused_inode-first_clear :
      (left candidate : ℕ) (d : Disk) (sb : SuperBlock)
      → ((n : ℕ) → candidate ≤ n → n < candidate + left → InImage d sb n)
      → unused_inode left candidate d sb ≡ ok (first_clear (is_used d sb) left candidate)
  unfolding unused_inode first_clear is_used
  unused_inode-first_clear zero candidate d sb inside = refl
  unused_inode-first_clear (suc left) candidate d sb inside =
      let rest =
        unused_inode-first_clear left (candidate + 1) d sb
          (λ n lo hi. inside n (omega arith) (omega arith)) in
      let here = read_inode_lem d sb candidate (inside candidate (omega arith) (omega arith)) in
      elim (Bool-cases (
        (from_bytes candidate
          (slice (offset candidate) inode_size (block d (home sb candidate)))).nlink
        == 0)) [
          | inl free ↦ rw (unused_inode, here, ◌>>=◌, free) refl
          | inr used ↦ rw (unused_inode, here, ◌>>=◌, used) rest
        ]

  -- An inode that is stored with a link has a number that is used.
  pub is_used-stored :
      (d : Disk) (sb : SuperBlock) (n : ℕ) (i : Inode)
      → InImage d sb n
      → read_inode d sb n ≡ ok i
      → is_used d sb n ≡ false
      → i.nlink ≡ 0
  unfolding is_used
  is_used-stored d sb n i inside stored e =
      let same = ok_inj (sym (read_inode_lem d sb n inside) ∙ stored) in
      let free = eq_of_== _ 0 (true_of_not _ e) in ap (λ x. x.nlink) (sym same) ∙ free
