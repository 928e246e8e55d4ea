-- ===== src/Fs/Release.antt =====
-- The loop of `unlink` and `rmdir` that gives the blocks of a file back to the bitmap.
use operating_system_experie.Base.{
  ℕ, zero, suc, ◌+◌, ◌≤◌, ◌<◌, ◌≡◌, ◌≢◌, ◌⊎◌, refl, ap, sym, ◌∙◌, true, false, some, arith,
  max_blocks, ◌==◌, ==_of_ne, ==_of_eq, eq_of_==, ne_of_==, Bool-cases, inl, inr,
}
use operating_system_experie.Base.Outcome.{ok, ◌>>=◌}
use operating_system_experie.Device.{Device}
use operating_system_experie.Superblock.{SuperBlock}
use operating_system_experie.Bitmap.{mark_free}
use operating_system_experie.Bitmap.Mark.{bit_at}
use operating_system_experie.Bitmap.Alloc.{IsConsistent, Released, mark_free-Released}
use operating_system_experie.Inode.{Inode, get_block}
use operating_system_experie.Inode.BlockMap.{pointer_at, get_block_lem}
use operating_system_experie.Fs.Changes.{free_blocks_from}

module _ ⦃dev : Device⦄ where
  open dev use {Disk, blocks, block}

  -- The block pointers of a file from one index to before another: different blocks of the disk that
  -- are taken.
  pub record IsHeld (i : Inode) (ptr : ℕ → ℕ) (from to : ℕ) (d : Disk) : Type 0 where
    pub pointers : (k : ℕ) → from ≤ k → k < to → pointer_at i d k ≡ ptr k
    pub there : (k : ℕ) → from ≤ k → k < to → ptr k ≢ 0
    pub inside : (k : ℕ) → from ≤ k → k < to → ptr k < max_blocks
    pub taken : (k : ℕ) → from ≤ k → k < to → bit_at d (ptr k) ≡ true
    pub distinct : (j k : ℕ) → from ≤ j → j < k → k < to → ptr j ≢ ptr k

  -- The state after the loop.
  pub record Freed (i : Inode) (ptr : ℕ → ℕ) (left from : ℕ) (d : Disk) (sb : SuperBlock)
      : Type 0 where
    pub disk : Disk
    pub after : SuperBlock
    pub returns : free_blocks_from left from i d sb ≡ ok (disk, after)
    pub consistent : IsConsistent disk after
    pub free : after.free_blocks ≡ sb.free_blocks + left
    pub freed : (k : ℕ) → from ≤ k → k < from + left → bit_at disk (ptr k) ≡ false
    pub kept :
        (m : ℕ)
        → m < max_blocks
        → ((k : ℕ) → from ≤ k → k < from + left → ptr k ≢ m)
        → bit_at disk m ≡ bit_at d m
    pub others : (k : ℕ) → 6 ≤ k → block disk k ≡ block d k
    pub table : after.inode_table_start ≡ sb.inode_table_start
    pub size : blocks disk ≡ blocks d

  -- The indirect block of a file, if it has one, lies behind the bitmap.
  abbrev pub IsOutside : Inode → Type 0
  IsOutside i = (i.indirect_block ≡ 0) ⊎ (6 ≤ i.indirect_block)

  pointer_stays :
      (i : Inode) (d e : Disk) (k : ℕ)
      → IsOutside i
      → ((n : ℕ) → 6 ≤ n → block e n ≡ block d n)
      → pointer_at i e k ≡ pointer_at i d k
  pointer_stays i d e k (inl z) same = rw (==_of_eq i.indirect_block 0 z) refl
  pointer_stays i d e k (inr h) same = rw (same i.indirect_block h) refl

  module _ (i : Inode) (ptr : ℕ → ℕ) (out : IsOutside i)
      (fits : i.indirect_block < max_blocks) where
    -- One block given back, and the rest of the loop.
    module _ (left from : ℕ) (d : Disk) (sb : SuperBlock) (c : IsConsistent d sb)
        (h : IsHeld i ptr from (from + suc left) d) where
      one : Released d sb c (ptr from) (mark_free d sb (ptr from))
      one =
          mark_free-Released d sb c (ptr from) (h.inside from (omega arith) (omega arith))
            (h.taken from (omega arith) (omega arith))

      rest-IsHeld : IsHeld i ptr (from + 1) (from + 1 + left) one.disk
      rest-IsHeld = record {
        pointers = λ k a b.
            pointer_stays i d one.disk k out one.others ∙ h.pointers k (omega arith) (omega arith);
        there = λ k a b. h.there k (omega arith) (omega arith);
        inside = λ k a b. h.inside k (omega arith) (omega arith);
        taken = λ k a b.
            one.bits (ptr k) (h.inside k (omega arith) (omega arith))
            ∙ rw
                (==_of_ne (ptr from) (ptr k)
                  (h.distinct from k (omega arith) (omega arith) (omega arith)))
                (h.taken k (omega arith) (omega arith));
        distinct = λ j k a b e. h.distinct j k (omega arith) b (omega arith);
      }

      found : get_block i d from ≡ ok (some (ptr from))
      found =
          get_block_lem i d from (omega (arith, c.full))
          ∙ rw
              (
                h.pointers from (omega arith) (omega arith),
                ==_of_ne (ptr from) 0 (h.there from (omega arith) (omega arith)),
              )
              refl

      module _ (r : Freed i ptr left (from + 1) one.disk one.after) where
        first_freed : bit_at r.disk (ptr from) ≡ false
        first_freed =
            r.kept (ptr from) (h.inside from (omega arith) (omega arith))
              (λ k a b e. h.distinct from k (omega arith) (omega arith) (omega arith) (sym e))
            ∙ one.bits (ptr from) (h.inside from (omega arith) (omega arith))
            ∙ rw (==_of_eq (ptr from) (ptr from) refl) refl

        all_freed : (k : ℕ) → from ≤ k → k < from + suc left → bit_at r.disk (ptr k) ≡ false
        all_freed k a b = elim (Bool-cases (from == k)) [
          | inl e ↦ ap (λ j. bit_at r.disk (ptr j)) (sym (eq_of_== from k e)) ∙ first_freed
          | inr e ↦ let ne = ne_of_== from k e in r.freed k (omega arith) (omega arith)
        ]

        rest-Freed : Freed i ptr (suc left) from d sb
        unfolding free_blocks_from
        rest-Freed = record {
          disk = r.disk;
          after = r.after;
          returns = rw (free_blocks_from, found, ◌>>=◌, one.returns) r.returns;
          consistent = r.consistent;
          free = omega (arith, r.free, ap (λ sb. sb.free_blocks) one.one_more);
          freed = all_freed;
          kept = λ m lt apart.
              r.kept m lt (λ k a b. apart k (omega arith) (omega arith))
              ∙ one.bits m lt
              ∙ rw (==_of_ne (ptr from) m (apart from (omega arith) (omega arith))) refl;
          others = λ k a. r.others k a ∙ one.others k a;
          table = r.table ∙ ap (λ s. s.inode_table_start) one.one_more;
          size = r.size ∙ one.size;
        }

    -- On a consistent disk the loop gives back every block of the file, if they are different blocks
    -- that are taken and the indirect block, if there is one, lies behind the bitmap: their bits are
    -- clear, all other bits and all blocks behind the bitmap stay, and the free count grows by their
    -- number.
    pub free_blocks_from-Freed :
        (left from : ℕ) (d : Disk) (sb : SuperBlock)
        → IsConsistent d sb
        → IsHeld i ptr from (from + left) d
        → Freed i ptr left from d sb
    unfolding free_blocks_from
    free_blocks_from-Freed zero from d sb c h = record {
      disk = d;
      after = sb;
      returns = refl;
      consistent = c;
      free = omega arith;
      freed = λ k a b. absurd (omega arith);
      kept = λ m lt apart. refl;
      others = λ k a. refl;
      table = refl;
      size = refl;
    }
    free_blocks_from-Freed (suc left) from d sb c h = rest-Freed left from d sb c h (
        free_blocks_from-Freed left (from + 1) (one left from d sb c h).disk
          (one left from d sb c h).after (one left from d sb c h).consistent
          (rest-IsHeld left from d sb c h))
