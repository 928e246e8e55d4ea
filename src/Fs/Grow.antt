-- ===== src/Fs/Grow.antt =====
-- src/fs.rs: the first loop of `write`, which gives a file the blocks that it needs.
use operating_system_experie.Base.{
  ℕ, zero, suc, ◌+◌, ◌≤◌, ◌<◌, ◌≡◌, inl, inr, refl, ap, ◌∙◌, arith, some, none, if◌then◌else◌, ◌==◌,
  ◌&&◌, leb, ltb, le→ltb, eq_of_==, ne_of_==, Bool-cases,
}
use operating_system_experie.Base.Outcome.{ok, panic, ◌>>=◌, expect}
use operating_system_experie.Device.{Device}
use operating_system_experie.Superblock.{SuperBlock}
use operating_system_experie.Bitmap.Alloc.{allocate_block-count}
use operating_system_experie.Bitmap.Guard.{IsGuarded}
use operating_system_experie.Inode.{Inode, IsTyped, direct_count}
use operating_system_experie.Fs.Contents.{max_file_blocks, grow, attach, attach_indirect}
use operating_system_experie.Fs.Grown.{IsLaidOut, Grown, Grown-refl, Grown-trans}
use operating_system_experie.Fs.OneMore.{Round}
use operating_system_experie.Fs.Attach.{attached-Round}
use operating_system_experie.Fs.AttachIndirect.{indirect-Round}

-- The blocks that a file of `count` blocks takes to get `left` more: one each, and one for the
-- indirect block if it is among them.
abbrev pub cost : ℕ → ℕ → ℕ
cost count left =
    left + (if leb count direct_count && ltb direct_count (count + left) then 1 else 0)

-- The disk fills up just when the indirect block is made.
abbrev pub IsStuck : ℕ → ℕ → ℕ → Type 0
IsStuck count left free =
    (count ≤ direct_count) × (direct_count < count + left) × (count + free ≡ suc direct_count)

module _ ⦃dev : Device⦄ where
  open dev use {Disk}

  -- What the loop does: it gives the blocks, or it stops on a full disk, or it panics. Which of the
  -- three it is depends on the free blocks.
  pub data Grows (left : ℕ) (d : Disk) (sb : SuperBlock) (i : Inode) : Type 0 where
    done :
        (e : Disk) (sb' : SuperBlock) (i' : Inode)
        → grow left d sb i ≡ ok (some i', e, sb')
        → sb.free_blocks ≡ cost i.block_count left + sb'.free_blocks
        → i'.block_count ≡ i.block_count + left
        → Grown d sb i e sb' i'
        → Grows left d sb i
    full :
        (e : Disk) (sb' : SuperBlock) (i' : Inode)
        → grow left d sb i ≡ ok (none, e, sb')
        → sb.free_blocks < cost i.block_count left
        → ¬ IsStuck i.block_count left sb.free_blocks
        → sb'.free_blocks ≡ 0
        → Grown d sb i e sb' i'
        → Grows left d sb i
    stuck : grow left d sb i ≡ panic → IsStuck i.block_count left sb.free_blocks → Grows left d sb i

  -- One round, and what the rest of the loop does.
  then-Grows :
      (left : ℕ) (d : Disk) (sb : SuperBlock) (i : Inode) (r : Round d sb i)
      → Grows left r.disk r.after r.inode
      → Grows (suc left) d sb i
  then-Grows left d sb i r (done e sb' i' returns paid count g) =
      done e sb' i' (r.returns left ∙ returns) (ground (arith, paid, r.cost, r.count))
        (omega (arith, count, r.count))
        (Grown-trans d r.disk e sb r.after sb' i r.inode i' r.grown g)
  then-Grows left d sb i r (full e sb' i' returns short free empty g) =
      full e sb' i' (r.returns left ∙ returns) (ground (arith, short, r.cost, r.count))
        (λ h. free (ground (arith, r.cost, r.count, h))) empty
        (Grown-trans d r.disk e sb r.after sb' i r.inode i' r.grown g)
  then-Grows left d sb i r (stuck returns h) =
      stuck (r.returns left ∙ returns) (ground (arith, r.cost, r.count, h))

  -- The loop on a consistent disk, for a file of at most 20 blocks in the end. The free count decides:
  -- the file gets all the blocks, which were free, are different and hold zeros, or the disk fills
  -- up, or the loop panics at the indirect block. Superblock, bitmap and free count stay consistent,
  -- and no other block than the new ones and the indirect one changes.
  pub grow-Grows :
      (left : ℕ) (d : Disk) (sb : SuperBlock) (i : Inode)
      → IsTyped i
      → IsGuarded d sb
      → IsLaidOut d i
      → i.block_count + left ≤ max_file_blocks
      → Grows left d sb i
  unfolding grow attach attach_indirect
  grow-Grows zero d sb i t g l few =
      done d sb i refl (ground arith) (omega arith) (Grown-refl d sb i t g l)
  grow-Grows (suc left) d sb i t g l few =
      let rest : (r : Round d sb i) → Grows (suc left) d sb i = λ r. then-Grows left d sb i r (
        grow-Grows left r.disk r.after r.inode r.grown.typed r.grown.guarded r.grown.laid
          (omega (arith, r.count))) in
      elim (allocate_block-count d sb g.consistent) [
        | inl (empty, returns) ↦
            full d sb i (rw (returns, ◌>>=◌) refl) (ground (arith, empty))
              (λ h. omega (arith, empty, h)) empty (Grown-refl d sb i t g l)
        | inr a ↦ elim (Bool-cases (i.block_count == direct_count)) [
          | inr other ↦ rest (attached-Round d sb i t g l (omega arith) a (ne_of_== _ _ other))
          | inl same ↦ elim (allocate_block-count a.disk a.after a.consistent) [
            | inr b ↦ rest (indirect-Round d sb i t g l (eq_of_== _ _ same) a b)
            | inl (empty, returns) ↦
                let last : i.block_count ≡ direct_count = eq_of_== _ _ same in
                let one : sb.free_blocks ≡ a.after.free_blocks + 1 =
                  ap (λ s. s.free_blocks) a.one_less in
                stuck
                  (rw
                    (
                      a.returns,
                      ◌>>=◌,
                      le→ltb i.block_count direct_count (omega (arith, last)),
                      same,
                      returns,
                      expect,
                    )
                    refl)
                  (omega (arith, last, one, empty))
          ]
        ]
      ]
