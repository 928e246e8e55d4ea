-- ===== src/Fs/ReleaseAll.antt =====
-- `unlink` gives all blocks of a file back, its indirect block too.
use operating_system_experie.Base.{
  ℕ, ◌+◌, ◌≤◌, ◌<◌, ◌≡◌, ◌≢◌, ◌⊎◌, refl, ap, sym, ◌∙◌, true, false, arith, max_blocks,
  if◌then◌else◌, ◌==◌, ==_of_ne, ==_of_eq, inl, inr,
}
use operating_system_experie.Base.Outcome.{Outcome, ok}
use operating_system_experie.Device.{Device}
use operating_system_experie.Superblock.{SuperBlock}
use operating_system_experie.Bitmap.{mark_free}
use operating_system_experie.Bitmap.Mark.{bit_at}
use operating_system_experie.Bitmap.Alloc.{mark_free-Released}
use operating_system_experie.Bitmap.Guard.{IsGuarded, Released-IsGuarded}
use operating_system_experie.Inode.{Inode}
use operating_system_experie.Fs.Changes.{free_blocks_from}
use operating_system_experie.Fs.Release.{IsHeld, Freed, IsOutside, free_blocks_from-Freed}

module _ ⦃dev : Device⦄ where
  open dev use {Disk, blocks, block}

  -- The blocks of a file are data blocks that are taken and different from each other, and so is its
  -- indirect block, if it has one.
  pub record IsOwned (i : Inode) (ptr : ℕ → ℕ) (d : Disk) : Type 0 where
    pub held : IsHeld i ptr 0 (0 + i.block_count) d
    pub behind : (k : ℕ) → k < i.block_count → 31 ≤ ptr k

  pub record OwnsIndirect (i : Inode) (ptr : ℕ → ℕ) (d : Disk) : Type 0 where
    pub behind : 31 ≤ i.indirect_block
    pub inside : i.indirect_block < max_blocks
    pub taken : bit_at d i.indirect_block ≡ true
    pub distinct : (k : ℕ) → k < i.block_count → ptr k ≢ i.indirect_block

  abbrev pub Indirect : Inode → (ℕ → ℕ) → Disk → Type 0
  Indirect i ptr d = (i.indirect_block ≡ 0) ⊎ OwnsIndirect i ptr d

  -- How many blocks that is.
  abbrev pub indirect_count : Inode → ℕ
  indirect_count i = if i.indirect_block == 0 then 0 else 1

  abbrev pub free_indirect : Disk → SuperBlock → Inode → Outcome (Disk × SuperBlock)
  free_indirect d sb i =
      if i.indirect_block == 0 then ok (d, sb) else mark_free d sb i.indirect_block

  -- The state after both.
  pub record AllFreed (i : Inode) (ptr : ℕ → ℕ) (d : Disk) (sb : SuperBlock) : Type 0 where
    pub middle : Disk
    pub between : SuperBlock
    pub disk : Disk
    pub after : SuperBlock
    pub direct : free_blocks_from i.block_count 0 i d sb ≡ ok (middle, between)
    pub indirect : free_indirect middle between i ≡ ok (disk, after)
    pub guarded : IsGuarded disk after
    pub free : after.free_blocks ≡ sb.free_blocks + i.block_count + indirect_count i
    pub freed : (k : ℕ) → k < i.block_count → bit_at disk (ptr k) ≡ false
    pub freed_indirect : i.indirect_block ≢ 0 → bit_at disk i.indirect_block ≡ false
    pub kept :
        (m : ℕ)
        → m < max_blocks
        → ((k : ℕ) → k < i.block_count → ptr k ≢ m)
        → i.indirect_block ≢ m
        → bit_at disk m ≡ bit_at d m
    pub others : (k : ℕ) → 6 ≤ k → block disk k ≡ block d k
    pub size : blocks disk ≡ blocks d

  module _ (i : Inode) (ptr : ℕ → ℕ) (d : Disk) (sb : SuperBlock) (g : IsGuarded d sb)
      (h : IsOwned i ptr d) where
    abbrev outside : Indirect i ptr d → IsOutside i
    outside (inl z) = inl z
    outside (inr o) = inr (omega (arith, o.behind))

    fits : Indirect i ptr d → i.indirect_block < max_blocks
    fits (inl z) = omega arith
    fits (inr o) = o.inside

    module _ (x : Indirect i ptr d) where
      f : Freed i ptr i.block_count 0 d sb
      f = free_blocks_from-Freed i ptr (outside x) (fits x) i.block_count 0 d sb g.consistent h.held

      freed-IsGuarded : IsGuarded f.disk f.after
      freed-IsGuarded = record {
        consistent = f.consistent;
        table = f.table ∙ g.table;
        system = λ m lt.
            f.kept m (omega arith) (λ k lo hi. omega (arith, h.behind k (omega arith)))
            ∙ g.system m lt;
      }

    pub free_all-AllFreed : Indirect i ptr d → AllFreed i ptr d sb
    free_all-AllFreed (inl z) =
        let a = f (inl z) in
        record {
          middle = a.disk;
          between = a.after;
          disk = a.disk;
          after = a.after;
          direct = a.returns;
          indirect = rw (==_of_eq i.indirect_block 0 z) refl;
          guarded = freed-IsGuarded (inl z);
          free = rw (==_of_eq i.indirect_block 0 z) (omega (arith, a.free));
          freed = λ k lt. a.freed k (omega arith) (omega arith);
          freed_indirect = λ ne. absurd (ne z);
          kept = λ m lt away ne. a.kept m lt (λ k lo hi. away k (omega arith));
          others = a.others;
          size = a.size;
        }
    free_all-AllFreed (inr o) =
        let a = f (inr o) in
        let there : i.indirect_block ≢ 0 = omega (arith, o.behind) in
        let still : bit_at a.disk i.indirect_block ≡ true =
          a.kept i.indirect_block o.inside (λ k lo hi. o.distinct k (omega arith)) ∙ o.taken in
        let r =
          mark_free-Released a.disk a.after (freed-IsGuarded (inr o)).consistent i.indirect_block
            o.inside still in
        record {
          middle = a.disk;
          between = a.after;
          disk = r.disk;
          after = r.after;
          direct = a.returns;
          indirect = rw (==_of_ne i.indirect_block 0 there) r.returns;
          guarded =
              Released-IsGuarded a.disk a.after (freed-IsGuarded (inr o)) i.indirect_block o.behind
                r;
          free =
              rw (==_of_ne i.indirect_block 0 there)
                (omega (arith, a.free, ap (λ s. s.free_blocks) r.one_more));
          freed = λ k lt.
              r.bits (ptr k) (h.held.inside k (omega arith) (omega arith))
              ∙ rw (==_of_ne i.indirect_block (ptr k) (λ e. o.distinct k lt (sym e)))
                  (a.freed k (omega arith) (omega arith));
          freed_indirect = λ ne.
              r.bits i.indirect_block o.inside
              ∙ rw (==_of_eq i.indirect_block i.indirect_block refl) refl;
          kept = λ m lt away ne.
              r.bits m lt
              ∙ rw (==_of_ne i.indirect_block m ne) (a.kept m lt (λ k lo hi. away k (omega arith)));
          others = λ k lo. r.others k lo ∙ a.others k lo;
          size = r.size ∙ a.size;
        }
