-- ===== src/Fs/OneMore.antt =====
-- A file that gets one more block, from what the disk holds then.
use operating_system_experie.Base.{
  ℕ, suc, ◌+◌, ◌≤◌, ◌<◌, ◌≡◌, ◌≢◌, ◌⊎◌, inl, inr, ap, sym, ◌∙◌, Bool, true, false, arith,
  max_blocks, block_size, if◌then◌else◌, ◌==◌,
}
use operating_system_experie.Base.Slices.{zeros}
use native.Mathlib.Decide.{dec_lt}
use operating_system_experie.Device.{Device}
use operating_system_experie.Superblock.{SuperBlock}
use operating_system_experie.Bitmap.Mark.{bit_at}
use operating_system_experie.Bitmap.Guard.{IsGuarded}
use operating_system_experie.Bitmap.Spared.{IsSpared}
use operating_system_experie.Inode.{Inode, IsTyped, direct_count}
use operating_system_experie.Inode.BlockMap.{pointer_at}
use operating_system_experie.Fs.Contents.{max_file_blocks, grow}
use operating_system_experie.Fs.Grown.{HasIndirect, IsLaidOut, Grown}

module _ ⦃dev : Device⦄ where
  open dev use {Disk, blocks, block}

  -- The block `n`, which was free, is the last of the file, and holds zeros.
  pub record OneMore (d : Disk) (sb : SuperBlock) (i : Inode) (n : ℕ) (e : Disk) (sb' : SuperBlock)
      (i' : Inode) : Type 0 where
    pub used : ℕ
    pub used_free : sb.free_blocks ≡ used + sb'.free_blocks
    pub count : i'.block_count ≡ suc i.block_count
    pub kept : i' ≡ record i {
      direct_blocks = i'.direct_blocks;
      indirect_block = i'.indirect_block;
      block_count = i'.block_count;
    }
    pub typed : IsTyped i'
    pub guarded : IsGuarded e sb'
    pub behind : 31 ≤ n
    pub below : n < max_blocks
    pub clear : bit_at d n ≡ false
    pub taken : bit_at e n ≡ true
    pub old : (k : ℕ) → k < i.block_count → pointer_at i' e k ≡ pointer_at i d k
    pub new : pointer_at i' e i.block_count ≡ n
    pub zeroed : block e n ≡ zeros block_size
    pub others :
        (m : ℕ)
        → 6 ≤ m
        → m ≢ i.indirect_block
        → m ≢ i'.indirect_block
        → m ≢ n
        → block e m ≡ block d m
    pub bits : (m : ℕ) → m < max_blocks → bit_at d m ≡ true → bit_at e m ≡ true
    pub indirect : HasIndirect e i'
    pub same_indirect : (i'.indirect_block ≡ i.indirect_block) ⊎ (i.indirect_block ≡ 0)
    pub spared :
        (h rest : ℕ)
        → h < max_blocks
        → IsSpared d (used + rest) h
        → IsSpared e rest h × (n ≢ h) × (i'.indirect_block ≡ h → i.indirect_block ≡ h)
    pub size : blocks e ≡ blocks d
    pub table : sb'.inode_table_start ≡ sb.inode_table_start

  clash : (b : Bool) → b ≡ true → b ≡ false → ⊥
  clash b t f = cc

  module _ (d : Disk) (sb : SuperBlock) (i : Inode) (n : ℕ) (e : Disk) (sb' : SuperBlock)
      (i' : Inode) (l : IsLaidOut d i) (room : i.block_count < max_file_blocks)
      (s : OneMore d sb i n e sb' i') where
    -- A block of the file is one of the old ones, or the new one.
    pointer_cases :
        (k : ℕ)
        → k < i'.block_count
        → ((k < i.block_count) × (pointer_at i' e k ≡ pointer_at i d k))
          ⊎ ((k ≡ i.block_count) × (pointer_at i' e k ≡ n))
    pointer_cases k h = elim (dec_lt k i.block_count) [
      | yes lt ↦ inl (lt, s.old k lt)
      | no ge ↦
          let same : k ≡ i.block_count = omega (arith, s.count) in
          inr (same, ap (pointer_at i' e) same ∙ s.new)
    ]

    not_old : (k : ℕ) → k < i.block_count → n ≢ pointer_at i d k
    not_old k h same = clash (bit_at d n) (ap (bit_at d) same ∙ l.taken k h) s.clear

    distinct_after :
        (j k : ℕ)
        → j < i'.block_count
        → k < i'.block_count
        → j ≢ k
        → pointer_at i' e j ≢ pointer_at i' e k
    distinct_after j k hj hk ne same = elim (pointer_cases j hj) [
      | inl (lt, q) ↦ elim (pointer_cases k hk) [
        | inl (lt', q') ↦ l.distinct j k lt lt' ne (sym q ∙ same ∙ q')
        | inr (eq, q') ↦ not_old j lt (sym q' ∙ sym same ∙ q)
      ]
      | inr (eq, q) ↦ elim (pointer_cases k hk) [
        | inl (lt', q') ↦ not_old k lt' (sym q ∙ same ∙ q')
        | inr (eq', q') ↦ ne (eq ∙ sym eq')
      ]
    ]

    laid_after : IsLaidOut e i'
    laid_after = record {
      few = omega (arith, s.count, room);
      behind = λ k h. elim (pointer_cases k h) [
        | inl (lt, q) ↦ omega (arith, q, l.behind k lt)
        | inr (eq, q) ↦ omega (arith, q, s.behind)
      ];
      inside = λ k h. elim (pointer_cases k h) [
        | inl (lt, q) ↦ omega (arith, q, l.inside k lt)
        | inr (eq, q) ↦ omega (arith, q, s.below)
      ];
      taken = λ k h. elim (pointer_cases k h) [
        | inl (lt, q) ↦ ap (bit_at e) q ∙ s.bits (pointer_at i d k) (l.inside k lt) (l.taken k lt)
        | inr (eq, q) ↦ ap (bit_at e) q ∙ s.taken
      ];
      distinct = distinct_after;
      indirect = s.indirect;
    }

    only_new : (k : ℕ) → i.block_count ≤ k → k < i'.block_count → pointer_at i' e k ≡ n
    only_new k lo hi = elim (pointer_cases k hi) [
      | inl (lt, q) ↦ absurd (omega arith)
      | inr (eq, q) ↦ q
    ]

    pub OneMore-Grown : Grown d sb i e sb' i'
    OneMore-Grown = record {
      used = s.used;
      used_free = s.used_free;
      longer = omega (arith, s.count);
      kept = s.kept;
      typed = s.typed;
      guarded = s.guarded;
      laid = laid_after;
      old = s.old;
      zeroed = λ k lo hi. ap (block e) (only_new k lo hi) ∙ s.zeroed;
      others = λ m lo a b away.
          s.others m lo a b
            (λ same. away i.block_count (omega arith) (omega (arith, s.count)) (s.new ∙ sym same));
      bits = s.bits;
      indirect = s.same_indirect;
      spared = λ h rest below still.
          let (after, away, no_indirect) = s.spared h rest below still in
          (after, (λ k lo hi same. away (sym (only_new k lo hi) ∙ same)), no_indirect);
      size = s.size;
      table = s.table;
    }

  -- A round of the loop of `write` that gives the file a block, or two at the first that needs the
  -- indirect block.
  pub record Round (d : Disk) (sb : SuperBlock) (i : Inode) : Type 0 where
    pub disk : Disk
    pub after : SuperBlock
    pub inode : Inode
    pub returns : (left : ℕ) → grow (suc left) d sb i ≡ grow left disk after inode
    pub grown : Grown d sb i disk after inode
    pub count : inode.block_count ≡ suc i.block_count
    pub cost : sb.free_blocks ≡ (if i.block_count == direct_count then 2 else 1) + after.free_blocks
