-- ===== src/Fs/Grown.antt =====
-- The blocks of a file on the disk, and a file that gets more of them: what `write` of src/fs.rs
-- relies on while it allocates.
use operating_system_experie.Base.{
  ℕ, ◌+◌, ◌≤◌, ◌<◌, ◌≡◌, ◌≢◌, ◌⊎◌, inl, inr, refl, ap, sym, subst, ◌∙◌, true, arith, max_blocks,
  block_size,
}
use operating_system_experie.Base.Slices.{zeros}
use native.Mathlib.Decide.{dec_lt}
use operating_system_experie.Device.{Device}
use operating_system_experie.Superblock.{SuperBlock}
use operating_system_experie.Bitmap.Mark.{bit_at}
use operating_system_experie.Bitmap.Guard.{IsGuarded}
use operating_system_experie.Bitmap.Spared.{IsSpared}
use operating_system_experie.Inode.{Inode, IsTyped, direct_count}
use operating_system_experie.Inode.BlockMap.{pointer_at}
use operating_system_experie.Fs.Contents.{max_file_blocks}

module _ ⦃dev : Device⦄ where
  open dev use {Disk, blocks, block}

  -- The indirect block: there is one exactly if the direct pointers are not enough.
  pub record HasIndirect (d : Disk) (i : Inode) : Type 0 where
    pub none_yet : i.block_count ≤ direct_count → i.indirect_block ≡ 0
    pub behind : direct_count < i.block_count → 31 ≤ i.indirect_block
    pub inside : i.indirect_block < max_blocks
    pub taken : direct_count < i.block_count → bit_at d i.indirect_block ≡ true
    pub beside : (k : ℕ) → k < i.block_count → pointer_at i d k ≢ i.indirect_block

  -- The blocks of a file: different data blocks, which are taken.
  pub record IsLaidOut (d : Disk) (i : Inode) : Type 0 where
    pub few : i.block_count ≤ max_file_blocks
    pub behind : (k : ℕ) → k < i.block_count → 31 ≤ pointer_at i d k
    pub inside : (k : ℕ) → k < i.block_count → pointer_at i d k < max_blocks
    pub taken : (k : ℕ) → k < i.block_count → bit_at d (pointer_at i d k) ≡ true
    pub distinct :
        (j k : ℕ)
        → j < i.block_count
        → k < i.block_count
        → j ≢ k
        → pointer_at i d j ≢ pointer_at i d k
    pub indirect : HasIndirect d i

  -- The state after a file has got more blocks, all zeros: it keeps those that it had, and no other
  -- block but its indirect block is changed.
  pub record Grown (d : Disk) (sb : SuperBlock) (i : Inode) (e : Disk) (sb' : SuperBlock)
      (i' : Inode) : Type 0 where
    pub used : ℕ
    pub used_free : sb.free_blocks ≡ used + sb'.free_blocks
    pub longer : i.block_count ≤ i'.block_count
    pub kept : i' ≡ record i {
      direct_blocks = i'.direct_blocks;
      indirect_block = i'.indirect_block;
      block_count = i'.block_count;
    }
    pub typed : IsTyped i'
    pub guarded : IsGuarded e sb'
    pub laid : IsLaidOut e i'
    pub old : (k : ℕ) → k < i.block_count → pointer_at i' e k ≡ pointer_at i d k
    pub zeroed :
        (k : ℕ)
        → i.block_count ≤ k
        → k < i'.block_count
        → block e (pointer_at i' e k) ≡ zeros block_size
    pub others :
        (m : ℕ)
        → 6 ≤ m
        → m ≢ i.indirect_block
        → m ≢ i'.indirect_block
        → ((k : ℕ) → i.block_count ≤ k → k < i'.block_count → pointer_at i' e k ≢ m)
        → block e m ≡ block d m
    pub bits : (m : ℕ) → m < max_blocks → bit_at d m ≡ true → bit_at e m ≡ true
    pub indirect : (i'.indirect_block ≡ i.indirect_block) ⊎ (i.indirect_block ≡ 0)
    pub spared :
        (h rest : ℕ)
        → h < max_blocks
        → IsSpared d (used + rest) h
        → IsSpared e rest h
          × ((k : ℕ) → i.block_count ≤ k → k < i'.block_count → pointer_at i' e k ≢ h)
          × (i'.indirect_block ≡ h → i.indirect_block ≡ h)
    pub size : blocks e ≡ blocks d
    pub table : sb'.inode_table_start ≡ sb.inode_table_start

  pub need-IsSpared :
      (d : Disk) (need need' h : ℕ) → need ≡ need' → IsSpared d need h → IsSpared d need' h
  need-IsSpared d need need' h same s = subst (λ n. IsSpared d n h) same s

  pub Grown-refl :
      (d : Disk) (sb : SuperBlock) (i : Inode)
      → IsTyped i
      → IsGuarded d sb
      → IsLaidOut d i
      → Grown d sb i d sb i
  Grown-refl d sb i t g l = record {
    used = 0;
    used_free = omega arith;
    longer = omega arith;
    kept = refl;
    typed = t;
    guarded = g;
    laid = l;
    old = λ k h. refl;
    zeroed = λ k lo hi. absurd (omega arith);
    others = λ m lo a b c. refl;
    bits = λ m h used. used;
    indirect = inl refl;
    spared = λ h rest l s. (
      need-IsSpared d (0 + rest) rest h (omega arith) s,
      (λ k lo hi. absurd (omega arith)),
      λ same. same,
    );
    size = refl;
    table = refl;
  }

  -- The blocks that the file had keep their bytes.
  pub old_block :
      (d : Disk) (sb : SuperBlock) (i : Inode) (e : Disk) (sb' : SuperBlock) (i' : Inode)
      → IsLaidOut d i
      → Grown d sb i e sb' i'
      → (k : ℕ) → k < i.block_count
      → block e (pointer_at i d k) ≡ block d (pointer_at i d k)
  old_block d sb i e sb' i' l g k h =
      let m = pointer_at i d k in
      let (still, away, no_indirect) = g.spared m 0 (l.inside k h) (inl (l.taken k h)) in
      let beside = l.indirect.beside k h in
      g.others m (omega (arith, l.behind k h)) beside
        (λ same. beside (sym (no_indirect (sym same)))) away

  module _ (d e f : Disk) (sb sb1 sb2 : SuperBlock) (i i1 i2 : Inode) (g1 : Grown d sb i e sb1 i1)
      (g2 : Grown e sb1 i1 f sb2 i2) where
    same_indirect :
        (m : ℕ) → 6 ≤ m → m ≢ i.indirect_block → m ≢ i2.indirect_block → m ≢ i1.indirect_block
    same_indirect m lo a b same = elim g2.indirect [
      | inl q ↦ b (same ∙ sym q)
      | inr q ↦ omega (arith, q, same)
    ]

    pub Grown-trans : Grown d sb i f sb2 i2
    Grown-trans = record {
      used = g1.used + g2.used;
      used_free = omega (arith, g1.used_free, g2.used_free);
      longer = omega (arith, g1.longer, g2.longer);
      kept =
          g2.kept
          ∙ ap {A = Inode} {B = Inode}
              (λ j. record j {
                direct_blocks = i2.direct_blocks;
                indirect_block = i2.indirect_block;
                block_count = i2.block_count;
              })
              g1.kept;
      typed = g2.typed;
      guarded = g2.guarded;
      laid = g2.laid;
      old = λ k h. g2.old k (omega (arith, g1.longer)) ∙ g1.old k h;
      zeroed = λ k lo hi. elim (dec_lt k i1.block_count) [
        | yes lt ↦
            ap (block f) (g2.old k lt)
            ∙ old_block e sb1 i1 f sb2 i2 g1.laid g2 k lt
            ∙ g1.zeroed k lo lt
        | no ge ↦ g2.zeroed k (omega arith) hi
      ];
      others = λ m lo a b away.
          let c = same_indirect m lo a b in
          g2.others m lo c b (λ k l h. away k (omega (arith, g1.longer)) h)
          ∙ g1.others m lo a c
              (λ k l h same. away k l (omega (arith, g2.longer)) (g2.old k h ∙ same));
      bits = λ m h used. g2.bits m h (g1.bits m h used);
      indirect = elim g1.indirect [
        | inl q ↦ elim g2.indirect [ inl r ↦ inl (r ∙ q) | inr r ↦ inr (sym q ∙ r) ]
        | inr q ↦ inr q
      ];
      spared = λ h rest l s.
          let (s1, away1, no1) = g1.spared h (g2.used + rest) l (
            need-IsSpared d (g1.used + g2.used + rest) (g1.used + (g2.used + rest)) h (omega arith)
              s) in
          let (s2, away2, no2) = g2.spared h rest l s1 in
          (
            s2,
            λ k lo hi same. elim (dec_lt k i1.block_count) [
              | yes lt ↦ away1 k lo lt (sym (g2.old k lt) ∙ same)
              | no ge ↦ away2 k (omega arith) hi same
            ],
            λ same. no1 (no2 same),
          );
      size = g2.size ∙ g1.size;
      table = g2.table ∙ g1.table;
    }
