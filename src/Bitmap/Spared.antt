-- ===== src/Bitmap/Spared.antt =====
-- src/bitmap.rs: blocks that the next allocations do not reach, and an allocation that is followed by
-- writes of data blocks.
use operating_system_experie.Base.{
  ℕ, suc, ◌≤◌, ◌<◌, ◌≡◌, ◌≢◌, ◌⊎◌, inl, inr, refl, ap, sym, ◌∙◌, Bool, true, false, List, arith,
  max_blocks, if◌then◌else◌, ◌==◌, ==_of_ne, ==_of_eq,
}
use native.Mathlib.Decide.{dec_lt}
use operating_system_experie.Base.FirstClear.{IsFirst}
use operating_system_experie.Base.CountClear.{
  count_clear, count_clear-set, count_clear_full, count_clear_ext,
}
use operating_system_experie.Device.{Device, IsBlock}
use operating_system_experie.Superblock.{SuperBlock}
use operating_system_experie.Bitmap.{allocate_block}
use operating_system_experie.Bitmap.Mark.{bit_at}
use operating_system_experie.Bitmap.Alloc.{Allocated}
use operating_system_experie.Bitmap.Guard.{
  IsGuarded, chosen_data, Allocated-IsGuarded, same-IsGuarded,
}
use operating_system_experie.Bitmap.Keep.{bit_at-same}

module _ ⦃dev : Device⦄ where
  open dev use {Disk, blocks, block, put}

  -- A block that `need` allocations leave alone: it is taken, or that many free ones lie before it.
  abbrev pub IsSpared : Disk → ℕ → ℕ → Type 0
  IsSpared d need h = (bit_at d h ≡ true) ⊎ (need ≤ count_clear (bit_at d) h)

  -- A free data block was taken. Other data blocks may have been written since.
  pub record Claimed (d : Disk) (sb : SuperBlock) (n : ℕ) (e : Disk) (sb' : SuperBlock)
      : Type 0 where
    pub clear : bit_at d n ≡ false
    pub behind : 31 ≤ n
    pub below : n < max_blocks
    pub bits : (m : ℕ) → m < max_blocks → bit_at e m ≡ (if n == m then true else bit_at d m)
    pub guarded : IsGuarded e sb'
    pub size : blocks e ≡ blocks d
    pub table : sb'.inode_table_start ≡ sb.inode_table_start
    pub one_less : sb.free_blocks ≡ suc sb'.free_blocks
    pub spared :
        (h rest : ℕ) → h < max_blocks → IsSpared d (suc rest) h → (n ≢ h) × IsSpared e rest h

  clash : (b : Bool) → b ≡ true → b ≡ false → ⊥
  clash b t f = cc

  true_either : (c b : Bool) → b ≡ true → (if c then true else b) ≡ true
  true_either c b h = ground arith

  pub less-IsSpared :
      (d : Disk) (need more h : ℕ) → need ≤ more → IsSpared d more h → IsSpared d need h
  less-IsSpared d need more h less (inl taken) = inl taken
  less-IsSpared d need more h less (inr enough) = inr (omega arith)

  -- It depends on the bits only.
  pub IsSpared-same :
      (d e : Disk)
      → ((m : ℕ) → m < max_blocks → bit_at e m ≡ bit_at d m)
      → (need h : ℕ) → h < max_blocks
      → IsSpared d need h
      → IsSpared e need h
  IsSpared-same d e same need h l (inl taken) = inl (same h l ∙ taken)
  IsSpared-same d e same need h l (inr enough) =
      inr (
        omega
          (arith, enough, count_clear_ext (bit_at e) (bit_at d) h (λ m k. same m (omega arith))))

  module _ (d : Disk) (sb : SuperBlock) (n : ℕ) (e : Disk) (sb' : SuperBlock)
      (c : Claimed d sb n e sb') where
    pub kept_bit : (m : ℕ) → m < max_blocks → bit_at d m ≡ true → bit_at e m ≡ true
    kept_bit m h used = c.bits m h ∙ true_either (n == m) (bit_at d m) used

    pub chosen_bit : bit_at e n ≡ true
    chosen_bit = c.bits n c.below ∙ rw (==_of_eq n n refl) refl

    -- Blocks behind the bitmap are written.
    pub Claimed-same :
        (f : Disk)
        → blocks f ≡ blocks e
        → ((m : ℕ) → m < 6 → block f m ≡ block e m)
        → Claimed d sb n f sb'
    Claimed-same f size low =
        let same : (m : ℕ) → m < max_blocks → bit_at f m ≡ bit_at e m =
          bit_at-same e f (λ m above h. low m h) in
        record {
          clear = c.clear;
          behind = c.behind;
          below = c.below;
          bits = λ m h. same m h ∙ c.bits m h;
          guarded = same-IsGuarded e sb' c.guarded f size low;
          size = size ∙ c.size;
          table = c.table;
          one_less = c.one_less;
          spared = λ h rest l s.
              let (away, still) = c.spared h rest l s in
              (away, IsSpared-same e f same rest h l still);
        }

    pub Claimed-put :
        (k : ℕ) (buf : List ℕ)
        → 31 ≤ k
        → k < max_blocks
        → IsBlock buf
        → Claimed d sb n (put e k buf) sb'
    Claimed-put k buf behind below b =
        let inside : k < blocks e = omega (arith, below, c.guarded.consistent.full) in
        Claimed-same (put e k buf) (dev.blocks-put e k buf inside b)
          (λ m h. dev.block-put e k buf m inside b ∙ rw (==_of_ne k m (omega arith)) refl)

  -- The lowest free block is not one that is spared.
  pub first-IsSpared :
      (d : Disk) (n h : ℕ) → IsFirst (bit_at d) 0 max_blocks n → IsSpared d 1 h → n ≢ h
  first-IsSpared d n h first (inl taken) same =
      clash (bit_at d n) (ap (bit_at d) same ∙ taken) first.clear
  first-IsSpared d n h first (inr enough) same = omega (
    arith,
    enough,
    count_clear_full (bit_at d) h (λ m l. first.before m (omega arith) (omega arith)),
  )

  module _ (d : Disk) (sb : SuperBlock) (g : IsGuarded d sb)
      (a : Allocated d sb (allocate_block d sb)) where
    before_chosen : (h rest : ℕ) → suc rest ≤ count_clear (bit_at d) h → a.chosen < h
    before_chosen h rest enough = elim (dec_lt a.chosen h) [
      | yes lt ↦ lt
      | no ge ↦ absurd (
          omega (
            arith,
            count_clear_full (bit_at d) h (λ m l. a.first.before m (omega arith) (omega arith)),
          ))
    ]

    after_claim :
        (h rest : ℕ)
        → h < max_blocks
        → IsSpared d (suc rest) h
        → (a.chosen ≢ h) × IsSpared a.disk rest h
    after_claim h rest l (inl taken) = (
      λ same. clash (bit_at d a.chosen) (ap (bit_at d) same ∙ taken) a.first.clear,
      inl (a.bits h l ∙ true_either (a.chosen == h) (bit_at d h) taken),
    )
    after_claim h rest l (inr enough) =
        let lt = before_chosen h rest enough in
        (
          λ same. omega (arith, lt, same),
          inr (
              omega (
                arith,
                enough,
                count_clear-set (bit_at d) (bit_at a.disk) a.chosen h lt a.first.clear
                    (λ m k. a.bits m (omega arith)),
              )),
        )

    pub Allocated-Claimed : Claimed d sb a.chosen a.disk a.after
    Allocated-Claimed = record {
      clear = a.first.clear;
      behind = chosen_data d sb g a;
      below = a.first.below;
      bits = a.bits;
      guarded = Allocated-IsGuarded d sb g a;
      size = a.size;
      table = sym (ap (λ s. s.inode_table_start) a.one_less);
      one_less = ap (λ s. s.free_blocks) a.one_less ∙ omega arith;
      spared = after_claim;
    }
