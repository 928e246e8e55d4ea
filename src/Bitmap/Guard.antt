-- ===== src/Bitmap/Guard.antt =====
-- The blocks of the superblock, the bitmap and the inode table are never handed out.
use operating_system_experie.Base.{
  ℕ, ◌≤◌, ◌<◌, ◌≡◌, refl, ap, sym, ◌∙◌, Bool, true, false, Option, arith, if◌then◌else◌, ◌==◌,
  ==_of_ne,
}
use operating_system_experie.Base.Outcome.{Outcome}
use native.Mathlib.Decide.{dec_lt}
use operating_system_experie.Device.{Device}
use operating_system_experie.Superblock.{SuperBlock}
use operating_system_experie.Bitmap.Mark.{bit_at}
use operating_system_experie.Bitmap.Alloc.{IsConsistent, Allocated, Released}
use operating_system_experie.Bitmap.Keep.{bit_at-same, IsConsistent-same}

module _ ⦃dev : Device⦄ where
  open dev use {Disk, blocks, block, put}

  -- A consistent disk on which the blocks before the data are taken.
  pub record IsGuarded (d : Disk) (sb : SuperBlock) : Type 0 where
    pub consistent : IsConsistent d sb
    pub table : sb.inode_table_start ≡ 6
    pub system : (m : ℕ) → m < 31 → bit_at d m ≡ true

  clash : (b : Bool) → b ≡ true → b ≡ false → ⊥
  clash b t f = cc

  true_either : (c b : Bool) → b ≡ true → (if c then true else b) ≡ true
  true_either c b h = ground arith

  module _ (d : Disk) (sb : SuperBlock) (g : IsGuarded d sb) where
    module _ {r : Outcome (Disk × SuperBlock × Option ℕ)} (a : Allocated d sb r) where
      -- A block that is handed out is a data block.
      pub chosen_data : 31 ≤ a.chosen
      chosen_data = elim (dec_lt a.chosen 31) [
        | yes h ↦ absurd (clash (bit_at d a.chosen) (g.system a.chosen h) a.first.clear)
        | no h ↦ omega arith
      ]

      pub Allocated-IsGuarded : IsGuarded a.disk a.after
      Allocated-IsGuarded = record {
        consistent = a.consistent;
        table = sym (ap (λ s. s.inode_table_start) a.one_less) ∙ g.table;
        system =
            λ m h. a.bits m (omega arith) ∙ true_either (a.chosen == m) (bit_at d m) (g.system m h);
      }

    module _ (n : ℕ) (behind : 31 ≤ n) {r : Outcome (Disk × SuperBlock)}
        (f : Released d sb g.consistent n r) where
      pub Released-IsGuarded : IsGuarded f.disk f.after
      Released-IsGuarded = record {
        consistent = f.consistent;
        table = ap (λ s. s.inode_table_start) f.one_more ∙ g.table;
        system = λ m h. f.bits m (omega arith) ∙ rw (==_of_ne n m (omega arith)) (g.system m h);
      }

    -- Writes behind the bitmap.
    module _ (e : Disk) (size : blocks e ≡ blocks d)
        (same : (k : ℕ) → k < 6 → block e k ≡ block d k) where
      pub same-IsGuarded : IsGuarded e sb
      same-IsGuarded = record {
        consistent =
            IsConsistent-same d e (λ k lo hi. same k hi) sb sb g.consistent g.consistent.typed
              g.consistent.named refl refl size (same 0 (omega arith) ∙ g.consistent.stored);
        table = g.table;
        system = λ m h. bit_at-same d e (λ k lo hi. same k hi) m (omega arith) ∙ g.system m h;
      }
