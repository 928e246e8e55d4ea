-- ===== src/Tests/SafetyRuns.antt =====
-- src/bitmap.rs: two allocations on a disk in memory that was formatted.
use operating_system_experie.Base.{
  ℕ, ◌≤◌, ◌<◌, ◌≡◌, refl, ap, sym, ◌∙◌, true, false, arith, max_blocks, ◌==◌, Bool-cases, inl, inr,
  eq_of_==, ==_of_ne,
}
use operating_system_experie.Bitmap.{allocate_block}
use operating_system_experie.Bitmap.Mark.{bit_at}
use operating_system_experie.Bitmap.Alloc.{Allocated, allocate_block-Allocated}
use operating_system_experie.Bitmap.Runs.{
  State, allocate, Reach, here, next, IsSafe, change, Reach-allocate_block,
}
use operating_system_experie.Memory.{memory}
use operating_system_experie.Tests.RootRuns.{rooted}
use operating_system_experie.Tests.UnlinkRuns.{a, low_choice}

-- The block of the root is held.
abbrev start : State ⦃dev = memory⦄
start = record {
  disk = rooted.formatted.disk;
  sb = rooted.formatted.sb;
  held = change 31 true (λ n. false);
}

held_data :
    (n : ℕ)
    → start.held n ≡ true
    → (31 ≤ n) × (n < max_blocks) × (bit_at ⦃dev = memory⦄ start.disk n ≡ true)
held_data n h = elim (Bool-cases (31 == n)) [
  | inl e ↦
      let same = eq_of_== 31 n e in
      (
        omega arith,
        omega arith,
        ap (bit_at ⦃dev = memory⦄ start.disk) (sym same) ∙ rooted.formatted.bits 31 (omega arith),
      )
  | inr e ↦ absurd (never (rw e at h))
]
  where
    never : false ≡ true → ⊥
    never e = cc

start-IsSafe : IsSafe ⦃dev = memory⦄ start
start-IsSafe = record { guarded = rooted.sound.guarded; held_data = held_data }

abbrev then : State ⦃dev = memory⦄
then = record { disk = a.disk; sb = a.after; held = change a.chosen true start.held }

one_step : Reach ⦃dev = memory⦄ start then
one_step = next here (allocate a.chosen a.returns refl)

free_still : bit_at ⦃dev = memory⦄ a.disk 200 ≡ false
free_still =
    a.bits 200 (omega arith)
    ∙ rw (==_of_ne a.chosen 200 (omega (arith, low_choice)))
        (rooted.formatted.bits 200 (omega arith))

second : Allocated ⦃dev = memory⦄ a.disk a.after (allocate_block ⦃dev = memory⦄ a.disk a.after)
second =
    allocate_block-Allocated ⦃dev = memory⦄ a.disk a.after a.consistent 200 (omega arith) free_still

Reach-allocate_block_example :
    (31 ≤ second.chosen) × (second.chosen < max_blocks) × (then.held second.chosen ≡ false)
Reach-allocate_block_example =
    Reach-allocate_block ⦃dev = memory⦄ start-IsSafe one_step second.chosen second.disk second.after
      second.returns
