-- ===== src/Fs/Fuel.antt =====
-- The loops of `read` and `write` end: with as many rounds as bytes, or more, the result is the same.
use operating_system_experie.Base.{
  fun_ext, ℕ, zero, suc, ◌+◌, ◌-◌, ◌%◌, ◌^◌, ◌≤◌, ◌<◌, ◌≡◌, refl, ap, none, some, List, [], length,
  min, drop, take, length-drop, arith, page_size, ◌==◌, ==_of_eq, ne_of_==, Bool-cases, inl, inr,
  ◌++◌,
}
use operating_system_experie.Base.Slices.{slice, splice}
use operating_system_experie.Base.Outcome.{Outcome, ok, ◌>>=◌, expect}
use operating_system_experie.Device.{Device}
use operating_system_experie.Inode.{Inode, get_block}
use operating_system_experie.Fs.Queries.{read_from}
use operating_system_experie.Fs.Contents.{store}

module _ ⦃dev : Device⦄ where
  open dev use {Disk, read_block, write_block}

  -- One round of `read`, and the rest of the loop.
  abbrev read_round : Disk → Inode → ℕ → ℕ → ℕ → Outcome (List ℕ) → Outcome (List ℕ)
  read_round d i remaining index offset after = do
    block ← get_block i d index
    elim block [
      | none ↦ ok []
      | some n ↦ do
        buf ← read_block d n
        rest ← after
        ok (slice offset (min remaining (page_size - offset)) buf ++ rest)
    ]

  -- With as many rounds as bytes, or more, the loop of `read` has the same result, a panic included:
  -- the loop of the source ends. It starts within a page.
  pub read_from_fuel :
      (fuel more : ℕ) (d : Disk) (i : Inode) (remaining index offset : ℕ)
      → remaining ≤ fuel
      → remaining ≤ more
      → offset < page_size
      → read_from fuel d i remaining index offset ≡ read_from more d i remaining index offset
  unfolding read_from
  read_from_fuel zero zero d i remaining index offset h g o = refl
  read_from_fuel zero (suc more) d i remaining index offset h g o =
      rw (==_of_eq remaining 0 (omega arith)) refl
  read_from_fuel (suc fuel) zero d i remaining index offset h g o =
      rw (==_of_eq remaining 0 (omega arith)) refl
  read_from_fuel (suc fuel) (suc more) d i remaining index offset h g o =
      elim (Bool-cases (remaining == 0)) [
        | inl e ↦ rw e refl
        | inr e ↦
            let ne = ne_of_== remaining 0 e in
            let rest =
              read_from_fuel fuel more d i (remaining - min remaining (page_size - offset))
                ((index + 1) % 2 ^ 32) 0 (omega arith) (omega arith) (omega arith) in
            rw e (ap (read_round d i remaining index offset) rest)
      ]

  -- One round of `write` up to the rest of the loop, which goes on with the disk.
  abbrev store_round : Disk → Inode → List ℕ → ℕ → ℕ → (Disk → Outcome Disk) → Outcome Disk
  store_round d i bytes index offset after = do
    block ← get_block i d index
    n ← expect block
    buf ← read_block d n
    d ← write_block d n (splice offset (take (min (length bytes) (page_size - offset)) bytes) buf)
    after d

  -- With as many rounds as bytes, or more, the loop of `write` has the same result, a panic included:
  -- the loop of the source ends. It starts within a page.
  pub store_fuel :
      (fuel more : ℕ) (d : Disk) (i : Inode) (bytes : List ℕ) (index offset : ℕ)
      → length bytes ≤ fuel
      → length bytes ≤ more
      → offset < page_size
      → store fuel d i bytes index offset ≡ store more d i bytes index offset
  unfolding store
  store_fuel zero zero d i bytes index offset h g o = refl
  store_fuel zero (suc more) d i bytes index offset h g o =
      rw (==_of_eq (length bytes) 0 (omega arith)) refl
  store_fuel (suc fuel) zero d i bytes index offset h g o =
      rw (==_of_eq (length bytes) 0 (omega arith)) refl
  store_fuel (suc fuel) (suc more) d i bytes index offset h g o =
      let left = drop (min (length bytes) (page_size - offset)) bytes in
      let rest = λ (e : Disk). store_fuel fuel more e i left ((index + 1) % 2 ^ 32) 0 in
      elim (Bool-cases (length bytes == 0)) [
        | inl e ↦ rw e refl
        | inr e ↦
            let ne = ne_of_== (length bytes) 0 e in
            let fewer = length-drop (min (length bytes) (page_size - offset)) bytes in
            rw e (
              ap (store_round d i bytes index offset)
                (fun_ext (λ e. rest e (omega arith) (omega arith) (omega arith))))
      ]
