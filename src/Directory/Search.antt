-- ===== src/Directory/Search.antt =====
-- The loops over the slots of a directory find the first slot in use under a name, and the first
-- free one.
use mathlib.Core.Option
use operating_system_experie.Base.{
  ℕ, zero, suc, ◌+◌, ◌*◌, ◌/◌, ◌%◌, ◌≤◌, ◌<◌, ◌≡◌, refl, ap, ap₂, subst, ◌∙◌, Bool, false, not,
  List, some, bytes_eq, arith, ==_of_ne, lt→ltb, Bool-cases, Option-cases, inl, inr,
}
use operating_system_experie.Base.FirstClear.{
  first_clear, first_clear-add, first_clear_shift, first_clear-some, or_else,
}
use operating_system_experie.Base.Outcome.{ok, ◌>>=◌, expect}
use operating_system_experie.Device.{Device}
use operating_system_experie.Superblock.{SuperBlock}
use operating_system_experie.Inode.{Inode, get_block}
use operating_system_experie.Directory.{
  DirEntry, Found, max_name_len, entries_per_block, dir_entry_size, is_empty, entry_at, find_in,
  find_from, dir_find, free_slot, free_from,
}
use operating_system_experie.Directory.Slots.{
  text, named, name_str-text, ptr, slot, slots, place, HasDirBlocks, HasNames,
}

abbrev unlike : List ℕ → List ℕ → ℕ → Bool
unlike q buf k = not (named q (entry_at buf k))

abbrev found_at : List ℕ → ℕ → ℕ → Found
found_at buf n k = (entry_at buf k, n, k * dir_entry_size)

-- The loop over the slots of one block.
find_in_search :
    (left j n : ℕ) (buf q : List ℕ)
    → ((k : ℕ)
        → j ≤ k
        → k < j + left
        → is_empty (entry_at buf k) ≡ false
        → (entry_at buf k).name_len ≤ max_name_len)
    → find_in left j n buf q ≡ ok (Option.map (found_at buf n) (first_clear (unlike q buf) left j))
unfolding find_in first_clear named
find_in_search zero j n buf q h = refl
find_in_search (suc left) j n buf q h =
    let rest = find_in_search left (j + 1) n buf q (λ k lo hi. h k (omega arith) (omega arith)) in
    elim (Bool-cases (is_empty (entry_at buf j))) [
      | inl e ↦ rw e rest
      | inr e ↦
          let readable = name_str-text (entry_at buf j) (h j (omega arith) (omega arith) e) in
          elim (Bool-cases (bytes_eq (text (entry_at buf j)) q)) [
            | inl t ↦ rw (e, readable, ◌>>=◌, t) refl
            | inr t ↦ rw (e, readable, ◌>>=◌, t) rest
          ]
    ]

free_slot_search :
    (left j : ℕ) (buf : List ℕ)
    → free_slot left j buf
      ≡ Option.map
          (λ k. k * dir_entry_size)
          (first_clear (λ k. not (is_empty (entry_at buf k))) left j)
unfolding free_slot first_clear
free_slot_search zero j buf = refl
free_slot_search (suc left) j buf = elim (Bool-cases (is_empty (entry_at buf j))) [
  | inl e ↦ rw e refl
  | inr e ↦ rw e (free_slot_search left (j + 1) buf)
]

module _ ⦃dev : Device⦄ where
  open dev use {Disk, read_block, blocks, block}

  -- A test of the slots of one block, and of all slots.
  module _ (d : Disk) (dir : Inode) (test : DirEntry → Bool) where
    abbrev tested : ℕ → Bool
    tested s = test (slot d dir s)

    one_block :
        (i : ℕ)
        → first_clear tested entries_per_block (i * entries_per_block)
          ≡ Option.map
              (λ k. i * entries_per_block + k)
              (first_clear (λ k. test (entry_at (block d (ptr dir i)) k)) entries_per_block 0)
    unfolding slot
    one_block i =
        ap (first_clear tested entries_per_block) (omega arith)
        ∙ first_clear_shift tested (λ k. test (entry_at (block d (ptr dir i)) k))
            (i * entries_per_block) entries_per_block 0
            (λ k lo hi.
              ap₂ (λ b j. test (entry_at (block d (ptr dir b)) j)) (omega arith) (omega arith))

    split_block :
        (left i : ℕ)
        → first_clear tested (suc left * entries_per_block) (i * entries_per_block)
          ≡ or_else
              (Option.map
                (λ k. i * entries_per_block + k)
                (first_clear (λ k. test (entry_at (block d (ptr dir i)) k)) entries_per_block 0))
              (first_clear tested (left * entries_per_block) ((i + 1) * entries_per_block))
    split_block left i =
        ap (λ n. first_clear tested n (i * entries_per_block)) (omega arith)
        ∙ first_clear-add tested entries_per_block (left * entries_per_block)
            (i * entries_per_block)
        ∙ ap₂ or_else (one_block i)
            (ap (first_clear tested (left * entries_per_block)) (omega arith))

  abbrev pub found_slot : Disk → Inode → ℕ → Found
  found_slot d dir s = (slot d dir s, (place dir s).0, (place dir s).1)

  slot_at :
      (d : Disk) (dir : Inode) (i k : ℕ)
      → k < entries_per_block
      → slot d dir (i * entries_per_block + k) ≡ entry_at (block d (ptr dir i)) k
  unfolding slot
  slot_at d dir i k h = ap₂ (λ b j. entry_at (block d (ptr dir b)) j) (omega arith) (omega arith)

  same_found :
      (d : Disk) (dir : Inode) (i k : ℕ)
      → k < entries_per_block
      → found_at (block d (ptr dir i)) (ptr dir i) k ≡ found_slot d dir (i * entries_per_block + k)
  unfolding slot
  same_found d dir i k h =
      let at_block : i ≡ (i * entries_per_block + k) / entries_per_block = omega arith in
      let at_slot : k ≡ (i * entries_per_block + k) % entries_per_block = omega arith in
      ap₂ (λ b j. (entry_at (block d (ptr dir b)) j, ptr dir b, j * dir_entry_size)) at_block
        at_slot

  module _ (d : Disk) (sb : SuperBlock) (dir : Inode) (b : HasDirBlocks d sb dir) where
    block_here : (i : ℕ) → i < dir.block_count → get_block dir d i ≡ ok (some (ptr dir i))
    unfolding get_block
    block_here i h =
        rw (get_block, lt→ltb i 10 (omega (arith, b.few)), ==_of_ne (ptr dir i) 0 (b.there i h))

    readable_here :
        HasNames (slots dir) (slot d dir)
        → (i : ℕ) → i < dir.block_count
        → (k : ℕ) → 0 ≤ k
        → k < 0 + entries_per_block
        → is_empty (entry_at (block d (ptr dir i)) k) ≡ false
        → (entry_at (block d (ptr dir i)) k).name_len ≤ max_name_len
    readable_here names i h k lo hi e =
        let p = slot_at d dir i k hi in
        subst (λ x. x.name_len ≤ max_name_len) p
          (names.readable (i * entries_per_block + k) (omega arith) (ap is_empty p ∙ e))

    find_from_search :
        HasNames (slots dir) (slot d dir)
        → (left i : ℕ) (q : List ℕ) → i + left ≤ dir.block_count
        → find_from left i d dir q
          ≡ ok (
              Option.map (found_slot d dir) (
                first_clear
                  (λ s. not (named q (slot d dir s)))
                  (left * entries_per_block)
                  (i * entries_per_block)))
    unfolding find_from
    find_from_search names zero i q h = unfold first_clear in refl
    find_from_search names (suc left) i q h =
        let buf = block d (ptr dir i) in
        let rest = find_from_search names left (i + 1) q (omega arith) in
        let here = first_clear (unlike q buf) entries_per_block 0 in
        rw
          (
            find_from,
            block_here i (omega arith),
            ◌>>=◌,
            dev.read_block-ok d (ptr dir i) (b.inside i (omega arith)),
            ◌>>=◌,
            find_in_search entries_per_block 0 (ptr dir i) buf q
                (readable_here names i (omega arith)),
            split_block d dir (λ e. not (named q e)) left i,
          )
          (elim (Option-cases here) [
            | inl e ↦ rw (e, ◌>>=◌) rest
            | inr (k, e) ↦
                rw (e, ◌>>=◌)
                  (ap (λ x. ok (some x))
                    (same_found d dir i k (
                      omega
                        (arith, (first_clear-some (unlike q buf) entries_per_block 0 k e).below))))
          ])

    -- `dir_find` finds the first slot in use under the name, if there is one.
    pub dir_find_search :
        HasNames (slots dir) (slot d dir)
        → (q : List ℕ)
        → dir_find d dir q
          ≡ ok (
              Option.map
                (found_slot d dir)
                (first_clear (λ s. not (named q (slot d dir s))) (slots dir) 0))
    unfolding dir_find
    dir_find_search names q = find_from_search names dir.block_count 0 q (omega arith)

    pub free_from_search :
        (left i : ℕ)
        → i + left ≤ dir.block_count
        → free_from left i d dir
          ≡ ok (
              Option.map
                (λ s. ((place dir s).0, (place dir s).1, block d (place dir s).0))
                (first_clear
                  (λ s. not (is_empty (slot d dir s)))
                  (left * entries_per_block)
                  (i * entries_per_block)))
    unfolding free_from
    free_from_search zero i h = unfold first_clear in refl
    free_from_search (suc left) i h =
        let buf = block d (ptr dir i) in
        let rest = free_from_search left (i + 1) (omega arith) in
        let here = first_clear (λ k. not (is_empty (entry_at buf k))) entries_per_block 0 in
        rw
          (
            free_from,
            block_here i (omega arith),
            ◌>>=◌,
            expect,
            dev.read_block-ok d (ptr dir i) (b.inside i (omega arith)),
            ◌>>=◌,
            free_slot_search entries_per_block 0 buf,
            split_block d dir (λ e. not (is_empty e)) left i,
          )
          (elim (Option-cases here) [
            | inl e ↦ rw e rest
            | inr (k, e) ↦
                let small =
                  (first_clear-some (λ k. not (is_empty (entry_at buf k))) entries_per_block 0 k
                    e).below in
                let at_block : i ≡ (i * entries_per_block + k) / entries_per_block = omega arith in
                let at_slot : k ≡ (i * entries_per_block + k) % entries_per_block = omega arith in
                rw e (
                  ap₂ (λ b j. ok (some (ptr dir b, j * dir_entry_size, block d (ptr dir b))))
                    at_block at_slot)
          ])
