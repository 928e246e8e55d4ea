-- ===== src/Fs/Reading.antt =====
-- The contents of a file, byte by byte, and what `read` returns of them.
use operating_system_experie.Base.{
  ℕ, zero, suc, ◌+◌, ◌-◌, ◌*◌, ◌/◌, ◌%◌, ◌^◌, ◌≤◌, ◌<◌, ◌≡◌, ◌≢◌, refl, ap, ap₂, ◌∙◌, List, ◌++◌,
  some, min, tabulate, arith, page_size, leb, ==_of_ne, Bool-cases, inl, inr, lt→ltb,
}
use operating_system_experie.Base.Slices.{byte, slice}
use operating_system_experie.Base.Tabulate.{tabulate_ext, tabulate-add, slice-tabulate}
use operating_system_experie.Base.Outcome.{ok, ◌>>=◌}
use operating_system_experie.Device.{Device}
use operating_system_experie.Superblock.{SuperBlock}
use operating_system_experie.Inode.{Inode, get_block, read_inode}
use operating_system_experie.Inode.BlockMap.{pointer_at, get_block_lem}
use operating_system_experie.Fs.Queries.{read_from, read}

module _ ⦃dev : Device⦄ where
  open dev use {Disk, read_block, blocks, block}

  -- A byte of a file: 510 of them stand in each of its blocks.
  unfoldable pub content_byte : Disk → Inode → ℕ → ℕ
  content_byte d i p = byte (block d (pointer_at i d (p / page_size))) (p % page_size)

  -- The first `n` blocks of a file are there.
  pub record HasBlocks (d : Disk) (i : Inode) (n : ℕ) : Type 0 where
    pub few : n < 2 ^ 32
    pub indirect : i.indirect_block < blocks d
    pub there : (k : ℕ) → k < n → pointer_at i d k ≢ 0
    pub inside : (k : ℕ) → k < n → pointer_at i d k < blocks d

  -- The bytes from a place in a file on.
  abbrev pub content : Disk → Inode → ℕ → ℕ → List ℕ
  content d i from count = tabulate count (λ j. content_byte d i (from + j))

  module _ (d : Disk) (i : Inode) (n : ℕ) (h : HasBlocks d i n) where
    block_found : (index : ℕ) → index < n → get_block i d index ≡ ok (some (pointer_at i d index))
    block_found index l =
        get_block_lem i d index h.indirect
        ∙ rw (==_of_ne (pointer_at i d index) 0 (h.there index l)) refl

    -- What one round copies.
    page_bytes :
        (index offset count : ℕ)
        → index < n
        → offset + count ≤ page_size
        → slice offset count (block d (pointer_at i d index))
          ≡ content d i (index * page_size + offset) count
    unfolding content_byte
    page_bytes index offset count l fits =
        slice-tabulate offset count (block d (pointer_at i d index))
          (omega (arith, (dev.block-IsBlock d (pointer_at i d index) (h.inside index l)).0))
        ∙ tabulate_ext count _ _
            (λ j lt. ap₂ (λ b k. byte (block d (pointer_at i d b)) k) (omega arith) (omega arith))

    -- The round and what follows it.
    join :
        (index offset remaining count : ℕ)
        → count ≡ min remaining (page_size - offset)
        → offset < page_size
        → content d i (index * page_size + offset) count
            ++ content d i ((index + 1) * page_size + 0) (remaining - count)
          ≡ content d i (index * page_size + offset) remaining
    join index offset remaining count e lt =
        ap (λ l. content d i (index * page_size + offset) count ++ l)
          (tabulate_ext (remaining - count) _ _ (λ j l. ap (content_byte d i) (omega arith)))
        ∙ tabulate-add count (remaining - count)
            (λ j. content_byte d i (index * page_size + offset + j))
        ∙ ap (content d i (index * page_size + offset)) (omega arith)

    read_from_lem :
        (fuel remaining index offset : ℕ)
        → remaining ≤ fuel
        → offset < page_size
        → index * page_size + offset + remaining ≤ n * page_size
        → read_from fuel d i remaining index offset
          ≡ ok (content d i (index * page_size + offset) remaining)
    unfolding read_from
    read_from_lem zero zero index offset f o l = refl
    read_from_lem zero (suc r) index offset f o l = absurd (omega arith)
    read_from_lem (suc fuel) zero index offset f o l = refl
    read_from_lem (suc fuel) (suc r) index offset f o l =
        let count = min (suc r) (page_size - offset) in
        let inside : index < n = omega arith in
        let next : (index + 1) % 2 ^ 32 ≡ index + 1 = omega (arith, h.few) in
        rw
          (
            read_from,
            ==_of_ne (suc r) 0 (omega arith),
            block_found index inside,
            ◌>>=◌,
            dev.read_block-ok d (pointer_at i d index) (h.inside index inside),
            next,
            read_from_lem fuel (suc r - count) (index + 1) 0 (omega arith) (omega arith)
                (omega arith),
          )
          (ap₂ (λ a b. ok (a ++ b)) (page_bytes index offset count inside (omega arith)) refl
            ∙ ap ok (join index offset (suc r) count refl o))

  -- `read` returns the bytes of the file from the offset on: as many as were asked for and the size
  -- of the file allows, and none from its end on. The file has the blocks that its size needs.
  pub read_lem :
      (d : Disk) (sb : SuperBlock) (ino offset size n : ℕ) (i : Inode)
      → read_inode d sb (ino % 2 ^ 32) ≡ ok i
      → HasBlocks d i n
      → i.size ≤ n * page_size
      → i.size < 2 ^ 32
      → offset < 2 ^ 63
      → read d sb ino offset size ≡ ok (content d i offset (min size (i.size - offset)))
  unfolding read
  read_lem d sb ino offset size n i e h fits small lt = elim (Bool-cases (leb i.size offset)) [
    | inl past ↦
        let none : min size (i.size - offset) ≡ 0 = ground arith in
        rw (read, e, ◌>>=◌, past, lt→ltb offset (2 ^ 63) lt, none) refl
    | inr before ↦
        let short : offset < i.size = ground arith in
        let count : min size ((i.size + 2 ^ 64 - offset) % 2 ^ 32) ≡ min size (i.size - offset) =
          omega arith in
        let low : offset % 2 ^ 32 ≡ offset = omega arith in
        let actual = min size (i.size - offset) in
        let place : offset / page_size * page_size + offset % page_size ≡ offset = omega arith in
        rw (read, e, ◌>>=◌, before, count, low)
          (read_from_lem d i n h actual actual (offset / page_size) (offset % page_size)
              (omega arith) (omega arith) (omega arith)
            ∙ ap (λ o. ok (content d i o actual)) place)
  ]
