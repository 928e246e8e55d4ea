-- ===== src/Bitmap/Alloc.antt =====
-- Allocation and release keep the superblock and the bits consistent.
use operating_system_experie.Base.{
  ℕ, suc, ◌+◌, ◌-◌, ◌%◌, ◌^◌, ◌≤◌, ◌<◌, ◌≡◌, ◌≢◌, ◌⊎◌, refl, ap, sym, subst, ◌∙◌, Bool, true, false,
  arith, Option, none, some, max_blocks, if◌then◌else◌, ◌==◌, leb, Bool-cases, Option-cases, inl,
  inr, eq_of_==, ne_of_==, ==_of_ne, ==_of_eq,
}
use operating_system_experie.Base.FirstClear.{
  first_clear, first_clear-some, first_clear-none, IsFirst,
}
use operating_system_experie.Base.CountClear.{
  count_clear, count_clear-le, count_clear-set, count_clear-zero, count_clear_full,
}
use operating_system_experie.Base.Outcome.{Outcome, ok}
use operating_system_experie.Device.{Device}
use operating_system_experie.Superblock.{SuperBlock, IsTyped, image, is_valid, read_superblock}
use operating_system_experie.Superblock.RoundTrip.{IsTyped-count, from_bytes-image}
use operating_system_experie.Superblock.Store.{read_superblock_lem}
use operating_system_experie.Bitmap.{claim, allocate_block, mark_allocated, mark_free}
use operating_system_experie.Bitmap.Mark.{bit_at, IsFull, Marked, mark_allocated_lem, mark_free_lem}
use operating_system_experie.Bitmap.Scan.{find_free_lem}

module _ ⦃dev : Device⦄ where
  open dev use {Disk, blocks, block}

  -- The superblock in memory is the one on the disk, with five blocks of bits, and its free count
  -- is the number of clear bits.
  pub record IsConsistent (d : Disk) (sb : SuperBlock) : Type 0 where
    pub full : IsFull d
    pub typed : IsTyped sb
    pub named : is_valid sb ≡ true
    pub five : sb.bitmap_blocks ≡ 5
    pub stored : block d 0 ≡ image sb
    pub counted : sb.free_blocks ≡ count_clear (bit_at d) max_blocks

  -- A block was handed out: the lowest free one. Its bit is set, and all else is as before.
  pub record Allocated (d : Disk) (sb : SuperBlock) (r : Outcome (Disk × SuperBlock × Option ℕ))
      : Type 0 where
    pub chosen : ℕ
    pub first : IsFirst (bit_at d) 0 max_blocks chosen
    pub disk : Disk
    pub after : SuperBlock
    pub returns : r ≡ ok (disk, after, some chosen)
    pub one_less : sb ≡ record after { free_blocks = after.free_blocks + 1 }
    pub bits : (m : ℕ) → m < max_blocks → bit_at disk m ≡ (if chosen == m then true else bit_at d m)
    pub others : (k : ℕ) → 6 ≤ k → block disk k ≡ block d k
    pub size : blocks disk ≡ blocks d
    pub consistent : IsConsistent disk after

  -- What marking leaves consistent, if the new count is right.
  module _ (to : Bool) (free : ℕ) (d : Disk) (sb : SuperBlock) (n : ℕ) (c : IsConsistent d sb)
      {r : Outcome (Disk × SuperBlock)} (m : Marked to free d sb n r) (small : free < 2 ^ 32)
      (right : free ≡ count_clear (bit_at m.disk) max_blocks) where
    pub marked-IsConsistent : IsConsistent m.disk (record sb { free_blocks = free })
    marked-IsConsistent = record {
      full = omega (arith, m.size, c.full);
      typed = IsTyped-count c.typed free small;
      named = unfold is_valid in c.named;
      five = c.five;
      stored = m.stored;
      counted = right;
    }

  module _ (d : Disk) (sb : SuperBlock) (c : IsConsistent d sb) where
    pub stored_superblock : read_superblock d ≡ ok sb
    stored_superblock = rw (
      read_superblock_lem d (omega (arith, c.full)),
      c.stored,
      from_bytes-image sb c.typed,
      c.named,
    )

    -- On a consistent disk, allocation is the claim of the lowest clear bit.
    allocate_block-claim :
        sb.free_blocks ≢ 0 → allocate_block d sb ≡ claim d sb (first_clear (bit_at d) max_blocks 0)
    unfolding allocate_block
    allocate_block-claim some_free = rw (
      allocate_block,
      ==_of_ne sb.free_blocks 0 some_free,
      stored_superblock,
      c.five,
      find_free_lem 5 0 d (omega (arith, c.full)) (omega arith),
    )

    module _ (n : ℕ) (some_free : sb.free_blocks ≢ 0)
        (found : first_clear (bit_at d) max_blocks 0 ≡ some n) where
      first : IsFirst (bit_at d) 0 max_blocks n
      first = first_clear-some (bit_at d) max_blocks 0 n found

      marked : Marked true ((sb.free_blocks + 2 ^ 32 - 1) % 2 ^ 32) d sb n (mark_allocated d sb n)
      marked = mark_allocated_lem d sb n c.full first.below c.typed

      fewer : suc (count_clear (bit_at marked.disk) max_blocks) ≡ sb.free_blocks
      fewer =
          count_clear-set (bit_at d) (bit_at marked.disk) n max_blocks first.below first.clear
            marked.bits
          ∙ sym c.counted

      taken : Allocated d sb (allocate_block d sb)
      unfolding claim
      taken = record {
        chosen = n;
        first = first;
        disk = marked.disk;
        after = record sb { free_blocks = (sb.free_blocks + 2 ^ 32 - 1) % 2 ^ 32 };
        returns = allocate_block-claim some_free ∙ rw (found, claim, not_past, marked.returns) refl;
        one_less = ap (λ v. record sb { free_blocks = v }) (omega (arith, c.typed.free_blocks));
        bits = marked.bits;
        others = marked.others;
        size = marked.size;
        consistent =
            marked-IsConsistent true ((sb.free_blocks + 2 ^ 32 - 1) % 2 ^ 32) d sb n c marked
              (omega arith) (omega (arith, fewer, c.typed.free_blocks));
      }
        where
          not_past : leb max_blocks n ≡ false
          not_past = ground (arith, first.below)

    -- On a consistent disk, `allocate_block` hands out the lowest free block, and says `None`,
    -- changing nothing, exactly when every block of the disk is taken.
    pub allocate_block_lem :
        ((allocate_block d sb ≡ ok (d, sb, none)) × ((m : ℕ) → m < max_blocks → bit_at d m ≡ true))
        ⊎ Allocated d sb (allocate_block d sb)
    allocate_block_lem = elim (Bool-cases (sb.free_blocks == 0)) [
      | inl e ↦ inl (
        unfold allocate_block in rw (allocate_block, e),
        λ m. count_clear-zero (bit_at d) max_blocks m (sym c.counted ∙ eq_of_== sb.free_blocks 0 e),
      )
      | inr e ↦ elim (Option-cases (first_clear (bit_at d) max_blocks 0)) [
        | inl nothing ↦ inl (
          allocate_block-claim (ne_of_== sb.free_blocks 0 e) ∙ rw nothing (unfold claim in refl),
          λ m h. first_clear-none (bit_at d) max_blocks 0 m nothing (omega arith) h,
        )
        | inr (n, found) ↦ inr (taken n (ne_of_== sb.free_blocks 0 e) found)
      ]
    ]

    -- The free count tells which of the two happens.
    pub allocate_block-count :
        ((sb.free_blocks ≡ 0) × (allocate_block d sb ≡ ok (d, sb, none)))
        ⊎ Allocated d sb (allocate_block d sb)
    allocate_block-count = elim allocate_block_lem [
      | inl (returns, all) ↦ inl (c.counted ∙ count_clear_full (bit_at d) max_blocks all, returns)
      | inr a ↦ inr a
    ]

    -- If any block of the disk is free, `allocate_block` hands out the lowest free one.
    pub allocate_block-Allocated :
        (m : ℕ) → m < max_blocks → bit_at d m ≡ false → Allocated d sb (allocate_block d sb)
    allocate_block-Allocated m h clear = elim allocate_block_lem [
      | inl (returns, all) ↦ absurd (clash (bit_at d m) (all m h) clear)
      | inr a ↦ a
    ]
      where
        clash : (b : Bool) → b ≡ true → b ≡ false → ⊥
        clash b t f = cc

    -- A taken block was given back: its bit is clear, and all else is as before.
    pub record Released (n : ℕ) (r : Outcome (Disk × SuperBlock)) : Type 0 where
      pub disk : Disk
      pub after : SuperBlock
      pub returns : r ≡ ok (disk, after)
      pub one_more : after ≡ record sb { free_blocks = sb.free_blocks + 1 }
      pub bits : (m : ℕ) → m < max_blocks → bit_at disk m ≡ (if n == m then false else bit_at d m)
      pub others : (k : ℕ) → 6 ≤ k → block disk k ≡ block d k
      pub size : blocks disk ≡ blocks d
      pub consistent : IsConsistent disk after

    -- On a consistent disk, `mark_free` gives back a block of the disk that is taken.
    pub mark_free-Released :
        (n : ℕ) → n < max_blocks → bit_at d n ≡ true → Released n (mark_free d sb n)
    mark_free-Released n inside set_bit = record {
      disk = freed.disk;
      after = record sb { free_blocks = (sb.free_blocks + 1) % 2 ^ 32 };
      returns = freed.returns;
      one_more = ap (λ v. record sb { free_blocks = v }) (omega (arith, small));
      bits = freed.bits;
      others = freed.others;
      size = freed.size;
      consistent =
          marked-IsConsistent false ((sb.free_blocks + 1) % 2 ^ 32) d sb n c freed (omega arith)
            (omega (arith, more, small));
    }
      where
        freed : Marked false ((sb.free_blocks + 1) % 2 ^ 32) d sb n (mark_free d sb n)
        freed = mark_free_lem d sb n c.full inside c.typed

        now_clear : bit_at freed.disk n ≡ false
        now_clear = freed.bits n inside ∙ rw (==_of_eq n n refl) refl

        undone :
            (m : ℕ) → m < max_blocks → bit_at d m ≡ (if n == m then true else bit_at freed.disk m)
        undone m h = elim (Bool-cases (n == m)) [
          | inl e ↦ rw (e, ← eq_of_== n m e) set_bit
          | inr e ↦ rw (e, freed.bits m h, e) refl
        ]

        more : suc (count_clear (bit_at d) max_blocks) ≡ count_clear (bit_at freed.disk) max_blocks
        more = count_clear-set (bit_at freed.disk) (bit_at d) n max_blocks inside now_clear undone

        small : sb.free_blocks ≤ max_blocks
        small = omega (arith, c.counted, count_clear-le (bit_at d) max_blocks)

  -- Giving back the block that was just handed out restores the superblock and every bit.
  pub mark_free-allocate_block :
      (d : Disk) (sb : SuperBlock)
      → IsConsistent d sb
      → (a : Allocated d sb (allocate_block d sb))
      → (d' : Disk) × (mark_free a.disk a.after a.chosen ≡ ok (d', sb))
        × ((m : ℕ) → m < max_blocks → bit_at d' m ≡ bit_at d m)
        × IsConsistent d' sb
  mark_free-allocate_block d sb c a =
      let n = a.chosen in
      let now_set : bit_at a.disk n ≡ true = a.bits n a.first.below ∙ rw (==_of_eq n n refl) refl in
      let r = mark_free-Released a.disk a.after a.consistent n a.first.below now_set in
      let same : r.after ≡ sb = r.one_more ∙ sym a.one_less in
      (
        r.disk,
        r.returns ∙ ap (λ s. ok (r.disk, s)) same,
        λ m h. r.bits m h ∙ elim (Bool-cases (n == m)) [
          | inl e ↦ rw (e, ← eq_of_== n m e) (sym a.first.clear)
          | inr e ↦ rw (e, a.bits m h, e) refl
        ],
        subst (IsConsistent r.disk) same r.consistent,
      )
