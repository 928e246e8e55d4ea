-- ===== src/Directory/Attach.antt =====
-- A directory with one more block, in terms of the disk before and after.
use operating_system_experie.Base.{
  max_blocks, ℕ, ◌/◌, ◌%◌, ◌≤◌, ◌<◌, ◌≡◌, ◌≢◌, ◌⊎◌, refl, ap, sym, ◌∙◌, Bool, true, false, List,
  get_or-set_self, get_or-set_ne, Option, none, some, arith, block_size, if◌then◌else◌, ◌==◌, ltb,
  ==_of_ne, ==_of_eq, eq_of_==, ne_of_==, lt→ltb, le→ltb, ltb→lt, Bool-cases, inl, inr,
}
use operating_system_experie.Base.Slices.{zeros, length-zeros}
use native.Mathlib.Decide.{dec_lt}
use operating_system_experie.Device.{Device}
use operating_system_experie.Superblock.{SuperBlock}
use operating_system_experie.Bitmap.Mark.{bit_at}
use operating_system_experie.Inode.{Inode, read_inode, direct_count}
use operating_system_experie.Inode.Table.{home, InImage}
use operating_system_experie.Directory.{
  DirEntry, max_name_len, done, entries_per_block, dir_entry_size, is_empty, entry_at, from_bytes,
  to_bytes, extend,
}
use operating_system_experie.Directory.Slots.{ptr, slot, slots, HasDirBlocks, HasNames, text}
use operating_system_experie.Directory.View.{Names, update, Models, Shows}
use operating_system_experie.Directory.Patch.{entry_at-splice_self, entry_at-splice_ne}
use operating_system_experie.Directory.Effect.{added-HasNames, added-Shows}
use operating_system_experie.Directory.Extended.{extended, first_block}
use operating_system_experie.Directory.Longer.{zeros_empty, continued-HasNames, continued-Shows}
use operating_system_experie.Directory.Sound.{IsTaken, IsSound, Keeps}

module _ ⦃dev : Device⦄ where
  open dev use {Disk, blocks, block}

  -- A block that was free and is none of the system's comes to a directory.
  module _ (d : Disk) (sb : SuperBlock) (dir : Inode) (now : ℕ) (i : IsSound d sb dir)
      (room : dir.block_count < direct_count) (n : ℕ) (free : bit_at d n ≡ false) (behind : 31 ≤ n)
      (below : n < max_blocks) where
    clash : (b : Bool) → b ≡ true → b ≡ false → ⊥
    clash b t f = cc

    true_either : (c b : Bool) → b ≡ true → (if c then true else b) ≡ true
    true_either c b h = ground arith

    abbrev dir' : Inode
    dir' = extended dir n now

    other_block : (k : ℕ) → k < dir.block_count → n ≢ ptr dir k
    other_block k h same = clash (bit_at d n) (ap (bit_at d) same ∙ i.held.taken k h) free

    pub other_home : n ≢ home sb dir.inode_no
    other_home same = clash (bit_at d n) (ap (bit_at d) same ∙ i.held.inode_taken) free

    -- The disk after: the block holds one entry, and its bit is set.
    module _ (d' : Disk) (sb' : SuperBlock) (e : DirEntry)
        (typed : operating_system_experie.Directory.IsTyped e) (sizes : blocks d' ≡ blocks d)
        (table_same : sb'.inode_table_start ≡ sb.inode_table_start)
        (block_after : (k : ℕ)
          → 6 ≤ k
          → k ≢ home sb dir.inode_no
          → block d' k ≡ (if n == k then first_block e else block d k))
        (bits_after : (m : ℕ)
          → m < max_blocks
          → bit_at d' m ≡ (if n == m then true else bit_at d m))
        (inodes_after : (k : ℕ)
          → k ≢ dir.inode_no
          → InImage d sb k
          → n ≢ home sb k
          → read_inode d' sb' k ≡ read_inode d sb k) where
      home_same : home sb' dir.inode_no ≡ home sb dir.inode_no
      home_same = omega (arith, table_same)

      abbrev first : List ℕ
      first = first_block e

      ptr_old : (k : ℕ) → k < dir.block_count → ptr dir' k ≡ ptr dir k
      ptr_old k h = get_or-set_ne dir.direct_blocks dir.block_count k n 0 (omega arith)

      ptr_new : ptr dir' dir.block_count ≡ n
      ptr_new =
          get_or-set_self dir.direct_blocks dir.block_count n 0
            (omega (arith, i.directory.typed.direct_length))

      -- The table of the slots before, with the free slots of the new block.
      abbrev table : ℕ → DirEntry
      table t =
          if ltb t (slots dir)
          then slot d dir t
          else entry_at (zeros block_size) (t % entries_per_block)

      block_old : (k : ℕ) → k < dir.block_count → block d' (ptr dir' k) ≡ block d (ptr dir k)
      block_old k h =
          ap (block d') (ptr_old k h)
          ∙ block_after (ptr dir k) (omega (arith, i.held.behind k h)) (i.directory.held.apart k h)
          ∙ rw (==_of_ne n (ptr dir k) (other_block k h)) refl

      block_new : block d' (ptr dir' dir.block_count) ≡ first
      block_new =
          ap (block d') ptr_new
          ∙ block_after n (omega (arith, behind)) other_home
          ∙ rw (==_of_eq n n refl) refl

      in_first :
          (j : ℕ)
          → j < entries_per_block
          → entry_at first j ≡ (if 0 == j then e else entry_at (zeros block_size) j)
      in_first j h = elim (Bool-cases (0 == j)) [
        | inl q ↦ rw q (
            ap (entry_at first) (sym (eq_of_== 0 j q))
            ∙ entry_at-splice_self e (zeros block_size) 0 typed (length-zeros block_size)
                (omega arith))
        | inr q ↦ rw q (entry_at-splice_ne e (zeros block_size) 0 j (ne_of_== 0 j q))
      ]

      entries : (t : ℕ) → t < slots dir' → slot d' dir' t ≡ (if slots dir == t then e else table t)
      unfolding slot
      entries t h = elim (Bool-cases (ltb t (slots dir))) [
        | inl old ↦
            let lt = ltb→lt t (slots dir) old in
            rw (==_of_ne (slots dir) t (omega arith), old)
              (ap (λ b. entry_at b (t % entries_per_block))
                (block_old (t / entries_per_block) (omega arith)))
        | inr new ↦
            let row : t / entries_per_block ≡ dir.block_count = ground arith in
            let same : (slots dir == t) ≡ (0 == t % entries_per_block) = ground arith in
            rw (new, same)
              (ap (λ k. entry_at (block d' (ptr dir' k)) (t % entries_per_block)) row
                ∙ ap (λ b. entry_at b (t % entries_per_block)) block_new
                ∙ in_first (t % entries_per_block) (omega arith))
      ]

      blank_empty : (t : ℕ) → slots dir ≤ t → is_empty (table t) ≡ true
      blank_empty t h =
          rw (le→ltb t (slots dir) h) (zeros_empty (t % entries_per_block) (omega arith))

      table_old : (t : ℕ) → t < slots dir → table t ≡ slot d dir t
      table_old t h = rw (lt→ltb t (slots dir) h) refl

      -- A block of the directory is one of the old ones, or the new one.
      ptr_cases :
          (k : ℕ)
          → k < dir'.block_count
          → ((k < dir.block_count) × (ptr dir' k ≡ ptr dir k))
            ⊎ ((k ≡ dir.block_count) × (ptr dir' k ≡ n))
      ptr_cases k h = elim (dec_lt k dir.block_count) [
        | yes lt ↦ inl (lt, ptr_old k lt)
        | no ge ↦
            let same : k ≡ dir.block_count = omega arith in inr (same, ap (ptr dir') same ∙ ptr_new)
      ]

      ptr_there : (k : ℕ) → k < dir'.block_count → ptr dir' k ≢ 0
      ptr_there k h = elim (ptr_cases k h) [
        | inl (lt, q) ↦ omega (arith, q, i.held.behind k lt)
        | inr (eq, q) ↦ omega (arith, q, behind)
      ]

      ptr_inside : (k : ℕ) → k < dir'.block_count → ptr dir' k < blocks d'
      ptr_inside k h = elim (ptr_cases k h) [
        | inl (lt, q) ↦ omega (arith, q, i.directory.held.inside k lt, sizes)
        | inr (eq, q) ↦ omega (arith, q, below, sizes, i.guarded.consistent.full)
      ]

      ptr_distinct :
          (j k : ℕ) → j < dir'.block_count → k < dir'.block_count → ptr dir' j ≡ ptr dir' k → j ≡ k
      ptr_distinct j k hj hk same = elim (ptr_cases j hj) [
        | inl (lt, q) ↦ elim (ptr_cases k hk) [
          | inl (lt', q') ↦ i.directory.held.distinct j k lt lt' (sym q ∙ same ∙ q')
          | inr (eq', q') ↦ absurd (other_block j lt (sym q' ∙ sym same ∙ q))
        ]
        | inr (eq, q) ↦ elim (ptr_cases k hk) [
          | inl (lt', q') ↦ absurd (other_block k lt' (sym q ∙ same ∙ q'))
          | inr (eq', q') ↦ eq ∙ sym eq'
        ]
      ]

      ptr_apart : (k : ℕ) → k < dir'.block_count → ptr dir' k ≢ home sb dir.inode_no
      ptr_apart k h same = elim (ptr_cases k h) [
        | inl (lt, q) ↦ i.directory.held.apart k lt (sym q ∙ same)
        | inr (eq, q) ↦ other_home (sym q ∙ same)
      ]

      extended-HasDirBlocks : HasDirBlocks d' sb' dir'
      extended-HasDirBlocks = record {
        few = omega arith;
        there = ptr_there;
        inside = ptr_inside;
        distinct = ptr_distinct;
        apart = λ k h same. ptr_apart k h (same ∙ home_same);
      }

      kept_bit : (m : ℕ) → m < max_blocks → bit_at d m ≡ true → bit_at d' m ≡ true
      kept_bit m h used = bits_after m h ∙ true_either (n == m) (bit_at d m) used

      chosen_bit : bit_at d' n ≡ true
      chosen_bit = bits_after n below ∙ rw (==_of_eq n n refl) refl

      extended-IsTaken : IsTaken d' sb' dir'
      extended-IsTaken = record {
        behind = λ k h. elim (ptr_cases k h) [
          | inl (lt, q) ↦ omega (arith, q, i.held.behind k lt)
          | inr (eq, q) ↦ omega (arith, q, behind)
        ];
        inside = λ k h. elim (ptr_cases k h) [
          | inl (lt, q) ↦ omega (arith, q, i.held.inside k lt)
          | inr (eq, q) ↦ omega (arith, q, below)
        ];
        taken = λ k h. elim (ptr_cases k h) [
          | inl (lt, q) ↦
              ap (bit_at d') q ∙ kept_bit (ptr dir k) (i.held.inside k lt) (i.held.taken k lt)
          | inr (eq, q) ↦ ap (bit_at d') q ∙ chosen_bit
        ];
        inode_inside = omega (arith, i.held.inode_inside, home_same);
        inode_taken =
            ap (bit_at d') home_same
            ∙ kept_bit (home sb dir.inode_no) i.held.inode_inside i.held.inode_taken;
      }

      extended-Keeps : Keeps d sb dir d' sb' dir'
      extended-Keeps = record {
        others = λ k lo hi used h away.
            block_after k (omega arith) h
            ∙ rw (==_of_ne n k (λ same. clash (bit_at d n) (ap (bit_at d) same ∙ used) free)) refl;
        bits = kept_bit;
        inodes = λ k ne h away.
            inodes_after k ne h
              (λ same. away dir.block_count (omega arith) (sym same ∙ sym ptr_new));
        number = refl;
        table = table_same;
        size = sizes;
        blocks_kept = λ j h. (omega arith, ptr_old j h);
        blocks_new = λ k h. elim (ptr_cases k h) [
          | inl (lt, q) ↦ inl (k, lt, q)
          | inr (eq, q) ↦ inr (ap (bit_at d) q ∙ free)
        ];
      }

      -- What the directory is then: it has one more name.
      pub record Attached (name : List ℕ) (f : Names) : Type 0 where
        pub blocks_held : HasDirBlocks d' sb' dir'
        pub held : IsTaken d' sb' dir'
        pub keeps : Keeps d sb dir d' sb' dir'
        pub names : HasNames (slots dir') (slot d' dir')
        pub models : Models d' dir' (update f name (some e))

      module _ (name : List ℕ) (f : Names) (models : Models d dir f)
          (absent : Shows (slots dir) (slot d dir) name none) (used : is_empty e ≡ false)
          (short : e.name_len ≤ max_name_len) (called : text e ≡ name) where
        longer : slots dir < slots dir'
        longer = omega arith

        table-HasNames : HasNames (slots dir') table
        table-HasNames =
            continued-HasNames (slots dir) (slots dir') (omega (arith, longer)) (slot d dir) table
              table_old (λ t h g. blank_empty t h) i.directory.names

        table-Shows :
            (q : List ℕ) (v : Option DirEntry)
            → Shows (slots dir) (slot d dir) q v
            → Shows (slots dir') table q v
        table-Shows =
            continued-Shows (slots dir) (slots dir') (omega (arith, longer)) (slot d dir) table
              table_old (λ t h g. blank_empty t h)

        free_first : is_empty (table (slots dir)) ≡ true
        free_first = blank_empty (slots dir) (omega arith)

        pub attach-Attached : Attached name f
        attach-Attached = record {
          blocks_held = extended-HasDirBlocks;
          held = extended-IsTaken;
          keeps = extended-Keeps;
          names =
              added-HasNames (slots dir') table (slot d' dir') table-HasNames (slots dir) longer e
                entries name free_first used short called (table-Shows name none absent);
          models =
              added-Shows (slots dir') table (slot d' dir') table-HasNames (slots dir) longer e
                entries name free_first used short called (table-Shows name none absent) f
                (λ q. table-Shows q (f q) (models q));
        }
