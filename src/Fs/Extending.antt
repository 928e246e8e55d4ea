-- ===== src/Fs/Extending.antt =====
-- src/fs.rs: the state of `write` between its two loops, when the file has its blocks, and after it.
use operating_system_experie.Base.{
  ℕ, ◌+◌, ◌-◌, ◌*◌, ◌/◌, ◌%◌, ◌^◌, ◌≤◌, ◌<◌, ◌≡◌, ◌≢◌, inl, refl, ap, sym, ◌∙◌, true, List, length,
  arith, max_blocks, block_size, page_size, if◌then◌else◌, get_or-replicate, ltb, lt→ltb, le→ltb,
}
use operating_system_experie.Base.Slices.{IsBytes, byte}
use native.Mathlib.Decide.{dec_lt}
use operating_system_experie.Base.Outcome.{ok}
use operating_system_experie.Device.{Device}
use operating_system_experie.Superblock.{SuperBlock}
use operating_system_experie.Bitmap.Mark.{bit_at}
use operating_system_experie.Bitmap.Keep.{bit_at-same}
use operating_system_experie.Bitmap.Guard.{IsGuarded, same-IsGuarded}
use operating_system_experie.Bitmap.Spared.{IsSpared, less-IsSpared}
use operating_system_experie.Inode.{Inode, IsTyped, read_inode}
use operating_system_experie.Inode.BlockMap.{pointer_at}
use operating_system_experie.Inode.Table.{InImage, home, read_inode-same}
use operating_system_experie.Fs.Reading.{content_byte}
use operating_system_experie.Fs.Places.{among}
use operating_system_experie.Fs.Grown.{IsLaidOut, Grown, old_block}
use operating_system_experie.Fs.Save.{written, written-IsTyped, IsPlaced, Saved, write_data-Saved}

-- The blocks that a file needs for its first bytes.
abbrev pub required : ℕ → ℕ
required end = (end + page_size - 1) / page_size

module _ ⦃dev : Device⦄ where
  open dev use {Disk, blocks, block}

  -- A file on a consistent disk: its inode is stored apart from its blocks, which hold its size.
  pub record IsOnDisk (d : Disk) (sb : SuperBlock) (i : Inode) : Type 0 where
    pub stored : read_inode d sb i.inode_no ≡ ok i
    pub typed : IsTyped i
    pub guarded : IsGuarded d sb
    pub laid : IsLaidOut d i
    pub fits : i.size ≤ i.block_count * page_size
    pub home_inside : home sb i.inode_no < max_blocks
    pub apart : (k : ℕ) → k < i.block_count → pointer_at i d k ≢ home sb i.inode_no
    pub indirect_apart : i.indirect_block ≢ home sb i.inode_no

  -- The file has got blocks in memory, and its inode is still to be stored.
  module _ (d : Disk) (sb : SuperBlock) (i : Inode) (f : IsOnDisk d sb i) (e : Disk)
      (sb' : SuperBlock) (i' : Inode) (g : Grown d sb i e sb' i') (need : ℕ)
      (still : IsSpared d need (home sb i.inode_no)) (less : g.used ≤ need) where
    abbrev here : ℕ
    here = home sb i.inode_no

    spared :
        IsSpared e 0 here
        × ((k : ℕ) → i.block_count ≤ k → k < i'.block_count → pointer_at i' e k ≢ here)
        × (i'.indirect_block ≡ here → i.indirect_block ≡ here)
    spared =
        g.spared here 0 f.home_inside
          (less-IsSpared d (g.used + 0) need here (omega (arith, less)) still)

    number : i'.inode_no ≡ i.inode_no
    number = ap (λ j. j.inode_no) g.kept

    size_same : i'.size ≡ i.size
    size_same = ap (λ j. j.size) g.kept

    in_image : InImage d sb i.inode_no
    in_image = omega (arith, f.home_inside, f.guarded.consistent.full)

    -- The place of the inode is not touched.
    home_kept : block e here ≡ block d here
    home_kept =
        g.others here (omega (arith, f.guarded.table)) (λ same. f.indirect_apart (sym same))
          (λ same. f.indirect_apart (spared.2 (sym same))) spared.1

    pub inode_kept : read_inode e sb' i.inode_no ≡ ok i
    inode_kept = read_inode-same d e sb sb' i.inode_no in_image g.table g.size home_kept ∙ f.stored

    pub away : (k : ℕ) → k < i'.block_count → pointer_at i' e k ≢ here
    away k h = elim (dec_lt k i.block_count) [
      | yes lt ↦ λ same. f.apart k lt (sym (g.old k lt) ∙ same)
      | no ge ↦ spared.1 k (omega arith) h
    ]

    home_same : home sb' i'.inode_no ≡ here
    home_same = omega (arith, number, g.table)

    -- The blocks that the file has now, for the end of `write`.
    pub placed : IsPlaced e sb' i' i'.block_count (pointer_at i' e)
    placed = record {
      typed = g.typed;
      image = omega (arith, home_same, f.home_inside, g.guarded.consistent.full);
      map = record {
        few = omega (arith, g.laid.few);
        indirect = omega (arith, g.laid.indirect.inside, g.guarded.consistent.full);
        there = λ k h. omega (arith, g.laid.behind k h);
        inside = λ k h. omega (arith, g.laid.inside k h, g.guarded.consistent.full);
        distinct = λ k m a b ne. g.laid.distinct k m a b ne;
        beside = g.laid.indirect.beside;
      };
      pointers = λ k h. refl;
      few = g.laid.few;
      fits = omega (arith, f.fits, g.longer, size_same);
      apart = λ k h same. away k h (same ∙ home_same);
      indirect_apart = λ same. f.indirect_apart (spared.2 (same ∙ home_same));
    }

    -- The contents so far: what the file held, and zeros behind it.
    content_grown :
        (p : ℕ)
        → p / page_size < i'.block_count
        → content_byte e i' p
          ≡ (if ltb (p / page_size) i.block_count then content_byte d i p else 0)
    unfolding content_byte
    content_grown p h = elim (dec_lt (p / page_size) i.block_count) [
      | yes lt ↦ rw (lt→ltb (p / page_size) i.block_count lt) (
          ap (λ b. byte b (p % page_size))
            (ap (block e) (g.old (p / page_size) lt)
              ∙ old_block d sb i e sb' i' f.laid g (p / page_size) lt))
      | no ge ↦ rw (le→ltb (p / page_size) i.block_count (omega arith)) (
          ap (λ b. byte b (p % page_size)) (g.zeroed (p / page_size) (omega arith) h)
          ∙ get_or-replicate {A = ℕ} block_size (p % page_size) 0)
    ]

    module _ (offset : ℕ) (src : List ℕ) (now : ℕ) (b : IsBytes src) (some_bytes : 0 < length src)
        (room : offset + length src ≤ i'.block_count * page_size) (small : now < 2 ^ 64) where
      abbrev after : Inode
      after = written i' (offset + length src) now

      abbrev pub State : Type 0
      State =
          Saved e sb' i' i'.block_count (pointer_at i' e) placed offset src now b some_bytes room
            small

      pub saved : State
      saved =
          write_data-Saved e sb' i' i'.block_count (pointer_at i' e) placed offset src now b
            some_bytes room small

      data_block : (k : ℕ) → k < 6 → block saved.disk k ≡ block e k
      data_block k h =
          saved.others k (omega (arith, home_same, f.guarded.table))
            (λ j l. omega (arith, g.laid.behind j l))

      bits_kept : (m : ℕ) → m < max_blocks → bit_at saved.disk m ≡ bit_at e m
      bits_kept = bit_at-same e saved.disk (λ k lo hi. data_block k hi)

      laid_after : IsLaidOut saved.disk after
      laid_after = record {
        few = g.laid.few;
        behind = λ k h. omega (arith, saved.pointers k h, g.laid.behind k h);
        inside = λ k h. omega (arith, saved.pointers k h, g.laid.inside k h);
        taken = λ k h.
            ap (bit_at saved.disk) (saved.pointers k h)
            ∙ bits_kept (pointer_at i' e k) (g.laid.inside k h)
            ∙ g.laid.taken k h;
        distinct = λ j k hj hk ne same.
            g.laid.distinct j k hj hk ne (sym (saved.pointers j hj) ∙ same ∙ saved.pointers k hk);
        indirect = record {
          none_yet = g.laid.indirect.none_yet;
          behind = g.laid.indirect.behind;
          inside = g.laid.indirect.inside;
          taken = λ h. bits_kept i'.indirect_block g.laid.indirect.inside ∙ g.laid.indirect.taken h;
          beside = λ k h same. g.laid.indirect.beside k h (sym (saved.pointers k h) ∙ same);
        };
      }

      pub saved-IsOnDisk : IsOnDisk saved.disk sb' after
      saved-IsOnDisk = record {
        stored = saved.inode;
        typed =
            written-IsTyped i' (offset + length src) now g.typed (omega (arith, room, g.laid.few))
              small;
        guarded = same-IsGuarded e sb' g.guarded saved.disk saved.size data_block;
        laid = laid_after;
        fits = ground (arith, room, f.fits, g.longer, size_same);
        home_inside = omega (arith, home_same, f.home_inside);
        apart = λ k h same. away k h (sym (saved.pointers k h) ∙ same ∙ home_same);
        indirect_apart = λ same. f.indirect_apart (spared.2 (same ∙ home_same));
      }

      -- What the file holds then.
      pub contents_saved :
          (p : ℕ)
          → p / page_size < i'.block_count
          → content_byte saved.disk after p ≡ (
              if among offset (length src) p
              then byte src (p - offset)
              else if ltb (p / page_size) i.block_count
              then content_byte d i p
              else 0)
      contents_saved p h =
          saved.contents p h
          ∙ ap (λ c. if among offset (length src) p then byte src (p - offset) else c)
              (content_grown p h)

      -- The blocks of others.
      pub others_saved :
          (m : ℕ)
          → 6 ≤ m
          → m < max_blocks
          → bit_at d m ≡ true
          → m ≢ here
          → m ≢ i.indirect_block
          → ((k : ℕ) → k < i.block_count → pointer_at i d k ≢ m)
          → block saved.disk m ≡ block d m
      others_saved m lo hi taken beside not_indirect not_own =
          let (still, not_new, no_indirect) = g.spared m 0 hi (inl taken) in
          saved.others m (λ same. beside (same ∙ home_same))
            (λ k h. elim (dec_lt k i.block_count) [
              | yes lt ↦ λ same. not_own k lt (sym (g.old k lt) ∙ same)
              | no ge ↦ not_new k (omega arith) h
            ])
          ∙ g.others m lo not_indirect (λ same. not_indirect (sym (no_indirect (sym same)))) not_new

      -- The inodes of others, in the block of this one too.
      pub inodes_saved :
          (m : ℕ)
          → m ≢ i.inode_no
          → home sb m < max_blocks
          → bit_at d (home sb m) ≡ true
          → home sb m ≢ i.indirect_block
          → ((k : ℕ) → k < i.block_count → pointer_at i d k ≢ home sb m)
          → read_inode saved.disk sb' m ≡ read_inode d sb m
      inodes_saved m ne hi taken not_indirect not_own =
          let (still, not_new, no_indirect) = g.spared (home sb m) 0 hi (inl taken) in
          let moved : home sb' m ≡ home sb m = omega (arith, g.table) in
          saved.inodes m (λ same. ne (same ∙ number))
            (omega (arith, moved, hi), omega (arith, moved, hi, g.guarded.consistent.full))
            (λ k h. elim (dec_lt k i.block_count) [
              | yes lt ↦ λ same. not_own k lt (sym (g.old k lt) ∙ same ∙ moved)
              | no ge ↦ λ same. not_new k (omega arith) h (same ∙ moved)
            ])
          ∙ read_inode-same d e sb sb' m
              (omega (arith, hi), omega (arith, hi, f.guarded.consistent.full)) g.table g.size
              (g.others (home sb m) (omega (arith, f.guarded.table)) not_indirect
                (λ same. not_indirect (sym (no_indirect (sym same)))) not_new)

      -- The bits of the blocks that were taken.
      pub bits_saved : (m : ℕ) → m < max_blocks → bit_at d m ≡ true → bit_at saved.disk m ≡ true
      bits_saved m h taken = bits_kept m h ∙ g.bits m h taken
