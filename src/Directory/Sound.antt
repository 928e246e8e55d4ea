-- ===== src/Directory/Sound.antt =====
-- What a change of a directory leaves alone: the blocks that others have taken.
use operating_system_experie.Base.{
  ℕ, ◌/◌, ◌≤◌, ◌<◌, ◌≡◌, ◌≢◌, ◌⊎◌, inl, inr, Bool, false, refl, sym, ap, ap₂, ◌+◌, ◌∙◌, true, List,
  arith, max_blocks,
}
use operating_system_experie.Device.{Device}
use operating_system_experie.Superblock.{SuperBlock}
use operating_system_experie.Bitmap.Mark.{bit_at}
use operating_system_experie.Bitmap.Keep.{bit_at-same}
use operating_system_experie.Bitmap.Guard.{IsGuarded, same-IsGuarded}
use operating_system_experie.Inode.{Inode, read_inode}
use operating_system_experie.Inode.Table.{home, InImage}
use operating_system_experie.Directory.{entries_per_block}
use operating_system_experie.Directory.Slots.{ptr, slots}
use operating_system_experie.Directory.Patch.{Patched, touched}
use operating_system_experie.Directory.Effect.{IsDirectory}

module _ ⦃dev : Device⦄ where
  open dev use {Disk, blocks, block}

  -- The blocks of a directory and of its inode are taken, so that none of them is handed out.
  pub record IsTaken (d : Disk) (sb : SuperBlock) (dir : Inode) : Type 0 where
    pub behind : (k : ℕ) → k < dir.block_count → 31 ≤ ptr dir k
    pub inside : (k : ℕ) → k < dir.block_count → ptr dir k < max_blocks
    pub taken : (k : ℕ) → k < dir.block_count → bit_at d (ptr dir k) ≡ true
    pub inode_inside : home sb dir.inode_no < max_blocks
    pub inode_taken : bit_at d (home sb dir.inode_no) ≡ true

  -- A well-formed directory on a consistent disk that hands out none of its blocks.
  pub record IsSound (d : Disk) (sb : SuperBlock) (dir : Inode) : Type 0 where
    pub directory : IsDirectory d sb dir
    pub guarded : IsGuarded d sb
    pub held : IsTaken d sb dir

  -- What a change does to the rest of the disk: the data blocks that are taken and neither the
  -- directory's nor its inode's keep their bytes, no bit is cleared, and a new block of the directory
  -- was free. The inodes that do not lie in the directory's blocks stay.
  pub record Keeps (d : Disk) (sb : SuperBlock) (dir : Inode) (e : Disk) (sb' : SuperBlock)
      (dir' : Inode) : Type 0 where
    pub others :
        (k : ℕ)
        → 31 ≤ k
        → k < max_blocks
        → bit_at d k ≡ true
        → k ≢ home sb dir.inode_no
        → ((j : ℕ) → j < dir.block_count → k ≢ ptr dir j)
        → block e k ≡ block d k
    pub bits : (m : ℕ) → m < max_blocks → bit_at d m ≡ true → bit_at e m ≡ true
    pub inodes :
        (n : ℕ)
        → n ≢ dir.inode_no
        → InImage d sb n
        → ((j : ℕ) → j < dir'.block_count → home sb n ≢ ptr dir' j)
        → read_inode e sb' n ≡ read_inode d sb n
    pub number : dir'.inode_no ≡ dir.inode_no
    pub table : sb'.inode_table_start ≡ sb.inode_table_start
    pub size : blocks e ≡ blocks d
    pub blocks_kept :
        (j : ℕ) → j < dir.block_count → (j < dir'.block_count) × (ptr dir' j ≡ ptr dir j)
    pub blocks_new :
        (j : ℕ)
        → j < dir'.block_count
        → ((i : ℕ) × (i < dir.block_count) × (ptr dir' j ≡ ptr dir i))
          ⊎ (bit_at d (ptr dir' j) ≡ false)

  pub Keeps-refl : (d : Disk) (sb : SuperBlock) (dir : Inode) → Keeps d sb dir d sb dir
  Keeps-refl d sb dir = record {
    others = λ k lo hi used h away. refl;
    bits = λ m h used. used;
    inodes = λ n ne h away. refl;
    number = refl;
    table = refl;
    size = refl;
    blocks_kept = λ j h. (h, refl);
    blocks_new = λ j h. inl (j, h, refl);
  }

  clash : (b : Bool) → b ≡ true → b ≡ false → ⊥
  clash b t f = cc

  false_before : (b c : Bool) → (b ≡ true → c ≡ true) → c ≡ false → b ≡ false
  false_before true c h e = absurd (clash c (h refl) e)
  false_before false c h e = refl

  module _ (d e f : Disk) (sb sb' sb'' : SuperBlock) (dir dir' dir'' : Inode)
      (p : Keeps d sb dir e sb' dir') (q : Keeps e sb' dir' f sb'' dir'')
      (inside : (j : ℕ) → j < dir''.block_count → ptr dir'' j < max_blocks) where
    still_away :
        (k : ℕ)
        → bit_at d k ≡ true
        → ((j : ℕ) → j < dir.block_count → k ≢ ptr dir j)
        → (j : ℕ) → j < dir'.block_count
        → k ≢ ptr dir' j
    still_away k used away j h same = elim (p.blocks_new j h) [
      | inl (i, below, old) ↦ away i below (same ∙ old)
      | inr new ↦ clash (bit_at d k) used (ap (bit_at d) same ∙ new)
    ]

    home_same : home sb' dir'.inode_no ≡ home sb dir.inode_no
    home_same = ap₂ (λ t n. t + n / 6) p.table p.number

    pub Keeps-trans : Keeps d sb dir f sb'' dir''
    Keeps-trans = record {
      others = λ k lo hi used h away.
          q.others k lo hi (p.bits k hi used) (λ same. h (same ∙ home_same))
            (still_away k used away)
          ∙ p.others k lo hi used h away;
      bits = λ m h used. q.bits m h (p.bits m h used);
      inodes = λ n ne h away.
          q.inodes n (λ same. ne (same ∙ p.number))
            (omega (arith, h.0, p.table), omega (arith, h.1, p.table, p.size))
            (λ j below same. away j below (omega (arith, p.table, same)))
          ∙ p.inodes n ne h (λ j below same.
            away j (q.blocks_kept j below).0 (same ∙ sym (q.blocks_kept j below).1));
      number = q.number ∙ p.number;
      table = q.table ∙ p.table;
      size = q.size ∙ p.size;
      blocks_kept = λ j h.
          let one = p.blocks_kept j h in let two = q.blocks_kept j one.0 in (two.0, two.1 ∙ one.1);
      blocks_new = λ j h. elim (q.blocks_new j h) [
        | inl (i, below, old) ↦ elim (p.blocks_new i below) [
          | inl (i', below', old') ↦ inl (i', below', old ∙ old')
          | inr new ↦ inr (ap (bit_at d) old ∙ new)
        ]
        | inr new ↦ inr (
            false_before (bit_at d (ptr dir'' j)) (bit_at e (ptr dir'' j))
              (p.bits (ptr dir'' j) (inside j h)) new)
      ];
    }

  module _ (d : Disk) (sb : SuperBlock) (dir : Inode) (now s : ℕ) (buf : List ℕ)
      (p : Patched d sb dir now s buf) (below : s < slots dir) (g : IsGuarded d sb)
      (t : IsTaken d sb dir) where
    low : (k : ℕ) → k < 6 → block p.disk k ≡ block d k
    low k h =
        p.others k (omega (arith, g.table))
          (omega (arith, t.behind (s / entries_per_block) (omega arith)))

    pub patched_bits : (m : ℕ) → m < max_blocks → bit_at p.disk m ≡ bit_at d m
    patched_bits = bit_at-same d p.disk (λ k lo hi. low k hi)

    pub patched-IsGuarded : IsGuarded p.disk sb
    patched-IsGuarded = same-IsGuarded d sb g p.disk p.size low

    pub patched-IsTaken : IsTaken p.disk sb (touched dir now)
    patched-IsTaken = record {
      behind = t.behind;
      inside = t.inside;
      taken = λ k h. patched_bits (ptr dir k) (t.inside k h) ∙ t.taken k h;
      inode_inside = t.inode_inside;
      inode_taken = patched_bits (home sb dir.inode_no) t.inode_inside ∙ t.inode_taken;
    }

    pub patched-Keeps : Keeps d sb dir p.disk sb (touched dir now)
    patched-Keeps = record {
      others = λ k lo hi used h away. p.others k h (away (s / entries_per_block) (omega arith));
      bits = λ m h used. patched_bits m h ∙ used;
      inodes = λ n ne h away. p.inodes n ne h (away (s / entries_per_block) (omega arith));
      number = refl;
      table = refl;
      size = p.size;
      blocks_kept = λ j h. (h, refl);
      blocks_new = λ j h. inl (j, h, refl);
    }
