-- ===== src/Inode/BlockMap.antt =====
-- The blocks of a file, and the permission test.
use operating_system_experie.Base.{
  ℕ, zero, suc, [], ◌∷◌, length-set, sym, ◌+◌, ◌-◌, ◌*◌, ◌%◌, ◌^◌, ◌≤◌, ◌<◌, ◌≡◌, ◌≢◌, ◌⊎◌, refl,
  ap, ◌∙◌, List, arith, if◌then◌else◌, ◌==◌, ltb, Bool-cases, inl, inr, eq_of_==, ne_of_==,
  ==_of_ne, ==_of_eq, block_size, page_size, set, get_or, not, get_or-set_self, get_or-set_ne,
  lt→ltb, le→ltb, le→leb, lt→leb,
}
use operating_system_experie.Base.Slices.{
  splice, length-splice, slice-splice_self, slice-splice_ne, splice-IsBytes,
}
use operating_system_experie.Base.Endian.{
  to_le_bytes, from_le_bytes, from_le_bytes-to_le_bytes, u16_at, to_le_bytes-IsBytes,
}
use operating_system_experie.Base.Outcome.{ok, panic}
use native.Mathlib.Decide.{dec_lt}
use operating_system_experie.Device.{Device, IsBlock}
use operating_system_experie.Inode.{
  Inode, IsTyped, IsPointers, direct_count, nonzero, get_block, set_block,
}

-- The number of block pointers of an inode: 10 direct ones, and 255 in the page of the indirect
-- block.
abbrev pub pointer_count : ℕ
pointer_count = 265

pub set-IsPointers : (ps : List ℕ) (k n : ℕ) → IsPointers ps → n < 2 ^ 32 → IsPointers (set ps k n)
set-IsPointers [] k n h small i = h i
set-IsPointers (p ∷ ps) zero n h small zero = small
set-IsPointers (p ∷ ps) zero n h small (suc i) = h (suc i)
set-IsPointers (p ∷ ps) (suc k) n h small zero = h 0
set-IsPointers (p ∷ ps) (suc k) n h small (suc i) = set-IsPointers ps k n (λ j. h (suc j)) small i

set_pointer-IsTyped :
    (i : Inode) (k n : ℕ)
    → n < 2 ^ 32
    → IsTyped i
    → IsTyped (record i { direct_blocks = set i.direct_blocks k n })
set_pointer-IsTyped i k n small t = record {
  inode_no = t.inode_no;
  mode = t.mode;
  uid = t.uid;
  gid = t.gid;
  size = t.size;
  nlink = t.nlink;
  block_count = t.block_count;
  mtime = t.mtime;
  atime = t.atime;
  ctime = t.ctime;
  direct_length = length-set i.direct_blocks k n ∙ t.direct_length;
  direct_blocks = set-IsPointers i.direct_blocks k n t.direct_blocks small;
  indirect_block = t.indirect_block;
}

module _ ⦃dev : Device⦄ where
  open dev use {Disk, blocks, block, put}

  -- The pointer at an index: what the block map of the inode holds there.
  abbrev pub pointer_at : Inode → Disk → ℕ → ℕ
  pointer_at i d index =
      if ltb index direct_count
      then get_or i.direct_blocks index 0
      else if i.indirect_block == 0
      then 0
      else if ltb index pointer_count
      then u16_at ((index - direct_count) * 2) (block d i.indirect_block)
      else 0

  -- The block map is in the inode and its indirect block.
  pub pointer_at-same :
      (i : Inode) (d e : Disk)
      → (i.indirect_block ≢ 0 → block e i.indirect_block ≡ block d i.indirect_block)
      → (k : ℕ) → pointer_at i e k ≡ pointer_at i d k
  pointer_at-same i d e same k = elim (Bool-cases (i.indirect_block == 0)) [
    | inl none ↦ rw none refl
    | inr there ↦ rw (same (ne_of_== i.indirect_block 0 there)) refl
  ]

  -- `get_block` reads the block map: a pointer of 0, no indirect block, and an index past the last
  -- pointer all give `None`.
  pub get_block_lem :
      (i : Inode) (d : Disk) (index : ℕ)
      → i.indirect_block < blocks d
      → get_block i d index ≡ ok (nonzero (pointer_at i d index))
  unfolding get_block
  get_block_lem i d index h = elim (Bool-cases (ltb index direct_count)) [
    | inl direct ↦ rw (get_block, direct) refl
    | inr past ↦ elim (Bool-cases (i.indirect_block == 0)) [
      | inl e ↦ rw (get_block, past, e) refl
      | inr e ↦
          rw (get_block, past, e, dev.read_block-ok d i.indirect_block h, page index (ground arith))
            (elim (Bool-cases (ltb index pointer_count)) [
              | inl inside ↦ rw inside refl
              | inr outside ↦ rw outside refl
            ])
    ]
  ]
    where
      page :
          (index : ℕ)
          → 10 ≤ index
          → ltb page_size ((index - direct_count) * 2 + 2) ≡ not (ltb index pointer_count)
      page index h = ground arith

  -- After `set_block` the pointer at the index is the block number, and every other pointer and every
  -- block but the indirect one stay.
  pub record Set (i : Inode) (d : Disk) (index block_num : ℕ) : Type 0 where
    pub disk : Disk
    pub inode : Inode
    pub returns : set_block i d index block_num ≡ ok (disk, inode)
    pub pointers :
        (m : ℕ) → pointer_at inode disk m ≡ (if index == m then block_num else pointer_at i d m)
    pub size : blocks disk ≡ blocks d
    pub kept : inode ≡ record i { direct_blocks = inode.direct_blocks }
    pub typed : IsTyped inode
    pub others :
        (k : ℕ) → (index < direct_count) ⊎ (k ≢ i.indirect_block) → block disk k ≡ block d k

  set_direct :
      (i : Inode) (d : Disk) (index block_num : ℕ)
      → IsTyped i
      → block_num < 2 ^ 16
      → index < direct_count
      → Set i d index block_num
  unfolding set_block
  set_direct i d index block_num t small h = record {
    disk = d;
    inode = record i { direct_blocks = set i.direct_blocks index block_num };
    returns = rw (set_block, lt→ltb index direct_count h) refl;
    pointers = λ m. elim (Bool-cases (index == m)) [
      | inl e ↦
          let same = eq_of_== index m e in
          rw (e, ← same, lt→ltb index direct_count h)
            (get_or-set_self i.direct_blocks index block_num 0 (omega (arith, t.direct_length)))
      | inr e ↦ rw (e, get_or-set_ne i.direct_blocks index m block_num 0 (ne_of_== index m e)) refl
    ];
    size = refl;
    kept = refl;
    typed = set_pointer-IsTyped i index block_num (omega arith) t;
    others = λ k h. refl;
  }

  module _ (i : Inode) (d : Disk) (index block_num : ℕ) (t : IsTyped i) (small : block_num < 2 ^ 16)
      (lo : direct_count ≤ index) (hi : index < pointer_count) (some_block : i.indirect_block ≢ 0)
      (h : i.indirect_block < blocks d) where
    abbrev at : ℕ
    at = (index - direct_count) * 2

    abbrev word : List ℕ
    word = to_le_bytes 2 (block_num % 2 ^ 16)

    abbrev old : List ℕ
    old = block d i.indirect_block

    abbrev new : List ℕ
    new = splice at word old

    new-IsBlock : IsBlock new
    new-IsBlock = (
      length-splice at word old ∙ (dev.block-IsBlock d i.indirect_block h).0,
      splice-IsBytes at word old (to_le_bytes-IsBytes 2 (block_num % 2 ^ 16))
          (dev.block-IsBlock d i.indirect_block h).1,
    )

    abbrev after : Disk
    after = put d i.indirect_block new

    stored : block after i.indirect_block ≡ new
    stored =
        dev.block-put d i.indirect_block new i.indirect_block h new-IsBlock
        ∙ rw (==_of_eq i.indirect_block i.indirect_block refl) refl

    read_self : u16_at at new ≡ block_num
    read_self =
        ap from_le_bytes (
          slice-splice_self at word old (omega (arith, (dev.block-IsBlock d i.indirect_block h).0)))
        ∙ from_le_bytes-to_le_bytes 2 (block_num % 2 ^ 16) (omega arith)
        ∙ omega arith

    read_other :
        (m : ℕ)
        → index ≢ m
        → direct_count ≤ m
        → u16_at ((m - direct_count) * 2) new ≡ u16_at ((m - direct_count) * 2) old
    read_other m ne above =
        ap from_le_bytes (slice-splice_ne ((m - direct_count) * 2) 2 at word old (omega arith))

    pointers_after :
        (m : ℕ) → pointer_at i after m ≡ (if index == m then block_num else pointer_at i d m)
    pointers_after m = rw stored (elim (Bool-cases (index == m)) [
      | inl e ↦
          let same = eq_of_== index m e in
          rw
            (
              e,
              ← same,
              le→ltb index direct_count lo,
              ==_of_ne i.indirect_block 0 some_block,
              lt→ltb index pointer_count hi,
            )
            read_self
      | inr e ↦ elim (Bool-cases (ltb m direct_count)) [
        | inl low ↦ rw (e, low) refl
        | inr high ↦
            rw (e, high, ==_of_ne i.indirect_block 0 some_block)
              (ap (λ v. if ltb m pointer_count then v else 0)
                (read_other m (ne_of_== index m e) (ground arith)))
      ]
    ])

    set_indirect : Set i d index block_num
    unfolding set_block
    set_indirect = record {
      disk = after;
      inode = i;
      returns = rw (
        set_block,
        le→ltb index direct_count lo,
        dev.read_block-ok d i.indirect_block h,
        le→leb (at + 2) block_size (omega arith),
        dev.write_block-ok d i.indirect_block new h new-IsBlock,
      );
      pointers = pointers_after;
      size = dev.blocks-put d i.indirect_block new h new-IsBlock;
      kept = refl;
      typed = t;
      others = λ k beside.
          dev.block-put d i.indirect_block new k h new-IsBlock
          ∙ rw (==_of_ne i.indirect_block k (elsewhere k beside)) refl;
    }
      where
        elsewhere : (k : ℕ) → (index < direct_count) ⊎ (k ≢ i.indirect_block) → i.indirect_block ≢ k
        elsewhere k (inl low) = absurd (omega arith)
        elsewhere k (inr away) = λ same. away (sym same)

  -- `set_block` at an index that has a pointer, with an indirect block where one is needed.
  pub set_block-Set :
      (i : Inode) (d : Disk) (index block_num : ℕ)
      → IsTyped i
      → block_num < 2 ^ 16
      → index < pointer_count
      → (direct_count ≤ index → i.indirect_block ≢ 0)
      → i.indirect_block < blocks d
      → Set i d index block_num
  set_block-Set i d index block_num t small hi needed h = elim (dec_lt index direct_count) [
    | yes low ↦ set_direct i d index block_num t small low
    | no high ↦ set_indirect i d index block_num t small (omega arith) hi (needed (omega arith)) h
  ]

  -- An index past the last byte of the indirect block makes `set_block` panic.
  pub set_block-panic :
      (i : Inode) (d : Disk) (index block_num : ℕ)
      → i.indirect_block < blocks d
      → 266 ≤ index
      → set_block i d index block_num ≡ panic
  unfolding set_block
  set_block-panic i d index block_num h past = rw (
    set_block,
    le→ltb index direct_count (omega arith),
    dev.read_block-ok d i.indirect_block h,
    lt→leb ((index - direct_count) * 2 + 2) block_size (omega arith),
  )
