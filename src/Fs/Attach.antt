-- ===== src/Fs/Attach.antt =====
-- src/fs.rs: the rounds of the first loop of `write`, which give a file one more block each.
use operating_system_experie.Base.{
  ℕ, suc, ◌+◌, ◌-◌, ◌*◌, ◌%◌, ◌^◌, ◌<◌, ◌≡◌, ◌≢◌, ◌⊎◌, inl, inr, refl, ap, sym, ◌∙◌, Bool, true,
  false, arith, block_size, if◌then◌else◌, ◌==◌, ltb, leb, Bool-cases, ==_of_ne, ==_of_eq,
}
use operating_system_experie.Base.Slices.{zeros, length-zeros, zeros-IsBytes}
use native.Mathlib.Decide.{dec_lt}
use operating_system_experie.Base.Outcome.{Outcome, ok, ok_inj, panic, ◌>>=◌}
use operating_system_experie.Device.{Device, IsBlock}
use operating_system_experie.Superblock.{SuperBlock}
use operating_system_experie.Bitmap.{allocate_block}
use operating_system_experie.Bitmap.Mark.{bit_at}
use operating_system_experie.Bitmap.Alloc.{Allocated}
use operating_system_experie.Bitmap.Guard.{IsGuarded}
use operating_system_experie.Bitmap.Spared.{
  Claimed, Claimed-same, Claimed-put, Allocated-Claimed, kept_bit, chosen_bit,
}
use operating_system_experie.Inode.{Inode, IsTyped, direct_count, set_block}
use operating_system_experie.Inode.BlockMap.{pointer_at, pointer_at-same, Set, set_block-Set}
use operating_system_experie.Fs.Contents.{max_file_blocks, attach, grow}
use operating_system_experie.Fs.Grown.{HasIndirect, IsLaidOut, need-IsSpared}
use operating_system_experie.Fs.OneMore.{OneMore, OneMore-Grown, Round}

-- The inode with its block counted.
abbrev pub counted : Inode → Inode
counted i = record i { block_count = (i.block_count + 1) % 2 ^ 16 }

pub counted-IsTyped : (i : Inode) → IsTyped i → IsTyped (counted i)
counted-IsTyped i t = record {
  inode_no = t.inode_no;
  mode = t.mode;
  uid = t.uid;
  gid = t.gid;
  size = t.size;
  nlink = t.nlink;
  block_count = omega arith;
  mtime = t.mtime;
  atime = t.atime;
  ctime = t.ctime;
  direct_length = t.direct_length;
  direct_blocks = t.direct_blocks;
  indirect_block = t.indirect_block;
}

pub zeros-IsBlock : IsBlock (zeros block_size)
zeros-IsBlock = (length-zeros block_size, zeros-IsBytes block_size)

clash : (b : Bool) → b ≡ true → b ≡ false → ⊥
clash b t f = cc

module _ ⦃dev : Device⦄ where
  open dev use {Disk, read_block, write_block, blocks, block, put}

  with_superblock :
      (sb : SuperBlock) (i i' : Inode) (o : Outcome Disk) (d' : Disk)
      → ◌>>=◌ {B = Disk × Inode} o (λ d. ok (d, i)) ≡ ok (d', i')
      → ◌>>=◌ {B = Disk × SuperBlock × Inode} o (λ d. ok (d, sb, i)) ≡ ok (d', sb, i')
  with_superblock sb i i' (ok d) d' e = ap (λ r. ok (r.0, sb, r.1)) (ok_inj e)
  with_superblock sb i i' panic d' e = absurd cc

  -- But for the new indirect block, a block is attached as `set_block` would.
  attach-set_block :
      (d : Disk) (sb : SuperBlock) (i : Inode) (n : ℕ) (s : Set i d i.block_count n)
      → i.block_count ≢ direct_count
      → i.block_count < max_file_blocks
      → i.indirect_block < blocks d
      → attach d sb i n ≡ ok (s.disk, sb, s.inode)
  unfolding attach set_block
  attach-set_block d sb i n s ne few h = elim (Bool-cases (ltb i.block_count direct_count)) [
    | inl low ↦
        let same = ok_inj (rw (set_block, low) at s.returns) in
        rw (attach, low) (ap (λ r. ok (r.0, sb, r.1)) same)
    | inr high ↦
        let found = dev.read_block-ok d i.indirect_block h in
        let inside : leb ((i.block_count - direct_count) * 2 + 2) block_size ≡ true =
          ground arith in
        rw (attach, high, ==_of_ne i.block_count direct_count ne, found, ◌>>=◌, inside)
          (with_superblock sb i s.inode (write_block d i.indirect_block _) s.disk
            (rw (set_block, high, found, ◌>>=◌, inside) at s.returns))
  ]

  -- One round in which no indirect block is made.
  module _ (d : Disk) (sb : SuperBlock) (i : Inode) (t : IsTyped i) (g : IsGuarded d sb)
      (l : IsLaidOut d i) (room : i.block_count < max_file_blocks)
      (a : Allocated d sb (allocate_block d sb)) (ne : i.block_count ≢ direct_count) where
    -- An indirect block is there only if it is needed.
    needed : i.indirect_block ≢ 0 → direct_count < i.block_count
    needed some_block = elim (dec_lt direct_count i.block_count) [
      | yes lt ↦ lt
      | no ge ↦ absurd (some_block (l.indirect.none_yet (omega arith)))
    ]

    start : Claimed d sb a.chosen a.disk a.after
    start = Allocated-Claimed d sb g a

    inside : i.indirect_block < blocks a.disk
    inside = omega (arith, l.indirect.inside, a.consistent.full)

    s : Set i a.disk i.block_count a.chosen
    s =
        set_block-Set i a.disk i.block_count a.chosen t (omega (arith, a.first.below)) (omega arith)
          (λ above. omega (arith, l.indirect.behind (omega (arith, ne)))) inside

    same_indirect : s.inode.indirect_block ≡ i.indirect_block
    same_indirect = ap (λ j. j.indirect_block) s.kept

    same_count : s.inode.block_count ≡ i.block_count
    same_count = ap (λ j. j.block_count) s.kept

    behind_table : (m : ℕ) → m < 6 → (i.block_count < direct_count) ⊎ (m ≢ i.indirect_block)
    behind_table m h = elim (dec_lt i.block_count direct_count) [
      | yes low ↦ inl low
      | no high ↦ inr (omega (arith, ne, l.indirect.behind (omega (arith, ne))))
    ]

    attached : Claimed d sb a.chosen s.disk a.after
    attached =
        Claimed-same d sb a.chosen a.disk a.after start s.disk s.size
          (λ m h. s.others m (behind_table m h))

    abbrev disk : Disk
    disk = put s.disk a.chosen (zeros block_size)

    done : Claimed d sb a.chosen disk a.after
    done =
        Claimed-put d sb a.chosen s.disk a.after attached a.chosen (zeros block_size) start.behind
          start.below zeros-IsBlock

    room_there : a.chosen < blocks s.disk
    room_there = omega (arith, s.size, a.first.below, a.consistent.full)

    block_after :
        (m : ℕ) → block disk m ≡ (if a.chosen == m then zeros block_size else block s.disk m)
    block_after m = dev.block-put s.disk a.chosen (zeros block_size) m room_there zeros-IsBlock

    block_there : (m : ℕ) → a.chosen ≢ m → block disk m ≡ block s.disk m
    block_there m away = block_after m ∙ rw (==_of_ne a.chosen m away) refl

    not_indirect : i.indirect_block ≢ 0 → a.chosen ≢ i.indirect_block
    not_indirect some_block same =
        clash (bit_at d a.chosen) (ap (bit_at d) same ∙ l.indirect.taken (needed some_block))
          a.first.clear

    pointers_after :
        (k : ℕ)
        → pointer_at s.inode disk k ≡ (if i.block_count == k then a.chosen else pointer_at i d k)
    pointers_after k =
        pointer_at-same s.inode s.disk disk
          (λ some_block.
            block_there s.inode.indirect_block
              (λ same. not_indirect (λ z. some_block (same_indirect ∙ z)) (same ∙ same_indirect)))
          k
        ∙ s.pointers k
        ∙ ap (λ p. if i.block_count == k then a.chosen else p)
            (pointer_at-same i d a.disk
              (λ some_block.
                a.others i.indirect_block (omega (arith, l.indirect.behind (needed some_block))))
              k)

    old : (k : ℕ) → k < i.block_count → pointer_at s.inode disk k ≡ pointer_at i d k
    old k h = pointers_after k ∙ rw (==_of_ne i.block_count k (omega arith)) refl

    new : pointer_at s.inode disk i.block_count ≡ a.chosen
    new = pointers_after i.block_count ∙ rw (==_of_eq i.block_count i.block_count refl) refl

    not_zero : direct_count < i.block_count → i.indirect_block ≢ 0
    not_zero lt = omega (arith, l.indirect.behind lt)

    beside_after : (k : ℕ) → k < suc i.block_count → pointer_at s.inode disk k ≢ i.indirect_block
    beside_after k h same = elim (dec_lt k i.block_count) [
      | yes lt ↦ l.indirect.beside k lt (sym (old k lt) ∙ same)
      | no ge ↦
          let last : k ≡ i.block_count = omega arith in
          let chosen : a.chosen ≡ i.indirect_block =
            sym (ap (pointer_at s.inode disk) last ∙ new) ∙ same in
          not_indirect (omega (arith, chosen, start.behind)) chosen
    ]

    abbrev inode : Inode
    inode = counted s.inode

    count : inode.block_count ≡ suc i.block_count
    count = omega (arith, same_count, room)

    indirect_after : HasIndirect disk inode
    indirect_after = record {
      none_yet = λ h. same_indirect ∙ l.indirect.none_yet (omega (arith, count));
      behind = λ h. omega (arith, same_indirect, l.indirect.behind (omega (arith, count, ne)));
      inside = omega (arith, same_indirect, l.indirect.inside);
      taken = λ h.
          ap (bit_at disk) same_indirect
          ∙ kept_bit d sb a.chosen disk a.after done i.indirect_block l.indirect.inside
              (l.indirect.taken (omega (arith, count, ne)));
      beside = λ k h same. beside_after k (omega (arith, count)) (same ∙ same_indirect);
    }

    one_more : OneMore d sb i a.chosen disk a.after inode
    one_more = record {
      used = 1;
      used_free = omega (arith, done.one_less);
      count = count;
      kept =
          ap {A = Inode} {B = Inode}
            (λ j. record j {
              direct_blocks = inode.direct_blocks;
              indirect_block = inode.indirect_block;
              block_count = inode.block_count;
            })
            s.kept;
      typed = counted-IsTyped s.inode s.typed;
      guarded = done.guarded;
      behind = done.behind;
      below = done.below;
      clear = done.clear;
      taken = chosen_bit d sb a.chosen disk a.after done;
      old = old;
      new = new;
      zeroed = block_after a.chosen ∙ rw (==_of_eq a.chosen a.chosen refl) refl;
      others = λ m lo b c away.
          block_there m (λ same. away (sym same)) ∙ s.others m (inr b) ∙ a.others m lo;
      bits = kept_bit d sb a.chosen disk a.after done;
      indirect = indirect_after;
      same_indirect = inl same_indirect;
      spared = λ h rest below still.
          let (away, after) =
            done.spared h rest below
              (need-IsSpared d (1 + rest) (suc rest) h (omega arith) still) in
          (after, away, λ same. sym same_indirect ∙ same);
      size = done.size;
      table = done.table;
    }

    pub attached-Round : Round d sb i
    unfolding grow
    attached-Round = record {
      disk = disk;
      after = a.after;
      inode = inode;
      returns = λ left.
          rw
            (
              a.returns,
              ◌>>=◌,
              attach-set_block a.disk a.after i a.chosen s ne room inside,
              dev.write_block-ok s.disk a.chosen (zeros block_size) room_there zeros-IsBlock,
            )
            refl;
      grown = OneMore-Grown d sb i a.chosen disk a.after inode l room one_more;
      count = count;
      cost = rw (==_of_ne i.block_count direct_count ne) (omega (arith, done.one_less));
    }
