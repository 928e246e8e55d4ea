-- ===== src/Fs/AttachIndirect.antt =====
-- src/fs.rs: the round of the first loop of `write` that makes the indirect block of a file.
use operating_system_experie.Base.{
  ℕ, suc, ◌+◌, ◌%◌, ◌^◌, ◌<◌, ◌≡◌, ◌≢◌, inr, refl, ap, sym, ◌∙◌, Bool, true, false, arith,
  max_blocks, block_size, List, if◌then◌else◌, ◌==◌, lt→ltb, le→ltb, ==_of_ne, ==_of_eq,
}
use operating_system_experie.Base.Slices.{
  zeros, splice, length-zeros, zeros-IsBytes, length-splice, splice-IsBytes, slice-splice_self,
}
use operating_system_experie.Base.Endian.{
  to_le_bytes, from_le_bytes, from_le_bytes-to_le_bytes, u16_at, to_le_bytes-IsBytes,
}
use native.Mathlib.Decide.{dec_lt}
use operating_system_experie.Base.Outcome.{◌>>=◌, expect}
use operating_system_experie.Device.{Device, IsBlock}
use operating_system_experie.Superblock.{SuperBlock}
use operating_system_experie.Bitmap.{allocate_block}
use operating_system_experie.Bitmap.Mark.{bit_at}
use operating_system_experie.Bitmap.Alloc.{Allocated}
use operating_system_experie.Bitmap.Guard.{IsGuarded}
use operating_system_experie.Bitmap.Spared.{
  Claimed, Claimed-put, Allocated-Claimed, kept_bit, chosen_bit,
}
use operating_system_experie.Inode.{Inode, IsTyped, direct_count}
use operating_system_experie.Inode.BlockMap.{pointer_at}
use operating_system_experie.Fs.Contents.{attach, attach_indirect, grow}
use operating_system_experie.Fs.Grown.{IsLaidOut, need-IsSpared}
use operating_system_experie.Fs.OneMore.{OneMore, OneMore-Grown, Round}
use operating_system_experie.Fs.Attach.{counted, counted-IsTyped, zeros-IsBlock}

clash : (b : Bool) → b ≡ true → b ≡ false → ⊥
clash b t f = cc

-- The inode with an indirect block.
abbrev with_indirect : Inode → ℕ → Inode
with_indirect i n = record i { indirect_block = n }

with_indirect-IsTyped : (i : Inode) (n : ℕ) → n < 2 ^ 32 → IsTyped i → IsTyped (with_indirect i n)
with_indirect-IsTyped i n small t = record {
  inode_no = t.inode_no;
  mode = t.mode;
  uid = t.uid;
  gid = t.gid;
  size = t.size;
  nlink = t.nlink;
  block_count = t.block_count;
  mtime = t.mtime;
  atime = t.atime;
  ctime = t.ctime;
  direct_length = t.direct_length;
  direct_blocks = t.direct_blocks;
  indirect_block = small;
}

-- The new indirect block, and its first pointer.
first_pointers : ℕ → List ℕ
first_pointers n = splice 0 (to_le_bytes 2 (n % 2 ^ 16)) (zeros block_size)

first_pointers-IsBlock : (n : ℕ) → IsBlock (first_pointers n)
unfolding first_pointers
first_pointers-IsBlock n = (
  length-splice 0 (to_le_bytes 2 (n % 2 ^ 16)) (zeros block_size) ∙ length-zeros block_size,
  splice-IsBytes 0 (to_le_bytes 2 (n % 2 ^ 16)) (zeros block_size)
      (to_le_bytes-IsBytes 2 (n % 2 ^ 16)) (zeros-IsBytes block_size),
)

u16_at-first_pointers : (n : ℕ) → n < 2 ^ 16 → u16_at 0 (first_pointers n) ≡ n
unfolding first_pointers
u16_at-first_pointers n small =
    ap from_le_bytes (
      slice-splice_self 0 (to_le_bytes 2 (n % 2 ^ 16)) (zeros block_size)
        (omega (arith, length-zeros block_size)))
    ∙ from_le_bytes-to_le_bytes 2 (n % 2 ^ 16) (omega arith)
    ∙ omega arith

module _ ⦃dev : Device⦄ where
  open dev use {Disk, blocks, block, put}

  module _ (d : Disk) (sb : SuperBlock) (i : Inode) (t : IsTyped i) (g : IsGuarded d sb)
      (l : IsLaidOut d i) (full : i.block_count ≡ direct_count)
      (a : Allocated d sb (allocate_block d sb))
      (b : Allocated a.disk a.after (allocate_block a.disk a.after)) where
    abbrev n : ℕ
    n = a.chosen

    abbrev x : ℕ
    x = b.chosen

    first : Claimed d sb n a.disk a.after
    first = Allocated-Claimed d sb g a

    second : Claimed a.disk a.after x b.disk b.after
    second = Allocated-Claimed a.disk a.after first.guarded b

    abbrev pointing : Disk
    pointing = put b.disk x (first_pointers n)

    linked : Claimed a.disk a.after x pointing b.after
    linked =
        Claimed-put a.disk a.after x b.disk b.after second x (first_pointers n) second.behind
          second.below (first_pointers-IsBlock n)

    abbrev disk : Disk
    disk = put pointing n (zeros block_size)

    done : Claimed a.disk a.after x disk b.after
    done =
        Claimed-put a.disk a.after x pointing b.after linked n (zeros block_size) first.behind
          first.below zeros-IsBlock

    inside_x : x < blocks b.disk
    inside_x = omega (arith, second.below, second.guarded.consistent.full)

    inside_n : n < blocks pointing
    inside_n = omega (arith, first.below, linked.guarded.consistent.full)

    -- The blocks that are taken in between are not the indirect one.
    not_x : (m : ℕ) → bit_at a.disk m ≡ true → m ≢ x
    not_x m taken same =
        clash (bit_at a.disk x) (ap (bit_at a.disk) (sym same) ∙ taken) second.clear

    n_not_x : n ≢ x
    n_not_x = not_x n (chosen_bit d sb n a.disk a.after first)

    block_there : (m : ℕ) → n ≢ m → block disk m ≡ block pointing m
    block_there m away =
        dev.block-put pointing n (zeros block_size) m inside_n zeros-IsBlock
        ∙ rw (==_of_ne n m away) refl

    pointing_at : (m : ℕ) → block pointing m ≡ (if x == m then first_pointers n else block b.disk m)
    pointing_at m = dev.block-put b.disk x (first_pointers n) m inside_x (first_pointers-IsBlock n)

    abbrev inode : Inode
    inode = counted (with_indirect i x)

    count : inode.block_count ≡ suc i.block_count
    count = omega (arith, full)

    old : (k : ℕ) → k < i.block_count → pointer_at inode disk k ≡ pointer_at i d k
    old k h = rw (lt→ltb k direct_count (omega (arith, full))) refl

    new : pointer_at inode disk i.block_count ≡ n
    new =
        let stored : block disk x ≡ first_pointers n =
          block_there x n_not_x ∙ pointing_at x ∙ rw (==_of_eq x x refl) refl in
        ap (pointer_at inode disk) full
        ∙ rw (==_of_ne x 0 (omega (arith, second.behind)))
            (ap (u16_at 0) stored ∙ u16_at-first_pointers n (omega (arith, first.below)))

    bits : (m : ℕ) → m < max_blocks → bit_at d m ≡ true → bit_at disk m ≡ true
    bits m h used =
        kept_bit a.disk a.after x disk b.after done m h
          (kept_bit d sb n a.disk a.after first m h used)

    beside : (k : ℕ) → k < suc i.block_count → pointer_at inode disk k ≢ x
    beside k h same = elim (dec_lt k i.block_count) [
      | yes lt ↦
          not_x (pointer_at i d k)
            (kept_bit d sb n a.disk a.after first (pointer_at i d k) (l.inside k lt) (l.taken k lt))
            (sym (old k lt) ∙ same)
      | no ge ↦
          let last : k ≡ i.block_count = omega arith in
          n_not_x (sym (ap (pointer_at inode disk) last ∙ new) ∙ same)
    ]

    one_more : OneMore d sb i n disk b.after inode
    one_more = record {
      used = 2;
      used_free = omega (arith, first.one_less, second.one_less);
      count = count;
      kept = refl;
      typed =
          counted-IsTyped (with_indirect i x)
            (with_indirect-IsTyped i x (omega (arith, second.below)) t);
      guarded = done.guarded;
      behind = first.behind;
      below = first.below;
      clear = first.clear;
      taken =
          kept_bit a.disk a.after x disk b.after done n first.below
            (chosen_bit d sb n a.disk a.after first);
      old = old;
      new = new;
      zeroed =
          dev.block-put pointing n (zeros block_size) n inside_n zeros-IsBlock
          ∙ rw (==_of_eq n n refl) refl;
      others = λ m lo c e away.
          block_there m (λ same. away (sym same))
          ∙ pointing_at m
          ∙ rw (==_of_ne x m (λ same. e (sym same))) (b.others m lo ∙ a.others m lo);
      bits = bits;
      indirect = record {
        none_yet = λ h. absurd (omega (arith, count, full));
        behind = λ h. second.behind;
        inside = second.below;
        taken = λ h. chosen_bit a.disk a.after x disk b.after done;
        beside = λ k h. beside k (omega (arith, count));
      };
      same_indirect = inr (l.indirect.none_yet (omega (arith, full)));
      spared = λ h rest below still.
          let (away, s1) =
            first.spared h (suc rest) below
              (need-IsSpared d (2 + rest) (suc (suc rest)) h (omega arith) still) in
          let (apart, s2) = done.spared h rest below s1 in (s2, away, λ same. absurd (apart same));
      size = done.size ∙ first.size;
      table = done.table ∙ first.table;
    }

    pub indirect-Round : Round d sb i
    unfolding grow attach attach_indirect first_pointers
    indirect-Round = record {
      disk = disk;
      after = b.after;
      inode = inode;
      returns = λ left.
          rw
            (
              a.returns,
              ◌>>=◌,
              le→ltb i.block_count direct_count (omega (arith, full)),
              ==_of_eq i.block_count direct_count full,
              b.returns,
              expect,
              dev.write_block-ok b.disk x (first_pointers n) inside_x (first_pointers-IsBlock n),
              dev.write_block-ok pointing n (zeros block_size) inside_n zeros-IsBlock,
            )
            refl;
      grown = OneMore-Grown d sb i n disk b.after inode l (omega (arith, full)) one_more;
      count = count;
      cost =
          rw (==_of_eq i.block_count direct_count full)
            (omega (arith, first.one_less, second.one_less));
    }
