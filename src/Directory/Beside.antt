-- ===== src/Directory/Beside.antt =====
-- A change of the disk that does not touch a directory.
use operating_system_experie.Base.{
  ℕ, ◌/◌, ◌%◌, ◌≤◌, ◌<◌, ◌≡◌, ◌≢◌, refl, List, ==_of_ne, ap, sym, ◌∙◌, Bool, true, if◌then◌else◌,
  ◌==◌, arith, max_blocks,
}
use operating_system_experie.Base.Outcome.{ok}
use operating_system_experie.Device.{Device, IsBlock}
use operating_system_experie.Superblock.{SuperBlock}
use operating_system_experie.Bitmap.Mark.{bit_at}
use operating_system_experie.Bitmap.Keep.{bit_at-same}
use operating_system_experie.Bitmap.Guard.{IsGuarded, same-IsGuarded, Allocated-IsGuarded}
use operating_system_experie.Bitmap.{allocate_block}
use operating_system_experie.Bitmap.Alloc.{Allocated}
use operating_system_experie.Inode.{Inode, read_inode}
use operating_system_experie.Inode.Table.{home, Written, read_inode-same}
use operating_system_experie.Directory.{entries_per_block, entry_at}
use operating_system_experie.Directory.Slots.{ptr, slot, slots}
use operating_system_experie.Directory.View.{Names, Models}
use operating_system_experie.Directory.Longer.{continued-HasNames, continued-Shows}
use operating_system_experie.Directory.Sound.{IsSound}

module _ ⦃dev : Device⦄ where
  open dev use {Disk, blocks, block, put}

  -- The blocks of the directory and its inode stay, and they stay taken.
  module _ (d e : Disk) (sb sb' : SuperBlock) (dir : Inode) (i : IsSound d sb dir)
      (g : IsGuarded e sb') (size : blocks e ≡ blocks d)
      (same : (k : ℕ) → k < dir.block_count → block e (ptr dir k) ≡ block d (ptr dir k))
      (stored : read_inode e sb' dir.inode_no ≡ ok dir)
      (bits : (k : ℕ) → k < dir.block_count → bit_at e (ptr dir k) ≡ true)
      (inode_bit : bit_at e (home sb dir.inode_no) ≡ true) where
    table : sb'.inode_table_start ≡ sb.inode_table_start
    table = g.table ∙ sym i.guarded.table

    home_same : home sb' dir.inode_no ≡ home sb dir.inode_no
    home_same = omega (arith, table)

    slot_same : (s : ℕ) → s < slots dir → slot e dir s ≡ slot d dir s
    unfolding slot
    slot_same s h =
        ap (λ b. entry_at b (s % entries_per_block)) (same (s / entries_per_block) (omega arith))

    pub beside-IsSound : IsSound e sb' dir
    beside-IsSound = record {
      directory = record {
        stored = stored;
        typed = i.directory.typed;
        image = omega (arith, i.directory.image.0, i.directory.image.1, table, size);
        held = record {
          few = i.directory.held.few;
          there = i.directory.held.there;
          inside = λ k h. omega (arith, i.directory.held.inside k h, size);
          distinct = i.directory.held.distinct;
          apart = λ k h q. i.directory.held.apart k h (q ∙ home_same);
        };
        names =
            continued-HasNames (slots dir) (slots dir) (omega arith) (slot d dir) (slot e dir)
              slot_same (λ s h f. absurd (omega arith)) i.directory.names;
      };
      guarded = g;
      held = record {
        behind = i.held.behind;
        inside = i.held.inside;
        taken = bits;
        inode_inside = omega (arith, i.held.inode_inside, table);
        inode_taken = ap (bit_at e) home_same ∙ inode_bit;
      };
    }

    pub beside-Models : (f : Names) → Models d dir f → Models e dir f
    beside-Models f m q =
        continued-Shows (slots dir) (slots dir) (omega arith) (slot d dir) (slot e dir) slot_same
          (λ s h f. absurd (omega arith)) q (f q) (m q)

  -- Another inode is written, in none of the directory's blocks.
  module _ (d : Disk) (sb : SuperBlock) (dir : Inode) (i : IsSound d sb dir) (x : Inode)
      (other : x.inode_no ≢ dir.inode_no)
      (away : (k : ℕ) → k < dir.block_count → ptr dir k ≢ home sb x.inode_no)
      (w : Written d sb x) where
    low : (k : ℕ) → k < 6 → block w.disk k ≡ block d k
    low k h = w.blocks_beside k (omega (arith, i.guarded.table))

    pub written_bits : (m : ℕ) → m < max_blocks → bit_at w.disk m ≡ bit_at d m
    written_bits = bit_at-same d w.disk (λ k lo hi. low k hi)

    guarded : IsGuarded w.disk sb
    guarded = same-IsGuarded d sb i.guarded w.disk w.size low

    same : (k : ℕ) → k < dir.block_count → block w.disk (ptr dir k) ≡ block d (ptr dir k)
    same k h = w.blocks_beside (ptr dir k) (away k h)

    stored : read_inode w.disk sb dir.inode_no ≡ ok dir
    stored = w.others dir.inode_no (λ e. other (sym e)) i.directory.image ∙ i.directory.stored

    bits : (k : ℕ) → k < dir.block_count → bit_at w.disk (ptr dir k) ≡ true
    bits k h = written_bits (ptr dir k) (i.held.inside k h) ∙ i.held.taken k h

    inode_bit : bit_at w.disk (home sb dir.inode_no) ≡ true
    inode_bit = written_bits (home sb dir.inode_no) i.held.inode_inside ∙ i.held.inode_taken

    pub written-IsSound : IsSound w.disk sb dir
    written-IsSound = beside-IsSound d w.disk sb sb dir i guarded w.size same stored bits inode_bit

    pub written-Models : (f : Names) → Models d dir f → Models w.disk dir f
    written-Models = beside-Models d w.disk sb sb dir i guarded w.size same stored bits inode_bit

  -- A data block is written that is not the directory's.
  module _ (d : Disk) (sb : SuperBlock) (dir : Inode) (i : IsSound d sb dir) (n : ℕ) (buf : List ℕ)
      (behind : 31 ≤ n) (inside : n < max_blocks) (b : IsBlock buf)
      (apart : (k : ℕ) → k < dir.block_count → n ≢ ptr dir k)
      (apart_inode : n ≢ home sb dir.inode_no) where
    room : n < blocks d
    room = omega (arith, inside, i.guarded.consistent.full)

    stays : (k : ℕ) → n ≢ k → block (put d n buf) k ≡ block d k
    stays k away = dev.block-put d n buf k room b ∙ rw (==_of_ne n k away) refl

    below : (k : ℕ) → k < 6 → block (put d n buf) k ≡ block d k
    below k h = stays k (omega (arith, behind))

    put_bits : (m : ℕ) → m < max_blocks → bit_at (put d n buf) m ≡ bit_at d m
    put_bits = bit_at-same d (put d n buf) (λ k lo hi. below k hi)

    put-IsGuarded : IsGuarded (put d n buf) sb
    put-IsGuarded =
        same-IsGuarded d sb i.guarded (put d n buf) (dev.blocks-put d n buf room b) below

    put_inode : read_inode (put d n buf) sb dir.inode_no ≡ ok dir
    put_inode =
        read_inode-same d (put d n buf) sb sb dir.inode_no i.directory.image refl
          (dev.blocks-put d n buf room b) (stays (home sb dir.inode_no) apart_inode)
        ∙ i.directory.stored

    pub put-IsSound : IsSound (put d n buf) sb dir
    put-IsSound =
        beside-IsSound d (put d n buf) sb sb dir i put-IsGuarded (dev.blocks-put d n buf room b)
          (λ k h. stays (ptr dir k) (apart k h)) put_inode
          (λ k h. put_bits (ptr dir k) (i.held.inside k h) ∙ i.held.taken k h)
          (put_bits (home sb dir.inode_no) i.held.inode_inside ∙ i.held.inode_taken)

    pub put-Models : (f : Names) → Models d dir f → Models (put d n buf) dir f
    put-Models =
        beside-Models d (put d n buf) sb sb dir i put-IsGuarded (dev.blocks-put d n buf room b)
          (λ k h. stays (ptr dir k) (apart k h)) put_inode
          (λ k h. put_bits (ptr dir k) (i.held.inside k h) ∙ i.held.taken k h)
          (put_bits (home sb dir.inode_no) i.held.inode_inside ∙ i.held.inode_taken)

  -- A block is handed out.
  module _ (d : Disk) (sb : SuperBlock) (dir : Inode) (i : IsSound d sb dir)
      (a : Allocated d sb (allocate_block d sb)) where
    true_either : (c b : Bool) → b ≡ true → (if c then true else b) ≡ true
    true_either c b h = ground arith

    start : a.after.inode_table_start ≡ sb.inode_table_start
    start = sym (ap (λ s. s.inode_table_start) a.one_less)

    still_set : (m : ℕ) → m < max_blocks → bit_at d m ≡ true → bit_at a.disk m ≡ true
    still_set m h used = a.bits m h ∙ true_either (a.chosen == m) (bit_at d m) used

    kept_block : (k : ℕ) → k < dir.block_count → block a.disk (ptr dir k) ≡ block d (ptr dir k)
    kept_block k h = a.others (ptr dir k) (omega (arith, i.held.behind k h))

    kept_inode : read_inode a.disk a.after dir.inode_no ≡ ok dir
    kept_inode =
        read_inode-same d a.disk sb a.after dir.inode_no i.directory.image start a.size
          (a.others (home sb dir.inode_no) (omega (arith, i.guarded.table)))
        ∙ i.directory.stored

    pub allocated-IsSound : IsSound a.disk a.after dir
    allocated-IsSound =
        beside-IsSound d a.disk sb a.after dir i (Allocated-IsGuarded d sb i.guarded a) a.size
          kept_block kept_inode
          (λ k h. still_set (ptr dir k) (i.held.inside k h) (i.held.taken k h))
          (still_set (home sb dir.inode_no) i.held.inode_inside i.held.inode_taken)

    pub allocated-Models : (f : Names) → Models d dir f → Models a.disk dir f
    allocated-Models =
        beside-Models d a.disk sb a.after dir i (Allocated-IsGuarded d sb i.guarded a) a.size
          kept_block kept_inode
          (λ k h. still_set (ptr dir k) (i.held.inside k h) (i.held.taken k h))
          (still_set (home sb dir.inode_no) i.held.inode_inside i.held.inode_taken)
