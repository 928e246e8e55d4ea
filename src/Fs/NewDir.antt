-- ===== src/Fs/NewDir.antt =====
-- The block and the inode of a new directory, and how it enters its parent.
use native.Mathlib.Nat.{mod-eq_of_lt}
use operating_system_experie.Base.{
  ℕ, ◌/◌, ◌%◌, ◌^◌, ◌≤◌, ◌<◌, ◌≡◌, ◌≢◌, refl, ap, sym, ◌∙◌, Bool, true, false, List, none, arith,
  max_blocks, subst, inl, inr, ==_of_eq, ==_of_ne,
}
use operating_system_experie.Base.Outcome.{ok, ◌>>=◌, ◌>>◌}
use operating_system_experie.Device.{Device, IsBlock}
use operating_system_experie.Superblock.{SuperBlock}
use operating_system_experie.Bitmap.{allocate_block}
use operating_system_experie.Bitmap.Mark.{bit_at}
use operating_system_experie.Bitmap.Alloc.{Allocated}
use operating_system_experie.Bitmap.Spared.{
  IsSpared, Claimed, Claimed-same, Claimed-put, Allocated-Claimed, kept_bit, chosen_bit,
}
use operating_system_experie.Inode.{Inode, read_inode}
use operating_system_experie.Inode.Table.{home, Written, write_inode-Written}
use operating_system_experie.Directory.{entry_at, entries_per_block, is_empty}
use operating_system_experie.Directory.Slots.{ptr, slot, slots}
use operating_system_experie.Directory.View.{Names, Models}
use operating_system_experie.Directory.Effect.{IsDirectory}
use operating_system_experie.Directory.Sound.{IsSound}
use operating_system_experie.Directory.Beside.{
  allocated-IsSound, allocated-Models, put-IsSound, put-Models, written-IsSound, written-Models,
}
use operating_system_experie.Directory.Add.{IsName}
use operating_system_experie.Fs.{dot_block}
use operating_system_experie.Fs.Dots.{dots}
use operating_system_experie.Fs.Format.{dot_block-IsBlock}
use operating_system_experie.Fs.OneBlock.{dots-IsDirectory, dots-Models}
use operating_system_experie.Fs.Changes.{unwrap, mkdir_at}
use operating_system_experie.Fs.Enter.{Entered, Enters, entered, no_room, enter-Enters}
use operating_system_experie.Fs.MadeDir.{
  made_dir, made_dir-IsTyped, first_pointer, same_number, Makes, made_in, overfull,
}

clash : (b : Bool) → b ≡ true → b ≡ false → ⊥
clash b t f = cc

module _ ⦃dev : Device⦄ where
  open dev use {Disk, blocks, block, put}

  module _ (d : Disk) (sb : SuperBlock) (dir : Inode) (f : Names) (name : List ℕ) (now number : ℕ)
      (i : IsSound d sb dir) (m : Models d dir f) (named : IsName name) (small : now < 2 ^ 64)
      (fits : number < 2 ^ 32) (other : number ≢ dir.inode_no)
      (apart : (k : ℕ) → k < dir.block_count → ptr dir k ≢ home sb number)
      (home_inside : home sb number < max_blocks) (still : IsSpared d 2 (home sb number))
      (e : f name ≡ none) (a : Allocated d sb (allocate_block d sb)) where
    abbrev n : ℕ
    n = a.chosen

    c1 : Claimed d sb n a.disk a.after
    c1 = Allocated-Claimed d sb i.guarded a

    i1 : IsSound a.disk a.after dir
    i1 = allocated-IsSound d sb dir i a

    abbrev dots_block : List ℕ
    dots_block = dot_block number (dir.inode_no % 2 ^ 32)

    dots_block-IsBlock : IsBlock dots_block
    dots_block-IsBlock = dot_block-IsBlock number (dir.inode_no % 2 ^ 32) fits (omega arith)

    abbrev d2 : Disk
    d2 = put a.disk n dots_block

    c2 : Claimed d sb n d2 a.after
    c2 = Claimed-put d sb n a.disk a.after c1 n dots_block c1.behind c1.below dots_block-IsBlock

    not_own : (k : ℕ) → k < dir.block_count → n ≢ ptr dir k
    not_own k h same = clash (bit_at d n) (ap (bit_at d) same ∙ i.held.taken k h) c1.clear

    home_same : (k : ℕ) → home a.after k ≡ home sb k
    home_same k = omega (arith, c1.table)

    not_inode : n ≢ home sb dir.inode_no
    not_inode same = clash (bit_at d n) (ap (bit_at d) same ∙ i.held.inode_taken) c1.clear

    i2 : IsSound d2 a.after dir
    i2 =
        put-IsSound a.disk a.after dir i1 n dots_block c1.behind c1.below dots_block-IsBlock not_own
          (λ same. not_inode (same ∙ home_same dir.inode_no))

    m2 : Models d2 dir f
    m2 =
        put-Models a.disk a.after dir i1 n dots_block c1.behind c1.below dots_block-IsBlock not_own
          (λ same. not_inode (same ∙ home_same dir.inode_no)) f (allocated-Models d sb dir i a f m)

    abbrev child : Inode
    child = made_dir number now n

    child_home : home a.after child.inode_no ≡ home sb number
    child_home = ap (home a.after) (same_number number now n) ∙ home_same number

    w : Written d2 a.after child
    w =
        write_inode-Written d2 a.after child
          (made_dir-IsTyped number now n fits small (omega (arith, c1.below)))
          (omega (arith, child_home, home_inside, c2.guarded.consistent.full))

    other' : child.inode_no ≢ dir.inode_no
    other' same = other (sym (same_number number now n) ∙ same)

    apart' : (k : ℕ) → k < dir.block_count → ptr dir k ≢ home a.after child.inode_no
    apart' k h same = apart k h (same ∙ child_home)

    i3 : IsSound w.disk a.after dir
    i3 = written-IsSound d2 a.after dir i2 child other' apart' w

    m3 : Models w.disk dir f
    m3 = written-Models d2 a.after dir i2 child other' apart' w f m2

    c3 : Claimed d sb n w.disk a.after
    c3 =
        Claimed-same d sb n d2 a.after c2 w.disk w.size
          (λ k h. w.blocks_beside k (omega (arith, child_home, i.guarded.table)))

    spared : (n ≢ home sb number) × IsSpared w.disk 1 (home sb number)
    spared = c3.spared (home sb number) 1 home_inside still

    stored : read_inode w.disk a.after number ≡ ok child
    stored = ap (read_inode w.disk a.after) (sym (same_number number now n)) ∙ w.same

    outcome : Enters w.disk a.after dir f name now number true child
    outcome =
        enter-Enters w.disk a.after dir f name now number true child i3 m3 named small fits stored
          other (omega (arith, home_inside, home_same number, c3.guarded.consistent.full))
          (λ k h same. apart k h (same ∙ home_same number))
          (subst (IsSpared w.disk 1) (sym (home_same number)) spared.1) e

    -- A block that is neither new nor the inode's.
    block_kept : (k : ℕ) → 6 ≤ k → n ≢ k → k ≢ home sb number → block w.disk k ≡ block d k
    block_kept k lo ne h =
        w.blocks_beside k (λ same. h (same ∙ child_home))
        ∙ dev.block-put a.disk n dots_block k room dots_block-IsBlock
        ∙ rw (==_of_ne n k ne) (a.others k lo)
      where
        room : n < blocks a.disk
        room = omega (arith, c1.below, c1.guarded.consistent.full)

    -- The slots of the parent.
    slot_kept : (s : ℕ) → s < slots dir → slot w.disk dir s ≡ slot d dir s
    unfolding slot
    slot_kept s h =
        let k = s / entries_per_block in
        ap (λ b. entry_at b (s % entries_per_block))
          (block_kept (ptr dir k) (omega (arith, i.held.behind k (omega arith)))
            (not_own k (omega arith)) (apart k (omega arith)))

    -- The new directory, once the name is there.
    module _ (x : Entered w.disk a.after dir f name now number true child) where
      parent_small : dir.inode_no % 2 ^ 32 ≡ dir.inode_no
      parent_small = mod-eq_of_lt i.directory.typed.inode_no

      taken_before : bit_at w.disk n ≡ true
      taken_before = chosen_bit d sb n w.disk a.after c3

      dots_kept : block x.disk n ≡ dots_block
      dots_kept =
          x.keeps.others n c3.behind c3.below taken_before
            (λ same. not_inode (same ∙ home_same dir.inode_no)) not_own
          ∙ w.blocks_beside n (λ same. spared.0 (same ∙ child_home))
          ∙ dev.block-put a.disk n dots_block n
              (omega (arith, c1.below, c1.guarded.consistent.full)) dots_block-IsBlock
          ∙ rw (==_of_eq n n refl) refl

      home_after : home x.after child.inode_no ≡ home sb number
      home_after = omega (arith, child_home, x.keeps.table)

      inside_after : n < blocks x.disk
      inside_after = omega (arith, c3.below, x.sound.guarded.consistent.full)

      count : child.block_count ≡ 1
      count = refl

      child-IsDirectory : IsDirectory x.disk x.after child
      child-IsDirectory =
          dots-IsDirectory x.disk x.after child n number (dir.inode_no % 2 ^ 32) count
            (first_pointer number now n) c3.behind inside_after
            (λ same. spared.0 (same ∙ home_after)) dots_kept fits (omega arith)
            (ap (read_inode x.disk x.after) (same_number number now n) ∙ x.inode)
            (made_dir-IsTyped number now n fits small (omega (arith, c3.below)))
            (omega (arith, home_after, home_inside, x.sound.guarded.consistent.full))

      child-Models : Models x.disk child (dots number dir.inode_no)
      child-Models =
          subst (λ p. Models x.disk child (dots number p)) parent_small
            (dots-Models x.disk x.after child n number (dir.inode_no % 2 ^ 32) count
              (first_pointer number now n) c3.behind inside_after
              (λ same. spared.0 (same ∙ home_after)) dots_kept fits (omega arith))

    room : n < blocks a.disk
    room = omega (arith, c1.below, c1.guarded.consistent.full)

    added :
        Enters w.disk a.after dir f name now number true child → Makes d sb dir f name now number n
    unfolding mkdir_at unwrap
    added (entered x) =
        made_in
          (record {
            disk = x.disk;
            after = x.after;
            dir' = x.dir';
            sound = x.sound;
            models = x.models;
            looked_up = x.looked_up;
            child = child-IsDirectory x;
            child_models = child-Models x;
            taken = x.keeps.bits n c3.below (chosen_bit d sb n w.disk a.after c3);
            others = λ k lo hi used h h' away.
                x.keeps.others k lo hi (kept_bit d sb n w.disk a.after c3 k hi used)
                  (λ same. h' (same ∙ home_same dir.inode_no)) away
                ∙ block_kept k (omega arith)
                    (λ same. clash (bit_at d k) used (ap (bit_at d) (sym same) ∙ c3.clear)) h;
          })
          (rw
            (
              mkdir_at,
              a.returns,
              ◌>>=◌,
              dev.write_block-ok a.disk n dots_block room dots_block-IsBlock,
              w.returns,
              x.returns,
              ◌>>◌,
            )
            refl)
    added (no_room why returns full filled limit) =
        overfull
          (
            λ s h. ap is_empty (sym (slot_kept s h)) ∙ filled s h,
            elim limit [
              | inl ten ↦ inl ten
              | inr all ↦ inr (λ k h ne. sym (c3.bits k h ∙ rw (==_of_ne n k ne) refl) ∙ all k h)
            ],
          )
          (rw
            (
              mkdir_at,
              a.returns,
              ◌>>=◌,
              dev.write_block-ok a.disk n dots_block room dots_block-IsBlock,
              w.returns,
              returns,
              ◌>>◌,
            )
            refl)

    pub mkdir_at-Makes : Makes d sb dir f name now number n
    mkdir_at-Makes = added outcome
