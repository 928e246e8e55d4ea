-- ===== src/Directory/Extend.antt =====
-- A directory gets a new block for an entry.
use operating_system_experie.Base.{
  max_blocks, ℕ, ◌+◌, ◌^◌, ◌≤◌, ◌<◌, ◌≡◌, ◌≢◌, refl, ap, sym, subst, get_or-set_self, ◌∙◌, true,
  false, List, none, some, arith, block_size, if◌then◌else◌, ◌==◌, ==_of_ne, lt→leb,
}
use operating_system_experie.Base.FirstClear.{IsFirst}
use operating_system_experie.Base.Slices.{
  zeros, length-splice, splice-IsBytes, length-zeros, zeros-IsBytes,
}
use operating_system_experie.Base.Outcome.{ok, ◌>>=◌}
use operating_system_experie.Device.{Device, IsBlock}
use operating_system_experie.Superblock.{SuperBlock}
use operating_system_experie.Bitmap.{allocate_block}
use operating_system_experie.Bitmap.Mark.{bit_at}
use operating_system_experie.Bitmap.Alloc.{Allocated}
use operating_system_experie.Bitmap.Guard.{chosen_data, Allocated-IsGuarded, same-IsGuarded}
use operating_system_experie.Bitmap.Keep.{bit_at-same}
use operating_system_experie.Inode.{Inode, read_inode, direct_count}
use operating_system_experie.Inode.Table.{
  InImage, read_inode-same, Written, write_inode-Written, home,
}
use operating_system_experie.Directory.{
  DirEntry, max_name_len, done, entries_per_block, dir_entry_size, is_empty, entry_at, from_bytes,
  to_bytes, extend,
}
use operating_system_experie.Directory.Slots.{ptr, slot, slots, text}
use operating_system_experie.Directory.View.{Names, update, Models, Shows}
use operating_system_experie.Directory.Extended.{extended, extended-IsTyped, first_block}
use operating_system_experie.Directory.Attach.{Attached, attach-Attached}
use operating_system_experie.Directory.Sound.{IsSound, Keeps}
use operating_system_experie.Directory.Entry.{to_bytes_entry-IsBytes}

module _ ⦃dev : Device⦄ where
  open dev use {Disk, read_block, write_block, blocks, block, put}

  module _ (d : Disk) (sb : SuperBlock) (dir : Inode) (now : ℕ) (i : IsSound d sb dir)
      (small : now < 2 ^ 64) (room : dir.block_count < direct_count) (e : DirEntry)
      (typed : operating_system_experie.Directory.IsTyped e)
      (a : Allocated d sb (allocate_block d sb)) where
    behind : 31 ≤ a.chosen
    behind = chosen_data d sb i.guarded a

    start : a.after.inode_table_start ≡ sb.inode_table_start
    start = sym (ap (λ s. s.inode_table_start) a.one_less)

    home_same : home a.after dir.inode_no ≡ home sb dir.inode_no
    home_same = omega (arith, start)

    abbrev first : List ℕ
    first = first_block e

    first-IsBlock : IsBlock first
    first-IsBlock = (
      length-splice 0 (to_bytes e) (zeros block_size) ∙ length-zeros block_size,
      splice-IsBytes 0 (to_bytes e) (zeros block_size) (to_bytes_entry-IsBytes e typed)
          (zeros-IsBytes block_size),
    )

    inside : a.chosen < blocks a.disk
    inside = omega (arith, a.first.below, a.consistent.full)

    abbrev d1 : Disk
    d1 = put a.disk a.chosen first

    blocks1 : blocks d1 ≡ blocks d
    blocks1 = dev.blocks-put a.disk a.chosen first inside first-IsBlock ∙ a.size

    abbrev dir' : Inode
    dir' = extended dir a.chosen now

    w : Written d1 a.after dir'
    w =
        write_inode-Written d1 a.after dir'
          (extended-IsTyped dir a.chosen now i.directory.typed (omega (arith, a.first.below)) small)
          (
            omega (arith, i.directory.image.0, start),
            omega (arith, i.directory.image.1, start, blocks1),
          )

    block_after :
        (k : ℕ)
        → 6 ≤ k
        → k ≢ home sb dir.inode_no
        → block w.disk k ≡ (if a.chosen == k then first else block d k)
    block_after k lo h =
        w.blocks_beside k (λ same. h (same ∙ home_same))
        ∙ dev.block-put a.disk a.chosen first k inside first-IsBlock
        ∙ ap (λ x. if a.chosen == k then first else x) (a.others k lo)

    sizes : blocks w.disk ≡ blocks d
    sizes = w.size ∙ blocks1

    low : (k : ℕ) → k < 6 → block w.disk k ≡ block a.disk k
    low k h =
        w.blocks_beside k (omega (arith, start, i.guarded.table))
        ∙ dev.block-put a.disk a.chosen first k inside first-IsBlock
        ∙ rw (==_of_ne a.chosen k (omega (arith, behind))) refl

    bits_after :
        (m : ℕ) → m < max_blocks → bit_at w.disk m ≡ (if a.chosen == m then true else bit_at d m)
    bits_after m h = bit_at-same a.disk w.disk (λ k lo hi. low k hi) m h ∙ a.bits m h

    inodes_after :
        (k : ℕ)
        → k ≢ dir.inode_no
        → InImage d sb k
        → a.chosen ≢ home sb k
        → read_inode w.disk a.after k ≡ read_inode d sb k
    inodes_after k ne h away =
        w.others k ne (omega (arith, h.0, start), omega (arith, h.1, start, blocks1))
        ∙ read_inode-same d d1 sb a.after k h start blocks1 (
            dev.block-put a.disk a.chosen first (home sb k) inside first-IsBlock
            ∙ rw (==_of_ne a.chosen (home sb k) away)
                (a.others (home sb k) (omega (arith, i.guarded.table))))

    -- The state after the directory got a block for the entry.
    pub record Extended (name : List ℕ) (f : Names) : Type 0 where
      pub disk : Disk
      pub inode : Inode
      pub returns : extend d sb dir (to_bytes e) now ≡ ok (done, disk, a.after, inode)
      pub sound : IsSound disk a.after inode
      pub keeps : Keeps d sb dir disk a.after inode
      pub models : Models disk inode (update f name (some e))
      pub size : blocks disk ≡ blocks d
      pub count : inode.block_count ≡ dir.block_count + 1
      pub lowest : IsFirst (bit_at d) 0 max_blocks (ptr inode dir.block_count)

    module _ (name : List ℕ) (f : Names) (models : Models d dir f)
        (absent : Shows (slots dir) (slot d dir) name none) (used : is_empty e ≡ false)
        (short : e.name_len ≤ max_name_len) (called : text e ≡ name) where
      x :
          Attached d sb dir now i room a.chosen a.first.clear behind a.first.below w.disk a.after e
            typed sizes start block_after bits_after inodes_after name f
      x =
          attach-Attached d sb dir now i room a.chosen a.first.clear behind a.first.below w.disk
            a.after e typed sizes start block_after bits_after inodes_after name f models absent
            used short called

      pub extend-Extended : Extended name f
      unfolding extend
      extend-Extended = record {
        disk = w.disk;
        inode = dir';
        returns =
            rw
              (
                extend,
                lt→leb direct_count dir.block_count room,
                a.returns,
                ◌>>=◌,
                dev.write_block-ok a.disk a.chosen first inside first-IsBlock,
                ◌>>=◌,
                w.returns,
                ◌>>=◌,
              )
              refl;
        sound = record {
          directory = record {
            stored = w.same;
            typed =
                extended-IsTyped dir a.chosen now i.directory.typed (omega (arith, a.first.below))
                  small;
            image = omega (arith, i.directory.image.0, i.directory.image.1, start, sizes);
            held = x.blocks_held;
            names = x.names;
          };
          guarded =
              same-IsGuarded a.disk a.after (Allocated-IsGuarded d sb i.guarded a) w.disk
                (w.size ∙ dev.blocks-put a.disk a.chosen first inside first-IsBlock) low;
          held = x.held;
        };
        keeps = x.keeps;
        models = x.models;
        size = sizes;
        count = omega arith;
        lowest =
            subst (IsFirst (bit_at d) 0 max_blocks)
              (sym (
                get_or-set_self dir.direct_blocks dir.block_count a.chosen 0
                  (omega (arith, i.directory.typed.direct_length))))
              a.first;
      }
