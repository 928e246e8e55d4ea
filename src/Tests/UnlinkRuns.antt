-- ===== src/Tests/UnlinkRuns.antt =====
-- src/fs.rs: a file with one block in the root directory of a disk in memory.
use operating_system_experie.Base.{
  List, [], ◌++◌, ℕ, zero, suc, ◌+◌, ◌^◌, ◌≤◌, ◌<◌, ◌≡◌, ◌≢◌, refl, ap, sym, ◌∙◌, Bool, true, false,
  [], ◌∷◌, some, arith, inl, inr, ==_of_eq, ==_of_ne,
}
use native.Mathlib.Decide.{dec_le}
use operating_system_experie.Base.Outcome.{ok}
use operating_system_experie.Bitmap.{allocate_block}
use operating_system_experie.Bitmap.Mark.{bit_at}
use operating_system_experie.Bitmap.Alloc.{Allocated, allocate_block-Allocated}
use operating_system_experie.Bitmap.Guard.{chosen_data}
use operating_system_experie.Inode.{Inode, get_block, nonzero}
use operating_system_experie.Inode.Table.{home, Written, write_inode-Written}
use operating_system_experie.Inode.BlockMap.{pointer_at}
use operating_system_experie.Directory.{Found, new, dir_lookup, lookup_from, entries_in}
use operating_system_experie.Directory.Slots.{ptr}
use operating_system_experie.Directory.View.{Names, update, Models}
use operating_system_experie.Directory.Sound.{IsSound}
use operating_system_experie.Directory.Beside.{
  allocated-IsSound, allocated-Models, written-IsSound, written-Models, written_bits,
}
use operating_system_experie.Directory.Add.{Added}
use operating_system_experie.Directory.Refine.{
  Adds, already, put_in, put_in_new_block, at_limit, disk_full, dir_add_entry-Adds,
}
use operating_system_experie.Fs.Dots.{dots}
use operating_system_experie.Fs.Format.{root_of}
use operating_system_experie.Fs.Lookup.{LooksUp, lookup-LooksUp}
use operating_system_experie.Fs.Files.{IsChildIn}
use operating_system_experie.Fs.Rmdir.{Rmdirs, rmdir-Rmdirs}
use operating_system_experie.Fs.Unlink.{Unlinks, unlink-Unlinks}
use operating_system_experie.Memory.{memory}
use operating_system_experie.Tests.DirectoryRuns.{notes_name}
use operating_system_experie.Tests.RootRuns.{rooted, notes_name-IsName}

abbrev root : Inode
root = root_of 1700000000

pub a :
    Allocated ⦃dev = memory⦄ rooted.formatted.disk rooted.formatted.sb
      (allocate_block ⦃dev = memory⦄ rooted.formatted.disk rooted.formatted.sb)
a =
    allocate_block-Allocated ⦃dev = memory⦄ rooted.formatted.disk rooted.formatted.sb
      rooted.sound.guarded.consistent 40 (omega arith) (rooted.formatted.bits 40 (omega arith))

clash : (b : Bool) → b ≡ true → b ≡ false → ⊥
clash b t f = cc

pub low_choice : a.chosen ≤ 40
low_choice = elim (dec_le a.chosen 40) [
  | yes h ↦ h
  | no h ↦ absurd (
      clash _ (a.first.before 40 (omega arith) (omega arith))
        (rooted.formatted.bits 40 (omega arith)))
]

module _ (mode : ℕ) (fits : mode < 2 ^ 16) where
  -- A file of the block that was handed out.
  abbrev file : ℕ → Inode
  file n = record {
    inode_no = 2;
    mode = mode;
    uid = 1000;
    gid = 1000;
    size = 5;
    nlink = 1;
    block_count = 1;
    mtime = 1700000000;
    atime = 1700000000;
    ctime = 1700000000;
    direct_blocks = n ∷ 0 ∷ 0 ∷ 0 ∷ 0 ∷ 0 ∷ 0 ∷ 0 ∷ 0 ∷ 0 ∷ [];
    indirect_block = 0;
  }

  file-IsTyped : (n : ℕ) → n < 20480 → operating_system_experie.Inode.IsTyped (file n)
  file-IsTyped n h = record {
    inode_no = omega arith;
    mode = fits;
    uid = omega arith;
    gid = omega arith;
    size = omega arith;
    nlink = omega arith;
    block_count = omega arith;
    mtime = omega arith;
    atime = omega arith;
    ctime = omega arith;
    direct_length = refl;
    direct_blocks = grind arith;
    indirect_block = omega arith;
  }

  i1 : IsSound ⦃dev = memory⦄ a.disk a.after root
  i1 =
      allocated-IsSound ⦃dev = memory⦄ rooted.formatted.disk rooted.formatted.sb root rooted.sound a

  m1 : Models ⦃dev = memory⦄ a.disk root (dots 1 1)
  m1 =
      allocated-Models ⦃dev = memory⦄ rooted.formatted.disk rooted.formatted.sb root rooted.sound a
        (dots 1 1) rooted.models

  w : Written ⦃dev = memory⦄ a.disk a.after (file a.chosen)
  w =
      write_inode-Written ⦃dev = memory⦄ a.disk a.after (file a.chosen)
        (file-IsTyped a.chosen a.first.below)
        (omega (arith, i1.guarded.table), omega (arith, i1.guarded.table))

  other : 2 ≢ root.inode_no
  unfolding root_of operating_system_experie.Inode.new_dir
  other = omega arith

  away : (k : ℕ) → k < root.block_count → ptr root k ≢ home a.after 2
  away k h = omega (arith, i1.held.behind k h, i1.guarded.table)

  i2 : IsSound ⦃dev = memory⦄ w.disk a.after root
  i2 = written-IsSound ⦃dev = memory⦄ a.disk a.after root i1 (file a.chosen) other away w

  m2 : Models ⦃dev = memory⦄ w.disk root (dots 1 1)
  m2 =
      written-Models ⦃dev = memory⦄ a.disk a.after root i1 (file a.chosen) other away w (dots 1 1)
        m1

  -- The root has room for a name.
  few : root.block_count ≢ 10
  unfolding root_of
  few = omega arith

  still_free : bit_at ⦃dev = memory⦄ w.disk 200 ≡ false
  still_free =
      written_bits ⦃dev = memory⦄ a.disk a.after root i1 (file a.chosen) other away w 200
        (omega arith)
      ∙ a.bits 200 (omega arith)
      ∙ rw (==_of_ne a.chosen 200 (omega (arith, low_choice)))
          (rooted.formatted.bits 200 (omega arith))

  named_here :
      Adds ⦃dev = memory⦄ w.disk a.after root (dots 1 1) notes_name 2 false 1700000001
      → Added ⦃dev = memory⦄ w.disk a.after root (dots 1 1) notes_name 2 false 1700000001
  named_here (already x e r) = cc
  named_here (put_in e x same inode) = x
  named_here (put_in_new_block e full x more lowest) = x
  named_here (at_limit e full ten r) = absurd (few ten)
  named_here (disk_full e full all r) = absurd (clash _ (all 200 (omega arith)) still_free)

  added : Added ⦃dev = memory⦄ w.disk a.after root (dots 1 1) notes_name 2 false 1700000001
  added = named_here (
      dir_add_entry-Adds ⦃dev = memory⦄ w.disk a.after root (dots 1 1) notes_name 2 false 1700000001
        i2 m2 notes_name-IsName (omega arith) (omega arith))

  -- The block of the file was free in the directory before, and is taken now.
  taken : bit_at ⦃dev = memory⦄ w.disk a.chosen ≡ true
  taken =
      written_bits ⦃dev = memory⦄ a.disk a.after root i1 (file a.chosen) other away w a.chosen
        a.first.below
      ∙ a.bits a.chosen a.first.below
      ∙ rw (==_of_eq a.chosen a.chosen refl) refl

  chosen_behind : 31 ≤ a.chosen
  chosen_behind =
      chosen_data ⦃dev = memory⦄ rooted.formatted.disk rooted.formatted.sb rooted.sound.guarded a

  apart_before : (j : ℕ) → j < root.block_count → a.chosen ≢ ptr root j
  apart_before j h e =
      clash _ (rooted.sound.held.taken j h)
        (ap (bit_at ⦃dev = memory⦄ rooted.formatted.disk) (sym e) ∙ a.first.clear)

  apart : (j : ℕ) → j < added.inode.block_count → a.chosen ≢ ptr added.inode j
  apart j h e = elim (added.keeps.blocks_new j h) [
    | inl (i, below, old) ↦ apart_before i below (e ∙ old)
    | inr new ↦ clash _ (ap (bit_at ⦃dev = memory⦄ w.disk) (sym e) ∙ taken) new
  ]

  home_low : home added.after added.inode.inode_no < 31
  unfolding root_of operating_system_experie.Inode.new_dir
  home_low = omega (arith, added.sound.guarded.table, added.keeps.number)

  pointers :
      (k : ℕ)
      → 0 ≤ k
      → k < 0 + 1
      → pointer_at ⦃dev = memory⦄ (file a.chosen) added.disk k ≡ a.chosen
  pointers zero lo hi = refl
  pointers (suc k) lo hi = absurd (omega arith)

  there :
      IsChildIn ⦃dev = memory⦄ added.disk added.after added.inode (file a.chosen) (λ k. a.chosen)
  there = record {
    stored =
        added.keeps.inodes 2 other
          (omega (arith, i2.guarded.table), omega (arith, i2.guarded.table))
          (λ j h. omega (arith, added.sound.held.behind j h, i2.guarded.table))
        ∙ w.same;
    typed = file-IsTyped a.chosen a.first.below;
    image = (omega (arith, added.sound.guarded.table), omega (arith, added.sound.guarded.table));
    owned = record {
      held = record {
        pointers = pointers;
        there = λ k lo hi. omega (arith, chosen_behind);
        inside = λ k lo hi. a.first.below;
        taken = λ k lo hi. added.keeps.bits a.chosen a.first.below taken;
        distinct = λ j k lo lt hi. absurd (omega arith);
      };
      behind = λ k h. chosen_behind;
    };
    indirect = inl refl;
    apart = λ k j h g. apart j g;
    apart_inode = λ k h. omega (arith, chosen_behind, home_low);
    indirect_apart = λ j h. omega (arith, added.sound.held.behind j h);
    indirect_apart_inode = omega (arith, added.sound.guarded.table);
    other = λ e. other (e ∙ added.keeps.number);
    away = λ j h. omega (arith, added.sound.held.behind j h, added.sound.guarded.table);
  }

abbrev names : Names
names = update (dots 1 1) notes_name (some (new 2 notes_name false))

unlink-Unlinks_example :
    Unlinks ⦃dev = memory⦄
      (added 0o100644 (omega arith)).disk
      (added 0o100644 (omega arith)).after
      (added 0o100644 (omega arith)).inode
      names
      notes_name
      1700000002
      (added 0o100644 (omega arith)).sound
      (added 0o100644 (omega arith)).models
      notes_name-IsName.utf8
      (omega arith)
unfolding new
unlink-Unlinks_example =
    unlink-Unlinks ⦃dev = memory⦄ (added 0o100644 (omega arith)).disk
      (added 0o100644 (omega arith)).after (added 0o100644 (omega arith)).inode names notes_name
      1700000002 (added 0o100644 (omega arith)).sound (added 0o100644 (omega arith)).models
      notes_name-IsName.utf8 (omega arith) (some (new 2 notes_name false)) refl
      (
        file 0o100644 (omega arith) a.chosen,
        (λ k. a.chosen),
        refl,
        inr (refl, there 0o100644 (omega arith)),
      )

lookup-LooksUp_example :
    LooksUp ⦃dev = memory⦄
      (added 0o100644 (omega arith)).disk
      (added 0o100644 (omega arith)).after
      (added 0o100644 (omega arith)).inode
      notes_name
      (some (new 2 notes_name false))
lookup-LooksUp_example =
    lookup-LooksUp ⦃dev = memory⦄ (added 0o100644 (omega arith)).disk
      (added 0o100644 (omega arith)).after (added 0o100644 (omega arith)).inode
      (added 0o100644 (omega arith)).sound notes_name notes_name-IsName.utf8
      (some (new 2 notes_name false)) ((added 0o100644 (omega arith)).models notes_name)

-- The same with the mode of a directory.
abbrev folder : Inode
folder = file 0o040755 (omega arith) a.chosen

entries : List Found
entries = entries_in 15 0 a.chosen (memory.block (added 0o040755 (omega arith)).disk a.chosen) ++ []

listed : dir_lookup ⦃dev = memory⦄ (added 0o040755 (omega arith)).disk folder ≡ ok entries
unfolding dir_lookup lookup_from get_block entries
listed =
    rw
      (
        ==_of_ne a.chosen 0 (omega (arith, chosen_behind 0o040755 (omega arith))),
        memory.read_block-ok (added 0o040755 (omega arith)).disk a.chosen a.first.below,
      )
      refl

rmdir-Rmdirs_example :
    Rmdirs ⦃dev = memory⦄
      (added 0o040755 (omega arith)).disk
      (added 0o040755 (omega arith)).after
      (added 0o040755 (omega arith)).inode
      names
      notes_name
      1700000002
      (added 0o040755 (omega arith)).sound
      (added 0o040755 (omega arith)).models
      notes_name-IsName.utf8
      (omega arith)
unfolding new
rmdir-Rmdirs_example =
    rmdir-Rmdirs ⦃dev = memory⦄ (added 0o040755 (omega arith)).disk
      (added 0o040755 (omega arith)).after (added 0o040755 (omega arith)).inode names notes_name
      1700000002 (added 0o040755 (omega arith)).sound (added 0o040755 (omega arith)).models
      notes_name-IsName.utf8 (omega arith) (some (new 2 notes_name false)) refl
      (folder, (λ k. a.chosen), entries, refl, there 0o040755 (omega arith), refl, listed)
