-- ===== src/Fs/Unlink.antt =====
-- The handler `unlink` as a whole.
use operating_system_experie.Base.{
  ℕ, ◌+◌, ◌%◌, ◌^◌, ◌<◌, ◌≡◌, ◌≢◌, refl, ap, sym, ◌∙◌, true, false, List, Option, none, some, arith,
  max_blocks, inl, inr, ◌⊎◌, subst, [],
}
use native.Mathlib.Nat.{mod-eq_of_lt}
use operating_system_experie.Base.Outcome.{ok, ◌>>=◌}
use operating_system_experie.Base.Utf8.{is_utf8}
use operating_system_experie.Device.{Device}
use operating_system_experie.Superblock.{SuperBlock}
use operating_system_experie.Bitmap.Mark.{bit_at}
use operating_system_experie.Inode.{Inode, read_inode}
use operating_system_experie.Inode.BlockMap.{pointer_at}
use operating_system_experie.Inode.Table.{home, Written, write_inode-Written}
use operating_system_experie.Directory.{DirEntry}
use operating_system_experie.Directory.Slots.{ptr, slot, slots}
use operating_system_experie.Directory.View.{Names, update, Models, Shows, dir_find-FindsAs}
use operating_system_experie.Directory.Patch.{touched}
use operating_system_experie.Directory.Sound.{IsSound}
use operating_system_experie.Directory.Beside.{written-IsSound, written-Models, written_bits}
use operating_system_experie.Directory.Remove.{Removed, Removes, dir_remove_entry-Removes}
use operating_system_experie.Fs.{enoent, eisdir, reply, error, is_dir, to_str}
use operating_system_experie.Fs.Changes.{unwrap, unlink, remove_file}
use operating_system_experie.Fs.Queries.{lookup}
use operating_system_experie.Fs.Lookup.{lookup-LooksUp, to_str-utf8, updated_here}
use operating_system_experie.Fs.Files.{
  unused, unused-IsTyped, IsChildIn, all_freed, freed-IsSound, freed-Models,
}
use operating_system_experie.Fs.ReleaseAll.{Indirect, AllFreed, indirect_count}

module _ ⦃dev : Device⦄ where
  open dev use {Disk, blocks, block}

  -- The state after the file was removed.
  pub record Unlinked (d : Disk) (sb : SuperBlock) (dir : Inode) (f : Names) (name : List ℕ)
      (now : ℕ) (child : Inode) (at : ℕ → ℕ) : Type 0 where
    pub disk : Disk
    pub after : SuperBlock
    pub returns : unlink d sb dir.inode_no name now ≡ ok (reply tt, disk, after)
    pub sound : IsSound disk after (touched dir now)
    pub models : Models disk (touched dir now) (update f name none)
    pub gone : lookup disk after dir.inode_no name ≡ ok (error enoent)
    pub inode : read_inode disk after child.inode_no ≡ ok (unused child)
    pub free : after.free_blocks ≡ sb.free_blocks + child.block_count + indirect_count child
    pub freed : (k : ℕ) → k < child.block_count → bit_at disk (at k) ≡ false
    pub freed_indirect : child.indirect_block ≢ 0 → bit_at disk child.indirect_block ≡ false
    pub kept :
        (k : ℕ)
        → k < max_blocks
        → ((j : ℕ) → j < child.block_count → at j ≢ k)
        → child.indirect_block ≢ k
        → bit_at disk k ≡ bit_at d k
    pub size : blocks disk ≡ blocks d

  module _ (d : Disk) (sb : SuperBlock) (dir : Inode) (f : Names) (name : List ℕ) (now : ℕ)
      (i : IsSound d sb dir) (m : Models d dir f) (small : now < 2 ^ 64) (x : DirEntry)
      (there : f name ≡ some x) where
    module _ (child : Inode) (at : ℕ → ℕ) (c : IsChildIn d sb dir child at)
        (plain : is_dir child ≡ false) (named : x.inode ≡ child.inode_no) where
      abbrev a : AllFreed child at d sb
      a = all_freed d sb dir child at i c

      i1 : IsSound a.disk a.after dir
      i1 = freed-IsSound d sb dir child at i c

      m1 : Models a.disk dir f
      m1 = freed-Models d sb dir child at i c f m

      table : a.after.inode_table_start ≡ sb.inode_table_start
      table = i1.guarded.table ∙ sym i.guarded.table

      -- The inode of the file is stored without a link.
      w : Written a.disk a.after (unused child)
      w =
          write_inode-Written a.disk a.after (unused child) (unused-IsTyped child c.typed)
            (omega (arith, c.image.0, table), omega (arith, c.image.1, table, a.size))

      away : (k : ℕ) → k < dir.block_count → ptr dir k ≢ home a.after child.inode_no
      away k h e = c.away k h (e ∙ omega (arith, table))

      i2 : IsSound w.disk a.after dir
      i2 = written-IsSound a.disk a.after dir i1 (unused child) c.other away w

      m2 : Models w.disk dir f
      m2 = written-Models a.disk a.after dir i1 (unused child) c.other away w f m1

      r : Removed w.disk a.after dir f name now
      r =
          subst (Removes w.disk a.after dir f name now i2 m2 small) there
            (dir_remove_entry-Removes w.disk a.after dir f name now i2 m2 small)

      bits_after : (k : ℕ) → k < max_blocks → bit_at r.disk k ≡ bit_at a.disk k
      bits_after k h =
          r.bits k h ∙ written_bits a.disk a.after dir i1 (unused child) c.other away w k h

      still_freed :
          Indirect child at d
          → child.indirect_block ≢ 0
          → bit_at r.disk child.indirect_block ≡ false
      still_freed (inl z) ne = absurd (ne z)
      still_freed (inr o) ne = bits_after child.indirect_block o.inside ∙ a.freed_indirect ne

      module _ (utf8 : is_utf8 name ≡ true) where
        called : to_str name [] ≡ name
        called = to_str-utf8 name [] utf8

        parent : dir.inode_no % 2 ^ 32 ≡ dir.inode_no
        parent = mod-eq_of_lt i.directory.typed.inode_no

        removed : remove_file d sb dir name child now ≡ ok (reply tt, r.disk, a.after)
        unfolding remove_file unwrap
        removed =
            rw (remove_file, a.direct, ◌>>=◌, a.indirect, ◌>>=◌, w.returns, ◌>>=◌, r.returns, ◌>>=◌)
              refl

        found : unlink d sb dir.inode_no name now ≡ remove_file d sb dir name child now
        unfolding unlink
        found =
            let (s, below, entry, matches, finds) =
              dir_find-FindsAs d sb dir i.directory.held i.directory.names name (some x)
                (subst (Shows (slots dir) (slot d dir) name) there (m name)) in
            rw
              (
                unlink, called, parent, i.directory.stored, ◌>>=◌, finds, ◌>>=◌, entry, named,
                c.stored, ◌>>=◌, plain,
              )
              (ap (λ n. remove_file d sb dir n child now) called)

        unlinked : Unlinked d sb dir f name now child at
        unlinked = record {
          disk = r.disk;
          after = a.after;
          returns = found ∙ removed;
          sound = r.sound;
          models = r.models;
          gone = lookup-LooksUp r.disk a.after (touched dir now) r.sound name utf8 none (
              subst (Shows (slots dir) (slot r.disk (touched dir now)) name)
                (updated_here f name none) (r.models name));
          inode =
              r.keeps.inodes child.inode_no c.other
                (omega (arith, c.image.0, table), omega (arith, c.image.1, table, a.size, w.size))
                (λ j h e. away j h (sym e))
              ∙ w.same;
          free = a.free;
          freed = λ k h.
              bits_after (at k) (c.owned.held.inside k (omega arith) (omega arith)) ∙ a.freed k h;
          freed_indirect = still_freed c.indirect;
          kept = λ k h apart ne. bits_after k h ∙ a.kept k h apart ne;
          size = r.size ∙ w.size ∙ a.size;
        }

  module _ (d : Disk) (sb : SuperBlock) (dir : Inode) (f : Names) (name : List ℕ) (now : ℕ)
      (i : IsSound d sb dir) (m : Models d dir f) (utf8 : is_utf8 name ≡ true)
      (small : now < 2 ^ 64) where
    -- The file or directory that an entry names, if there is one.
    abbrev pub Target : Option DirEntry → Type 0
    Target none = Unit
    Target (some x) =
        (child : Inode) × (at : ℕ → ℕ) × (x.inode ≡ child.inode_no)
        × (((is_dir child ≡ true) × (read_inode d sb child.inode_no ≡ ok child))
            ⊎ ((is_dir child ≡ false) × IsChildIn d sb dir child at))

    -- What `unlink` does.
    pub data Unlinks : Type 0 where
      missing :
          f name ≡ none → unlink d sb dir.inode_no name now ≡ ok (error enoent, d, sb) → Unlinks
      refused :
          (x : DirEntry) (child : Inode)
          → f name ≡ some x
          → read_inode d sb x.inode ≡ ok child
          → is_dir child ≡ true
          → unlink d sb dir.inode_no name now ≡ ok (error eisdir, d, sb)
          → Unlinks
      removed_file :
          (x : DirEntry) (child : Inode) (at : ℕ → ℕ)
          → f name ≡ some x
          → x.inode ≡ child.inode_no
          → read_inode d sb x.inode ≡ ok child
          → is_dir child ≡ false
          → ((k : ℕ) → k < child.block_count → pointer_at child d k ≡ at k)
          → Unlinked d sb dir f name now child at
          → Unlinks

    -- On a sound directory `unlink` of a name in UTF-8 removes the file that the name stands for, if
    -- the inode that the entry names is not a directory's: the name leaves the map and `lookup` replies ENOENT, every block of the file and its indirect
    -- block are given back and no other bit changes, the free count grows by their number, the inode
    -- is stored with a link count of 0, and the directory and the disk stay sound. If the name is not
    -- there, the reply is ENOENT, and if the inode is a directory's it is EISDIR; then nothing changes.
    -- The file owns its blocks, and shares none with the directory.
    pub unlink-Unlinks : (v : Option DirEntry) → f name ≡ v → Target v → Unlinks
    unfolding unlink
    unlink-Unlinks none e t = missing e (
        rw
          (
            unlink,
            mod-eq_of_lt i.directory.typed.inode_no,
            i.directory.stored,
            ◌>>=◌,
            to_str-utf8 name [] utf8,
            dir_find-FindsAs d sb dir i.directory.held i.directory.names name none
                (subst (Shows (slots dir) (slot d dir) name) e (m name)),
          )
          refl)
    unlink-Unlinks (some x) e (child, at, named, inl (folder, stored)) =
        let (s, below, entry, matches, finds) =
          dir_find-FindsAs d sb dir i.directory.held i.directory.names name (some x)
            (subst (Shows (slots dir) (slot d dir) name) e (m name)) in
        refused x child e (ap (read_inode d sb) named ∙ stored) folder (
          rw
            (
              unlink,
              mod-eq_of_lt i.directory.typed.inode_no,
              i.directory.stored,
              ◌>>=◌,
              to_str-utf8 name [] utf8,
              finds,
              ◌>>=◌,
              entry,
              named,
              stored,
              ◌>>=◌,
              folder,
            )
            refl)
    unlink-Unlinks (some x) e (child, at, named, inr (plain, c)) =
        removed_file x child at e named (ap (read_inode d sb) named ∙ c.stored) plain
          (λ k h. c.owned.held.pointers k (omega arith) (omega arith))
          (unlinked d sb dir f name now i m small x e child at c plain named utf8)
