-- ===== src/Fs/Rmdir.antt =====
-- The handler `rmdir` as a whole.
use operating_system_experie.Base.{
  length, max_blocks, ltb, Bool-cases, ==_of_eq, ℕ, ◌+◌, ◌%◌, ◌^◌, ◌≤◌, ◌<◌, ◌≡◌, ◌≢◌, refl, ap,
  sym, ◌∙◌, true, false, List, Option, none, some, arith, inl, inr, subst, [],
}
use native.Mathlib.Nat.{mod-eq_of_lt}
use native.Mathlib.Decide.{dec_lt}
use operating_system_experie.Base.Outcome.{ok, ◌>>=◌}
use operating_system_experie.Base.Utf8.{is_utf8}
use operating_system_experie.Device.{Device}
use operating_system_experie.Superblock.{SuperBlock}
use operating_system_experie.Bitmap.Mark.{bit_at}
use operating_system_experie.Inode.{Inode, read_inode}
use operating_system_experie.Inode.BlockMap.{pointer_at}
use operating_system_experie.Inode.Table.{home, Written, write_inode-Written}
use operating_system_experie.Directory.{DirEntry, Found, dir_lookup}
use operating_system_experie.Directory.Slots.{ptr, slot, slots}
use operating_system_experie.Directory.View.{Names, update, Models, Shows, dir_find-FindsAs}
use operating_system_experie.Directory.Patch.{touched}
use operating_system_experie.Directory.Sound.{IsSound}
use operating_system_experie.Directory.Beside.{written-IsSound, written-Models, written_bits}
use operating_system_experie.Directory.Remove.{Removed, Removes, dir_remove_entry-Removes}
use operating_system_experie.Fs.{enoent, enotdir, enotempty, reply, error, is_dir}
use operating_system_experie.Fs.Changes.{unwrap, rmdir, remove_dir, free_blocks_from}
use operating_system_experie.Fs.Queries.{lookup}
use operating_system_experie.Fs.Lookup.{lookup-LooksUp, to_str-utf8, updated_here}
use operating_system_experie.Fs.Files.{
  unused, unused-IsTyped, IsChildIn, all_freed, freed-IsSound, freed-Models,
}
use operating_system_experie.Fs.ReleaseAll.{AllFreed}

module _ ⦃dev : Device⦄ where
  open dev use {Disk, blocks, block}

  -- The state after the directory was removed.
  pub record Vanished (d : Disk) (sb : SuperBlock) (dir : Inode) (f : Names) (name : List ℕ)
      (now : ℕ) (child : Inode) (at : ℕ → ℕ) : Type 0 where
    pub disk : Disk
    pub after : SuperBlock
    pub returns : rmdir d sb dir.inode_no name now ≡ ok (reply tt, disk, after)
    pub sound : IsSound disk after (touched dir now)
    pub models : Models disk (touched dir now) (update f name none)
    pub gone : lookup disk after dir.inode_no name ≡ ok (error enoent)
    pub inode : read_inode disk after child.inode_no ≡ ok (unused child)
    pub free : after.free_blocks ≡ sb.free_blocks + child.block_count
    pub freed : (k : ℕ) → k < child.block_count → bit_at disk (at k) ≡ false
    pub kept :
        (k : ℕ)
        → k < max_blocks
        → ((j : ℕ) → j < child.block_count → at j ≢ k)
        → bit_at disk k ≡ bit_at d k
    pub size : blocks disk ≡ blocks d

  module _ (d : Disk) (sb : SuperBlock) (dir : Inode) (f : Names) (name : List ℕ) (now : ℕ)
      (i : IsSound d sb dir) (m : Models d dir f) (utf8 : is_utf8 name ≡ true)
      (small : now < 2 ^ 64) where
    parent : dir.inode_no % 2 ^ 32 ≡ dir.inode_no
    parent = mod-eq_of_lt i.directory.typed.inode_no

    shown : (v : Option DirEntry) → f name ≡ v → Shows (slots dir) (slot d dir) name v
    shown v e = subst (Shows (slots dir) (slot d dir) name) e (m name)

    module _ (x : DirEntry) (there : f name ≡ some x) (child : Inode)
        (named : x.inode ≡ child.inode_no) where
      -- A directory without entries of its own.
      module _ (at : ℕ → ℕ) (c : IsChildIn d sb dir child at)
          (direct : child.indirect_block ≡ 0) where
        abbrev a : AllFreed child at d sb
        a = all_freed d sb dir child at i c

        i1 : IsSound a.disk a.after dir
        i1 = freed-IsSound d sb dir child at i c

        m1 : Models a.disk dir f
        m1 = freed-Models d sb dir child at i c f m

        table : a.after.inode_table_start ≡ sb.inode_table_start
        table = i1.guarded.table ∙ sym i.guarded.table

        released : free_blocks_from child.block_count 0 child d sb ≡ ok (a.disk, a.after)
        released = a.direct ∙ sym (rw (==_of_eq child.indirect_block 0 direct) refl) ∙ a.indirect

        r : Removed a.disk a.after dir f name now
        r =
            subst (Removes a.disk a.after dir f name now i1 m1 small) there
              (dir_remove_entry-Removes a.disk a.after dir f name now i1 m1 small)

        w : Written r.disk a.after (unused child)
        w =
            write_inode-Written r.disk a.after (unused child) (unused-IsTyped child c.typed)
              (omega (arith, c.image.0, table), omega (arith, c.image.1, table, a.size, r.size))

        away : (k : ℕ) → k < dir.block_count → ptr dir k ≢ home a.after child.inode_no
        away k h e = c.away k h (e ∙ omega (arith, table))

        sound : IsSound w.disk a.after (touched dir now)
        sound =
            written-IsSound r.disk a.after (touched dir now) r.sound (unused child) c.other away w

        models : Models w.disk (touched dir now) (update f name none)
        models =
            written-Models r.disk a.after (touched dir now) r.sound (unused child) c.other away w
              (update f name none) r.models

        removed : remove_dir d sb dir name child now ≡ ok (reply tt, w.disk, a.after)
        unfolding remove_dir unwrap
        removed = rw (remove_dir, released, ◌>>=◌, r.returns, ◌>>=◌, w.returns, ◌>>=◌) refl

        vanished :
            rmdir d sb dir.inode_no name now ≡ remove_dir d sb dir name child now
            → Vanished d sb dir f name now child at
        vanished found = record {
          disk = w.disk;
          after = a.after;
          returns = found ∙ removed;
          sound = sound;
          models = models;
          gone = lookup-LooksUp w.disk a.after (touched dir now) sound name utf8 none (
              subst (Shows (slots dir) (slot w.disk (touched dir now)) name)
                (updated_here f name none) (models name));
          inode = w.same;
          free = a.free ∙ rw (==_of_eq child.indirect_block 0 direct) (omega arith);
          freed = λ k h.
              let inside = c.owned.held.inside k (omega arith) (omega arith) in
              written_bits r.disk a.after (touched dir now) r.sound (unused child) c.other away w
                (at k) inside
              ∙ r.bits (at k) inside
              ∙ a.freed k h;
          kept = λ k h apart. elim (dec_lt 0 k) [
            | yes lo ↦
                written_bits r.disk a.after (touched dir now) r.sound (unused child) c.other away w
                  k h
                ∙ r.bits k h
                ∙ a.kept k h apart (omega (arith, direct))
            | no first ↦
                sound.guarded.system k (omega arith) ∙ sym (i.guarded.system k (omega arith))
          ];
          size = w.size ∙ r.size ∙ a.size;
        }

    -- What `rmdir` does.
    pub data Rmdirs : Type 0 where
      missing : f name ≡ none → rmdir d sb dir.inode_no name now ≡ ok (error enoent, d, sb) → Rmdirs
      not_directory :
          (x : DirEntry) (child : Inode)
          → f name ≡ some x
          → read_inode d sb x.inode ≡ ok child
          → is_dir child ≡ false
          → rmdir d sb dir.inode_no name now ≡ ok (error enotdir, d, sb)
          → Rmdirs
      occupied :
          (x : DirEntry) (child : Inode) (entries : List Found)
          → f name ≡ some x
          → read_inode d sb x.inode ≡ ok child
          → is_dir child ≡ true
          → dir_lookup d child ≡ ok entries
          → 2 < length entries
          → rmdir d sb dir.inode_no name now ≡ ok (error enotempty, d, sb)
          → Rmdirs
      vanished_dir :
          (x : DirEntry) (child : Inode) (at : ℕ → ℕ) (entries : List Found)
          → f name ≡ some x
          → x.inode ≡ child.inode_no
          → read_inode d sb x.inode ≡ ok child
          → is_dir child ≡ true
          → dir_lookup d child ≡ ok entries
          → length entries ≤ 2
          → ((k : ℕ) → k < child.block_count → pointer_at child d k ≡ at k)
          → Vanished d sb dir f name now child at
          → Rmdirs

    -- What an entry names: a file, or a directory with its entries and no indirect block.
    abbrev pub Goal : Option DirEntry → Type 0
    Goal none = Unit
    Goal (some x) =
        (child : Inode) × (at : ℕ → ℕ) × (entries : List Found) × (x.inode ≡ child.inode_no)
        × IsChildIn d sb dir child at
        × (child.indirect_block ≡ 0)
        × (dir_lookup d child ≡ ok entries)

    -- On a sound directory `rmdir` of a name in UTF-8 removes the directory that the name stands for
    -- if that one has at most two entries: the name leaves the map and `lookup` replies ENOENT, its
    -- blocks are given back and no other bit of the bitmap changes, the free count grows by their
    -- number, its inode is stored with a link count of 0, and the directory and the disk stay sound.
    -- If the name is not there the reply is ENOENT, if the inode that the entry names is not a
    -- directory's it is ENOTDIR, and if more than two entries are listed in it it is ENOTEMPTY; then
    -- nothing changes. What the name stands for owns its blocks, shares none with the directory, has
    -- no indirect block, and its entries can be listed.
    pub rmdir-Rmdirs : (v : Option DirEntry) → f name ≡ v → Goal v → Rmdirs
    unfolding rmdir
    rmdir-Rmdirs none e t = missing e (
        rw
          (
            rmdir,
            parent,
            i.directory.stored,
            ◌>>=◌,
            to_str-utf8 name [] utf8,
            dir_find-FindsAs d sb dir i.directory.held i.directory.names name none (shown none e),
          )
          refl)
    rmdir-Rmdirs (some x) e (child, at, entries, named, c, direct, listed) =
        let (s, below, entry, matches, finds) =
          dir_find-FindsAs d sb dir i.directory.held i.directory.names name (some x)
            (shown (some x) e) in
        elim (Bool-cases (is_dir child)) [
          | inr file ↦ not_directory x child e (ap (read_inode d sb) named ∙ c.stored) file (
              rw
                (
                  rmdir,
                  parent,
                  i.directory.stored,
                  ◌>>=◌,
                  to_str-utf8 name [] utf8,
                  finds,
                  ◌>>=◌,
                  entry,
                  named,
                  c.stored,
                  ◌>>=◌,
                  file,
                )
                refl)
          | inl folder ↦ elim (Bool-cases (ltb 2 (length entries))) [
            | inl more ↦
                occupied x child entries e (ap (read_inode d sb) named ∙ c.stored) folder listed
                  (ground (arith, more))
                  (rw
                    (
                      rmdir,
                      parent,
                      i.directory.stored,
                      ◌>>=◌,
                      to_str-utf8 name [] utf8,
                      finds,
                      ◌>>=◌,
                      entry,
                      named,
                      c.stored,
                      ◌>>=◌,
                      folder,
                      listed,
                      ◌>>=◌,
                      more,
                    )
                    refl)
            | inr two ↦
                vanished_dir x child at entries e named (ap (read_inode d sb) named ∙ c.stored)
                  folder listed (ground (arith, two))
                  (λ k h. c.owned.held.pointers k (omega arith) (omega arith))
                  (vanished x e child named at c direct (
                    rw
                      (
                        rmdir,
                        parent,
                        i.directory.stored,
                        ◌>>=◌,
                        to_str-utf8 name [] utf8,
                        finds,
                        ◌>>=◌,
                        entry,
                        named,
                        c.stored,
                        ◌>>=◌,
                        folder,
                        listed,
                        ◌>>=◌,
                        two,
                      )
                      (ap (λ n. remove_dir d sb dir n child now) (to_str-utf8 name [] utf8))))
          ]
        ]
