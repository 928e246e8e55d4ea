-- ===== src/Directory/Add.antt =====
-- `dir_add_entry` puts a name into the map of a directory.
use operating_system_experie.Base.{
  ℕ, ◌/◌, ◌%◌, ◌^◌, ◌≤◌, ◌<◌, ◌≡◌, refl, ap, sym, subst, ◌∙◌, Bool, true, false, List, length, none,
  some, arith, if◌then◌else◌, ◌==◌, ==_of_ne,
}
use operating_system_experie.Base.Slices.{IsBytes, splice, length-splice, splice-IsBytes}
use operating_system_experie.Base.Utf8.{is_utf8}
use operating_system_experie.Base.Outcome.{ok_inj, ok, ◌>>=◌}
use operating_system_experie.Device.{Device, IsBlock}
use operating_system_experie.Superblock.{SuperBlock}
use operating_system_experie.Inode.{Inode}
use operating_system_experie.Directory.{
  DirEntry, Status, done, failed, already_exists, max_name_len, entries_per_block, dir_entry_size,
  is_empty, entry_at, new, to_bytes, name_str, dir_find, free_from, extend, dir_add_entry,
}
use operating_system_experie.Directory.Entry.{
  new-IsTyped, to_bytes_entry-IsBytes, name_str-new_short,
}
use operating_system_experie.Directory.Slots.{text, name_str-text, slot, slots, place}
use operating_system_experie.Directory.View.{Names, update, Shows, Models, dir_find-FindsAs}
use operating_system_experie.Directory.Patch.{
  Patched, touched, touched-IsTyped, patch-Patched, entry_at-splice_self, entry_at-splice_ne,
}
use operating_system_experie.Directory.Sound.{
  IsSound, Keeps, patched-IsGuarded, patched-IsTaken, patched-Keeps,
}
use operating_system_experie.Directory.Effect.{added-HasNames, added-Shows}

-- A name that an entry keeps whole.
pub record IsName (name : List ℕ) : Type 0 where
  pub some_bytes : 0 < length name
  pub short : length name ≤ max_name_len
  pub utf8 : is_utf8 name ≡ true
  pub bytes : IsBytes name

module _ (child : ℕ) (name : List ℕ) (is_dir : Bool) (n : IsName name) where
  pub new-short : (new child name is_dir).name_len ≤ max_name_len
  unfolding new
  new-short = omega (arith, n.short)

  pub new-used : is_empty (new child name is_dir) ≡ false
  unfolding new is_empty
  new-used = ==_of_ne _ 0 (omega (arith, n.short, n.some_bytes))

  pub text-new : text (new child name is_dir) ≡ name
  text-new = ok_inj (
      sym (name_str-text (new child name is_dir) new-short)
      ∙ name_str-new_short child name is_dir n.short n.utf8)

module _ ⦃dev : Device⦄ where
  open dev use {Disk, read_block, write_block, blocks, block}

  -- The state after a name was put in.
  pub record Added (d : Disk) (sb : SuperBlock) (dir : Inode) (f : Names) (name : List ℕ)
      (child : ℕ) (is_dir : Bool) (now : ℕ) : Type 0 where
    pub disk : Disk
    pub after : SuperBlock
    pub inode : Inode
    pub returns : dir_add_entry d sb dir name child is_dir now ≡ ok (done, disk, after, inode)
    pub sound : IsSound disk after inode
    pub keeps : Keeps d sb dir disk after inode
    pub models : Models disk inode (update f name (some (new child name is_dir)))
    pub size : blocks disk ≡ blocks d

  module _ (d : Disk) (sb : SuperBlock) (dir : Inode) (f : Names) (name : List ℕ) (child : ℕ)
      (is_dir : Bool) (now : ℕ) (i : IsSound d sb dir) (m : Models d dir f)
      (named_well : IsName name) (fits : child < 2 ^ 32) (small : now < 2 ^ 64) where
    abbrev entry : DirEntry
    entry = new child name is_dir

    typed : operating_system_experie.Directory.IsTyped entry
    typed = new-IsTyped child name is_dir fits named_well.bytes

    pub absent : f name ≡ none → Shows (slots dir) (slot d dir) name none
    absent e = subst (Shows (slots dir) (slot d dir) name) e (m name)

    -- A free slot of the blocks that are there takes the entry.
    module _ (s : ℕ) (below : s < slots dir) (free : is_empty (slot d dir s) ≡ true)
        (e : f name ≡ none) where
      abbrev buf : List ℕ
      buf = block d (place dir s).0

      inside : (place dir s).0 < blocks d
      inside = i.directory.held.inside (s / entries_per_block) (omega arith)

      abbrev filled : List ℕ
      filled = splice (place dir s).1 (to_bytes entry) buf

      filled-IsBlock : IsBlock filled
      filled-IsBlock =
          let whole = dev.block-IsBlock d (place dir s).0 inside in
          (
            length-splice (place dir s).1 (to_bytes entry) buf ∙ whole.0,
            splice-IsBytes (place dir s).1 (to_bytes entry) buf (to_bytes_entry-IsBytes entry typed)
                whole.1,
          )

      p : Patched d sb dir now s filled
      p =
          patch-Patched d sb dir now s filled i.directory.held i.directory.typed i.directory.image
            small below filled-IsBlock
            (λ k h. entry_at-splice_ne entry buf (s % entries_per_block) k h)

      entries :
          (t : ℕ)
          → t < slots dir
          → slot p.disk (touched dir now) t ≡ (if s == t then entry else slot d dir t)
      entries t h =
          p.entries t h
          ∙ ap (λ x. if s == t then x else slot d dir t)
              (entry_at-splice_self entry buf (s % entries_per_block) typed
                (dev.block-IsBlock d (place dir s).0 inside).0 (omega arith))

      pub fills_slot :
          free_from dir.block_count 0 d dir ≡ ok (some ((place dir s).0, (place dir s).1, buf))
          → (a : Added d sb dir f name child is_dir now) × (a.after ≡ sb)
            × (a.inode ≡ touched dir now)
      unfolding dir_add_entry
      fills_slot found = (
        record {
          disk = p.disk;
          after = sb;
          inode = touched dir now;
          returns =
              rw
                (
                  dir_add_entry,
                  dir_find-FindsAs d sb dir i.directory.held i.directory.names name none (absent e),
                  ◌>>=◌,
                  found,
                  ◌>>=◌,
                  p.writes,
                  ◌>>=◌,
                  p.stores,
                  ◌>>=◌,
                )
                refl;
          sound = record {
            directory = record {
              stored = p.inode;
              typed = touched-IsTyped dir now i.directory.typed small;
              image = (i.directory.image.0, omega (arith, i.directory.image.1, p.size));
              held = p.held;
              names =
                  added-HasNames (slots dir) (slot d dir) (slot p.disk (touched dir now))
                    i.directory.names s below entry entries name free
                    (new-used child name is_dir named_well) (new-short child name is_dir named_well)
                    (text-new child name is_dir named_well) (absent e);
            };
            guarded = patched-IsGuarded d sb dir now s filled p below i.guarded i.held;
            held = patched-IsTaken d sb dir now s filled p below i.guarded i.held;
          };
          keeps = patched-Keeps d sb dir now s filled p below i.guarded i.held;
          models =
              added-Shows (slots dir) (slot d dir) (slot p.disk (touched dir now)) i.directory.names
                s below entry entries name free (new-used child name is_dir named_well)
                (new-short child name is_dir named_well) (text-new child name is_dir named_well)
                (absent e) f m;
          size = p.size;
        },
        refl,
        refl,
      )
