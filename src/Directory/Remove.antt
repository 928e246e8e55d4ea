-- ===== src/Directory/Remove.antt =====
-- `dir_remove_entry` takes a name out of the map of a directory.
use operating_system_experie.Base.{
  ℕ, max_blocks, ◌+◌, ◌/◌, ◌%◌, ◌^◌, ◌<◌, ◌≡◌, refl, ap, sym, ◌∙◌, Bool, true, false, List, set,
  length-set, Option, none, some, bytes_eq, bytes_eq_iff, arith, Bool-cases, inl, inr,
}
use operating_system_experie.Base.Slices.{set-IsBytes}
use operating_system_experie.Base.Outcome.{ok, ◌>>=◌}
use operating_system_experie.Device.{Device, IsBlock}
use operating_system_experie.Directory.Search.{found_slot}
use operating_system_experie.Superblock.{SuperBlock}
use operating_system_experie.Bitmap.Mark.{bit_at}
use operating_system_experie.Inode.{Inode}
use operating_system_experie.Directory.{
  DirEntry, done, failed, not_found, entries_per_block, is_empty, entry_at, dir_remove_entry,
  dir_find,
}
use operating_system_experie.Directory.Slots.{
  named, named-used, named-ne, named_empty, slot, slots, place,
}
use operating_system_experie.Directory.View.{
  Names, update, bytes_ne, Shows, Models, dir_find-FindsAs,
}
use operating_system_experie.Directory.Patch.{
  Patched, touched, patch-Patched, touched-IsTyped, entry_at-set_self, entry_at-set_ne,
}
use operating_system_experie.Directory.Sound.{
  IsSound, Keeps, patched-IsGuarded, patched-IsTaken, patched-Keeps, patched_bits,
}
use operating_system_experie.Directory.Effect.{patched-HasNames, kept-Shows, gone-Shows}

module _ ⦃dev : Device⦄ where
  open dev use {Disk, read_block, write_block, blocks, block}

  clash : (b : Bool) → b ≡ true → b ≡ false → ⊥
  clash b t f = cc

  -- The state after a name was taken out.
  pub record Removed (d : Disk) (sb : SuperBlock) (dir : Inode) (f : Names) (name : List ℕ)
      (now : ℕ) : Type 0 where
    pub disk : Disk
    pub returns : dir_remove_entry d sb dir name now ≡ ok (done, disk, sb, touched dir now)
    pub sound : IsSound disk sb (touched dir now)
    pub bits : (m : ℕ) → m < max_blocks → bit_at disk m ≡ bit_at d m
    pub keeps : Keeps d sb dir disk sb (touched dir now)
    pub models : Models disk (touched dir now) (update f name none)
    pub size : blocks disk ≡ blocks d

  module _ (d : Disk) (sb : SuperBlock) (dir : Inode) (f : Names) (name : List ℕ) (now : ℕ)
      (i : IsSound d sb dir) (m : Models d dir f) (small : now < 2 ^ 64) where
    -- The slot that is found is freed.
    module _ (s : ℕ) (below : s < slots dir) (matches : named name (slot d dir s) ≡ true) where
      abbrev buf : List ℕ
      buf = block d (place dir s).0

      inside : (place dir s).0 < blocks d
      inside = i.directory.held.inside (s / entries_per_block) (omega arith)

      abbrev freed : List ℕ
      freed = set buf ((place dir s).1 + 5) 0

      freed-IsBlock : IsBlock freed
      freed-IsBlock =
          let whole = dev.block-IsBlock d (place dir s).0 inside in
          (
            length-set buf ((place dir s).1 + 5) 0 ∙ whole.0,
            set-IsBytes buf ((place dir s).1 + 5) 0 (omega arith) whole.1,
          )

      p : Patched d sb dir now s freed
      p =
          patch-Patched d sb dir now s freed i.directory.held i.directory.typed i.directory.image
            small below freed-IsBlock (λ k h. entry_at-set_ne buf (s % entries_per_block) k h)

      now_empty : is_empty (entry_at freed (s % entries_per_block)) ≡ true
      now_empty =
          entry_at-set_self buf (s % entries_per_block)
            (dev.block-IsBlock d (place dir s).0 inside).0 (omega arith)

      unnamed : (q : List ℕ) → named q (entry_at freed (s % entries_per_block)) ≡ false
      unnamed q = named_empty q (entry_at freed (s % entries_per_block)) now_empty

      shows : Models p.disk (touched dir now) (update f name none)
      shows q = elim (Bool-cases (bytes_eq name q)) [
        | inl e ↦ rw e (
            gone-Shows (slots dir) (slot d dir) (slot p.disk (touched dir now)) i.directory.names s
              below (entry_at freed (s % entries_per_block)) p.entries q
              (ap (λ n. named n (slot d dir s)) (sym ((bytes_eq_iff name q).0 e)) ∙ matches)
              (unnamed q))
        | inr e ↦ rw e (
            kept-Shows (slots dir) (slot d dir) (slot p.disk (touched dir now)) i.directory.names s
              below (entry_at freed (s % entries_per_block)) p.entries q (f q)
              (named-ne q (slot d dir s)
                (λ same. bytes_ne name q e (sym (named-used name (slot d dir s) matches).1 ∙ same)))
              (unnamed q) (m q))
      ]

      removed : dir_find d dir name ≡ ok (some (found_slot d dir s)) → Removed d sb dir f name now
      unfolding dir_remove_entry
      removed found = record {
        disk = p.disk;
        returns =
            rw
              (
                dir_remove_entry,
                found,
                ◌>>=◌,
                dev.read_block-ok d (place dir s).0 inside,
                ◌>>=◌,
                p.writes,
                ◌>>=◌,
                p.stores,
                ◌>>=◌,
              )
              refl;
        sound = record {
          directory = record {
            stored = p.inode;
            typed = touched-IsTyped dir now i.directory.typed small;
            image = (i.directory.image.0, omega (arith, i.directory.image.1, p.size));
            held = p.held;
            names =
                patched-HasNames (slots dir) (slot d dir) (slot p.disk (touched dir now))
                  i.directory.names s below (entry_at freed (s % entries_per_block)) p.entries
                  (λ used. absurd (clash _ now_empty used));
          };
          guarded = patched-IsGuarded d sb dir now s freed p below i.guarded i.held;
          held = patched-IsTaken d sb dir now s freed p below i.guarded i.held;
        };
        bits = patched_bits d sb dir now s freed p below i.guarded i.held;
        keeps = patched-Keeps d sb dir now s freed p below i.guarded i.held;
        models = shows;
        size = p.size;
      }

    -- What `dir_remove_entry` does to a directory whose map has some value at the name.
    abbrev pub Removes : Option DirEntry → Type 0
    Removes none = dir_remove_entry d sb dir name now ≡ ok (failed not_found, d, sb, dir)
    Removes (some e) = Removed d sb dir f name now

    removes : (v : Option DirEntry) → Shows (slots dir) (slot d dir) name v → Removes v
    unfolding dir_remove_entry
    removes none h =
        rw
          (
            dir_remove_entry,
            dir_find-FindsAs d sb dir i.directory.held i.directory.names name none h,
          )
          refl
    removes (some e) h =
        let (s, below, same, matches, found) =
          dir_find-FindsAs d sb dir i.directory.held i.directory.names name (some e) h in
        removed s below matches found

    -- On a well-formed directory `dir_remove_entry` takes the name out of the map: the directory stays
    -- well formed, every other name keeps its entry, the disk stays consistent, and the taken
    -- data blocks of others keep their bytes. A name that is not there is an error, and nothing
    -- changes. The blocks of the directory and of its inode are marked as taken.
    pub dir_remove_entry-Removes : Removes (f name)
    dir_remove_entry-Removes = removes (f name) (m name)
