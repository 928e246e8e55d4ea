-- ===== src/Fs/Lookup.antt =====
-- The handler `lookup` reads the map of a directory.
use native.Mathlib.Nat.{mod-eq_of_lt}
use operating_system_experie.Base.{
  ℕ, ◌%◌, ◌^◌, ◌≡◌, refl, true, List, Option, none, some, [], bytes_eq_iff,
}
use operating_system_experie.Base.Outcome.{ok, ◌>>=◌}
use operating_system_experie.Base.Utf8.{is_utf8}
use operating_system_experie.Device.{Device}
use operating_system_experie.Superblock.{SuperBlock}
use operating_system_experie.Inode.{Inode, read_inode}
use operating_system_experie.Directory.{DirEntry}
use operating_system_experie.Directory.Slots.{slot, slots}
use operating_system_experie.Directory.View.{Names, update, Shows, dir_find-FindsAs}
use operating_system_experie.Directory.Sound.{IsSound}
use operating_system_experie.Fs.{enoent, reply, error, to_str, inode_to_attr}
use operating_system_experie.Fs.Queries.{lookup}

pub to_str-utf8 : (name other : List ℕ) → is_utf8 name ≡ true → to_str name other ≡ name
unfolding to_str
to_str-utf8 name other h = rw h refl

pub updated_here : (f : Names) (name : List ℕ) (v : Option DirEntry) → update f name v name ≡ v
updated_here f name v = rw ((bytes_eq_iff name name).1 refl) refl

module _ ⦃dev : Device⦄ where
  open dev use {Disk}

  -- What `lookup` replies for the value of a map.
  abbrev pub LooksUp : Disk → SuperBlock → Inode → List ℕ → Option DirEntry → Type 0
  LooksUp d sb dir name none = lookup d sb dir.inode_no name ≡ ok (error enoent)
  LooksUp d sb dir name (some x) =
      lookup d sb dir.inode_no name
      ≡ (read_inode d sb x.inode >>= λ child. ok (reply (inode_to_attr child)))

  module _ (d : Disk) (sb : SuperBlock) (dir : Inode) (i : IsSound d sb dir) (name : List ℕ)
      (utf8 : is_utf8 name ≡ true) where
    parent : dir.inode_no % 2 ^ 32 ≡ dir.inode_no
    parent = mod-eq_of_lt i.directory.typed.inode_no

    -- In a sound directory `lookup` of a name in UTF-8 replies ENOENT if the directory's map has no entry for
    -- it, and otherwise the attributes of the inode that the entry names.
    pub lookup-LooksUp :
        (v : Option DirEntry) → Shows (slots dir) (slot d dir) name v → LooksUp d sb dir name v
    unfolding lookup
    lookup-LooksUp none h =
        rw
          (
            lookup,
            parent,
            i.directory.stored,
            ◌>>=◌,
            to_str-utf8 name [] utf8,
            dir_find-FindsAs d sb dir i.directory.held i.directory.names name none h,
          )
          refl
    lookup-LooksUp (some x) h =
        let (s, below, entry, matches, finds) =
          dir_find-FindsAs d sb dir i.directory.held i.directory.names name (some x) h in
        rw
          (lookup, parent, i.directory.stored, ◌>>=◌, to_str-utf8 name [] utf8, finds, ◌>>=◌, entry)
          refl
