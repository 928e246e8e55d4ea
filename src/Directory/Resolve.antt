-- ===== src/Directory/Resolve.antt =====
-- src/directory.rs: a path, from the root to its last part. A path is the list of its bytes.
use operating_system_experie.Base.{
  ℕ, true, false, ◌||◌, none, some, List, [], ◌∷◌, ◌++◌, length, if◌then◌else◌, ◌==◌, ltb, bit_and,
}
use operating_system_experie.Base.Outcome.{Outcome, ok, ◌>>=◌}
use operating_system_experie.Device.{Device}
use operating_system_experie.Superblock.{SuperBlock}
use operating_system_experie.Inode.{Inode, read_inode, s_ifdir}
use operating_system_experie.Directory.{
  DirError, invalid_component, not_a_directory, no_such_entry, no_such_directory, resolution_failed,
  max_name_len, dir_find,
}

-- The parts of a path between its slashes, the empty ones left out. `part` is the part begun.
unfoldable pub parts : List ℕ → List ℕ → List (List ℕ)
parts part [] = if length part == 0 then [] else part ∷ []
parts part (c ∷ path) =
    let skipped = parts [] path in
    let longer = parts (part ++ c ∷ []) path in
    if c == b'/' then if length part == 0 then skipped else part ∷ skipped else longer

unfoldable pub components : List ℕ → List (List ℕ)
components path = parts [] path

-- What `path_resolve` returns.
pub data Resolution : Type 0 where
  resolved : Inode → Inode → List ℕ → Resolution
  unresolved : DirError → Resolution

-- The error when a component is not there: the last one, or one before it.
pub missing : List (List ℕ) → DirError
missing [] = no_such_entry
missing (_ ∷ _) = no_such_directory

module _ ⦃dev : Device⦄ where
  open dev use {Disk}

  -- The loop of `path_resolve`: the components that are left, from an inode on. The result holds
  -- the target, its parent and its name.
  unfoldable pub resolve_from : Disk → SuperBlock → Inode → List (List ℕ) → Outcome Resolution
  resolve_from d sb current [] = ok (unresolved resolution_failed)
  resolve_from d sb current (component ∷ rest) =
      if length component == 0 || ltb max_name_len (length component)
      then ok (unresolved invalid_component)
      else do
        entry ← dir_find d current component
        elim entry [
          | none ↦ ok (unresolved (missing rest))
          | some x ↦ do
            child ← read_inode d sb x.0.inode
            elim rest [
              | [] ↦ ok (resolved child current component)
              | (_ ∷ _) ↦ elim (bit_and child.mode s_ifdir == 0) [
                | true ↦ ok (unresolved not_a_directory)
                | false ↦ resolve_from d sb child rest
              ]
            ]
        ]

  unfoldable pub path_resolve : Disk → SuperBlock → List ℕ → Outcome Resolution
  path_resolve d sb path = do
    root ← read_inode d sb sb.root_inode
    elim (components path) [
      | [] ↦ ok (resolved root root [])
      | (c ∷ cs) ↦ resolve_from d sb root (c ∷ cs)
    ]
