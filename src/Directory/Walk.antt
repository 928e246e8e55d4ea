-- ===== src/Directory/Walk.antt =====
-- `path_resolve` against a walk through the maps of the directories on the way.
use operating_system_experie.Base.{
  ℕ, ◌<◌, ◌≤◌, ◌≡◌, ◌≢◌, ◌⊎◌, inl, inr, refl, subst, true, false, ◌||◌, Option, none, some, List,
  [], ◌∷◌, length, arith, ◌==◌, ltb, bit_and, ==_of_ne, ==_of_eq, eq_of_==, ne_of_==, Bool-cases,
  Option-cases,
}
use native.Mathlib.Decide.{dec_lt}
use operating_system_experie.Base.Outcome.{ok, ◌>>=◌}
use operating_system_experie.Device.{Device}
use operating_system_experie.Superblock.{SuperBlock}
use operating_system_experie.Inode.{Inode, read_inode, s_ifdir}
use operating_system_experie.Directory.{DirEntry, invalid_component, not_a_directory, max_name_len}
use operating_system_experie.Directory.Slots.{slot, slots, HasDirBlocks, HasNames}
use operating_system_experie.Directory.View.{Names, Models, Shows, dir_find-FindsAs}
use operating_system_experie.Directory.Resolve.{
  Resolution, resolved, unresolved, missing, resolve_from, path_resolve,
}
use operating_system_experie.Directory.Path.{path_of, IsParts, components-path_of}

-- The lengths of a name.
abbrev pub IsFit : List ℕ → Type 0
IsFit name = (0 < length name) × (length name ≤ max_name_len)

module _ ⦃dev : Device⦄ where
  open dev use {Disk}

  -- A well-formed directory, and its map.
  pub record HasMap (d : Disk) (sb : SuperBlock) (dir : Inode) (f : Names) : Type 0 where
    pub held : HasDirBlocks d sb dir
    pub names : HasNames (slots dir) (slot d dir)
    pub models : Models d dir f

  module _ (d : Disk) (sb : SuperBlock) where
    -- A walk from a directory along some names, and where it ends.
    pub data Walks : Inode → List (List ℕ) → Resolution → Type 0 where
      too_long :
          {dir : Inode} {name : List ℕ} {rest : List (List ℕ)}
          → max_name_len < length name
          → Walks dir (name ∷ rest) (unresolved invalid_component)
      absent :
          {dir : Inode} {f : Names} {name : List ℕ} {rest : List (List ℕ)}
          → IsFit name
          → HasMap d sb dir f
          → f name ≡ none
          → Walks dir (name ∷ rest) (unresolved (missing rest))
      arrives :
          {dir child : Inode} {f : Names} {name : List ℕ} {x : DirEntry}
          → IsFit name
          → HasMap d sb dir f
          → f name ≡ some x
          → read_inode d sb x.inode ≡ ok child
          → Walks dir (name ∷ []) (resolved child dir name)
      blocked :
          {dir child : Inode} {f : Names} {name next : List ℕ} {rest : List (List ℕ)} {x : DirEntry}
          → IsFit name
          → HasMap d sb dir f
          → f name ≡ some x
          → read_inode d sb x.inode ≡ ok child
          → bit_and child.mode s_ifdir ≡ 0
          → Walks dir (name ∷ next ∷ rest) (unresolved not_a_directory)
      descends :
          {dir child : Inode} {f : Names} {name next : List ℕ} {rest : List (List ℕ)} {x : DirEntry}
          {r : Resolution}
          → IsFit name
          → HasMap d sb dir f
          → f name ≡ some x
          → read_inode d sb x.inode ≡ ok child
          → bit_and child.mode s_ifdir ≢ 0
          → Walks child (next ∷ rest) r
          → Walks dir (name ∷ next ∷ rest) r

    in_range :
        (name : List ℕ) → IsFit name → (length name == 0 || ltb max_name_len (length name)) ≡ false
    in_range name h = ground arith

    out_of_range :
        (name : List ℕ)
        → max_name_len < length name
        → (length name == 0 || ltb max_name_len (length name)) ≡ true
    out_of_range name h = ground arith

    module _ (dir : Inode) (f : Names) (h : HasMap d sb dir f) (name : List ℕ) where
      shown : (v : Option DirEntry) → f name ≡ v → Shows (slots dir) (slot d dir) name v
      shown v e = subst (Shows (slots dir) (slot d dir) name) e (h.models name)

    -- Every walk is what the loop computes.
    pub resolve_from-Walks :
        (dir : Inode) (names : List (List ℕ)) (r : Resolution)
        → Walks dir names r
        → resolve_from d sb dir names ≡ ok r
    unfolding resolve_from
    resolve_from-Walks dir [] r w = elim w [ ]
    resolve_from-Walks dir (name ∷ rest) r (too_long long) =
        rw (resolve_from, out_of_range name long) refl
    resolve_from-Walks dir (name ∷ rest) r (absent {f} fit h e) =
        rw
          (
            resolve_from,
            in_range name fit,
            dir_find-FindsAs d sb dir h.held h.names name none (shown dir f h name none e),
            ◌>>=◌,
          )
          refl
    resolve_from-Walks dir (name ∷ []) r (arrives {child} {f} {x} fit h e stored) =
        let (at, below, same, matches, found) =
          dir_find-FindsAs d sb dir h.held h.names name (some x) (shown dir f h name (some x) e) in
        rw (resolve_from, in_range name fit, found, ◌>>=◌, same, stored) refl
    resolve_from-Walks dir (name ∷ next ∷ rest) r (blocked {child} {f} {x} fit h e stored file) =
        let (at, below, same, matches, found) =
          dir_find-FindsAs d sb dir h.held h.names name (some x) (shown dir f h name (some x) e) in
        rw
          (
            resolve_from,
            in_range name fit,
            found,
            ◌>>=◌,
            same,
            stored,
            ==_of_eq (bit_and child.mode s_ifdir) 0 file,
          )
          refl
    resolve_from-Walks dir (name ∷ next ∷ rest) r
          (descends {child} {f} {x} fit h e stored is_dir w) =
        let (at, below, same, matches, found) =
          dir_find-FindsAs d sb dir h.held h.names name (some x) (shown dir f h name (some x) e) in
        rw
          (
            resolve_from,
            in_range name fit,
            found,
            ◌>>=◌,
            same,
            stored,
            ==_of_ne (bit_and child.mode s_ifdir) 0 is_dir,
          )
          (resolve_from-Walks child (next ∷ rest) r w)

    -- The directories on the way are well formed, and the entries on the way name inodes.
    abbrev pub IsTree : Inode → List (List ℕ) → Type 0
    IsTree dir [] = Unit {0}
    IsTree dir (name ∷ rest) =
        (f : Names) × HasMap d sb dir f
        × ((x : DirEntry)
            → f name ≡ some x
            → (child : Inode) × (read_inode d sb x.inode ≡ ok child)
              × ((bit_and child.mode s_ifdir ≡ 0) ⊎ IsTree child rest))

    -- Where a walk ends, if there are names.
    abbrev Ends : Inode → List (List ℕ) → Type 0
    Ends dir [] = Unit {0}
    Ends dir (name ∷ rest) = (r : Resolution) × Walks dir (name ∷ rest) r

    onward :
        (dir : Inode) (name : List ℕ) (rest : List (List ℕ)) (f : Names) (x : DirEntry)
        → IsFit name
        → HasMap d sb dir f
        → f name ≡ some x
        → (child : Inode) × (read_inode d sb x.inode ≡ ok child)
          × ((bit_and child.mode s_ifdir ≡ 0) ⊎ IsTree child rest)
        → ((child : Inode) → IsTree child rest → Ends child rest)
        → (r : Resolution) × Walks dir (name ∷ rest) r
    onward dir name [] f x fit h e (child, stored, kind) again =
        (resolved child dir name, arrives fit h e stored)
    onward dir name (next ∷ rest) f x fit h e (child, stored, inl file) again =
        (unresolved not_a_directory, blocked fit h e stored file)
    onward dir name (next ∷ rest) f x fit h e (child, stored, inr tree) again =
        elim (Bool-cases (bit_and child.mode s_ifdir == 0)) [
          | inl file ↦ (
            unresolved not_a_directory,
            blocked fit h e stored (eq_of_== (bit_and child.mode s_ifdir) 0 file),
          )
          | inr folder ↦
              let (r, w) = again child tree in
              (r, descends fit h e stored (ne_of_== (bit_and child.mode s_ifdir) 0 folder) w)
        ]

    walk : (dir : Inode) (names : List (List ℕ)) → IsParts names → IsTree dir names → Ends dir names
    walk dir [] parts tree = tt
    walk dir (name ∷ rest) parts (f, h, below) = elim (dec_lt max_name_len (length name)) [
      | yes long ↦ (unresolved invalid_component, too_long long)
      | no short ↦ elim (Option-cases (f name)) [
        | inl e ↦ (unresolved (missing rest), absent (parts.0, omega arith) h e)
        | inr (x, e) ↦
            onward dir name rest f x (parts.0, omega arith) h e (below x e)
              (λ child tree. walk child rest parts.2 tree)
      ]
    ]

    -- On a tree of well-formed directories `path_resolve` of the absolute path with some names ends,
    -- and returns where the walk along the names ends: at the inode of the last name, with its parent
    -- and the name, or with the error of the first name that is too long, that is not there, or that
    -- is no directory though names follow.
    pub path_resolve-Walks :
        (root : Inode) (name : List ℕ) (rest : List (List ℕ))
        → read_inode d sb sb.root_inode ≡ ok root
        → IsParts (name ∷ rest)
        → IsTree root (name ∷ rest)
        → (r : Resolution) × Walks root (name ∷ rest) r
          × (path_resolve d sb (path_of (name ∷ rest)) ≡ ok r)
    unfolding path_resolve
    path_resolve-Walks root name rest stored parts tree =
        let (r, w) = walk root (name ∷ rest) parts tree in
        (
          r,
          w,
          rw (path_resolve, stored, ◌>>=◌, components-path_of (name ∷ rest) parts)
              (resolve_from-Walks root (name ∷ rest) r w),
        )
