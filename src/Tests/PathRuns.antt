-- ===== src/Tests/PathRuns.antt =====
-- src/directory.rs: paths, and `/./.././notes` on a formatted disk in memory.
use operating_system_experie.Base.{
  ℕ, ◌≡◌, ap, sym, ◌∙◌, inr, true, none, some, some_inj, List, [], ◌∷◌, arith,
}
use operating_system_experie.Base.Outcome.{ok}
use operating_system_experie.Inode.{Inode, read_inode}
use operating_system_experie.Directory.{DirEntry, new}
use operating_system_experie.Directory.Path.{path_of, IsParts, components-path_of}
use operating_system_experie.Directory.Resolve.{Resolution, components, path_resolve}
use operating_system_experie.Directory.Walk.{HasMap, Walks, IsTree, path_resolve-Walks}
use operating_system_experie.Fs.{dot, dotdot}
use operating_system_experie.Fs.Dots.{dots}
use operating_system_experie.Fs.Format.{root_of}
use operating_system_experie.Memory.{memory}
use operating_system_experie.Tests.DirectoryRuns.{notes_name}
use operating_system_experie.Tests.RootRuns.{rooted}

abbrev names : List (List ℕ)
names = dotdot ∷ notes_name ∷ []

names-IsParts : IsParts (dot ∷ names)
names-IsParts = (
  omega arith,
  (omega arith, tt),
  (
    omega arith,
    (omega arith, (omega arith, tt)),
    (
      omega arith,
      (omega arith, (omega arith, (omega arith, (omega arith, (omega arith, tt))))),
      tt,
    ),
  ),
)

components-path_of_example : components (path_of (dot ∷ names)) ≡ dot ∷ names
components-path_of_example = components-path_of (dot ∷ names) names-IsParts

root : Inode
root = root_of 1700000000

root-HasMap : HasMap ⦃dev = memory⦄ rooted.formatted.disk rooted.formatted.sb root (dots 1 1)
unfolding root
root-HasMap = record {
  held = rooted.sound.directory.held;
  names = rooted.sound.directory.names;
  models = rooted.models;
}

stored : read_inode ⦃dev = memory⦄ rooted.formatted.disk rooted.formatted.sb 1 ≡ ok root
unfolding root root_of operating_system_experie.Inode.new_dir
stored = rooted.sound.directory.stored

here : (x : DirEntry) (name : List ℕ) → some (new 1 name true) ≡ some x → x.inode ≡ 1
unfolding new
here x name e = ap (λ y. y.inode) (sym (some_inj e))

unnamed : (x : DirEntry) → none ≡ some x → ⊥
unnamed x e = cc

tree : IsTree ⦃dev = memory⦄ rooted.formatted.disk rooted.formatted.sb root (dot ∷ names)
tree = (
  dots 1 1,
  root-HasMap,
  λ x e. (
    root,
    ap (read_inode ⦃dev = memory⦄ rooted.formatted.disk rooted.formatted.sb) (here x dot e)
        ∙ stored,
    inr (
      dots 1 1,
      root-HasMap,
      λ x e. (
        root,
        ap (read_inode ⦃dev = memory⦄ rooted.formatted.disk rooted.formatted.sb) (here x dotdot e)
            ∙ stored,
        inr (dots 1 1, root-HasMap, λ x e. absurd (unnamed x e)),
      ),
    ),
  ),
)

path_resolve-Walks_example :
    (r : Resolution) × Walks ⦃dev = memory⦄ rooted.formatted.disk rooted.formatted.sb root
      (dot ∷ names)
      r
    × (path_resolve ⦃dev = memory⦄ rooted.formatted.disk rooted.formatted.sb (path_of (dot ∷ names))
        ≡ ok r)
path_resolve-Walks_example =
    path_resolve-Walks ⦃dev = memory⦄ rooted.formatted.disk rooted.formatted.sb root dot names
      (ap (read_inode ⦃dev = memory⦄ rooted.formatted.disk rooted.formatted.sb)
          rooted.formatted.number
        ∙ stored)
      names-IsParts tree
