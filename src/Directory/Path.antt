-- ===== src/Directory/Path.antt =====
-- The parts of a path, against the path that is written from them.
use operating_system_experie.Base.{
  ℕ, ◌+◌, ◌<◌, ◌≡◌, ◌≢◌, refl, ap, sym, ◌∙◌, List, [], ◌∷◌, ◌++◌, length, length-append, arith,
  ==_of_ne,
}
use mathlib.Core.List.{append_assoc, append-nil}
use operating_system_experie.Directory.Resolve.{parts, components}

-- A name without a slash.
abbrev pub IsSlashFree : List ℕ → Type 0
IsSlashFree [] = Unit {0}
IsSlashFree (c ∷ name) = (c ≢ b'/') × IsSlashFree name

-- The names that a path can have.
abbrev pub IsParts : List (List ℕ) → Type 0
IsParts [] = Unit {0}
IsParts (name ∷ names) = (0 < length name) × IsSlashFree name × IsParts names

-- The absolute path with some names.
abbrev pub path_of : List (List ℕ) → List ℕ
path_of [] = []
path_of (name ∷ names) = b'/' ∷ name ++ path_of names

-- A name that was read, before a slash or the end.
ends :
    (part : List ℕ) (names : List (List ℕ))
    → 0 < length part
    → parts [] (path_of names) ≡ names
    → parts part (path_of names) ≡ part ∷ names
unfolding parts
ends part [] some_bytes rest = rw (==_of_ne (length part) 0 (omega arith)) refl
ends part (name ∷ names) some_bytes rest =
    rw (==_of_ne (length part) 0 (omega arith)) (ap (λ ns. part ∷ ns) rest)

-- A name that is read to its end.
reads :
    (part name : List ℕ) (names : List (List ℕ))
    → 0 < length part + length name
    → IsSlashFree name
    → parts [] (path_of names) ≡ names
    → parts part (name ++ path_of names) ≡ (part ++ name) ∷ names
unfolding parts
reads part [] names some_bytes free rest =
    ends part names (omega arith) rest ∙ ap (λ p. p ∷ names) (sym (append-nil part))
reads part (c ∷ name) names some_bytes free rest = rw (==_of_ne c b'/' free.0) (
    reads (part ++ c ∷ []) name names (omega (arith, length-append part (c ∷ []))) free.1 rest
    ∙ ap (λ p. p ∷ names) (append_assoc part (c ∷ []) name))

-- A path is split into the names that it is written from: not empty, without slashes, and as many
-- as there are.
pub components-path_of :
    (names : List (List ℕ)) → IsParts names → components (path_of names) ≡ names
unfolding components parts
components-path_of [] ok = refl
components-path_of (name ∷ names) ok =
    reads [] name names (omega (arith, ok.0)) ok.1 (components-path_of names ok.2)
