-- ===== src/Directory/Find.antt =====
-- What a directory holds, and finding a name in it.
use operating_system_experie.Base.{
  ℕ, zero, suc, ◌+◌, ◌≡◌, refl, sym, ap, ◌∙◌, List, [], ◌∷◌, ◌++◌, Option, none, some, inl, inr,
  ◌⊎◌, bytes_eq, if◌then◌else◌, Bool-cases, Option-cases,
}
use operating_system_experie.Base.Outcome.{ok_inj, Outcome, ok, panic, ◌>>=◌}
use operating_system_experie.Device.{Device}
use operating_system_experie.Inode.{Inode, get_block}
use operating_system_experie.Directory.{
  Found, entries_per_block, is_empty, name_str, entry_at, entries_in, find_in, lookup_from,
  dir_lookup, find_from, dir_find,
}

-- The first of some slots whose entry has a name, as `name_str` reads it.
pub first_named : List ℕ → List Found → Outcome (Option Found)
first_named name [] = ok none
first_named name (x ∷ xs) = do
  s ← name_str x.0
  let rest = first_named name xs
  if bytes_eq s name then ok (some x) else rest

Outcome-cases : {A : Type 0} (o : Outcome A) → ((a : A) × (o ≡ ok a)) ⊎ (o ≡ panic)
Outcome-cases (ok a) = inl (a, refl)
Outcome-cases panic = inr refl

find_in_lem :
    (left j n : ℕ) (buf name : List ℕ)
    → find_in left j n buf name ≡ first_named name (entries_in left j n buf)
unfolding find_in entries_in first_named
find_in_lem zero j n buf name = refl
find_in_lem (suc left) j n buf name = elim (Bool-cases (is_empty (entry_at buf j))) [
  | inl e ↦ rw (e, find_in_lem left (j + 1) n buf name)
  | inr e ↦ rw (e, find_in_lem left (j + 1) n buf name)
]

-- The search goes on where nothing was found.
abbrev otherwise : Option Found → Outcome (Option Found) → Outcome (Option Found)
otherwise r o = elim r [ none ↦ o | some x ↦ ok (some x) ]

first_named-append :
    (name : List ℕ) (xs ys : List Found)
    → first_named name (xs ++ ys) ≡ (first_named name xs >>= λ r. otherwise r (first_named name ys))
unfolding first_named
first_named-append name [] ys = refl
first_named-append name (x ∷ xs) ys = elim (Outcome-cases (name_str x.0)) [
  | inr e ↦ rw e
  | inl (s, e) ↦ elim (Bool-cases (bytes_eq s name)) [
    | inl t ↦ rw (e, ◌>>=◌, t)
    | inr t ↦ rw (e, ◌>>=◌, t, first_named-append name xs ys)
  ]
]

-- A run of two steps that ends well: what the first gave.
first_step :
    {A B : Type 0} (o : Outcome A) (f : A → Outcome B) (b : B)
    → (o >>= f) ≡ ok b
    → (a : A) × (o ≡ ok a) × (f a ≡ ok b)
first_step (ok a) f b e = (a, refl, e)
first_step panic f b e = absurd cc

module _ ⦃dev : Device⦄ where
  open dev use {Disk, read_block}

  find_from_lem :
      (left i : ℕ) (d : Disk) (dir : Inode) (name : List ℕ) (slots : List Found)
      → lookup_from left i d dir ≡ ok slots
      → find_from left i d dir name ≡ first_named name slots
  unfolding find_from lookup_from first_named
  find_from_lem zero i d dir name slots h = ap (first_named name) (ok_inj h)
  find_from_lem (suc left) i d dir name slots h =
      let (block, g, h1) = first_step (get_block dir d i) _ slots h in
      let rest_lem = find_from_lem left (i + 1) d dir name in
      elim (Option-cases block) [
        | inl e ↦ rw (g, ◌>>=◌, e) (rest_lem slots (rw e at h1))
        | inr (n, e) ↦
            let (buf, r, h2) = first_step (read_block d n) _ slots (rw e at h1) in
            let (rest, l, h3) = first_step (lookup_from left (i + 1) d dir) _ slots h2 in
            let here = entries_in entries_per_block 0 n buf in
            rw (g, ◌>>=◌, e, r, ◌>>=◌, find_in_lem)
              (ap (λ k. first_named name here >>= λ f. otherwise f k) (rest_lem rest l)
                ∙ sym (first_named-append name here rest)
                ∙ ap (first_named name) (ok_inj h3))
      ]

  -- `dir_find` is the first of the slots that `dir_lookup` lists whose entry has the name.
  pub dir_find-dir_lookup :
      (d : Disk) (dir : Inode) (name : List ℕ) (slots : List Found)
      → dir_lookup d dir ≡ ok slots
      → dir_find d dir name ≡ first_named name slots
  unfolding dir_find dir_lookup
  dir_find-dir_lookup d dir name slots h = find_from_lem dir.block_count 0 d dir name slots h
