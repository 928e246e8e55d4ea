-- ===== src/Memory/OneFile.antt =====
-- A system with one file, which every path names, and a FUSE library that unmounts at once. The text
-- of a number is left out.
use Prim.Native.String.{String}
use operating_system_experie.Base.{
  ℕ, ◌≡◌, refl, ap, sym, ◌∙◌, List, [], Option, none, some, some_inj,
}
use operating_system_experie.System.{System, served}
use operating_system_experie.Memory.FileHost.{file_host, cut, top}

-- The file, and what `open` makes of it.
abbrev pub bytes : Option (List ℕ) → List ℕ
bytes none = []
bytes (some f) = f

abbrev pub stored : Option (List ℕ) → Option (List ℕ)
stored none = none
stored (some f) = some (cut top f)

abbrev pub opening : Option (List ℕ) → Option (List ℕ × Option (List ℕ))
opening s = some (bytes s, some (bytes s))

first :
    {f g : List ℕ} {s t : Option (List ℕ)}
    → ◌≡◌ {A = Option (List ℕ × Option (List ℕ))} (some (f, s)) (some (g, t))
    → f ≡ g
first e = ap (λ r. r.0) (some_inj e)

pub opened_bytes :
    (s t : Option (List ℕ)) (f bs : List ℕ)
    → opening s ≡ some (f, t)
    → stored s ≡ some bs
    → cut top f ≡ bs
opened_bytes none t f bs e h = absurd cc
opened_bytes (some g) t f bs e h = ap (cut top) (sym (first e)) ∙ some_inj h

pub created_empty :
    (s t : Option (List ℕ)) (f : List ℕ)
    → opening s ≡ some (f, t)
    → stored s ≡ none
    → cut top f ≡ []
created_empty none t f e h = ap (cut top) (sym (first e))
created_empty (some g) t f e h = absurd cc

abbrev pub one_file : System ⦃host = file_host⦄
one_file = record {
  State = Option (List ℕ);
  CString = String;
  c_string = λ path. some path;
  open_file = λ s path. opening s;
  close_file = λ s path f. some f;
  saved = λ s path. stored s;
  opened_bytes = λ s t p. opened_bytes s t;
  created_empty = λ s t p. created_empty s t;
  closed_bytes = λ s path f. refl;
  shown = λ n. "";
  megabytes = λ n. "";
  mount2 = λ filesystem mount_point. (served, filesystem.0);
}
