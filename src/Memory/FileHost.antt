-- ===== src/Memory/FileHost.antt =====
-- A host whose file is a list of bytes.
use operating_system_experie.Base.{
  ℕ, zero, suc, ◌-◌, ◌%◌, ◌^◌, ◌≤◌, ◌<◌, ◌≡◌, refl, ap, ap₂, ◌∙◌, List, [], ◌∷◌, ◌++◌, length,
  arith, take, Option, none, some, some_inj, ltb, lt→ltb, le→ltb, if◌then◌else◌, sym, take_of_ge,
  length-take, replicate,
}
use native.Mathlib.Nat.{mod-eq_of_lt}
use mathlib.Core.List.{map}
use operating_system_experie.Base.Slices.{
  IsBytes, slice, splice, splice-IsBytes, length-splice, take-IsBytes, zeros-IsBytes,
}
use native.Mathlib.Decide.{dec_lt}
use operating_system_experie.Host.{Host, HasRoom}

-- Cut to a length, and every element to a byte.
abbrev pub cut : ℕ → List ℕ → List ℕ
cut limit f = take limit (map (λ b. b % 256) f)

map_bytes-IsBytes : (f : List ℕ) → IsBytes (map (λ b. b % 256) f)
map_bytes-IsBytes [] i = omega arith
map_bytes-IsBytes (b ∷ f) zero = omega arith
map_bytes-IsBytes (b ∷ f) (suc i) = map_bytes-IsBytes f i

map_bytes : (f : List ℕ) → IsBytes f → map (λ b. b % 256) f ≡ f
map_bytes [] h = refl
map_bytes (b ∷ f) h = ap₂ ◌∷◌ (mod-eq_of_lt (h 0)) (map_bytes f (λ i. h (suc i)))

append-IsBytes : (f g : List ℕ) → IsBytes f → IsBytes g → IsBytes (f ++ g)
append-IsBytes [] g hf hg i = hg i
append-IsBytes (b ∷ f) g hf hg zero = hf 0
append-IsBytes (b ∷ f) g hf hg (suc i) = append-IsBytes f g (λ j. hf (suc j)) hg i

module _ (limit : ℕ) where
  pub cut-IsBytes : (f : List ℕ) → IsBytes (cut limit f)
  cut-IsBytes f = take-IsBytes limit (map (λ b. b % 256) f) (map_bytes-IsBytes f)

  pub length-cut : (f : List ℕ) → length (cut limit f) ≤ limit
  length-cut f = omega (arith, length-take limit (map (λ b. b % 256) f))

  cut_fits : (f : List ℕ) → IsBytes f → length f ≤ limit → cut limit f ≡ f
  cut_fits f b h = ap (take limit) (map_bytes f b) ∙ take_of_ge limit f h

  pub cut-splice :
      (f bs : List ℕ) (o : ℕ)
      → IsBytes bs
      → cut limit (splice o bs (cut limit f)) ≡ splice o bs (cut limit f)
  cut-splice f bs o b =
      cut_fits (splice o bs (cut limit f)) (splice-IsBytes o bs (cut limit f) b (cut-IsBytes f))
        (omega (arith, length-splice o bs (cut limit f), length-cut f))

  pub cut_padded :
      (f : List ℕ) (n pad : ℕ)
      → n ≤ limit
      → cut limit (take n (cut limit f ++ replicate pad 0))
        ≡ take n (cut limit f ++ replicate pad 0)
  cut_padded f n pad h =
      cut_fits (take n (cut limit f ++ replicate pad 0))
        (take-IsBytes n (cut limit f ++ replicate pad 0)
          (append-IsBytes (cut limit f) (replicate pad 0) (cut-IsBytes f) (zeros-IsBytes pad)))
        (omega (arith, length-take n (cut limit f ++ replicate pad 0)))

abbrev pub top : ℕ
top = 2 ^ 63 - 1

-- Cut or filled with zeros to a length.
abbrev pub padded : List ℕ → ℕ → List ℕ
padded f n = take n (cut top f ++ replicate (n - length (cut top f)) 0)

pub resized :
    (f g : List ℕ) (n : ℕ)
    → (if ltb top n then none else some (padded f n)) ≡ some g
    → cut top g ≡ padded f n
resized f g n e = elim (dec_lt top n) [
  | yes large ↦ absurd (nothing (sym (rw (lt→ltb top n large) refl) ∙ e))
  | no fits ↦
      let same : padded f n ≡ g = some_inj (sym (rw (le→ltb top n (omega arith)) refl) ∙ e) in
      ap (cut top) (sym same) ∙ cut_padded top f n (n - length (cut top f)) (omega arith)
]
  where
    nothing : {g : List ℕ} → ◌≡◌ {A = Option (List ℕ)} none (some g) → ⊥
    nothing e = cc

-- The calls on such a file. The only one that fails is a cut to a length that a file cannot have.
abbrev pub file_host : Host
file_host = record {
  File = List ℕ;
  lseek = λ f o. some o;
  read = λ f o n. some (slice o n (cut top f));
  write = λ f o bs. (some (length bs), splice o bs (cut top f));
  fsync = λ f. f;
  fstat = λ f. some (length (cut top f));
  ftruncate = λ f n. if ltb top n then none else some (padded f n);
  contents = λ f. cut top f;
  contents-lt = λ f. lt_top (length (cut top f)) (length-cut top f);
  contents-IsBytes = cut-IsBytes top;
  lseek-set = λ f o h. refl;
  read-slice = λ f o n. refl;
  contents-write = λ f o bs b h whole. cut-splice top f bs o b;
  contents-fsync = λ f. refl;
  fstat-length = λ f. refl;
  contents-ftruncate = resized;
}
  where
    lt_top : (n : ℕ) → n ≤ top → n < 2 ^ 63
    lt_top n h = omega arith

abbrev pub file_room : HasRoom ⦃host = file_host⦄
file_room = record { complete = λ f o bs b h. refl }
