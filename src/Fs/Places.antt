-- ===== src/Fs/Places.antt =====
-- Places in a file and the rounds of the loop of `write` that cover them.
use operating_system_experie.Base.{
  ℕ, ◌+◌, ◌-◌, ◌*◌, ◌/◌, ◌%◌, ◌≤◌, ◌<◌, ◌≡◌, ◌≢◌, refl, ap, ◌∙◌, Bool, true, false, ◌&&◌, List, min,
  length, take, drop, length-take, length-drop, arith, page_size, if◌then◌else◌, leb, ltb,
  Bool-cases, inl, inr,
}
use operating_system_experie.Base.Slices.{byte, byte-take, byte-drop}

-- Whether a place is among the `count` from another on.
abbrev pub among : ℕ → ℕ → ℕ → Bool
among from count p = leb from p && ltb p (from + count)

pub same_place :
    (index offset count p : ℕ)
    → index ≡ p / page_size
    → offset + count ≤ page_size
    → (leb offset (p % page_size) && ltb (p % page_size) (offset + count))
      ≡ among (index * page_size + offset) count p
same_place index offset count p q fits = ground arith

pub same_distance :
    (index offset p : ℕ)
    → index ≡ p / page_size
    → p % page_size - offset ≡ p - (index * page_size + offset)
same_distance index offset p q = omega arith

pub other_place :
    (index offset count p : ℕ)
    → index ≢ p / page_size
    → offset + count ≤ page_size
    → among (index * page_size + offset) count p ≡ false
other_place index offset count p q fits = ground arith

pub none_among : (from p : ℕ) → among from 0 p ≡ false
none_among from p = ground arith

-- What the first round leaves and what the others add is what the whole run writes.
module _ (index offset p old : ℕ) (src : List ℕ) (count : ℕ)
    (e : count ≡ min (length src) (page_size - offset)) (lt : offset < page_size) where
  abbrev pub from : ℕ
  from = index * page_size + offset

  abbrev pub next : ℕ
  next = (index + 1) * page_size + 0

  in_rest :
      among next (length (drop count src)) p ≡ true
      → (among from (length src) p ≡ true) × (count + (p - next) ≡ p - from)
  in_rest h = (ground (arith, length-drop count src), ground (arith, length-drop count src))

  in_first :
      among from (length (take count src)) p ≡ true
      → (among from (length src) p ≡ true) × (p - from < count)
  in_first h = (ground (arith, length-take count src), ground (arith, length-take count src))

  in_neither :
      among next (length (drop count src)) p ≡ false
      → among from (length (take count src)) p ≡ false
      → among from (length src) p ≡ false
  in_neither h g = ground (arith, length-take count src, length-drop count src)

  pub joined :
      (if among next (length (drop count src)) p
        then byte (drop count src) (p - next)
        else if among from (length (take count src)) p
        then byte (take count src) (p - from)
        else old)
      ≡ (if among from (length src) p then byte src (p - from) else old)
  joined = elim (Bool-cases (among next (length (drop count src)) p)) [
    | inl h ↦ rw (h, (in_rest h).0) (byte-drop count src (p - next) ∙ ap (byte src) (in_rest h).1)
    | inr h ↦ elim (Bool-cases (among from (length (take count src)) p)) [
      | inl g ↦ rw (h, g, (in_first g).0) (byte-take count src (p - from) (in_first g).1)
      | inr g ↦ rw (h, g, in_neither h g) refl
    ]
  ]
