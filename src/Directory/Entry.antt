-- ===== src/Directory/Entry.antt =====
-- The bytes and the name of a directory entry.
use operating_system_experie.Base.{
  ℕ, ◌^◌, ◌<◌, ◌≤◌, ◌≢◌, zero, suc, ◌∷◌, [], ◌≡◌, sym, ap, subst, ◌∙◌, Bool, true, List, length,
  take, min, tabulate, tabulate-get_or, take_of_ge, length-take, get_or, if◌then◌else◌, leb, arith,
  length-set,
}
use operating_system_experie.Base.Slices.{
  IsBytes, splice, slice-splice_self, length-splice, zeros, splice-IsBytes, zeros-IsBytes,
  take-IsBytes, set-IsBytes,
}
use operating_system_experie.Base.Endian.{
  to_le_bytes, from_le_bytes-to_le_bytes, to_le_bytes-IsBytes,
}
use operating_system_experie.Base.Utf8.{is_utf8}
use operating_system_experie.Base.Outcome.{Outcome, ok, panic, ◌>>=◌, check}
use operating_system_experie.Directory.{
  DirEntry, IsTyped, max_name_len, dir_entry_size, new, name_str, unreadable, from_bytes, to_bytes,
}

abbrev with_name : DirEntry → (ℕ → ℕ) → DirEntry
with_name e f = record e { name = tabulate 28 f }

layout :
    (e : DirEntry) (f : ℕ → ℕ)
    → e.inode < 2 ^ 32
    → from_bytes (to_bytes (with_name e f)) ≡ with_name e f
unfolding from_bytes to_bytes splice
layout e f h = λ i. record {
  inode = from_le_bytes-to_le_bytes 4 e.inode h i;
  entry_type = e.entry_type;
  name_len = e.name_len;
  name = tabulate 28 f;
}

-- An entry whose fields have the ranges of their types is read back from its 34 bytes.
pub from_bytes-to_bytes_entry : (e : DirEntry) → IsTyped e → from_bytes (to_bytes e) ≡ e
from_bytes-to_bytes_entry e t =
    subst (λ bs. from_bytes (to_bytes (record e { name = bs })) ≡ record e { name = bs })
      (sym (tabulate-get_or 28 e.name 0 t.name_length)) (layout e (λ k. get_or e.name k 0) t.inode)

pub length-to_bytes_entry : (e : DirEntry) → length (to_bytes e) ≡ dir_entry_size
unfolding to_bytes
length-to_bytes_entry e = simp (length-splice, length-set)

pub to_bytes_entry-IsBytes : (e : DirEntry) → IsTyped e → IsBytes (to_bytes e)
unfolding to_bytes
to_bytes_entry-IsBytes e t = splice-IsBytes 6 e.name _ t.name_bytes (
    set-IsBytes _ 5 e.name_len t.name_len (
      set-IsBytes _ 4 e.entry_type t.entry_type (
        splice-IsBytes 0 (to_le_bytes 4 e.inode) _ (to_le_bytes-IsBytes 4 e.inode)
          (zeros-IsBytes dir_entry_size))))

-- What `new` makes has the types of the fields.
pub new-IsTyped :
    (inode : ℕ) (name : List ℕ) (is_dir : Bool)
    → inode < 2 ^ 32
    → IsBytes name
    → IsTyped (new inode name is_dir)
unfolding new
new-IsTyped inode name is_dir h b = record {
  inode = h;
  entry_type = ground arith;
  name_len = omega arith;
  name_length = length-splice 0 _ (zeros max_name_len);
  name_bytes = splice-IsBytes 0 _ _ (take-IsBytes _ name b) (zeros-IsBytes max_name_len);
}

min-zero_right : (a : ℕ) → min a 0 ≡ 0
min-zero_right a = omega arith

min-zero_left : (a : ℕ) → min 0 a ≡ 0
min-zero_left a = omega arith

min-suc : (a b : ℕ) → min (suc a) (suc b) ≡ suc (min a b)
min-suc a b = omega arith

take-min : (n : ℕ) (xs : List ℕ) → take (min (length xs) n) xs ≡ take n xs
take-min zero xs = ap (λ k. take k xs) (min-zero_right (length xs))
take-min (suc n) [] = ap (λ k. take k []) (min-zero_left (suc n))
take-min (suc n) (x ∷ xs) =
    ap (λ k. take k (x ∷ xs)) (min-suc (length xs) n) ∙ ap (λ l. x ∷ l) (take-min n xs)

name_str_kept :
    (e : DirEntry) (s : List ℕ)
    → e.name_len ≡ length s
    → length s ≤ max_name_len
    → take (length s) e.name ≡ s
    → name_str e ≡ ok (if is_utf8 s then s else unreadable)
unfolding name_str
name_str_kept e s l h k =
    ap
      (λ n. check (leb n max_name_len) >>= λ _.
        ok (if is_utf8 (take n e.name) then take n e.name else unreadable))
      l
    ∙ (let fits : leb (length s) max_name_len ≡ true = ground arith in rw (fits, k))

-- The name of an entry made for a name is the first 28 bytes of it when these are valid UTF-8, and
-- "???" otherwise. It is never a panic.
pub name_str-new :
    (inode : ℕ) (name : List ℕ) (is_dir : Bool)
    → name_str (new inode name is_dir)
      ≡ ok (if is_utf8 (take max_name_len name) then take max_name_len name else unreadable)
unfolding new
name_str-new inode name is_dir =
    name_str_kept (new inode name is_dir) (take max_name_len name)
      (omega (arith, length-take max_name_len name)) (omega (arith, length-take max_name_len name))
      (ap (λ t. take (length (take max_name_len name)) (splice 0 t (zeros max_name_len)))
          (take-min max_name_len name)
        ∙ slice-splice_self 0 (take max_name_len name) (zeros max_name_len)
            (omega (arith, length-take max_name_len name)))

-- A name of at most 28 bytes is the name of the entry made for it.
pub name_str-new_short :
    (inode : ℕ) (name : List ℕ) (is_dir : Bool)
    → length name ≤ max_name_len
    → is_utf8 name ≡ true
    → name_str (new inode name is_dir) ≡ ok name
name_str-new_short inode name is_dir h u =
    name_str-new inode name is_dir ∙ rw (take_of_ge max_name_len name h, u)

bytes_in : Outcome (List ℕ) → ℕ
bytes_in (ok bs) = length bs
bytes_in panic = 0

-- The entry made for a longer name never has that name.
pub name_str-new_long :
    (inode : ℕ) (name : List ℕ) (is_dir : Bool)
    → max_name_len < length name
    → name_str (new inode name is_dir) ≢ ok name
unfolding bytes_in
name_str-new_long inode name is_dir h e =
    let lengths = ap bytes_in (sym (name_str-new inode name is_dir) ∙ e) in
    ground (arith, length-take max_name_len name, lengths)
