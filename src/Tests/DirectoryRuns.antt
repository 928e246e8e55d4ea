-- ===== src/Tests/DirectoryRuns.antt =====
-- src/directory.rs on a disk in memory.
use operating_system_experie.Base.{
  ℕ, ◌≡◌, refl, false, List, [], ◌∷◌, arith, block_size, replicate, take, if◌then◌else◌,
}
use operating_system_experie.Base.Utf8.{is_utf8}
use operating_system_experie.Base.Outcome.{ok}
use operating_system_experie.Base.Slices.{splice, zeros, IsBytes}
use operating_system_experie.Inode.{Inode, new_dir, get_block}
use operating_system_experie.Directory.{
  Found, new, name_str, max_name_len, unreadable, from_bytes, to_bytes, entry_at, entries_in,
  is_empty, lookup_from, dir_lookup, dir_find,
}
use operating_system_experie.Directory.Entry.{from_bytes-to_bytes_entry, new-IsTyped, name_str-new}
use operating_system_experie.Directory.Find.{first_named, dir_find-dir_lookup}
use operating_system_experie.Memory.{Cells, memory}

abbrev pub notes_name : List ℕ
notes_name = b'n' ∷ b'o' ∷ b't' ∷ b'e' ∷ b's' ∷ []

pub notes_name-IsBytes : IsBytes notes_name
notes_name-IsBytes = grind arith

from_bytes-to_bytes_entry_example :
    from_bytes (to_bytes (new 1000 notes_name false)) ≡ new 1000 notes_name false
from_bytes-to_bytes_entry_example =
    from_bytes-to_bytes_entry (new 1000 notes_name false)
      (new-IsTyped 1000 notes_name false (omega arith) notes_name-IsBytes)

-- Twenty-nine letters.
abbrev long_name : List ℕ
long_name = replicate 29 b'a'

name_str-new_example :
    name_str (new 1000 long_name false)
    ≡ ok (if is_utf8 (take max_name_len long_name) then take max_name_len long_name else unreadable)
name_str-new_example = name_str-new 1000 long_name false

-- A directory with one block, whose second slot is in use.
abbrev home : Inode
home = record (new_dir 0 0) {
  block_count = 1;
  direct_blocks = 32 ∷ 0 ∷ 0 ∷ 0 ∷ 0 ∷ 0 ∷ 0 ∷ 0 ∷ 0 ∷ 0 ∷ [];
}

abbrev cells : Cells
cells = λ n. splice 34 (to_bytes (new 1000 notes_name false)) (zeros block_size)

abbrev slots : List Found
slots = (new 1000 notes_name false, 32, 34) ∷ []

dir_lookup_run : dir_lookup ⦃dev = memory⦄ cells home ≡ ok slots
unfolding dir_lookup lookup_from get_block entries_in is_empty entry_at from_bytes to_bytes new
    new_dir splice
dir_lookup_run = refl

dir_find-dir_lookup_example :
    dir_find ⦃dev = memory⦄ cells home notes_name ≡ first_named notes_name slots
dir_find-dir_lookup_example =
    dir_find-dir_lookup ⦃dev = memory⦄ cells home notes_name slots dir_lookup_run
