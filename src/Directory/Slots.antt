-- ===== src/Directory/Slots.antt =====
-- A directory as a table of slots, and what it means for one to be well formed.
use operating_system_experie.Base.{
  ℕ, ◌*◌, ◌/◌, ◌%◌, ◌≤◌, ◌<◌, ◌≡◌, ◌≢◌, Bool, true, false, not, ◌&&◌, List, take, get_or, bytes_eq,
  bytes_eq_iff, arith, if◌then◌else◌, leb,
}
use operating_system_experie.Base.Utf8.{is_utf8}
use operating_system_experie.Base.Outcome.{ok}
use operating_system_experie.Device.{Device}
use operating_system_experie.Superblock.{SuperBlock}
use operating_system_experie.Inode.{Inode, direct_count}
use operating_system_experie.Inode.Table.{home}
use operating_system_experie.Directory.{
  DirEntry, max_name_len, entries_per_block, dir_entry_size, is_empty, name_str, unreadable,
  entry_at,
}

-- The name that `name_str` reads from an entry.
unfoldable pub text : DirEntry → List ℕ
text e = let bytes = take e.name_len e.name in if is_utf8 bytes then bytes else unreadable

pub name_str-text : (e : DirEntry) → e.name_len ≤ max_name_len → name_str e ≡ ok (text e)
unfolding name_str text
name_str-text e h = let fits : leb e.name_len max_name_len ≡ true = ground arith in rw fits

-- Whether an entry is in use under a name.
unfoldable pub named : List ℕ → DirEntry → Bool
named q e = not (is_empty e) && bytes_eq (text e) q

pub named-used :
    (q : List ℕ) (e : DirEntry) → named q e ≡ true → (is_empty e ≡ false) × (text e ≡ q)
unfolding named
named-used q e h = ground (arith, bytes_eq_iff (text e) q)

pub named-text : (q : List ℕ) (e : DirEntry) → is_empty e ≡ false → text e ≡ q → named q e ≡ true
unfolding named
named-text q e h t = ground (arith, bytes_eq_iff (text e) q)

pub named-ne : (q : List ℕ) (e : DirEntry) → text e ≢ q → named q e ≡ false
unfolding named
named-ne q e h = ground (arith, bytes_eq_iff (text e) q)

pub named_empty : (q : List ℕ) (e : DirEntry) → is_empty e ≡ true → named q e ≡ false
unfolding named
named_empty q e h = ground arith

-- The block of a directory at an index.
abbrev pub ptr : Inode → ℕ → ℕ
ptr dir k = get_or dir.direct_blocks k 0

-- In a table of `n` entries, every one in use has a name that can be read, and no two have the same.
pub record HasNames (n : ℕ) (table : ℕ → DirEntry) : Type 0 where
  pub readable : (s : ℕ) → s < n → is_empty (table s) ≡ false → (table s).name_len ≤ max_name_len
  pub unique :
      (s t : ℕ)
      → s < n
      → t < n
      → is_empty (table s) ≡ false
      → is_empty (table t) ≡ false
      → text (table s) ≡ text (table t)
      → s ≡ t

module _ ⦃dev : Device⦄ where
  open dev use {Disk, blocks, block}

  -- The slots of a directory, counted through its blocks.
  unfoldable pub slot : Disk → Inode → ℕ → DirEntry
  slot d dir s = entry_at (block d (ptr dir (s / entries_per_block))) (s % entries_per_block)

  abbrev pub slots : Inode → ℕ
  slots dir = dir.block_count * entries_per_block

  -- The blocks of a directory: direct ones, different from each other and from the block of its
  -- inode.
  pub record HasDirBlocks (d : Disk) (sb : SuperBlock) (dir : Inode) : Type 0 where
    pub few : dir.block_count ≤ direct_count
    pub there : (k : ℕ) → k < dir.block_count → ptr dir k ≢ 0
    pub inside : (k : ℕ) → k < dir.block_count → ptr dir k < blocks d
    pub distinct :
        (j k : ℕ) → j < dir.block_count → k < dir.block_count → ptr dir j ≡ ptr dir k → j ≡ k
    pub apart : (k : ℕ) → k < dir.block_count → ptr dir k ≢ home sb dir.inode_no

  -- Where the entry of a slot stands.
  abbrev pub place : Inode → ℕ → ℕ × ℕ
  place dir s = (ptr dir (s / entries_per_block), s % entries_per_block * dir_entry_size)
