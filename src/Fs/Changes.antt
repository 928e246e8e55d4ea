-- ===== src/Fs/Changes.antt =====
-- src/fs.rs: the handlers that make and remove names: create, mkdir, rmdir, unlink. An error is a
-- reply; what was changed before it stays changed.
use operating_system_experie.Base.{
  ℕ, zero, suc, ◌+◌, ◌%◌, ◌^◌, true, false, Option, none, some, List, [], ◌∷◌, length, set,
  if◌then◌else◌, ◌==◌, ltb, page_size, bit_or,
}
use operating_system_experie.Base.Outcome.{Outcome, ok, panic, ◌>>=◌, ◌>>◌}
use operating_system_experie.Device.{Device}
use operating_system_experie.Superblock.{SuperBlock}
use operating_system_experie.Bitmap.{allocate_block, mark_free}
use operating_system_experie.Inode.{
  Inode, new_file, new_dir, s_ifreg, read_inode, write_inode, get_block,
}
use operating_system_experie.Directory.{
  Status, done, failed, DirError, already_exists, dir_find, dir_lookup, dir_add_entry,
  dir_remove_entry,
}
use operating_system_experie.Fs.{
  Errno, enoent, eexist, enotdir, eisdir, enotempty, enospc, Reply, reply, error, FileAttr, is_dir,
  inode_to_attr, to_str, dot_block,
}

-- `"unknown"`
abbrev pub unknown : List ℕ
unknown = b'u' ∷ b'n' ∷ b'k' ∷ b'n' ∷ b'o' ∷ b'w' ∷ b'n' ∷ []

-- `.unwrap()` of a directory operation.
unfoldable pub unwrap : Status → Outcome (Unit {0})
unwrap done = ok tt
unwrap (failed e) = panic

-- The error that `create` replies for one of `dir_add_entry`.
unfoldable pub errno_of : DirError → Errno
errno_of already_exists = eexist
errno_of _ = enospc

module _ ⦃dev : Device⦄ where
  open dev use {Disk, write_block}

  -- A handler's reply with the state it leaves.
  abbrev pub Result : Type 0 → Type 0
  Result A = Outcome (Reply A × Disk × SuperBlock)

  -- The first unused inode number among `left` candidates.
  unfoldable pub unused_inode : ℕ → ℕ → Disk → SuperBlock → Outcome (Option ℕ)
  unused_inode zero candidate d sb = ok none
  unused_inode (suc left) candidate d sb = do
    inode ← read_inode d sb candidate
    elim (inode.nlink == 0) [
      | true ↦ ok (some candidate)
      | false ↦ unused_inode left (candidate + 1) d sb
    ]

  -- What `create` does with an unused number.
  unfoldable pub create_at : Disk → SuperBlock → Inode → List ℕ → ℕ → ℕ → Result FileAttr
  create_at d sb dir name number now = do
    let inode = record (new_file number now) { mode = bit_or s_ifreg 0o644 }
    d ← write_inode d sb inode
    (status, d, sb, dir) ← dir_add_entry d sb dir name number false now
    elim status [
      | failed e ↦ ok (error (errno_of e), d, sb)
      | done ↦ ok (reply (inode_to_attr inode), d, sb)
    ]

  unfoldable pub create : Disk → SuperBlock → ℕ → List ℕ → ℕ → Result FileAttr
  create d sb parent name now = do
    let name = to_str name unknown
    dir ← read_inode d sb (parent % 2 ^ 32)
    found ← dir_find d dir name
    elim found [
      | some x ↦ ok (error eexist, d, sb)
      | none ↦ do
        number ← unused_inode 1001 1000 d sb
        elim number [
          | none ↦ ok (error enospc, d, sb)
          | some number ↦ create_at d sb dir name number now
        ]
    ]

  -- What `mkdir` does with an unused number.
  unfoldable pub mkdir_at : Disk → SuperBlock → Inode → ℕ → List ℕ → ℕ → ℕ → Result FileAttr
  mkdir_at d sb dir parent name number now = do
    (d, sb, got) ← allocate_block d sb
    elim got [
      | none ↦ ok (error enospc, d, sb)
      | some n ↦ do
        d ← write_block d n (dot_block number (parent % 2 ^ 32))
        let inode = record (new_dir number now) {
          direct_blocks = set (new_dir number now).direct_blocks 0 n;
          block_count = 1;
          size = page_size;
        }
        d ← write_inode d sb inode
        (status, d, sb, dir) ← dir_add_entry d sb dir name number true now
        unwrap status
        ok (reply (inode_to_attr inode), d, sb)
    ]

  unfoldable pub mkdir : Disk → SuperBlock → ℕ → List ℕ → ℕ → Result FileAttr
  mkdir d sb parent name now = do
    let name = to_str name unknown
    dir ← read_inode d sb (parent % 2 ^ 32)
    found ← dir_find d dir name
    elim found [
      | some x ↦ ok (error eexist, d, sb)
      | none ↦ do
        number ← unused_inode 401 500 d sb
        elim number [
          | none ↦ ok (error enospc, d, sb)
          | some number ↦ mkdir_at d sb dir parent name number now
        ]
    ]

  -- The loop that releases the data blocks of an inode, `left` of them from `i` on.
  unfoldable pub free_blocks_from : ℕ → ℕ → Inode → Disk → SuperBlock → Outcome (Disk × SuperBlock)
  free_blocks_from zero i inode d sb = ok (d, sb)
  free_blocks_from (suc left) i inode d sb = do
    block ← get_block inode d i
    elim block [
      | none ↦ free_blocks_from left (i + 1) inode d sb
      | some n ↦ do (d, sb) ← mark_free d sb n; free_blocks_from left (i + 1) inode d sb
    ]

  -- What `rmdir` does with an empty directory.
  unfoldable pub remove_dir : Disk → SuperBlock → Inode → List ℕ → Inode → ℕ → Result (Unit {0})
  remove_dir d sb dir name child now = do
    (d, sb) ← free_blocks_from child.block_count 0 child d sb
    (status, d, sb, dir) ← dir_remove_entry d sb dir name now
    unwrap status
    d ← write_inode d sb (record child { nlink = 0 })
    ok (reply tt, d, sb)

  unfoldable pub rmdir : Disk → SuperBlock → ℕ → List ℕ → ℕ → Result (Unit {0})
  rmdir d sb parent name now = do
    let name = to_str name []
    dir ← read_inode d sb (parent % 2 ^ 32)
    found ← dir_find d dir name
    elim found [
      | none ↦ ok (error enoent, d, sb)
      | some x ↦ do
        child ← read_inode d sb x.0.inode
        elim (is_dir child) [
          | false ↦ ok (error enotdir, d, sb)
          | true ↦ do
            entries ← dir_lookup d child
            elim (ltb 2 (length entries)) [
              | true ↦ ok (error enotempty, d, sb)
              | false ↦ remove_dir d sb dir name child now
            ]
        ]
    ]

  -- What `unlink` does with a file.
  unfoldable pub remove_file : Disk → SuperBlock → Inode → List ℕ → Inode → ℕ → Result (Unit {0})
  remove_file d sb dir name inode now = do
    (d, sb) ← free_blocks_from inode.block_count 0 inode d sb
    (d, sb) ←
        (if inode.indirect_block == 0 then ok (d, sb) else mark_free d sb inode.indirect_block)
    d ← write_inode d sb (record inode { nlink = 0 })
    (status, d, sb, dir) ← dir_remove_entry d sb dir name now
    unwrap status
    ok (reply tt, d, sb)

  unfoldable pub unlink : Disk → SuperBlock → ℕ → List ℕ → ℕ → Result (Unit {0})
  unlink d sb parent name now = do
    let name = to_str name []
    dir ← read_inode d sb (parent % 2 ^ 32)
    found ← dir_find d dir name
    elim found [
      | none ↦ ok (error enoent, d, sb)
      | some x ↦ do
        inode ← read_inode d sb x.0.inode
        elim (is_dir inode) [
          | true ↦ ok (error eisdir, d, sb)
          | false ↦ remove_file d sb dir name inode now
        ]
    ]
