-- ===== src/Disk.antt =====
-- src/disk.rs: the constants, and the methods of `Disk` over the system calls. A `&mut [u8]` that a
-- method fills is returned.
pub mod Blocks
pub mod Open
pub mod Partial
use operating_system_experie.Base.{ℕ, ◌+◌, ◌-◌, ◌*◌, ◌/◌, ◌≤◌, ◌<◌, ◌&&◌, min}
use operating_system_experie.Base.{List, none, some, length, take, leb, ◌==◌, if◌then◌else◌}
use operating_system_experie.Base.{block_size, page_size}
use operating_system_experie.Base.Slices.{slice, splice}
use operating_system_experie.Base.Outcome.{Outcome, ok, panic, ◌>>=◌, ◌>>◌, check}
use operating_system_experie.Host.{Host}

module _ ⦃host : Host⦄ where
  open host use {File, lseek, read, write, fsync, fstat, ftruncate}

  unfoldable pub size : File → Outcome ℕ
  size f = elim (fstat f) [ none ↦ panic | some n ↦ ok n ]

  unfoldable pub truncate : File → ℕ → Outcome File
  truncate f n = elim (ftruncate f n) [ none ↦ panic | some g ↦ ok g ]

  pub read_block : File → ℕ → Outcome (List ℕ)
  read_block f n = elim (lseek f (n * block_size)) [
    | none ↦ panic
    | some o ↦ elim (read f o block_size) [
      | none ↦ panic
      | some buf ↦ if length buf == block_size then ok buf else panic
    ]
  ]

  -- `write` is given a pointer, and takes 512 bytes from there. The result of `fsync` is not read.
  pub write_block : File → ℕ → List ℕ → Outcome File
  write_block f n buf = elim (lseek f (n * block_size)) [
    | none ↦ panic
    | some o ↦
        let r = write f o (take block_size buf) in
        elim r.0 [
          | none ↦ panic
          | some count ↦ if count == block_size then ok (fsync r.1) else panic
        ]
  ]

  -- `end - offset` and the two slices are checked at run time. `buf` is what the caller passes in.
  pub read_partial : File → ℕ → ℕ → ℕ → List ℕ → Outcome (List ℕ)
  read_partial f n offset len buf = do
    block_buf ← read_block f n
    let end = min (offset + len) block_size
    check (leb offset end && leb (end - offset) (length buf))
    ok (splice 0 (slice offset (end - offset) block_buf) buf)

  pub write_partial : File → ℕ → ℕ → List ℕ → Outcome File
  write_partial f n offset bytes = do
    block_buf ← read_block f n
    let end = min (offset + length bytes) page_size
    check (leb offset end)
    write_block f n (splice offset (take (end - offset) bytes) block_buf)
