-- ===== src/Host.antt =====
-- The system calls that src/disk.rs makes through the libc crate, on one open file. The offset
-- that `lseek` returns is handed to the call that follows it: every read and write seeks first.
use operating_system_experie.Base.{ℕ, ◌+◌, ◌-◌, ◌^◌, ◌≤◌, ◌<◌, ◌≡◌}
use operating_system_experie.Base.{List, ◌++◌, Option, some, length, take, replicate}
use operating_system_experie.Base.Slices.{IsBytes, slice, splice}

pub record Host : Type 1 where
  -- The state of an open regular file.
  pub File : Type 0
  -- `none` stands for a negative result.
  pub lseek : File → ℕ → Option ℕ
  pub read : File → ℕ → ℕ → Option (List ℕ)
  -- The count written, and the file after the call.
  pub write : File → ℕ → List ℕ → Option ℕ × File
  pub fsync : File → File
  pub fstat : File → Option ℕ
  pub ftruncate : File → ℕ → Option File
  -- The bytes of the file. The laws say what the calls do to them.
  pub contents : File → List ℕ
  pub contents-lt : (f : File) → length (contents f) < 2 ^ 63
  pub contents-IsBytes : (f : File) → IsBytes (contents f)
  pub lseek-set : (f : File) (o : ℕ) → o < 2 ^ 63 → lseek f o ≡ some o
  pub read-slice : (f : File) (o n : ℕ) → read f o n ≡ some (slice o n (contents f))
  -- A write that reports all its bytes has stored them.
  pub contents-write :
      (f : File) (o : ℕ) (bs : List ℕ)
      → IsBytes bs
      → o + length bs ≤ length (contents f)
      → (write f o bs).0 ≡ some (length bs)
      → contents (write f o bs).1 ≡ splice o bs (contents f)
  pub contents-fsync : (f : File) → contents (fsync f) ≡ contents f
  pub fstat-length : (f : File) → fstat f ≡ some (length (contents f))
  -- It may fail.
  pub contents-ftruncate :
      (f g : File) (n : ℕ)
      → ftruncate f n ≡ some g
      → contents g ≡ take n (contents f ++ replicate (n - length (contents f)) 0)

module _ ⦃host : Host⦄ where
  open host use {File, write, contents}

  -- The assumption that no write inside the image fails or stops early: the computer has room for
  -- every block of the image, and its medium does not fail.
  pub record HasRoom : Type 0 where
    pub complete :
        (f : File) (o : ℕ) (bs : List ℕ)
        → IsBytes bs
        → o + length bs ≤ length (contents f)
        → (write f o bs).0 ≡ some (length bs)
