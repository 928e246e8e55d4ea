-- ===== src/Device.antt =====
-- What the layers above src/disk.rs rely on: numbered blocks of 512 bytes that keep what is
-- written. `Disk.Blocks` fills the record from the definitions of `Disk`.
use operating_system_experie.Base.{ℕ, ◌<◌, ◌≡◌, List, length, ◌==◌, if◌then◌else◌, block_size}
use operating_system_experie.Base.Slices.{IsBytes}
use operating_system_experie.Base.Outcome.{Outcome, ok}

-- A whole block: 512 bytes.
abbrev pub IsBlock : List ℕ → Type 0
IsBlock buf = (length buf ≡ block_size) × IsBytes buf

pub record Device : Type 1 where
  pub Disk : Type 0
  pub read_block : Disk → ℕ → Outcome (List ℕ)
  pub write_block : Disk → ℕ → List ℕ → Outcome Disk
  -- How many blocks there are, what each holds, and the disk with one of them replaced.
  pub blocks : Disk → ℕ
  pub block : Disk → ℕ → List ℕ
  pub put : Disk → ℕ → List ℕ → Disk
  pub block-IsBlock : (d : Disk) (n : ℕ) → n < blocks d → IsBlock (block d n)
  pub read_block-ok : (d : Disk) (n : ℕ) → n < blocks d → read_block d n ≡ ok (block d n)
  pub write_block-ok :
      (d : Disk) (n : ℕ) (buf : List ℕ)
      → n < blocks d
      → IsBlock buf
      → write_block d n buf ≡ ok (put d n buf)
  pub blocks-put :
      (d : Disk) (n : ℕ) (buf : List ℕ)
      → n < blocks d
      → IsBlock buf
      → blocks (put d n buf) ≡ blocks d
  pub block-put :
      (d : Disk) (n : ℕ) (buf : List ℕ) (m : ℕ)
      → n < blocks d
      → IsBlock buf
      → block (put d n buf) m ≡ (if n == m then buf else block d m)
