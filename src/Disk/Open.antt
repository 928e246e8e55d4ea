-- ===== src/Disk/Open.antt =====
-- src/disk.rs: `Disk::open`, and the `drop` of the disk.
use Prim.Native.String.{String}
use operating_system_experie.Base.{none, some}
use operating_system_experie.Base.Outcome.{Outcome, ok, panic, ◌>>=◌, expect}
use operating_system_experie.Host.{Host}
use operating_system_experie.System.{System}

module _ ⦃host : Host⦄ ⦃system : System⦄ where
  open host use {File}
  open system use {State, c_string, open_file, close_file}

  unfoldable pub open_path : State → String → Outcome (File × State)
  open_path s path = do
    c_path ← expect (c_string path)
    elim (open_file s c_path) [ none ↦ panic | some r ↦ ok r ]

  -- The path is the one under which the disk was opened.
  unfoldable pub drop : State → String → File → Outcome State
  drop s path f = do c_path ← expect (c_string path); ok (close_file s c_path f)
