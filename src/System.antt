-- ===== src/System.antt =====
-- What src/main.rs and `Disk::open` of src/disk.rs use of the system beside the calls on the open
-- image: opening and closing it by its path, the texts of numbers, and the FUSE library.
use Prim.Native.String.{String}
use operating_system_experie.Base.{ℕ, ◌≡◌, List, [], Option, none, some}
use operating_system_experie.Host.{Host}
use operating_system_experie.Superblock.{SuperBlock}

-- How a session ends: `Ok(())`, an error by its text, or the panic of a handler, which unwinds
-- through `mount2`.
pub data Served : Type 0 where
  served : Served
  refused : String → Served
  unwound : Served

module _ ⦃host : Host⦄ where
  open host use {File, contents}

  pub record System : Type 1 where
    -- The files of the computer.
    pub State : Type 0
    -- A path for the system: a text without the byte 0.
    pub CString : Type 0
    pub c_string : String → Option CString
    -- `open` with `O_RDWR | O_CREAT`: the open file, and the files after the call. `none` stands for a
    -- negative result.
    pub open_file : State → CString → Option (File × State)
    -- `close` of the file that was opened under the path.
    pub close_file : State → CString → File → State
    -- The bytes of the file at a path.
    pub saved : State → CString → Option (List ℕ)
    pub opened_bytes :
        (s t : State) (p : CString) (f : File) (bs : List ℕ)
        → open_file s p ≡ some (f, t)
        → saved s p ≡ some bs
        → contents f ≡ bs
    pub created_empty :
        (s t : State) (p : CString) (f : File)
        → open_file s p ≡ some (f, t)
        → saved s p ≡ none
        → contents f ≡ []
    pub closed_bytes :
        (s : State) (p : CString) (f : File) → saved (close_file s p f) p ≡ some (contents f)
    -- The text of a number, and of a number of bytes in MB with one digit after the point.
    pub shown : ℕ → String
    pub megabytes : ℕ → String
    -- `fuser::mount2` serves the file system at a mount point, without options, until it is unmounted
    -- or refuses to, or until a handler panics: how it ends, and the image that is left then.
    pub mount2 : File × SuperBlock → String → Served × File
