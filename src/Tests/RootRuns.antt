-- ===== src/Tests/RootRuns.antt =====
-- src/directory.rs on the root directory of a disk in memory that was formatted.
use operating_system_experie.Base.{refl, false, List, [], ◌∷◌, arith}
use operating_system_experie.Base.Utf8.{is_utf8}
use operating_system_experie.Directory.Add.{IsName}
use operating_system_experie.Directory.View.{FindsAs, dir_find-FindsAs}
use operating_system_experie.Directory.Remove.{Removes, dir_remove_entry-Removes}
use operating_system_experie.Directory.Refine.{Adds, dir_add_entry-Adds}
use operating_system_experie.Directory.Runs.{
  Request, add, remove, AreRequests, ServedAll, serve_all-ServedAll,
}
use operating_system_experie.Fs.{dot}
use operating_system_experie.Fs.Dots.{dots}
use operating_system_experie.Fs.Format.{root_of}
use operating_system_experie.Fs.Root.{Rooted, format_new_fs-Rooted}
use operating_system_experie.Memory.{memory, blank}
use operating_system_experie.Tests.DirectoryRuns.{notes_name, notes_name-IsBytes}

pub rooted : Rooted ⦃dev = memory⦄ blank 1700000000
rooted = format_new_fs-Rooted ⦃dev = memory⦄ blank (omega arith) 1700000000 (omega arith)

format_new_fs-Rooted_example : Rooted ⦃dev = memory⦄ blank 1700000000
format_new_fs-Rooted_example =
    format_new_fs-Rooted ⦃dev = memory⦄ blank (omega arith) 1700000000 (omega arith)

dir_find-FindsAs_example :
    FindsAs ⦃dev = memory⦄ rooted.formatted.disk (root_of 1700000000) dot (dots 1 1 dot)
dir_find-FindsAs_example =
    dir_find-FindsAs ⦃dev = memory⦄ rooted.formatted.disk rooted.formatted.sb (root_of 1700000000)
      rooted.sound.directory.held rooted.sound.directory.names dot (dots 1 1 dot)
      (rooted.models dot)

pub notes_name-IsName : IsName notes_name
unfolding is_utf8
notes_name-IsName = record {
  some_bytes = omega arith;
  short = omega arith;
  utf8 = refl;
  bytes = notes_name-IsBytes;
}

dir_remove_entry-Removes_example :
    Removes ⦃dev = memory⦄ rooted.formatted.disk rooted.formatted.sb
      (root_of 1700000000)
      (dots 1 1)
      dot
      1700000001
      rooted.sound
      rooted.models
      (omega arith)
      (dots 1 1 dot)
dir_remove_entry-Removes_example =
    dir_remove_entry-Removes ⦃dev = memory⦄ rooted.formatted.disk rooted.formatted.sb
      (root_of 1700000000) (dots 1 1) dot 1700000001 rooted.sound rooted.models (omega arith)

dir_add_entry-Adds_example :
    Adds ⦃dev = memory⦄ rooted.formatted.disk rooted.formatted.sb
      (root_of 1700000000)
      (dots 1 1)
      notes_name
      1000
      false
      1700000001
dir_add_entry-Adds_example =
    dir_add_entry-Adds ⦃dev = memory⦄ rooted.formatted.disk rooted.formatted.sb (root_of 1700000000)
      (dots 1 1) notes_name 1000 false 1700000001 rooted.sound rooted.models notes_name-IsName
      (omega arith) (omega arith)

abbrev requests : List Request
requests =
    add notes_name 1000 false 1700000001
    ∷ add notes_name 1001 false 1700000002
    ∷ remove notes_name 1700000003
    ∷ []

requests-AreRequests : AreRequests requests
requests-AreRequests = (
  (notes_name-IsName, omega arith, omega arith),
  ((notes_name-IsName, omega arith, omega arith), (omega arith, tt)),
)

serve_all-ServedAll_example :
    ServedAll ⦃dev = memory⦄ rooted.formatted.disk rooted.formatted.sb
      (root_of 1700000000)
      (dots 1 1)
      requests
serve_all-ServedAll_example =
    serve_all-ServedAll ⦃dev = memory⦄ rooted.formatted.disk rooted.formatted.sb
      (root_of 1700000000) (dots 1 1) rooted.sound rooted.models requests requests-AreRequests
