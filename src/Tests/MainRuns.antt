-- ===== src/Tests/MainRuns.antt =====
-- src/main.rs: the command on a computer without an image, and a second run of it.
use Prim.Native.String.{String}
use operating_system_experie.Base.{ℕ, ◌≡◌, refl, List, [], ◌∷◌, Option, none, some, arith}
use operating_system_experie.Base.Outcome.{ok}
use operating_system_experie.Disk.Open.{open_path}
use operating_system_experie.Disk.Blocks.{disk_device}
use operating_system_experie.Bitmap.Alloc.{IsConsistent}
use operating_system_experie.Fs.Mount.{mount-empty}
use operating_system_experie.Main.{main, disk_img, serve_exit}
use operating_system_experie.Main.Laws.{main_again}
use operating_system_experie.Memory.FileHost.{file_host, file_room}
use operating_system_experie.Memory.OneFile.{bytes, one_file}
use operating_system_experie.Tests.MountRuns.{mounted}

abbrev pub first_args : List String
first_args = "simplefs" ∷ "-f" ∷ "/tmp/mnt" ∷ []

can_open :
    (s : Option (List ℕ))
    → open_path ⦃host = file_host⦄ ⦃system = one_file⦄ s disk_img ≡ ok (bytes s, some (bytes s))
unfolding open_path
can_open s = refl

-- The files after the first run.
abbrev left : Option (List ℕ)
left =
    (main ⦃host = file_host⦄ ⦃room = file_room⦄ ⦃system = one_file⦄ first_args 1700000000
      none).files

made_consistent :
    IsConsistent ⦃dev = disk_device ⦃host = file_host⦄ ⦃room = file_room⦄⦄ mounted.0.0 mounted.0.1
made_consistent =
    mount-empty ⦃host = file_host⦄ ⦃room = file_room⦄ [] mounted.0.0 mounted.0.1 1700000000
      (omega arith) refl mounted.1

main_again_example :
    (file_host.contents (bytes left) ≡ file_host.contents mounted.0.0)
    × (main ⦃host = file_host⦄ ⦃room = file_room⦄ ⦃system = one_file⦄ first_args 1700000060 left
        ≡ serve_exit ⦃host = file_host⦄ ⦃room = file_room⦄ ⦃system = one_file⦄
            (some (bytes left))
            "/tmp/mnt"
            (bytes left, mounted.0.1))
main_again_example =
    main_again ⦃host = file_host⦄ ⦃room = file_room⦄ ⦃system = one_file⦄ first_args 1700000000 none
      "/tmp/mnt" (omega arith) refl [] (some []) (can_open none) mounted.0 mounted.1 mounted.0.1
      made_consistent first_args 1700000060 "/tmp/mnt" (omega arith) refl (bytes left)
      (some (bytes left)) (can_open left)
