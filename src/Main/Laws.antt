-- ===== src/Main/Laws.antt =====
-- src/main.rs: what a run of the command does on every path, and what the next run finds.
use Prim.Native.String.{String}
use operating_system_experie.Base.{
  ℕ, ◌*◌, ◌/◌, ◌≤◌, ◌≡◌, refl, ap, sym, ◌∙◌, some, List, [], ◌∷◌, ◌++◌, length, le→ltb, disk_size,
  Option-cases, inl, inr, ◌⊎◌, block_size,
}
use operating_system_experie.Base.Outcome.{Outcome, ok, panic, ok_inj, ◌>>=◌, expect}
use operating_system_experie.Host.{Host, HasRoom}
use operating_system_experie.System.{System, Served, served, refused, unwound}
use operating_system_experie.Disk.{truncate}
use operating_system_experie.Superblock.{read_superblock}
use operating_system_experie.Disk.Open.{open_path, drop}
use operating_system_experie.Base.Slices.{slice}
use operating_system_experie.Disk.Blocks.{block, disk_device}
use operating_system_experie.Superblock.{SuperBlock}
use operating_system_experie.Bitmap.Alloc.{IsConsistent}
use operating_system_experie.Bitmap.Keep.{IsConsistent-same}
use operating_system_experie.Fs.Mount.{mount, mount-IsConsistent}
use operating_system_experie.Main.{
  last, usage, mount_failed, disk_img, Exit, mounting, ready, mount_path, serve, serve_exit,
  mount_exit, main,
}

module _ ⦃host : Host⦄ ⦃room : HasRoom⦄ ⦃system : System⦄ where
  open host use {File, contents}
  open system use {State, CString, c_string, open_file, close_file, saved, mount2}

  -- How a session that `mount2` ended with the result `v` leaves the command.
  abbrev pub Status : String → Served → Exit → Type 0
  Status mount_point v exit =
      (v ≡ served) × (exit.status ≡ 0) × (exit.err ≡ [])
      ⊎ ((v ≡ unwound) × (exit.status ≡ 101) × (exit.err ≡ [])
          ⊎ (e : String) × (v ≡ refused e)
            × (exit.status ≡ 1)
            × (exit.err ≡ mount_failed mount_point e))

  -- A session on a mounted image: what the image was, and how the command ends.
  pub record IsSession (s : State) (now : ℕ) (mount_point : String) (exit : Exit) : Type 0 where
    pub path : CString
    pub found : c_string disk_img ≡ some path
    pub file : File
    pub beside : State
    pub opens : open_file s path ≡ some (file, beside)
    pub image : File
    pub sb : SuperBlock
    pub mounts : mount file now ≡ ok (image, sb)
    pub closed : exit.files ≡ close_file beside path (mount2 (image, sb) mount_point).1
    pub said : exit.out ≡ mounting mount_point ++ ready sb mount_point
    pub status : Status mount_point (mount2 (image, sb) mount_point).0 exit

  -- What `main` does.
  pub data Runs (args : List String) (now : ℕ) (s : State) : Type 0 where
    nameless :
        args ≡ []
        → main args now s ≡ record { status = 101; out = []; err = []; files = s }
        → Runs args now s
    explained :
        (name : String)
        → args ≡ name ∷ []
        → main args now s ≡ record { status = 1; out = []; err = usage name; files = s }
        → Runs args now s
    unopened :
        (mount_point : String)
        → 2 ≤ length args
        → last args ≡ some mount_point
        → open_path s disk_img ≡ panic
        → main args now s ≡ record { status = 101; out = mounting mount_point; err = []; files = s }
        → Runs args now s
    unmounted :
        (mount_point : String) (f : File) (t : State)
        → 2 ≤ length args
        → last args ≡ some mount_point
        → open_path s disk_img ≡ ok (f, t)
        → (length (contents f) ≡ 0) ⊎ (read_superblock f ≡ panic)
        → truncate f disk_size ≡ panic
        → main args now s ≡ record { status = 101; out = mounting mount_point; err = []; files = s }
        → Runs args now s
    ran :
        (mount_point : String)
        → 2 ≤ length args
        → last args ≡ some mount_point
        → IsSession s now mount_point (main args now s)
        → Runs args now s

  ends :
      (s : State) (mount_point : String) (r : File × SuperBlock) (v : Served) (t : State)
      → serve s mount_point r ≡ ok (v, t)
      → ((serve_exit s mount_point r).files ≡ t)
        × ((serve_exit s mount_point r).out ≡ mounting mount_point ++ ready r.1 mount_point)
        × Status mount_point v (serve_exit s mount_point r)
  unfolding serve_exit
  ends s mount_point r served t e = rw (serve_exit, e) (refl, refl, inl (refl, refl, refl))
  ends s mount_point r (refused why) t e =
      rw (serve_exit, e) (refl, refl, inr (inr (why, refl, refl, refl)))
  ends s mount_point r unwound t e = rw (serve_exit, e) (refl, refl, inr (inl (refl, refl, refl)))

  -- The file that is opened.
  opened_file :
      (s t : State) (name : String) (f : File)
      → open_path s name ≡ ok (f, t)
      → (path : CString) × (c_string name ≡ some path) × (open_file s path ≡ some (f, t))
  unfolding open_path
  opened_file s t name f e = elim (Option-cases (c_string name)) [
    | inl missing ↦ absurd (lost (sym (rw (open_path, missing, expect, ◌>>=◌) refl) ∙ e))
    | inr (path, found) ↦ elim (Option-cases (open_file s path)) [
      | inl closed ↦ absurd (lost (sym (rw (open_path, found, expect, ◌>>=◌, closed) refl) ∙ e))
      | inr (r, opens) ↦ (
        path,
        found,
        opens ∙ ap some (ok_inj (sym (rw (open_path, found, expect, ◌>>=◌, opens) refl) ∙ e)),
      )
    ]
  ]
    where
      lost : {r : File × State} → ◌≡◌ {A = Outcome (File × State)} panic (ok r) → ⊥
      lost e = cc

  -- The session on an image that is open and mounted.
  serves :
      (t : State) (mount_point : String) (r : File × SuperBlock) (path : CString)
      → c_string disk_img ≡ some path
      → serve t mount_point r
        ≡ ok ((mount2 r mount_point).0, close_file t path (mount2 r mount_point).1)
  unfolding serve drop
  serves t mount_point r path found = rw (serve, drop, found, expect, ◌>>=◌) refl

  mounted_path :
      (s t : State) (now : ℕ) (f : File) (r : File × SuperBlock)
      → open_path s disk_img ≡ ok (f, t)
      → mount f now ≡ ok r
      → mount_path s disk_img now ≡ ok (t, r)
  unfolding mount_path
  mounted_path s t now f r opens mounts = rw (mount_path, opens, ◌>>=◌, mounts, ◌>>=◌) refl

  exits :
      (s t : State) (mount_point : String) (now : ℕ) (f : File) (r : File × SuperBlock)
      → open_path s disk_img ≡ ok (f, t)
      → mount f now ≡ ok r
      → mount_exit s mount_point now ≡ serve_exit t mount_point r
  unfolding mount_exit
  exits s t mount_point now f r opens mounts =
      rw (mount_exit, mounted_path s t now f r opens mounts) refl

  -- With a mount point, `main` mounts.
  main-mount_exit :
      (args : List String) (now : ℕ) (s : State) (mount_point : String)
      → 2 ≤ length args
      → last args ≡ some mount_point
      → main args now s ≡ mount_exit s mount_point now
  unfolding main
  main-mount_exit args now s mount_point many given =
      rw (main, given, le→ltb (length args) 2 many) refl

  -- A run that mounts an image, and whose session leaves a consistent disk.
  module _ (args : List String) (now : ℕ) (s : State) (mount_point : String)
      (many : 2 ≤ length args) (given : last args ≡ some mount_point) (f : File) (t : State)
      (opens : open_path s disk_img ≡ ok (f, t)) (r : File × SuperBlock)
      (mounts : mount f now ≡ ok r) (sb : SuperBlock)
      (left : IsConsistent (mount2 r mount_point).1 sb) where
    abbrev pub image : File
    image = (mount2 r mount_point).1

    kept :
        (path : CString)
        → c_string disk_img ≡ some path
        → saved (main args now s).files path ≡ some (contents image)
    kept path found =
        let (files, out, status) =
          ends t mount_point r (mount2 r mount_point).0 (close_file t path image)
            (serves t mount_point r path found) in
        ap (λ exit. saved exit.files path)
          (main-mount_exit args now s mount_point many given
            ∙ exits s t mount_point now f r opens mounts)
        ∙ ap (λ u. saved u path) files
        ∙ system.closed_bytes t path image

    same_bytes :
        (g : File) (u : State)
        → open_path (main args now s).files disk_img ≡ ok (g, u)
        → contents g ≡ contents image
    same_bytes g u again =
        let (path, found, open_here) = opened_file (main args now s).files u disk_img g again in
        system.opened_bytes _ _ path _ _ open_here (kept path found)

    consistent : (g : File) → contents g ≡ contents image → IsConsistent g sb
    consistent g bytes_same =
        let same : (n : ℕ) → block g n ≡ block image n =
          λ n. ap (slice (n * block_size) block_size) bytes_same in
        IsConsistent-same image g (λ n above below. same n) sb sb left left.typed left.named refl
          refl (ap (λ bytes. length bytes / block_size) bytes_same) (same 0 ∙ left.stored)

    -- When a run of the command mounts an image and its session leaves a consistent disk, then any
    -- next run with a mount point that can open the image serves there exactly the bytes that were
    -- left, with the superblock of that disk: nothing is formatted, whatever the exit status of the
    -- first run and the times and mount points of both.
    pub main_again :
        (args' : List String) (later : ℕ) (again : String)
        → 2 ≤ length args'
        → last args' ≡ some again
        → (g : File) (u : State) → open_path (main args now s).files disk_img ≡ ok (g, u)
        → (contents g ≡ contents image)
          × (main args' later (main args now s).files ≡ serve_exit u again (g, sb))
    main_again args' later again two last_one g u opens_again =
        let bytes_same = same_bytes g u opens_again in
        (
          bytes_same,
          main-mount_exit args' later (main args now s).files again two last_one
              ∙ exits (main args now s).files u again later g (g, sb) opens_again
                  (mount-IsConsistent g sb later (consistent g bytes_same)),
        )
