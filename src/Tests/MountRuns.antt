-- ===== src/Tests/MountRuns.antt =====
-- src/fs.rs: `mount` of an empty file, and of the image that it leaves.
use operating_system_experie.Base.{ℕ, ◌≡◌, refl, sym, ◌∙◌, List, [], arith, disk_size}
use operating_system_experie.Base.Outcome.{Outcome, ok, panic}
use operating_system_experie.Disk.{truncate}
use operating_system_experie.Superblock.{SuperBlock}
use operating_system_experie.Fs.Mount.{
  mount, Mounts, renewed, unresized, opened, mount-empty, mount-Mounts, mount-IsConsistent,
}
use operating_system_experie.Memory.FileHost.{file_host, file_room, padded}

can_resize : truncate ⦃host = file_host⦄ [] disk_size ≡ ok (padded [] disk_size)
unfolding truncate
can_resize = refl

lost : {f : List ℕ} → ◌≡◌ {A = Outcome (List ℕ)} panic (ok f) → ⊥
lost e = cc

-- The image of the new file system.
image_of :
    Mounts ⦃host = file_host⦄ ⦃room = file_room⦄ [] 1700000000
    → (r : List ℕ × SuperBlock) × (mount ⦃host = file_host⦄ ⦃room = file_room⦄ [] 1700000000 ≡ ok r)
image_of (renewed why r) = ((r.rooted.formatted.disk, r.rooted.formatted.sb), r.returns)
image_of (unresized why failed returns) = absurd (lost (sym failed ∙ can_resize))
image_of (opened sb some_bytes found returns) = absurd (some_bytes refl)

pub mounted :
    (r : List ℕ × SuperBlock) × (mount ⦃host = file_host⦄ ⦃room = file_room⦄ [] 1700000000 ≡ ok r)
mounted = image_of (mount-Mounts ⦃host = file_host⦄ ⦃room = file_room⦄ [] 1700000000 (omega arith))

mount-IsConsistent_example :
    mount ⦃host = file_host⦄ ⦃room = file_room⦄ mounted.0.0 1700000001
    ≡ ok (mounted.0.0, mounted.0.1)
mount-IsConsistent_example =
    mount-IsConsistent ⦃host = file_host⦄ ⦃room = file_room⦄ mounted.0.0 mounted.0.1 1700000001 (
      mount-empty ⦃host = file_host⦄ ⦃room = file_room⦄ [] mounted.0.0 mounted.0.1 1700000000
        (omega arith) refl mounted.1)
