-- ===== src/Fs/Mount.antt =====
-- src/fs.rs: `mount`, which opens the file system of an image or makes a new one. The image is the
-- open file; the panic of `read_superblock` is caught.
use operating_system_experie.Base.{
  ℕ, ◌-◌, ◌^◌, ◌<◌, ◌≡◌, ◌≢◌, refl, ap, sym, subst, ◌∙◌, List, ◌++◌, some, arith, length, take,
  replicate, length-take, length-append, length-replicate, disk_size, ◌==◌, if◌then◌else◌,
  Bool-cases, Option-cases, eq_of_==, ne_of_==, ==_of_ne, inl, inr, ◌⊎◌,
}
use operating_system_experie.Base.Outcome.{Outcome, ok, ok_inj, panic, Outcome-cases, ◌>>=◌}
use operating_system_experie.Host.{Host, HasRoom}
use operating_system_experie.Disk.{size, truncate}
use operating_system_experie.Disk.Blocks.{disk_device}
use operating_system_experie.Superblock.{SuperBlock, read_superblock}
use operating_system_experie.Bitmap.Mark.{IsFull}
use operating_system_experie.Bitmap.Alloc.{IsConsistent, stored_superblock}
use operating_system_experie.Fs.{format_new_fs}
use operating_system_experie.Fs.Root.{Rooted, format_new_fs-Rooted}

module _ ⦃host : Host⦄ ⦃room : HasRoom⦄ where
  open host use {File, contents}

  -- An image of the size of the disk, formatted.
  unfoldable pub reformat : File → ℕ → Outcome (File × SuperBlock)
  reformat f now = do g ← truncate f disk_size; format_new_fs g now

  unfoldable pub mount : File → ℕ → Outcome (File × SuperBlock)
  mount f now = do
    n ← size f
    if n == 0
        then reformat f now
        else elim (read_superblock f) [ ok sb ↦ ok (f, sb) | panic ↦ reformat f now ]

  -- A new file system on the image at the size of the disk.
  pub record Renewed (f : File) (now : ℕ) : Type 0 where
    pub image : File
    pub resized : truncate f disk_size ≡ ok image
    pub rooted : Rooted image now
    pub returns : mount f now ≡ ok (rooted.formatted.disk, rooted.formatted.sb)

  -- What `mount` does.
  pub data Mounts (f : File) (now : ℕ) : Type 0 where
    renewed : (length (contents f) ≡ 0) ⊎ (read_superblock f ≡ panic) → Renewed f now → Mounts f now
    unresized :
        (length (contents f) ≡ 0) ⊎ (read_superblock f ≡ panic)
        → truncate f disk_size ≡ panic
        → mount f now ≡ panic
        → Mounts f now
    opened :
        (sb : SuperBlock)
        → length (contents f) ≢ 0
        → read_superblock f ≡ ok sb
        → mount f now ≡ ok (f, sb)
        → Mounts f now

  module _ (f : File) (now : ℕ) (small : now < 2 ^ 64) where
    size-length : size f ≡ ok (length (contents f))
    unfolding size
    size-length = rw (size, host.fstat-length f) refl

    module _ (g : File) (resized : truncate f disk_size ≡ ok g) where
      contents_resized :
          contents g ≡ take disk_size (contents f ++ replicate (disk_size - length (contents f)) 0)
      unfolding truncate
      contents_resized = elim (Option-cases (host.ftruncate f disk_size)) [
        | inl failed ↦ absurd (lost (sym (rw (truncate, failed) refl) ∙ resized))
        | inr (h, made) ↦
            host.contents-ftruncate f g disk_size
              (made ∙ ap some (ok_inj (sym (rw (truncate, made) refl) ∙ resized)))
      ]
        where
          lost : {h : File} → ◌≡◌ {A = Outcome File} panic (ok h) → ⊥
          lost e = cc

      full : IsFull g
      full =
          let padding : List ℕ = replicate (disk_size - length (contents f)) 0 in
          omega (
            arith,
            ap length contents_resized,
            length-take disk_size (contents f ++ padding),
            length-append (contents f) padding,
            length-replicate {A = ℕ} (disk_size - length (contents f)) 0,
          )

      r : Rooted g now
      r = format_new_fs-Rooted g full now small

      formats : reformat f now ≡ ok (r.formatted.disk, r.formatted.sb)
      unfolding reformat
      formats = rw (reformat, resized, ◌>>=◌) r.formatted.returns

    renews :
        (length (contents f) ≡ 0) ⊎ (read_superblock f ≡ panic)
        → mount f now ≡ reformat f now
        → Mounts f now
    unfolding reformat
    renews why e = elim (Outcome-cases (truncate f disk_size)) [
      | inl (g, resized) ↦ renewed why (record {
        image = g;
        resized = resized;
        rooted = r g resized;
        returns = e ∙ formats g resized;
      })
      | inr failed ↦ unresized why failed (e ∙ rw (reformat, failed, ◌>>=◌) refl)
    ]

    pub mount-Mounts : Mounts f now
    unfolding mount
    mount-Mounts = elim (Bool-cases (length (contents f) == 0)) [
      | inl e ↦ renews (inl (eq_of_== _ 0 e)) ((rw (mount, size-length, ◌>>=◌, e) refl))
      | inr e ↦ elim (Outcome-cases (read_superblock f)) [
        | inl (sb, found) ↦
            opened sb (ne_of_== _ 0 e) found (rw (mount, size-length, ◌>>=◌, e, found) refl)
        | inr lost ↦ renews (inr lost) ((rw (mount, size-length, ◌>>=◌, e, lost) refl))
      ]
    ]

  nothing : {r : File × SuperBlock} → ◌≡◌ {A = Outcome (File × SuperBlock)} panic (ok r) → ⊥
  nothing e = cc

  -- What `mount` of an empty image returns is consistent.
  pub mount-empty :
      (f image : File) (sb : SuperBlock) (now : ℕ)
      → now < 2 ^ 64
      → length (contents f) ≡ 0
      → mount f now ≡ ok (image, sb)
      → IsConsistent image sb
  mount-empty f image sb now small empty mounts = elim (mount-Mounts f now small) [
    | renewed why r ↦
        let same : ◌≡◌ {A = File × SuperBlock} (r.rooted.formatted.disk, r.rooted.formatted.sb)
            (image, sb) =
          ok_inj (sym r.returns ∙ mounts) in
        subst (λ x. IsConsistent x.0 x.1) same r.rooted.formatted.consistent
    | unresized why failed returns ↦ absurd (nothing (sym returns ∙ mounts))
    | opened other some_bytes found returns ↦ absurd (some_bytes empty)
  ]

  -- At any time when the disk is consistent, `mount` of the image gives back the superblock that the
  -- session holds, and changes nothing: no state is lost when the session ends.
  pub mount-IsConsistent :
      (f : File) (sb : SuperBlock) (now : ℕ) → IsConsistent f sb → mount f now ≡ ok (f, sb)
  unfolding mount size
  mount-IsConsistent f sb now c =
      rw
        (
          mount,
          size,
          host.fstat-length f,
          ◌>>=◌,
          ==_of_ne (length (contents f)) 0 (omega (arith, c.full)),
          stored_superblock f sb c,
        )
        refl
