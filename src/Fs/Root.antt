-- ===== src/Fs/Root.antt =====
-- The root directory of a disk that was formatted.
use operating_system_experie.Base.{ℕ, ◌^◌, ◌<◌, ◌≡◌, ◌≢◌, refl, ap, sym, ◌∙◌, arith, lt→ltb}
use operating_system_experie.Device.{Device}
use operating_system_experie.Bitmap.Mark.{bit_at, IsFull}
use operating_system_experie.Bitmap.Guard.{IsGuarded}
use operating_system_experie.Inode.{new_dir, read_inode}
use operating_system_experie.Inode.Table.{home}
use operating_system_experie.Directory.Slots.{ptr}
use operating_system_experie.Directory.View.{Models}
use operating_system_experie.Directory.Effect.{IsDirectory}
use operating_system_experie.Directory.Sound.{IsTaken, IsSound}
use operating_system_experie.Fs.Dots.{dots}
use operating_system_experie.Fs.OneBlock.{pointer, dots-IsDirectory, dots-Models}
use operating_system_experie.Fs.Format.{
  Formatted, root_of, root_of-IsTyped, format_new_fs-Formatted,
}

module _ ⦃dev : Device⦄ where
  open dev use {Disk, blocks, block}

  module _ (d : Disk) (now : ℕ) (small : now < 2 ^ 64) (f : Formatted d now) where
    -- The blocks before the data are taken on it.
    Formatted-IsGuarded : IsGuarded f.disk f.sb
    Formatted-IsGuarded = record {
      consistent = f.consistent;
      table = f.table;
      system = λ m h. f.bits m (omega arith) ∙ lt→ltb m 32 (omega arith);
    }

    count : (root_of now).block_count ≡ 1
    unfolding root_of
    count = refl

    number : (root_of now).inode_no ≡ 1
    unfolding root_of new_dir
    number = refl

    table_home : home f.sb (root_of now).inode_no ≡ 6
    table_home = ap (home f.sb) number ∙ omega (arith, f.table)

    first : ptr (root_of now) 0 ≡ 31
    unfolding root_of
    first = refl

    apart : 31 ≢ home f.sb (root_of now).inode_no
    apart = omega (arith, table_home)

    block_31 : (k : ℕ) → k < (root_of now).block_count → ptr (root_of now) k ≡ 31
    block_31 =
        pointer f.disk f.sb (root_of now) 31 1 1 count first (omega arith)
          (omega (arith, f.consistent.full)) apart f.entries (omega arith) (omega arith)

    root-IsTaken : IsTaken f.disk f.sb (root_of now)
    root-IsTaken = record {
      behind = λ k h. omega (arith, block_31 k h);
      taken = λ k h. ap (bit_at f.disk) (block_31 k h) ∙ f.bits 31 (omega arith);
      inside = λ k h. omega (arith, block_31 k h);
      inode_inside = omega (arith, table_home);
      inode_taken = ap (bit_at f.disk) table_home ∙ f.bits 6 (omega arith);
    }

    root-IsDirectory : IsDirectory f.disk f.sb (root_of now)
    root-IsDirectory =
        dots-IsDirectory f.disk f.sb (root_of now) 31 1 1 count first (omega arith)
          (omega (arith, f.consistent.full)) apart f.entries (omega arith) (omega arith)
          (ap (read_inode f.disk f.sb) (number ∙ sym f.number) ∙ f.root) (root_of-IsTyped now small)
          (omega (arith, number, f.table, f.consistent.full))

    root-Models : Models f.disk (root_of now) (dots 1 1)
    root-Models =
        dots-Models f.disk f.sb (root_of now) 31 1 1 count first (omega arith)
          (omega (arith, f.consistent.full)) apart f.entries (omega arith) (omega arith)

  -- Formatting succeeds, and the root directory is sound and has a map.
  pub record Rooted (d : Disk) (now : ℕ) : Type 0 where
    pub formatted : Formatted d now
    pub sound : IsSound formatted.disk formatted.sb (root_of now)
    pub models : Models formatted.disk (root_of now) (dots 1 1)

  -- Formatting a disk with all its blocks gives a well-formed root directory, whose map has `.` and
  -- `..`, both the root itself, and no other name. Its blocks and the blocks before the data are
  -- taken, so that none of them is ever handed out.
  pub format_new_fs-Rooted : (d : Disk) → IsFull d → (now : ℕ) → now < 2 ^ 64 → Rooted d now
  format_new_fs-Rooted d full now small =
      let f = format_new_fs-Formatted d full now small in
      record {
        formatted = f;
        sound = record {
          directory = root-IsDirectory d now small f;
          guarded = Formatted-IsGuarded d now small f;
          held = root-IsTaken d now small f;
        };
        models = root-Models d now small f;
      }
