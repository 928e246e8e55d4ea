-- ===== src/Fs/Mkdir.antt =====
-- The handler `mkdir` as a whole.
use native.Mathlib.Nat.{mod-eq_of_lt}
use operating_system_experie.Base.{
  ℕ, ◌%◌, ◌^◌, ◌≤◌, ◌<◌, ◌≡◌, ◌≢◌, refl, ap, ◌∙◌, true, List, Option, none, some, arith, max_blocks,
  subst, Option-cases, inl, inr,
}
use operating_system_experie.Base.FirstClear.{
  first_clear, IsFirst, first_clear-some, first_clear-none,
}
use operating_system_experie.Base.Outcome.{ok, panic, ◌>>=◌}
use operating_system_experie.Device.{Device}
use operating_system_experie.Superblock.{SuperBlock}
use operating_system_experie.Bitmap.{allocate_block}
use operating_system_experie.Bitmap.Mark.{bit_at}
use operating_system_experie.Bitmap.Alloc.{Allocated, allocate_block_lem}
use operating_system_experie.Bitmap.Spared.{IsSpared}
use operating_system_experie.Inode.{Inode, read_inode}
use operating_system_experie.Inode.Table.{home, InImage}
use operating_system_experie.Directory.{DirEntry}
use operating_system_experie.Directory.Slots.{ptr, slot, slots}
use operating_system_experie.Directory.View.{Names, Models, Shows, dir_find-FindsAs}
use operating_system_experie.Directory.Sound.{IsSound}
use operating_system_experie.Directory.Add.{IsName}
use operating_system_experie.Fs.{eexist, enospc, reply, error, inode_to_attr}
use operating_system_experie.Fs.Lookup.{to_str-utf8}
use operating_system_experie.Fs.Numbers.{is_used, unused_inode-first_clear, is_used-stored}
use operating_system_experie.Fs.Changes.{unknown, mkdir_at, mkdir}
use operating_system_experie.Fs.MadeDir.{made_dir, MadeDir, IsFull, Makes, made_in, overfull}
use operating_system_experie.Fs.NewDir.{mkdir_at-Makes}

module _ ⦃dev : Device⦄ where
  open dev use {Disk, blocks, block, put}

  module _ (d : Disk) (sb : SuperBlock) (dir : Inode) (f : Names) (name : List ℕ) (now : ℕ) where
    -- What `mkdir` does: the name is there already, all numbers are used, no block is free, a
    -- directory is made and named, or the parent is full and the handler panics.
    pub data Mkdirs : Type 0 where
      present :
          (x : DirEntry)
          → f name ≡ some x
          → mkdir d sb dir.inode_no name now ≡ ok (error eexist, d, sb)
          → Mkdirs
      exhausted :
          f name ≡ none
          → ((number : ℕ) → 500 ≤ number → number ≤ 900 → is_used d sb number ≡ true)
          → mkdir d sb dir.inode_no name now ≡ ok (error enospc, d, sb)
          → Mkdirs
      disk_full :
          f name ≡ none
          → ((m : ℕ) → m < max_blocks → bit_at d m ≡ true)
          → mkdir d sb dir.inode_no name now ≡ ok (error enospc, d, sb)
          → Mkdirs
      made :
          (number n : ℕ)
          → f name ≡ none
          → IsFirst (is_used d sb) 500 901 number
          → IsFirst (bit_at d) 0 max_blocks n
          → (x : MadeDir d sb dir f name now number n)
          → mkdir d sb dir.inode_no name now
            ≡ ok (reply (inode_to_attr (made_dir number now n)), x.disk, x.after)
          → Mkdirs
      panics :
          (number n : ℕ)
          → f name ≡ none
          → IsFirst (is_used d sb) 500 901 number
          → IsFirst (bit_at d) 0 max_blocks n
          → IsFull d dir n
          → mkdir d sb dir.inode_no name now ≡ panic
          → Mkdirs

    module _ (i : IsSound d sb dir) (m : Models d dir f) (named : IsName name)
        (small : now < 2 ^ 64) (linked : dir.nlink ≢ 0)
        (away : (number k : ℕ)
          → 500 ≤ number
          → number ≤ 900
          → k < dir.block_count
          → ptr dir k ≢ home sb number)
        (still : (number : ℕ) → 500 ≤ number → number ≤ 900 → IsSpared d 2 (home sb number)) where
      parent : dir.inode_no % 2 ^ 32 ≡ dir.inode_no
      parent = mod-eq_of_lt i.directory.typed.inode_no

      inside : (number : ℕ) → number ≤ 900 → InImage d sb number
      inside number h = omega (arith, i.guarded.table, i.guarded.consistent.full)

      searched : Option ℕ
      searched = first_clear (is_used d sb) 401 500

      module _ (e : f name ≡ none) where
        absent : Shows (slots dir) (slot d dir) name none
        absent = subst (Shows (slots dir) (slot d dir) name) e (m name)

        module _ (number : ℕ) (lowest : searched ≡ some number) where
          first : IsFirst (is_used d sb) 500 901 number
          unfolding searched
          first = first_clear-some (is_used d sb) 401 500 number lowest

          other : number ≢ dir.inode_no
          other same = linked (
              is_used-stored d sb number dir (inside number (omega (arith, first.below)))
                (ap (read_inode d sb) same ∙ i.directory.stored) first.clear)

          apart : (k : ℕ) → k < dir.block_count → ptr dir k ≢ home sb number
          apart k h = away number k first.above (omega (arith, first.below)) h

          home_inside : home sb number < max_blocks
          home_inside = omega (arith, i.guarded.table, first.below)

          makes :
              (a : Allocated d sb (allocate_block d sb)) → Makes d sb dir f name now number a.chosen
          makes a =
              mkdir_at-Makes d sb dir f name now number i m named small (omega (arith, first.below))
                other apart home_inside (still number first.above (omega (arith, first.below))) e a

          reached :
              mkdir d sb dir.inode_no name now ≡ mkdir_at d sb dir dir.inode_no name number now
          unfolding mkdir searched
          reached =
              rw
                (
                  mkdir,
                  parent,
                  i.directory.stored,
                  ◌>>=◌,
                  to_str-utf8 name unknown named.utf8,
                  dir_find-FindsAs d sb dir i.directory.held i.directory.names name none absent,
                  ◌>>=◌,
                  unused_inode-first_clear 401 500 d sb (λ k lo hi. inside k (omega arith)),
                  lowest,
                  ◌>>=◌,
                )
                (ap (λ q. mkdir_at d sb dir dir.inode_no q number now)
                  (to_str-utf8 name unknown named.utf8))

          at_number : Mkdirs
          unfolding mkdir_at
          at_number = elim (allocate_block_lem d sb i.guarded.consistent) [
            | inl (returns, all) ↦ disk_full e all (reached ∙ rw (mkdir_at, returns, ◌>>=◌) refl)
            | inr a ↦ elim (makes a) [
              | made_in x returns ↦ made number a.chosen e first a.first x (reached ∙ returns)
              | overfull full returns ↦
                  panics number a.chosen e first a.first full (reached ∙ returns)
            ]
          ]

      -- On a sound directory `mkdir` of a name of 1 to 28 bytes makes a directory under the lowest
      -- number from 500 to 900 whose inode has no link, in the lowest free block: the name enters
      -- the map of the parent, `lookup` finds the new inode, the new directory is well formed and
      -- holds exactly `.` and `..`, its block is taken, the parent and the disk stay sound, and the
      -- taken data blocks stay, but for the parent's and the one where the new inode lies. If the
      -- name is there, all numbers are used, or no block is free, the reply says so and nothing
      -- changes. If the parent has no free slot, and ten blocks or no further free block, the handler
      -- panics. The parent has a link, none of its blocks is one where an inode of these numbers
      -- lies, and neither is one of the two lowest free blocks.
      pub mkdir-Mkdirs : Mkdirs
      unfolding mkdir searched
      mkdir-Mkdirs = elim (Option-cases (f name)) [
        | inr (x, e) ↦
            let (at, less, entry, matches, finds) =
              dir_find-FindsAs d sb dir i.directory.held i.directory.names name (some x)
                (subst (Shows (slots dir) (slot d dir) name) e (m name)) in
            present x e (
              rw
                (
                  mkdir,
                  parent,
                  i.directory.stored,
                  ◌>>=◌,
                  to_str-utf8 name unknown named.utf8,
                  finds,
                  ◌>>=◌,
                )
                refl)
        | inl e ↦ elim (Option-cases searched) [
          | inr (number, lowest) ↦ at_number e number lowest
          | inl nothing ↦
              exhausted e
                (λ number lo hi.
                  first_clear-none (is_used d sb) 401 500 number nothing lo (omega arith))
                (rw
                  (
                    mkdir,
                    parent,
                    i.directory.stored,
                    ◌>>=◌,
                    to_str-utf8 name unknown named.utf8,
                    dir_find-FindsAs d sb dir i.directory.held i.directory.names name none
                        (absent e),
                    ◌>>=◌,
                    unused_inode-first_clear 401 500 d sb (λ k lo hi. inside k (omega arith)),
                    nothing,
                    ◌>>=◌,
                  )
                  refl)
        ]
      ]
