-- ===== src/Disk/Partial.antt =====
-- `read_partial` and `write_partial`, against the blocks of the image.
use operating_system_experie.Base.{
  ℕ, ◌+◌, ◌-◌, ◌≤◌, ◌<◌, ◌≡◌, ◌≢◌, refl, ap, ◌∙◌, sym, List, length, take, arith, min, leb,
  take_of_ge, length-take, page_size, block_size, Bool-cases, inl, inr, true, false, ◌&&◌,
}
use operating_system_experie.Base.Slices.{
  IsBytes, slice, splice, length-splice, slice-splice_self, slice-splice_ne, splice_whole,
  splice-IsBytes, take-IsBytes, zeros, length-zeros,
}
use operating_system_experie.Base.Outcome.{ok, panic, ◌>>=◌}
use operating_system_experie.Host.{Host, HasRoom}
use operating_system_experie.Device.{IsBlock}
use operating_system_experie.Disk.{read_partial, write_partial}
use operating_system_experie.Disk.Blocks.{
  blocks, block, put, block-IsBlock, read_block-ok, write_block-ok, block-put_self, block-put_ne,
  blocks-put,
}

-- How much of the data `write_partial` copies.
fitting :
    (o : ℕ) (bytes : List ℕ)
    → take (min (o + length bytes) page_size - o) bytes ≡ take (page_size - o) bytes
fitting o bytes = elim (Bool-cases (leb (o + length bytes) page_size)) [
  | inl e ↦
      take_of_ge (min (o + length bytes) page_size - o) bytes (ground arith)
      ∙ sym (take_of_ge (page_size - o) bytes (ground arith))
  | inr e ↦ ap (λ k. take k bytes) (ground arith)
]

module _ ⦃host : Host⦄ ⦃room : HasRoom⦄ where
  open host use {File}

  module _ (f : File) (n o : ℕ) (bytes : List ℕ) (h : n < blocks f) where
    -- What `write_partial` leaves in the block.
    abbrev pub patched : List ℕ
    patched = splice o (take (page_size - o) bytes) (block f n)

    pub patched-IsBlock : IsBytes bytes → IsBlock patched
    patched-IsBlock b = (
      length-splice o (take (page_size - o) bytes) (block f n) ∙ (block-IsBlock f n h).0,
      splice-IsBytes o (take (page_size - o) bytes) (block f n)
          (take-IsBytes (page_size - o) bytes b) (block-IsBlock f n h).1,
    )

    -- With an offset in the page, as much of the data as fits before the last two bytes is written.
    pub write_partial-ok :
        o ≤ page_size → IsBytes bytes → write_partial f n o bytes ≡ ok (put f n patched)
    unfolding write_partial
    write_partial-ok le b =
        rw (write_partial, read_block-ok f n h, in_page, fitting o bytes)
          (write_block-ok f n patched h (patched-IsBlock b))
      where
        in_page : leb o (min (o + length bytes) page_size) ≡ true
        in_page = ground arith

    -- With an offset past the page, `write_partial` panics.
    pub write_partial-panic : page_size < o → write_partial f n o bytes ≡ panic
    unfolding write_partial
    write_partial-panic lt = rw (write_partial, read_block-ok f n h, past) refl
      where
        past : leb o (min (o + length bytes) page_size) ≡ false
        past = ground arith

    -- `read_partial` after `write_partial` of data that fits the page returns the data.
    pub read_partial-write_partial :
        o + length bytes ≤ page_size
        → IsBytes bytes
        → (write_partial f n o bytes >>= λ g.
            read_partial g n o (length bytes) (zeros (length bytes)))
          ≡ ok bytes
    unfolding read_partial
    read_partial-write_partial fits b =
        rw
          (
            write_partial-ok (omega arith) b,
            read_partial,
            read_block-ok (put f n patched) n stays,
            stored,
            least,
            in_buf,
          )
          (ap ok (splice_whole _ _ sizes ∙ copied))
      where
        stays : n < blocks (put f n patched)
        stays = omega (arith, blocks-put f n patched h (patched-IsBlock b))

        stored : block (put f n patched) n ≡ splice o bytes (block f n)
        stored =
            block-put_self f n patched h (patched-IsBlock b)
            ∙ ap (λ bs. splice o bs (block f n)) (take_of_ge (page_size - o) bytes (omega arith))

        least : min (o + length bytes) block_size ≡ o + length bytes
        least = omega arith

        in_buf :
            (leb o (o + length bytes) && leb (o + length bytes - o) (length (zeros (length bytes))))
            ≡ true
        in_buf = ground (arith, length-zeros (length bytes))

        amount : o + length bytes - o ≡ length bytes
        amount = omega arith

        copied : slice o (o + length bytes - o) (splice o bytes (block f n)) ≡ bytes
        copied =
            rw amount (slice-splice_self o bytes (block f n) (omega (arith, block-IsBlock f n h)))

        sizes :
            length (slice o (o + length bytes - o) (splice o bytes (block f n)))
            ≡ length (zeros (length bytes))
        sizes = rw copied (sym (length-zeros (length bytes)))

    -- The state after part of a block was written.
    pub record Patched : Type 0 where
      pub file : File
      pub returns : write_partial f n o bytes ≡ ok file
      pub inside : block file n ≡ splice o (take (page_size - o) bytes) (block f n)
      pub tail : slice page_size 2 (block file n) ≡ slice page_size 2 (block f n)
      pub others : (m : ℕ) → n ≢ m → block file m ≡ block f m

    -- With an offset in the page, `write_partial` returns, copies as much of the data as fits
    -- before the last two bytes of the block, and leaves those two and every other block alone.
    pub write_partial-Patched : o ≤ page_size → IsBytes bytes → Patched
    write_partial-Patched le b = record {
      file = put f n patched;
      returns = write_partial-ok le b;
      inside = block-put_self f n patched h (patched-IsBlock b);
      tail =
          ap (slice page_size 2) (block-put_self f n patched h (patched-IsBlock b))
          ∙ slice-splice_ne page_size 2 o (take (page_size - o) bytes) (block f n)
              (inr (omega (arith, length-take (page_size - o) bytes)));
      others = block-put_ne f n patched h (patched-IsBlock b);
    }
