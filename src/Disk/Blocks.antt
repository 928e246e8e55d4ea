-- ===== src/Disk/Blocks.antt =====
-- The blocks of the image: `read_block` and `write_block` fill the `Device` interface.
use operating_system_experie.Base.{
  ℕ, ◌+◌, ◌*◌, ◌/◌, ◌^◌, ◌≤◌, ◌<◌, ◌≡◌, ◌≢◌, inl, inr, ◌⊎◌, refl, ap, ◌∙◌, List, Option, none, some,
  some_inj, Option-cases, length, take, arith, ◌==◌, if◌then◌else◌, block_size, take_all,
  Bool-cases, eq_of_==, ne_of_==, ==_of_ne, sym, drop, length-take, length-drop,
}
use operating_system_experie.Base.Slices.{
  slice, splice, length-slice, length-splice, slice-splice_self, slice-splice_ne, slice-IsBytes,
}
use operating_system_experie.Base.Outcome.{ok, panic, ◌>>=◌}
use operating_system_experie.Host.{Host, HasRoom}
use operating_system_experie.Device.{Device, IsBlock}
use operating_system_experie.Disk.{read_block, write_block}

apart : (n m l : ℕ) → l ≡ 512 → n ≢ m → (m * 512 + 512 ≤ n * 512) ⊎ (n * 512 + l ≤ m * 512)
apart n m l e ne = omega arith

module _ ⦃host : Host⦄ where
  open host use {File, write, fsync, contents}

  abbrev pub blocks : File → ℕ
  blocks f = length (contents f) / block_size

  abbrev pub block : File → ℕ → List ℕ
  block f n = slice (n * block_size) block_size (contents f)

  abbrev pub put : File → ℕ → List ℕ → File
  put f n buf = fsync (write f (n * block_size) (take block_size buf)).1

  pub block-IsBlock : (f : File) (n : ℕ) → n < blocks f → IsBlock (block f n)
  block-IsBlock f n h = (
    length-slice (n * block_size) block_size (contents f) (omega arith),
    slice-IsBytes (n * block_size) block_size (contents f) (host.contents-IsBytes f),
  )

  seek : (f : File) (n : ℕ) → n < blocks f → host.lseek f (n * block_size) ≡ some (n * block_size)
  seek f n h = host.lseek-set f (n * block_size) (omega (arith, host.contents-lt f))

  -- A block that lies in the image is read whole.
  pub read_block-ok : (f : File) (n : ℕ) → n < blocks f → read_block f n ≡ ok (block f n)
  unfolding read_block
  read_block-ok f n h = rw (read_block, seek f n h, host.read-slice, (block-IsBlock f n h).0)

  -- A block that reaches past the end of the image makes `read_block` panic.
  pub read_block-panic : (f : File) (n : ℕ) → n < 2 ^ 32 → blocks f ≤ n → read_block f n ≡ panic
  unfolding read_block
  read_block-panic f n small h = rw (
    read_block,
    host.lseek-set f (n * block_size) (omega arith),
    host.read-slice,
    ==_of_ne (length (block f n)) block_size (
        omega (
          arith,
          length-take block_size (drop (n * block_size) (contents f)),
          length-drop (n * block_size) (contents f),
        )),
  )

  module _ (f : File) (n : ℕ) (buf : List ℕ) (h : n < blocks f) (b : IsBlock buf) where
    whole : take block_size buf ≡ buf
    whole = ap (λ k. take k buf) (sym b.0) ∙ take_all buf

    -- The host writes all the bytes.
    module _ (complete : (write f (n * block_size) buf).0 ≡ some (length buf)) where
      contents_stored : contents (put f n buf) ≡ splice (n * block_size) buf (contents f)
      contents_stored =
          host.contents-fsync _
          ∙ ap (λ bs. contents (write f (n * block_size) bs).1) whole
          ∙ host.contents-write f (n * block_size) buf b.1 (omega arith) complete

      returns : write_block f n buf ≡ ok (put f n buf)
      unfolding write_block
      returns = rw (write_block, seek f n h, whole, complete, b.0)

      blocks_stored : blocks (put f n buf) ≡ blocks f
      blocks_stored = rw (contents_stored, length-splice)

      self : block (put f n buf) n ≡ buf
      self = rw contents_stored (
          ap (λ k. slice (n * block_size) k (splice (n * block_size) buf (contents f))) (sym b.0)
          ∙ slice-splice_self (n * block_size) buf (contents f) (omega arith))

      beside : (m : ℕ) → n ≢ m → block (put f n buf) m ≡ block f m
      beside m ne = rw contents_stored (
          slice-splice_ne (m * block_size) block_size (n * block_size) buf (contents f)
            (apart n m (length buf) b.0 ne))

    -- What `write_block` does, whether there is room or not.
    pub data WritesBlock : Type 0 where
      stored :
          (g : File)
          → (write f (n * block_size) buf).0 ≡ some block_size
          → write_block f n buf ≡ ok g
          → block g n ≡ buf
          → ((m : ℕ) → n ≢ m → block g m ≡ block f m)
          → length (contents g) ≡ length (contents f)
          → WritesBlock
      failed :
          (write f (n * block_size) buf).0 ≢ some block_size
          → write_block f n buf ≡ panic
          → WritesBlock

    -- `write_block` of 512 bytes to a block of the image: if the host reports that it wrote all the
    -- bytes, the block holds them, every other block stays and the image keeps its length;
    -- if it reports an error or fewer bytes, `write_block` panics.
    pub write_block-WritesBlock : WritesBlock
    unfolding write_block
    write_block-WritesBlock = elim (Option-cases (write f (n * block_size) buf).0) [
      | inl error ↦
          failed (λ e. nothing (sym error ∙ e)) (rw (write_block, seek f n h, whole, error) refl)
      | inr (count, reported) ↦ elim (Bool-cases (count == block_size)) [
        | inl e ↦
            let all = reported ∙ ap some (eq_of_== count block_size e) in
            let complete = all ∙ ap some (sym b.0) in
            stored (put f n buf) all (returns complete) (self complete) (beside complete)
              (ap length (contents_stored complete) ∙ length-splice _ buf (contents f))
        | inr e ↦
            failed (λ all. ne_of_== count block_size e (some_inj (sym reported ∙ all)))
              (rw (write_block, seek f n h, whole, reported, e) refl)
      ]
    ]
      where
        nothing : {k : ℕ} → ◌≡◌ {A = Option ℕ} none (some k) → ⊥
        nothing e = cc

  module _ ⦃room : HasRoom⦄ (f : File) (n : ℕ) (buf : List ℕ) (h : n < blocks f)
      (b : IsBlock buf) where
    complete : (write f (n * block_size) buf).0 ≡ some (length buf)
    complete = room.complete f (n * block_size) buf b.1 (omega arith)

    -- A block inside the image is written whole.
    pub write_block-ok : write_block f n buf ≡ ok (put f n buf)
    write_block-ok = returns f n buf h b complete

    pub blocks-put : blocks (put f n buf) ≡ blocks f
    blocks-put = blocks_stored f n buf h b complete

    pub block-put_self : block (put f n buf) n ≡ buf
    block-put_self = self f n buf h b complete

    pub block-put_ne : (m : ℕ) → n ≢ m → block (put f n buf) m ≡ block f m
    block-put_ne = beside f n buf h b complete

    pub block-put : (m : ℕ) → block (put f n buf) m ≡ (if n == m then buf else block f m)
    block-put m = elim (Bool-cases (n == m)) [
      | inl e ↦ rw e (ap (block (put f n buf)) (sym (eq_of_== n m e)) ∙ block-put_self)
      | inr e ↦ rw e (block-put_ne m (ne_of_== n m e))
    ]

  -- A block that was written reads back as what was written, and any other block of the image
  -- reads as before, where writes inside the image are complete.
  pub read_block-write_block :
      ⦃room : HasRoom⦄ (f : File) (n : ℕ) (buf : List ℕ) (m : ℕ)
      → n < blocks f
      → IsBlock buf
      → m < blocks f
      → (write_block f n buf >>= λ g. read_block g m) ≡ (if n == m then ok buf else read_block f m)
  read_block-write_block f n buf m h b hm =
      rw
        (
          write_block-ok f n buf h b,
          read_block-ok (put f n buf) m (rw (blocks-put f n buf h b) hm),
          block-put f n buf h b m,
          read_block-ok f m hm,
        )
        (elim (Bool-cases (n == m)) [ inl e ↦ rw e refl | inr e ↦ rw e refl ])

  -- The image as a device of numbered blocks.
  instance abbrev pub disk_device : ⦃room : HasRoom⦄ → Device
  disk_device = record {
    Disk = File;
    read_block = read_block;
    write_block = write_block;
    blocks = blocks;
    block = block;
    put = put;
    block-IsBlock = block-IsBlock;
    read_block-ok = read_block-ok;
    write_block-ok = write_block-ok;
    blocks-put = blocks-put;
    block-put = λ f n buf m h b. block-put f n buf h b m;
  }
