-- ===== src/Fs/Writing.antt =====
-- The loop of `write` over the blocks of a file, and what `read` returns afterwards.
use operating_system_experie.Base.{
  ℕ, zero, suc, ◌+◌, ◌-◌, ◌*◌, ◌/◌, ◌%◌, ◌^◌, ◌≤◌, ◌<◌, ◌≡◌, ◌≢◌, refl, ap, ap₂, ◌∙◌, List, [], ◌∷◌,
  some, min, length, take, drop, length-take, length-drop, arith, page_size, if◌then◌else◌, ◌==◌,
  ==_of_ne, ==_of_eq, eq_of_==, ne_of_==, Bool-cases, inl, inr,
}
use operating_system_experie.Base.Slices.{
  IsBytes, byte, splice, length-splice, splice-IsBytes, byte-splice, take-IsBytes, drop-IsBytes,
}
use operating_system_experie.Base.Outcome.{ok, ◌>>=◌}
use operating_system_experie.Device.{Device, IsBlock}
use operating_system_experie.Inode.{Inode, get_block}
use operating_system_experie.Inode.BlockMap.{pointer_at, get_block_lem}
use operating_system_experie.Fs.Contents.{store}
use operating_system_experie.Fs.Reading.{content_byte}
use operating_system_experie.Fs.Places.{
  among, same_place, same_distance, other_place, none_among, joined,
}

-- The blocks that a file has: `n` different ones, none of them its indirect block, on a disk of
-- `total` blocks.
pub record IsBlockMap (i : Inode) (n total : ℕ) (ptr : ℕ → ℕ) : Type 0 where
  pub few : n < 2 ^ 32
  pub indirect : i.indirect_block < total
  pub there : (k : ℕ) → k < n → ptr k ≢ 0
  pub inside : (k : ℕ) → k < n → ptr k < total
  pub distinct : (k m : ℕ) → k < n → m < n → k ≢ m → ptr k ≢ ptr m
  pub beside : (k : ℕ) → k < n → ptr k ≢ i.indirect_block

module _ ⦃dev : Device⦄ where
  open dev use {Disk, read_block, write_block, blocks, block, put}

  module _ (i : Inode) (n total : ℕ) (ptr : ℕ → ℕ) (m : IsBlockMap i n total ptr) where
    -- On a disk these are the blocks.
    pub record IsMapped (d : Disk) : Type 0 where
      pub size : blocks d ≡ total
      pub pointers : (k : ℕ) → k < n → pointer_at i d k ≡ ptr k

    -- A byte of the file, by its block map.
    unfoldable pub cell : Disk → ℕ → ℕ
    cell d p = byte (block d (ptr (p / page_size))) (p % page_size)

    module _ (d : Disk) (on : IsMapped d) (index offset : ℕ) (src : List ℕ) (l : index < n)
        (fits : offset + length src ≤ page_size) (b : IsBytes src) where
      abbrev patched : List ℕ
      patched = splice offset src (block d (ptr index))

      inside : ptr index < blocks d
      inside = omega (arith, m.inside index l, on.size)

      patched-IsBlock : IsBlock patched
      patched-IsBlock = (
        length-splice offset src (block d (ptr index)) ∙ (dev.block-IsBlock d (ptr index) inside).0,
        splice-IsBytes offset src (block d (ptr index)) b
            (dev.block-IsBlock d (ptr index) inside).1,
      )

      abbrev round : Disk
      round = put d (ptr index) patched

      block_round : (k : ℕ) → block round k ≡ (if ptr index == k then patched else block d k)
      block_round k = dev.block-put d (ptr index) patched k inside patched-IsBlock

      block_here : (x : ℕ) → ptr index ≡ x → block round x ≡ patched
      block_here x e = block_round x ∙ rw (==_of_eq (ptr index) x e) refl

      block_there : (x : ℕ) → ptr index ≢ x → block round x ≡ block d x
      block_there x e = block_round x ∙ rw (==_of_ne (ptr index) x e) refl

      indirect_stays : block round i.indirect_block ≡ block d i.indirect_block
      indirect_stays = block_there i.indirect_block (m.beside index l)

      pointer_stays : (k : ℕ) → pointer_at i round k ≡ pointer_at i d k
      pointer_stays k = rw indirect_stays refl

      round-IsMapped : IsMapped round
      round-IsMapped = record {
        size = dev.blocks-put d (ptr index) patched inside patched-IsBlock ∙ on.size;
        pointers = λ k h. pointer_stays k ∙ on.pointers k h;
      }

      cell-round :
          (p : ℕ)
          → p / page_size < n
          → cell round p ≡ (
              if among (index * page_size + offset) (length src) p
              then byte src (p - (index * page_size + offset))
              else cell d p)
      unfolding cell
      cell-round p h = elim (Bool-cases (index == p / page_size)) [
        | inl e ↦
            let q = eq_of_== index (p / page_size) e in
            ap (λ b. byte b (p % page_size)) (block_here (ptr (p / page_size)) (ap ptr q))
            ∙ byte-splice offset src (block d (ptr index)) (p % page_size)
                (omega (arith, (dev.block-IsBlock d (ptr index) inside).0))
            ∙ ap₂ (λ t v. if t then byte src v else byte (block d (ptr index)) (p % page_size))
                (same_place index offset (length src) p q fits) (same_distance index offset p q)
            ∙ ap
                (λ k.
                  if among (index * page_size + offset) (length src) p
                  then byte src (p - (index * page_size + offset))
                  else byte (block d (ptr k)) (p % page_size))
                q
        | inr e ↦
            let q = ne_of_== index (p / page_size) e in
            ap (λ b. byte b (p % page_size))
              (block_there (ptr (p / page_size)) (m.distinct index (p / page_size) l h q))
            ∙ rw (other_place index offset (length src) p q fits) refl
      ]

    -- The state after a run of the loop: the bytes stand from the place on, the other bytes of the
    -- file stay, and so do all other blocks.
    pub record Stored (fuel : ℕ) (d : Disk) (src : List ℕ) (index offset : ℕ) : Type 0 where
      pub disk : Disk
      pub returns : store fuel d i src index offset ≡ ok disk
      pub mapped : IsMapped disk
      pub cells :
          (p : ℕ)
          → p / page_size < n
          → cell disk p ≡ (
              if among (index * page_size + offset) (length src) p
              then byte src (p - (index * page_size + offset))
              else cell d p)
      pub others : (k : ℕ) → ((j : ℕ) → j < n → ptr j ≢ k) → block disk k ≡ block d k

    block_found :
        (d : Disk)
        → IsMapped d
        → (index : ℕ) → index < n
        → get_block i d index ≡ ok (some (ptr index))
    block_found d on index l =
        get_block_lem i d index (omega (arith, m.indirect, on.size))
        ∙ rw (on.pointers index l, ==_of_ne (ptr index) 0 (m.there index l)) refl

    nothing : (fuel : ℕ) (d : Disk) (index offset : ℕ) → IsMapped d → Stored fuel d [] index offset
    unfolding store
    nothing fuel d index offset on = record {
      disk = d;
      returns = none_left fuel;
      mapped = on;
      cells = λ p h. rw (none_among (index * page_size + offset) p) refl;
      others = λ k h. refl;
    }
      where
        none_left : (fuel : ℕ) → store fuel d i [] index offset ≡ ok d
        none_left zero = refl
        none_left (suc fuel) = refl

    -- One round, and what the rest of the run does.
    module _ (fuel : ℕ) (d : Disk) (on : IsMapped d) (src : List ℕ) (index offset : ℕ)
        (b : IsBytes src) (some_left : 0 < length src) (lt : offset < page_size)
        (room : index * page_size + offset + length src ≤ n * page_size) where
      abbrev count : ℕ
      count = min (length src) (page_size - offset)

      here : index < n
      here = omega arith

      fits : offset + length (take count src) ≤ page_size
      fits = omega (arith, length-take count src)

      abbrev first : Disk
      first = round d on index offset (take count src) here fits (take-IsBytes count src b)

      first-IsMapped : IsMapped first
      first-IsMapped =
          round-IsMapped d on index offset (take count src) here fits (take-IsBytes count src b)

      first_stored :
          write_block d (ptr index) (splice offset (take count src) (block d (ptr index)))
          ≡ ok first
      first_stored =
          dev.write_block-ok d (ptr index) _ (omega (arith, m.inside index here, on.size)) (
            patched-IsBlock d on index offset (take count src) here fits (take-IsBytes count src b))

      then-Stored :
          Stored fuel first (drop count src) (index + 1) 0 → Stored (suc fuel) d src index offset
      unfolding store
      then-Stored r = record {
        disk = r.disk;
        returns =
            rw
              (
                store,
                ==_of_ne (length src) 0 (omega arith),
                block_found d on index here,
                ◌>>=◌,
                dev.read_block-ok d (ptr index) (omega (arith, m.inside index here, on.size)),
                first_stored,
                no_wrap,
              )
              r.returns;
        mapped = r.mapped;
        cells = λ p h.
            r.cells p h
            ∙ ap
                (λ o.
                  if among ((index + 1) * page_size + 0) (length (drop count src)) p
                  then byte (drop count src) (p - ((index + 1) * page_size + 0))
                  else o)
                (cell-round d on index offset (take count src) here fits (take-IsBytes count src b)
                  p h)
            ∙ joined index offset p (cell d p) src count refl lt;
        others = λ k h.
            r.others k h
            ∙ block_there d on index offset (take count src) here fits (take-IsBytes count src b) k
                (h index here);
      }
        where
          no_wrap : (index + 1) % 2 ^ 32 ≡ index + 1
          no_wrap = omega (arith, m.few)

    pub content_byte-cell :
        (d : Disk) → IsMapped d → (p : ℕ) → p / page_size < n → content_byte d i p ≡ cell d p
    unfolding content_byte cell
    content_byte-cell d on p h =
        ap (λ k. byte (block d k) (p % page_size)) (on.pointers (p / page_size) h)

    pub store-Stored :
        (fuel : ℕ) (d : Disk) (src : List ℕ) (index offset : ℕ)
        → IsMapped d
        → IsBytes src
        → length src ≤ fuel
        → offset < page_size
        → index * page_size + offset + length src ≤ n * page_size
        → Stored fuel d src index offset
    unfolding store
    store-Stored fuel d [] index offset on b f o l = nothing fuel d index offset on
    store-Stored zero d (x ∷ src) index offset on b f o l = absurd (omega arith)
    store-Stored (suc fuel) d (x ∷ src) index offset on b f o l =
        then-Stored fuel d on (x ∷ src) index offset b (omega arith) o l (
          store-Stored fuel (first fuel d on (x ∷ src) index offset b (omega arith) o l)
            (drop (min (suc (length src)) (page_size - offset)) (x ∷ src)) (index + 1) 0
            (first-IsMapped fuel d on (x ∷ src) index offset b (omega arith) o l)
            (drop-IsBytes (min (suc (length src)) (page_size - offset)) (x ∷ src) b)
            (omega (arith, length-drop (min (suc (length src)) (page_size - offset)) (x ∷ src)))
            (omega arith)
            (omega (arith, length-drop (min (suc (length src)) (page_size - offset)) (x ∷ src))))
