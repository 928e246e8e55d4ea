-- ===== src/Memory.antt =====
-- A device that keeps its blocks in memory, a host with one small file and a system around it:
-- concrete values for the parameters of the development.
pub mod FileHost
pub mod OneFile
use operating_system_experie.Base.{
  ℕ, zero, suc, ◌+◌, ◌%◌, ◌^◌, ◌≤◌, ◌<◌, ◌≡◌, refl, ap, ap₂, sym, ◌∙◌, List, [], ◌∷◌, length,
  tabulate, get_or, arith, if◌then◌else◌, ◌==◌, Bool-cases, inl, inr, block_size, max_blocks, ltb,
  lt→ltb,
}
use native.Mathlib.Nat.{mod-eq_of_lt}
use operating_system_experie.Base.Slices.{IsBytes, byte}
use operating_system_experie.Base.Outcome.{Outcome, ok, panic}
use operating_system_experie.Device.{Device, IsBlock}

abbrev pub Cells : Type 0
Cells = ℕ → List ℕ

-- Any list as a block of bytes.
abbrev pub fit : List ℕ → List ℕ
fit buf = tabulate block_size (λ i. byte buf i % 256)

length-tabulate : (n : ℕ) (f : ℕ → ℕ) → length (tabulate n f) ≡ n
length-tabulate zero f = refl
length-tabulate (suc n) f = ap suc (length-tabulate n (λ i. f (suc i)))

tabulate-IsBytes : (n : ℕ) (f : ℕ → ℕ) → ((i : ℕ) → f i < 256) → IsBytes (tabulate n f)
tabulate-IsBytes zero f h i = omega arith
tabulate-IsBytes (suc n) f h zero = h 0
tabulate-IsBytes (suc n) f h (suc i) = tabulate-IsBytes n (λ i. f (suc i)) (λ i. h (suc i)) i

tabulate_bytes :
    (n : ℕ) (buf : List ℕ) → length buf ≡ n → IsBytes buf → tabulate n (λ i. byte buf i % 256) ≡ buf
tabulate_bytes zero [] e b = refl
tabulate_bytes zero (x ∷ buf) e b = absurd (omega arith)
tabulate_bytes (suc n) [] e b = absurd (omega arith)
tabulate_bytes (suc n) (x ∷ buf) e b =
    ap₂ ◌∷◌ (mod-eq_of_lt (b 0)) (tabulate_bytes n buf (omega arith) (λ i. b (suc i)))

pub fit-IsBlock : (buf : List ℕ) → IsBlock (fit buf)
fit-IsBlock buf = (
  length-tabulate block_size (λ i. byte buf i % 256),
  tabulate-IsBytes block_size (λ i. byte buf i % 256) (λ i. omega arith),
)

fit_block : (buf : List ℕ) → IsBlock buf → fit buf ≡ buf
fit_block buf b = tabulate_bytes block_size buf b.0 b.1

unfoldable pub put : Cells → ℕ → List ℕ → Cells
put d n buf m = if n == m then buf else d m

pub block-put :
    (d : Cells) (n : ℕ) (buf : List ℕ) (m : ℕ)
    → IsBlock buf
    → fit (put d n buf m) ≡ (if n == m then buf else fit (d m))
unfolding put
block-put d n buf m b = elim (Bool-cases (n == m)) [
  | inl e ↦ rw e (fit_block buf b)
  | inr e ↦ rw e refl
]

-- 20480 blocks in memory.
abbrev pub memory : Device
memory = record {
  Disk = Cells;
  read_block = λ d n. if ltb n max_blocks then ok (fit (d n)) else panic;
  write_block = λ d n buf. if ltb n max_blocks then ok (put d n buf) else panic;
  blocks = λ d. max_blocks;
  block = λ d n. fit (d n);
  put = put;
  block-IsBlock = λ d n h. fit-IsBlock (d n);
  read_block-ok = λ d n h. rw (lt→ltb n max_blocks h) refl;
  write_block-ok = λ d n buf h b. rw (lt→ltb n max_blocks h) refl;
  blocks-put = λ d n buf h b. refl;
  block-put = λ d n buf m h b. block-put d n buf m b;
}

-- A disk of zeros.
abbrev pub blank : Cells
blank = λ n. []
