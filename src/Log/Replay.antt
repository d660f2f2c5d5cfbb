-- ===== src/Log/Replay.antt =====
-- What a log describes: each home block with the last copy of it in the log.
use compiling_to_assembly.Prelude.{
  ℕ, zero, suc, ◌+◌, ◌≤◌, ◌<◌, ◌≡◌, refl, ◌⊎◌, inl, inr, true, false, ◌||◌, ◌&&◌, ◌-◌, arith, ◌==◌,
  ltb, leb, if◌then◌else◌, update, Bool-cases, Bool,
}
use native.Mathlib.Decide.{dec_lt}
use compiling_to_assembly.Log.{Block, read_blocks, write_blocks}

-- Copy `i` of the log of `n` blocks is `src i`, and goes to block `block i`.
unfoldable pub replay : ℕ → (ℕ → ℕ) → (ℕ → Block) → Block → ℕ → Block
replay zero block src base b = base
replay (suc n) block src base b = if block n == b then src n else replay n block src base b

-- `b` is among the first `n` blocks
unfoldable pub listed : ℕ → (ℕ → ℕ) → ℕ → Bool
listed zero block b = false
listed (suc n) block b = (block n == b) || listed n block b

-- Block `b` lies outside the `size` blocks of the log.
abbrev pub Home : ℕ → ℕ → ℕ → Type 0
Home start size b = (b < start) ⊎ (start + size ≤ b)

replay-not_listed :
    (n : ℕ) (block : ℕ → ℕ) (src : ℕ → Block) (base : Block) (b : ℕ)
    → listed n block b ≡ false
    → replay n block src base b ≡ base
unfolding replay listed
replay-not_listed zero block src base b h = refl
replay-not_listed (suc n) block src base b h = ground (arith, replay-not_listed n block src base b)

replay-listed :
    (n : ℕ) (block : ℕ → ℕ) (src : ℕ → Block) (base base' : Block) (b : ℕ)
    → listed n block b ≡ true
    → replay n block src base b ≡ replay n block src base' b
unfolding replay listed
replay-listed zero block src base base' b h = cc
replay-listed (suc n) block src base base' b h =
    ground (arith, replay-listed n block src base base' b)

listed_mono :
    (t n : ℕ) (block : ℕ → ℕ) (b : ℕ) → t ≤ n → listed t block b ≡ true → listed n block b ≡ true
unfolding listed
listed_mono t zero block b h l = let e : t ≡ 0 = omega arith in rw e at l
listed_mono t (suc n) block b h l = elim (dec_lt n t) [
  | yes lt ↦ (let e : t ≡ suc n = omega arith in rw e at l)
  | no ge ↦ ground (arith, listed_mono t n block b (omega arith) l)
]

-- Copying the first copies again, in front of all of them, changes nothing.
pub replay-replay :
    (t n : ℕ) (block : ℕ → ℕ) (src : ℕ → Block) (base : Block) (b : ℕ)
    → t ≤ n
    → replay n block src (replay t block src base b) b ≡ replay n block src base b
replay-replay t n block src base b h = elim (Bool-cases (listed t block b)) [
  | inl l ↦ replay-listed n block src _ _ b (listed_mono t n block b h l)
  | inr l ↦ rw (replay-not_listed t block src base b l)
]

pub replay-ext :
    (n : ℕ) (block block' : ℕ → ℕ) (src src' : ℕ → Block) (base : Block) (b : ℕ)
    → ((i : ℕ) → i < n → block i ≡ block' i)
    → ((i : ℕ) → i < n → src i ≡ src' i)
    → replay n block src base b ≡ replay n block' src' base b
unfolding replay
replay-ext zero block block' src src' base b h k = refl
replay-ext (suc n) block block' src src' base b h k = ground (
  arith,
  h n,
  k n,
  replay-ext n block block' src src' base b (λ i l. h i (omega arith)) (λ i l. k i (omega arith)),
)

-- Replaying the blocks of a view gives the view, where a block that is not listed has its base.
pub replay-view :
    (n : ℕ) (block : ℕ → ℕ) (look : ℕ → Block) (base : Block) (b : ℕ)
    → (listed n block b ≡ false → base ≡ look b)
    → replay n block (λ i. look (block i)) base b ≡ look b
unfolding replay listed
replay-view zero block look base b h = h refl
replay-view (suc n) block look base b h = elim (Bool-cases (block n == b)) [
  | inl e ↦ rw e (ground arith)
  | inr ne ↦ rw ne (replay-view n block look base b (λ l. h (ground arith)))
]

-- The header that `write_head` stores is the one that `read_head` reads.
pub write_blocks_lem :
    (block : ℕ → ℕ) (k i w : ℕ) (hb : Block)
    → write_blocks block k i hb w
      ≡ (if leb (i + 1) w && ltb w (i + 1 + k) then block (w - 1) else hb w)
unfolding write_blocks
write_blocks_lem block zero i w hb = ground arith
write_blocks_lem block (suc k) i w hb =
    ground (arith, write_blocks_lem block k (i + 1) w (update hb (i + 1) (block i)))

pub read_blocks_lem :
    (lh : Block) (k i j : ℕ) (block : ℕ → ℕ)
    → read_blocks lh k i block j ≡ (if leb i j && ltb j (i + k) then lh (j + 1) else block j)
unfolding read_blocks
read_blocks_lem lh zero i j block = ground arith
read_blocks_lem lh (suc k) i j block =
    ground (arith, read_blocks_lem lh k (i + 1) j (update block i (lh (i + 1))))

pub replay-add_one :
    (t : ℕ) (block : ℕ → ℕ) (src : ℕ → Block) (base : Block) (b : ℕ)
    → replay (t + 1) block src base b ≡ (if block t == b then src t else replay t block src base b)
unfolding replay
replay-add_one t block src base b = let e : t + 1 ≡ suc t = omega arith in rw e

pub listed-add_one :
    (t : ℕ) (block : ℕ → ℕ) (b : ℕ) → listed (t + 1) block b ≡ ((block t == b) || listed t block b)
unfolding listed
listed-add_one t block b = let e : t + 1 ≡ suc t = omega arith in rw e

-- `listed` finds each of the first `n` blocks.
pub listed-lt : (n i : ℕ) (block : ℕ → ℕ) → i < n → listed n block (block i) ≡ true
unfolding listed
listed-lt zero i block h = absurd (omega arith)
listed-lt (suc n) i block h = elim (dec_lt i n) [
  | yes l ↦ ground (arith, listed-lt n i block l)
  | no g ↦ (let e : n ≡ i = omega arith in rw e (ground arith))
]
