-- ===== src/Fs/Blocks.antt =====
-- The block allocator of fs.c against the set of blocks in use.
use mathlib.Core.Path.{subst}
use compiling_to_assembly.Prelude.{
  ℕ, zero, suc, ◌+◌, ◌*◌, ◌/◌, ◌%◌, ◌≤◌, ◌<◌, ◌≡◌, ◌≢◌, refl, sym, ◌∙◌, ◌⊎◌, true, false, Option,
  none, some, arith, ◌==◌, ltb, update, if◌then◌else◌, ltb→lt, ltb→ge, Bool-cases, Option-cases,
  inl, inr,
}
use compiling_to_assembly.StringOps.{Memory, memset}
use compiling_to_assembly.StringOps.Copy.{memset_lem}
use compiling_to_assembly.Fs.{
  Super, Blocks, Attempt, returns, panics, bsize, bpb, bblock, set_bit, clear_bit, bzero, find_bit,
  and_then, Run, log_write, take_block, balloc_loop, balloc, bfree,
}
use compiling_to_assembly.Fs.Bits.{
  in_use, in_use_test, in_use-block, in_use_bit, with_bit_at, with_bit, in_use-with_bit,
  test_bit-set_bit, test_bit-clear_bit,
}

-- The first block behind the bitmap.
abbrev pub data_start : Super → ℕ
data_start sb = sb.bmapstart + sb.size / bpb + 1

-- Everything in front of the data is marked as used.
abbrev pub Reserved : Super → Blocks → Type 0
Reserved sb d = (y : ℕ) → y < data_start sb → in_use sb d y ≡ true

-- What `balloc` gives: the first free block, zeroed and marked, or a panic where there is none. No
-- other block changes but in the bitmap.
pub record Taken (sb : Super) (d : Blocks) (x : ℕ) (d' : Blocks) : Type 0 where
  pub bound : x < sb.size
  pub free : in_use sb d x ≡ false
  pub data_block : data_start sb ≤ x
  pub before : (y : ℕ) → y < x → in_use sb d y ≡ true
  pub marks : (y : ℕ) → y < sb.size → in_use sb d' y ≡ (if x == y then true else in_use sb d y)
  pub zeroed : (a : ℕ) → a < bsize → d' x a ≡ 0
  pub others : (b : ℕ) → b ≢ x → (b < sb.bmapstart) ⊎ (data_start sb ≤ b) → d' b ≡ d b

abbrev pub Full : Super → Blocks → Type 0
Full sb d = (y : ℕ) → y < sb.size → in_use sb d y ≡ true

-- The disk is full, or `log_write` of some block panics.
abbrev pub Halted : Super → Blocks → Type 0
Halted sb d = Full sb d ⊎ ((b : ℕ) × (sb.log_panics b d ≡ true))

-- `log_write` of some block panics.
abbrev pub LogPanics : Super → Blocks → Type 0
LogPanics sb d = (b : ℕ) × (sb.log_panics b d ≡ true)

-- What holds of a run behind `log_write`, and of its panic.
pub log_then :
    {A : Type 0} (P : Attempt A → Type 0) (sb : Super) (b : ℕ) (m : Memory) (d : Blocks)
    (f : Unit {0} → Run A)
    → (LogPanics sb d → P (panics d))
    → P (f tt (update d b m))
    → P (and_then (log_write sb b m d) f)
unfolding log_write
log_then P sb b m d f h p = elim (Bool-cases (sb.log_panics b d)) [
  | inl e ↦ rw (log_write, e) (h (b, e))
  | inr e ↦ rw (log_write, e) p
]

pub data Allocates (sb : Super) (d : Blocks) : Attempt ℕ → Type 0 where
  takes : (x : ℕ) (d' : Blocks) → Taken sb d x d' → Allocates sb d (returns x d')
  full : Full sb d → Allocates sb d (panics d)
  refused : (d' : Blocks) → LogPanics sb d' → Allocates sb d (panics d')

-- What the scan of one block of the bitmap finds.
FoundBit : Super → Blocks → ℕ → ℕ → ℕ → Option ℕ → Type 0
FoundBit sb d b k bi none =
    (y : ℕ) → b + bi ≤ y → y < b + bi + k → y < sb.size → in_use sb d y ≡ true
FoundBit sb d b k bi (some x) =
    (bi ≤ x)
    × (x < bi + k)
    × (b + x < sb.size)
    × (in_use sb d (b + x) ≡ false)
    × ((y : ℕ) → b + bi ≤ y → y < b + x → in_use sb d y ≡ true)

behind :
    (sb : Super) (d : Blocks) (b y : ℕ)
    → in_use sb d b ≡ true
    → b ≤ y
    → (b < y → in_use sb d y ≡ true)
    → in_use sb d y ≡ true
behind sb d b y used p h = elim (Bool-cases (b == y)) [
  | inl e ↦ subst (λ m. in_use sb d m ≡ true) (ground arith) used
  | inr n ↦ h (ground arith)
]

later :
    (sb : Super) (d : Blocks) (b k bi : ℕ) (o : Option ℕ)
    → in_use sb d (b + bi) ≡ true
    → FoundBit sb d b k (bi + 1) o
    → FoundBit sb d b (suc k) bi o
unfolding FoundBit
later sb d b k bi none used f =
    λ y p q r. behind sb d (b + bi) y used p (λ p'. f y (omega arith) (omega arith) r)
later sb d b k bi (some x) used f = (
  omega arith,
  omega arith,
  f.2,
  f.3,
  λ y p q. behind sb d (b + bi) y used p (λ p'. f.4 y (omega arith) q),
)

find_bit_lem :
    (sb : Super) (d : Blocks) (b k bi : ℕ)
    → b % bpb ≡ 0
    → bi + k ≤ bpb
    → FoundBit sb d b k bi (find_bit sb (d (bblock sb b)) b k bi)
unfolding find_bit FoundBit
find_bit_lem sb d b zero bi al l = λ y p q r. absurd (omega arith)
find_bit_lem sb d b (suc k) bi al l =
    let same = in_use_bit sb d b bi al (omega arith) in
    elim (Bool-cases (ltb (b + bi) (sb.size))) [
      | inr n ↦ rw (find_bit, n) (λ y p q r. absurd (ground arith))
      | inl e ↦ elim (Bool-cases (in_use sb d (b + bi))) [
        | inr free ↦
            rw (find_bit, e, same, free)
              (omega arith, omega arith, ground arith, free, λ y p q. absurd (omega arith))
        | inl used ↦
            rw (find_bit, e, same, used)
              (later sb d b k bi (find_bit sb (d (bblock sb b)) b k (bi + 1)) used
                (find_bit_lem sb d b k (bi + 1) al (omega arith)))
      ]
    ]

-- the blocks with one zeroed
abbrev blank : ℕ → Blocks → Blocks
blank x d = update d x (memset (d x) 0 0 bsize)

bzero_lem :
    (x : ℕ) (d : Blocks)
    → ((b : ℕ) → b ≢ x → blank x d b ≡ d b) × ((a : ℕ) → a < bsize → blank x d x a ≡ 0)
bzero_lem x d = (λ b n. ground arith, λ a l. ground (arith, memset_lem (d x) 0 0 bsize a))

-- Marking a free block of the data.
data_block_lem :
    (sb : Super) (d : Blocks) (x : ℕ) → Reserved sb d → in_use sb d x ≡ false → data_start sb ≤ x
data_block_lem sb d x r f = elim (Bool-cases (ltb x (data_start sb))) [
  | inr n ↦ ground arith
  | inl e ↦ absurd (let u = r x (ground arith) in cc)
]

zeroed-Taken :
    (sb : Super) (d : Blocks) (x : ℕ)
    → Reserved sb d
    → x < sb.size
    → in_use sb d x ≡ false
    → ((y : ℕ) → y < x → in_use sb d y ≡ true)
    → Taken sb d x (blank x (with_bit set_bit sb x d))
zeroed-Taken sb d x r u f h =
    let low : data_start sb ≤ x = data_block_lem sb d x r f in
    let z = bzero_lem x (with_bit set_bit sb x d) in
    record {
      bound = u;
      free = f;
      data_block = low;
      before = h;
      marks = λ y l.
          in_use-block sb (with_bit set_bit sb x d) (blank x (with_bit set_bit sb x d)) y
            (z.0 (bblock sb y) (omega arith))
          ∙ in_use-with_bit set_bit true test_bit-set_bit sb d x y;
      zeroed = z.1;
      others = λ b n o. z.0 b n ∙ ground arith;
    }

take_block-Allocates :
    (sb : Super) (d : Blocks) (b bi : ℕ)
    → Reserved sb d
    → b % bpb ≡ 0
    → bi < bpb
    → b + bi < sb.size
    → in_use sb d (b + bi) ≡ false
    → ((y : ℕ) → y < b + bi → in_use sb d y ≡ true)
    → Allocates sb d (take_block sb b bi d)
unfolding take_block bzero
take_block-Allocates sb d b bi r al l u f h =
    let bytes = d (bblock sb b) in
    let m = update bytes (bi / 8) (set_bit (bytes (bi / 8)) (bi % 8)) in
    let d1 = update d (bblock sb b) m in
    log_then (Allocates sb d) sb (bblock sb b) m d _ (refused d) (
      log_then (Allocates sb d) sb (b + bi) (memset (d1 (b + bi)) 0 0 bsize) d1 _ (refused d1) (
        takes (b + bi) (blank (b + bi) d1) (
          subst (λ m. Taken sb d (b + bi) (blank (b + bi) m))
            (sym (with_bit_at set_bit sb d b bi al l)) (zeroed-Taken sb d (b + bi) r u f h))))

balloc_loop-Allocates :
    (sb : Super) (d : Blocks) (k b : ℕ)
    → Reserved sb d
    → b % bpb ≡ 0
    → sb.size ≤ b + k * bpb
    → ((y : ℕ) → y < b → y < sb.size → in_use sb d y ≡ true)
    → Allocates sb d (balloc_loop sb k b d)
unfolding balloc_loop FoundBit
balloc_loop-Allocates sb d zero b r al l h = full (λ y u. h y (omega arith) u)
balloc_loop-Allocates sb d (suc k) b r al l h = elim (Bool-cases (ltb b (sb.size))) [
  | inr n ↦ rw (balloc_loop, n) (full (λ y u. h y (ground arith) u))
  | inl e ↦
      let f = find_bit_lem sb d b bpb 0 al (omega arith) in
      elim (Option-cases (find_bit sb (d (bblock sb b)) b bpb 0)) [
        | inl q ↦
            rw (balloc_loop, e, q)
              (balloc_loop-Allocates sb d k (b + bpb) r (omega arith) (omega arith) (λ y p u.
                elim (Bool-cases (ltb y b)) [
                  | inl w ↦ h y (ltb→lt y b w) u
                  | inr w ↦
                      subst (FoundBit sb d b bpb 0) q f y (omega (arith, ltb→ge y b w))
                        (omega arith) u
                ]))
        | inr (x, q) ↦
            rw (balloc_loop, e, q)
              (let g = subst (FoundBit sb d b bpb 0) q f in
                take_block-Allocates sb d b x r al (omega arith) (g.2) (g.3) (λ y p.
                  elim (Bool-cases (ltb y b)) [
                    | inl w ↦ h y (ltb→lt y b w) (omega arith)
                    | inr w ↦ g.4 y (omega (arith, ltb→ge y b w)) p
                  ]))
      ]
]

-- Where everything in front of the data is marked as used, `balloc` takes the first free block,
-- zeroes it, and marks it and no other, and changes no other block outside the bitmap; it panics
-- only where every block is in use, or where a `log_write` panics; `bread` is taken to find a
-- buffer.
pub balloc-Allocates : (sb : Super) (d : Blocks) → Reserved sb d → Allocates sb d (balloc sb d)
unfolding balloc
balloc-Allocates sb d r =
    balloc_loop-Allocates sb d (sb.size / bpb + 1) 0 r refl (omega arith)
      (λ y p. absurd (omega arith))

-- `bfree` of a block in use clears its mark and changes no other mark and no block outside the bitmap,
-- unless `log_write` panics; of a free block it panics.
pub bfree_lem :
    (sb : Super) (d : Blocks) (x : ℕ)
    → (in_use sb d x ≡ true
        → sb.log_panics (bblock sb x) d ≡ false
        → (d' : Blocks) × (bfree sb x d ≡ returns tt d')
          × ((y : ℕ) → in_use sb d' y ≡ (if x == y then false else in_use sb d y))
          × ((b : ℕ) → b ≢ bblock sb x → d' b ≡ d b))
      × (in_use sb d x ≡ false → bfree sb x d ≡ panics d)
unfolding bfree log_write
bfree_lem sb d x =
    let same = in_use_test sb d x in
    (
      λ u o. (
        with_bit clear_bit sb x d,
        rw (bfree, same, u, log_write, o) refl,
        in_use-with_bit clear_bit false test_bit-clear_bit sb d x,
        λ b n. ground arith,
      ),
      λ u. rw (bfree, same, u) refl,
    )
