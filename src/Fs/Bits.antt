-- ===== src/Fs/Bits.antt =====
-- Single bits of a byte, and the bit of a block in the bitmap of fs.c.
use compiling_to_assembly.Prelude.{
  ℕ, zero, suc, ◌+◌, ◌*◌, ◌/◌, ◌%◌, ◌<◌, ◌≡◌, refl, ap, ◌∙◌, Bool, true, false, arith, ◌==◌,
  if◌then◌else◌, update, Bool-cases, inl, inr,
}
use compiling_to_assembly.Fs.{Super, Blocks, bpb, bblock, test_bit, set_bit, clear_bit}

suc_eq : (k j : ℕ) → (suc k == suc j) ≡ (k == j)
suc_eq k j = ground arith

pub test_bit-set_bit :
    (x k j : ℕ) → test_bit (set_bit x k) j ≡ (if k == j then true else test_bit x j)
unfolding test_bit set_bit
test_bit-set_bit x zero zero = ground arith
test_bit-set_bit x zero (suc j) =
    let e : (x / 2 * 2 + 1) / 2 ≡ x / 2 = omega arith in rw e (ground arith)
test_bit-set_bit x (suc k) zero =
    let e : (set_bit (x / 2) k * 2 + x % 2) % 2 ≡ x % 2 = omega arith in rw e (ground arith)
test_bit-set_bit x (suc k) (suc j) =
    let e : (set_bit (x / 2) k * 2 + x % 2) / 2 ≡ set_bit (x / 2) k = omega arith in
    rw (e, suc_eq k j) (test_bit-set_bit (x / 2) k j)

pub test_bit-clear_bit :
    (x k j : ℕ) → test_bit (clear_bit x k) j ≡ (if k == j then false else test_bit x j)
unfolding test_bit clear_bit
test_bit-clear_bit x zero zero = ground arith
test_bit-clear_bit x zero (suc j) =
    let e : x / 2 * 2 / 2 ≡ x / 2 = omega arith in rw e (ground arith)
test_bit-clear_bit x (suc k) zero =
    let e : (clear_bit (x / 2) k * 2 + x % 2) % 2 ≡ x % 2 = omega arith in rw e (ground arith)
test_bit-clear_bit x (suc k) (suc j) =
    let e : (clear_bit (x / 2) k * 2 + x % 2) / 2 ≡ clear_bit (x / 2) k = omega arith in
    rw (e, suc_eq k j) (test_bit-clear_bit (x / 2) k j)

-- The bit of block `b` in the bitmap.
unfoldable pub in_use : Super → Blocks → ℕ → Bool
in_use sb d b = test_bit (d (bblock sb b) (b % bpb / 8)) (b % bpb % 8)

-- the blocks with the bit of block `b` changed by a function on bytes
abbrev pub with_bit : (ℕ → ℕ → ℕ) → Super → ℕ → Blocks → Blocks
with_bit f sb b d =
    update d (bblock sb b)
      (update (d (bblock sb b)) (b % bpb / 8) (f (d (bblock sb b) (b % bpb / 8)) (b % bpb % 8)))

-- Two blocks with the same block, byte and bit are one.
same_bit :
    (b c : ℕ) → b / bpb ≡ c / bpb → b % bpb / 8 ≡ c % bpb / 8 → b % bpb % 8 ≡ c % bpb % 8 → b ≡ c
same_bit b c p q r = omega arith

pub in_use-with_bit :
    (f : ℕ → ℕ → ℕ) (v : Bool)
    → ((x k j : ℕ) → test_bit (f x k) j ≡ (if k == j then v else test_bit x j))
    → (sb : Super) (d : Blocks) (b c : ℕ)
    → in_use sb (with_bit f sb b d) c ≡ (if b == c then v else in_use sb d c)
unfolding in_use
in_use-with_bit f v h sb d b c = elim (Bool-cases (bblock sb b == bblock sb c)) [
  | inr n ↦ (let m : (b == c) ≡ false = ground arith in rw (in_use, n, m) refl)
  | inl e ↦ elim (Bool-cases (b % bpb / 8 == c % bpb / 8)) [
    | inr n ↦
        let m : (b == c) ≡ false = ground arith in
        let q : bblock sb b ≡ bblock sb c = ground arith in
        rw (in_use, e, n, m) (ap (λ (y : ℕ). test_bit (d y (c % bpb / 8)) (c % bpb % 8)) q)
    | inl g ↦
        let q : bblock sb b ≡ bblock sb c = ground arith in
        let r : b % bpb / 8 ≡ c % bpb / 8 = ground arith in
        let bit : (b == c) ≡ (b % bpb % 8 == c % bpb % 8) = ground (arith, same_bit b c) in
        rw (in_use, e, g)
          (h (d (bblock sb b) (b % bpb / 8)) (b % bpb % 8) (c % bpb % 8)
            ∙ rw (bit) (
                ap (λ (y : ℕ). if b % bpb % 8 == c % bpb % 8 then v else test_bit y (c % bpb % 8))
                  (ap (λ (y : ℕ). d y (b % bpb / 8)) q ∙ ap (λ (y : ℕ). d (bblock sb c) y) r)))
  ]
]

place : (b bi : ℕ) → b % bpb ≡ 0 → bi < bpb → ((b + bi) / bpb ≡ b / bpb) × ((b + bi) % bpb ≡ bi)
place b bi h l = omega arith

-- Bit `bi` of the block of the bitmap for the blocks from `b` on is that of block `b + bi`.
pub in_use_bit :
    (sb : Super) (d : Blocks) (b bi : ℕ)
    → b % bpb ≡ 0
    → bi < bpb
    → test_bit (d (bblock sb b) (bi / 8)) (bi % 8) ≡ in_use sb d (b + bi)
unfolding in_use
in_use_bit sb d b bi h l = rw ((place b bi h l).0, (place b bi h l).1) refl

pub with_bit_at :
    (f : ℕ → ℕ → ℕ) (sb : Super) (d : Blocks) (b bi : ℕ)
    → b % bpb ≡ 0
    → bi < bpb
    → update d
        (bblock sb b)
        (update (d (bblock sb b)) (bi / 8) (f (d (bblock sb b) (bi / 8)) (bi % 8)))
      ≡ with_bit f sb (b + bi) d
with_bit_at f sb d b bi h l = rw ((place b bi h l).0, (place b bi h l).1) refl

pub in_use-block :
    (sb : Super) (d d' : Blocks) (b : ℕ)
    → d' (bblock sb b) ≡ d (bblock sb b)
    → in_use sb d' b ≡ in_use sb d b
unfolding in_use
in_use-block sb d d' b h = rw h

pub in_use_test :
    (sb : Super) (d : Blocks) (b : ℕ)
    → test_bit (d (bblock sb b) (b % bpb / 8)) (b % bpb % 8) ≡ in_use sb d b
unfolding in_use
in_use_test sb d b = refl
