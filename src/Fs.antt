-- ===== src/Fs.antt =====
-- projects/xv6/fs.c, the block layer: the superblock and the bitmap of free blocks. `Blocks` is what the
-- file system sees of the disk through the log: `log_write` of a block makes its new contents seen
-- (Log.Write). Block numbers stay below 2 ^ 31, so that sums of them do not wrap.
pub mod Bits
pub mod Blocks
use compiling_to_assembly.Prelude.{
  ℕ, zero, suc, ◌+◌, ◌-◌, ◌*◌, ◌/◌, ◌%◌, Bool, true, false, Option, none, some, ◌==◌, ltb,
  if◌then◌else◌, update,
}
use compiling_to_assembly.StringOps.{Memory, memset}
use compiling_to_assembly.Kalloc.{load_word}

abbrev pub bsize : ℕ
bsize = 512

-- bits in a block of the bitmap
abbrev pub bpb : ℕ
bpb = 4096

-- A block number to the bytes of the block.
abbrev pub Blocks : Type 0
Blocks = ℕ → Memory

-- `struct superblock`; and `log_panics`, which says whether `log_write` of a block panics in a state, as
-- it does outside a transaction or with a full log. That depends on what other calls have logged, so
-- it is any function here.
pub record Super : Type 0 where
  pub size : ℕ
  pub nblocks : ℕ
  pub ninodes : ℕ
  pub nlog : ℕ
  pub logstart : ℕ
  pub inodestart : ℕ
  pub bmapstart : ℕ
  pub log_panics : ℕ → Blocks → Bool

-- `readsb`: the words of block 1.
pub readsb : (ℕ → Blocks → Bool) → Blocks → Super
readsb log_panics d = record {
  size = load_word (d 1) 0;
  nblocks = load_word (d 1) 4;
  ninodes = load_word (d 1) 8;
  nlog = load_word (d 1) 12;
  logstart = load_word (d 1) 16;
  inodestart = load_word (d 1) 20;
  bmapstart = load_word (d 1) 24;
  log_panics = log_panics;
}

-- How a call ends: with a value and the blocks, or in a panic with the blocks it left.
pub data Attempt (A : Type 0) : Type 0 where
  returns : A → Blocks → Attempt A
  panics : Blocks → Attempt A

-- A sequence of calls ends with the first panic.
abbrev pub Run : Type 0 → Type 0
Run A = Blocks → Attempt A

abbrev pub and_then : {A B : Type 0} → Attempt A → (A → Run B) → Attempt B
and_then (returns a d) f = f a d
and_then (panics d) f = panics d

infixl 5 ◌>>=◌ ◌>>◌
abbrev pub ◌>>=◌ : {A B : Type 0} → Run A → (A → Run B) → Run B
◌>>=◌ m f d = and_then (m d) f

abbrev pub ◌>>◌ : {B : Type 0} → Run (Unit {0}) → Run B → Run B
m >> k = m >>= λ _. k

-- `log_write` of a block with new contents
unfoldable pub log_write : Super → ℕ → Memory → Run (Unit {0})
log_write sb b m d = elim (sb.log_panics b d) [
  | true ↦ panics d
  | false ↦ returns tt (update d b m)
]

-- `x & (1 << k)`, `x | (1 << k)` and `x & ~(1 << k)`, by the binary digits of `x`
unfoldable pub test_bit : ℕ → ℕ → Bool
test_bit x zero = x % 2 == 1
test_bit x (suc k) = test_bit (x / 2) k

pub set_bit : ℕ → ℕ → ℕ
set_bit x zero = x / 2 * 2 + 1
set_bit x (suc k) = set_bit (x / 2) k * 2 + x % 2

pub clear_bit : ℕ → ℕ → ℕ
clear_bit x zero = x / 2 * 2
clear_bit x (suc k) = clear_bit (x / 2) k * 2 + x % 2

-- `BBLOCK`
abbrev pub bblock : Super → ℕ → ℕ
bblock sb b = b / bpb + sb.bmapstart

-- `bzero`
pub bzero : Super → ℕ → Run (Unit {0})
bzero sb bno d = log_write sb bno (memset (d bno) 0 0 bsize) d

-- The inner loop of `balloc` over the bits of one block of the bitmap, with the rounds left.
pub find_bit : Super → Memory → ℕ → ℕ → ℕ → Option ℕ
unfolding test_bit
find_bit sb bytes b zero bi = none
find_bit sb bytes b (suc k) bi = elim (ltb (b + bi) (sb.size)) [
  | false ↦ none
  | true ↦ elim (test_bit (bytes (bi / 8)) (bi % 8)) [
    | false ↦ some bi
    | true ↦ find_bit sb bytes b k (bi + 1)
  ]
]

-- `balloc` once bit `bi` of the bitmap from block `b` on is found to be clear
pub take_block : Super → ℕ → ℕ → Run ℕ
unfolding set_bit bzero
take_block sb b bi d =
    let bytes = d (bblock sb b) in
    and_then
      (log_write sb (bblock sb b) (update bytes (bi / 8) (set_bit (bytes (bi / 8)) (bi % 8))) d)
      (λ u d'. and_then (bzero sb (b + bi) d') (λ u e. returns (b + bi) e))

-- The outer loop of `balloc`, with the rounds left.
pub balloc_loop : Super → ℕ → ℕ → Blocks → Attempt ℕ
unfolding find_bit take_block
balloc_loop sb zero b d = panics d
balloc_loop sb (suc k) b d = elim (ltb b (sb.size)) [
  | false ↦ panics d
  | true ↦ elim (find_bit sb (d (bblock sb b)) b bpb 0) [
    | none ↦ balloc_loop sb k (b + bpb) d
    | some bi ↦ take_block sb b bi d
  ]
]

-- `balloc`: a round for each block of the bitmap.
unfoldable pub balloc : Super → Blocks → Attempt ℕ
unfolding balloc_loop
balloc sb d = balloc_loop sb (sb.size / bpb + 1) 0 d

-- `bfree`
unfoldable pub bfree : Super → ℕ → Blocks → Attempt (Unit {0})
unfolding test_bit clear_bit
bfree sb b d =
    let bytes = d (bblock sb b) in
    let bi = b % bpb in
    if test_bit (bytes (bi / 8)) (bi % 8)
    then log_write sb (bblock sb b) (update bytes (bi / 8) (clear_bit (bytes (bi / 8)) (bi % 8))) d
    else panics d
