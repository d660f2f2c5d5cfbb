-- ===== src/StringOps.antt =====
-- projects/xv6/string.c: block and string operations of the kernel, over a byte-addressed memory.
pub mod Copy
pub mod Compare
pub mod Strings
mod Tests
use compiling_to_assembly.Prelude.{
  ℕ, zero, suc, ◌+◌, ◌-◌, ◌*◌, ◌/◌, ◌%◌, ◌^◌, ℤ, pos, sub_ℕ, true, false, ◌&&◌, not, Option, none,
  some, ◌==◌, ltb, if◌then◌else◌, update,
}

-- A memory holds a byte at each address; `struct` layout and page protection play no part here.
abbrev pub Memory : Type 0
Memory = ℕ → ℕ

-- `stosb`: `n` stores of the low byte of `c` upwards from `dst`.
pub stosb : Memory → ℕ → ℕ → ℕ → Memory
stosb m dst c zero = m
stosb m dst c (suc n) = stosb (update m dst (c % 256)) (dst + 1) c n

-- One little-endian 32-bit store.
unfoldable pub store_word : Memory → ℕ → ℕ → Memory
store_word m a w =
    update
      (update (update (update m a (w % 256)) (a + 1) (w / 2 ^ 8 % 256)) (a + 2) (w / 2 ^ 16 % 256))
      (a + 3) (w / 2 ^ 24 % 256)

-- `stosl`: `n` stores of a 32-bit word.
pub stosl : Memory → ℕ → ℕ → ℕ → Memory
stosl m dst w zero = m
stosl m dst w (suc n) = stosl (store_word m dst w) (dst + 4) w n

-- `(c<<24)|(c<<16)|(c<<8)|c` of a byte: the four shifts have no bit in common.
pub splat : ℕ → ℕ
splat c = c * 2 ^ 24 + c * 2 ^ 16 + c * 2 ^ 8 + c

-- `memset`: by words where address and length are multiples of four, by bytes elsewhere.
pub memset : Memory → ℕ → ℕ → ℕ → Memory
memset m dst c n =
    if (dst % 4 == 0) && (n % 4 == 0)
    then stosl m dst (splat (c % 256)) (n / 4)
    else stosb m dst c n

-- The backward loop of `memmove`: `d` and `s` point behind the bytes still to copy.
pub copy_down : Memory → ℕ → ℕ → ℕ → Memory
copy_down m d s zero = m
copy_down m d s (suc n) = copy_down (update m (d - 1) (m (s - 1))) (d - 1) (s - 1) n

-- The forward loop of `memmove`.
pub copy_up : Memory → ℕ → ℕ → ℕ → Memory
copy_up m d s zero = m
copy_up m d s (suc n) = copy_up (update m d (m s)) (d + 1) (s + 1) n

-- `memmove`: backwards where the source begins below the destination and overlaps it.
pub memmove : Memory → ℕ → ℕ → ℕ → Memory
memmove m dst src n =
    if ltb src dst && ltb dst (src + n)
    then copy_down m (dst + n) (src + n) n
    else copy_up m dst src n

-- The difference of two bytes, as an `int`.
abbrev pub byte_diff : ℕ → ℕ → ℤ
byte_diff = sub_ℕ

-- `memcmp`: the difference of the first two bytes that differ.
pub memcmp : Memory → ℕ → ℕ → ℕ → ℤ
memcmp m s1 s2 zero = pos 0
memcmp m s1 s2 (suc n) = elim (not (m s1 == m s2)) [
  | true ↦ byte_diff (m s1) (m s2)
  | false ↦ memcmp m (s1 + 1) (s2 + 1) n
]

-- `strncmp`: the loop goes on while bytes remain and agree and are not NUL.
unfoldable pub strncmp : Memory → ℕ → ℕ → ℕ → ℤ
strncmp m p q zero = pos 0
strncmp m p q (suc n) = elim (not (m p == 0) && (m p == m q)) [
  | true ↦ strncmp m (p + 1) (q + 1) n
  | false ↦ byte_diff (m p) (m q)
]

-- The second loop of `strncpy`: NUL bytes up to the length.
pub pad : Memory → ℕ → ℕ → Memory
pad m s zero = m
pad m s (suc n) = pad (update m s 0) (s + 1) n

-- `strncpy`; a count that is not positive copies nothing, as 0 does.
pub strncpy : Memory → ℕ → ℕ → ℕ → Memory
unfolding pad
strncpy m s t zero = m
strncpy m s t (suc n) =
    let m' = update m s (m t) in
    elim (m t == 0) [ true ↦ pad m' (s + 1) n | false ↦ strncpy m' (s + 1) (t + 1) n ]

-- The loop of `safestrcpy` with the rounds that `--n > 0` lets through, and its last store.
pub safe_loop : Memory → ℕ → ℕ → ℕ → Memory
safe_loop m s t zero = update m s 0
safe_loop m s t (suc n) =
    let m' = update m s (m t) in
    elim (m t == 0) [ true ↦ update m' (s + 1) 0 | false ↦ safe_loop m' (s + 1) (t + 1) n ]

-- `safestrcpy`
pub safestrcpy : Memory → ℕ → ℕ → ℕ → Memory
unfolding safe_loop
safestrcpy m s t zero = m
safestrcpy m s t (suc n) = safe_loop m s t n

-- `strlen` from index `n` on, with fuel for the bytes that it may look at.
pub strlen_from : ℕ → Memory → ℕ → ℕ → Option ℕ
strlen_from zero m s n = none
strlen_from (suc fuel) m s n = elim (m (s + n) == 0) [
  | true ↦ some n
  | false ↦ strlen_from fuel m s (n + 1)
]

pub strlen : ℕ → Memory → ℕ → Option ℕ
unfolding strlen_from
strlen fuel m s = strlen_from fuel m s 0
