-- ===== src/StringOps/Copy.antt =====
-- What the copying routines of projects/xv6/string.c leave in memory, address by address.
use compiling_to_assembly.Prelude.{
  ℕ, zero, suc, ◌+◌, ◌-◌, ◌*◌, ◌/◌, ◌%◌, ◌^◌, ◌≤◌, ◌<◌, ◌≡◌, ◌⊎◌, Bool, ◌&&◌, arith, ltb, leb,
  if◌then◌else◌, update,
}
use compiling_to_assembly.StringOps.{
  Memory, stosb, store_word, stosl, splat, memset, copy_down, copy_up, memmove,
}

-- `a` is one of the `n` addresses from `base` on
abbrev pub within : ℕ → ℕ → ℕ → Bool
within base n a = leb base a && ltb a (base + n)

-- Forward copying is right where the destination begins at or below the source, or behind it.
copy_up_lem :
    (m : Memory) (d s n a : ℕ)
    → (d ≤ s) ⊎ (s + n ≤ d)
    → copy_up m d s n a ≡ (if within d n a then m (s + (a - d)) else m a)
unfolding copy_up
copy_up_lem m d s zero a h = ground arith
copy_up_lem m d s (suc n) a h = ground (arith, copy_up_lem (update m d (m s)) (d + 1) (s + 1) n a)

-- Backward copying is right where the source begins below the destination.
copy_down_lem :
    (m : Memory) (d s n a : ℕ)
    → s < d
    → copy_down m (d + n) (s + n) n a ≡ (if within d n a then m (s + (a - d)) else m a)
unfolding copy_down
copy_down_lem m d s zero a h = ground arith
copy_down_lem m d s (suc n) a h =
    let ed : d + suc n - 1 ≡ d + n = omega arith in
    let es : s + suc n - 1 ≡ s + n = omega arith in
    rw (ed, es) (ground (arith, copy_down_lem (update m (d + n) (m (s + n))) d s n a))

-- `memmove` moves `n` bytes as they were before the call, however the two regions overlap, and
-- changes no other address.
pub memmove_lem :
    (m : Memory) (dst src n a : ℕ)
    → memmove m dst src n a ≡ (if within dst n a then m (src + (a - dst)) else m a)
unfolding memmove
memmove_lem m dst src n a = ground (arith, copy_up_lem m dst src n a, copy_down_lem m dst src n a)

stosb_lem :
    (m : Memory) (dst c n a : ℕ) → stosb m dst c n a ≡ (if within dst n a then c % 256 else m a)
unfolding stosb
stosb_lem m dst c zero a = ground arith
stosb_lem m dst c (suc n) a = ground (arith, stosb_lem (update m dst (c % 256)) (dst + 1) c n a)

-- The four bytes of a splatted byte are that byte.
splat_bytes :
    (c : ℕ)
    → c < 256
    → (splat c % 256 ≡ c)
      × (splat c / 2 ^ 8 % 256 ≡ c)
      × (splat c / 2 ^ 16 % 256 ≡ c)
      × (splat c / 2 ^ 24 % 256 ≡ c)
unfolding splat
splat_bytes c h = omega arith

store_word-splat :
    (m : Memory) (d c a : ℕ)
    → c < 256
    → store_word m d (splat c) a ≡ (if within d 4 a then c else m a)
unfolding store_word
store_word-splat m d c a h = ground (arith, splat_bytes c h)

stosl_lem :
    (m : Memory) (dst c n a : ℕ)
    → c < 256
    → stosl m dst (splat c) n a ≡ (if within dst (4 * n) a then c else m a)
unfolding stosl
stosl_lem m dst c zero a h = ground arith
stosl_lem m dst c (suc n) a h =
    ground
      (arith, stosl_lem (store_word m dst (splat c)) (dst + 4) c n a, store_word-splat m dst c a)

-- `memset` stores the low byte of its argument at exactly the `n` addresses from `dst` on, by
-- whichever of its two loops.
pub memset_lem :
    (m : Memory) (dst c n a : ℕ) → memset m dst c n a ≡ (if within dst n a then c % 256 else m a)
unfolding memset
memset_lem m dst c n a = ground (arith, stosl_lem m dst (c % 256) (n / 4) a, stosb_lem m dst c n a)
