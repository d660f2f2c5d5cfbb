-- ===== src/StringOps/Strings.antt =====
-- NUL-terminated strings of projects/xv6/string.c: copies with padding or a forced terminator.
use compiling_to_assembly.Prelude.{
  ℕ, zero, suc, ◌+◌, ◌-◌, ◌≤◌, ◌<◌, ◌≡◌, ◌≢◌, refl, ◌⊎◌, inl, Bool, false, ◌||◌, ◌&&◌, ltb, some,
  arith, ◌==◌, if◌then◌else◌, update,
}
use native.Mathlib.Nat.{add_assoc, add-zero}
use compiling_to_assembly.StringOps.{
  Memory, pad, strncpy, safe_loop, safestrcpy, strlen_from, strlen,
}
use compiling_to_assembly.StringOps.Copy.{within}

-- One of the `k` bytes from `t` on is NUL.
unfoldable pub has_nul : Memory → ℕ → ℕ → Bool
has_nul m t zero = false
has_nul m t (suc k) = (m t == 0) || has_nul m (t + 1) k

has_nul-sub :
    (m : Memory) (t s a : ℕ)
    → s < a
    → has_nul m t (a - s) ≡ ((m t == 0) || has_nul m (t + 1) (a - (s + 1)))
unfolding has_nul
has_nul-sub m t s a h = let e : a - s ≡ suc (a - (s + 1)) = omega arith in rw e

has_nul-update :
    (m : Memory) (t k s v : ℕ) → (s < t) ⊎ (t + k ≤ s) → has_nul (update m s v) t k ≡ has_nul m t k
unfolding has_nul
has_nul-update m t zero s v h = refl
has_nul-update m t (suc k) s v h = ground (arith, has_nul-update m (t + 1) k s v)

pad_lem : (m : Memory) (s n a : ℕ) → pad m s n a ≡ (if within s n a then 0 else m a)
unfolding pad
pad_lem m s zero a = ground arith
pad_lem m s (suc n) a = ground (arith, pad_lem (update m s 0) (s + 1) n a)

-- `strncpy` into a region that does not overlap the source writes exactly `n` bytes: those of the
-- source up to its NUL, and NUL from there on.
pub strncpy_lem :
    (m : Memory) (s t n a : ℕ)
    → (s + n ≤ t) ⊎ (t + n ≤ s)
    → strncpy m s t n a
      ≡ (if within s n a then (if has_nul m t (a - s) then 0 else m (t + (a - s))) else m a)
unfolding strncpy has_nul
strncpy_lem m s t zero a h = ground arith
strncpy_lem m s t (suc n) a h = ground (
  arith,
  pad_lem (update m s (m t)) (s + 1) n a,
  strncpy_lem (update m s (m t)) (s + 1) (t + 1) n a,
  has_nul-sub m t s a,
  has_nul-update m (t + 1) (a - (s + 1)) s (m t),
)

-- What `safestrcpy` promises of its destination `s[0..n)`: with `k` bytes copied and a NUL behind
-- them. It stops short of `n - 1` bytes only at the source's NUL.
pub record IsSafeCopy (m m' : Memory) (s t n k : ℕ) : Type 0 where
  pub room : k < n
  pub copied : (i : ℕ) → i < k → m' (s + i) ≡ m (t + i)
  pub plain : (i : ℕ) → i < k → m (t + i) ≢ 0
  pub terminated : m' (s + k) ≡ 0
  pub whole : (k + 1 ≡ n) ⊎ (m (t + k) ≡ 0)
  pub frame : (a : ℕ) → (a < s) ⊎ (s + n ≤ a) → m' a ≡ m a

-- the bytes that the loop copies
unfoldable pub copied_len : Memory → ℕ → ℕ → ℕ
copied_len m t zero = 0
copied_len m t (suc n) = if m t == 0 then 0 else suc (copied_len m (t + 1) n)

copied_len-update :
    (m : Memory) (t n s v : ℕ)
    → (s < t) ⊎ (t + n ≤ s)
    → copied_len (update m s v) t n ≡ copied_len m t n
unfolding copied_len
copied_len-update m t zero s v h = refl
copied_len-update m t (suc n) s v h = ground (arith, copied_len-update m (t + 1) n s v)

copied_len-le : (m : Memory) (t n : ℕ) → copied_len m t n ≤ n
unfolding copied_len
copied_len-le m t zero = omega arith
copied_len-le m t (suc n) = ground (arith, copied_len-le m (t + 1) n)

module _ (m : Memory) where
  copied_len-plain : (t n i : ℕ) → i < copied_len m t n → m (t + i) ≢ 0
  unfolding copied_len
  copied_len-plain t zero i h = absurd (omega arith)
  copied_len-plain t (suc n) zero h = ground arith
  copied_len-plain t (suc n) (suc i) h =
      let e : t + suc i ≡ t + 1 + i = omega arith in
      rw e (copied_len-plain (t + 1) n i (ground arith))

  copied_len-whole : (t n : ℕ) → (copied_len m t n ≡ n) ⊎ (m (t + copied_len m t n) ≡ 0)
  unfolding copied_len
  copied_len-whole t zero = inl refl
  copied_len-whole t (suc n) =
      ground (arith, copied_len-whole (t + 1) n, add_assoc t 1 (copied_len m (t + 1) n))

safe_loop_lem :
    (m : Memory) (s t n a : ℕ)
    → (s + n < t) ⊎ (t + n ≤ s)
    → safe_loop m s t n a ≡ (
        if within s (copied_len m t n) a
        then m (t + (a - s))
        else if (a == s + copied_len m t n)
            || ((a == s + copied_len m t n + 1) && ltb (copied_len m t n) n)
        then 0
        else m a)
unfolding safe_loop copied_len
safe_loop_lem m s t zero a h = ground arith
safe_loop_lem m s t (suc n) a h = ground (
  arith,
  safe_loop_lem (update m s (m t)) (s + 1) (t + 1) n a,
  copied_len-update m (t + 1) n s (m t),
  copied_len-le m (t + 1) n,
)

-- `safestrcpy` with a positive size always leaves a terminated string: the longest prefix of the
-- source that has no NUL and leaves room for one. It writes nothing outside its destination, which
-- must not overlap the source.
pub safestrcpy-IsSafeCopy :
    (m : Memory) (s t n : ℕ)
    → (s + suc n ≤ t) ⊎ (t + suc n ≤ s)
    → IsSafeCopy m (safestrcpy m s t (suc n)) s t (suc n) (copied_len m t n)
unfolding safestrcpy
safestrcpy-IsSafeCopy m s t n h = record {
  room = omega (arith, copied_len-le m t n);
  copied = λ i p. ground (arith, safe_loop_lem m s t n (s + i));
  plain = λ i p. copied_len-plain m t n i p;
  terminated = ground (arith, safe_loop_lem m s t n (s + copied_len m t n));
  whole = ground (arith, copied_len-whole m t n);
  frame = λ a p. ground (arith, safe_loop_lem m s t n a, copied_len-le m t n);
}

strlen_from_lem :
    (fuel : ℕ) (m : Memory) (s n k : ℕ)
    → k < fuel
    → has_nul m (s + n) k ≡ false
    → m (s + (n + k)) ≡ 0
    → strlen_from fuel m s n ≡ some (n + k)
unfolding strlen_from has_nul
strlen_from_lem zero m s n k f h z = absurd (omega arith)
strlen_from_lem (suc fuel) m s n zero f h z = ground (arith, add-zero n)
strlen_from_lem (suc fuel) m s n (suc k) f h z =
    let e : n + suc k ≡ n + 1 + k = omega arith in
    rw e (
      ground (
        arith,
        add_assoc s n 1,
        strlen_from_lem fuel m s (n + 1) k (omega arith) (ground (arith, add_assoc s n 1))
            (ground arith),
      ))

-- `strlen` is the index of the first NUL, given fuel for the bytes up to it.
pub strlen_lem :
    (fuel : ℕ) (m : Memory) (s k : ℕ)
    → k < fuel
    → has_nul m s k ≡ false
    → m (s + k) ≡ 0
    → strlen fuel m s ≡ some k
unfolding strlen
strlen_lem fuel m s k f h z =
    ground (arith, strlen_from_lem fuel m s 0 k f (ground arith) (ground arith))
