-- ===== src/StringOps/Compare.antt =====
-- The comparisons of projects/xv6/string.c against the equality that they decide.
use compiling_to_assembly.Prelude.{
  ℕ, zero, suc, ◌+◌, ◌<◌, ◌≡◌, ◌≢◌, ◌↔◌, refl, false, arith, ◌==◌, pos, Bool-cases, inl, inr,
}
use compiling_to_assembly.StringOps.{Memory, memcmp, strncmp}
use compiling_to_assembly.StringOps.Strings.{has_nul}

-- The two regions hold the same `n` bytes.
abbrev pub SameBytes : Memory → ℕ → ℕ → ℕ → Type 0
SameBytes m p q n = (i : ℕ) → i < n → m (p + i) ≡ m (q + i)

-- Two strings agree up to `n` bytes, or up to and with the NUL of the first.
abbrev pub SameString : Memory → ℕ → ℕ → ℕ → Type 0
SameString m p q n = (i : ℕ) → i < n → has_nul m p i ≡ false → m (p + i) ≡ m (q + i)

module _ (m : Memory) where
  SameBytes-suc : (p q n : ℕ) → m p ≡ m q → SameBytes m (p + 1) (q + 1) n → SameBytes m p q (suc n)
  SameBytes-suc p q n e h zero l = ground arith
  SameBytes-suc p q n e h (suc i) l = ground (arith, h i)

  memcmp-SameBytes : (p q n : ℕ) → memcmp m p q n ≡ pos 0 → SameBytes m p q n
  unfolding memcmp
  memcmp-SameBytes p q zero h = λ i l. absurd (omega arith)
  memcmp-SameBytes p q (suc n) h =
      SameBytes-suc p q n (ground arith) (memcmp-SameBytes (p + 1) (q + 1) n (ground arith))

  SameBytes-memcmp : (p q n : ℕ) → SameBytes m p q n → memcmp m p q n ≡ pos 0
  unfolding memcmp
  SameBytes-memcmp p q zero h = refl
  SameBytes-memcmp p q (suc n) h =
      ground (arith, h 0, SameBytes-memcmp (p + 1) (q + 1) n (λ i l. ground (arith, h (suc i))))

  -- `memcmp` returns 0 exactly when the two regions hold the same bytes.
  pub memcmp_iff : (p q n : ℕ) → (memcmp m p q n ≡ pos 0) ↔ SameBytes m p q n
  memcmp_iff p q n = (memcmp-SameBytes p q n, SameBytes-memcmp p q n)

  SameString-suc :
      (p q n : ℕ)
      → m p ≡ m q
      → (m p ≢ 0 → SameString m (p + 1) (q + 1) n)
      → SameString m p q (suc n)
  unfolding has_nul
  SameString-suc p q n e h zero l z = ground arith
  SameString-suc p q n e h (suc i) l z =
      let tail : m (p + 1 + i) ≡ m (q + 1 + i) = h (ground arith) i (omega arith) (ground arith) in
      ground arith

  strncmp-SameString : (p q n : ℕ) → strncmp m p q n ≡ pos 0 → SameString m p q n
  unfolding strncmp
  strncmp-SameString p q zero h = λ i l z. absurd (omega arith)
  strncmp-SameString p q (suc n) h =
      SameString-suc p q n (ground arith)
        (λ ne. strncmp-SameString (p + 1) (q + 1) n (ground arith))

  SameString-strncmp : (p q n : ℕ) → SameString m p q n → strncmp m p q n ≡ pos 0
  unfolding strncmp has_nul
  SameString-strncmp p q zero h = refl
  SameString-strncmp p q (suc n) h = elim (Bool-cases (m p == 0)) [
    | inl z ↦ ground (arith, h 0)
    | inr nz ↦
        ground
          (arith, h 0, SameString-strncmp (p + 1) (q + 1) n (λ i l z. ground (arith, h (suc i))))
  ]

  -- `strncmp` returns 0 exactly when the strings agree up to the limit or up to their NUL.
  pub strncmp_iff : (p q n : ℕ) → (strncmp m p q n ≡ pos 0) ↔ SameString m p q n
  strncmp_iff p q n = (strncmp-SameString p q n, SameString-strncmp p q n)
