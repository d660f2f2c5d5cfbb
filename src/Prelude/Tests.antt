-- ===== src/Prelude/Tests.antt =====
-- Boolean tests on the native numbers, and the conditional.
use Prim.Native.Nat.{ℕ, suc, ◌+◌, ◌≤◌, ◌<◌, compare, Ordering}
use mathlib.Core.Path.{◌≡◌, refl, ap, subst}
use mathlib.Core.Logic.{◌≢◌, ◌↔◌, ◌⊎◌, inl, inr}
use mathlib.Core.Bool.{Bool, true, false, ◌&&◌}
use mathlib.Core.Option.{Option, none, some}
use native.Mathlib.Omega.{arith}

-- These compute to `compare`, which `ground` and `grind` read with no lemma listed.
abbrev pub ltb : ℕ → ℕ → Bool
ltb a b = elim (compare a b) [ Ordering.lt ↦ true | _ ↦ false ]

abbrev pub leb : ℕ → ℕ → Bool
leb a b = elim (compare a b) [ Ordering.gt ↦ false | _ ↦ true ]

infix 50 ◌==◌
abbrev pub ◌==◌ : ℕ → ℕ → Bool
a == b = elim (compare a b) [ Ordering.eq ↦ true | _ ↦ false ]

infix 1 if◌then◌else◌
abbrev pub if◌then◌else◌ {ℓ} : {A : Type ℓ} → Bool → A → A → A
if true then x else y = x
if false then x else y = y

-- `omega` reads a test through such lemmas.
pub ltb→lt : (a b : ℕ) → ltb a b ≡ true → a < b
ltb→lt a b h = ground arith

pub lt→ltb : (a b : ℕ) → a < b → ltb a b ≡ true
lt→ltb a b h = ground arith

pub ltb→ge : (a b : ℕ) → ltb a b ≡ false → b ≤ a
ltb→ge a b h = ground arith

pub ≥→ltb : (a b : ℕ) → b ≤ a → ltb a b ≡ false
≥→ltb a b h = ground arith

pub leb→le : (a b : ℕ) → leb a b ≡ true → a ≤ b
leb→le a b h = ground arith

pub ==_iff : (a b : ℕ) → ((a == b) ≡ true) ↔ (a ≡ b)
==_iff a b = ground arith

pub ==→≡ : (a b : ℕ) → (a == b) ≡ true → a ≡ b
==→≡ a b h = ground arith

pub ==→≢ : (a b : ℕ) → (a == b) ≡ false → a ≢ b
==→≢ a b h = ground arith

pub ≢→== : (a b : ℕ) → a ≢ b → (a == b) ≡ false
≢→== a b h = ground arith

pub ruleset tests = (arith, ltb→lt, lt→ltb, leb→le)

-- To split on a computed value and keep the equation.
pub Bool-cases : (b : Bool) → (b ≡ true) ⊎ (b ≡ false)
Bool-cases true = inl refl
Bool-cases false = inr refl

pub Option-cases {ℓ} : {A : Type ℓ} (o : Option A) → (o ≡ none) ⊎ ((a : A) × (o ≡ some a))
Option-cases none = inl refl
Option-cases (some a) = inr (a, refl)

-- To split on a range.
pub range-cases :
    (lo hi a : ℕ)
    → ((lo ≤ a) × (a < hi) × ((leb lo a && ltb a hi) ≡ true))
      ⊎ (((a < lo) ⊎ (hi ≤ a)) × ((leb lo a && ltb a hi) ≡ false))
range-cases lo hi a = elim (Bool-cases (leb lo a)) [
  | inr e ↦ inr (inl (ground arith), rw e refl)
  | inl e ↦ elim (Bool-cases (ltb a hi)) [
    | inl f ↦ inl (leb→le lo a e, ltb→lt a hi f, rw (e, f) refl)
    | inr f ↦ inr (inr (ltb→ge a hi f), rw (e, f) refl)
  ]
]

-- A fact about one number and about those behind it.
pub extend {ℓ} :
    {P : ℕ → Type ℓ} (i k : ℕ)
    → P i
    → ((m : ℕ) → i + 1 ≤ m → m < i + 1 + k → P m)
    → (m : ℕ) → i ≤ m
    → m < i + suc k
    → P m
extend {P = P} i k p h m a b = elim (Bool-cases (i == m)) [
  | inl e ↦ subst P (==→≡ i m e) p
  | inr ne ↦ h m (ground arith) (omega arith)
]

got_or {ℓ} : {A : Type ℓ} → A → Option A → A
got_or d none = d
got_or d (some a) = a

pub some-injective {ℓ} : {A : Type ℓ} (a b : A) → some a ≡ some b → a ≡ b
unfolding got_or
some-injective a b e = ap (got_or a) e

pub if_false {ℓ} : {A : Type ℓ} (b : Bool) (x y : A) → b ≡ false → (if b then x else y) ≡ y
if_false b x y e = rw e
