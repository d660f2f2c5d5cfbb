-- ===== src/Bcache/Scan.antt =====
-- The loops of `bget` over the ring: the first buffer that passes a test, from either end.
use mathlib.Core.Path.{subst}
use compiling_to_assembly.Prelude.{
  ℕ, zero, suc, ◌+◌, ◌<◌, ◌≡◌, ◌≢◌, refl, ap, sym, ◌∙◌, inl, inr, Bool, true, false, List, [], ◌∷◌,
  ◌++◌, arith, length, ◌==◌, if◌then◌else◌, ≢→==, Bool-cases,
}
use mathlib.Core.List.Memᴰ
use mathlib.Core.List.{Memᴰ}
use compiling_to_assembly.Bcache.{Bcache, head, Search, stops, passes, lost, scan}
use compiling_to_assembly.Bcache.Ring.{Segment, link, step, Distinct, cons, IsRing}

-- The buffers `xs` stand from `b` on along `f`, up to the head.
data Along (f : ℕ → ℕ) : ℕ → List ℕ → Type 0 where
  ends : (b : ℕ) → b ≡ head → Along f b []
  goes : (b : ℕ) (xs : List ℕ) → b ≢ head → Along f (f b) xs → Along f b (b ∷ xs)

-- The first of a list that passes a test, as a loop finds it.
unfoldable pub first : (ℕ → Bool) → List ℕ → Search
first test [] = passes
first test (x ∷ xs) = if test x then stops x else first test xs

unfoldable pub rev_onto : List ℕ → List ℕ → List ℕ
rev_onto [] ys = ys
rev_onto (x ∷ xs) ys = rev_onto xs (x ∷ ys)

scan-first :
    (f : ℕ → ℕ) (test : ℕ → Bool) (k b : ℕ) (xs : List ℕ)
    → length xs < k
    → Along f b xs
    → scan f test k b ≡ first test xs
unfolding scan first
scan-first f test zero b xs l p = absurd (omega arith)
scan-first f test (suc k) b _ l (ends _ e) =
    let t : (b == head) ≡ true = ground arith in rw (scan, t)
scan-first f test (suc k) b _ l (goes _ xs n p) =
    let ih = scan-first f test k (f b) xs (omega arith) p in
    elim (Bool-cases (test b)) [
      | inl t ↦ rw (scan, ≢→== b head n, t)
      | inr t ↦ rw (scan, ≢→== b head n, t) ih
    ]

forward :
    (n p : ℕ → ℕ) (a b : ℕ) (xs : List ℕ)
    → b ≡ head
    → (Memᴰ head xs → ⊥)
    → Segment n p a xs b
    → Along n (n a) xs
forward n p a b _ h out (link _ _ e _) = ends (n a) (e ∙ h)
forward n p a b _ h out (step _ x _ xs e _ s) =
    subst (λ (y : ℕ). Along n y (x ∷ xs)) (sym e)
      (goes x xs (λ q. out (Memᴰ.head (sym q))) (forward n p x b xs h (λ m. out (Memᴰ.tail m)) s))

backward :
    (n p : ℕ → ℕ) (a b : ℕ) (xs acc : List ℕ)
    → (Memᴰ head xs → ⊥)
    → Along p a acc
    → Segment n p a xs b
    → Along p (p b) (rev_onto xs acc)
unfolding rev_onto
backward n p a b _ acc out q (link _ _ _ e) = subst (λ (y : ℕ). Along p y acc) (sym e) q
backward n p a b _ acc out q (step _ x _ xs _ e s) =
    backward n p x b xs (x ∷ acc) (λ m. out (Memᴰ.tail m))
      (goes x acc (λ r. out (Memᴰ.head (sym r))) (subst (λ (y : ℕ). Along p y acc) (sym e) q)) s

length-rev_onto : (xs ys : List ℕ) → length (rev_onto xs ys) ≡ length xs + length ys
unfolding rev_onto
length-rev_onto [] ys = omega arith
length-rev_onto (x ∷ xs) ys = omega (arith, length-rev_onto xs (x ∷ ys))

head_out : (xs : List ℕ) → Distinct (head ∷ xs) → Memᴰ head xs → ⊥
head_out xs (cons _ _ out d) = out

-- A loop along `next` finds the most recently used buffer that passes the test, one along `prev` the
-- least recently used one.
module _ (s : Bcache) (xs : List ℕ) (k : ℕ) (test : ℕ → Bool) (r : IsRing s xs)
    (l : length xs < k) where
  pub scan-next : scan (s.next) test k (s.next head) ≡ first test xs
  scan-next =
      scan-first (s.next) test k (s.next head) xs l
        (forward (s.next) (s.prev) head head xs refl (head_out xs (r.distinct)) (r.links))

  pub scan-prev : scan (s.prev) test k (s.prev head) ≡ first test (rev_onto xs [])
  scan-prev =
      scan-first (s.prev) test k (s.prev head) (rev_onto xs [])
        (omega (arith, length-rev_onto xs []))
        (backward (s.next) (s.prev) head head xs [] (head_out xs (r.distinct)) (ends head refl)
          (r.links))

-- The last of a list that passes a test.
or_else : Search → Search → Search
or_else (stops b) o = stops b
or_else passes o = o
or_else lost o = lost

unfoldable pub last : (ℕ → Bool) → List ℕ → Search
unfolding or_else
last test [] = passes
last test (x ∷ xs) = or_else (last test xs) (if test x then stops x else passes)

or_else_assoc : (a b c : Search) → or_else (or_else a b) c ≡ or_else a (or_else b c)
unfolding or_else
or_else_assoc (stops x) b c = refl
or_else_assoc passes b c = refl
or_else_assoc lost b c = refl

first_or :
    (b : Bool) (x : ℕ) (o : Search)
    → or_else (if b then stops x else passes) o ≡ (if b then stops x else o)
unfolding or_else
first_or true x o = refl
first_or false x o = refl

first-rev_onto :
    (test : ℕ → Bool) (xs acc : List ℕ)
    → first test (rev_onto xs acc) ≡ or_else (last test xs) (first test acc)
unfolding first rev_onto last or_else
first-rev_onto test [] acc = refl
first-rev_onto test (x ∷ xs) acc =
    first-rev_onto test xs (x ∷ acc)
    ∙ ap (or_else (last test xs)) (sym (first_or (test x) x (first test acc)))
    ∙ sym (or_else_assoc (last test xs) (if test x then stops x else passes) (first test acc))

or_else_passes : (o : Search) → or_else o passes ≡ o
unfolding or_else
or_else_passes (stops x) = refl
or_else_passes passes = refl
or_else_passes lost = refl

-- No buffer of the list passes the test.
unfoldable pub NoneOf : (ℕ → Bool) → List ℕ → Type 0
NoneOf test xs = (x : ℕ) → Memᴰ x xs → test x ≡ false

pub data First (test : ℕ → Bool) (xs : List ℕ) : Search → Type 0 where
  at : (us vs : List ℕ) (b : ℕ) → xs ≡ us ++ b ∷ vs → test b ≡ true → First test xs (stops b)
  nowhere : NoneOf test xs → First test xs passes

pub data Last (test : ℕ → Bool) (xs : List ℕ) : Search → Type 0 where
  at :
      (us vs : List ℕ) (b : ℕ)
      → xs ≡ us ++ b ∷ vs
      → test b ≡ true
      → NoneOf test vs
      → Last test xs (stops b)
  nowhere : NoneOf test xs → Last test xs passes

NoneOf-cons :
    (test : ℕ → Bool) (x : ℕ) (xs : List ℕ) → test x ≡ false → NoneOf test xs → NoneOf test (x ∷ xs)
unfolding NoneOf
NoneOf-cons test x xs e n y m = elim (Memᴰ.cases_cons m) [ inl q ↦ ap test q ∙ e | inr m' ↦ n y m' ]

NoneOf-nil : (test : ℕ → Bool) → NoneOf test []
unfolding NoneOf
NoneOf-nil test y m = absurd (Memᴰ.not-nil m)

First-cons :
    (test : ℕ → Bool) (x : ℕ) (xs : List ℕ) (o : Search)
    → test x ≡ false
    → First test xs o
    → First test (x ∷ xs) o
First-cons test x xs _ t (at us vs b e h) = at (x ∷ us) vs b (ap (λ ys. x ∷ ys) e) h
First-cons test x xs _ t (nowhere n) = nowhere (NoneOf-cons test x xs t n)

first-First : (test : ℕ → Bool) (xs : List ℕ) → First test xs (first test xs)
unfolding first
first-First test [] = nowhere (NoneOf-nil test)
first-First test (x ∷ xs) = elim (Bool-cases (test x)) [
  | inl t ↦ rw (first, t) (at [] xs x refl t)
  | inr t ↦ rw (first, t) (First-cons test x xs _ t (first-First test xs))
]

Last-cons :
    (test : ℕ → Bool) (x : ℕ) (xs : List ℕ) (o : Search)
    → Last test xs o
    → Last test (x ∷ xs) (or_else o (if test x then stops x else passes))
unfolding or_else
Last-cons test x xs _ (at us vs b e h n) = at (x ∷ us) vs b (ap (λ ys. x ∷ ys) e) h n
Last-cons test x xs _ (nowhere n) = elim (Bool-cases (test x)) [
  | inl t ↦ rw t (at [] xs x refl t n)
  | inr t ↦ rw t (nowhere (NoneOf-cons test x xs t n))
]

last-Last : (test : ℕ → Bool) (xs : List ℕ) → Last test xs (last test xs)
unfolding last
last-Last test [] = nowhere (NoneOf-nil test)
last-Last test (x ∷ xs) = Last-cons test x xs (last test xs) (last-Last test xs)

-- How the loops of `bget` end.
module _ (s : Bcache) (xs : List ℕ) (k : ℕ) (test : ℕ → Bool) (r : IsRing s xs)
    (l : length xs < k) where
  pub scan_next-First : First test xs (scan (s.next) test k (s.next head))
  scan_next-First = subst (First test xs) (sym (scan-next s xs k test r l)) (first-First test xs)

  pub scan_prev-Last : Last test xs (scan (s.prev) test k (s.prev head))
  unfolding first
  scan_prev-Last =
      subst (Last test xs)
        (sym
          (scan-prev s xs k test r l ∙ first-rev_onto test xs [] ∙ or_else_passes (last test xs)))
        (last-Last test xs)
