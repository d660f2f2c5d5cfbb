-- ===== src/Kalloc/Range.antt =====
-- `freerange` of kalloc.c: every whole page of a range becomes free, once.
use compiling_to_assembly.Prelude.{
  ℕ, zero, suc, ◌+◌, ◌-◌, ◌*◌, ◌/◌, ◌%◌, ◌^◌, ◌≤◌, ◌<◌, ◌≡◌, ◌⊎◌, inl, List, [], ◌∷◌, some, arith,
  leb, true, false,
}
use compiling_to_assembly.Kalloc.{
  pgsize, kernbase, phystop, pg_round_up, Kmem, free_loop, freerange,
}
use compiling_to_assembly.Kalloc.Chain.{IsPage, NotIn, Free, kfree-Free}

-- `n` pages from `p` on, the last one first, before `xs`
unfoldable pub pages : ℕ → ℕ → List ℕ → List ℕ
pages p zero xs = xs
pages p (suc n) xs = pages (p + pgsize) n (p ∷ xs)

-- The range lies in the physical memory above the kernel.
pub record IsRange (end p vend : ℕ) : Type 0 where
  pub above_kernel : end ≤ p
  pub mapped : kernbase ≤ p
  pub below_top : vend ≤ kernbase + phystop

-- None of the pages lies in the range.
abbrev pub Apart : ℕ → ℕ → List ℕ → Type 0
Apart p vend [] = Unit
Apart p vend (x ∷ xs) = ((x < p) ⊎ (vend ≤ x)) × Apart p vend xs

Apart-NotIn : (p vend : ℕ) (xs : List ℕ) → p < vend → Apart p vend xs → NotIn p xs
Apart-NotIn p vend [] h a = tt
Apart-NotIn p vend (x ∷ xs) h a = (ground arith, Apart-NotIn p vend xs h (a.1))

Apart-add : (p vend : ℕ) (xs : List ℕ) → Apart p vend xs → Apart (p + pgsize) vend xs
Apart-add p vend [] a = tt
Apart-add p vend (x ∷ xs) a = (ground arith, Apart-add p vend xs (a.1))

range-IsPage :
    (end p vend : ℕ) → IsRange end p vend → p % pgsize ≡ 0 → p + pgsize ≤ vend → IsPage end p
range-IsPage end p vend r h l = omega arith

free_loop-Free :
    (end fuel n : ℕ) (k : Kmem) (p vend : ℕ) (xs : List ℕ)
    → n < fuel
    → p % pgsize ≡ 0
    → p + n * pgsize ≤ vend
    → vend < p + (n + 1) * pgsize
    → IsRange end p vend
    → Apart p vend xs
    → Free end k xs
    → (k' : Kmem) × (free_loop end fuel k p vend ≡ some k') × Free end k' (pages p n xs)
unfolding free_loop pages
free_loop-Free end zero n k p vend xs f h a b r d c = absurd (omega arith)
free_loop-Free end (suc fuel) zero k p vend xs f h a b r d c =
    let stop : leb (p + pgsize) vend ≡ false = ground arith in (k, rw (stop, free_loop), c)
free_loop-Free end (suc fuel) (suc n) k p vend xs f h a b r d c =
    let go : leb (p + pgsize) vend ≡ true = ground arith in
    let (k1, e1, c1, _, _) =
      kfree-Free end k p xs (range-IsPage end p vend r h (omega arith))
        (Apart-NotIn p vend xs (omega arith) d) c in
    let (k2, e2, c2) =
      free_loop-Free end fuel n k1 (p + pgsize) vend (p ∷ xs) (omega arith) (omega arith)
        (omega arith) (omega arith)
        (record {
          above_kernel = omega (arith, r.above_kernel);
          mapped = omega (arith, r.mapped);
          below_top = r.below_top;
        })
        (inl (omega arith), Apart-add p vend xs d) c1 in
    (k2, rw (go, e1, free_loop) e2, c2)

-- `freerange` frees exactly the whole pages between its bounds, in front of those that were free, which
-- lie outside the range:
-- it neither panics nor runs out of rounds, given one round more than there are pages.
pub freerange-Free :
    (end fuel : ℕ) (k : Kmem) (vstart vend : ℕ) (xs : List ℕ)
    → let first = pg_round_up vstart in
      let n = (vend - first) / pgsize in
      n < fuel
      → vstart + pgsize ≤ 2 ^ 32
      → first ≤ vend
      → IsRange end first vend
      → Apart first vend xs
      → Free end k xs
      → (k' : Kmem) × (freerange end fuel k vstart vend ≡ some k') × Free end k' (pages first n xs)
unfolding freerange
freerange-Free end fuel k vstart vend xs f s l r d c =
    free_loop-Free end fuel ((vend - pg_round_up vstart) / pgsize) k (pg_round_up vstart) vend xs f
      (omega arith) (omega arith) (omega arith) r d c

-- The first page is the lowest page boundary at or above the start.
pub pg_round_up_lem :
    (a : ℕ)
    → a + pgsize ≤ 2 ^ 32
    → (pg_round_up a % pgsize ≡ 0) × (a ≤ pg_round_up a) × (pg_round_up a < a + pgsize)
unfolding pg_round_up
pg_round_up_lem a h = omega arith
