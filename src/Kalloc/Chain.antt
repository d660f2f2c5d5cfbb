-- ===== src/Kalloc/Chain.antt =====
-- The free list of kalloc.c: the pages on it, in order, and what `kfree` and `kalloc` do to them.
use mathlib.Core.Path.{subst}
use compiling_to_assembly.Prelude.{
  ℕ, ◌+◌, ◌%◌, ◌^◌, ◌≤◌, ◌<◌, ◌≡◌, ◌≢◌, refl, sym, ◌⊎◌, List, [], ◌∷◌, none, some, arith, ◌==◌,
  false,
}
use compiling_to_assembly.StringOps.{Memory}
use compiling_to_assembly.Kalloc.{pgsize, phystop, v2p, load_word, Kmem, kfree, kalloc}
use compiling_to_assembly.Kalloc.Words.{
  load_word-store_word, freed_mem, freed_mem-frame, freed_mem-junk, load_word-freed_mem,
}
use compiling_to_assembly.StringOps.{memset}

-- A page that `kfree` accepts, in the 32-bit address space and not at 0.
pub record IsPage (end v : ℕ) : Type 0 where
  pub aligned : v % pgsize ≡ 0
  pub above : end ≤ v
  pub below : v2p v < phystop
  pub ne_null : v ≢ 0
  pub small : v < 2 ^ 32

-- `v` is none of the pages.
abbrev pub NotIn : ℕ → List ℕ → Type 0
NotIn v [] = Unit
NotIn v (x ∷ xs) = (v ≢ x) × NotIn v xs

-- From `p` on, the words at the start of the free pages lead through the distinct pages `xs` to 0.
abbrev pub IsChain : ℕ → Memory → ℕ → List ℕ → Type 0
IsChain end mem p [] = p ≡ 0
IsChain end mem p (x ∷ xs) =
    (p ≡ x) × IsPage end x × NotIn x xs × IsChain end mem (load_word mem x) xs

abbrev pub Free : ℕ → Kmem → List ℕ → Type 0
Free end k xs = IsChain end (k.mem) (k.freelist) xs

-- What `kalloc` does with the free pages.
abbrev pub Hands : ℕ → Kmem → List ℕ → Type 0
Hands end k [] = kalloc k ≡ (k, 0)
Hands end k (v ∷ ys) =
    ((kalloc k).1 ≡ v) × (v ≢ 0) × ((kalloc k).0.mem ≡ k.mem) × Free end (kalloc k).0 ys

module _ (end : ℕ) where
  pages_apart : (u v : ℕ) → IsPage end u → IsPage end v → u ≢ v → (u + 4 ≤ v) ⊎ (v + pgsize ≤ u)
  pages_apart u v a b ne = ground (arith, a.aligned, b.aligned)

  IsChain-freed_mem :
      (m : Memory) (v w p : ℕ) (xs : List ℕ)
      → IsPage end v
      → NotIn v xs
      → IsChain end m p xs
      → IsChain end (freed_mem m v w) p xs
  IsChain-freed_mem m v w p [] g n c = c
  IsChain-freed_mem m v w p (x ∷ xs) g n c = (
    c.0,
    c.1,
    c.2,
    rw (load_word-freed_mem m v w x (pages_apart x v (c.1) g (λ e. n.0 (sym e))))
        (IsChain-freed_mem m v w (load_word m x) xs g (n.1) (c.3)),
  )

  freelist_small : (k : Kmem) (xs : List ℕ) → Free end k xs → k.freelist < 2 ^ 32
  freelist_small k [] c = omega arith
  freelist_small k (x ∷ xs) c = omega (arith, c.0, c.1.small)

  -- `kfree` of a page that is not free puts it at the head of the list, writes nothing outside it,
  -- and fills it with junk behind the link.
  pub kfree-Free :
      (k : Kmem) (v : ℕ) (xs : List ℕ)
      → IsPage end v
      → NotIn v xs
      → Free end k xs
      → (k' : Kmem) × (kfree end k v ≡ some k')
        × Free end k' (v ∷ xs)
        × ((a : ℕ) → (a < v) ⊎ (v + pgsize ≤ a) → k'.mem a ≡ k.mem a)
        × ((a : ℕ) → v + 4 ≤ a → a < v + pgsize → k'.mem a ≡ 1)
  unfolding kfree
  kfree-Free k v xs g n c = (
    record k { mem = freed_mem (k.mem) v (k.freelist); freelist = v },
    ground (arith, g.aligned, g.above, g.below),
    (
      refl,
      g,
      n,
      rw (load_word-store_word (memset (k.mem) v 1 pgsize) v (k.freelist) (freelist_small k xs c))
          (IsChain-freed_mem (k.mem) v (k.freelist) (k.freelist) xs g n c),
    ),
    λ a h. freed_mem-frame (k.mem) v (k.freelist) a h,
    λ a h l. freed_mem-junk (k.mem) v (k.freelist) a h l,
  )

  -- `kalloc` takes the page at the head of the list, which is not 0, and leaves the rest free and
  -- the memory as it is; where no page is free it returns 0 and changes nothing.
  pub kalloc-Hands : (k : Kmem) (xs : List ℕ) → Free end k xs → Hands end k xs
  unfolding kalloc
  kalloc-Hands k [] c = ground arith
  kalloc-Hands k (v ∷ ys) c =
      let ne : (k.freelist == 0) ≡ false = ground (arith, c.0, c.1.ne_null) in
      rw (ne) (
        c.0,
        c.1.ne_null,
        refl,
        subst (λ p. IsChain end (k.mem) (load_word (k.mem) p) ys) (sym (c.0)) (c.3),
      )

  -- A page that is not aligned, lies in the kernel, or lies above the physical memory is refused.
  pub kfree_refuses :
      (k : Kmem) (v : ℕ) → (v % pgsize ≢ 0) ⊎ ((v < end) ⊎ (phystop ≤ v2p v)) → kfree end k v ≡ none
  unfolding kfree
  kfree_refuses k v h = ground arith
