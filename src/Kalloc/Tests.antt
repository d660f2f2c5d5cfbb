-- ===== src/Kalloc/Tests.antt =====
-- Pages under kalloc.c, and the theorems at them. The kernel ends at 0x80100000.
use compiling_to_assembly.Prelude.{
  ℕ, ◌+◌, ◌-◌, ◌/◌, ◌≤◌, ◌<◌, ◌≡◌, refl, ◌⊎◌, true, false, none, some, [], ◌∷◌, arith,
}
use compiling_to_assembly.Kalloc.{pgsize, pg_round_up, load_word, Kmem, kfree, freerange}
use compiling_to_assembly.Kalloc.Chain.{IsPage, Free, Hands, kfree-Free, kalloc-Hands}
use compiling_to_assembly.Kalloc.Range.{pages, freerange-Free}

abbrev end : ℕ
end = 0x80100000

abbrev page : ℕ
page = 0x80101000

-- nothing is free, and the memory holds 9s
abbrev nothing_free : Kmem
nothing_free = record { mem = λ a. 9; use_lock = false; freelist = 0 }

page-IsPage : IsPage end page
page-IsPage = omega arith

-- A page that is not aligned, and one inside the kernel, are refused.
kfree_panics :
    (kfree end nothing_free (page + 4) ≡ none) × (kfree end nothing_free (end - pgsize) ≡ none)
unfolding kfree
kfree_panics = (refl, refl)

kfree-Free_example :
    (k' : Kmem) × (kfree end nothing_free page ≡ some k')
    × Free end k' (page ∷ [])
    × ((a : ℕ) → (a < page) ⊎ (page + pgsize ≤ a) → k'.mem a ≡ 9)
    × ((a : ℕ) → page + 4 ≤ a → a < page + pgsize → k'.mem a ≡ 1)
kfree-Free_example = kfree-Free end nothing_free page [] page-IsPage tt refl

-- one page is free, and its link is 0
abbrev one_free : Kmem
one_free = record { mem = λ a. 0; use_lock = true; freelist = page }

one_free-Free : Free end one_free (page ∷ [])
unfolding load_word
one_free-Free = (refl, page-IsPage, tt, refl)

kalloc-Hands_example : Hands end one_free (page ∷ [])
kalloc-Hands_example = kalloc-Hands end one_free (page ∷ []) one_free-Free

freerange-Free_example :
    (k' : Kmem) × (freerange end 5 nothing_free 0x80100800 0x80103800 ≡ some k')
    × Free end k'
        (pages (pg_round_up 0x80100800) ((0x80103800 - pg_round_up 0x80100800) / pgsize) [])
unfolding pg_round_up
freerange-Free_example =
    freerange-Free end 5 nothing_free 0x80100800 0x80103800 [] (omega arith) (omega arith)
      (omega arith) (omega arith) tt refl
