-- ===== src/Names/Tests.antt =====
-- Paths in a small tree, and the theorem at one.
use compiling_to_assembly.Prelude.{
  ℕ, ◌≡◌, refl, inl, inr, Bool, true, false, Option, none, some, List, [], ◌∷◌, ◌++◌, arith, ◌==◌,
  ◌&&◌, ltb, if◌then◌else◌, replicate,
}
use compiling_to_assembly.Names.{slash, found, failed, namex}
use compiling_to_assembly.Names.Elements.{IsPath, render}
use compiling_to_assembly.Names.Resolve.{names, resolve, namex-resolve}

-- inode 1 is the root, with a directory "a" that is inode 2, where "b" is the file 3
abbrev is_dir : ℕ → Bool
is_dir ip = ltb ip 3

abbrev dirlookup : ℕ → List ℕ → Option ℕ
dirlookup ip (c ∷ []) =
    if c == 97 && ip == 1 then some 2 else if c == 98 && ip == 2 then some 3 else none
dirlookup ip name = none

-- "a//", "b"
abbrev two_names : List (List ℕ × ℕ)
two_names = (97 ∷ [], 2) ∷ (98 ∷ [], 0) ∷ []

-- "/a//b" is inode 3, its parent is inode 2, and a file has no entries.
resolves :
    (namex is_dir dirlookup false 9 1 2 [] (47 ∷ 97 ∷ 47 ∷ 47 ∷ 98 ∷ []) ≡ found 3 (98 ∷ []))
    × (namex is_dir dirlookup true 9 1 2 [] (47 ∷ 97 ∷ 47 ∷ 47 ∷ 98 ∷ []) ≡ found 2 (98 ∷ []))
    × (namex is_dir dirlookup false 9 1 2 [] (98 ∷ 47 ∷ 98 ∷ []) ≡ failed)
    × (namex is_dir dirlookup true 9 1 2 [] (47 ∷ []) ≡ failed)
unfolding namex
resolves = (refl, refl, refl, refl)

two_names-IsPath : IsPath two_names
two_names-IsPath = (
  (λ e. ground arith, (λ e. ground arith, tt)),
  inl (omega arith),
  ((λ e. ground arith, (λ e. ground arith, tt)), inr refl, tt),
)

namex-resolve_example :
    namex is_dir dirlookup false 3 1 2 [] (replicate 1 slash ++ render two_names)
    ≡ resolve is_dir dirlookup false (if ltb 0 1 then 1 else 2) [] (names two_names)
namex-resolve_example =
    namex-resolve is_dir dirlookup false 3 1 1 2 [] two_names two_names-IsPath (omega arith)
