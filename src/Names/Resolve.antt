-- ===== src/Names/Resolve.antt =====
-- `namex` of fs.c against its specification on the names of a path.
use compiling_to_assembly.Prelude.{
  ℕ, zero, suc, ◌<◌, ◌≡◌, refl, ap, ◌∙◌, Bool, true, false, ◌&&◌, Option, none, some, List, [], ◌∷◌,
  ◌++◌, arith, ltb, if◌then◌else◌, take, replicate, length, Bool-cases, Option-cases, inl, inr,
}
use compiling_to_assembly.Names.{
  slash, dirsiz, Walk, found, failed, at_end, walk, namex, starts_at_root,
}
use compiling_to_assembly.Names.Elements.{render, IsPath, skipelem_lem, skipelem-end}

abbrev pub names : List (List ℕ × ℕ) → List (List ℕ)
names [] = []
names (e ∷ es) = take dirsiz (e.0) ∷ names es

not_last :
    (parent : Bool) (d : List ℕ × ℕ) (es : List (List ℕ × ℕ))
    → IsPath (d ∷ es)
    → (parent && at_end (render (d ∷ es))) ≡ false
not_last parent ([], k) es h = absurd (h.0.0 refl)
not_last true (c ∷ n, k) es h = refl
not_last false (c ∷ n, k) es h = refl

module _ {Inode : Type 0} (is_dir : Inode → Bool) (dirlookup : Inode → List ℕ → Option Inode) where
  -- Down the names one by one; for the parent, the last one is not looked up.
  abbrev pub resolve : Bool → Inode → List ℕ → List (List ℕ) → Walk Inode
  resolve parent ip name [] = if parent then failed else found ip name
  resolve parent ip name (n ∷ []) = elim (is_dir ip) [
    | false ↦ failed
    | true ↦ elim parent [
      | true ↦ found ip n
      | false ↦ elim (dirlookup ip n) [ none ↦ failed | some next ↦ found next n ]
    ]
  ]
  resolve parent ip name (n ∷ m ∷ ns) = elim (is_dir ip) [
    | false ↦ failed
    | true ↦ elim (dirlookup ip n) [ none ↦ failed | some next ↦ resolve parent next n (m ∷ ns) ]
  ]

  walk-empty :
      (parent : Bool) (fuel j : ℕ) (ip : Inode) (name : List ℕ)
      → walk is_dir dirlookup parent (suc fuel) ip name (replicate j slash ++ [])
        ≡ (if parent then failed else found ip name)
  unfolding walk
  walk-empty parent fuel j ip name = rw (walk, skipelem-end j)

  walk-resolve :
      (parent : Bool) (fuel j : ℕ) (ip : Inode) (name : List ℕ) (es : List (List ℕ × ℕ))
      → IsPath es
      → length es < fuel
      → walk is_dir dirlookup parent fuel ip name (replicate j slash ++ render es)
        ≡ resolve parent ip name (names es)
  unfolding walk
  walk-resolve parent zero j ip name es h l = absurd (omega arith)
  walk-resolve parent (suc fuel) j ip name [] h l = walk-empty parent fuel j ip name
  walk-resolve true (suc zero) j ip name (e ∷ es) h l = absurd (omega arith)
  walk-resolve false (suc zero) j ip name (e ∷ es) h l = absurd (omega arith)
  walk-resolve parent (suc (suc fuel)) j ip name (e ∷ []) h l = elim (Bool-cases (is_dir ip)) [
    | inr n ↦ rw (walk, skipelem_lem j e [] h, n) refl
    | inl d ↦ elim (Bool-cases parent) [
      | inl p ↦ rw (walk, skipelem_lem j e [] h, d, p) refl
      | inr p ↦ elim (Option-cases (dirlookup ip (take dirsiz (e.0)))) [
        | inl q ↦ rw (walk, skipelem_lem j e [] h, d, p, q) refl
        | inr (next, q) ↦
            rw (walk, skipelem_lem j e [] h, d, p, q)
              (walk-empty parent fuel 0 next (take dirsiz (e.0)) ∙ rw p)
      ]
    ]
  ]
  walk-resolve parent (suc (suc fuel)) j ip name (e ∷ d ∷ es) h l =
      let more : (parent && at_end (render (d ∷ es))) ≡ false = not_last parent d es (h.2) in
      elim (Bool-cases (is_dir ip)) [
        | inr n ↦ rw (walk, skipelem_lem j e (d ∷ es) h, n) refl
        | inl y ↦ elim (Option-cases (dirlookup ip (take dirsiz (e.0)))) [
          | inl q ↦ rw (walk, skipelem_lem j e (d ∷ es) h, y, more, q) refl
          | inr (next, q) ↦
              rw (walk, skipelem_lem j e (d ∷ es) h, y, more, q)
                (walk-resolve parent (suc fuel) 0 next (take dirsiz (e.0)) (d ∷ es) (h.2)
                  (omega arith))
        ]
      ]

starts_render :
    (j : ℕ) (es : List (List ℕ × ℕ))
    → IsPath es
    → starts_at_root (replicate j slash ++ render es) ≡ ltb 0 j
starts_render zero [] h = refl
starts_render zero (([], k) ∷ es) h = absurd (h.0.0 refl)
starts_render zero ((c ∷ n, k) ∷ es) h = ground (arith, h.0.1.0)
starts_render (suc j) es h = ground arith

-- namex on any number of slashes, and names without slashes that are each followed by slashes but
-- the last, which may be: it starts at the root if there is a first slash and else at the current
-- directory, and goes down the names, cut to DIRSIZ bytes, one by one; nameiparent stops before the
-- last and gives its name. More fuel than there are names is enough.
pub namex-resolve :
    {Inode : Type 0} (is_dir : Inode → Bool) (dirlookup : Inode → List ℕ → Option Inode)
    (parent : Bool) (fuel j : ℕ) (root cwd : Inode) (name : List ℕ) (es : List (List ℕ × ℕ))
    → IsPath es
    → length es < fuel
    → namex is_dir dirlookup parent fuel root cwd name (replicate j slash ++ render es)
      ≡ resolve is_dir dirlookup parent (if ltb 0 j then root else cwd) name (names es)
unfolding namex
namex-resolve is_dir dirlookup parent fuel j root cwd name es h l =
    walk-resolve is_dir dirlookup parent fuel j
      (if starts_at_root (replicate j slash ++ render es) then root else cwd) name es h l
    ∙ ap (λ (b : Bool). resolve is_dir dirlookup parent (if b then root else cwd) name (names es))
        (starts_render j es h)
