-- ===== src/Names/Elements.antt =====
-- `skipelem` of fs.c, on paths that are put together from names and slashes.
use compiling_to_assembly.Prelude.{
  ℕ, zero, suc, ◌<◌, ◌≡◌, ◌≢◌, refl, ◌⊎◌, inl, inr, true, false, none, some, List, [], ◌∷◌, ◌++◌,
  arith, ◌==◌, take, replicate,
}
use compiling_to_assembly.Names.{slash, dirsiz, skip_slashes, split_elem, skipelem}

-- A name has a byte and no slash.
abbrev pub NoSlash : List ℕ → Type 0
NoSlash [] = Unit {0}
NoSlash (c ∷ cs) = (c ≢ slash) × NoSlash cs

abbrev pub IsName : List ℕ → Type 0
IsName n = (n ≢ []) × NoSlash n

-- nothing or a byte that is not a slash stands first, or nothing or a slash
abbrev pub StartsName : List ℕ → Type 0
StartsName [] = Unit {0}
StartsName (c ∷ cs) = c ≢ slash

abbrev StartsGap : List ℕ → Type 0
StartsGap [] = Unit {0}
StartsGap (c ∷ cs) = c ≡ slash

-- names, each with the number of slashes behind it, of which only the last may have none
abbrev pub render : List (List ℕ × ℕ) → List ℕ
render [] = []
render (e ∷ es) = e.0 ++ (replicate (e.1) slash ++ render es)

abbrev pub IsPath : List (List ℕ × ℕ) → Type 0
IsPath [] = Unit {0}
IsPath (e ∷ es) = IsName (e.0) × ((0 < e.1) ⊎ (es ≡ [])) × IsPath es

pub skip_slashes_lem :
    (k : ℕ) (r : List ℕ) → StartsName r → skip_slashes (replicate k slash ++ r) ≡ r
unfolding skip_slashes
skip_slashes_lem zero [] h = refl
skip_slashes_lem zero (c ∷ cs) h =
    (let e : (c == slash) ≡ false = ground arith in rw (e, skip_slashes))
skip_slashes_lem (suc k) r h = skip_slashes_lem k r h

split_elem_lem : (n r : List ℕ) → NoSlash n → StartsGap r → split_elem (n ++ r) ≡ (n, r)
unfolding split_elem
split_elem_lem [] [] h g = refl
split_elem_lem [] (c ∷ cs) h g = (let e : (c == slash) ≡ true = ground arith in rw (e, split_elem))
split_elem_lem (c ∷ n) r h g =
    let e : (c == slash) ≡ false = ground (arith, h.0) in
    rw (split_elem, e, split_elem_lem n r (h.1) g)

render-StartsName : (es : List (List ℕ × ℕ)) → IsPath es → StartsName (render es)
render-StartsName [] h = tt
render-StartsName (([], k) ∷ es) h = absurd (h.0.0 refl)
render-StartsName ((c ∷ n, k) ∷ es) h = h.0.1.0

gap-StartsGap :
    (k : ℕ) (es : List (List ℕ × ℕ))
    → (0 < k) ⊎ (es ≡ [])
    → StartsGap (replicate k slash ++ render es)
gap-StartsGap zero [] h = tt
gap-StartsGap zero (e ∷ es) (inl h) = absurd (omega arith)
gap-StartsGap zero (e ∷ es) (inr h) = absurd (ground arith)
gap-StartsGap (suc k) es h = refl

pub skipelem-end : (j : ℕ) → skipelem (replicate j slash ++ []) ≡ none
unfolding skipelem
skipelem-end j = rw (skipelem, skip_slashes_lem j [] tt)

-- behind any number of slashes, `skipelem` takes the first name, and leaves the path at the next one
pub skipelem_lem :
    (j : ℕ) (e : List ℕ × ℕ) (es : List (List ℕ × ℕ))
    → IsPath (e ∷ es)
    → skipelem (replicate j slash ++ render (e ∷ es)) ≡ some (take dirsiz (e.0), render es)
unfolding skipelem
skipelem_lem j ([], k) es h = absurd (h.0.0 refl)
skipelem_lem j (c ∷ n, k) es h = rw (
  skipelem,
  skip_slashes_lem j (render ((c ∷ n, k) ∷ es)) (h.0.1.0),
  split_elem_lem (c ∷ n) (replicate k slash ++ render es) (h.0.1) (gap-StartsGap k es (h.1)),
  skip_slashes_lem k (render es) (render-StartsName es (h.2)),
)
