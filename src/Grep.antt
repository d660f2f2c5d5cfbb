-- ===== src/Grep.antt =====
-- projects/xv6/grep.c: the matcher of regular expressions. An expression and a text are the lists of
-- their bytes before the NUL.
pub mod Language
mod Tests
use compiling_to_assembly.Prelude.{ℕ, Bool, true, false, ◌&&◌, ◌||◌, List, [], ◌∷◌, ◌==◌}

-- the characters `*`, `.`, `$` and `^`
abbrev pub star : ℕ
star = 42

abbrev pub dot : ℕ
dot = 46

abbrev pub dollar : ℕ
dollar = 36

abbrev pub caret : ℕ
caret = 94

-- `matchstar`, with `here` for `matchhere` of the rest of the expression.
pub matchstar : (List ℕ → Bool) → ℕ → List ℕ → Bool
matchstar here c [] = here []
matchstar here c (t ∷ ts) =
    let rest = matchstar here c ts in here (t ∷ ts) || ((t == c || c == dot) && rest)

-- The last test of `matchhere`: one character, and `here` for the rest.
pub matchone : (List ℕ → Bool) → ℕ → List ℕ → Bool
matchone here c [] = false
matchone here c (t ∷ ts) = (c == dot || c == t) && here ts

-- `*text == '\0'`
pub at_end : List ℕ → Bool
at_end [] = true
at_end (t ∷ ts) = false

-- `matchhere`
pub matchhere : List ℕ → List ℕ → Bool
unfolding matchstar matchone at_end
matchhere [] text = true
matchhere (c ∷ []) text = elim (c == dollar) [
  | true ↦ at_end text
  | false ↦ matchone (matchhere []) c text
]
matchhere (c ∷ d ∷ re) text = elim (d == star) [
  | true ↦ matchstar (matchhere re) c text
  | false ↦ matchone (matchhere (d ∷ re)) c text
]

-- The loop of `match`.
pub match_loop : List ℕ → List ℕ → Bool
unfolding matchhere
match_loop re [] = matchhere re []
match_loop re (t ∷ ts) = let rest = match_loop re ts in matchhere re (t ∷ ts) || rest

-- `match`
pub match_text : List ℕ → List ℕ → Bool
unfolding match_loop
match_text [] text = match_loop [] text
match_text (c ∷ re) text = elim (c == caret) [
  | true ↦ matchhere re text
  | false ↦ match_loop (c ∷ re) text
]
