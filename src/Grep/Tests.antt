-- ===== src/Grep/Tests.antt =====
-- Runs of the matcher of grep.c, and its theorem at one.
use compiling_to_assembly.Prelude.{◌≡◌, ◌↔◌, refl, true, false, [], ◌∷◌}
use compiling_to_assembly.Grep.{match_text}
use compiling_to_assembly.Grep.Language.{Matches, match_text_iff}

-- `^ab*$` on "abb" and "abc", and `b.` on "abc"
runs :
    (match_text (94 ∷ 97 ∷ 98 ∷ 42 ∷ 36 ∷ []) (97 ∷ 98 ∷ 98 ∷ []) ≡ true)
    × (match_text (94 ∷ 97 ∷ 98 ∷ 42 ∷ 36 ∷ []) (97 ∷ 98 ∷ 99 ∷ []) ≡ false)
    × (match_text (98 ∷ 46 ∷ []) (97 ∷ 98 ∷ 99 ∷ []) ≡ true)
unfolding match_text
runs = (refl, refl, refl)

match_text_iff_example :
    (match_text (98 ∷ 46 ∷ []) (97 ∷ 98 ∷ 99 ∷ []) ≡ true)
    ↔ Matches (98 ∷ 46 ∷ []) (97 ∷ 98 ∷ 99 ∷ [])
match_text_iff_example = match_text_iff (98 ∷ 46 ∷ []) (97 ∷ 98 ∷ 99 ∷ [])
