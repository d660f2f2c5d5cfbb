-- ===== src/Grep/Language.antt =====
-- The strings that an expression of grep.c stands for, and that the matcher finds exactly those.
use mathlib.Core.Path.{subst}
use mathlib.Core.List.{append_assoc}
use compiling_to_assembly.Prelude.{
  ℕ, ◌≡◌, ◌≢◌, refl, sym, ◌∙◌, ◌↔◌, ◌⊎◌, inl, inr, Bool, true, false, ◌&&◌, ◌||◌, List, [], ◌∷◌,
  ◌++◌, arith, ◌==◌, Bool-cases, ==→≡, ==→≢,
}
use compiling_to_assembly.Grep.{
  star, dot, dollar, caret, matchstar, matchone, at_end, matchhere, match_loop, match_text,
}

-- A character of an expression stands for itself, and a dot for any.
abbrev pub fits : ℕ → ℕ → Bool
fits c t = (c == dot) || (c == t)

pub data AllFit (c : ℕ) : List ℕ → Type 0 where
  nil : AllFit c []
  cons : (t : ℕ) (ts : List ℕ) → fits c t ≡ true → AllFit c ts → AllFit c (t ∷ ts)

-- The character `c` in front of `re` is neither repeated nor the sign for the end.
pub data Plain : ℕ → List ℕ → Type 0 where
  last : (c : ℕ) → c ≢ dollar → Plain c []
  inside : (c d : ℕ) (re : List ℕ) → d ≢ star → Plain c (d ∷ re)

-- The expression `re` without `^` stands for `u` where the text goes on with `v`.
pub data Denotes : List ℕ → List ℕ → List ℕ → Type 0 where
  done : (v : List ℕ) → Denotes [] [] v
  ends : Denotes (dollar ∷ []) [] []
  repeats :
      (c : ℕ) (re s u v : List ℕ) → AllFit c s → Denotes re u v → Denotes (c ∷ star ∷ re) (s ++ u) v
  one :
      (c t : ℕ) (re u v : List ℕ)
      → Plain c re
      → fits c t ≡ true
      → Denotes re u v
      → Denotes (c ∷ re) (t ∷ u) v

-- Some string of the expression stands at the start of the text.
pub data StartsWith (re : List ℕ) : List ℕ → Type 0 where
  starts : (u v : List ℕ) → Denotes re u v → StartsWith re (u ++ v)

-- Some string of the expression stands in the text.
pub data Contains (re : List ℕ) : List ℕ → Type 0 where
  within : (w text : List ℕ) → StartsWith re text → Contains re (w ++ text)

star_fits : (c t : ℕ) → (t == c || c == dot) ≡ fits c t
star_fits c t = ground arith

or_true : (b : Bool) → (b || true) ≡ true
or_true true = refl
or_true false = refl

-- Completeness, by the parts of an expression.
star-here : (here : List ℕ → Bool) (c : ℕ) (w : List ℕ) → here w ≡ true → matchstar here c w ≡ true
unfolding matchstar
star-here here c [] h = h
star-here here c (t ∷ ts) h = rw (matchstar, h) refl

star-all :
    (here : List ℕ → Bool) (c : ℕ) (s w : List ℕ)
    → AllFit c s
    → here w ≡ true
    → matchstar here c (s ++ w) ≡ true
unfolding matchstar
star-all here c _ w nil h = star-here here c w h
star-all here c _ w (cons t ts f a) h =
    rw (matchstar, star_fits c t, f, star-all here c ts w a h) (or_true (here (t ∷ ts ++ w)))

matchhere-Denotes : (re u v : List ℕ) → Denotes re u v → matchhere re (u ++ v) ≡ true
unfolding matchhere matchone at_end
matchhere-Denotes _ _ v (done _) = refl
matchhere-Denotes _ _ _ ends = refl
matchhere-Denotes _ _ v (repeats c re s u _ a d) =
    rw (append_assoc s u v) (star-all (matchhere re) c s (u ++ v) a (matchhere-Denotes re u v d))
matchhere-Denotes _ _ v (one c t _ u _ (last _ n) f d) =
    let e : (c == dollar) ≡ false = ground arith in
    rw (matchhere, e, matchone, f) (matchhere-Denotes [] u v d)
matchhere-Denotes _ _ v (one c t _ u _ (inside _ x re n) f d) =
    let e : (x == star) ≡ false = ground arith in
    rw (matchhere, e, matchone, f) (matchhere-Denotes (x ∷ re) u v d)

-- Soundness, by the parts of an expression.
or-cases : (a b : Bool) → (a || b) ≡ true → (a ≡ true) ⊎ (b ≡ true)
or-cases true b h = inl refl
or-cases false b h = inr h

and-both : (a b : Bool) → (a && b) ≡ true → (a ≡ true) × (b ≡ true)
and-both true b h = (refl, h)
and-both false b h = (h, absurd (let e = h in cc))

data AfterFit (c : ℕ) (re : List ℕ) : List ℕ → Type 0 where
  after : (s text : List ℕ) → AllFit c s → StartsWith re text → AfterFit c re (s ++ text)

AfterFit-cons :
    (c t : ℕ) (re ts : List ℕ) → fits c t ≡ true → AfterFit c re ts → AfterFit c re (t ∷ ts)
AfterFit-cons c t re _ f (after s text a h) = after (t ∷ s) text (cons t s f a) h

AfterFit-repeats : (c : ℕ) (re text : List ℕ) → AfterFit c re text → StartsWith (c ∷ star ∷ re) text
AfterFit-repeats c re _ (after s _ a (starts u v d)) =
    subst (StartsWith (c ∷ star ∷ re)) (append_assoc s u v)
      (starts (s ++ u) v (repeats c re s u v a d))

matchstar-AfterFit :
    (c : ℕ) (re text : List ℕ)
    → ((w : List ℕ) → matchhere re w ≡ true → StartsWith re w)
    → matchstar (matchhere re) c text ≡ true
    → AfterFit c re text
unfolding matchstar
matchstar-AfterFit c re [] sound h = after [] [] nil (sound [] h)
matchstar-AfterFit c re (t ∷ ts) sound h = elim (or-cases _ _ h) [
  | inl e ↦ after [] (t ∷ ts) nil (sound (t ∷ ts) e)
  | inr e ↦
      let b = and-both _ _ e in
      AfterFit-cons c t re ts (sym (star_fits c t) ∙ b.0) (matchstar-AfterFit c re ts sound (b.1))
]

StartsWith-one :
    (c t : ℕ) (re ts : List ℕ)
    → Plain c re
    → fits c t ≡ true
    → StartsWith re ts
    → StartsWith (c ∷ re) (t ∷ ts)
StartsWith-one c t re _ p f (starts u v d) = starts (t ∷ u) v (one c t re u v p f d)

matchone-StartsWith :
    (c : ℕ) (re text : List ℕ)
    → ((w : List ℕ) → matchhere re w ≡ true → StartsWith re w)
    → Plain c re
    → matchone (matchhere re) c text ≡ true
    → StartsWith (c ∷ re) text
unfolding matchone
matchone-StartsWith c re [] sound p h = absurd (let e = h in cc)
matchone-StartsWith c re (t ∷ ts) sound p h =
    let b = and-both _ _ h in StartsWith-one c t re ts p (b.0) (sound ts (b.1))

at_end-StartsWith :
    (c : ℕ) (text : List ℕ) → c ≡ dollar → at_end text ≡ true → StartsWith (c ∷ []) text
unfolding at_end
at_end-StartsWith c [] e h = subst (λ (x : ℕ). StartsWith (x ∷ []) []) (sym e) (starts [] [] ends)
at_end-StartsWith c (t ∷ ts) e h = absurd (let q = h in cc)

matchhere-StartsWith : (re text : List ℕ) → matchhere re text ≡ true → StartsWith re text
unfolding matchhere
matchhere-StartsWith [] text h = starts [] text (done text)
matchhere-StartsWith (c ∷ []) text h = elim (Bool-cases (c == dollar)) [
  | inl e ↦ at_end-StartsWith c text (==→≡ c dollar e) (rw (matchhere, e) at h)
  | inr e ↦
      matchone-StartsWith c [] text (matchhere-StartsWith []) (last c (==→≢ c dollar e))
        (rw (matchhere, e) at h)
]
matchhere-StartsWith (c ∷ d ∷ re) text h = elim (Bool-cases (d == star)) [
  | inl e ↦
      subst (λ (x : ℕ). StartsWith (c ∷ x ∷ re) text) (sym (==→≡ d star e))
        (AfterFit-repeats c re text
          (matchstar-AfterFit c re text (matchhere-StartsWith re) (rw (matchhere, e) at h)))
  | inr e ↦
      matchone-StartsWith c (d ∷ re) text (matchhere-StartsWith (d ∷ re))
        (inside c d re (==→≢ d star e)) (rw (matchhere, e) at h)
]

StartsWith-matchhere : (re text : List ℕ) → StartsWith re text → matchhere re text ≡ true
StartsWith-matchhere re _ (starts u v d) = matchhere-Denotes re u v d

-- `matchhere` tests whether a string of the expression stands at the start of the text.
pub matchhere_iff : (re text : List ℕ) → (matchhere re text ≡ true) ↔ StartsWith re text
matchhere_iff re text = (matchhere-StartsWith re text, StartsWith-matchhere re text)

Contains-cons : (t : ℕ) (re ts : List ℕ) → Contains re ts → Contains re (t ∷ ts)
Contains-cons t re _ (within w text s) = within (t ∷ w) text s

match_loop-Contains : (re text : List ℕ) → match_loop re text ≡ true → Contains re text
unfolding match_loop
match_loop-Contains re [] h = within [] [] (matchhere-StartsWith re [] h)
match_loop-Contains re (t ∷ ts) h = elim (or-cases _ _ h) [
  | inl e ↦ within [] (t ∷ ts) (matchhere-StartsWith re (t ∷ ts) e)
  | inr e ↦ Contains-cons t re ts (match_loop-Contains re ts e)
]

match_loop-here : (re text : List ℕ) → matchhere re text ≡ true → match_loop re text ≡ true
unfolding match_loop
match_loop-here re [] h = h
match_loop-here re (t ∷ ts) h = rw (match_loop, h) refl

match_loop-later :
    (re w text : List ℕ) → matchhere re text ≡ true → match_loop re (w ++ text) ≡ true
unfolding match_loop
match_loop-later re [] text h = match_loop-here re text h
match_loop-later re (t ∷ w) text h =
    rw (match_loop, match_loop-later re w text h) (or_true (matchhere re (t ∷ w ++ text)))

Contains-match_loop : (re text : List ℕ) → Contains re text → match_loop re text ≡ true
Contains-match_loop re _ (within w text s) =
    match_loop-later re w text (StartsWith-matchhere re text s)

match_loop_iff : (re text : List ℕ) → (match_loop re text ≡ true) ↔ Contains re text
match_loop_iff re text = (match_loop-Contains re text, Contains-match_loop re text)

-- The texts that an expression matches: with `^` in front its strings stand at the start, and else
-- anywhere.
unfoldable pub Matches : List ℕ → List ℕ → Type 0
Matches [] text = Contains [] text
Matches (c ∷ re) text = elim (c == caret) [
  | true ↦ StartsWith re text
  | false ↦ Contains (c ∷ re) text
]

-- `match` answers 1 exactly where a string that the expression stands for is in the text: at the start
-- of the text if the expression begins with `^`, and before the end if it ends with `$`; where a
-- character followed by `*` stands for any number of it, a dot for any character, and all else for
-- itself.
pub match_text_iff : (re text : List ℕ) → (match_text re text ≡ true) ↔ Matches re text
unfolding match_text Matches
match_text_iff [] text = match_loop_iff [] text
match_text_iff (c ∷ re) text = elim (Bool-cases (c == caret)) [
  | inl e ↦ rw (match_text, Matches, e) (matchhere_iff re text)
  | inr e ↦ rw (match_text, Matches, e) (match_loop_iff (c ∷ re) text)
]
