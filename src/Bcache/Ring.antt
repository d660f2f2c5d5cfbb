-- ===== src/Bcache/Ring.antt =====
-- The list of bio.c as a ring through its head: taking a buffer out and putting one in front.
use mathlib.Core.Path.{subst}
use mathlib.Core.List.Memᴰ
use mathlib.Core.List.{Memᴰ, append-nil}
use compiling_to_assembly.Prelude.{
  ℕ, ◌≡◌, ◌≢◌, refl, sym, ◌∙◌, ◌⊎◌, inl, inr, true, List, [], ◌∷◌, ◌++◌, arith, ◌==◌, update, ≢→==,
}
use compiling_to_assembly.Bcache.{Bcache, head, push_front, unlink}

-- From `a` over the buffers `xs` to `b`, along `next` and back along `prev`.
pub data Segment (next prev : ℕ → ℕ) : ℕ → List ℕ → ℕ → Type 0 where
  link : (a b : ℕ) → next a ≡ b → prev b ≡ a → Segment next prev a [] b
  step :
      (a x b : ℕ) (xs : List ℕ)
      → next a ≡ x
      → prev x ≡ a
      → Segment next prev x xs b
      → Segment next prev a (x ∷ xs) b

pub data Distinct : List ℕ → Type 0 where
  none : Distinct []
  cons : (x : ℕ) (xs : List ℕ) → (Memᴰ x xs → ⊥) → Distinct xs → Distinct (x ∷ xs)

update_same : (f : ℕ → ℕ) (i v : ℕ) → update f i v i ≡ v
update_same f i v = let e : (i == i) ≡ true = ground arith in rw e

update_other : (f : ℕ → ℕ) (i v j : ℕ) → i ≢ j → update f i v j ≡ f j
update_other f i v j n = rw (≢→== i j n)

-- A segment whose links do not change.
keep-Segment :
    (n p n' p' : ℕ → ℕ) (a b : ℕ) (xs : List ℕ)
    → ((x : ℕ) → Memᴰ x (a ∷ xs) → n' x ≡ n x)
    → ((x : ℕ) → (Memᴰ x xs ⊎ (x ≡ b)) → p' x ≡ p x)
    → Segment n p a xs b
    → Segment n' p' a xs b
keep-Segment n p n' p' a b _ f g (link _ _ e h) =
    link a b (f a (Memᴰ.head refl) ∙ e) (g b (inr refl) ∙ h)
keep-Segment n p n' p' a b _ f g (step _ x _ xs e h s) =
    step a x b xs (f a (Memᴰ.head refl) ∙ e) (g x (inl (Memᴰ.head refl)) ∙ h) (
      keep-Segment n p n' p' x b xs (λ y m. f y (Memᴰ.tail m))
        (λ y m. g y (elim m [ inl l ↦ inl (Memᴰ.tail l) | inr r ↦ inr r ])) s)

-- The end of a segment is preceded by its start or one of its buffers.
prev_mem : (n p : ℕ → ℕ) (a b : ℕ) (xs : List ℕ) → Segment n p a xs b → Memᴰ (p b) (a ∷ xs)
prev_mem n p a b _ (link _ _ e h) = Memᴰ.head h
prev_mem n p a b _ (step _ x _ xs e h s) = Memᴰ.tail (prev_mem n p x b xs s)

-- A segment may end at `r` in place of `b`, which is cut off.
end_at :
    (n p : ℕ → ℕ) (a b r : ℕ) (us : List ℕ)
    → Distinct (a ∷ us)
    → (Memᴰ r us → ⊥)
    → Segment n p a us b
    → Segment (update n (p b) r) (update p r (p b)) a us r
end_at n p a b r _ d f (link _ _ e h) = rw h (link a r (update_same n a r) (update_same p r a))
end_at n p a b r _ (cons _ _ out d) f (step _ x _ xs e h s) =
    step a x r xs
      (update_other n (p b) r a (λ q. out (Memᴰ.cast (sym q) (prev_mem n p x b xs s))) ∙ e)
      (update_other p r (p b) x (λ q. f (Memᴰ.head q)) ∙ h)
      (end_at n p x b r xs d (λ m. f (Memᴰ.tail m)) s)

-- What a list keeps when an element is taken out.
without_mem : (y b : ℕ) (us vs : List ℕ) → Memᴰ y (us ++ vs) → Memᴰ y (us ++ b ∷ vs)
without_mem y b [] vs m = Memᴰ.tail m
without_mem y b (u ∷ us) vs m = elim (Memᴰ.cases_cons m) [
  | inl e ↦ Memᴰ.head e
  | inr m' ↦ Memᴰ.tail (without_mem y b us vs m')
]

pub without-Distinct :
    (b : ℕ) (us vs : List ℕ)
    → Distinct (us ++ b ∷ vs)
    → Distinct (us ++ vs) × (Memᴰ b (us ++ vs) → ⊥)
without-Distinct b [] vs (cons _ _ out d) = (d, out)
without-Distinct b (u ∷ us) vs (cons _ _ out d) =
    let w = without-Distinct b us vs d in
    (
      cons u (us ++ vs) (λ m. out (without_mem u b us vs m)) (w.0),
      λ m. elim (Memᴰ.cases_cons m) [
        | inl e ↦ out (Memᴰ.append_right us (Memᴰ.head (sym e)))
        | inr m' ↦ w.1 m'
      ],
    )

front-Distinct : (us vs : List ℕ) → Distinct (us ++ vs) → Distinct us
front-Distinct [] vs d = none
front-Distinct (u ∷ us) vs (cons _ _ out d) =
    cons u us (λ m. out (Memᴰ.append_left vs m)) (front-Distinct us vs d)

first_out : (x : ℕ) (xs : List ℕ) → Distinct (x ∷ xs) → Memᴰ x xs → ⊥
first_out x xs (cons _ _ out d) = out

back-Distinct : (us vs : List ℕ) → Distinct (us ++ vs) → Distinct vs
back-Distinct [] vs d = d
back-Distinct (u ∷ us) vs (cons _ _ out d) = back-Distinct us vs d

-- Elements on both sides differ.
apart : (x y : ℕ) (us vs : List ℕ) → Distinct (us ++ vs) → Memᴰ x us → Memᴰ y vs → x ≢ y
apart x y [] vs d m n = absurd (Memᴰ.not-nil m)
apart x y (u ∷ us) vs (cons _ _ out d) m n = elim (Memᴰ.cases_cons m) [
  | inl e ↦ λ q. out (Memᴰ.append_right us (Memᴰ.cast (sym e ∙ q) n))
  | inr m' ↦ apart x y us vs d m' n
]

split-Segment :
    (n p : ℕ → ℕ) (a b c : ℕ) (us vs : List ℕ)
    → Segment n p a (us ++ b ∷ vs) c
    → Segment n p a us b × Segment n p b vs c
split-Segment n p a b c [] vs (step _ _ _ _ e h s) = (link a b e h, s)
split-Segment n p a b c (u ∷ us) vs (step _ _ _ _ e h s) =
    let w = split-Segment n p u b c us vs s in (step a u b us e h (w.0), w.1)

join-Segment :
    (n p : ℕ → ℕ) (a b c : ℕ) (us vs : List ℕ)
    → Segment n p a us b
    → Segment n p b vs c
    → Segment n p a (us ++ b ∷ vs) c
join-Segment n p a b c _ vs (link _ _ e h) s = step a b c vs e h s
join-Segment n p a b c _ vs (step _ x _ xs e h r) s =
    step a x c (xs ++ b ∷ vs) e h (join-Segment n p x b c xs vs r s)

-- The ring without `b`.
cut :
    (n p : ℕ → ℕ) (h b : ℕ) (us vs : List ℕ)
    → Distinct (h ∷ us ++ b ∷ vs)
    → Segment n p h us b
    → Segment n p b vs h
    → Segment (update n (p b) (n b)) (update p (n b) (p b)) h (us ++ vs) h
cut n p h b us _ (cons _ _ out d) left (link _ _ e f) =
    rw (append-nil us, e)
      (end_at n p h b h us (cons h us (λ m. out (Memᴰ.append_left _ m)) (front-Distinct us _ d))
        (λ m. out (Memᴰ.append_left _ m)) left)
cut n p h b us _ (cons _ _ out d) left (step _ y _ ys e f right) =
    let all : Distinct ((h ∷ us) ++ b ∷ y ∷ ys) = cons h _ out d in
    let y_in : Memᴰ y (b ∷ y ∷ ys) = Memᴰ.tail (Memᴰ.head refl) in
    let y_head : y ≢ h = λ q. apart h y (h ∷ us) (b ∷ y ∷ ys) all (Memᴰ.head refl) y_in (sym q) in
    let y_out : Memᴰ y ys → ⊥ = elim (back-Distinct us (b ∷ y ∷ ys) d) [
      | cons _ _ _ later ↦ first_out y ys later
    ] in
    rw e (
      join-Segment _ _ h y h us ys
        (end_at n p h b y us (front-Distinct (h ∷ us) _ all)
          (λ m. apart y y us (b ∷ y ∷ ys) d m y_in refl) left)
        (keep-Segment n p _ _ y h ys
          (λ x m.
            update_other n (p b) y x
              (apart (p b) x (h ∷ us) (b ∷ y ∷ ys) all (prev_mem n p h b us left) (Memᴰ.tail m)))
          (λ x m.
            update_other p y (p b) x
              (elim m [ inl l ↦ (λ q. y_out (Memᴰ.cast q l)) | inr r ↦ (λ q. y_head (q ∙ r)) ]))
          right))

-- The buffers of the list, from the most recently used one.
pub record IsRing (s : Bcache) (xs : List ℕ) : Type 0 where
  pub links : Segment (s.next) (s.prev) head xs head
  pub distinct : Distinct (head ∷ xs)

next_apart :
    (n p : ℕ → ℕ) (b c : ℕ) (vs : List ℕ) → Segment n p b vs c → (Memᴰ b vs → ⊥) → c ≢ b → n b ≢ b
next_apart n p b c _ (link _ _ e f) out ne = λ q. ne (sym e ∙ q)
next_apart n p b c _ (step _ y _ ys e f s) out ne = λ q. out (Memᴰ.head (sym q ∙ e))

pub unlink-IsRing :
    (s : Bcache) (b : ℕ) (us vs : List ℕ)
    → IsRing s (us ++ b ∷ vs)
    → IsRing (unlink b s) (us ++ vs) × (Memᴰ b (head ∷ us ++ vs) → ⊥)
unfolding unlink
unlink-IsRing s b us vs r =
    let w = without-Distinct b (head ∷ us) vs (r.distinct) in
    let g = split-Segment (s.next) (s.prev) head b head us vs (r.links) in
    let next_ne : s.next b ≢ b =
      next_apart (s.next) (s.prev) b head vs (g.1)
        (λ m. first_out b vs (back-Distinct (head ∷ us) (b ∷ vs) (r.distinct)) m)
        (λ e. w.1 (Memᴰ.head (sym e))) in
    let p_same : update (s.prev) (s.next b) (s.prev b) b ≡ s.prev b =
      update_other (s.prev) (s.next b) (s.prev b) b next_ne in
    (
      record {
        links =
            subst
              (λ (q : ℕ).
                Segment (update (s.next) q (s.next b)) (update (s.prev) (s.next b) (s.prev b)) head
                  (us ++ vs) head)
              (sym p_same) (cut (s.next) (s.prev) head b us vs (r.distinct) (g.0) (g.1));
        distinct = w.0;
      },
      w.1,
    )

update_at : (f : ℕ → ℕ) (i v j : ℕ) → i ≡ j → update f i v j ≡ v
update_at f i v j e = let t : (i == j) ≡ true = ground arith in rw t

-- A ring with a buffer put in front.
module _ (n p : ℕ → ℕ) (b h : ℕ) where
  new_first :
      (xs : List ℕ)
      → (Memᴰ b (h ∷ xs) → ⊥)
      → Distinct (h ∷ xs)
      → Segment n p h xs h
      → Segment (update (update n b (n h)) h b) (update (update p b h) (n h) b) h (b ∷ xs) h
  new_first _ out d (link _ _ e f) =
      let hb : h ≢ b = λ q. out (Memᴰ.head (sym q)) in
      step h b h [] (update_same (update n b (n h)) h b)
        (update_other (update p b h) (n h) b b (λ q. hb (sym e ∙ q)) ∙ update_same p b h)
        (link b h (update_other (update n b (n h)) h b b hb ∙ update_same n b (n h) ∙ e)
          (update_at (update p b h) (n h) b h e))
  new_first _ out (cons _ _ h_out (cons _ _ y_out d)) (step _ y _ ys e f s) =
      let hb : h ≢ b = λ q. out (Memᴰ.head (sym q)) in
      let yb : n h ≢ b = λ q. out (Memᴰ.tail (Memᴰ.head (sym q ∙ e))) in
      step h b h (y ∷ ys) (update_same (update n b (n h)) h b)
        (update_other (update p b h) (n h) b b yb ∙ update_same p b h)
        (step b y h ys (update_other (update n b (n h)) h b b hb ∙ update_same n b (n h) ∙ e)
          (update_at (update p b h) (n h) b y e)
          (keep-Segment n p _ _ y h ys
            (λ x m.
              update_other (update n b (n h)) h b x (λ q. h_out (Memᴰ.cast q m))
              ∙ update_other n b (n h) x (λ q. out (Memᴰ.tail (Memᴰ.cast q m))))
            (λ x m.
              update_other (update p b h) (n h) b x (elim m [
                | inl l ↦ (λ q. y_out (Memᴰ.cast (sym e ∙ q) l))
                | inr r ↦ (λ q. h_out (Memᴰ.head (sym r ∙ sym q ∙ e)))
              ])
              ∙ update_other p b h x (elim m [
                | inl l ↦ (λ q. out (Memᴰ.tail (Memᴰ.tail (Memᴰ.cast q l))))
                | inr r ↦ (λ q. out (Memᴰ.head (q ∙ r)))
              ]))
            s))

front_cons :
    (b : ℕ) (xs : List ℕ)
    → (Memᴰ b (head ∷ xs) → ⊥)
    → Distinct (head ∷ xs)
    → Distinct (head ∷ b ∷ xs)
front_cons b xs out (cons _ _ h d) =
    cons head (b ∷ xs)
      (λ m. elim (Memᴰ.cases_cons m) [ inl e ↦ out (Memᴰ.head (sym e)) | inr m' ↦ h m' ])
      (cons b xs (λ m. out (Memᴰ.tail m)) d)

pub push_front-IsRing :
    (s : Bcache) (b : ℕ) (xs : List ℕ)
    → (Memᴰ b (head ∷ xs) → ⊥)
    → IsRing s xs
    → IsRing (push_front b s) (b ∷ xs)
unfolding push_front
push_front-IsRing s b xs out r = record {
  links =
      subst
        (λ (q : ℕ).
          Segment (update (update (s.next) b (s.next head)) head b)
            (update (update (s.prev) b head) q b) head (b ∷ xs) head)
        (sym (update_other (s.next) b (s.next head) head (λ q. out (Memᴰ.head q))))
        (new_first (s.next) (s.prev) b head xs out (r.distinct) (r.links));
  distinct = front_cons b xs out (r.distinct);
}
