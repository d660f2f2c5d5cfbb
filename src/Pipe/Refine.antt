-- ===== src/Pipe/Refine.antt =====
-- A pipe against a bounded queue of bytes, oldest first.
use compiling_to_assembly.Prelude.{
  ℕ, zero, suc, ◌-◌, ◌%◌, ◌<◌, ◌≡◌, refl, sym, ap, ◌∙◌, inl, inr, Bool, true, false, ◌&&◌, ◌||◌,
  not, List, [], ◌∷◌, ◌++◌, arith, if◌then◌else◌, length, take, drop, Bool-cases, length-append,
}
use mathlib.Core.Path.{ap₂}
use mathlib.Core.List.{append-nil, append_assoc}
use compiling_to_assembly.Pipe.{
  pipe_size, Pipe, WriteEnd, wrote, broken, asleep, pipewrite, ReadEnd, got, interrupted, waiting,
  piperead, copy_out, put, is_full, is_empty,
}
use compiling_to_assembly.Pipe.Contents.{
  len, IsValid, contents, length-contents, is_full_lem, is_empty_lem, contents-put, put-IsValid,
  advance, advance-IsValid,
}

-- How a write stands with `rest` left over: it waits, unless nobody reads or the writer is killed.
abbrev pub leftover : Bool → List ℕ → WriteEnd
leftover gone [] = wrote
leftover gone (c ∷ rest) = if gone then broken else asleep (c ∷ rest)

-- The queue takes the bytes that fit.
unfoldable pub queue_write : Bool → Bool → List ℕ → List ℕ → List ℕ × WriteEnd
queue_write killed readopen q cs =
    let room = pipe_size - length q in
    (q ++ take room cs, leftover (not readopen || killed) (drop room cs))

-- The queue gives its oldest bytes. It waits only while it is empty and somebody may write.
unfoldable pub queue_read : Bool → Bool → List ℕ → ℕ → List ℕ × ReadEnd
queue_read killed writeopen [] n =
    if writeopen then ([], if killed then interrupted else waiting) else ([], got [])
queue_read killed writeopen (c ∷ q) n = (drop n (c ∷ q), got (take n (c ∷ q)))

take-nil : (n : ℕ) → take {A = ℕ} n [] ≡ []
take-nil zero = refl
take-nil (suc n) = refl

drop-nil : (n : ℕ) → drop {A = ℕ} n [] ≡ []
drop-nil zero = refl
drop-nil (suc n) = refl

eq_nil : (xs : List ℕ) → length xs ≡ 0 → xs ≡ []
eq_nil [] h = refl
eq_nil (x ∷ xs) h = absurd (omega arith)

module _ (killed readopen : Bool) where
  queue_write-nil : (q : List ℕ) → queue_write killed readopen q [] ≡ (q, wrote)
  unfolding queue_write
  queue_write-nil q =
      rw (take-nil (pipe_size - length q), drop-nil (pipe_size - length q), append-nil)

  queue_write-room :
      (q : List ℕ) (c : ℕ) (cs : List ℕ)
      → length q < pipe_size
      → queue_write killed readopen q (c ∷ cs) ≡ queue_write killed readopen (q ++ (c ∷ [])) cs
  unfolding queue_write
  queue_write-room q c cs h =
      let e : pipe_size - length q ≡ suc (pipe_size - length (q ++ (c ∷ []))) =
        omega (arith, length-append q (c ∷ [])) in
      rw (e, append_assoc)

  queue_write-full :
      (q : List ℕ) (c : ℕ) (cs : List ℕ)
      → length q ≡ pipe_size
      → queue_write killed readopen q (c ∷ cs)
        ≡ (q, if not readopen || killed then broken else asleep (c ∷ cs))
  unfolding queue_write
  queue_write-full q c cs h = let e : pipe_size - length q ≡ 0 = omega arith in rw (e, append-nil)

-- `pipewrite` leaves a valid pipe that holds what the queue holds, and ends as the queue's write
-- does: with all bytes written, broken, or asleep with the bytes that did not fit.
pub pipewrite_refines :
    (killed : Bool) (p : Pipe) (cs : List ℕ)
    → IsValid p
    → IsValid ((pipewrite killed p cs).pipe)
      × ((contents ((pipewrite killed p cs).pipe), (pipewrite killed p cs).result)
          ≡ queue_write killed (p.readopen) (contents p) cs)
unfolding pipewrite
pipewrite_refines killed p [] v = (v, sym (queue_write-nil killed (p.readopen) (contents p)))
pipewrite_refines killed p (c ∷ cs) v = elim (Bool-cases (is_full p)) [
  | inl full ↦
      let h : length (contents p) ≡ pipe_size =
        ground (arith, is_full_lem p v, length-contents p) in
      elim (Bool-cases (not (p.readopen) || killed)) [
        | inl gone ↦
            rw (full, gone) (v, rw (queue_write-full killed (p.readopen) (contents p) c cs h, gone))
        | inr stay ↦
            rw (full, stay) (v, rw (queue_write-full killed (p.readopen) (contents p) c cs h, stay))
      ]
  | inr room ↦
      let h : len p < pipe_size = ground (arith, is_full_lem p v) in
      let ih = pipewrite_refines killed (put p c) cs (put-IsValid p c v h).0 in
      rw room (
        ih.0,
        ih.1
            ∙ ap (λ q. queue_write killed (p.readopen) q cs) (contents-put p c v h)
            ∙ sym (
                queue_write-room killed (p.readopen) (contents p) c cs
                  (omega (arith, length-contents p))),
      )
]

copy_out-queue :
    (p : Pipe) (n : ℕ)
    → IsValid p
    → IsValid (copy_out p n).0
      × (contents (copy_out p n).0 ≡ drop n (contents p))
      × ((copy_out p n).1 ≡ take n (contents p))
unfolding copy_out
copy_out-queue p zero v = (v, refl, refl)
copy_out-queue p (suc n) v = elim (Bool-cases (is_empty p)) [
  | inl e ↦
      let z : len p ≡ 0 = ground (arith, is_empty_lem p v) in
      let nil : contents p ≡ [] = eq_nil (contents p) (omega (arith, length-contents p)) in
      rw (e, copy_out) (v, rw nil, rw nil)
  | inr ne ↦
      let h : 0 < len p = ground (arith, is_empty_lem p v) in
      let (v', e) = advance-IsValid p v h in
      let ih = copy_out-queue (advance p) n v' in
      rw (ne, copy_out) (rw e (ih.0, ih.1, ap (◌∷◌ (p.bytes (p.nread % pipe_size))) (ih.2)))
]

module _ (killed : Bool) (n : ℕ) where
  queue_read-cons :
      (writeopen : Bool) (q : List ℕ)
      → 0 < length q
      → queue_read killed writeopen q n ≡ (drop n q, got (take n q))
  unfolding queue_read
  queue_read-cons writeopen [] h = absurd (omega arith)
  queue_read-cons writeopen (c ∷ q) h = refl

  piperead-copies :
      (p : Pipe)
      → IsValid p
      → (is_empty p && p.writeopen) ≡ false
      → IsValid ((piperead killed p n).pipe)
        × ◌≡◌ {A = List ℕ × ReadEnd}
            (contents ((piperead killed p n).pipe), (piperead killed p n).result)
            (drop n (contents p), got (take n (contents p)))
  unfolding piperead
  piperead-copies p v e =
      let c = copy_out-queue p n v in rw e (c.0, ap₂ (λ q out. (q, got out)) (c.1) (c.2))

piperead-waits :
    (killed : Bool) (p : Pipe) (n : ℕ)
    → IsValid p
    → (is_empty p && p.writeopen) ≡ true
    → IsValid ((piperead killed p n).pipe)
      × ◌≡◌ {A = List ℕ × ReadEnd}
          (contents ((piperead killed p n).pipe), (piperead killed p n).result)
          (contents p, if killed then interrupted else waiting)
unfolding piperead
piperead-waits true p n v e = rw e (v, refl)
piperead-waits false p n v e = rw e (v, refl)

-- `piperead` leaves a valid pipe that holds what the queue holds, and ends as the queue's read does:
-- with the oldest bytes, or, while it is empty and writable, interrupted or waiting.
pub piperead_refines :
    (killed : Bool) (p : Pipe) (n : ℕ)
    → IsValid p
    → IsValid ((piperead killed p n).pipe)
      × ((contents ((piperead killed p n).pipe), (piperead killed p n).result)
          ≡ queue_read killed (p.writeopen) (contents p) n)
unfolding piperead queue_read
piperead_refines killed p n v = elim (Bool-cases (is_empty p)) [
  | inr ne ↦
      let c = piperead-copies killed n p v (rw ne) in
      (
        c.0,
        c.1
            ∙ sym (
                queue_read-cons killed n (p.writeopen) (contents p)
                  (ground (arith, is_empty_lem p v, length-contents p))),
      )
  | inl e ↦
      let nil : contents p ≡ [] =
        eq_nil (contents p) (ground (arith, is_empty_lem p v, length-contents p)) in
      elim (Bool-cases (p.writeopen)) [
        | inl open_end ↦
            let c = piperead-waits killed p n v (rw (e, open_end)) in
            (c.0, c.1 ∙ rw (nil, open_end))
        | inr shut_end ↦
            let c = piperead-copies killed n p v (rw (e, shut_end)) in
            (c.0, c.1 ∙ rw (nil, shut_end, take-nil n, drop-nil n))
      ]
]
