-- ===== src/Pipe/Stream.antt =====
-- A pipe over its life: any interleaving of writes and reads delivers the bytes in order, once each;
-- and who is woken when.
use mathlib.Core.List.{append_assoc}
use compiling_to_assembly.Prelude.{
  ℕ, zero, suc, ◌-◌, ◌≤◌, ◌<◌, ◌≡◌, ◌≢◌, refl, sym, ap, ◌∙◌, inl, inr, Bool, true, false, ◌||◌, not,
  List, [], ◌∷◌, ◌++◌, arith, length, take, drop, Bool-cases,
}
use compiling_to_assembly.Pipe.{
  pipe_size, Pipe, readers, WriteEnd, broken, is_full, put, pipewrite, ReadEnd, got, piperead,
  pipeclose, init,
}
use compiling_to_assembly.Pipe.Contents.{len, IsValid, contents, length-contents, init-IsValid}
use compiling_to_assembly.Pipe.Refine.{
  leftover, queue_write, queue_read, pipewrite_refines, piperead_refines,
}

-- the bytes that a read delivers
abbrev pub delivered : ReadEnd → List ℕ
delivered (got out) = out
delivered _ = []

-- the bytes that a write has put into the pipe when it ends: those that fit
abbrev pub accepted : Pipe → List ℕ → List ℕ
accepted p cs = take (pipe_size - len p) cs

-- A pipe with all bytes that went in and all that came out, oldest first.
pub record History : Type 0 where
  pub pipe : Pipe
  pub sent : List ℕ
  pub received : List ℕ

pub data Step (h : History) : History → Type 0 where
  writes :
      (killed : Bool) (cs : List ℕ)
      → Step h (record {
        pipe = (pipewrite killed (h.pipe) cs).pipe;
        sent = h.sent ++ accepted (h.pipe) cs;
        received = h.received;
      })
  reads :
      (killed : Bool) (n : ℕ)
      → Step h (record {
        pipe = (piperead killed (h.pipe) n).pipe;
        sent = h.sent;
        received = h.received ++ delivered ((piperead killed (h.pipe) n).result);
      })
  closes : (writable : Bool) → Step h (record h { pipe = (pipeclose (h.pipe) writable).pipe })

pub data Reach : History → Type 0 where
  opens : (page : ℕ → ℕ) → Reach (record { pipe = init page; sent = []; received = [] })
  next : {h k : History} → Reach h → Step h k → Reach k

record InOrder (h : History) : Type 0 where
  valid : IsValid (h.pipe)
  flow : h.received ++ contents (h.pipe) ≡ h.sent

take-append-drop : (n : ℕ) (xs : List ℕ) → take n xs ++ drop n xs ≡ xs
take-append-drop zero xs = refl
take-append-drop (suc n) [] = refl
take-append-drop (suc n) (x ∷ xs) = ap (◌∷◌ x) (take-append-drop n xs)

-- What a write leaves in the pipe: what was there, then the bytes that fit.
contents-pipewrite :
    (killed : Bool) (p : Pipe) (cs : List ℕ)
    → IsValid p
    → contents ((pipewrite killed p cs).pipe) ≡ contents p ++ accepted p cs
unfolding queue_write
contents-pipewrite killed p cs v =
    ap (λ (r : List ℕ × WriteEnd). r.0) ((pipewrite_refines killed p cs v).1)
    ∙ ap (λ n. contents p ++ take (pipe_size - n) cs) (length-contents p)

-- What a read delivers was the oldest part of the pipe.
queue_read-append :
    (killed writeopen : Bool) (q : List ℕ) (n : ℕ)
    → delivered (queue_read killed writeopen q n).1 ++ (queue_read killed writeopen q n).0 ≡ q
unfolding queue_read
queue_read-append true true [] n = refl
queue_read-append false true [] n = refl
queue_read-append killed false [] n = refl
queue_read-append killed w (c ∷ q) n = take-append-drop n (c ∷ q)

contents-piperead :
    (killed : Bool) (p : Pipe) (n : ℕ)
    → IsValid p
    → delivered ((piperead killed p n).result) ++ contents ((piperead killed p n).pipe) ≡ contents p
contents-piperead killed p n v =
    ap (λ (r : List ℕ × ReadEnd). delivered (r.1) ++ r.0) ((piperead_refines killed p n v).1)
    ∙ queue_read-append killed (p.writeopen) (contents p) n

closed-same :
    (p : Pipe) (w : Bool)
    → IsValid p
    → IsValid ((pipeclose p w).pipe) × (contents ((pipeclose p w).pipe) ≡ contents p)
unfolding pipeclose
closed-same p true v = (omega arith, refl)
closed-same p false v = (omega arith, refl)

Step-InOrder : {h k : History} → Step h k → InOrder h → InOrder k
Step-InOrder {h} (writes killed cs) i = record {
  valid = (pipewrite_refines killed (h.pipe) cs (i.valid)).0;
  flow =
      ap (λ q. h.received ++ q) (contents-pipewrite killed (h.pipe) cs (i.valid))
      ∙ sym (append_assoc (h.received) (contents (h.pipe)) (accepted (h.pipe) cs))
      ∙ ap (λ q. q ++ accepted (h.pipe) cs) (i.flow);
}
Step-InOrder {h} (reads killed n) i = record {
  valid = (piperead_refines killed (h.pipe) n (i.valid)).0;
  flow =
      append_assoc (h.received) _ _
      ∙ ap (λ q. h.received ++ q) (contents-piperead killed (h.pipe) n (i.valid))
      ∙ i.flow;
}
Step-InOrder {h} (closes w) i = record {
  valid = (closed-same (h.pipe) w (i.valid)).0;
  flow = ap (λ q. h.received ++ q) ((closed-same (h.pipe) w (i.valid)).1) ∙ i.flow;
}

Reach-InOrder : {h : History} → Reach h → InOrder h
Reach-InOrder (opens page) = record { valid = (init-IsValid page).0; flow = (init-IsValid page).1 }
Reach-InOrder (next r s) = Step-InOrder s (Reach-InOrder r)

-- Whatever the order of writes, reads and closes, and however often the counters wrap: the bytes
-- received, followed by those in the pipe, are the bytes sent; and the pipe holds at most
-- `pipe_size` bytes.
pub received-append-contents :
    {h : History}
    → Reach h
    → (h.received ++ contents (h.pipe) ≡ h.sent) × (length (contents (h.pipe)) ≤ pipe_size)
received-append-contents {h} r =
    let i = Reach-InOrder r in (i.flow, omega (arith, length-contents (h.pipe), i.valid.in_ring))

-- A write that ends well or goes to sleep wakes the readers; one that ends in an error wakes nobody.
pub pipewrite_wakes :
    (killed : Bool) (p : Pipe) (cs : List ℕ)
    → ((pipewrite killed p cs).result ≢ broken → (pipewrite killed p cs).wakes ≡ readers ∷ [])
      × ((pipewrite killed p cs).result ≡ broken → (pipewrite killed p cs).wakes ≡ [])
unfolding pipewrite
pipewrite_wakes killed p [] = (λ h. refl, λ h. absurd (cc))
pipewrite_wakes killed p (c ∷ cs) = elim (Bool-cases (is_full p)) [
  | inl full ↦ elim (Bool-cases (not (p.readopen) || killed)) [
    | inl gone ↦ rw (full, gone) (λ h. absurd (h refl), λ h. refl)
    | inr stay ↦ rw (full, stay) (λ h. refl, λ h. absurd (cc))
  ]
  | inr room ↦ rw room (pipewrite_wakes killed (put p c) cs)
]

leftover-drop :
    (gone : Bool) (n : ℕ) (xs : List ℕ)
    → gone ≡ true
    → n < length xs
    → leftover gone (drop n xs) ≡ broken
leftover-drop gone n [] e h = absurd (omega arith)
leftover-drop gone zero (x ∷ xs) e h = rw e
leftover-drop gone (suc n) (x ∷ xs) e h = leftover-drop gone n xs e (omega arith)

or-true : (b : Bool) → (b || true) ≡ true
or-true true = refl
or-true false = refl

-- A killed writer with more bytes than fit fills the pipe and returns with an error, and no reader
-- is woken, though a reader that sleeps on an empty pipe now has bytes to read.
pub pipewrite_killed_silent :
    (p : Pipe) (cs : List ℕ)
    → IsValid p
    → pipe_size - len p < length cs
    → ((pipewrite true p cs).result ≡ broken)
      × ((pipewrite true p cs).wakes ≡ [])
      × (contents ((pipewrite true p cs).pipe) ≡ contents p ++ accepted p cs)
unfolding queue_write
pipewrite_killed_silent p cs v h =
    (broke, (pipewrite_wakes true p cs).1 broke, contents-pipewrite true p cs v)
  where
    broke : (pipewrite true p cs).result ≡ broken
    broke =
        ap (λ (r : List ℕ × WriteEnd). r.1) ((pipewrite_refines true p cs v).1)
        ∙ leftover-drop (not (p.readopen) || true) (pipe_size - length (contents p)) cs
            (or-true (not (p.readopen))) (omega (arith, length-contents p))
