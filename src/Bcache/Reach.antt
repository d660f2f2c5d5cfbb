-- ===== src/Bcache/Reach.antt =====
-- The buffer cache of bio.c over any order of calls, from `binit` on.
use mathlib.Core.Path.{subst}
use mathlib.Core.List.Memᴰ
use mathlib.Core.List.{Memᴰ}
use compiling_to_assembly.Prelude.{
  ℕ, zero, suc, ◌+◌, ◌≤◌, ◌<◌, ◌^◌, ◌≡◌, ◌≢◌, refl, ap, sym, ◌∙◌, inl, inr, Bool, true, false,
  Option, none, some, some-injective, List, [], ◌∷◌, ◌++◌, arith, length, ◌==◌, update, Bool-cases,
  ==→≡, ==→≢,
}
use compiling_to_assembly.Proc.{Table}
use compiling_to_assembly.Sleeplock.{initsleeplock}
use compiling_to_assembly.Bcache.{
  Buf, Bcache, nbuf, head, push_front, init_loop, binit, buffer, bget, brelse,
}
use compiling_to_assembly.Bcache.Ring.{Segment, Distinct, IsRing, push_front-IsRing}
use compiling_to_assembly.Bcache.Get.{IsValid, Gets, bget-Gets, Gets-IsValid, same_block-IsValid}
use compiling_to_assembly.Bcache.Release.{order, Releases, brelse-Releases}

-- What the loop of `binit` makes of a ring of the buffers below `b`.
record Filled (s s' : Bcache) (b k : ℕ) (xs ys : List ℕ) : Type 0 where
  ring : IsRing s' ys
  count : length ys ≡ k + length xs
  members : (y : ℕ) → (Memᴰ y xs → Memᴰ y ys) × (b ≤ y → y < b + k → Memᴰ y ys)
  devs : (j : ℕ) → (s'.buf j).dev ≡ (s.buf j).dev

-- the buffer with a fresh lock
abbrev with_lock : Bcache → ℕ → Bcache
with_lock s b = record s { buf = update (s.buf) b (record (s.buf b) { lock = initsleeplock }) }

with_lock-dev : (s : Bcache) (b j : ℕ) → ((with_lock s b).buf j).dev ≡ (s.buf j).dev
with_lock-dev s b j = elim (Bool-cases (b == j)) [
  | inl e ↦ rw e (ap (λ i. (s.buf i).dev) (==→≡ b j e))
  | inr e ↦ rw e refl
]

init_loop-Filled :
    (k b : ℕ) (s : Bcache) (xs : List ℕ)
    → IsRing s xs
    → ((y : ℕ) → Memᴰ y xs → y < b)
    → b + k ≤ nbuf
    → (ys : List ℕ) × Filled s (init_loop k b s) b k xs ys
unfolding init_loop push_front
init_loop-Filled zero b s xs r below l = (
  xs,
  record {
    ring = r;
    count = omega arith;
    members = λ y. (λ m. m, λ p q. absurd (omega arith));
    devs = λ j. refl;
  },
)
init_loop-Filled (suc k) b s xs r below l =
    let s1 = with_lock s b in
    let out : Memᴰ b (head ∷ xs) → ⊥ = λ m. elim (Memᴰ.cases_cons m) [
      | inl e ↦ omega (arith, e, l)
      | inr m' ↦ (let q = below b m' in omega arith)
    ] in
    let r1 : IsRing s1 xs = record { links = r.links; distinct = r.distinct } in
    let w =
      init_loop-Filled k (b + 1) (push_front b s1) (b ∷ xs) (push_front-IsRing s1 b xs out r1)
        (λ y m. elim (Memᴰ.cases_cons m) [
          | inl e ↦ omega arith
          | inr m' ↦ (let q = below y m' in omega arith)
        ])
        (omega arith) in
    (
      w.0,
      record {
        ring = w.1.ring;
        count = (let q = w.1.count in omega arith);
        members = λ y. (
          λ m. (w.1.members y).0 (Memᴰ.tail m),
          λ p q. elim (Bool-cases (y == b)) [
            | inl e ↦ (w.1.members y).0 (Memᴰ.head (==→≡ y b e))
            | inr e ↦ (let ne = ==→≢ y b e in (w.1.members y).1 (omega arith) (omega arith))
          ],
        );
        devs = λ j. w.1.devs j ∙ with_lock-dev s b j;
      },
    )

-- The memory of the cache at boot is 0.
binit-IsValid : (s : Bcache) → ((j : ℕ) → (s.buf j).dev ≡ 0) → (xs : List ℕ) × IsValid (binit s) xs
unfolding binit
binit-IsValid s z =
    let s0 = record s { next = update (s.next) head head; prev = update (s.prev) head head } in
    let w =
      init_loop-Filled nbuf 0 s0 []
        (record {
          links = Segment.link head head refl refl;
          distinct = Distinct.cons head [] Memᴰ.not-nil Distinct.none;
        })
        (λ y m. absurd (Memᴰ.not-nil m)) (omega arith) in
    (
      w.0,
      record {
        ring = w.1.ring;
        whole = w.1.count;
        members = λ b l. (w.1.members b).1 (omega arith) (omega arith);
        unique = λ j k p q n e f. absurd (n (w.1.devs j ∙ z j));
      },
    )

-- The caches that calls lead to, in any order, from the one that `binit` makes of memory that is 0. Who
-- calls `brelse` has a reference, and there are less than 2 ^ 32. A change of a buffer that keeps its
-- block and its count is one by its holder, the log or the driver.
pub data Reach (addr : ℕ → ℕ) : Bcache → Type 0 where
  boots : (s : Bcache) → ((j : ℕ) → (s.buf j).dev ≡ 0) → Reach addr (binit s)
  gets :
      (s s' : Bcache) (dev blockno b : ℕ)
      → Reach addr s
      → dev ≢ 0
      → bget dev blockno s ≡ buffer b s'
      → Reach addr s'
  releases :
      (s s' : Bcache) (me b : ℕ) (t t' : Table)
      → Reach addr s
      → b < nbuf
      → 0 < (s.buf b).refcnt
      → (s.buf b).refcnt < 2 ^ 32
      → brelse addr me b s t ≡ some (s', t')
      → Reach addr s'
  changes :
      (s : Bcache) (b : ℕ) (x : Buf)
      → Reach addr s
      → x.dev ≡ (s.buf b).dev
      → x.blockno ≡ (s.buf b).blockno
      → x.refcnt ≡ (s.buf b).refcnt
      → Reach addr (record s { buf = update (s.buf) b x })

mem_split : (b : ℕ) (xs : List ℕ) → Memᴰ b xs → (us : List ℕ) × (vs : List ℕ) × (xs ≡ us ++ b ∷ vs)
mem_split b [] m = absurd (Memᴰ.not-nil m)
mem_split b (x ∷ xs) m = elim (Memᴰ.cases_cons m) [
  | inl e ↦ ([], xs, ap (λ y. y ∷ xs) (sym e))
  | inr k ↦ (let w = mem_split b xs k in (x ∷ w.0, w.1, ap (λ ys. x ∷ ys) (w.2)))
]

is_some : Option (Bcache × Table) → Bool
is_some none = false
is_some (some x) = true

none_ne : (x : Bcache × Table) → ◌≢◌ {A = Option (Bcache × Table)} none (some x)
unfolding is_some
none_ne x q = (let e = ap is_some q in cc)

released_some :
    (addr : ℕ → ℕ) (me b : ℕ) (s s' : Bcache) (us vs : List ℕ) (t t' : Table)
    (o : Option (Bcache × Table))
    → Releases addr me b s us vs t o
    → o ≡ some (s', t')
    → IsValid s' (order b ((s.buf b).refcnt) us vs)
released_some addr me b s s' us vs t t' _ (Releases.refused e) q = absurd (none_ne (s', t') q)
released_some addr me b s s' us vs t t' _ (Releases.released s1 e r) q =
    subst (λ x. IsValid x (order b ((s.buf b).refcnt) us vs)) (ap (λ r. r.0) (some-injective _ _ q))
      (r.valid)

Reach-IsValid : (addr : ℕ → ℕ) (s : Bcache) → Reach addr s → (xs : List ℕ) × IsValid s xs
Reach-IsValid addr _ (boots s z) = binit-IsValid s z
Reach-IsValid addr _ (gets s s' dev blockno b r z e) =
    let w = Reach-IsValid addr s r in
    (w.0, Gets-IsValid dev blockno s s' (w.0) b _ z (w.1) (bget-Gets dev blockno s (w.0) (w.1)) e)
Reach-IsValid addr _ (releases s s' me b t t' r l p u e) =
    let w = Reach-IsValid addr s r in
    let m = mem_split b (w.0) (w.1.members b l) in
    (
      order b ((s.buf b).refcnt) (m.0) (m.1),
      released_some addr me b s s' (m.0) (m.1) t t' _
          (brelse-Releases addr me b s (m.0) (m.1) t p u (subst (IsValid s) (m.2) (w.1))) e,
    )
Reach-IsValid addr _ (changes s b x r d n c) =
    let w = Reach-IsValid addr s r in (w.0, same_block-IsValid s (w.0) b x d n (w.1))

-- In every state that `binit`, `bget`, `brelse` and changes of the flags and locks of buffers lead to, in
-- any order of calls, where `bget` is for devices other than 0 and `brelse` by who has a reference, of
-- less than 2 ^ 32: the list links each buffer once, in both directions; no block is in two buffers;
-- and `bget` ends with the buffer that has the block, or else with the least recently used one that
-- has neither a reference nor changes to write, or else, where there is none, in its panic.
pub one_buffer :
    (addr : ℕ → ℕ) (s : Bcache) (dev blockno : ℕ)
    → Reach addr s
    → (xs : List ℕ) × IsValid s xs × Gets dev blockno s xs (bget dev blockno s)
one_buffer addr s dev blockno r =
    let w = Reach-IsValid addr s r in (w.0, w.1, bget-Gets dev blockno s (w.0) (w.1))

-- `brelse` of a buffer in such a state, by who has a reference, of less than 2 ^ 32: it panics exactly
-- where the process does not hold the buffer's lock; else it frees the lock and wakes who sleeps on
-- it, takes off one reference, and moves the buffer to the front of the list exactly if that was the
-- last one; the other buffers keep their order and contents, and the cache stays valid.
pub last_release :
    (addr : ℕ → ℕ) (me b : ℕ) (s : Bcache) (t : Table)
    → Reach addr s
    → b < nbuf
    → 0 < (s.buf b).refcnt
    → (s.buf b).refcnt < 2 ^ 32
    → (us : List ℕ) × (vs : List ℕ) × IsValid s (us ++ b ∷ vs)
      × Releases addr me b s us vs t (brelse addr me b s t)
last_release addr me b s t r l p u =
    let w = Reach-IsValid addr s r in
    let m = mem_split b (w.0) (w.1.members b l) in
    let v : IsValid s (m.0 ++ b ∷ m.1) = subst (IsValid s) (m.2) (w.1) in
    (m.0, m.1, v, brelse-Releases addr me b s (m.0) (m.1) t p u v)
