-- ===== src/Bcache/Get.antt =====
-- `bget` of bio.c: one buffer for each block.
use mathlib.Core.Path.{subst}
use mathlib.Core.List.Memᴰ
use mathlib.Core.List.{Memᴰ}
use compiling_to_assembly.Prelude.{
  ℕ, ◌+◌, ◌%◌, ◌^◌, ◌<◌, ◌≡◌, ◌≢◌, refl, ap, sym, ◌∙◌, inl, inr, Bool, true, false, List, ◌∷◌, ◌++◌,
  arith, length, ◌==◌, update, ==→≡, Bool-cases,
}
use compiling_to_assembly.Bcache.{
  Buf, Bcache, nbuf, Search, holds, unused, Got, buffer, no_buffers, out_of_rounds, recycle,
  get_cached, bget,
}
use compiling_to_assembly.Bcache.Ring.{IsRing}
use compiling_to_assembly.Bcache.Scan.{
  NoneOf, First, Last, at, nowhere, scan_next-First, scan_prev-Last,
}

-- The ring has each buffer once, and no block of a device but 0, which stands for no block yet, is in two.
pub record IsValid (s : Bcache) (xs : List ℕ) : Type 0 where
  pub ring : IsRing s xs
  pub whole : length xs ≡ nbuf
  pub members : (b : ℕ) → b < nbuf → Memᴰ b xs
  pub unique :
      (j k : ℕ)
      → Memᴰ j xs
      → Memᴰ k xs
      → (s.buf j).dev ≢ 0
      → (s.buf j).dev ≡ (s.buf k).dev
      → (s.buf j).blockno ≡ (s.buf k).blockno
      → j ≡ k

-- Buffer `b` has a block; it has no reference and no changes that are not on disk.
abbrev pub HasBlock : ℕ → ℕ → Bcache → ℕ → Type 0
HasBlock dev blockno s b = ((s.buf b).dev ≡ dev) × ((s.buf b).blockno ≡ blockno)

abbrev pub IsFree : Bcache → ℕ → Type 0
IsFree s b = ((s.buf b).refcnt ≡ 0) × ((s.buf b).dirty ≡ false)

abbrev pub NoBuffer : (ℕ → Type 0) → List ℕ → Type 0
NoBuffer P xs = (b : ℕ) → Memᴰ b xs → P b → ⊥

-- How `bget` of a block ends: with the buffer that holds it and one reference more; else with the
-- least recently used buffer that is neither referenced nor dirty, which is given the block and one
-- reference; or, where there is none, in the panic.
pub data Gets (dev blockno : ℕ) (s : Bcache) (xs : List ℕ) : Got → Type 0 where
  cached :
      (b : ℕ) (s' : Bcache)
      → Memᴰ b xs
      → HasBlock dev blockno s b
      → s' ≡ record s {
        buf = update (s.buf) b (record (s.buf b) { refcnt = ((s.buf b).refcnt + 1) % 2 ^ 32 });
      }
      → Gets dev blockno s xs (buffer b s')
  recycled :
      (us vs : List ℕ) (b : ℕ) (s' : Bcache)
      → xs ≡ us ++ b ∷ vs
      → NoBuffer (HasBlock dev blockno s) xs
      → IsFree s b
      → NoBuffer (IsFree s) vs
      → s' ≡ record s {
        buf = update (s.buf) b (record (s.buf b) {
          dev = dev;
          blockno = blockno;
          valid = false;
          dirty = false;
          refcnt = 1;
        });
      }
      → Gets dev blockno s xs (buffer b s')
  all_used :
      NoBuffer (HasBlock dev blockno s) xs
      → NoBuffer (IsFree s) xs
      → Gets dev blockno s xs no_buffers

mem_at : (xs us vs : List ℕ) (b : ℕ) → xs ≡ us ++ b ∷ vs → Memᴰ b xs
mem_at xs us vs b e = subst (Memᴰ b) (sym e) (Memᴰ.append_right us (Memᴰ.head refl))

-- The tests of `bget` against these.
holds-HasBlock :
    (dev blockno : ℕ) (s : Bcache) (b : ℕ) → holds dev blockno s b ≡ true → HasBlock dev blockno s b
holds-HasBlock dev blockno s b h = (ground arith, ground arith)

HasBlock-holds :
    (dev blockno : ℕ) (s : Bcache) (b : ℕ) → HasBlock dev blockno s b → holds dev blockno s b ≡ true
HasBlock-holds dev blockno s b (d, n) = ground arith

all-HasBlock :
    (dev blockno : ℕ) (s : Bcache) (xs : List ℕ)
    → NoneOf (holds dev blockno s) xs
    → NoBuffer (HasBlock dev blockno s) xs
unfolding NoneOf
all-HasBlock dev blockno s xs n b m h =
    let t = HasBlock-holds dev blockno s b h in let f = n b m in cc

unused-IsFree : (s : Bcache) (b : ℕ) → unused s b ≡ true → IsFree s b
unused-IsFree s b h = (ground arith, ground arith)

IsFree-unused : (s : Bcache) (b : ℕ) → IsFree s b → unused s b ≡ true
IsFree-unused s b (r, d) = ground arith

all-IsFree : (s : Bcache) (xs : List ℕ) → NoneOf (unused s) xs → NoBuffer (IsFree s) xs
unfolding NoneOf
all-IsFree s xs n b m h = let t = IsFree-unused s b h in let f = n b m in cc

recycle-Gets :
    (dev blockno : ℕ) (s : Bcache) (xs : List ℕ) (o : Search)
    → NoBuffer (HasBlock dev blockno s) xs
    → Last (unused s) xs o
    → Gets dev blockno s xs (recycle dev blockno s o)
unfolding recycle
recycle-Gets dev blockno s xs _ n (at us vs b e h l) =
    recycled us vs b _ e n (unused-IsFree s b h) (all-IsFree s vs l) refl
recycle-Gets dev blockno s xs _ n (nowhere l) = all_used n (all-IsFree s xs l)

get_cached-Gets :
    (dev blockno : ℕ) (s : Bcache) (xs : List ℕ) (o : Search)
    → IsValid s xs
    → First (holds dev blockno s) xs o
    → Gets dev blockno s xs (get_cached dev blockno s o)
unfolding get_cached
get_cached-Gets dev blockno s xs _ v (at us vs b e h) =
    cached b _ (mem_at xs us vs b e) (holds-HasBlock dev blockno s b h) refl
get_cached-Gets dev blockno s xs _ v (nowhere n) =
    recycle-Gets dev blockno s xs _ (all-HasBlock dev blockno s xs n)
      (scan_prev-Last s xs (nbuf + 1) (unused s) (v.ring) (omega (arith, v.whole)))

-- `bget` on a valid cache ends as described, within the rounds of its loops.
pub bget-Gets :
    (dev blockno : ℕ) (s : Bcache) (xs : List ℕ)
    → IsValid s xs
    → Gets dev blockno s xs (bget dev blockno s)
unfolding bget
bget-Gets dev blockno s xs v =
    get_cached-Gets dev blockno s xs _ v
      (scan_next-First s xs (nbuf + 1) (holds dev blockno s) (v.ring) (omega (arith, v.whole)))

-- A cache in which one buffer changes but keeps its block.
pub same_block-IsValid :
    (s : Bcache) (xs : List ℕ) (b : ℕ) (x : Buf)
    → x.dev ≡ (s.buf b).dev
    → x.blockno ≡ (s.buf b).blockno
    → IsValid s xs
    → IsValid (record s { buf = update (s.buf) b x }) xs
same_block-IsValid s xs b x d n v =
    let dev : (j : ℕ) → (update (s.buf) b x j).dev ≡ (s.buf j).dev = λ j.
      elim (Bool-cases (b == j)) [
        | inl e ↦ rw e (d ∙ ap (λ i. (s.buf i).dev) (==→≡ b j e))
        | inr e ↦ rw e refl
      ] in
    let block : (j : ℕ) → (update (s.buf) b x j).blockno ≡ (s.buf j).blockno = λ j.
      elim (Bool-cases (b == j)) [
        | inl e ↦ rw e (n ∙ ap (λ i. (s.buf i).blockno) (==→≡ b j e))
        | inr e ↦ rw e refl
      ] in
    record {
      ring = record { links = v.ring.links; distinct = v.ring.distinct };
      whole = v.whole;
      members = v.members;
      unique = λ j k p q z e f.
          v.unique j k p q (λ y. z (dev j ∙ y)) (sym (dev j) ∙ e ∙ dev k)
            (sym (block j) ∙ f ∙ block k);
    }

-- A cache in which one buffer gets a block that no buffer has.
new_block-IsValid :
    (s : Bcache) (xs : List ℕ) (b : ℕ) (x : Buf)
    → NoBuffer (HasBlock (x.dev) (x.blockno) s) xs
    → IsValid s xs
    → IsValid (record s { buf = update (s.buf) b x }) xs
new_block-IsValid s xs b x n v = record {
  ring = record { links = v.ring.links; distinct = v.ring.distinct };
  whole = v.whole;
  members = v.members;
  unique = λ j k p q z e f. elim (Bool-cases (b == j)) [
    | inl bj ↦ elim (Bool-cases (b == k)) [
      | inl bk ↦ sym (==→≡ b j bj) ∙ ==→≡ b k bk
      | inr bk ↦ absurd (n k q (sym (rw (bj, bk) at e), sym (rw (bj, bk) at f)))
    ]
    | inr bj ↦ elim (Bool-cases (b == k)) [
      | inl bk ↦ absurd (n j p (rw (bj, bk) at e, rw (bj, bk) at f))
      | inr bk ↦ v.unique j k p q (rw bj at z) (rw (bj, bk) at e) (rw (bj, bk) at f)
    ]
  ];
}

state_of : Bcache → Got → Bcache
state_of s (buffer b s') = s'
state_of s no_buffers = s
state_of s out_of_rounds = s

is_buffer : Got → Bool
is_buffer (buffer b s') = true
is_buffer no_buffers = false
is_buffer out_of_rounds = false

got_state : (s : Bcache) (c b : ℕ) (s1 s' : Bcache) → buffer c s1 ≡ buffer b s' → s1 ≡ s'
unfolding state_of
got_state s c b s1 s' q = ap (state_of s) q

no_state : (b : ℕ) (s : Bcache) → no_buffers ≢ buffer b s
unfolding is_buffer
no_state b s q = (let e = ap is_buffer q in cc)

-- A reference that `bget` hands out leaves a valid cache.
pub Gets-IsValid :
    (dev blockno : ℕ) (s s' : Bcache) (xs : List ℕ) (b : ℕ) (o : Got)
    → dev ≢ 0
    → IsValid s xs
    → Gets dev blockno s xs o
    → o ≡ buffer b s'
    → IsValid s' xs
Gets-IsValid dev blockno s s' xs b _ z v (cached c s1 m h e) q =
    subst (λ x. IsValid x xs) (sym e ∙ got_state s c b s1 s' q)
      (same_block-IsValid s xs c _ refl refl v)
Gets-IsValid dev blockno s s' xs b _ z v (recycled us vs c s1 e n h l f) q =
    subst (λ x. IsValid x xs) (sym f ∙ got_state s c b s1 s' q) (new_block-IsValid s xs c _ n v)
Gets-IsValid dev blockno s s' xs b _ z v (all_used n l) q = absurd (no_state b s' q)
