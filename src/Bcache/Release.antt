-- ===== src/Bcache/Release.antt =====
-- `brelse` of bio.c: the last reference puts the buffer in front of the list.
use mathlib.Core.Path.{subst}
use mathlib.Core.List.Memᴰ
use mathlib.Core.List.{Memᴰ}
use compiling_to_assembly.Prelude.{
  ℕ, ◌+◌, ◌-◌, ◌%◌, ◌^◌, ◌<◌, ◌≡◌, ◌≢◌, refl, ap, sym, ◌∙◌, inl, inr, true, false, Option, none,
  some, List, ◌∷◌, ◌++◌, arith, length, length-append, ◌==◌, if◌then◌else◌, update, Bool-cases,
}
use compiling_to_assembly.Proc.{Table, other, wakeup1}
use compiling_to_assembly.Sleeplock.{initsleeplock, holdingsleep, releasesleep}
use compiling_to_assembly.Bcache.{Buf, Bcache, push_front, unlink, drop_buf, brelse}
use compiling_to_assembly.Bcache.Ring.{unlink-IsRing, push_front-IsRing}
use compiling_to_assembly.Bcache.Get.{IsValid, same_block-IsValid}

-- Moving a buffer to the front keeps the members and the length.
moved_mem : (y b : ℕ) (us vs : List ℕ) → Memᴰ y (b ∷ us ++ vs) → Memᴰ y (us ++ b ∷ vs)
moved_mem y b us vs m = elim (Memᴰ.cases_cons m) [
  | inl e ↦ Memᴰ.append_right us (Memᴰ.head e)
  | inr k ↦ elim (Memᴰ.append_cases us k) [
    | inl l ↦ Memᴰ.append_left (b ∷ vs) l
    | inr r ↦ Memᴰ.append_right us (Memᴰ.tail r)
  ]
]

mem_moved : (y b : ℕ) (us vs : List ℕ) → Memᴰ y (us ++ b ∷ vs) → Memᴰ y (b ∷ us ++ vs)
mem_moved y b us vs m = elim (Memᴰ.append_cases us m) [
  | inl l ↦ Memᴰ.tail (Memᴰ.append_left vs l)
  | inr k ↦ elim (Memᴰ.cases_cons k) [
    | inl e ↦ Memᴰ.head e
    | inr r ↦ Memᴰ.tail (Memᴰ.append_right us r)
  ]
]

moved_length : (b : ℕ) (us vs : List ℕ) → length (b ∷ us ++ vs) ≡ length (us ++ b ∷ vs)
moved_length b us vs = omega (arith, length-append us vs, length-append us (b ∷ vs))

to_front-IsValid :
    (s : Bcache) (b : ℕ) (us vs : List ℕ)
    → IsValid s (us ++ b ∷ vs)
    → IsValid (push_front b (unlink b s)) (b ∷ us ++ vs)
unfolding push_front unlink
to_front-IsValid s b us vs v =
    let u = unlink-IsRing s b us vs (v.ring) in
    record {
      ring = push_front-IsRing (unlink b s) b (us ++ vs) (u.1) (u.0);
      whole = moved_length b us vs ∙ v.whole;
      members = λ y l. mem_moved y b us vs (v.members y l);
      unique = λ j k p q. v.unique j k (moved_mem j b us vs p) (moved_mem k b us vs q);
    }

-- The order of the list behind the release of `b`, of which there were `r` references.
abbrev pub order : ℕ → ℕ → List ℕ → List ℕ → List ℕ
order b r us vs = if r == 1 then b ∷ us ++ vs else us ++ b ∷ vs

-- What a release leaves.
pub record Released (s s' : Bcache) (b : ℕ) (us vs : List ℕ) : Type 0 where
  pub valid : IsValid s' (order b ((s.buf b).refcnt) us vs)
  pub count : (s'.buf b).refcnt ≡ (s.buf b).refcnt - 1
  pub unlocked : (s'.buf b).lock ≡ initsleeplock
  pub others : (j : ℕ) → j ≢ b → s'.buf j ≡ s.buf j

less_one :
    (r : ℕ)
    → 0 < r
    → r < 2 ^ 32
    → ((r + 2 ^ 32 - 1) % 2 ^ 32 ≡ r - 1) × (((r + 2 ^ 32 - 1) % 2 ^ 32 == 0) ≡ (r == 1))
less_one r p l = let e : (r + 2 ^ 32 - 1) % 2 ^ 32 ≡ r - 1 = omega arith in (e, rw e (ground arith))

update_self : (f : ℕ → Buf) (b : ℕ) (x : Buf) → update f b x b ≡ x
update_self f b x = let e : (b == b) ≡ true = ground arith in rw e

update_rest : (f : ℕ → Buf) (b j : ℕ) (x : Buf) → j ≢ b → update f b x j ≡ f j
update_rest f b j x n = let e : (b == j) ≡ false = ground arith in rw e

drop_buf-Valid :
    (s : Bcache) (b : ℕ) (us vs : List ℕ)
    → 0 < (s.buf b).refcnt
    → (s.buf b).refcnt < 2 ^ 32
    → IsValid s (us ++ b ∷ vs)
    → IsValid (drop_buf b s) (order b ((s.buf b).refcnt) us vs)
unfolding drop_buf
drop_buf-Valid s b us vs p l v =
    let x = record (s.buf b) { refcnt = ((s.buf b).refcnt + 2 ^ 32 - 1) % 2 ^ 32 } in
    let w = same_block-IsValid s (us ++ b ∷ vs) b x refl refl v in
    let q = (less_one ((s.buf b).refcnt) p l).1 in
    elim (Bool-cases ((s.buf b).refcnt == 1)) [
      | inl e ↦ rw (drop_buf, q, e) (to_front-IsValid _ b us vs w)
      | inr e ↦ rw (drop_buf, q, e) w
    ]

drop_buf-buf :
    (s : Bcache) (b j : ℕ)
    → (drop_buf b s).buf j
      ≡ update (s.buf) b (record (s.buf b) { refcnt = ((s.buf b).refcnt + 2 ^ 32 - 1) % 2 ^ 32 }) j
unfolding drop_buf push_front unlink
drop_buf-buf s b j = elim (Bool-cases (((s.buf b).refcnt + 2 ^ 32 - 1) % 2 ^ 32 == 0)) [
  | inl e ↦ rw (drop_buf, e) refl
  | inr e ↦ rw (drop_buf, e) refl
]

-- What a call of `brelse` comes to.
pub data Releases (addr : ℕ → ℕ) (me b : ℕ) (s : Bcache) (us vs : List ℕ) (t : Table)
    : Option (Bcache × Table) → Type 0 where
  refused : holdingsleep me ((s.buf b).lock) ≡ false → Releases addr me b s us vs t none
  released :
      (s' : Bcache)
      → holdingsleep me ((s.buf b).lock) ≡ true
      → Released s s' b us vs
      → Releases addr me b s us vs t (some (s', wakeup1 (other (addr b)) t))

unlocked_buf : Bcache → ℕ → Bcache
unlocked_buf s b = record s { buf = update (s.buf) b (record (s.buf b) { lock = initsleeplock }) }

drop_buf-Released :
    (s : Bcache) (b : ℕ) (us vs : List ℕ)
    → 0 < (s.buf b).refcnt
    → (s.buf b).refcnt < 2 ^ 32
    → IsValid s (us ++ b ∷ vs)
    → Released s (drop_buf b (unlocked_buf s b)) b us vs
unfolding unlocked_buf
drop_buf-Released s b us vs p l v =
    let x = record (s.buf b) { lock = initsleeplock } in
    let s1 = unlocked_buf s b in
    let same : s1.buf b ≡ x = update_self (s.buf) b x in
    let count : (s1.buf b).refcnt ≡ (s.buf b).refcnt = ap (λ (y : Buf). y.refcnt) same in
    let here : (drop_buf b s1).buf b
        ≡ record (s1.buf b) { refcnt = ((s1.buf b).refcnt + 2 ^ 32 - 1) % 2 ^ 32 } =
      drop_buf-buf s1 b b ∙ update_self (s1.buf) b _ in
    record {
      valid =
          subst (λ (r : ℕ). IsValid (drop_buf b s1) (order b r us vs)) count
            (drop_buf-Valid s1 b us vs (subst (λ (r : ℕ). 0 < r) (sym count) p)
              (subst (λ (r : ℕ). r < 2 ^ 32) (sym count) l)
              (same_block-IsValid s (us ++ b ∷ vs) b x refl refl v));
      count =
          ap (λ (y : Buf). y.refcnt) here
          ∙ ap (λ (r : ℕ). (r + 2 ^ 32 - 1) % 2 ^ 32) count
          ∙ (less_one ((s.buf b).refcnt) p l).0;
      unlocked = ap (λ (y : Buf). y.lock) here ∙ ap (λ (y : Buf). y.lock) same;
      others =
          λ j n. drop_buf-buf s1 b j ∙ update_rest (s1.buf) b j _ n ∙ update_rest (s.buf) b j x n;
    }

-- `brelse` of a buffer of a valid cache, of which there are references, and less than 2 ^ 32: it panics
-- exactly where the process does not hold the buffer's lock; else it frees the lock and wakes who
-- sleeps on it, takes off one reference, and moves the buffer to the front of the list if that was
-- the last one. The order of the others and their contents stay, and the cache is valid.
pub brelse-Releases :
    (addr : ℕ → ℕ) (me b : ℕ) (s : Bcache) (us vs : List ℕ) (t : Table)
    → 0 < (s.buf b).refcnt
    → (s.buf b).refcnt < 2 ^ 32
    → IsValid s (us ++ b ∷ vs)
    → Releases addr me b s us vs t (brelse addr me b s t)
unfolding brelse releasesleep initsleeplock unlocked_buf
brelse-Releases addr me b s us vs t p l v = elim (Bool-cases (holdingsleep me ((s.buf b).lock))) [
  | inr e ↦ rw (brelse, e) (refused e)
  | inl e ↦ rw (brelse, e) (released _ e (drop_buf-Released s b us vs p l v))
]
