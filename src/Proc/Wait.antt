-- ===== src/Proc/Wait.antt =====
-- `wait` of proc.c: it frees a zombie child, fails without children, or sleeps; the exit of a child ends
-- the sleep.
use mathlib.Core.Path.{subst}
use compiling_to_assembly.Prelude.{
  if_false, extend, ℕ, zero, suc, ◌+◌, ◌≤◌, ◌<◌, ◌≡◌, refl, sym, Bool, true, false, none, update,
  [], ◌∷◌, arith, Bool-cases, inl, inr, ◌⊎◌,
}
use compiling_to_assembly.Proc.{
  nproc, Proc, Table, is_zombie, entry, child_of, Scan, reap, finished, wait_scan, reaped, no_child,
  asleep, Waited, sleep, wait, unused, sleeping, kfree, freevm,
}

-- entry `m` is a child, or a child that is not a zombie, among the `k` entries from `i` on
pub record Zombie (cur i k j : ℕ) (t : Table) : Type 0 where
  pub above : i ≤ j
  pub below : j < i + k
  pub child : child_of cur (t.proc j) ≡ true
  pub dead : is_zombie ((t.proc j).state) ≡ true

abbrev pub NoZombie : ℕ → ℕ → ℕ → Table → Type 0
NoZombie cur i k t =
    (m : ℕ)
    → i ≤ m
    → m < i + k
    → child_of cur (t.proc m) ≡ true
    → is_zombie ((t.proc m).state) ≡ false

abbrev pub HasChild : ℕ → ℕ → ℕ → Table → Type 0
HasChild cur i k t = (m : ℕ) × (i ≤ m) × (m < i + k) × (child_of cur (t.proc m) ≡ true)

abbrev pub NoChild : ℕ → ℕ → ℕ → Table → Type 0
NoChild cur i k t = (m : ℕ) → i ≤ m → m < i + k → child_of cur (t.proc m) ≡ false

data Scanned (cur i k : ℕ) (t : Table) (h : Bool) : Scan → Type 0 where
  found : (j : ℕ) → Zombie cur i k j t → Scanned cur i k t h (reap j)
  some_child :
      NoZombie cur i k t → (h ≡ true) ⊎ HasChild cur i k t → Scanned cur i k t h (finished true)
  childless : NoChild cur i k t → h ≡ false → Scanned cur i k t h (finished false)

wider : (cur i k j : ℕ) (t : Table) → Zombie cur (i + 1) k j t → Zombie cur i (suc k) j t
wider cur i k j t r =
    let a = r.above in
    let b = r.below in
    record { above = omega arith; below = omega arith; child = r.child; dead = r.dead }

skip_stranger :
    (cur k i : ℕ) (t : Table) (h : Bool) (s : Scan)
    → child_of cur (t.proc i) ≡ false
    → Scanned cur (i + 1) k t h s
    → Scanned cur i (suc k) t h s
skip_stranger cur k i t h s ne (found j r) = found j (wider cur i k j t r)
skip_stranger cur k i t h s ne (some_child n (inl e)) =
    some_child
      (extend {P = λ m. child_of cur (t.proc m) ≡ true → is_zombie ((t.proc m).state) ≡ false} i k
        (λ c. absurd (cc)) n)
      (inl e)
skip_stranger cur k i t h s ne (some_child n (inr (m, a, b, c))) =
    some_child
      (extend {P = λ m. child_of cur (t.proc m) ≡ true → is_zombie ((t.proc m).state) ≡ false} i k
        (λ c. absurd (cc)) n)
      (inr (m, omega arith, omega arith, c))
skip_stranger cur k i t h s ne (childless n e) =
    childless (extend {P = λ m. child_of cur (t.proc m) ≡ false} i k ne n) e

skip_child :
    (cur k i : ℕ) (t : Table) (h : Bool) (s : Scan)
    → child_of cur (t.proc i) ≡ true
    → is_zombie ((t.proc i).state) ≡ false
    → Scanned cur (i + 1) k t true s
    → Scanned cur i (suc k) t h s
skip_child cur k i t h s e z (found j r) = found j (wider cur i k j t r)
skip_child cur k i t h s e z (some_child n o) =
    some_child
      (extend {P = λ m. child_of cur (t.proc m) ≡ true → is_zombie ((t.proc m).state) ≡ false} i k
        (λ c. z) n)
      (inr (i, omega arith, omega arith, e))
skip_child cur k i t h s e z (childless n o) = absurd (ground arith)

wait_scan-Scanned :
    (cur k i : ℕ) (t : Table) (h : Bool) → Scanned cur i k t h (wait_scan t cur k i h)
unfolding wait_scan
wait_scan-Scanned cur zero i t true = some_child (λ m a b. absurd (omega arith)) (inl refl)
wait_scan-Scanned cur zero i t false = childless (λ m a b. absurd (omega arith)) refl
wait_scan-Scanned cur (suc k) i t h = elim (Bool-cases (child_of cur (t.proc i))) [
  | inr ne ↦
      rw (ne, wait_scan) (skip_stranger cur k i t h _ ne (wait_scan-Scanned cur k (i + 1) t h))
  | inl e ↦ elim (Bool-cases (is_zombie ((t.proc i).state))) [
    | inl z ↦
        rw (e, z, wait_scan)
          (found i (record { above = omega arith; below = omega arith; child = e; dead = z }))
    | inr z ↦
        rw (e, z, wait_scan) (skip_child cur k i t h _ e z (wait_scan-Scanned cur k (i + 1) t true))
  ]
]

-- What a pass of `wait` may do.
pub data WaitOk (cur : ℕ) (t : Table) : Waited → Type 0 where
  frees :
      (j : ℕ)
      → Zombie cur 0 nproc j t
      → WaitOk cur t (record {
        table = record t {
          proc = update (t.proc) j (record (t.proc j) {
            kstack = 0;
            pid = 0;
            parent = none;
            killed = false;
            state = unused;
          });
        };
        result = reaped ((t.proc j).pid);
        calls = kfree ((t.proc j).kstack) ∷ freevm ((t.proc j).pgdir) ∷ [];
      })
  fails :
      NoZombie cur 0 nproc t
      → NoChild cur 0 nproc t ⊎ ((t.proc cur).killed ≡ true)
      → WaitOk cur t (record { table = t; result = no_child; calls = [] })
  sleeps :
      NoZombie cur 0 nproc t
      → HasChild cur 0 nproc t
      → (t.proc cur).killed ≡ false
      → WaitOk cur t (record {
        table = record t {
          proc = update (t.proc) cur (record (t.proc cur) { chan = entry cur; state = sleeping });
        };
        result = asleep;
        calls = [];
      })

wait_end :
    (cur : ℕ) (t : Table) (s : Scan)
    → wait_scan t cur nproc 0 false ≡ s
    → Scanned cur 0 nproc t false s
    → WaitOk cur t (wait cur t)
unfolding wait sleep
wait_end cur t s e (found j z) = rw (e, wait) (frees j z)
wait_end cur t s e (some_child n (inl f)) = absurd (ground arith)
wait_end cur t s e (some_child n (inr c)) = elim (Bool-cases ((t.proc cur).killed)) [
  | inl k ↦ rw (e, wait, k) (fails n (inr k))
  | inr k ↦
      rw (e, wait)
        (subst (WaitOk cur t) (sym (if_false ((t.proc cur).killed) _ _ k)) (sleeps n c k))
]
wait_end cur t s e (childless n f) =
    rw (e, wait) (fails (λ m a b c. absurd (let d = n m a b in cc)) (inl n))

-- A pass of `wait` clears the entry of a zombie child, which is unused then, and returns its pid, or,
-- where no child is a zombie, fails if there is no child or the process is killed, and else goes to
-- sleep on its own entry; it changes nothing otherwise.
pub wait-WaitOk : (cur : ℕ) (t : Table) → WaitOk cur t (wait cur t)
wait-WaitOk cur t = wait_end cur t _ refl (wait_scan-Scanned cur nproc 0 t false)
