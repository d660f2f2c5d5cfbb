-- ===== src/Proc/Kill.antt =====
-- `kill` of proc.c: the first entry with the pid is marked, and woken if it sleeps.
use compiling_to_assembly.Prelude.{
  ℕ, zero, suc, ◌+◌, ◌≤◌, ◌<◌, ◌≡◌, ◌≢◌, refl, ap, ◌∙◌, Bool, true, false, some, arith, ◌==◌,
  if◌then◌else◌, Bool-cases, inl, inr,
}
use compiling_to_assembly.Proc.{
  nproc, Proc, Table, runnable, is_sleeping, is_unused, put_proc, kill_loop, kill, unused,
  allocproc, find_unused,
}

-- an entry that was killed
pub killed_entry : Proc → Proc
killed_entry p = record p {
  killed = true;
  state = if is_sleeping (p.state) then runnable else p.state;
}

-- entry `j` is the first from `i` on with a pid
pub record FirstPid (pid i j : ℕ) (t : Table) : Type 0 where
  pub above : i ≤ j
  pub bound : j < nproc
  pub has : (t.proc j).pid ≡ pid
  pub before : (m : ℕ) → i ≤ m → m < j → (t.proc m).pid ≢ pid

kill_loop_lem :
    (pid k i j : ℕ) (t : Table)
    → i + k ≡ nproc
    → FirstPid pid i j t
    → kill_loop pid k i t ≡ (true, put_proc t j (killed_entry (t.proc j)))
unfolding kill_loop killed_entry
kill_loop_lem pid zero i j t l f = absurd (let a = f.above in let b = f.bound in omega arith)
kill_loop_lem pid (suc k) i j t l f = elim (Bool-cases ((t.proc i).pid == pid)) [
  | inl e ↦ elim (Bool-cases (i == j)) [
    | inl q ↦ (let q' : i ≡ j = ground arith in rw (e, kill_loop) (rw q'))
    | inr n ↦ absurd (f.before i (omega arith) (let a = f.above in ground arith) (ground arith))
  ]
  | inr e ↦ elim (Bool-cases (i == j)) [
    | inl q ↦
        (let h = f.has in
          let q' : i ≡ j = ground arith in absurd (ground (arith, ap (λ m. (t.proc m).pid) q')))
    | inr n ↦
        rw (e, kill_loop)
          (kill_loop_lem pid k (i + 1) j t (omega arith) (record {
            above = let a = f.above in ground arith;
            bound = f.bound;
            has = f.has;
            before = λ m x y. f.before m (omega arith) y;
          }))
  ]
]

kill_loop-none :
    (pid k i : ℕ) (t : Table)
    → ((m : ℕ) → i ≤ m → m < i + k → (t.proc m).pid ≢ pid)
    → kill_loop pid k i t ≡ (false, t)
unfolding kill_loop
kill_loop-none pid zero i t h = refl
kill_loop-none pid (suc k) i t h = elim (Bool-cases ((t.proc i).pid == pid)) [
  | inl e ↦ absurd (h i (omega arith) (omega arith) (ground arith))
  | inr e ↦
      rw (e, kill_loop) (kill_loop-none pid k (i + 1) t (λ m x y. h m (omega arith) (omega arith)))
]

-- `kill` marks the first entry of the table with the pid and makes it runnable if it sleeps, changes
-- nothing else and succeeds; where no entry has the pid it fails and changes nothing.
pub kill_lem :
    (pid : ℕ) (t : Table)
    → ((j : ℕ) → FirstPid pid 0 j t → kill pid t ≡ (true, put_proc t j (killed_entry (t.proc j))))
      × (((m : ℕ) → m < nproc → (t.proc m).pid ≢ pid) → kill pid t ≡ (false, t))
unfolding kill
kill_lem pid t = (
  λ j f. kill_loop_lem pid nproc 0 j t refl f,
  λ h. kill_loop-none pid nproc 0 t (λ m x y. h m (omega arith)),
)

find_unused_lem :
    (t : Table) (k i j : ℕ)
    → i ≤ j
    → j < i + k
    → is_unused ((t.proc j).state) ≡ true
    → ((m : ℕ) → i ≤ m → m < j → is_unused ((t.proc m).state) ≡ false)
    → find_unused t k i ≡ some j
unfolding find_unused
find_unused_lem t zero i j l u h b = absurd (omega arith)
find_unused_lem t (suc k) i j l u h b = elim (Bool-cases (i == j)) [
  | inl q ↦
      let q' : i ≡ j = ground arith in
      let h' : is_unused ((t.proc i).state) ≡ true =
        ap (λ (m : ℕ). is_unused ((t.proc m).state)) q' ∙ h in
      rw (h', find_unused) (ap some q')
  | inr n ↦
      rw (b i (omega arith) (ground arith), find_unused)
        (find_unused_lem t k (i + 1) j (ground arith) (omega arith) h
          (λ m x y. b m (omega arith) y))
]

allocproc_found :
    (stack i : ℕ) (t : Table)
    → find_unused t nproc 0 ≡ some i
    → (stack == 0) ≡ false
    → ((allocproc stack t).0 ≡ some i) × (((allocproc stack t).1.proc i).killed ≡ (t.proc i).killed)
unfolding allocproc
allocproc_found stack i t f z = (rw (f, z, allocproc) refl, ground (arith, f, z))

-- Where the first unused entry is also the first one with pid 0, `kill(0)` succeeds and marks it, and
-- the next process that is made, in that entry, is marked as killed from the start.
pub kill-allocproc :
    (j stack : ℕ) (t : Table)
    → FirstPid 0 0 j t
    → (t.proc j).state ≡ unused
    → ((m : ℕ) → m < j → is_unused ((t.proc m).state) ≡ false)
    → stack ≢ 0
    → ((kill 0 t).0 ≡ true)
      × ((allocproc stack ((kill 0 t).1)).0 ≡ some j)
      × (((allocproc stack ((kill 0 t).1)).1.proc j).killed ≡ true)
unfolding killed_entry
kill-allocproc j stack t f h b s =
    let t' = put_proc t j (killed_entry (t.proc j)) in
    let e : kill 0 t ≡ (true, t') = (kill_lem 0 t).0 j f in
    let l : j < nproc = f.bound in
    let found : find_unused t' nproc 0 ≡ some j =
      find_unused_lem t' nproc 0 j (omega arith) (omega arith) (ground arith)
        (λ m x y. ground (arith, b m)) in
    let z : (stack == 0) ≡ false = ground arith in
    let made = allocproc_found stack j t' found z in
    (
      ap (λ (r : Bool × Table). r.0) e,
      ap (λ (r : Bool × Table). (allocproc stack (r.1)).0) e ∙ made.0,
      ap (λ (r : Bool × Table). ((allocproc stack (r.1)).1.proc j).killed) e
          ∙ made.1
          ∙ ground arith,
    )
