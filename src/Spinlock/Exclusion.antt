-- ===== src/Spinlock/Exclusion.antt =====
-- Mutual exclusion, and that neither `acquire` nor `release` panics when they are called in turn.
use mathlib.Core.Path.{subst}
use compiling_to_assembly.Prelude.{
  ℕ, ◌<◌, ◌≡◌, ◌≢◌, refl, true, false, none, some, arith, ◌==◌, update, Bool-cases, inl, inr,
}
use compiling_to_assembly.Spinlock.{
  Cpu, Lock, initlock, popcli, acquire_enter, xchg, acquire_done, release_enter, unlock,
}
use compiling_to_assembly.Spinlock.Nesting.{CpuOk}
use compiling_to_assembly.Spinlock.System.{
  Pc, outside, spinning, won, critical, clearing, System, Step, enter, spin, win, own, leave, free,
  Reach, start, next, inside,
}

-- While a CPU is past the start of `acquire` its interrupts are off.
abbrev pub CpuAt : Pc → Cpu → Type 0
CpuAt outside c = CpuOk c
CpuAt _ c = (0 < c.ncli) × (c.interrupts ≡ false)

pub record IsSafe (s : System) : Type 0 where
  pub unique : (i j : ℕ) → inside (s.pc i) ≡ true → inside (s.pc j) ≡ true → i ≡ j
  pub locked : (i : ℕ) → inside (s.pc i) ≡ true → s.lock.locked ≡ true
  pub owner : (i : ℕ) → s.pc i ≡ critical → s.lock.holder ≡ some i
  pub owned : (i : ℕ) → s.lock.holder ≡ some i → s.pc i ≡ critical
  pub cpus : (i : ℕ) → CpuAt (s.pc i) (s.cpu i)

CpuAt-critical :
    (p : Pc) (c : Cpu) → p ≢ outside → CpuAt p c → (0 < c.ncli) × (c.interrupts ≡ false)
CpuAt-critical outside c h k = absurd (h refl)
CpuAt-critical spinning c h k = k
CpuAt-critical won c h k = k
CpuAt-critical critical c h k = k
CpuAt-critical clearing c h k = k

acquire_enter-CpuAt :
    (i : ℕ) (lk : Lock) (c c' : Cpu)
    → CpuOk c
    → acquire_enter i lk c ≡ some c'
    → (0 < c'.ncli) × (c'.interrupts ≡ false)
unfolding acquire_enter
acquire_enter-CpuAt i lk c c' ok e = ground arith

release_enter-CpuAt :
    (i : ℕ) (lk lk' : Lock) (c c' : Cpu)
    → (0 < c.ncli) × (c.interrupts ≡ false)
    → release_enter i lk c ≡ some (lk', c')
    → (0 < c'.ncli) × (c'.interrupts ≡ false) × (lk'.holder ≡ none) × (lk'.locked ≡ lk.locked)
unfolding release_enter
release_enter-CpuAt i lk lk' c c' ok e = ground arith

popcli-CpuOk : (c c' : Cpu) → (0 < c.ncli) × (c.interrupts ≡ false) → popcli c ≡ some c' → CpuOk c'
unfolding popcli
popcli-CpuOk c c' ok e = λ h. ground arith

cpus-update :
    (s : System) (i : ℕ) (c : Cpu) (p : Pc)
    → ((j : ℕ) → CpuAt (s.pc j) (s.cpu j))
    → CpuAt p c
    → (j : ℕ) → CpuAt (update (s.pc) i p j) (update (s.cpu) i c j)
cpus-update s i c p h k j = elim (Bool-cases (i == j)) [ inl e ↦ rw e k | inr e ↦ rw e (h j) ]

cpu_at : {s : System} (i : ℕ) (p : Pc) → IsSafe s → s.pc i ≡ p → CpuAt p (s.cpu i)
cpu_at {s} i p v e = subst (λ q. CpuAt q (s.cpu i)) e (v.cpus i)

pub Step-IsSafe : {s t : System} → Step s t → IsSafe s → IsSafe t
unfolding xchg acquire_done unlock
Step-IsSafe {s} (enter i {c} at e) v = record {
  unique = λ a b p q. ground (arith, v.unique a b);
  locked = λ a p. ground (arith, v.locked a);
  owner = λ a p. ground (arith, v.owner a);
  owned = λ a p. ground (arith, v.owned a p);
  cpus =
      cpus-update s i c spinning (v.cpus)
        (acquire_enter-CpuAt i (s.lock) (s.cpu i) c (cpu_at i outside v at) e);
}
Step-IsSafe {s} (spin i at e) v = record {
  unique = λ a b p q. ground (arith, v.unique a b);
  locked = λ a p. refl;
  owner = λ a p. ground (arith, v.owner a);
  owned = λ a p. ground (arith, v.owned a p);
  cpus = cpus-update s i (s.cpu i) spinning (v.cpus) (cpu_at i spinning v at);
}
Step-IsSafe {s} (win i at e) v = record {
  unique = λ a b p q. ground (arith, v.unique a b, v.locked a, v.locked b);
  locked = λ a p. refl;
  owner = λ a p. ground (arith, v.owner a);
  owned = λ a p. ground (arith, v.owned a p);
  cpus = cpus-update s i (s.cpu i) won (v.cpus) (cpu_at i spinning v at);
}
Step-IsSafe {s} (own i at) v = record {
  unique = λ a b p q. ground (arith, v.unique a b, v.unique i b, v.unique a i);
  locked = λ a p. ground (arith, v.locked a, v.locked i);
  owner = λ a p. ground (arith, v.owner a, v.unique a i);
  owned = λ a p. ground arith;
  cpus = cpus-update s i (s.cpu i) critical (v.cpus) (cpu_at i won v at);
}
Step-IsSafe {s} (leave i {lk} {c} at e) v =
    let f = release_enter-CpuAt i (s.lock) lk (s.cpu i) c (cpu_at i critical v at) e in
    record {
      unique = λ a b p q. ground (arith, v.unique a b, v.unique i b, v.unique a i);
      locked = λ a p. ground (arith, v.locked a, v.locked i, f.3);
      owner = λ a p. ground (arith, v.unique a i);
      owned = λ a p. ground (arith, f.2);
      cpus = cpus-update s i c clearing (v.cpus) (f.0, f.1);
    }
Step-IsSafe {s} (free i {c} at e) v = record {
  unique = λ a b p q. ground (arith, v.unique a b);
  locked = λ a p. ground (arith, v.unique a i);
  owner = λ a p. ground (arith, v.owner a);
  owned = λ a p. ground (arith, v.owned a p);
  cpus = cpus-update s i c outside (v.cpus) (popcli-CpuOk (s.cpu i) c (cpu_at i clearing v at) e);
}

pub Reach-IsSafe : {s : System} → Reach s → IsSafe s
unfolding initlock
Reach-IsSafe (start cpu ok) = record {
  unique = λ i j p q. absurd (cc);
  locked = λ i p. absurd (cc);
  owner = λ i p. absurd (cc);
  owned = λ i p. absurd (cc);
  cpus = ok;
}
Reach-IsSafe (next r st) = Step-IsSafe st (Reach-IsSafe r)

-- Two CPUs are never between winning the lock and freeing it, and a CPU that is there has its
-- interrupts off.
pub mutual_exclusion :
    {s : System} (i j : ℕ)
    → Reach s
    → inside (s.pc i) ≡ true
    → inside (s.pc j) ≡ true
    → (i ≡ j) × ((s.cpu i).interrupts ≡ false)
mutual_exclusion {s} i j r a b =
    let v = Reach-IsSafe r in
    (v.unique i j a b, (CpuAt-critical (s.pc i) (s.cpu i) (λ e. ground arith) (v.cpus i)).1)

-- No panic: `acquire` finds that its CPU does not hold the lock, `release` finds that it does, and
-- the last `popcli` has a `pushcli` to undo.
pub no_panic :
    {s : System} (i : ℕ)
    → Reach s
    → (s.pc i ≡ outside → acquire_enter i (s.lock) (s.cpu i) ≢ none)
      × (s.pc i ≡ critical → release_enter i (s.lock) (s.cpu i) ≢ none)
      × (s.pc i ≡ clearing → popcli (s.cpu i) ≢ none)
unfolding acquire_enter release_enter popcli
no_panic {s} i r =
    let v = Reach-IsSafe r in
    (
      λ at. ground (arith, cpu_at i outside v at, v.owned i),
      λ at. ground (arith, cpu_at i critical v at, v.owner i at, v.locked i),
      λ at. ground (arith, cpu_at i clearing v at),
    )
