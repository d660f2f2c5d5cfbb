-- ===== src/Spinlock/System.antt =====
-- CPUs that contend for one lock, interleaved in any order, one access to the lock at a time.
use compiling_to_assembly.Prelude.{ℕ, ◌≡◌, Bool, true, false, some, update}
use compiling_to_assembly.Spinlock.{
  Cpu, Lock, initlock, popcli, acquire_enter, xchg, acquire_done, release_enter, unlock,
}
use compiling_to_assembly.Spinlock.Nesting.{CpuOk}

-- Where a CPU stands in `acquire` and `release`.
pub data Pc : Type 0 where
  outside : Pc  -- before `acquire`
  spinning : Pc  -- at the `while` of `acquire`
  won : Pc  -- behind the exchange that returned 0
  critical : Pc  -- behind `acquire`
  clearing : Pc  -- in `release`, behind `lk->cpu = 0`

pub record System : Type 0 where
  pub lock : Lock
  pub cpu : ℕ → Cpu
  pub pc : ℕ → Pc

abbrev pub moved : System → ℕ → Lock → Cpu → Pc → System
moved s i lk c p = record { lock = lk; cpu = update (s.cpu) i c; pc = update (s.pc) i p }

-- One step of CPU `i`.
pub data Step (s : System) : System → Type 0 where
  enter :
      (i : ℕ) {c : Cpu}
      → s.pc i ≡ outside
      → acquire_enter i (s.lock) (s.cpu i) ≡ some c
      → Step s (moved s i (s.lock) c spinning)
  spin :
      (i : ℕ)
      → s.pc i ≡ spinning
      → (xchg (s.lock)).0 ≡ true
      → Step s (moved s i ((xchg (s.lock)).1) (s.cpu i) spinning)
  win :
      (i : ℕ)
      → s.pc i ≡ spinning
      → (xchg (s.lock)).0 ≡ false
      → Step s (moved s i ((xchg (s.lock)).1) (s.cpu i) won)
  own : (i : ℕ) → s.pc i ≡ won → Step s (moved s i (acquire_done i (s.lock)) (s.cpu i) critical)
  leave :
      (i : ℕ) {lk : Lock} {c : Cpu}
      → s.pc i ≡ critical
      → release_enter i (s.lock) (s.cpu i) ≡ some (lk, c)
      → Step s (moved s i lk c clearing)
  free :
      (i : ℕ) {c : Cpu}
      → s.pc i ≡ clearing
      → popcli (s.cpu i) ≡ some c
      → Step s (moved s i (unlock (s.lock)) c outside)

pub data Reach : System → Type 0 where
  start :
      (cpu : ℕ → Cpu)
      → ((i : ℕ) → CpuOk (cpu i))
      → Reach (record { lock = initlock; cpu = cpu; pc = λ i. outside })
  next : {s t : System} → Reach s → Step s t → Reach t

-- Between the exchange that wins the lock and the store that frees it.
abbrev pub inside : Pc → Bool
inside outside = false
inside spinning = false
inside _ = true
