-- ===== src/Spinlock/Tests.antt =====
-- CPUs under spinlock.c, and the theorems at them.
use compiling_to_assembly.Prelude.{ℕ, ◌≡◌, ◌≢◌, refl, true, false, none, some, arith}
use compiling_to_assembly.Spinlock.{
  Cpu, initlock, pushcli, popcli, acquire_enter, xchg, acquire_done, release_enter, acquire,
}
use compiling_to_assembly.Spinlock.Nesting.{CpuOk}
use compiling_to_assembly.Spinlock.System.{
  outside, spinning, won, critical, clearing, System, moved, Reach, start, next, enter, win, own,
}
use compiling_to_assembly.Spinlock.Exclusion.{mutual_exclusion, no_panic}

abbrev running : Cpu
running = record { interrupts = true; ncli = 0; intena = false }

running-CpuOk : CpuOk running
running-CpuOk h = absurd (omega arith)

-- interrupts come back with the last `popcli` only
two_deep :
    (popcli (pushcli (pushcli running))
      ≡ some (record { interrupts = false; ncli = 1; intena = true }))
    × (popcli (pushcli running) ≡ some (record { interrupts = true; ncli = 0; intena = true }))
    × (popcli running ≡ none)
unfolding pushcli popcli
two_deep = (refl, refl, refl)

-- A lock that a CPU holds is not acquired again by it.
no_second_acquire : acquire 1 (record { locked = true; holder = some 1 }) running ≡ none
unfolding acquire
no_second_acquire = refl

abbrev fresh : System
fresh = record {
  lock = record { locked = false; holder = none };
  cpu = λ i. running;
  pc = λ i. outside;
}

abbrev entered : Cpu
entered = record { interrupts = false; ncli = 1; intena = true }

-- CPU 1 owns the lock.
abbrev owned : System
owned =
    moved
      (moved (moved fresh 1 (fresh.lock) entered spinning) 1
        (record { locked = true; holder = none }) entered won)
      1 (record { locked = true; holder = some 1 }) entered critical

owned-Reach : Reach owned
unfolding initlock acquire_enter xchg acquire_done
owned-Reach =
    next
      (next (next (start (λ i. running) (λ i. running-CpuOk)) (enter 1 refl refl))
        (win 1 refl refl))
      (own 1 refl)

mutual_exclusion_example : (◌≡◌ {A = ℕ} 1 1) × ((owned.cpu 1).interrupts ≡ false)
mutual_exclusion_example = mutual_exclusion 1 1 owned-Reach refl refl

no_panic_example :
    (owned.pc 1 ≡ outside → acquire_enter 1 (owned.lock) (owned.cpu 1) ≢ none)
    × (owned.pc 1 ≡ critical → release_enter 1 (owned.lock) (owned.cpu 1) ≢ none)
    × (owned.pc 1 ≡ clearing → popcli (owned.cpu 1) ≢ none)
no_panic_example = no_panic 1 owned-Reach
