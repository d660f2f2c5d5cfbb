-- ===== src/Spinlock.antt =====
-- projects/xv6/spinlock.c: spin locks and the nesting of disabled interrupts.
-- A lock's `name` and `pcs` serve debugging only and are left out, and so is `getcallerpcs`.
pub mod Nesting
pub mod System
pub mod Exclusion
mod Tests
use compiling_to_assembly.Prelude.{
  ℕ, zero, suc, ◌+◌, ◌-◌, Bool, true, false, ◌&&◌, not, Option, none, some, ◌==◌, if◌then◌else◌,
}

-- The part of `struct cpu` that these functions use, with FL_IF of the CPU's flags.
pub record Cpu : Type 0 where
  pub interrupts : Bool
  pub ncli : ℕ
  pub intena : Bool

-- `struct spinlock`; `holder` is `lk->cpu`, by the CPU's index.
pub record Lock : Type 0 where
  pub locked : Bool
  pub holder : Option ℕ

pub initlock : Lock
initlock = record { locked = false; holder = none }

pub pushcli : Cpu → Cpu
pushcli c = record {
  interrupts = false;
  ncli = c.ncli + 1;
  intena = if c.ncli == 0 then c.interrupts else c.intena;
}

-- `none` is a panic: interrupts are on, or there is nothing to undo.
pub popcli : Cpu → Option Cpu
popcli c =
    if c.interrupts
    then none
    else if c.ncli == 0
    then none
    else some (record c { ncli = c.ncli - 1; interrupts = (c.ncli - 1 == 0) && c.intena })

-- the test of `holding`
abbrev pub held_by : ℕ → Lock → Bool
held_by me lk = lk.locked && elim (lk.holder) [ none ↦ false | some i ↦ i == me ]

-- `holding` on CPU `me`, between its `pushcli` and `popcli`.
pub holding : ℕ → Lock → Cpu → Option (Bool × Cpu)
unfolding pushcli popcli
holding me lk c = elim (popcli (pushcli c)) [ none ↦ none | some c' ↦ some (held_by me lk, c') ]

-- `acquire` up to its loop; `none` is a panic.
pub acquire_enter : ℕ → Lock → Cpu → Option Cpu
unfolding holding
acquire_enter me lk c = elim (holding me lk (pushcli c)) [
  | none ↦ none
  | some (held, c') ↦ if held then none else some c'
]

-- `xchg(&lk->locked, 1)`: the old value and the lock.
pub xchg : Lock → Bool × Lock
xchg lk = (lk.locked, record lk { locked = true })

-- `lk->cpu = mycpu()`
pub acquire_done : ℕ → Lock → Lock
acquire_done me lk = record lk { holder = some me }

-- `release` up to `lk->cpu = 0`; `none` is a panic.
pub release_enter : ℕ → Lock → Cpu → Option (Lock × Cpu)
unfolding holding
release_enter me lk c = elim (holding me lk c) [
  | none ↦ none
  | some (held, c') ↦ if held then some (record lk { holder = none }, c') else none
]

-- The store of 0 to `lk->locked`.
pub unlock : Lock → Lock
unlock lk = record lk { locked = false }

-- `acquire` and `release` as a whole, on a lock that no other CPU touches meanwhile; `none` is a
-- panic or a loop that does not end.
pub acquire : ℕ → Lock → Cpu → Option (Lock × Cpu)
unfolding acquire_enter xchg acquire_done
acquire me lk c = elim (acquire_enter me lk c) [
  | none ↦ none
  | some c' ↦ let (old, lk') = xchg lk in if old then none else some (acquire_done me lk', c')
]

pub release : ℕ → Lock → Cpu → Option (Lock × Cpu)
unfolding release_enter unlock popcli
release me lk c = elim (release_enter me lk c) [
  | none ↦ none
  | some (lk', c') ↦ elim (popcli c') [ none ↦ none | some c'' ↦ some (unlock lk', c'') ]
]
