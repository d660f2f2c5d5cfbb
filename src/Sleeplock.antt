-- ===== src/Sleeplock.antt =====
-- projects/xv6/sleeplock.c, over the process table of Proc. The spin lock inside a sleep lock makes each
-- part below one step. A lock is known to sleepers by its address.
pub mod Handover
use compiling_to_assembly.Prelude.{ℕ, Bool, true, false, ◌&&◌, Option, none, some, ◌==◌}
use compiling_to_assembly.Proc.{Channel, other, Table, sleep, wakeup1}

-- `struct sleeplock` without its spin lock and name.
pub record SleepLock : Type 0 where
  pub locked : Bool
  pub pid : ℕ

-- `initsleeplock`
unfoldable pub initsleeplock : SleepLock
initsleeplock = record { locked = false; pid = 0 }

-- `acquiresleep` by process `cur`, up to its end or to the next sleep, behind which it runs again: the
-- lock, or `none` asleep.
pub acquiresleep : ℕ → ℕ → SleepLock → Table → Option SleepLock × Table
acquiresleep cur addr lk t = elim (lk.locked) [
  | true ↦ (none, sleep cur (other addr) t)
  | false ↦ (some (record { locked = true; pid = (t.proc cur).pid }), t)
]

-- `releasesleep`
unfoldable pub releasesleep : ℕ → SleepLock → Table → SleepLock × Table
releasesleep addr lk t = (record { locked = false; pid = 0 }, wakeup1 (other addr) t)

-- `holdingsleep` by a process with pid `me`
unfoldable pub holdingsleep : ℕ → SleepLock → Bool
holdingsleep me lk = lk.locked && (lk.pid == me)
