-- ===== src/Sleeplock/Handover.antt =====
-- A sleep lock of sleeplock.c goes from its holder to a process that waits for it.
use compiling_to_assembly.Prelude.{ℕ, ◌<◌, ◌≡◌, refl, true, none, some, ◌==◌}
use compiling_to_assembly.Proc.{nproc, other, runnable, Table, sleep}
use compiling_to_assembly.Proc.Wakeup.{wakeup1-sleep}
use compiling_to_assembly.Sleeplock.{SleepLock, acquiresleep, releasesleep, holdingsleep}

sleeps_on_taken :
    (cur addr : ℕ) (lk : SleepLock) (t : Table)
    → lk.locked ≡ true
    → acquiresleep cur addr lk t ≡ (none, sleep cur (other addr) t)
unfolding acquiresleep
sleeps_on_taken cur addr lk t h = rw (acquiresleep, h) refl

-- A process that finds a lock taken goes to sleep; behind the release it is runnable, and its next pass
-- gets the lock, which no process with another pid then holds.
pub acquiresleep-releasesleep :
    (cur addr : ℕ) (lk : SleepLock) (t : Table)
    → cur < nproc
    → lk.locked ≡ true
    → (slept : Table) × (acquiresleep cur addr lk t ≡ (none, slept))
      × (((releasesleep addr lk slept).1.proc cur).state ≡ runnable)
      × ((mine : SleepLock) × (acquiresleep cur addr
              ((releasesleep addr lk slept).0)
              ((releasesleep addr lk slept).1)
            ≡ (some mine, (releasesleep addr lk slept).1))
          × ((pid : ℕ)
              → holdingsleep pid mine ≡ (((releasesleep addr lk slept).1.proc cur).pid == pid)))
unfolding acquiresleep releasesleep holdingsleep
acquiresleep-releasesleep cur addr lk t l h = (
  sleep cur (other addr) t,
  sleeps_on_taken cur addr lk t h,
  (wakeup1-sleep cur (other addr) (other addr) t l).0,
  (_, refl, λ pid. refl),
)
