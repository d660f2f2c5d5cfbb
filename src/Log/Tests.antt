-- ===== src/Log/Tests.antt =====
-- Runs of log.c on a small disk, and the theorems at them.
use compiling_to_assembly.Prelude.{
  ℕ, ◌+◌, ◌≡◌, ◌≢◌, refl, ◌⊎◌, inr, true, false, Option, none, some, [], ◌∷◌, arith, ◌==◌,
  if◌then◌else◌,
}
use compiling_to_assembly.Log.{
  Block, Disk, Log, State, Outcome, ok, crashed, panic, asleep, overrun, view, recover_from_log,
  initlog, commit, log_write, begin_op, max_op_blocks, log_size,
}
use compiling_to_assembly.Log.Outcomes.{Ends, NoBuffers}
use compiling_to_assembly.Log.Install.{IsWellPlaced}
use compiling_to_assembly.Log.Replay.{listed}
use compiling_to_assembly.Log.Header.{HeaderOk, SameHome, after}
use compiling_to_assembly.Log.Settle.{Survives, Settled}
use compiling_to_assembly.Log.Commit.{Ready, OldOrNew, commit-Ends}
use compiling_to_assembly.Log.Recover.{boot, first, again, recover_from_log-Ends, commit_atomic}
use compiling_to_assembly.Log.Power.{recover_from_log_total}
use compiling_to_assembly.Log.Write.{log_write-Ready}
use compiling_to_assembly.Log.Reserve.{Calls, Reach, boots, next, begins, log_write-ne-panic}

-- A log of 31 blocks from block 2 on; blocks 40 and 41 are changed in the cache, and logged.
abbrev old_disk : Disk
old_disk b w = if b == 2 then 0 else b

abbrev changed : ℕ → Option Block
changed b = if b == 40 then some (λ w. 7) else if b == 41 then some (λ w. 8) else none

abbrev logged_blocks : ℕ → ℕ
logged_blocks i = if i == 0 then 40 else 41

abbrev small_log : Log
small_log = record {
  start = 2;
  size = 31;
  outstanding = 0;
  committing = true;
  n = 2;
  block = logged_blocks;
}

abbrev with_power : ℕ → State
with_power k = record { disk = old_disk; pinned = changed; log = small_log; budget = k; busy = 2 }

abbrev disk_of : Outcome (Unit {0}) → Disk
disk_of (ok a s) = s.disk
disk_of panic = old_disk
disk_of asleep = old_disk
disk_of overrun = old_disk
disk_of (crashed d) = d

abbrev state_of : Outcome (Unit {0}) → State
state_of (ok a s) = s
state_of panic = with_power 0
state_of asleep = with_power 0
state_of overrun = with_power 0
state_of (crashed d) = with_power 0

-- With power for two writes the copies are on disk and the header is not: recovery gives the old
-- contents. With one write more it gives the new ones.
commit_loses_power :
    (disk_of (recover_from_log (boot 2 31 9 (disk_of (commit (with_power 2))))) 40 0 ≡ 40)
    × (disk_of (recover_from_log (boot 2 31 9 (disk_of (commit (with_power 3))))) 40 0 ≡ 7)
    × (disk_of (recover_from_log (boot 2 31 9 (disk_of (commit (with_power 3))))) 41 0 ≡ 8)
unfolding commit recover_from_log
commit_loses_power = (refl, refl, refl)

small-IsWellPlaced : IsWellPlaced small_log
small-IsWellPlaced = record {
  fits = omega arith;
  within = omega arith;
  homes = λ i h. inr (ground arith);
}

small-Ready : (k : ℕ) → Ready (with_power k)
unfolding listed
small-Ready k = record {
  placed = small-IsWellPlaced;
  erased = refl;
  unpinned = λ b p q. ground arith;
  covered = λ b l. ground arith;
}

-- Power fails behind the header, then again behind one write of the recovery.
abbrev crash_disk : Disk
crash_disk = disk_of (commit (with_power 3))

abbrev crash_disk' : Disk
crash_disk' = disk_of (recover_from_log (boot 2 31 1 crash_disk))

abbrev recovered : State
recovered = state_of (recover_from_log (boot 2 31 9 crash_disk'))

commit_atomic_example :
    SameHome 2 31 (recovered.disk) old_disk ⊎ SameHome 2 31 (recovered.disk) (view (with_power 3))
unfolding commit recover_from_log
commit_atomic_example =
    commit_atomic (with_power 3) {d = crash_disk} {d' = crash_disk'} {s = recovered} 9
      (small-Ready 3) refl (again 1 first refl) refl

commit-Ends_example :
    Ends
      (NoBuffers 2)
      (λ _. Settled 2 31 (view (with_power 4)))
      (OldOrNew (with_power 4) (small-Ready 4))
      (commit (with_power 4))
commit-Ends_example = commit-Ends (with_power 4) (small-Ready 4)

-- a disk with block 40 logged
abbrev log_disk : Disk
log_disk b w = if b == 2 then (if w == 0 then 1 else 40) else b

log_disk-HeaderOk : HeaderOk 2 31 (log_disk 2)
log_disk-HeaderOk = record {
  fits = omega arith;
  within = omega arith;
  homes = λ i h. inr (ground arith);
}

recover_from_log-Ends_example :
    Ends ⊥
      (λ _. Settled 2 31 (after 2 log_disk))
      (Survives 2 31 (after 2 log_disk))
      (recover_from_log (boot 2 31 1 log_disk))
recover_from_log-Ends_example = recover_from_log-Ends 2 31 log_disk 1 log_disk-HeaderOk

recover_from_log_total_example :
    (s : State) × (recover_from_log (boot 2 31 5 log_disk) ≡ ok tt s)
    × (s.log.n ≡ 0)
    × (s.budget + 2 ≡ 5)
recover_from_log_total_example =
    recover_from_log_total 2 31 5 log_disk log_disk-HeaderOk (omega arith)

-- the superblock in block 1 gives the place of the log
initlog_reads_superblock :
    (state_of (initlog (boot 0 0 9 (λ b w. if b == 1 then 31 else 0)))).log.start ≡ 31
unfolding initlog
initlog_reads_superblock = refl

abbrev one_call : State
one_call = record {
  disk = old_disk;
  pinned = changed;
  log = record small_log { outstanding = 1 };
  budget = 0;
  busy = 2;
}

one_call-Ready : Ready one_call
unfolding listed
one_call-Ready = record {
  placed = record { fits = omega arith; within = omega arith; homes = λ i h. inr (ground arith) };
  erased = refl;
  unpinned = λ b p q. ground arith;
  covered = λ b l. ground arith;
}

abbrev after_write : State
after_write = state_of (log_write 50 (λ w. 9) one_call)

log_write-Ready_example :
    Ready after_write
    × ((x : ℕ) → view after_write x ≡ (if 50 == x then (λ w. 9) else view one_call x))
unfolding log_write
log_write-Ready_example =
    log_write-Ready 50 (λ w. 9) one_call after_write one_call-Ready (inr (omega arith)) refl

abbrev empty_log : ℕ → Log
empty_log size = record {
  start = 2;
  size = size;
  outstanding = 0;
  committing = false;
  n = 0;
  block = λ i. 0;
}

abbrev one_begun : Calls
one_begun = record { log = record (empty_log 31) { outstanding = 1 }; credits = max_op_blocks ∷ [] }

one_begun-Reach : Reach 2 31 one_begun
unfolding begin_op
one_begun-Reach = next (boots (λ i. 0)) (begins refl)

log_write-ne-panic_example :
    log_write 50
      (λ w. 9)
      (record { disk = old_disk; pinned = λ b. none; log = one_begun.log; budget = 0; busy = 0 })
    ≢ panic
log_write-ne-panic_example =
    log_write-ne-panic 0 9 50 (λ w. 9)
      (record { disk = old_disk; pinned = λ b. none; log = one_begun.log; budget = 0; busy = 0 })
      (omega arith) one_begun-Reach refl refl

-- The third call is admitted beside two others, and a fourth waits.
three_calls :
    (begin_op (record (empty_log log_size) { outstanding = 2 })
      ≡ some (record (empty_log log_size) { outstanding = 3 }))
    × (begin_op (record (empty_log log_size) { outstanding = 3 }) ≡ none)
unfolding begin_op
three_calls = (refl, refl)
