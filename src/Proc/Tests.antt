-- ===== src/Proc/Tests.antt =====
-- Runs of proc.c on a table of four processes, and the theorems at them.
use compiling_to_assembly.Prelude.{
  ℕ, ◌<◌, ◌≡◌, ◌≢◌, refl, true, false, Option, none, some, List, arith, ◌==◌, if◌then◌else◌,
}
use compiling_to_assembly.Proc.{
  nproc, Proc, Table, ProcState, unused, sleeping, runnable, running, zombie, Channel, null, entry,
  other, sleeps_on, child_of, put_proc, wakeup1, allocproc, sleep, fork, exit, wait, reaped, Call,
  kill, asleep,
}
use compiling_to_assembly.Proc.Wakeup.{wakeup1-sleep}
use compiling_to_assembly.Proc.Wait.{WaitOk, wait-WaitOk}
use compiling_to_assembly.Proc.Kill.{FirstPid, killed_entry, kill_lem, kill-allocproc}

abbrev entry_of : ProcState → ℕ → Option ℕ → Channel → Proc
entry_of s pid parent c = record {
  size = 4096;
  pgdir = 9;
  kstack = 8;
  state = s;
  pid = pid;
  parent = parent;
  chan = c;
  killed = false;
  ofile = λ fd. if fd == 0 then 5 else 0;
  cwd = 6;
}

-- init and a shell wait; the shell's child runs and has a zombie child
abbrev procs : ℕ → Proc
procs i =
    if i == 0
    then entry_of sleeping 1 none (entry 0)
    else if i == 1
    then entry_of sleeping 2 (some 0) (entry 1)
    else if i == 2
    then entry_of running 3 (some 1) null
    else if i == 3
    then entry_of zombie 4 (some 2) null
    else entry_of unused 0 none null

abbrev four : Table
four = record { proc = procs; nextpid = 5; initproc = 0 }

abbrev behind_exit : Option (List Call × Table) → Table
behind_exit (some (c, t)) = t
behind_exit none = four

-- The exit of the child wakes the shell and init, and the shell reaps it.
run_exit :
    (((behind_exit (exit 2 four)).proc 1).state ≡ runnable)
    × (((behind_exit (exit 2 four)).proc 0).state ≡ runnable)
    × (((behind_exit (exit 2 four)).proc 3).parent ≡ some 0)
    × ((wait 1 (behind_exit (exit 2 four))).result ≡ reaped 3)
    × ((wait 1 four).result ≡ asleep)
unfolding exit wait child_of sleeps_on
run_exit = (refl, refl, refl, refl, refl)

-- A new process takes the first unused entry and the next pid; its open files are shared.
run_fork :
    ((fork 2 7 9 four).result ≡ some 5)
    × ((fork 2 7 9 four).child ≡ some 4)
    × (((fork 2 7 9 four).table.proc 4).parent ≡ some 2)
    × ((fork 2 7 0 four).child ≡ none)
    × ((fork 2 0 9 four).child ≡ none)
unfolding fork
run_fork = (refl, refl, refl, refl, refl)

wakeup1-sleep_example :
    (((wakeup1 (other 3) (sleep 2 (other 3) four)).proc 2).state ≡ runnable)
    × (false ≡ false → ((wakeup1 (other 4) (sleep 2 (other 3) four)).proc 2).state ≡ sleeping)
wakeup1-sleep_example = wakeup1-sleep 2 (other 3) (other 4) four (omega arith)

wait-WaitOk_example : WaitOk 2 four (wait 2 four)
wait-WaitOk_example = wait-WaitOk 2 four

kill_lem_example :
    ((j : ℕ)
      → FirstPid 2 0 j four
      → kill 2 four ≡ (true, put_proc four j (killed_entry (four.proc j))))
    × (((m : ℕ) → m < nproc → (four.proc m).pid ≢ 2) → kill 2 four ≡ (false, four))
kill_lem_example = kill_lem 2 four

first_free : FirstPid 0 0 4 four
first_free = record {
  above = omega arith;
  bound = omega arith;
  has = refl;
  before = λ m x y. ground arith;
}

kill-allocproc_example :
    ((kill 0 four).0 ≡ true)
    × ((allocproc 7 ((kill 0 four).1)).0 ≡ some 4)
    × (((allocproc 7 ((kill 0 four).1)).1.proc 4).killed ≡ true)
kill-allocproc_example =
    kill-allocproc 4 7 four first_free refl (λ m x. ground arith) (ground arith)
