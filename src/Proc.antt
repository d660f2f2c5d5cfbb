-- ===== src/Proc.antt =====
-- projects/xv6/proc.c: the process table. Each function is what runs under `ptable.lock`, or by the
-- process alone on its own entry, up to the next switch of context; what it calls of other parts is
-- listed in order, and what those return is an argument. A process is its index in the table.
pub mod Wakeup
pub mod Reparent
pub mod Exit
pub mod Wait
pub mod Kill
mod Tests
use compiling_to_assembly.Prelude.{
  ℕ, zero, suc, ◌+◌, Bool, true, false, ◌&&◌, ◌||◌, not, Option, none, some, List, [], ◌∷◌, ◌++◌,
  ◌==◌, if◌then◌else◌, update,
}

abbrev pub nproc : ℕ
nproc = 64

abbrev pub nofile : ℕ
nofile = 16

pub data ProcState : Type 0 where
  unused embryo sleeping runnable running zombie : ProcState

abbrev pub is_unused : ProcState → Bool
is_unused unused = true
is_unused _ = false

abbrev pub is_sleeping : ProcState → Bool
is_sleeping sleeping = true
is_sleeping _ = false

abbrev pub is_zombie : ProcState → Bool
is_zombie zombie = true
is_zombie _ = false

abbrev pub is_runnable : ProcState → Bool
is_runnable runnable = true
is_runnable _ = false

-- What a process can sleep on: the entry of a process, or another address.
pub data Channel : Type 0 where
  null : Channel
  entry other : ℕ → Channel

abbrev pub same_channel : Channel → Channel → Bool
same_channel null null = true
same_channel (entry i) (entry j) = i == j
same_channel (other a) (other b) = a == b
same_channel _ _ = false

-- `struct proc`, less the trap frame, the saved context and the name. 0 is no stack, directory, file
-- or inode.
pub record Proc : Type 0 where
  pub size : ℕ
  pub pgdir : ℕ
  pub kstack : ℕ
  pub state : ProcState
  pub pid : ℕ
  pub parent : Option ℕ
  pub chan : Channel
  pub killed : Bool
  pub ofile : ℕ → ℕ
  pub cwd : ℕ

pub record Table : Type 0 where
  pub proc : ℕ → Proc
  pub nextpid : ℕ
  pub initproc : ℕ

-- Calls of other parts of the kernel.
pub data Call : Type 0 where
  kfree freevm filedup fileclose idup iput switchuvm : ℕ → Call
  begin_op end_op : Call

abbrev pub put_proc : Table → ℕ → Proc → Table
put_proc t i p = record t { proc = update (t.proc) i p }

abbrev pub set_state : Table → ℕ → ProcState → Table
set_state t i s = put_proc t i (record (t.proc i) { state = s })

pub child_of : ℕ → Proc → Bool
child_of i p = elim (p.parent) [ none ↦ false | some j ↦ j == i ]

-- the test of `wakeup1`
pub sleeps_on : Channel → Proc → Bool
sleeps_on c p = is_sleeping (p.state) && same_channel (p.chan) c

-- The loop of `wakeup1` from entry `i`, with the rounds left.
pub wake_loop : Channel → ℕ → ℕ → Table → Table
wake_loop c zero i t = t
wake_loop c (suc k) i t =
    wake_loop c k (i + 1) (if sleeps_on c (t.proc i) then set_state t i runnable else t)

pub wakeup1 : Channel → Table → Table
unfolding wake_loop
wakeup1 c t = wake_loop c nproc 0 t

-- The search of `allocproc`.
pub find_unused : Table → ℕ → ℕ → Option ℕ
find_unused t zero i = none
find_unused t (suc k) i = elim (is_unused ((t.proc i).state)) [
  | true ↦ some i
  | false ↦ find_unused t k (i + 1)
]

-- `allocproc`, where `kalloc` returns `stack`: the entry, if there is one, and the table. The
-- `context` and `tf` that it lays out on the stack are not kept here.
pub allocproc : ℕ → Table → Option ℕ × Table
unfolding find_unused
allocproc stack t = elim (find_unused t nproc 0) [
  | none ↦ (none, t)
  | some i ↦
      let p = record (t.proc i) { state = embryo; pid = t.nextpid } in
      let t' = record t { proc = update (t.proc) i p; nextpid = t.nextpid + 1 } in
      if stack == 0
      then (none, put_proc t' i (record p { kstack = 0; state = unused }))
      else (some i, put_proc t' i (record p { kstack = stack }))
]

-- The loop of `fork` over the open files: the calls, and the files of the new process.
pub dup_loop : (ℕ → ℕ) → ℕ → ℕ → (ℕ → ℕ) → List Call × (ℕ → ℕ)
dup_loop files zero fd own = ([], own)
dup_loop files (suc k) fd own = if files fd == 0 then dup_loop files k (fd + 1) own else (
  filedup (files fd) ∷ (dup_loop files k (fd + 1) (update own fd (files fd))).0,
  (dup_loop files k (fd + 1) (update own fd (files fd))).1,
)

pub record Forked : Type 0 where
  pub table : Table
  pub child : Option ℕ
  pub result : Option ℕ
  pub calls : List Call

-- The rest of `fork` once `allocproc` has given entry `i`.
pub fork_into : ℕ → ℕ → ℕ → Table → Forked
unfolding dup_loop
fork_into cur dir i t =
    let np = t.proc i in
    let me = t.proc cur in
    let dups = dup_loop (me.ofile) nofile 0 (np.ofile) in
    if dir == 0
    then record {
      table = put_proc t i (record np { pgdir = dir; kstack = 0; state = unused });
      child = none;
      result = none;
      calls = kfree (np.kstack) ∷ [];
    }
    else record {
      table = put_proc t i (record np {
        pgdir = dir;
        size = me.size;
        parent = some cur;
        ofile = dups.1;
        cwd = me.cwd;
        state = runnable;
      });
      child = some i;
      result = some (np.pid);
      calls = dups.0 ++ (idup (me.cwd) ∷ []);
    }

-- `fork` by process `cur`, where `kalloc` returns `stack` and `copyuvm` returns `dir`. `result` is
-- the child's pid, and `none` is -1.
pub fork : ℕ → ℕ → ℕ → Table → Forked
unfolding allocproc fork_into
fork cur stack dir t = elim ((allocproc stack t).0) [
  | none ↦ record { table = (allocproc stack t).1; child = none; result = none; calls = [] }
  | some i ↦ fork_into cur dir i ((allocproc stack t).1)
]

-- The first loop of `exit`: the calls, and the files left.
pub close_loop : ℕ → ℕ → (ℕ → ℕ) → List Call × (ℕ → ℕ)
close_loop zero fd files = ([], files)
close_loop (suc k) fd files = if files fd == 0 then close_loop k (fd + 1) files else (
  fileclose (files fd) ∷ (close_loop k (fd + 1) (update files fd 0)).0,
  (close_loop k (fd + 1) (update files fd 0)).1,
)

-- One round of the second loop of `exit`: a child goes to `init`, which wakes for a zombie.
pub reparent_one : ℕ → ℕ → Table → Table
unfolding wakeup1
reparent_one cur i t =
    if child_of cur (t.proc i)
    then (let t' = put_proc t i (record (t.proc i) { parent = some (t.initproc) }) in
        if is_zombie ((t.proc i).state) then wakeup1 (entry (t.initproc)) t' else t')
    else t

-- The loop from entry `i`, with the rounds left.
pub reparent_loop : ℕ → ℕ → ℕ → Table → Table
unfolding reparent_one
reparent_loop cur zero i t = t
reparent_loop cur (suc k) i t = reparent_loop cur k (i + 1) (reparent_one cur i t)

-- the channel on which the parent of a process waits; a process with no parent has a null one
abbrev pub parent_channel : Proc → Channel
parent_channel p = elim (p.parent) [ none ↦ null | some j ↦ entry j ]

-- The part of `exit` under `ptable.lock`, up to the switch to the scheduler.
pub exit_table : ℕ → Table → Table
unfolding reparent_loop wakeup1
exit_table cur t =
    set_state (reparent_loop cur nproc 0 (wakeup1 (parent_channel (t.proc cur)) t)) cur zombie

-- `exit` by process `cur`; `none` is the panic.
pub exit : ℕ → Table → Option (List Call × Table)
unfolding close_loop exit_table
exit cur t =
    if cur == t.initproc
    then none
    else let p = t.proc cur in
      let closed = close_loop nofile 0 (p.ofile) in
      some (
        closed.0 ++ (begin_op ∷ iput (p.cwd) ∷ end_op ∷ []),
        exit_table cur (put_proc t cur (record p { ofile = closed.1; cwd = 0 })),
      )

-- What the scan of `wait` finds.
pub data Scan : Type 0 where
  reap : ℕ → Scan
  finished : Bool → Scan

-- The scan of `wait` from entry `i`, with `havekids`.
pub wait_scan : Table → ℕ → ℕ → ℕ → Bool → Scan
wait_scan t cur zero i havekids = finished havekids
wait_scan t cur (suc k) i havekids = elim (child_of cur (t.proc i)) [
  | false ↦ wait_scan t cur k (i + 1) havekids
  | true ↦ elim (is_zombie ((t.proc i).state)) [
    | true ↦ reap i
    | false ↦ wait_scan t cur k (i + 1) true
  ]
]

-- `wait` returns a pid or -1, or goes to sleep on its own entry.
pub data WaitEnd : Type 0 where
  reaped : ℕ → WaitEnd
  no_child asleep : WaitEnd

pub record Waited : Type 0 where
  pub table : Table
  pub result : WaitEnd
  pub calls : List Call

-- The entry that `wait` frees. The name's first byte is cleared too.
abbrev pub freed_entry : Proc → Proc
freed_entry p = record p { kstack = 0; pid = 0; parent = none; killed = false; state = unused }

-- `sleep` of process `cur` on a channel, up to the switch to the scheduler.
pub sleep : ℕ → Channel → Table → Table
sleep cur c t = put_proc t cur (record (t.proc cur) { chan = c; state = sleeping })

-- The end of `sleep`, once the process runs again.
pub sleep_done : ℕ → Table → Table
sleep_done cur t = put_proc t cur (record (t.proc cur) { chan = null })

-- One pass of the loop of `wait` by process `cur`.
pub wait : ℕ → Table → Waited
unfolding wait_scan sleep
wait cur t = elim (wait_scan t cur nproc 0 false) [
  | reap i ↦ record {
    table = put_proc t i (freed_entry (t.proc i));
    result = reaped ((t.proc i).pid);
    calls = kfree ((t.proc i).kstack) ∷ freevm ((t.proc i).pgdir) ∷ [];
  }
  | finished havekids ↦
      if not havekids || (t.proc cur).killed
      then record { table = t; result = no_child; calls = [] }
      else record { table = sleep cur (entry cur) t; result = asleep; calls = [] }
]

-- `yield`, up to the switch to the scheduler.
pub yield : ℕ → Table → Table
yield cur t = set_state t cur runnable

-- The step of `scheduler` at entry `i`, up to the switch to the process.
pub schedule : ℕ → Table → Option (List Call × Table)
schedule i t =
    if is_runnable ((t.proc i).state) then some (switchuvm i ∷ [], set_state t i running) else none

-- `kill`, from entry `i` on; the flag is the success of the call.
pub kill_loop : ℕ → ℕ → ℕ → Table → Bool × Table
kill_loop pid zero i t = (false, t)
kill_loop pid (suc k) i t = elim ((t.proc i).pid == pid) [
  | true ↦ (
    true,
    put_proc t i (record (t.proc i) {
      killed = true;
      state = if is_sleeping ((t.proc i).state) then runnable else (t.proc i).state;
    }),
  )
  | false ↦ kill_loop pid k (i + 1) t
]

pub kill : ℕ → Table → Bool × Table
unfolding kill_loop
kill pid t = kill_loop pid nproc 0 t
