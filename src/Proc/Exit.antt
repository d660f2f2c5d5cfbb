-- ===== src/Proc/Exit.antt =====
-- `exit` of proc.c: the process becomes a zombie, its children go to init, and whoever waits for
-- it is woken.
use compiling_to_assembly.Prelude.{ℕ, ◌<◌, ◌≡◌, ◌≢◌, true, false, some, if◌then◌else◌}
use compiling_to_assembly.Proc.{
  nproc, Proc, Table, zombie, is_zombie, entry, sleeps_on, child_of, put_proc,
}

-- What `exit` by process `cur` leaves of the table.
pub record Exited (cur : ℕ) (t t' : Table) : Type 0 where
  pub gone : (t'.proc cur).state ≡ zombie
  pub parents :
      (j : ℕ)
      → j < nproc
      → (t'.proc j).parent
        ≡ (if child_of cur (t.proc j) then some (t.initproc) else (t.proc j).parent)
  pub orphans : (j : ℕ) → j < nproc → child_of cur (t'.proc j) ≡ false
  pub others : (j : ℕ) → j ≢ cur → is_zombie ((t'.proc j).state) ≡ is_zombie ((t.proc j).state)
  pub parent_woken :
      (q : ℕ)
      → (t.proc cur).parent ≡ some q
      → q < nproc
      → q ≢ cur
      → sleeps_on (entry q) (t'.proc q) ≡ false
  pub init_woken :
      (j : ℕ)
      → j < nproc
      → j ≢ cur
      → child_of cur (t.proc j) ≡ true
      → is_zombie ((t.proc j).state) ≡ true
      → t.initproc < nproc
      → sleeps_on (entry (t.initproc)) (t'.proc (t.initproc)) ≡ false

closed : ℕ → (ℕ → ℕ) → ℕ → Table → Table
closed cur files dir t = put_proc t cur (record (t.proc cur) { ofile = files; cwd = dir })
