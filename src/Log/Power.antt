-- ===== src/Log/Power.antt =====
-- With enough writes before a power failure, commits and recoveries end.
use compiling_to_assembly.Prelude.{ℕ, zero, suc, ◌+◌, ◌≤◌, ◌<◌, ◌≡◌, refl, ◌∙◌, ap, arith}
use mathlib.Core.Path.{subst, sym}
use compiling_to_assembly.Log.{
  Disk, Log, State, Outcome, ok, Run, and_then, ◌>>◌, nbuf, install_loop, install_trans, clear_n,
  write_head, recover_from_log,
}
use compiling_to_assembly.Log.Outcomes.{Ends, done, died, full, install_block-Ends}
use compiling_to_assembly.Log.Install.{IsWellPlaced, slot_home}
use compiling_to_assembly.Log.Recover.{boot, read_log, read_head_lem, read-IsWellPlaced}
use compiling_to_assembly.Log.Header.{HeaderOk, write_head-Ends}

-- The run ends in a state with the same log, after `k` writes.
pub record Writes (k : ℕ) (s : State) (r : Outcome (Unit {0})) : Type 0 where
  pub last : State
  pub ends : r ≡ ok tt last
  pub log_same : last.log ≡ s.log
  pub spent : last.budget + k ≡ s.budget
  pub kept : last.busy ≤ s.busy

-- Two buffers are free.
abbrev pub IsRoomy : State → Type 0
IsRoomy s = s.busy + 2 ≤ nbuf

Ends-Writes :
    (k : ℕ) (s : State) (r : Outcome (Unit {0}))
    → Ends ⊥ (λ _ t. (t.log ≡ s.log) × (t.budget + k ≡ s.budget) × (t.busy ≤ s.busy)) (λ _. ⊥) r
    → Writes k s r
Ends-Writes k s _ (done {s = t} (e, f, g)) = record {
  last = t;
  ends = refl;
  log_same = e;
  spent = f;
  kept = g;
}
Ends-Writes k s _ (died x) = absurd x
Ends-Writes k s _ (full x) = absurd x

seq-Writes :
    (j k m : ℕ) {s : State} {r : Outcome (Unit {0})} (f : Run (Unit {0}))
    → j + k ≡ m
    → (w : Writes j s r) → Writes k (w.last) (f (w.last))
    → Writes m s (and_then r (λ _. f))
seq-Writes j k m f e w v = record {
  last = v.last;
  ends = ap (λ r. and_then r (λ _. f)) (w.ends) ∙ v.ends;
  log_same = v.log_same ∙ w.log_same;
  spent = omega (arith, w.spent, v.spent);
  kept = omega (arith, w.kept, v.kept);
}

install_loop-Writes :
    (k tail : ℕ) (s : State)
    → IsWellPlaced (s.log)
    → tail + k ≤ s.log.n
    → IsRoomy s
    → k ≤ s.budget
    → Writes k s (install_loop k tail s)
unfolding install_loop
install_loop-Writes zero tail s p l b h = record {
  last = s;
  ends = refl;
  log_same = refl;
  spent = omega arith;
  kept = omega arith;
}
install_loop-Writes (suc k) tail s p l b h =
    let w = Ends-Writes 1 s _ (
      install_block-Ends s (λ f. absurd (omega arith)) (λ z. absurd (omega arith))
        (s.log.start + tail + 1) (s.log.block tail) (slot_home (s.log) tail p (omega arith))
        (λ k j z g. (refl, omega (arith, z), g))) in
    seq-Writes 1 k (suc k) (install_loop k (tail + 1)) (omega arith) w (
      install_loop-Writes k (tail + 1) (w.last) (subst IsWellPlaced (sym (w.log_same)) p)
        (omega (arith, ap (λ (m : Log). m.n) (w.log_same))) (omega (arith, w.kept))
        (omega (arith, w.spent)))

write_head-Writes : (s : State) → IsRoomy s → 0 < s.budget → Writes 1 s (write_head s)
write_head-Writes s b h = Ends-Writes 1 s _ (
    write_head-Ends s (λ f. absurd (omega arith)) (λ z. absurd (omega arith))
      (λ k j z g. (refl, omega (arith, z), g)))

-- Erasing the log in memory writes nothing to disk, so it stands beside the write that follows it.
record Installs (k : ℕ) (s : State) (r : Outcome (Unit {0})) : Type 0 where
  last : State
  ends : r ≡ ok tt last
  empty : last.log.n ≡ 0
  spent : last.budget + k ≡ s.budget

clear-Installs : (s : State) → IsRoomy s → 0 < s.budget → Installs 1 s ((clear_n >> write_head) s)
unfolding clear_n
clear-Installs s b h =
    let w = write_head-Writes (record s { log = record (s.log) { n = 0 } }) b h in
    record {
      last = w.last;
      ends = w.ends;
      empty = ap (λ (l : Log). l.n) (w.log_same);
      spent = w.spent;
    }

then-Installs :
    (j k m : ℕ) {s : State} {r : Outcome (Unit {0})} (f : Run (Unit {0}))
    → j + k ≡ m
    → (w : Writes j s r) → Installs k (w.last) (f (w.last))
    → Installs m s (and_then r (λ _. f))
then-Installs j k m f e w v = record {
  last = v.last;
  ends = ap (λ r. and_then r (λ _. f)) (w.ends) ∙ v.ends;
  empty = v.empty;
  spent = omega (arith, w.spent, v.spent);
}

settle-Installs :
    (s : State)
    → IsWellPlaced (s.log)
    → IsRoomy s
    → s.log.n < s.budget
    → Installs (s.log.n + 1) s ((install_trans >> (clear_n >> write_head)) s)
unfolding install_trans
settle-Installs s p b h =
    let w = install_loop-Writes (s.log.n) 0 s p (omega arith) b (omega arith) in
    then-Installs (s.log.n) 1 (s.log.n + 1) (clear_n >> write_head) refl w
      (clear-Installs (w.last) (omega (arith, w.kept)) (omega (arith, w.spent)))

-- A recovery of a disk whose header has at most LOGSIZE blocks, all outside the log, which they fit,
-- makes one write for each logged block and one for the header: given more power than that it ends,
-- with an empty log in memory.
pub recover_from_log_total :
    (start size k : ℕ) (d : Disk)
    → HeaderOk start size (d start)
    → d start 0 < k
    → (s : State) × (recover_from_log (boot start size k d) ≡ ok tt s)
      × (s.log.n ≡ 0)
      × (s.budget + (d start 0 + 1) ≡ k)
unfolding recover_from_log read_log
recover_from_log_total start size k d o h =
    let w =
      settle-Installs (record (boot start size k d) { log = read_log start size d })
        (read-IsWellPlaced start size d o) (omega arith) h in
    (
      w.last,
      ap (λ r. and_then r (λ _. install_trans >> (clear_n >> write_head)))
            (read_head_lem start size d k (o.within))
          ∙ w.ends,
      w.empty,
      w.spent,
    )
