-- ===== src/Log/Recover.antt =====
-- Recovery at boot, and a commit followed by any number of crashes of recovery itself.
use mathlib.Core.Path.{subst, sym, ap}
use compiling_to_assembly.Prelude.{
  ℕ, true, ◌^◌, ◌≤◌, leb, ltb, ≥→ltb, ◌≡◌, refl, ◌⊎◌, inl, inr, false, none, arith,
}
use compiling_to_assembly.Log.{
  Block, Disk, Log, State, log_size, header_count, Outcome, overrun, set_log, ok, and_then, ◌>>◌,
  take_head, read_head, bread, brelse, install_trans, clear_n, write_head, crashed, view,
  recover_from_log, commit, read_blocks,
}
use compiling_to_assembly.Log.Outcomes.{Ends, never, crash_inversion, end_inversion}
use compiling_to_assembly.Log.Replay.{Home, listed, replay, read_blocks_lem}
use compiling_to_assembly.Log.Install.{IsWellPlaced}
use compiling_to_assembly.Log.Header.{HeaderOk, Logged, after, SameHome}
use compiling_to_assembly.Log.Settle.{Survives, Survives-ext, Settled, Settled-ext, settle}
use compiling_to_assembly.Log.Commit.{Ready, commit-Ends}

-- The kernel after a reset: nothing is cached, and the log is in its area, with no blocks.
abbrev pub boot : ℕ → ℕ → ℕ → Disk → State
boot start size k d = record {
  disk = d;
  pinned = λ b. none;
  log = record {
    start = start;
    size = size;
    outstanding = 0;
    committing = false;
    n = 0;
    block = λ i. 0;
  };
  budget = k;
  busy = 0;
}

pub header_small : (n : ℕ) → n ≤ log_size → leb (2 ^ 31) n ≡ false
header_small n h = ground arith

take_head_lem :
    (lh : Block) (s : State)
    → lh 0 ≤ log_size
    → take_head lh s
      ≡ ok tt (record s {
        log = record (s.log) { n = lh 0; block = read_blocks lh (lh 0) 0 (s.log.block) };
      })
unfolding take_head
take_head_lem lh s h =
    let c : header_count lh ≡ lh 0 = rw (header_small (lh 0) h) refl in
    let fits : ltb log_size (lh 0) ≡ false = ≥→ltb log_size (lh 0) h in
    subst
      (λ (n : ℕ).
        ◌≡◌ {A = Outcome (Unit {0})}
          (elim (ltb log_size n) [
            | true ↦ overrun
            | false ↦ set_log (record (s.log) { n = n; block = read_blocks lh n 0 (s.log.block) }) s
          ])
          (ok tt (record s {
            log = record (s.log) { n = lh 0; block = read_blocks lh (lh 0) 0 (s.log.block) };
          })))
      (sym c) (rw fits refl)

module _ (start size : ℕ) where
  unfoldable pub read_log : Disk → Log
  read_log d = record {
    start = start;
    size = size;
    outstanding = 0;
    committing = false;
    n = d start 0;
    block = read_blocks (d start) (d start 0) 0 (λ i. 0);
  }

  read-Logged : (d : Disk) → Logged (read_log d) d
  unfolding read_log
  read-Logged d = record {
    count = refl;
    blocks = λ i lt. ground (arith, read_blocks_lem (d start) (d start 0) 0 i (λ i. 0));
  }

  pub read-IsWellPlaced : (d : Disk) → HeaderOk start size (d start) → IsWellPlaced (read_log d)
  unfolding read_log
  read-IsWellPlaced d h = record {
    fits = h.fits;
    within = h.within;
    homes = λ i lt. subst (Home start size) ((read-Logged d).blocks i lt) (h.homes i lt);
  }

  pub read_head_lem :
      (d : Disk) (k : ℕ)
      → d start 0 ≤ log_size
      → read_head (boot start size k d) ≡ ok tt (record (boot start size k d) { log = read_log d })
  unfolding read_head read_log brelse bread
  read_head_lem d k h =
      ap (λ r. and_then r (λ _. brelse start))
        (take_head_lem (d start) (record (boot start size k d) { busy = 1 }) h)

  -- Recovery of a disk whose header has at most LOGSIZE blocks, all outside the log, which they fit: it
  -- installs exactly the logged copies, clears the log and does not panic; if the power fails again,
  -- the disk stands for the same home blocks as before.
  pub recover_from_log-Ends :
      (d : Disk) (k : ℕ)
      → HeaderOk start size (d start)
      → Ends ⊥
          (λ _. Settled start size (after start d))
          (Survives start size (after start d))
          (recover_from_log (boot start size k d))
  unfolding recover_from_log read_log replay listed
  recover_from_log-Ends d k h =
      subst
        (λ r.
          Ends ⊥ (λ _. Settled start size (after start d)) (Survives start size (after start d))
            (and_then r (λ _. install_trans >> (clear_n >> write_head))))
        (sym (read_head_lem d k (h.within)))
        (never (λ f. absurd (omega arith))
          (settle (read_log d) d (λ b. none) 0 (read-IsWellPlaced d h) (read-Logged d)
            (λ b nl. refl) (λ b p q. refl) (record (boot start size k d) { log = read_log d })
            (record {
              log_same = refl;
              at = record { home = λ b hb. refl; area = λ b p q. refl };
              clean = λ b. refl;
              held = omega arith;
            })))

  -- Disk `d'` is left by recoveries of `d` that each lost power.
  pub data Reboots (d : Disk) : Disk → Type 0 where
    first : Reboots d d
    again :
        {d' d'' : Disk} (k : ℕ)
        → Reboots d d'
        → recover_from_log (boot start size k d') ≡ crashed d''
        → Reboots d d''

  pub Reboots-Survives :
      {f : ℕ → Block} {d d' : Disk}
      → Survives start size f d
      → Reboots d d'
      → Survives start size f d'
  Reboots-Survives v first = v
  Reboots-Survives v (again {d'} k r e) =
      let v' = Reboots-Survives v r in
      Survives-ext (v'.stands) (crash_inversion (recover_from_log-Ends d' k (v'.header_ok)) e)

-- Whatever write of a commit the power fails at, and however often it fails again during recovery,
-- a recovery that ends gives every home block its contents from before the commit, or every one the
-- contents that the commit was to write.
pub commit_atomic :
    (s0 : State) {d d' : Disk} {s : State} (k : ℕ)
    → Ready s0
    → commit s0 ≡ crashed d
    → Reboots (s0.log.start) (s0.log.size) d d'
    → recover_from_log (boot (s0.log.start) (s0.log.size) k d') ≡ ok tt s
    → SameHome (s0.log.start) (s0.log.size) (s.disk) (s0.disk)
      ⊎ SameHome (s0.log.start) (s0.log.size) (s.disk) (view s0)
commit_atomic s0 {d} {d'} {s} k r e rs er = elim (crash_inversion (commit-Ends s0 r) e) [
  | inl v ↦ inl (recovered (Reboots-Survives (s0.log.start) (s0.log.size) v rs))
  | inr v ↦ inr (recovered (Reboots-Survives (s0.log.start) (s0.log.size) v rs))
]
  where
    recovered :
        {f : ℕ → Block}
        → Survives (s0.log.start) (s0.log.size) f d'
        → SameHome (s0.log.start) (s0.log.size) (s.disk) f
    recovered v =
        (Settled-ext (v.stands) (
          end_inversion (recover_from_log-Ends (s0.log.start) (s0.log.size) d' k (v.header_ok))
            er)).home
