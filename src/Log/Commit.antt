-- ===== src/Log/Commit.antt =====
-- `commit`: all of a transaction's blocks reach their homes, or none does, wherever power fails.
use mathlib.Core.Path.{subst, sym, ap, ◌∙◌}
use compiling_to_assembly.Prelude.{
  ℕ, zero, suc, ◌+◌, ◌≤◌, ◌<◌, ◌≡◌, refl, ◌⊎◌, inl, inr, false, none, arith, update,
}
use compiling_to_assembly.Prelude.{Bool-cases, ltb}
use compiling_to_assembly.Log.{◌>>◌}
use compiling_to_assembly.Log.{
  Block, Disk, Log, State, view, write_log_loop, write_log, install_trans, clear_n, write_head,
  commit,
}
use compiling_to_assembly.Log.Outcomes.{NoBuffers, Ends, done, bind, mono, written, log_block-Ends}
use compiling_to_assembly.Log.Replay.{replay, listed, replay-ext, replay-view}
use compiling_to_assembly.Log.Install.{IsWellPlaced, Installed, copy, slot_home}
use compiling_to_assembly.Log.Header.{
  Logged, after, SameHome, header, header-n, header-block, write_head-Ends, after-Logged,
}
use compiling_to_assembly.Log.Settle.{Survives, Survives-ext, Settled, Settled-ext, settle}

-- A log between commits: it fits, the header on disk is empty, and only its blocks are pinned.
pub record Ready (s : State) : Type 0 where
  pub placed : IsWellPlaced (s.log)
  pub erased : s.disk (s.log.start) 0 ≡ 0
  pub unpinned : (b : ℕ) → s.log.start ≤ b → b < s.log.start + s.log.size → s.pinned b ≡ none
  pub covered : (b : ℕ) → listed (s.log.n) (s.log.block) b ≡ false → s.pinned b ≡ none

module _ (s0 : State) (r : Ready s0) where
  abbrev l : Log
  l = s0.log

  -- The first `tail` copies stand in the log area; nothing else has changed.
  record Copied (tail : ℕ) (s : State) : Type 0 where
    log_same : s.log ≡ s0.log
    head : s.disk (s0.log.start) ≡ s0.disk (s0.log.start)
    home : SameHome (s0.log.start) (s0.log.size) (s.disk) (s0.disk)
    copies : (i : ℕ) → i < tail → copy (s.disk) (s0.log.start) i ≡ view s0 (s0.log.block i)
    pins : (b : ℕ) → s.pinned b ≡ s0.pinned b
    held : s.busy ≤ s0.busy

  abbrev Untouched : Disk → Type 0
  Untouched = Survives (s0.log.start) (s0.log.size) (s0.disk)

  Copied-Untouched : (tail : ℕ) (s : State) → Copied tail s → Untouched (s.disk)
  Copied-Untouched tail s c =
      let e : s.disk (s0.log.start) 0 ≡ 0 = ap (λ (h : Block). h 0) (c.head) ∙ r.erased in
      record {
        header_ok = record {
          fits = omega (arith, r.placed.fits);
          within = omega (arith, e);
          homes = λ i lt. absurd (omega arith);
        };
        stands = λ b h. rw e (unfold replay in c.home b h);
      }

  Copied-step :
      (tail k j : ℕ) (s : State)
      → tail < s0.log.n
      → j ≤ s.busy
      → Copied tail s
      → Copied (tail + 1) (written (s.log.start + tail + 1) (view s (s.log.block tail)) k j s)
  Copied-step tail k j s lt le c =
      subst
        (λ (m : Log).
          Copied (tail + 1) (written (m.start + tail + 1) (view s (m.block tail)) k j s))
        (sym (c.log_same))
        (record {
          log_same = c.log_same;
          head = ground (arith, c.head);
          home = λ b h. ground (arith, c.home b h, r.placed.fits);
          copies = λ i p. ground (
            arith,
            c.copies i,
            c.pins (s0.log.block tail),
            c.home (s0.log.block tail) (r.placed.homes tail lt),
          );
          pins = λ b. ground (arith, c.pins b, r.unpinned (s0.log.start + tail + 1), r.placed.fits);
          held = omega (arith, c.held);
        })

  write_log_loop-Copied :
      (k tail : ℕ) (s : State)
      → tail + k ≡ s0.log.n
      → Copied tail s
      → Ends (NoBuffers (s0.busy)) (λ _. Copied (s0.log.n)) Untouched (write_log_loop k tail s)
  unfolding write_log_loop
  write_log_loop-Copied zero tail s e c = done (subst (λ t. Copied t s) (omega arith) c)
  write_log_loop-Copied (suc k) tail s e c =
      bind
        (log_block-Ends {Q = λ _. Copied (tail + 1)} {C = Untouched} s
          (λ f. omega (arith, c.held, f)) (λ z. Copied-Untouched tail s c) (s.log.start + tail + 1)
          (s.log.block tail)
          (slot_home (s.log) tail (subst IsWellPlaced (sym (c.log_same)) (r.placed))
            (omega (arith, ap (λ (m : Log). m.n) (c.log_same))))
          (λ k' j z h. Copied-step tail k' j s (omega arith) h c))
        (λ _ s' c'. write_log_loop-Copied k (tail + 1) s' (omega arith) c') (λ d p. p)

  -- the log once its header is on disk
  header_disk : State → Disk
  header_disk s = update (s.disk) (s0.log.start) (header (s0.log) (view s (s0.log.start)))

  Copied-Logged : (s : State) → Copied (s0.log.n) s → Logged (s0.log) (header_disk s)
  unfolding header_disk
  Copied-Logged s c = record {
    count = ground (arith, header-n (s0.log) (view s (s0.log.start)));
    blocks = λ i lt. ground (arith, header-block (s0.log) (view s (s0.log.start)) i lt);
  }

  -- The disk with the header stands for what the file system saw when the commit began.
  Copied-after :
      (s : State)
      → Copied (s0.log.n) s
      → SameHome (s0.log.start) (s0.log.size) (after (s0.log.start) (header_disk s)) (view s0)
  unfolding header_disk
  Copied-after s c b h =
      after-Logged (s0.log) (header_disk s) (copy (header_disk s) (s0.log.start)) (header_disk s b)
        b (Copied-Logged s c) (λ i lt. refl)
      ∙ replay-ext (s0.log.n) (s0.log.block) (s0.log.block) (copy (header_disk s) (s0.log.start))
          (λ i. view s0 (s0.log.block i)) (header_disk s b) b (λ i lt. refl)
          (λ i lt. ground (arith, c.copies i lt))
      ∙ replay-view (s0.log.n) (s0.log.block) (view s0) (header_disk s b) b
          (λ nl. ground (arith, c.home b h, r.placed.fits, r.covered b nl))

  header-Installed :
      (k j : ℕ) (s : State)
      → Copied (s0.log.n) s
      → j ≤ s.busy
      → Installed
          (s0.log)
          (header_disk s)
          (s0.pinned)
          (s0.busy)
          0
          (written (s.log.start) (header (s.log) (view s (s.log.start))) k j s)
  unfolding header_disk listed replay
  header-Installed k j s c le =
      subst
        (λ (m : Log).
          Installed (s0.log) (header_disk s) (s0.pinned) (s0.busy) 0
            (written (m.start) (header m (view s (m.start))) k j s))
        (sym (c.log_same))
        (record {
          log_same = c.log_same;
          at = record { home = λ b h. refl; area = λ b h g. refl };
          clean = λ b. ground (arith, c.pins b, r.unpinned (s0.log.start), r.placed.fits);
          held = omega (arith, c.held);
        })

  -- A disk from which recovery gives the state before the commit, or the one that it commits.
  abbrev pub OldOrNew : Disk → Type 0
  OldOrNew d =
      Survives (s0.log.start) (s0.log.size) (s0.disk) d
      ⊎ Survives (s0.log.start) (s0.log.size) (view s0) d

  finish-Ends :
      (s : State)
      → Copied (s0.log.n) s
      → Ends
          (NoBuffers (s0.busy))
          (λ _. Settled (s0.log.start) (s0.log.size) (view s0))
          OldOrNew
          ((write_head >> (install_trans >> (clear_n >> write_head))) s)
  finish-Ends s c =
      bind
        (write_head-Ends {Q = λ _. Installed (s0.log) (header_disk s) (s0.pinned) (s0.busy) 0}
          {C = OldOrNew} s (λ f. omega (arith, c.held, f))
          (λ z. inl (Copied-Untouched (s0.log.n) s c)) (λ k j z h. header-Installed k j s c h))
        (λ _ s' i.
          mono
            (settle (s0.log) (header_disk s) (s0.pinned) (s0.busy) (r.placed) (Copied-Logged s c)
              (r.covered) (r.unpinned) s' i)
            (λ _ s'' t. Settled-ext (Copied-after s c) t)
            (λ d v. inr (Survives-ext (Copied-after s c) v)))
        (λ d p. p)

  start-Copied : Copied 0 s0
  start-Copied = record {
    log_same = refl;
    head = refl;
    home = λ b h. refl;
    copies = λ i lt. absurd (omega arith);
    pins = λ b. refl;
    held = omega arith;
  }

  -- A commit of a ready log: if it ends, every home block on disk is what the file system saw and the
  -- log is empty on disk and in memory; if power fails, the disk stands for the old or for the new
  -- home blocks; it panics only where fewer than two of the NBUF buffers are neither dirty nor held
  -- when it starts, and waits for no buffer that it holds.
  pub commit-Ends :
      Ends
        (NoBuffers (s0.busy))
        (λ _. Settled (s0.log.start) (s0.log.size) (view s0))
        OldOrNew
        (commit s0)
  unfolding commit write_log listed
  commit-Ends = elim (Bool-cases (ltb 0 (s0.log.n))) [
    | inl some_blocks ↦ rw some_blocks (
        bind (write_log_loop-Copied (s0.log.n) 0 s0 (omega arith) start-Copied)
          (λ _ s c. finish-Ends s c) (λ d v. inl v))
    | inr empty ↦
        let e : s0.log.n ≡ 0 = ground arith in
        let none_pinned : (b : ℕ) → s0.pinned b ≡ none =
          λ b. r.covered b (subst (λ n. listed n (s0.log.block) b ≡ false) (sym e) refl) in
        rw empty (
          done (record {
            home = λ b h. ground (arith, none_pinned b);
            erased = r.erased;
            empty = e;
            unpinned = none_pinned;
            start_same = refl;
            size_same = refl;
          }))
  ]
