-- ===== src/Log/Install.antt =====
-- `install_trans`: the log's copies reach their home blocks, and a power failure leaves a disk on
-- which some of them have.
use compiling_to_assembly.Prelude.{
  ℕ, zero, suc, ◌+◌, ◌≤◌, ◌<◌, ◌≡◌, ◌≢◌, Option, none, arith, if◌then◌else◌, update,
}
use mathlib.Core.Path.{sym, ap, subst}
use compiling_to_assembly.Log.{Block, Disk, Log, State, log_size, install_loop, install_trans, view}
use compiling_to_assembly.Log.Outcomes.{NoBuffers, Ends, done, bind, written, install_block-Ends}
use compiling_to_assembly.Log.Replay.{replay, listed, Home, replay-add_one, listed-add_one}

-- copy `i` of the log that begins at `start`
abbrev pub copy : Disk → ℕ → ℕ → Block
copy d start i = d (start + i + 1)

-- Disk `d` is `d0` with the first `tail` copies of log `l` installed.
pub record DiskAt (l : Log) (d0 : Disk) (tail : ℕ) (d : Disk) : Type 0 where
  pub home :
      (b : ℕ) → Home (l.start) (l.size) b → d b ≡ replay tail (l.block) (copy d0 (l.start)) (d0 b) b
  pub area : (b : ℕ) → l.start ≤ b → b < l.start + l.size → d b ≡ d0 b

-- The log fits its area and its array, and its blocks lie outside.
pub record IsWellPlaced (l : Log) : Type 0 where
  pub fits : l.n < l.size
  pub within : l.n ≤ log_size
  pub homes : (i : ℕ) → i < l.n → Home (l.start) (l.size) (l.block i)

pub record Installed (l : Log) (d0 : Disk) (p0 : ℕ → Option Block) (B tail : ℕ) (s : State)
    : Type 0 where
  pub log_same : s.log ≡ l
  pub at : DiskAt l d0 tail (s.disk)
  pub clean : (b : ℕ) → s.pinned b ≡ (if listed tail (l.block) b then none else p0 b)
  pub held : s.busy ≤ B

-- Some of the copies of log `l` are installed.
abbrev pub PartlyInstalled : Log → Disk → Disk → Type 0
PartlyInstalled l d0 d = (t : ℕ) × (t ≤ l.n) × DiskAt l d0 t d

-- A slot of the log is not the home of its block.
pub slot_home :
    (l : Log) (tail : ℕ) → IsWellPlaced l → tail < l.n → l.start + tail + 1 ≢ l.block tail
slot_home l tail w lt e = ground (arith, w.homes tail lt, w.fits)

module _ (l : Log) (d0 : Disk) (p0 : ℕ → Option Block) (B : ℕ) (w : IsWellPlaced l)
    (unpinned : (b : ℕ) → l.start ≤ b → b < l.start + l.size → p0 b ≡ none) where
  view-copy :
      (tail : ℕ) (s : State)
      → tail < l.n
      → Installed l d0 p0 B tail s
      → view s (l.start + tail + 1) ≡ copy d0 (l.start) tail
  view-copy tail s lt i = ground (
    arith,
    i.clean (l.start + tail + 1),
    unpinned (l.start + tail + 1),
    i.at.area (l.start + tail + 1),
    w.fits,
  )

  DiskAt-step :
      (tail : ℕ) (d : Disk) (c : Block)
      → tail < l.n
      → c ≡ copy d0 (l.start) tail
      → DiskAt l d0 tail d
      → DiskAt l d0 (tail + 1) (update d (l.block tail) c)
  DiskAt-step tail d c lt e a = record {
    home = λ b h.
        ground (arith, replay-add_one tail (l.block) (copy d0 (l.start)) (d0 b) b, a.home b h);
    area = λ b h k. ground (arith, a.area b h k, w.homes tail lt);
  }

  Installed-step :
      (tail k j : ℕ) (s : State)
      → tail < l.n
      → j ≤ s.busy
      → Installed l d0 p0 B tail s
      → Installed l d0 p0 B
          (tail + 1)
          (written (s.log.block tail) (view s (s.log.start + tail + 1)) k j s)
  Installed-step tail k j s lt le i = record {
    log_same = i.log_same;
    at =
        subst
          (λ (m : Log).
            DiskAt l d0 (tail + 1) (update (s.disk) (m.block tail) (view s (m.start + tail + 1))))
          (sym (i.log_same)) (DiskAt-step tail (s.disk) _ lt (view-copy tail s lt i) (i.at));
    clean =
        subst
          (λ (m : Log).
            (b : ℕ)
            → update (s.pinned) (m.block tail) none b
              ≡ (if listed (tail + 1) (l.block) b then none else p0 b))
          (sym (i.log_same)) (λ b. ground (arith, i.clean b, listed-add_one tail (l.block) b));
    held = omega (arith, i.held);
  }

  -- Given the copies, the loop installs them all, and dies only on a disk that has some of them.
  pub install_loop-Installed :
      (k tail : ℕ) (s : State)
      → tail + k ≡ l.n
      → Installed l d0 p0 B tail s
      → Ends
          (NoBuffers B)
          (λ _. Installed l d0 p0 B (l.n))
          (PartlyInstalled l d0)
          (install_loop k tail s)
  unfolding install_loop
  install_loop-Installed zero tail s e i =
      done (subst (λ t. Installed l d0 p0 B t s) (omega arith) i)
  install_loop-Installed (suc k) tail s e i =
      bind
        (install_block-Ends {Q = λ _. Installed l d0 p0 B (tail + 1)} {C = PartlyInstalled l d0} s
          (λ f. omega (arith, i.held, f)) (λ z. (tail, omega arith, i.at)) (s.log.start + tail + 1)
          (s.log.block tail)
          (slot_home (s.log) tail (subst IsWellPlaced (sym (i.log_same)) w)
            (omega (arith, ap (λ (m : Log). m.n) (i.log_same))))
          (λ k' j z h. Installed-step tail k' j s (omega arith) h i))
        (λ _ s' i'. install_loop-Installed k (tail + 1) s' (omega arith) i') (λ d p. p)

  -- `install_trans` from a state on the disk `d0`.
  pub install_trans-Installed :
      (s : State)
      → Installed l d0 p0 B 0 s
      → Ends (NoBuffers B) (λ _. Installed l d0 p0 B (l.n)) (PartlyInstalled l d0) (install_trans s)
  unfolding install_trans
  install_trans-Installed s i =
      install_loop-Installed (s.log.n) 0 s (omega (arith, ap (λ (m : Log). m.n) (i.log_same))) i
