-- ===== src/Log/Settle.antt =====
-- The end of a commit and of a recovery: install the copies, then erase the header.
use mathlib.Core.Path.{subst, sym, ◌∙◌}
use compiling_to_assembly.Prelude.{ℕ, ◌+◌, ◌≤◌, ◌<◌, ◌≡◌, refl, false, Option, none, arith}
use compiling_to_assembly.Log.{
  Block, Disk, Log, State, ◌>>◌, view, install_trans, clear_n, write_head,
}
use compiling_to_assembly.Log.Outcomes.{NoBuffers, Ends, bind, written}
use compiling_to_assembly.Log.Replay.{listed, Home}
use compiling_to_assembly.Log.Install.{
  IsWellPlaced, Installed, PartlyInstalled, copy, install_trans-Installed,
}
use compiling_to_assembly.Log.Header.{
  HeaderOk, Logged, after, SameHome, header, header-n, write_head-Ends, after-Logged,
  HeaderOk-DiskAt, after-DiskAt,
}

-- A disk from which recovery gives the home blocks `f`.
pub record Survives (start size : ℕ) (f : ℕ → Block) (d : Disk) : Type 0 where
  pub header_ok : HeaderOk start size (d start)
  pub stands : SameHome start size (after start d) f

-- The home blocks are `f` on the disk and in the cache, and the log is empty in both.
pub record Settled (start size : ℕ) (f : ℕ → Block) (s : State) : Type 0 where
  pub home : SameHome start size (s.disk) f
  pub erased : s.disk start 0 ≡ 0
  pub empty : s.log.n ≡ 0
  pub unpinned : (b : ℕ) → s.pinned b ≡ none
  pub start_same : s.log.start ≡ start
  pub size_same : s.log.size ≡ size

pub Survives-ext :
    {start size : ℕ} {f g : ℕ → Block} {d : Disk}
    → SameHome start size f g
    → Survives start size f d
    → Survives start size g d
Survives-ext e v = record { header_ok = v.header_ok; stands = λ b h. v.stands b h ∙ e b h }

pub Settled-ext :
    {start size : ℕ} {f g : ℕ → Block} {s : State}
    → SameHome start size f g
    → Settled start size f s
    → Settled start size g s
Settled-ext e v = record {
  home = λ b h. v.home b h ∙ e b h;
  erased = v.erased;
  empty = v.empty;
  unpinned = v.unpinned;
  start_same = v.start_same;
  size_same = v.size_same;
}

module _ (l : Log) (d0 : Disk) (p0 : ℕ → Option Block) (B : ℕ) (w : IsWellPlaced l)
    (g : Logged l d0) (covered : (b : ℕ) → listed (l.n) (l.block) b ≡ false → p0 b ≡ none) where
  HeaderOk-Logged : HeaderOk (l.start) (l.size) (d0 (l.start))
  HeaderOk-Logged = record {
    fits = omega (arith, g.count, w.fits);
    within = omega (arith, g.count, w.within);
    homes = λ i lt.
        subst (Home (l.start) (l.size)) (sym (g.blocks i (omega (arith, g.count))))
          (w.homes i (omega (arith, g.count)));
  }

  PartlyInstalled-Survives :
      (d : Disk) → PartlyInstalled l d0 d → Survives (l.start) (l.size) (after (l.start) d0) d
  PartlyInstalled-Survives d (t, le, a) = record {
    header_ok = HeaderOk-DiskAt l d0 d t g HeaderOk-Logged le a;
    stands = after-DiskAt l d0 d t g HeaderOk-Logged le a;
  }

  Installed-Settled :
      (k j : ℕ) (s : State)
      → Installed l d0 p0 B (l.n) s
      → Settled (l.start) (l.size) (after (l.start) d0) (
          written
            (l.start)
            (header (record l { n = 0 }) (view (record s { log = record l { n = 0 } }) (l.start)))
            k
            j
            (record s { log = record l { n = 0 } }))
  Installed-Settled k j s i = record {
    home = λ b h. ground (
      arith,
      i.at.home b h,
      after-Logged l d0 (copy d0 (l.start)) (d0 b) b g (λ j lt. refl),
      w.fits,
    );
    erased = ground (
      arith,
      header-n (record l { n = 0 }) (view (record s { log = record l { n = 0 } }) (l.start)),
    );
    empty = refl;
    unpinned = λ b. ground (arith, i.clean b, covered b);
    start_same = refl;
    size_same = refl;
  }

  module _ (unpinned : (b : ℕ) → l.start ≤ b → b < l.start + l.size → p0 b ≡ none) where
    -- From a disk that holds the log, installing and erasing it settles the home blocks that the
    -- disk stands for; a power failure on the way leaves a disk that stands for the same.
    pub settle :
        (s : State)
        → Installed l d0 p0 B 0 s
        → Ends
            (NoBuffers B)
            (λ _. Settled (l.start) (l.size) (after (l.start) d0))
            (Survives (l.start) (l.size) (after (l.start) d0))
            ((install_trans >> (clear_n >> write_head)) s)
    unfolding clear_n
    settle s i =
        bind (install_trans-Installed l d0 p0 B w unpinned s i)
          (λ _ s' i'.
            write_head-Ends {Q = λ _. Settled (l.start) (l.size) (after (l.start) d0)}
              {C = Survives (l.start) (l.size) (after (l.start) d0)}
              (record s' { log = record (s'.log) { n = 0 } }) (λ f. omega (arith, i'.held, f))
              (λ z. PartlyInstalled-Survives (s'.disk) (l.n, omega arith, i'.at))
              (λ k j z h.
                subst
                  (λ (m : Log). Settled (l.start) (l.size) (after (l.start) d0) (
                    written (m.start)
                      (header (record m { n = 0 })
                        (view (record s' { log = record m { n = 0 } }) (m.start)))
                      k j (record s' { log = record m { n = 0 } })))
                  (sym (i'.log_same)) (Installed-Settled k j s' i')))
          PartlyInstalled-Survives
