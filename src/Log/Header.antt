-- ===== src/Log/Header.antt =====
-- The header block: what `write_head` stores, and what a disk with a log on it stands for.
use mathlib.Core.Path.{sym, subst, ◌∙◌}
use compiling_to_assembly.Prelude.{ℕ, suc, ◌+◌, ◌-◌, ◌≤◌, ◌<◌, ◌≡◌, refl, arith, update}
use compiling_to_assembly.Log.{
  Block, Disk, Log, State, view, log_size, nbuf, write_blocks, write_head,
}
use compiling_to_assembly.Log.Outcomes.{Ends, written, rewrite_block-Ends}
use compiling_to_assembly.Log.Replay.{replay, Home, replay-ext, replay-replay, write_blocks_lem}
use compiling_to_assembly.Log.Install.{copy, DiskAt}

-- the header block that `write_head` leaves, over a block `hb`
abbrev pub header : Log → Block → Block
header l hb = write_blocks (l.block) (l.n) 0 (update hb 0 (l.n))

pub header-n : (l : Log) (hb : Block) → header l hb 0 ≡ l.n
header-n l hb = ground (arith, write_blocks_lem (l.block) (l.n) 0 0 (update hb 0 (l.n)))

pub header-block : (l : Log) (hb : Block) (i : ℕ) → i < l.n → header l hb (i + 1) ≡ l.block i
header-block l hb i h =
    let e : i + 1 - 1 ≡ i = omega arith in
    ground (arith, e, write_blocks_lem (l.block) (l.n) 0 (i + 1) (update hb 0 (l.n)))

pub write_head-Ends :
    {P : Type 0} {Q : Unit {0} → State → Type 0} {C : Disk → Type 0} (s : State)
    → (nbuf ≤ s.busy + 1 → P)
    → (s.budget ≡ 0 → C (s.disk))
    → ((k j : ℕ)
        → suc k ≡ s.budget
        → j ≤ s.busy
        → Q tt (written (s.log.start) (header (s.log) (view s (s.log.start))) k j s))
    → Ends P Q C (write_head s)
unfolding write_head
write_head-Ends s p c q = rewrite_block-Ends s p c (s.log.start) (λ hb. header (s.log) hb) q

-- A header describes a log that fits its area, of blocks outside.
pub record HeaderOk (start size : ℕ) (hd : Block) : Type 0 where
  pub fits : hd 0 < size
  pub within : hd 0 ≤ log_size
  pub homes : (i : ℕ) → i < hd 0 → Home start size (hd (i + 1))

-- The home blocks that disk `d` stands for: its own, with the logged copies put in place.
abbrev pub after : ℕ → Disk → ℕ → Block
after start d b = replay (d start 0) (λ i. d start (i + 1)) (copy d start) (d b) b

abbrev pub SameHome : ℕ → ℕ → (ℕ → Block) → (ℕ → Block) → Type 0
SameHome start size f g = (b : ℕ) → Home start size b → f b ≡ g b

-- The log in memory is the one whose header is on disk.
pub record Logged (l : Log) (d : Disk) : Type 0 where
  pub count : d (l.start) 0 ≡ l.n
  pub blocks : (i : ℕ) → i < l.n → d (l.start) (i + 1) ≡ l.block i

-- The logged copies of a disk, put in place over `base` by the log in memory.
pub after-Logged :
    (l : Log) (d : Disk) (src : ℕ → Block) (base : Block) (b : ℕ)
    → Logged l d
    → ((i : ℕ) → i < l.n → src i ≡ copy d (l.start) i)
    → replay (d (l.start) 0) (λ i. d (l.start) (i + 1)) src base b
      ≡ replay (l.n) (l.block) (copy d (l.start)) base b
after-Logged l d src base b g h = rw (g.count) (
    replay-ext (l.n) (λ i. d (l.start) (i + 1)) (l.block) src (copy d (l.start)) base b (g.blocks)
      h)

module _ (l : Log) (d0 d : Disk) (t : ℕ) (g : Logged l d0)
    (h : HeaderOk (l.start) (l.size) (d0 (l.start))) (le : t ≤ l.n) (a : DiskAt l d0 t d) where
  pub header_same : d (l.start) ≡ d0 (l.start)
  header_same = a.area (l.start) (omega arith) (omega (arith, h.fits))

  pub HeaderOk-DiskAt : HeaderOk (l.start) (l.size) (d (l.start))
  HeaderOk-DiskAt = subst (HeaderOk (l.start) (l.size)) (sym header_same) h

  copy_same : (i : ℕ) → i < l.n → copy d (l.start) i ≡ copy d0 (l.start) i
  copy_same i lt = a.area (l.start + i + 1) (omega arith) (omega (arith, h.fits, g.count))

  -- A disk on which some copies are installed stands for the same home blocks.
  pub after-DiskAt : SameHome (l.start) (l.size) (after (l.start) d) (after (l.start) d0)
  after-DiskAt b hb =
      rw (header_same, a.home b hb)
        (after-Logged l d0 (copy d (l.start)) _ b g copy_same
          ∙ replay-replay t (l.n) (l.block) (copy d0 (l.start)) (d0 b) b le
          ∙ sym (after-Logged l d0 (copy d0 (l.start)) (d0 b) b g (λ i lt. refl)))
