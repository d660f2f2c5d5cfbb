-- ===== src/Log/Write.antt =====
-- `log_write`: the file system sees the new contents, and the log stays ready to commit.
use mathlib.Core.Path.{subst}
use compiling_to_assembly.Prelude.{
  ℕ, zero, suc, ◌+◌, ◌≤◌, ◌<◌, ◌≡◌, refl, inl, inr, some, arith, ◌==◌, update, if◌then◌else◌,
  Bool-cases, ◌||◌,
}
use compiling_to_assembly.Log.{Block, State, log_size, ok, view, find_slot, log_write}
use compiling_to_assembly.Log.Replay.{listed, Home, listed-add_one, listed-lt}
use compiling_to_assembly.Log.Commit.{Ready}

-- The search stops at a slot that holds the block, or at the end.
record IsSlot (block : ℕ → ℕ) (b n i : ℕ) : Type 0 where
  within : i ≤ n
  holds : i < n → block i ≡ b

find_slot-bounds :
    (block : ℕ → ℕ) (b k i : ℕ)
    → (find_slot block b k i ≤ i + k)
      × (find_slot block b k i < i + k → block (find_slot block b k i) ≡ b)
unfolding find_slot
find_slot-bounds block b zero i = (omega arith, λ h. absurd (omega arith))
find_slot-bounds block b (suc k) i = ground (arith, find_slot-bounds block b k (i + 1))

find_slot-IsSlot : (block : ℕ → ℕ) (b n : ℕ) → IsSlot block b n (find_slot block b n 0)
find_slot-IsSlot block b n = record {
  within = omega (arith, find_slot-bounds block b n 0);
  holds = λ h. (find_slot-bounds block b n 0).1 (omega arith);
}

listed-ext :
    (n : ℕ) (block block' : ℕ → ℕ) (x : ℕ)
    → ((j : ℕ) → j < n → block j ≡ block' j)
    → listed n block x ≡ listed n block' x
unfolding listed
listed-ext zero block block' x h = refl
listed-ext (suc n) block block' x h =
    ground (arith, h n, listed-ext n block block' x (λ j l. h j (omega arith)))

-- Once block `b` stands in its slot, the listed blocks are `b` and those listed before.
listed-slot :
    (block : ℕ → ℕ) (b n i x : ℕ)
    → IsSlot block b n i
    → listed (if i == n then n + 1 else n) (update block i b) x ≡ ((b == x) || listed n block x)
listed-slot block b n i x s = elim (Bool-cases (i == n)) [
  | inl e ↦ rw e (
      ground (
        arith,
        listed-add_one n (update block i b) x,
        listed-ext n (update block i b) block x (λ j l. ground arith),
      ))
  | inr ne ↦ rw ne (
      ground (
        arith,
        listed-ext n (update block i b) block x (λ j l. ground (arith, s.holds, s.within)),
        s.within,
        s.holds,
        listed-lt n i block,
      ))
]

-- the state that `log_write` leaves
abbrev slot : ℕ → State → ℕ
slot b s = find_slot (s.log.block) b (s.log.n) 0

abbrev logged_state : ℕ → Block → State → State
logged_state b contents s = record s {
  pinned = update (s.pinned) b (some contents);
  log = record (s.log) {
    block = update (s.log.block) (slot b s) b;
    n = if slot b s == s.log.n then s.log.n + 1 else s.log.n;
  };
}

log_write-eq-ok :
    (b : ℕ) (contents : Block) (s s' : State)
    → log_write b contents s ≡ ok tt s'
    → (logged_state b contents s ≡ s') × (s.log.n + 1 < s.log.size) × (s.log.n < log_size)
unfolding log_write
log_write-eq-ok b contents s s' e = ground arith

logged-Ready :
    (b : ℕ) (contents : Block) (s : State)
    → Ready s
    → Home (s.log.start) (s.log.size) b
    → s.log.n + 1 < s.log.size
    → s.log.n < log_size
    → Ready (logged_state b contents s)
logged-Ready b contents s r h fits room =
    let i = find_slot-IsSlot (s.log.block) b (s.log.n) in
    record {
      placed = record {
        fits = ground arith;
        within = ground arith;
        homes = λ j lt. ground (arith, r.placed.homes j, i.within, i.holds);
      };
      erased = r.erased;
      unpinned = λ x p q. ground (arith, r.unpinned x p q);
      covered =
          λ x l. ground (arith, listed-slot (s.log.block) b (s.log.n) (slot b s) x i, r.covered x);
    }

-- After `log_write` of a home block the file system sees its new contents and all else as before,
-- and the log is ready to commit.
pub log_write-Ready :
    (b : ℕ) (contents : Block) (s s' : State)
    → Ready s
    → Home (s.log.start) (s.log.size) b
    → log_write b contents s ≡ ok tt s'
    → Ready s' × ((x : ℕ) → view s' x ≡ (if b == x then contents else view s x))
unfolding log_write
log_write-Ready b contents s s' r h e =
    let (q, fits, room) = log_write-eq-ok b contents s s' e in
    subst (λ t. Ready t × ((x : ℕ) → view t x ≡ (if b == x then contents else view s x))) q
      (logged-Ready b contents s r h fits room, λ x. ground arith)
