-- ===== src/Log/Reserve.antt =====
-- Reservations: system calls that begin, log blocks and end in any order, each with `max_op_blocks`
-- blocks to log, under `begin_op`, `log_write` and `end_op` of log.c.
use compiling_to_assembly.Prelude.{
  ℕ, zero, suc, ◌+◌, ◌*◌, ◌≤◌, ◌<◌, ◌≡◌, ◌≢◌, refl, Bool, true, false, some, List, [], ◌∷◌, arith,
  length, length-set, get_elem?, set,
}
use compiling_to_assembly.Log.{
  max_op_blocks, log_size, Block, Log, State, ok, panic, begin_op, end_enter, log_write,
}

-- The log, and for each system call in progress the blocks that it may still log.
pub record Calls : Type 0 where
  pub log : Log
  pub credits : List ℕ

abbrev pub remove_at : List ℕ → ℕ → List ℕ
remove_at [] i = []
remove_at (c ∷ cs) zero = cs
remove_at (c ∷ cs) (suc i) = c ∷ remove_at cs i

abbrev pub total : List ℕ → ℕ
total [] = 0
total (c ∷ cs) = c + total cs

-- `logged` writes one more block; after `commit` the log is empty and its owner leaves `end_op`.
pub data Step (c : Calls) : Calls → Type 0 where
  begins :
      {l : Log}
      → begin_op (c.log) ≡ some l
      → Step c (record { log = l; credits = max_op_blocks ∷ c.credits })
  logged :
      (i k b : ℕ) (contents : Block) (s s' : State)
      → get_elem? (c.credits) i ≡ some (suc k)
      → s.log ≡ c.log
      → log_write b contents s ≡ ok tt s'
      → Step c (record { log = s'.log; credits = set (c.credits) i k })
  ends :
      (i k : ℕ) {commits : Bool} {l : Log}
      → get_elem? (c.credits) i ≡ some k
      → end_enter (c.log) ≡ some (commits, l)
      → Step c (record { log = l; credits = remove_at (c.credits) i })
  commits :
      c.log.committing ≡ true
      → Step c (record c { log = record (c.log) { n = 0; committing = false } })

pub data Reach (start size : ℕ) : Calls → Type 0 where
  boots :
      (block : ℕ → ℕ)
      → Reach start size (record {
        log = record {
          start = start;
          size = size;
          outstanding = 0;
          committing = false;
          n = 0;
          block = block;
        };
        credits = [];
      })
  next : {c d : Calls} → Reach start size c → Step c d → Reach start size d

-- No call has more credit than `begin_op` gives.
abbrev pub AllSmall : List ℕ → Type 0
AllSmall [] = Unit
AllSmall (c ∷ cs) = (c ≤ max_op_blocks) × AllSmall cs

pub record Reserved (size : ℕ) (c : Calls) : Type 0 where
  pub counted : c.log.outstanding ≡ length (c.credits)
  pub few : length (c.credits) * max_op_blocks ≤ log_size
  pub space : c.log.n + total (c.credits) ≤ log_size
  pub bounded : AllSmall (c.credits)
  pub alone : c.log.committing ≡ true → c.credits ≡ []
  pub size_same : c.log.size ≡ size

eq_nil : (cs : List ℕ) → length cs ≡ 0 → cs ≡ []
eq_nil [] h = refl
eq_nil (c ∷ cs) h = absurd (omega arith)

total-remove_at : (cs : List ℕ) (i : ℕ) → total (remove_at cs i) ≤ total cs
total-remove_at [] i = omega arith
total-remove_at (c ∷ cs) zero = omega arith
total-remove_at (c ∷ cs) (suc i) = omega (arith, total-remove_at cs i)

length-remove_at :
    (cs : List ℕ) (i : ℕ) {k : ℕ}
    → get_elem? cs i ≡ some k
    → length (remove_at cs i) + 1 ≡ length cs
length-remove_at [] i h = absurd (cc)
length-remove_at (c ∷ cs) zero h = omega arith
length-remove_at (c ∷ cs) (suc i) h = omega (arith, length-remove_at cs i h)

total-set :
    (cs : List ℕ) (i k : ℕ) → get_elem? cs i ≡ some (suc k) → total (set cs i k) + 1 ≡ total cs
total-set [] i k h = absurd (cc)
total-set (c ∷ cs) zero k h = ground arith
total-set (c ∷ cs) (suc i) k h = omega (arith, total-set cs i k h)

total-le : (cs : List ℕ) → AllSmall cs → total cs ≤ length cs * max_op_blocks
total-le [] h = omega arith
total-le (c ∷ cs) h = omega (arith, total-le cs (h.1))

AllSmall-remove_at : (cs : List ℕ) (i : ℕ) → AllSmall cs → AllSmall (remove_at cs i)
AllSmall-remove_at [] i h = h
AllSmall-remove_at (c ∷ cs) zero h = h.1
AllSmall-remove_at (c ∷ cs) (suc i) h = (h.0, AllSmall-remove_at cs i (h.1))

AllSmall-set :
    (cs : List ℕ) (i k : ℕ) → get_elem? cs i ≡ some (suc k) → AllSmall cs → AllSmall (set cs i k)
AllSmall-set [] i k e h = h
AllSmall-set (c ∷ cs) zero k e h = (ground arith, h.1)
AllSmall-set (c ∷ cs) (suc i) k e h = (h.0, AllSmall-set cs i k e (h.1))

log_write-log :
    (b : ℕ) (contents : Block) (s s' : State)
    → log_write b contents s ≡ ok tt s'
    → (s'.log.n ≤ s.log.n + 1)
      × (s'.log.outstanding ≡ s.log.outstanding)
      × (s'.log.committing ≡ s.log.committing)
      × (s'.log.size ≡ s.log.size)
unfolding log_write
log_write-log b contents s s' h = ground arith

begin_op-Reserved :
    {size : ℕ} (c : Calls) {l : Log}
    → begin_op (c.log) ≡ some l
    → Reserved size c
    → Reserved size (record { log = l; credits = max_op_blocks ∷ c.credits })
unfolding begin_op
begin_op-Reserved c e r = record {
  counted = ground arith;
  few = ground (arith, r.counted);
  space = ground (arith, total-le (c.credits) (r.bounded), r.counted);
  bounded = (omega arith, r.bounded);
  alone = ground arith;
  size_same = ground arith;
}

logged-Reserved :
    {size : ℕ} (c : Calls) (i k b : ℕ) (contents : Block) (s s' : State)
    → get_elem? (c.credits) i ≡ some (suc k)
    → s.log ≡ c.log
    → log_write b contents s ≡ ok tt s'
    → Reserved size c
    → Reserved size (record { log = s'.log; credits = set (c.credits) i k })
logged-Reserved c i k b contents s s' g e w r = record {
  counted = ground (arith, f, length-set (c.credits) i k);
  few = omega (arith, r.few, length-set (c.credits) i k);
  space = ground (arith, f, total-set (c.credits) i k g);
  bounded = AllSmall-set (c.credits) i k g (r.bounded);
  alone = ground (arith, f);
  size_same = ground (arith, f);
}
  where
    f :
        (s'.log.n ≤ s.log.n + 1)
        × (s'.log.outstanding ≡ s.log.outstanding)
        × (s'.log.committing ≡ s.log.committing)
        × (s'.log.size ≡ s.log.size)
    f = log_write-log b contents s s' w

ends-Reserved :
    {size : ℕ} (c : Calls) (i k : ℕ) {commits : Bool} {l : Log}
    → get_elem? (c.credits) i ≡ some k
    → end_enter (c.log) ≡ some (commits, l)
    → Reserved size c
    → Reserved size (record { log = l; credits = remove_at (c.credits) i })
unfolding end_enter
ends-Reserved c i k g e r = record {
  counted = ground (arith, length-remove_at (c.credits) i g, r.counted, r.few);
  few = omega (arith, length-remove_at (c.credits) i g, r.few);
  space = ground (arith, total-remove_at (c.credits) i, r.space);
  bounded = AllSmall-remove_at (c.credits) i (r.bounded);
  alone = λ h.
      eq_nil (remove_at (c.credits) i)
        (ground (arith, length-remove_at (c.credits) i g, r.counted, r.few));
  size_same = ground arith;
}

boots-Reserved :
    (start size : ℕ) (block : ℕ → ℕ)
    → Reserved size (record {
      log = record {
        start = start;
        size = size;
        outstanding = 0;
        committing = false;
        n = 0;
        block = block;
      };
      credits = [];
    })
boots-Reserved start size block = record {
  counted = refl;
  few = omega arith;
  space = omega arith;
  bounded = tt;
  alone = λ h. refl;
  size_same = refl;
}

commits-Reserved :
    {size : ℕ} (c : Calls)
    → c.log.committing ≡ true
    → Reserved size c
    → Reserved size (record c { log = record (c.log) { n = 0; committing = false } })
commits-Reserved c h r = record {
  counted = r.counted;
  few = r.few;
  space = omega (arith, r.space);
  bounded = r.bounded;
  alone = λ e. absurd (cc);
  size_same = r.size_same;
}

pub Step-Reserved : {size : ℕ} {c d : Calls} → Step c d → Reserved size c → Reserved size d
Step-Reserved {c} (begins e) r = begin_op-Reserved c e r
Step-Reserved {c} (logged i k b contents s s' g e w) r =
    logged-Reserved c i k b contents s s' g e w r
Step-Reserved {c} (ends i k g e) r = ends-Reserved c i k g e r
Step-Reserved {c} (commits h) r = commits-Reserved c h r

-- The reservations of all calls in progress and the blocks logged fit the log, in whatever order
-- calls begin, log and end; a commit runs alone.
pub Reach-Reserved : {start size : ℕ} {c : Calls} → Reach start size c → Reserved size c
Reach-Reserved {start} {size} (boots block) = boots-Reserved start size block
Reach-Reserved (next r st) = Step-Reserved st (Reach-Reserved r)

-- In a log of more than `log_size` blocks a call with credit left logs its block: neither panic of
-- `log_write` is reached.
pub log_write-ne-panic :
    {start size : ℕ} {c : Calls} (i k b : ℕ) (contents : Block) (s : State)
    → log_size < size
    → Reach start size c
    → get_elem? (c.credits) i ≡ some (suc k)
    → s.log ≡ c.log
    → log_write b contents s ≢ panic
unfolding log_write
log_write-ne-panic {c} i k b contents s big reach g e =
    let r = Reach-Reserved reach in
    ground (
      arith,
      r.counted,
      r.space,
      r.size_same,
      total-set (c.credits) i k g,
      length-remove_at (c.credits) i g,
    )
