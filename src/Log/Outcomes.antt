-- ===== src/Log/Outcomes.antt =====
-- Runs of log.c against a postcondition for the end, one for the disk at a power failure, and the
-- condition under which they may panic for want of a buffer.
use compiling_to_assembly.Prelude.{
  ℕ, zero, suc, ◌+◌, ◌-◌, ◌≤◌, ◌≡◌, ◌≢◌, refl, true, false, Option, none, some, arith, ◌==◌, leb,
  update, Bool-cases, ≢→==, leb→le, inl, inr,
}
use mathlib.Core.Path.{subst, subst₂, sym, ap, ◌∙◌}
use compiling_to_assembly.Log.{
  Block, Disk, State, Outcome, ok, panic, crashed, Run, and_then, nbuf, view, bread, bread_beside,
  bwrite, brelse, install_block, log_block,
}

-- Fewer than two of the buffers are free while `j` are busy.
abbrev pub NoBuffers : ℕ → Type 0
NoBuffers j = nbuf ≤ j + 1

-- The run ends well and meets `Q`, or dies with a disk that meets `C`, or panics where `P` holds.
pub data Ends {A : Type 0} (P : Type 0) (Q : A → State → Type 0) (C : Disk → Type 0)
    : Outcome A → Type 0 where
  done : {a : A} {s : State} → Q a s → Ends P Q C (ok a s)
  died : {d : Disk} → C d → Ends P Q C (crashed d)
  full : P → Ends P Q C panic

module _ {A : Type 0} {P : Type 0} {Q : A → State → Type 0} {C : Disk → Type 0} where
  pub bind :
      {B : Type 0} {R : B → State → Type 0} {D : Disk → Type 0} {r : Outcome A} {f : A → Run B}
      → Ends P Q C r
      → ((a : A) (s : State) → Q a s → Ends P R D (f a s))
      → ((d : Disk) → C d → D d)
      → Ends P R D (and_then r f)
  bind (done q) next weaken = next _ _ q
  bind (died c) next weaken = died (weaken _ c)
  bind (full p) next weaken = full p

  pub mono :
      {R : A → State → Type 0} {D : Disk → Type 0} {r : Outcome A}
      → Ends P Q C r
      → ((a : A) (s : State) → Q a s → R a s)
      → ((d : Disk) → C d → D d)
      → Ends P R D r
  mono (done q) f g = done (f _ _ q)
  mono (died c) f g = died (g _ c)
  mono (full p) f g = full p

-- A panic whose condition cannot hold.
pub never :
    {A : Type 0} {P : Type 0} {Q : A → State → Type 0} {C : Disk → Type 0} {r : Outcome A}
    → (P → ⊥)
    → Ends P Q C r
    → Ends ⊥ Q C r
never h (done q) = done q
never h (died c) = died c
never h (full p) = full (h p)

pub crash_inversion :
    {A : Type 0} {P : Type 0} {Q : A → State → Type 0} {C : Disk → Type 0} {r : Outcome A}
    {d : Disk}
    → Ends P Q C r
    → r ≡ crashed d
    → C d
crash_inversion (done q) p = absurd (cc)
crash_inversion {C} (died c) p = subst C (cc) c
crash_inversion (full x) p = absurd (cc)

pub end_inversion :
    {A : Type 0} {P : Type 0} {Q : A → State → Type 0} {C : Disk → Type 0} {r : Outcome A} {a : A}
    {s : State}
    → Ends P Q C r
    → r ≡ ok a s
    → Q a s
end_inversion {Q} (done q) p = subst₂ Q (cc) (cc) q
end_inversion (died c) p = absurd (cc)
end_inversion (full x) p = absurd (cc)

-- the state after a write of `contents` to block `b`, with `k` more writes to come and `j` buffers busy
abbrev pub written : ℕ → Block → ℕ → ℕ → State → State
written b contents k j s = record s {
  disk = update (s.disk) b contents;
  pinned = update (s.pinned) b none;
  budget = k;
  busy = j;
}

-- the state with `j` buffers busy
abbrev pub with_busy : ℕ → State → State
with_busy j s = record s { busy = j }

-- A write happens, or the power fails before it.
pub bwrite-Ends :
    {P : Type 0} {Q : Unit {0} → State → Type 0} {C : Disk → Type 0} (b : ℕ) (contents : Block)
    (s : State)
    → (s.budget ≡ 0 → C (s.disk))
    → ((k : ℕ) → suc k ≡ s.budget → Q tt (written b contents k (s.busy) s))
    → Ends P Q C (bwrite b contents s)
unfolding bwrite
bwrite-Ends {P} {Q} {C} b contents s c q = go (s.budget) refl
  where
    go :
        (k : ℕ)
        → k ≡ s.budget
        → Ends P Q C
            (elim k [ zero ↦ crashed (s.disk) | suc k' ↦ ok tt (written b contents k' (s.busy) s) ])
    go zero e = died (c (sym e))
    go (suc k) e = done (q k e)

-- What `bread` and `brelse` do to the number of busy buffers.
abbrev pub taken : Option Block → ℕ → ℕ
taken none j = j + 1
taken (some x) j = j

abbrev pub given : Option Block → ℕ → ℕ
given none j = j - 1
given (some x) j = j

module _ {P : Type 0} {A : Type 0} {Q : A → State → Type 0} {C : Disk → Type 0} where
  pub bread-Ends :
      (b : ℕ) (s : State) (f : Block → Run A)
      → (nbuf ≤ s.busy → P)
      → Ends P Q C (f (view s b) (with_busy (taken (s.pinned b) (s.busy)) s))
      → Ends P Q C (and_then (bread b s) f)
  unfolding bread
  bread-Ends b s f p = go (s.pinned b)
    where
      go :
          (o : Option Block)
          → Ends P Q C
              (f (elim o [ none ↦ s.disk b | some d ↦ d ]) (with_busy (taken o (s.busy)) s))
          → Ends P Q C (
              and_then
                (elim o [
                  | some contents ↦ ok contents s
                  | none ↦ elim (leb nbuf (s.busy)) [
                    | true ↦ panic
                    | false ↦ ok (s.disk b) (record s { busy = s.busy + 1 })
                  ]
                ])
                f)
      go (some x) e = e
      go none e = elim (Bool-cases (leb nbuf (s.busy))) [
        | inl t ↦ rw t (full (p (leb→le nbuf (s.busy) t)))
        | inr t ↦ rw t e
      ]

  pub bread_beside-Ends :
      (a b : ℕ) (s : State) (f : Block → Run A)
      → a ≢ b
      → (nbuf ≤ s.busy → P)
      → Ends P Q C (f (view s b) (with_busy (taken (s.pinned b) (s.busy)) s))
      → Ends P Q C (and_then (bread_beside a b s) f)
  unfolding bread_beside
  bread_beside-Ends a b s f n p e = rw (bread_beside, ≢→== a b n) (bread-Ends b s f p e)

pub brelse_lem :
    (b : ℕ) (s : State) → brelse b s ≡ ok tt (with_busy (given (s.pinned b) (s.busy)) s)
unfolding brelse
brelse_lem b s = go (s.pinned b)
  where
    go :
        (o : Option Block)
        → ◌≡◌ {A = Outcome (Unit {0})}
            (elim o [ some c ↦ ok tt s | none ↦ ok tt (record s { busy = s.busy - 1 }) ])
            (ok tt (with_busy (given o (s.busy)) s))
    go (some x) = refl
    go none = refl

pins_at : (p : ℕ → Option Block) (b : ℕ) → update p b none b ≡ none
pins_at p b = let e : (b == b) ≡ true = ground arith in rw e

pins_beside : (p : ℕ → Option Block) (b a : ℕ) → a ≢ b → update p b none a ≡ p a
pins_beside p b a n = let e : (b == a) ≡ false = ground arith in rw e

-- Two buffers taken and given back, of which one was written.
given_back :
    (o u : Option Block) (j : ℕ)
    → (given none (given o (taken u (taken o j))) ≤ j)
      × (given none (given u (taken u (taken o j))) ≤ j)
      × (taken o j ≤ j + 1)
given_back none none j = (omega arith, omega arith, omega arith)
given_back none (some x) j = (omega arith, omega arith, omega arith)
given_back (some x) none j = (omega arith, omega arith, omega arith)
given_back (some x) (some y) j = (omega arith, omega arith, omega arith)

release_two :
    (a b : ℕ) (s : State)
    → and_then (brelse a s) (λ _. brelse b)
      ≡ ok tt (with_busy (given (s.pinned b) (given (s.pinned a) (s.busy))) s)
release_two a b s =
    ap (λ r. and_then r (λ _. brelse b)) (brelse_lem a s)
    ∙ brelse_lem b (with_busy (given (s.pinned a) (s.busy)) s)

module _ {P : Type 0} {Q : Unit {0} → State → Type 0} {C : Disk → Type 0} (s : State)
    (p : nbuf ≤ s.busy + 1 → P) (c : s.budget ≡ 0 → C (s.disk)) where
  -- A block is written while another is held, and both are given back.
  write_release :
      (dst first second : ℕ) (contents : Block) (j : ℕ)
      → ((k : ℕ)
          → suc k ≡ s.budget
          → Q tt (
              written dst contents k
                (given
                  (update (s.pinned) dst none second)
                  (given (update (s.pinned) dst none first) j))
                s))
      → Ends P Q C (
          and_then
            (bwrite dst contents (with_busy j s))
            (λ _ t. and_then (brelse first t) (λ _. brelse second)))
  write_release dst first second contents j q =
      bind
        (bwrite-Ends {Q = λ _ t. (k : ℕ) × (suc k ≡ s.budget) × (t ≡ written dst contents k j s)}
          {C = C} dst contents (with_busy j s) c (λ k z. (k, z, refl)))
        (λ _ t (k, z, e).
          subst (λ x. Ends P Q C (and_then (brelse first x) (λ _. brelse second))) (sym e)
            (subst (Ends P Q C) (sym (release_two first second (written dst contents k j s)))
              (done (q k z))))
        (λ d x. x)

  pub install_block-Ends :
      (from home : ℕ)
      → from ≢ home
      → ((k j : ℕ) → suc k ≡ s.budget → j ≤ s.busy → Q tt (written home (view s from) k j s))
      → Ends P Q C (install_block from home s)
  unfolding install_block
  install_block-Ends from home n q =
      let j1 = taken (s.pinned from) (s.busy) in
      let g = given_back (s.pinned from) (s.pinned home) (s.busy) in
      bread-Ends from s _ (λ l. p (omega arith))
        (bread_beside-Ends from home (with_busy j1 s) _ n (λ l. p (omega (arith, g.2)))
          (write_release home from home (view s from) (taken (s.pinned home) j1) (λ k z.
            q k _ z (rw (pins_at (s.pinned) home, pins_beside (s.pinned) home from n) (g.0)))))

  pub log_block-Ends :
      (to home : ℕ)
      → to ≢ home
      → ((k j : ℕ) → suc k ≡ s.budget → j ≤ s.busy → Q tt (written to (view s home) k j s))
      → Ends P Q C (log_block to home s)
  unfolding log_block
  log_block-Ends to home n q =
      let j1 = taken (s.pinned to) (s.busy) in
      let g = given_back (s.pinned to) (s.pinned home) (s.busy) in
      bread-Ends to s _ (λ l. p (omega arith))
        (bread_beside-Ends to home (with_busy j1 s) _ n (λ l. p (omega (arith, g.2)))
          (write_release to home to (view s home) (taken (s.pinned home) j1) (λ k z.
            q k _ z
              (rw (pins_at (s.pinned) to, pins_beside (s.pinned) to home (λ e. n (sym e))) (g.1)))))

  pub rewrite_block-Ends :
      (b : ℕ) (g : Block → Block)
      → ((k j : ℕ) → suc k ≡ s.budget → j ≤ s.busy → Q tt (written b (g (view s b)) k j s))
      → Ends P Q C
          (and_then (bread b s) (λ old t. and_then (bwrite b (g old) t) (λ _ t. brelse b t)))
  rewrite_block-Ends b g q =
      let j1 = taken (s.pinned b) (s.busy) in
      bread-Ends b s _ (λ l. p (omega arith))
        (bind
          (bwrite-Ends
            {Q = λ _ t. (k : ℕ) × (suc k ≡ s.budget) × (t ≡ written b (g (view s b)) k j1 s)}
            {C = C} b (g (view s b)) (with_busy j1 s) c (λ k z. (k, z, refl)))
          (λ _ t (k, z, e).
            subst (λ x. Ends P Q C (brelse b x)) (sym e)
              (subst (Ends P Q C) (sym (brelse_lem b (written b (g (view s b)) k j1 s))) (
                done (
                  q k _ z (
                    rw (pins_at (s.pinned) b)
                      (omega (arith, (given_back (s.pinned b) none (s.busy)).2)))))))
          (λ d x. x))
