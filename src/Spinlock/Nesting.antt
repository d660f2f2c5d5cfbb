-- ===== src/Spinlock/Nesting.antt =====
-- Interrupts under nested `pushcli` and `popcli`, and under a lock.
use compiling_to_assembly.Prelude.{
  ℕ, zero, suc, ◌-◌, ◌<◌, ◌≡◌, ◌&&◌, refl, true, false, none, some, Option, arith, ◌==◌,
  if◌then◌else◌,
}
use compiling_to_assembly.Spinlock.{Cpu, Lock, pushcli, popcli, held_by, acquire, release}

-- While calls of `pushcli` are open, interrupts are off.
abbrev pub CpuOk : Cpu → Type 0
CpuOk c = 0 < c.ncli → c.interrupts ≡ false

pub pushcli-CpuOk : (c : Cpu) → CpuOk (pushcli c)
unfolding pushcli
pushcli-CpuOk c h = refl

-- `n` calls of `pushcli`, and `n` calls of `popcli`
unfoldable pub push_n : ℕ → Cpu → Cpu
push_n zero c = c
push_n (suc n) c = push_n n (pushcli c)

unfoldable pub pop_n : ℕ → Cpu → Option Cpu
pop_n zero c = some c
pop_n (suc n) c = elim (pop_n n c) [ none ↦ none | some c' ↦ popcli c' ]

-- Same depth and same interrupt flag; `intena` counts only while calls are open.
pub record SameCpu (c d : Cpu) : Type 0 where
  pub depth : d.ncli ≡ c.ncli
  pub flag : d.interrupts ≡ c.interrupts
  pub saved : 0 < c.ncli → d.intena ≡ c.intena

pub popcli-pushcli : (c : Cpu) → CpuOk c → (d : Cpu) × (popcli (pushcli c) ≡ some d) × SameCpu c d
unfolding pushcli popcli
popcli-pushcli c ok = (
  record c { intena = if c.ncli == 0 then c.interrupts else c.intena },
  ground arith,
  record { depth = refl; flag = refl; saved = λ h. ground arith },
)

popcli-SameCpu :
    (c d : Cpu) → CpuOk c → SameCpu (pushcli c) d → (e : Cpu) × (popcli d ≡ some e) × SameCpu c e
unfolding pushcli popcli
popcli-SameCpu c d ok same = (
  record d { ncli = d.ncli - 1; interrupts = (d.ncli - 1 == 0) && d.intena },
  ground (arith, same.depth, same.flag),
  record {
    depth = omega (arith, same.depth);
    flag = ground (arith, same.depth, same.saved (omega arith));
    saved = λ h. ground (arith, same.saved (omega arith));
  },
)

pushcli-off : (c : Cpu) → (pushcli c).interrupts ≡ false
unfolding pushcli
pushcli-off c = refl

push_n-off : (n : ℕ) (c : Cpu) → c.interrupts ≡ false → (push_n n c).interrupts ≡ false
unfolding push_n
push_n-off zero c h = h
push_n-off (suc n) c h = push_n-off n (pushcli c) (pushcli-off c)

-- `n` calls of `popcli` undo `n` calls of `pushcli`, without a panic and whatever the depth; in
-- between, interrupts are off if there was any call.
pub pop_n-push_n :
    (n : ℕ) (c : Cpu)
    → CpuOk c
    → (0 < n → (push_n n c).interrupts ≡ false)
      × ((d : Cpu) × (pop_n n (push_n n c) ≡ some d) × SameCpu c d)
unfolding push_n pop_n
pop_n-push_n zero c ok =
    (λ h. absurd (omega arith), (c, refl, record { depth = refl; flag = refl; saved = λ h. refl }))
pop_n-push_n (suc n) c ok =
    let (off, (d, e, same)) = pop_n-push_n n (pushcli c) (pushcli-CpuOk c) in
    let (d', e', same') = popcli-SameCpu c d ok same in
    (λ h. still_off n, (d', rw (e, pop_n) e', same'))
  where
    still_off : (m : ℕ) → (push_n m (pushcli c)).interrupts ≡ false
    still_off m = push_n-off m (pushcli c) (pushcli-off c)

-- On a free lock `acquire` succeeds, with interrupts off and the lock held by this CPU alone; the
-- matching `release` frees it and leaves the CPU as it was.
pub release-acquire :
    (me : ℕ) (lk : Lock) (c : Cpu)
    → lk.locked ≡ false
    → CpuOk c
    → (lk' : Lock) × (c' : Cpu) × (acquire me lk c ≡ some (lk', c'))
      × (c'.interrupts ≡ false)
      × (held_by me lk' ≡ true)
      × ((lk'' : Lock) × (c'' : Cpu) × (release me lk' c' ≡ some (lk'', c''))
          × (lk''.locked ≡ false)
          × SameCpu c c'')
unfolding acquire release pushcli popcli
release-acquire me lk c free ok = (
  record { locked = true; holder = some me },
  pushcli c,
  ground arith,
  refl,
  ground arith,
  (
    record { locked = false; holder = none },
    record c { intena = if c.ncli == 0 then c.interrupts else c.intena },
    ground arith,
    refl,
    record { depth = refl; flag = refl; saved = λ h. ground arith },
  ),
)
