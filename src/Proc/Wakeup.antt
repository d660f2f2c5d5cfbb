-- ===== src/Proc/Wakeup.antt =====
-- `wakeup1` of proc.c: exactly the processes that sleep on the channel become runnable.
use compiling_to_assembly.Prelude.{
  ℕ, zero, suc, ◌+◌, ◌<◌, ◌≡◌, refl, ap, ◌∙◌, true, false, ◌&&◌, arith, ◌==◌, leb, ltb,
  if◌then◌else◌, Bool-cases, inl, inr,
}
use compiling_to_assembly.Proc.{
  nproc, runnable, sleeping, is_zombie, is_unused, Channel, null, entry, other, same_channel, Proc,
  Table, sleeps_on, set_state, wake_loop, wakeup1, sleep,
}

-- an entry after a wakeup on a channel
abbrev pub woken : Channel → Proc → Proc
woken c p = if sleeps_on c p then record p { state = runnable } else p

-- one round of the loop
wake_one :
    (c : Channel) (i : ℕ) (t : Table) (j : ℕ)
    → (if sleeps_on c (t.proc i) then set_state t i runnable else t).proc j
      ≡ (if i == j then woken c (t.proc j) else t.proc j)
wake_one c i t j = elim (Bool-cases (i == j)) [
  | inr ne ↦ ground arith
  | inl e ↦ (let q : i ≡ j = ground arith in rw (e, q) (ground arith))
]

woken_range :
    (c : Channel) (i k j : ℕ) (p : Proc)
    → (if leb (i + 1) j && ltb j (i + 1 + k)
        then woken c (if i == j then woken c p else p)
        else (if i == j then woken c p else p))
      ≡ (if leb i j && ltb j (i + suc k) then woken c p else p)
woken_range c i k j p = ground arith

wake_loop-proc :
    (c : Channel) (k i : ℕ) (t : Table) (j : ℕ)
    → (wake_loop c k i t).proc j
      ≡ (if leb i j && ltb j (i + k) then woken c (t.proc j) else t.proc j)
unfolding wake_loop
wake_loop-proc c zero i t j = ground arith
wake_loop-proc c (suc k) i t j =
    let t1 = if sleeps_on c (t.proc i) then set_state t i runnable else t in
    wake_loop-proc c k (i + 1) t1 j
    ∙ ap (λ (p : Proc). if leb (i + 1) j && ltb j (i + 1 + k) then woken c p else p)
        (wake_one c i t j)
    ∙ woken_range c i k j (t.proc j)

wake_loop-rest :
    (c : Channel) (k i : ℕ) (t : Table)
    → ((wake_loop c k i t).nextpid ≡ t.nextpid) × ((wake_loop c k i t).initproc ≡ t.initproc)
unfolding wake_loop
wake_loop-rest c zero i t = (refl, refl)
wake_loop-rest c (suc k) i t = ground (
  arith,
  wake_loop-rest c k (i + 1) (if sleeps_on c (t.proc i) then set_state t i runnable else t),
)

-- `wakeup1` makes every process of the table that sleeps on the channel runnable, and changes
-- nothing else.
pub wakeup1_lem :
    (c : Channel) (t : Table) (j : ℕ)
    → (wakeup1 c t).proc j ≡ (if ltb j nproc then woken c (t.proc j) else t.proc j)
unfolding wakeup1
wakeup1_lem c t j = let e : leb 0 j ≡ true = ground arith in wake_loop-proc c nproc 0 t j ∙ rw e

same_channel_refl : (c : Channel) → same_channel c c ≡ true
same_channel_refl null = refl
same_channel_refl (entry i) = ground arith
same_channel_refl (other a) = ground arith

-- A process that went to sleep on a channel is runnable behind a wakeup on that channel, and stays
-- asleep behind a wakeup on another.
pub wakeup1-sleep :
    (cur : ℕ) (c d : Channel) (t : Table)
    → cur < nproc
    → (((wakeup1 c (sleep cur c t)).proc cur).state ≡ runnable)
      × (same_channel c d ≡ false → ((wakeup1 d (sleep cur c t)).proc cur).state ≡ sleeping)
unfolding sleep sleeps_on
wakeup1-sleep cur c d t h = (
  ground (arith, wakeup1_lem c (sleep cur c t) cur, same_channel_refl c),
  λ ne. ground (arith, wakeup1_lem d (sleep cur c t) cur),
)

pub wakeup1-rest :
    (c : Channel) (t : Table)
    → ((wakeup1 c t).nextpid ≡ t.nextpid) × ((wakeup1 c t).initproc ≡ t.initproc)
unfolding wakeup1
wakeup1-rest c t = wake_loop-rest c nproc 0 t

-- What a wakeup leaves of an entry.
pub woken-facts :
    (c d : Channel) (p : Proc)
    → ((woken c p).parent ≡ p.parent)
      × (is_zombie ((woken c p).state) ≡ is_zombie (p.state))
      × (sleeps_on d p ≡ false → sleeps_on d (woken c p) ≡ false)
      × (sleeps_on c (woken c p) ≡ false)
      × (is_unused ((woken c p).state) ≡ is_unused (p.state))
      × ((woken c p).pid ≡ p.pid)
unfolding sleeps_on
woken-facts c d p =
    (ground arith, ground arith, λ h. ground arith, ground arith, ground arith, ground arith)
