-- ===== src/Proc/Reparent.antt =====
-- The second loop of `exit` of proc.c: the children go to init, which wakes for a zombie.
use mathlib.Core.Path.{subst}
use compiling_to_assembly.Prelude.{
  ℕ, zero, suc, ◌+◌, ◌≤◌, ◌<◌, ◌≡◌, refl, sym, ◌∙◌, Bool, true, false, ◌&&◌, Option, some, arith,
  ◌==◌, leb, ltb, if◌then◌else◌, Bool-cases, inl, inr,
}
use compiling_to_assembly.Proc.{
  nproc, Proc, Table, is_zombie, entry, null, Channel, sleeps_on, child_of, put_proc, wakeup1,
  reparent_one, reparent_loop,
}
use compiling_to_assembly.Proc.Wakeup.{wakeup1_lem, wakeup1-rest, woken-facts}

-- What one wakeup leaves of an entry, anywhere in the table.
pub wakeup1-facts :
    (c d : Channel) (t : Table) (j : ℕ)
    → (((wakeup1 c t).proc j).parent ≡ (t.proc j).parent)
      × (is_zombie (((wakeup1 c t).proc j).state) ≡ is_zombie ((t.proc j).state))
      × (sleeps_on d (t.proc j) ≡ false → sleeps_on d ((wakeup1 c t).proc j) ≡ false)
      × (j < nproc → sleeps_on c ((wakeup1 c t).proc j) ≡ false)
wakeup1-facts c d t j = elim (Bool-cases (ltb j nproc)) [
  | inl e ↦
      let f = woken-facts c d (t.proc j) in rw (wakeup1_lem c t j, e) (f.0, f.1, f.2, λ h. f.3)
  | inr e ↦ rw (wakeup1_lem c t j, e) (refl, refl, λ h. h, λ h. absurd (ground arith))
]

-- One round changes the parent of a child only, keeps zombies and puts nobody to sleep.
record Round (cur i : ℕ) (t t' : Table) : Type 0 where
  init : t'.initproc ≡ t.initproc
  parent :
      (j : ℕ)
      → (t'.proc j).parent
        ≡ (if (i == j) && child_of cur (t.proc j) then some (t.initproc) else (t.proc j).parent)
  zombies : (j : ℕ) → is_zombie ((t'.proc j).state) ≡ is_zombie ((t.proc j).state)
  awake : (j : ℕ) (d : Channel) → sleeps_on d (t.proc j) ≡ false → sleeps_on d (t'.proc j) ≡ false
  wakes :
      child_of cur (t.proc i) ≡ true
      → is_zombie ((t.proc i).state) ≡ true
      → t.initproc < nproc
      → sleeps_on (entry (t.initproc)) (t'.proc (t.initproc)) ≡ false

adopted : ℕ → Table → Table
adopted i t = put_proc t i (record (t.proc i) { parent = some (t.initproc) })

sleeps_on-parent :
    (d : Channel) (p : Proc) (q : Option ℕ) → sleeps_on d (record p { parent = q }) ≡ sleeps_on d p
unfolding sleeps_on
sleeps_on-parent d p q = refl

adopted-facts :
    (i : ℕ) (t : Table) (j : ℕ) (d : Channel)
    → (((adopted i t).proc j).parent ≡ (if i == j then some (t.initproc) else (t.proc j).parent))
      × (is_zombie (((adopted i t).proc j).state) ≡ is_zombie ((t.proc j).state))
      × (sleeps_on d ((adopted i t).proc j) ≡ sleeps_on d (t.proc j))
unfolding adopted
adopted-facts i t j d = elim (Bool-cases (i == j)) [
  | inr ne ↦ rw ne (refl, refl, refl)
  | inl e ↦
      let q : i ≡ j = ground arith in
      rw (e, q) (refl, refl, sleeps_on-parent d (t.proc j) (some (t.initproc)))
]

own_parent :
    (cur i : ℕ) (t : Table) (j : ℕ) (b : Bool)
    → child_of cur (t.proc i) ≡ b
    → (if (i == j) && child_of cur (t.proc j) then some (t.initproc) else (t.proc j).parent)
      ≡ (if (i == j) && b then some (t.initproc) else (t.proc j).parent)
own_parent cur i t j b h = elim (Bool-cases (i == j)) [
  | inr ne ↦ rw ne
  | inl e ↦ (let q : i ≡ j = ground arith in rw (e, ← q, h))
]

and_true : (b : Bool) → (b && true) ≡ b
and_true true = refl
and_true false = refl

and_false : (b : Bool) → (b && false) ≡ false
and_false true = refl
and_false false = refl

adopted-Round :
    (cur i : ℕ) (t : Table)
    → child_of cur (t.proc i) ≡ true
    → is_zombie ((t.proc i).state) ≡ false
    → Round cur i t (adopted i t)
unfolding adopted
adopted-Round cur i t c z = record {
  init = refl;
  parent = λ j.
      (adopted-facts i t j null).0 ∙ sym (own_parent cur i t j true c ∙ rw (and_true (i == j)));
  zombies = λ j. (adopted-facts i t j null).1;
  awake = λ j d h. (adopted-facts i t j d).2 ∙ h;
  wakes = λ c' z' l. absurd (cc);
}

woken-Round :
    (cur i : ℕ) (t : Table)
    → child_of cur (t.proc i) ≡ true
    → Round cur i t (wakeup1 (entry (t.initproc)) (adopted i t))
unfolding adopted
woken-Round cur i t c =
    let w = wakeup1-facts (entry (t.initproc)) in
    record {
      init = (wakeup1-rest (entry (t.initproc)) (adopted i t)).1;
      parent = λ j.
          (w null (adopted i t) j).0
          ∙ (adopted-facts i t j null).0
          ∙ sym (own_parent cur i t j true c ∙ rw (and_true (i == j)));
      zombies = λ j. (w null (adopted i t) j).1 ∙ (adopted-facts i t j null).1;
      awake = λ j d h. (w d (adopted i t) j).2 ((adopted-facts i t j d).2 ∙ h);
      wakes = λ c' z' l. (w null (adopted i t) (t.initproc)).3 l;
    }

same-Round : (cur i : ℕ) (t : Table) → child_of cur (t.proc i) ≡ false → Round cur i t t
same-Round cur i t c = record {
  init = refl;
  parent = λ j. sym (own_parent cur i t j false c ∙ rw (and_false (i == j)));
  zombies = λ j. refl;
  awake = λ j d h. h;
  wakes = λ c' z' l. absurd (cc);
}

reparent_one-Round : (cur i : ℕ) (t : Table) → Round cur i t (reparent_one cur i t)
unfolding reparent_one adopted
reparent_one-Round cur i t = elim (Bool-cases (child_of cur (t.proc i))) [
  | inr ne ↦ rw ne (same-Round cur i t ne)
  | inl e ↦ elim (Bool-cases (is_zombie ((t.proc i).state))) [
    | inl z ↦ rw (e, z) (woken-Round cur i t e)
    | inr z ↦ rw (e, z) (adopted-Round cur i t e z)
  ]
]

-- The whole loop, over the entries from `i` to `i + k`.
pub record Adopts (cur i k : ℕ) (t t' : Table) : Type 0 where
  pub init : t'.initproc ≡ t.initproc
  pub parent :
      (j : ℕ)
      → (t'.proc j).parent ≡ (
          if leb i j && ltb j (i + k) && child_of cur (t.proc j)
          then some (t.initproc)
          else (t.proc j).parent)
  pub zombies : (j : ℕ) → is_zombie ((t'.proc j).state) ≡ is_zombie ((t.proc j).state)
  pub awake :
      (j : ℕ) (d : Channel) → sleeps_on d (t.proc j) ≡ false → sleeps_on d (t'.proc j) ≡ false
  pub wakes :
      (j : ℕ)
      → i ≤ j
      → j < i + k
      → child_of cur (t.proc j) ≡ true
      → is_zombie ((t.proc j).state) ≡ true
      → t.initproc < nproc
      → sleeps_on (entry (t.initproc)) (t'.proc (t.initproc)) ≡ false

pub child_of-parent : (cur : ℕ) (p q : Proc) → p.parent ≡ q.parent → child_of cur p ≡ child_of cur q
unfolding child_of
child_of-parent cur p q h = rw h

Adopts-step :
    (cur i k : ℕ) (t t1 t2 : Table)
    → Round cur i t t1
    → Adopts cur (i + 1) k t1 t2
    → Adopts cur i (suc k) t t2
Adopts-step cur i k t t1 t2 r a = record {
  init = a.init ∙ r.init;
  parent = λ j.
      ground (arith, a.parent j, r.parent j, r.init, child_of-parent cur (t1.proc j) (t.proc j));
  zombies = λ j. a.zombies j ∙ r.zombies j;
  awake = λ j d h. a.awake j d (r.awake j d h);
  wakes = λ j l u c z n. elim (Bool-cases (i == j)) [
    | inl e ↦
        let q : i ≡ j = ground arith in
        a.awake (t.initproc) (entry (t.initproc)) (
          r.wakes (subst (λ m. child_of cur (t.proc m) ≡ true) (sym q) c)
            (subst (λ m. is_zombie ((t.proc m).state) ≡ true) (sym q) z) n)
    | inr ne ↦
        let same : child_of cur (t1.proc j) ≡ child_of cur (t.proc j) =
          child_of-parent cur (t1.proc j) (t.proc j) (r.parent j ∙ rw ne) in
        subst (λ m. sleeps_on (entry m) (t2.proc m) ≡ false) (r.init)
          (a.wakes j (ground arith) (omega arith) (same ∙ c) (r.zombies j ∙ z)
            (subst (λ m. m < nproc) (sym (r.init)) n))
  ];
}

pub reparent_loop-Adopts : (cur k i : ℕ) (t : Table) → Adopts cur i k t (reparent_loop cur k i t)
unfolding reparent_loop
reparent_loop-Adopts cur zero i t = record {
  init = refl;
  parent = λ j. ground arith;
  zombies = λ j. refl;
  awake = λ j d h. h;
  wakes = λ j l u c z n. absurd (omega arith);
}
reparent_loop-Adopts cur (suc k) i t =
    Adopts-step cur i k t (reparent_one cur i t) _ (reparent_one-Round cur i t)
      (reparent_loop-Adopts cur k (i + 1) (reparent_one cur i t))
