-- ===== src/Icache/Entries.antt =====
-- The entries of the inode cache of fs.c: one entry for each inode, held as often as it is counted.
use mathlib.Core.Path.{subst}
use compiling_to_assembly.Prelude.{
  extend, ℕ, zero, suc, ◌+◌, ◌≤◌, ◌<◌, ◌≡◌, ◌≢◌, refl, ap, sym, ◌∙◌, ◌⊎◌, Bool, true, false, Option,
  none, some, arith, ◌==◌, if◌then◌else◌, update, ==→≡, Bool-cases, inl, inr,
}
use compiling_to_assembly.Inode.{Inode}
use compiling_to_assembly.Icache.{
  ninode, Cache, Search, cached, missed, caches, find_inode, iget_end, iget,
}

-- No two entries in use are of the same inode.
abbrev pub Unique : Cache → Type 0
Unique c =
    (i j : ℕ)
    → i < ninode
    → j < ninode
    → 0 < (c i).ref
    → 0 < (c j).ref
    → (c i).dev ≡ (c j).dev
    → (c i).inum ≡ (c j).inum
    → i ≡ j

-- What the search finds, from entry `i` on.
abbrev Searched : Cache → ℕ → ℕ → ℕ → ℕ → Option ℕ → Search → Type 0
Searched c dev inum k i empty (cached j) = (j < i + k) × (caches dev inum (c j) ≡ true)
Searched c dev inum k i empty (missed none) =
    (empty ≡ none) × ((m : ℕ) → i ≤ m → m < i + k → 0 < (c m).ref)
Searched c dev inum k i empty (missed (some e)) =
    ((m : ℕ) → i ≤ m → m < i + k → caches dev inum (c m) ≡ false)
    × ((empty ≡ some e) ⊎ (((c e).ref ≡ 0) × (e < i + k)))

some-injective : (a b : ℕ) → ◌≡◌ {A = Option ℕ} (some a) (some b) → a ≡ b
some-injective a b e = ground arith

none_ne_some : (a : ℕ) → ◌≢◌ {A = Option ℕ} none (some a)
none_ne_some a e = ground arith

at_entry : (c : Cache) (i e k : ℕ) → (c i).ref ≡ 0 → i ≡ e → ((c e).ref ≡ 0) × (e < i + suc k)
at_entry c i e k z q = (subst (λ m. (c m).ref ≡ 0) q z, omega arith)

skip_entry :
    (c : Cache) (dev inum k i : ℕ) (empty : Option ℕ) (s : Search)
    → caches dev inum (c i) ≡ false
    → Searched c dev inum k
        (i + 1)
        (elim empty [ some e ↦ some e | none ↦ if (c i).ref == 0 then some i else none ])
        s
    → Searched c dev inum (suc k) i empty s
skip_entry c dev inum k i empty (cached j) n h = (omega arith, h.1)
skip_entry c dev inum k i none (missed none) n h = elim (Bool-cases ((c i).ref == 0)) [
  | inl z ↦ absurd (none_ne_some i (sym (rw z at (h.0))))
  | inr z ↦ (refl, extend {P = λ m. 0 < (c m).ref} i k (ground arith) (h.1))
]
skip_entry c dev inum k i (some y) (missed none) n h = absurd (none_ne_some y (sym (h.0)))
skip_entry c dev inum k i none (missed (some e)) n h = (
  extend {P = λ m. caches dev inum (c m) ≡ false} i k n (h.0),
  inr (elim (Bool-cases ((c i).ref == 0)) [
    | inl z ↦ elim (h.1) [
      | inl q ↦ at_entry c i e k (==→≡ _ _ z) (some-injective i e (rw z at q))
      | inr q ↦ (q.0, omega arith)
    ]
    | inr z ↦ elim (h.1) [
      | inl q ↦ absurd (none_ne_some e (rw z at q))
      | inr q ↦ (q.0, omega arith)
    ]
  ]),
)
skip_entry c dev inum k i (some y) (missed (some e)) n h = (
  extend {P = λ m. caches dev inum (c m) ≡ false} i k n (h.0),
  elim (h.1) [ inl q ↦ inl q | inr q ↦ inr (q.0, omega arith) ],
)

find_inode-Searched :
    (c : Cache) (dev inum k i : ℕ) (empty : Option ℕ)
    → Searched c dev inum k i empty (find_inode c dev inum k i empty)
unfolding find_inode
find_inode-Searched c dev inum zero i none = (refl, λ m a b. absurd (omega arith))
find_inode-Searched c dev inum zero i (some e) = (λ m a b. absurd (omega arith), inl refl)
find_inode-Searched c dev inum (suc k) i empty = elim (Bool-cases (caches dev inum (c i))) [
  | inl e ↦ rw (find_inode, e) (omega arith, e)
  | inr e ↦
      rw (find_inode, e)
        (skip_entry c dev inum k i empty _ e (find_inode-Searched c dev inum k (i + 1) _))
]

-- What `iget` gives: the entry of the inode, which is the one there was or a free one, with a reference
-- more.
pub record Got (dev inum : ℕ) (c : Cache) (i : ℕ) (c' : Cache) : Type 0 where
  pub index : i < ninode
  pub same_dev : (c' i).dev ≡ dev
  pub same_inum : (c' i).inum ≡ inum
  pub refs : (j : ℕ) → (c' j).ref ≡ (if i == j then (c i).ref + 1 else (c j).ref)
  pub others : (j : ℕ) → i ≢ j → c' j ≡ c j
  pub origin :
      (caches dev inum (c i) ≡ true)
      ⊎ (((c i).ref ≡ 0) × ((j : ℕ) → j < ninode → caches dev inum (c j) ≡ false))

pub data GetEnds (dev inum : ℕ) (c : Cache) : Option (ℕ × Cache) → Type 0 where
  gets : (i : ℕ) (c' : Cache) → Got dev inum c i c' → GetEnds dev inum c (some (i, c'))
  no_entry : ((j : ℕ) → j < ninode → 0 < (c j).ref) → GetEnds dev inum c none

pub caches_fields :
    (dev inum : ℕ) (ip : Inode)
    → caches dev inum ip ≡ true
    → (0 < ip.ref) × (ip.dev ≡ dev) × (ip.inum ≡ inum)
caches_fields dev inum ip h = (ground arith, ground arith, ground arith)

at_self : (c : Cache) (i : ℕ) (ip : Inode) → update c i ip i ≡ ip
at_self c i ip = (let e : (i == i) ≡ true = ground arith in rw e refl)

elsewhere : (c : Cache) (i : ℕ) (ip : Inode) (j : ℕ) → i ≢ j → update c i ip j ≡ c j
elsewhere c i ip j n = (let e : (i == j) ≡ false = ground arith in rw e refl)

pub ref-update :
    (c : Cache) (i : ℕ) (ip : Inode) (j : ℕ)
    → (update c i ip j).ref ≡ (if i == j then ip.ref else (c j).ref)
ref-update c i ip j = ground arith

one_more : (b : Bool) (r x : ℕ) → r ≡ 0 → (if b then 1 else x) ≡ (if b then r + 1 else x)
one_more b r x z = ground arith

iget_end-GetEnds :
    (dev inum : ℕ) (c : Cache) (s : Search)
    → Searched c dev inum ninode 0 none s
    → GetEnds dev inum c (iget_end dev inum c s)
unfolding iget_end
iget_end-GetEnds dev inum c (cached i) h =
    let ip = record (c i) { ref = (c i).ref + 1 } in
    let f = caches_fields dev inum (c i) (h.1) in
    gets i (update c i ip) (record {
      index = omega arith;
      same_dev = ap (λ (p : Inode). p.dev) (at_self c i ip) ∙ f.1;
      same_inum = ap (λ (p : Inode). p.inum) (at_self c i ip) ∙ f.2;
      refs = ref-update c i ip;
      others = elsewhere c i ip;
      origin = inl (h.1);
    })
iget_end-GetEnds dev inum c (missed none) h = no_entry (λ j l. h.1 j (omega arith) (omega arith))
iget_end-GetEnds dev inum c (missed (some i)) h =
    let ip = record (c i) { dev = dev; inum = inum; ref = 1; valid = false } in
    let z : ((c i).ref ≡ 0) × (i < 0 + ninode) = elim (h.1) [
      | inl q ↦ absurd (none_ne_some i q)
      | inr q ↦ q
    ] in
    gets i (update c i ip) (record {
      index = omega arith;
      same_dev = ap (λ (p : Inode). p.dev) (at_self c i ip);
      same_inum = ap (λ (p : Inode). p.inum) (at_self c i ip);
      refs = λ j. ref-update c i ip j ∙ one_more (i == j) ((c i).ref) ((c j).ref) (z.0);
      others = elsewhere c i ip;
      origin = inr (z.0, λ j l. h.0 j (omega arith) (omega arith));
    })

-- `iget` of an inode gives its entry, if it is in the cache, or a free one; it panics exactly when all
-- entries are in use.
pub iget-GetEnds : (dev inum : ℕ) (c : Cache) → GetEnds dev inum c (iget dev inum c)
unfolding iget
iget-GetEnds dev inum c =
    iget_end-GetEnds dev inum c _ (find_inode-Searched c dev inum ninode 0 none)

pub fields_caches :
    (dev inum : ℕ) (ip : Inode)
    → 0 < ip.ref
    → ip.dev ≡ dev
    → ip.inum ≡ inum
    → caches dev inum ip ≡ true
fields_caches dev inum ip a b c = ground arith
