-- ===== src/Icache/Held.antt =====
-- The references of the inode cache of fs.c over any order of calls.
use mathlib.Core.Path.{subst}
use compiling_to_assembly.Prelude.{
  some-injective, ℕ, ◌+◌, ◌-◌, ◌%◌, ◌^◌, ◌<◌, ◌≡◌, ◌≢◌, refl, ap, sym, ◌∙◌, false, ◌&&◌, Option,
  some, arith, ◌==◌, if◌then◌else◌, update, ==→≡, ==→≢, Bool-cases, inl, inr,
}
use compiling_to_assembly.Fs.{Super, Blocks, Attempt, returns, panics, and_then}
use compiling_to_assembly.Inode.{Inode, itrunc, iupdate}
use compiling_to_assembly.Inode.Trunc.{SameInode, Keeps, keeps, halts, itrunc-Keeps}
use compiling_to_assembly.Icache.{ninode, Cache, iget, idup, drop_ref, iput}
use compiling_to_assembly.Inode.RoundTrip.{returned, panics_ne}
use compiling_to_assembly.Icache.Entries.{
  Unique, Got, GetEnds, gets, no_entry, iget-GetEnds, ref-update, caches_fields, fields_caches,
}

-- The cache, the blocks, and how many references to each entry are held.
pub record Held : Type 0 where
  pub cache : Cache
  pub blocks : Blocks
  pub refs : ℕ → ℕ

-- Who copies, locks or puts a reference has one, and a count fits 32 bits. The holder of the lock may
-- change the inode and the blocks; so may the transactions of others, which change blocks only.
pub data Step (sb : Super) : Held → Held → Type 0 where
  get :
      (h : Held) (dev inum i : ℕ) (c : Cache)
      → iget dev inum (h.cache) ≡ some (i, c)
      → Step sb h (record { cache = c; blocks = h.blocks; refs = update (h.refs) i (h.refs i + 1) })
  dup :
      (h : Held) (i : ℕ)
      → 0 < h.refs i
      → Step sb h (record {
        cache = idup i (h.cache);
        blocks = h.blocks;
        refs = update (h.refs) i (h.refs i + 1);
      })
  put :
      (h : Held) (i : ℕ) (c : Cache) (d : Blocks)
      → 0 < h.refs i
      → h.refs i < 2 ^ 32
      → iput sb i (h.cache) (h.blocks) ≡ returns c d
      → Step sb h (record { cache = c; blocks = d; refs = update (h.refs) i (h.refs i - 1) })
  locked :
      (h : Held) (i : ℕ) (ip : Inode) (d : Blocks)
      → 0 < h.refs i
      → SameInode (h.cache i) ip
      → Step sb h (record { cache = update (h.cache) i ip; blocks = d; refs = h.refs })

pub data Reach (sb : Super) (h : Held) : Held → Type 0 where
  start : Reach sb h h
  next : (h1 h2 : Held) → Reach sb h h1 → Step sb h1 h2 → Reach sb h h2

-- Each entry is counted as often as it is held, and no inode has two entries.
pub record Counted (h : Held) : Type 0 where
  pub counts : (i : ℕ) → (h.cache i).ref ≡ h.refs i
  pub unique : Unique (h.cache)

-- A cache with one entry that stays the inode it was.
module _ (c : Cache) (i r : ℕ) (ip : Inode) (dev : ip.dev ≡ (c i).dev) (inum : ip.inum ≡ (c i).inum)
    (ref : ip.ref ≡ r) where
  kept_refs : (j : ℕ) → (update c i ip j).ref ≡ (if i == j then r else (c j).ref)
  kept_refs j = ref-update c i ip j ∙ ap (λ (x : ℕ). if i == j then x else (c j).ref) ref

  kept_dev : (j : ℕ) → (update c i ip j).dev ≡ (c j).dev
  kept_dev j = elim (Bool-cases (i == j)) [
    | inl e ↦ rw e (subst (λ m. ip.dev ≡ (c m).dev) (==→≡ i j e) dev)
    | inr e ↦ rw e refl
  ]

  kept_inum : (j : ℕ) → (update c i ip j).inum ≡ (c j).inum
  kept_inum j = elim (Bool-cases (i == j)) [
    | inl e ↦ rw e (subst (λ m. ip.inum ≡ (c m).inum) (==→≡ i j e) inum)
    | inr e ↦ rw e refl
  ]

  used : (0 < r → 0 < (c i).ref) → (j : ℕ) → 0 < (update c i ip j).ref → 0 < (c j).ref
  used pos j p =
      let q : 0 < (if i == j then r else (c j).ref) = subst (λ m. 0 < m) (kept_refs j) p in
      elim (Bool-cases (i == j)) [
        | inl e ↦ subst (λ m. 0 < (c m).ref) (==→≡ i j e) (pos (rw e at q))
        | inr e ↦ rw e at q
      ]

  kept-Unique : (0 < r → 0 < (c i).ref) → Unique c → Unique (update c i ip)
  kept-Unique pos u j k lj lk pj pk dj dk =
      u j k lj lk (used pos j pj) (used pos k pk) (sym (kept_dev j) ∙ dj ∙ kept_dev k)
        (sym (kept_inum j) ∙ dk ∙ kept_inum k)

data PutOk (c : Cache) (i : ℕ) : Attempt Cache → Type 0 where
  puts :
      (ip : Inode) (d : Blocks)
      → ip.dev ≡ (c i).dev
      → ip.inum ≡ (c i).inum
      → ip.ref ≡ ((c i).ref + 2 ^ 32 - 1) % 2 ^ 32
      → PutOk c i (returns (update c i ip) d)
  fails : (d : Blocks) → PutOk c i (panics d)

cleared :
    {c : Cache} {i : ℕ} (r : Attempt (Unit {0})) (f : Unit {0} → Blocks → Attempt Cache)
    → ((u : Unit {0}) (e : Blocks) → PutOk c i (f u e))
    → PutOk c i (and_then r f)
cleared (returns u e) f h = h u e
cleared (panics e) f h = fails e

freed_put :
    (sb : Super) (c : Cache) (i : ℕ) (r : Attempt Inode)
    → Keeps (c i) r
    → PutOk c i (
        and_then r (λ ip d'.
          let freed = record ip { kind = 0 } in
          and_then
            (iupdate sb freed d')
            (λ u e. returns (drop_ref i (record freed { valid = false }) c) e)))
freed_put sb c i r (keeps ip d s) =
    cleared (iupdate sb (record ip { kind = 0 }) d) _
      (λ u e. puts _ e (s.dev) (s.inum) (ap (λ (x : ℕ). (x + 2 ^ 32 - 1) % 2 ^ 32) (s.ref)))
freed_put sb c i r (halts d) = fails d

iput-PutOk : (sb : Super) (c : Cache) (i : ℕ) (d : Blocks) → PutOk c i (iput sb i c d)
unfolding iput
iput-PutOk sb c i d = elim (Bool-cases ((c i).valid && ((c i).nlink == 0) && ((c i).ref == 1))) [
  | inr e ↦ rw (iput, e) (puts _ d refl refl refl)
  | inl e ↦ rw (iput, e) (freed_put sb c i (itrunc sb (c i) d) (itrunc-Keeps sb (c i) d))
]

wrapped_less : (r : ℕ) → 0 < r → r < 2 ^ 32 → (r + 2 ^ 32 - 1) % 2 ^ 32 ≡ r - 1
wrapped_less r p l = omega arith

changed_count :
    (h : Held) (i r : ℕ) (c : Cache)
    → ((j : ℕ) → (c j).ref ≡ (if i == j then r else (h.cache j).ref))
    → ((j : ℕ) → (h.cache j).ref ≡ h.refs j)
    → (j : ℕ) → (c j).ref ≡ update (h.refs) i r j
changed_count h i r c f k j = f j ∙ ap (λ (x : ℕ). if i == j then r else x) (k j)

put-Counted :
    (h : Held) (i : ℕ) (c : Cache) (d : Blocks) (a : Attempt Cache)
    → 0 < h.refs i
    → h.refs i < 2 ^ 32
    → Counted h
    → PutOk (h.cache) i a
    → a ≡ returns c d
    → Counted (record { cache = c; blocks = d; refs = update (h.refs) i (h.refs i - 1) })
put-Counted h i c d a p l k (fails e) q = absurd (panics_ne _ _ _ q)
put-Counted h i c d a p l k (puts ip e dev inum ref) q =
    let n : (h.cache i).ref ≡ h.refs i = k.counts i in
    let less : ip.ref ≡ h.refs i - 1 =
      ref ∙ ap (λ (x : ℕ). (x + 2 ^ 32 - 1) % 2 ^ 32) n ∙ wrapped_less (h.refs i) p l in
    subst
      (λ c'. Counted (record { cache = c'; blocks = d; refs = update (h.refs) i (h.refs i - 1) }))
      ((returned _ _ _ _ q).0)
      (record {
        counts =
            changed_count h i (h.refs i - 1) (update (h.cache) i ip)
              (kept_refs (h.cache) i (h.refs i - 1) ip dev inum less) (k.counts);
        unique =
            kept-Unique (h.cache) i (h.refs i - 1) ip dev inum less
              (λ x. subst (λ m. 0 < m) (sym n) p) (k.unique);
      })

Got-one :
    (dev inum i : ℕ) (c c' : Cache)
    → Unique c
    → Got dev inum c i c'
    → (k : ℕ) → k < ninode
    → i ≢ k
    → 0 < (c' k).ref
    → (c' i).dev ≡ (c' k).dev
    → (c' i).inum ≡ (c' k).inum
    → i ≡ k
Got-one dev inum i c c' u g k l n p e f =
    let o = g.others k n in
    let pos : 0 < (c k).ref = subst (λ (ip : Inode). 0 < ip.ref) o p in
    let d : (c k).dev ≡ dev = sym (e ∙ ap (λ (ip : Inode). ip.dev) o) ∙ g.same_dev in
    let m : (c k).inum ≡ inum = sym (f ∙ ap (λ (ip : Inode). ip.inum) o) ∙ g.same_inum in
    elim (g.origin) [
      | inl h ↦
          let s = caches_fields dev inum (c i) h in
          u i k (g.index) l (s.0) pos (s.1 ∙ sym d) (s.2 ∙ sym m)
      | inr z ↦ absurd (let a = z.1 k l in let b = fields_caches dev inum (c k) pos d m in cc)
    ]

Got-Unique : (dev inum i : ℕ) (c c' : Cache) → Unique c → Got dev inum c i c' → Unique c'
Got-Unique dev inum i c c' u g j k lj lk pj pk e f = elim (Bool-cases (i == j)) [
  | inl a ↦
      let q : i ≡ j = ==→≡ i j a in
      elim (Bool-cases (i == k)) [
        | inl b ↦ sym q ∙ ==→≡ i k b
        | inr b ↦
            sym q
            ∙ Got-one dev inum i c c' u g k lk (==→≢ i k b) pk (ap (λ (m : ℕ). (c' m).dev) q ∙ e)
                (ap (λ (m : ℕ). (c' m).inum) q ∙ f)
      ]
  | inr a ↦ elim (Bool-cases (i == k)) [
    | inl b ↦
        let q : i ≡ k = ==→≡ i k b in
        sym (
          Got-one dev inum i c c' u g j lj (==→≢ i j a) pj (ap (λ (m : ℕ). (c' m).dev) q ∙ sym e)
            (ap (λ (m : ℕ). (c' m).inum) q ∙ sym f))
        ∙ q
    | inr b ↦
        let x = g.others j (==→≢ i j a) in
        let y = g.others k (==→≢ i k b) in
        u j k lj lk (subst (λ (ip : Inode). 0 < ip.ref) x pj)
          (subst (λ (ip : Inode). 0 < ip.ref) y pk)
          (sym (ap (λ (ip : Inode). ip.dev) x) ∙ e ∙ ap (λ (ip : Inode). ip.dev) y)
          (sym (ap (λ (ip : Inode). ip.inum) x) ∙ f ∙ ap (λ (ip : Inode). ip.inum) y)
  ]
]

Got-Counted :
    (h : Held) (dev inum i : ℕ) (c : Cache)
    → Counted h
    → Got dev inum (h.cache) i c
    → Counted (record { cache = c; blocks = h.blocks; refs = update (h.refs) i (h.refs i + 1) })
Got-Counted h dev inum i c k g = record {
  counts =
      changed_count h i (h.refs i + 1) c
        (λ j. g.refs j ∙ ap (λ (x : ℕ). if i == j then x + 1 else (h.cache j).ref) (k.counts i))
        (k.counts);
  unique = Got-Unique dev inum i (h.cache) c (k.unique) g;
}

get_returned :
    (dev inum i : ℕ) (c c' : Cache) (r : Option (ℕ × Cache))
    → GetEnds dev inum c r
    → r ≡ some (i, c')
    → Got dev inum c i c'
get_returned dev inum i c c' r (gets j e g) q =
    let p = some-injective (j, e) (i, c') q in
    subst (λ (p : ℕ × Cache). Got dev inum c (p.0) (p.1)) p g
get_returned dev inum i c c' r (no_entry f) q = absurd (ground arith)

self_count : (c : Cache) (i j : ℕ) → (if i == j then (c i).ref else (c j).ref) ≡ (c j).ref
self_count c i j = elim (Bool-cases (i == j)) [
  | inl e ↦ rw e (ap (λ (m : ℕ). (c m).ref) (==→≡ i j e))
  | inr e ↦ rw e refl
]

held_entry :
    (h : Held) (i j : ℕ) (c : Cache)
    → Counted h
    → i < ninode
    → 0 < h.refs i
    → iget ((h.cache i).dev) ((h.cache i).inum) (h.cache) ≡ some (j, c)
    → j ≡ i
held_entry h i j c k l p e =
    let dev = (h.cache i).dev in
    let inum = (h.cache i).inum in
    let g = get_returned dev inum j (h.cache) c _ (iget-GetEnds dev inum (h.cache)) e in
    let pos : 0 < (h.cache i).ref = subst (λ m. 0 < m) (sym (k.counts i)) p in
    elim (g.origin) [
      | inl o ↦
          let s = caches_fields dev inum (h.cache j) o in
          k.unique j i (g.index) l (s.0) pos (s.1) (s.2)
      | inr z ↦
          absurd (let a = z.1 i l in let b = fields_caches dev inum (h.cache i) pos refl refl in cc)
    ]

Step-Counted : (sb : Super) (h1 h2 : Held) → Step sb h1 h2 → Counted h1 → Counted h2
unfolding idup
Step-Counted sb h1 h2 (get h dev inum i c e) k =
    Got-Counted h1 dev inum i c k
      (get_returned dev inum i (h1.cache) c _ (iget-GetEnds dev inum (h1.cache)) e)
Step-Counted sb h1 h2 (dup h i p) k = record {
  counts =
      changed_count h1 i (h1.refs i + 1) (idup i (h1.cache))
        (kept_refs (h1.cache) i (h1.refs i + 1) _ refl refl (ap (λ (x : ℕ). x + 1) (k.counts i)))
        (k.counts);
  unique =
      kept-Unique (h1.cache) i (h1.refs i + 1) (record (h1.cache i) { ref = (h1.cache i).ref + 1 })
        refl refl (ap (λ (x : ℕ). x + 1) (k.counts i))
        (λ x. subst (λ m. 0 < m) (sym (k.counts i)) p) (k.unique);
}
Step-Counted sb h1 h2 (put h i c d p l e) k =
    put-Counted h1 i c d _ p l k (iput-PutOk sb (h1.cache) i (h1.blocks)) e
Step-Counted sb h1 h2 (locked h i ip d p s) k = record {
  counts = λ j.
      kept_refs (h1.cache) i ((h1.cache i).ref) ip (s.dev) (s.inum) (s.ref) j
      ∙ self_count (h1.cache) i j
      ∙ k.counts j;
  unique =
      kept-Unique (h1.cache) i ((h1.cache i).ref) ip (s.dev) (s.inum) (s.ref) (λ x. x) (k.unique);
}

Reach-Counted : (sb : Super) (h1 h2 : Held) → Reach sb h1 h2 → Counted h1 → Counted h2
Reach-Counted sb h1 h2 start k = k
Reach-Counted sb h1 h2 (next a b r s) k = Step-Counted sb a h2 s (Reach-Counted sb h1 a r k)

-- In every state that iget, idup, iput and the holders of references reach from an empty cache, in any
-- order of calls, where iput is called while less than 2 ^ 32 references to its inode are held: the
-- count of an entry is the number of references held, no inode is in two entries, and iget of an inode
-- that is held gives the entry that holds it.
pub one_entry :
    (sb : Super) (h1 h2 : Held)
    → ((i : ℕ) → (h1.cache i).ref ≡ 0)
    → ((i : ℕ) → h1.refs i ≡ 0)
    → Reach sb h1 h2
    → Counted h2
      × ((i j : ℕ) (c : Cache)
          → i < ninode
          → 0 < h2.refs i
          → iget ((h2.cache i).dev) ((h2.cache i).inum) (h2.cache) ≡ some (j, c)
          → j ≡ i)
one_entry sb h1 h2 z y r =
    let k = Reach-Counted sb h1 h2 r (record {
      counts = λ i. z i ∙ sym (y i);
      unique = λ i j a b p. absurd (let q = z i in omega arith);
    }) in
    (k, λ i j c l p e. held_entry h2 i j c k l p e)
