-- ===== src/Inode/Disk.antt =====
-- The inode on disk of fs.c: what iupdate writes, ilock reads.
use mathlib.Core.Path.{subst}
use compiling_to_assembly.Prelude.{
  if_false, ℕ, Bool, false, zero, suc, ◌+◌, ◌*◌, ◌^◌, ◌≤◌, ◌<◌, ◌≡◌, ◌≢◌, refl, ap, sym, ◌∙◌, ◌⊎◌,
  true, false, ◌&&◌, none, some, arith, ◌==◌, ltb, leb, if◌then◌else◌, update, range-cases, ==→≡,
  ==→≢, ≢→==, ≥→ltb, Bool-cases, inl, inr,
}
use compiling_to_assembly.StringOps.{Memory, store_word}
use compiling_to_assembly.Kalloc.{load_word}
use compiling_to_assembly.Kalloc.Words.{load_word-store_word, store_word-frame, load_word-same}
use compiling_to_assembly.Fs.{Super, Blocks, Attempt, returns, panics, log_write}
use compiling_to_assembly.Inode.{
  Inode, store_half, load_half, store_addrs, load_addrs, put_dinode, get_dinode, iblock, dinode_at,
  iupdate, ilock, checked,
}
use compiling_to_assembly.Inode.Write.{with_inode, with_inode_at}

load_half-store_half : (m : Memory) (a h : ℕ) → h < 2 ^ 16 → load_half (store_half m a h) a ≡ h
unfolding load_half store_half
load_half-store_half m a h l = ground arith

store_half-frame : (m : Memory) (a h x : ℕ) → (x < a) ⊎ (a + 2 ≤ x) → store_half m a h x ≡ m x
unfolding store_half
store_half-frame m a h x o = ground arith

load_half-same :
    (m m' : Memory) (a : ℕ) → m a ≡ m' a → m (a + 1) ≡ m' (a + 1) → load_half m a ≡ load_half m' a
unfolding load_half
load_half-same m m' a p q = rw (p, q) refl

store_addrs-frame :
    (f : ℕ → ℕ) (k i : ℕ) (m : Memory) (a x : ℕ) → x < a + 4 * i → store_addrs f k i m a x ≡ m x
unfolding store_addrs
store_addrs-frame f zero i m a x l = refl
store_addrs-frame f (suc k) i m a x l =
    store_addrs-frame f k (i + 1) (store_word m (a + 4 * i) (f i)) a x (omega arith)
    ∙ store_word-frame m (a + 4 * i) (f i) x (inl l)

load_word-store_addrs :
    (f : ℕ → ℕ) (k i : ℕ) (m : Memory) (a j : ℕ)
    → ((j : ℕ) → f j < 2 ^ 32)
    → i ≤ j
    → j < i + k
    → load_word (store_addrs f k i m a) (a + 4 * j) ≡ f j
unfolding store_addrs
load_word-store_addrs f zero i m a j b p q = absurd (omega arith)
load_word-store_addrs f (suc k) i m a j b p q = elim (Bool-cases (i == j)) [
  | inr n ↦
      load_word-store_addrs f k (i + 1) (store_word m (a + 4 * i) (f i)) a j b (ground arith)
        (omega arith)
  | inl e ↦
      let s = ==→≡ i j e in
      load_word-same _ (store_word m (a + 4 * i) (f i)) (a + 4 * j) (λ x l.
        store_addrs-frame f k (i + 1) (store_word m (a + 4 * i) (f i)) a (a + 4 * j + x)
          (omega arith))
      ∙ subst (λ y. load_word (store_word m (a + 4 * i) (f i)) (a + 4 * y) ≡ f y) s
          (load_word-store_word m (a + 4 * i) (f i) (b i))
]

load_addrs_lem :
    (m : Memory) (a k i : ℕ) (f : ℕ → ℕ) (j : ℕ)
    → load_addrs m a k i f j ≡ (if leb i j && ltb j (i + k) then load_word m (a + 4 * j) else f j)
unfolding load_addrs
load_addrs_lem m a zero i f j = elim (range-cases i (i + 0) j) [
  | inl (u, v, w) ↦ absurd (omega arith)
  | inr (u, w) ↦ rw w refl
]
load_addrs_lem m a (suc k) i f j =
    load_addrs_lem m a k (i + 1) (update f i (load_word m (a + 4 * i))) j
    ∙ elim (Bool-cases (i == j)) [
      | inl e ↦
          let q = ==→≡ i j e in
          elim (range-cases (i + 1) (i + 1 + k) j) [
            | inl (u, v, w) ↦ absurd (omega arith)
            | inr (u, w) ↦ elim (range-cases i (i + suc k) j) [
              | inl (x, y, z) ↦ rw (w, z, e) (ap (λ (y : ℕ). load_word m (a + 4 * y)) q)
              | inr (x, z) ↦ absurd (elim x [ inl c ↦ omega arith | inr c ↦ omega arith ])
            ]
          ]
      | inr e ↦
          let n : i ≢ j = ==→≢ i j e in
          elim (range-cases (i + 1) (i + 1 + k) j) [
            | inl (u, v, w) ↦ elim (range-cases i (i + suc k) j) [
              | inl (x, y, z) ↦ rw (w, z) refl
              | inr (x, z) ↦ absurd (elim x [ inl c ↦ omega arith | inr c ↦ omega arith ])
            ]
            | inr (u, w) ↦ elim (range-cases i (i + suc k) j) [
              | inl (x, y, z) ↦ absurd (elim u [ inl c ↦ n (omega arith) | inr c ↦ omega arith ])
              | inr (x, z) ↦ rw (w, z, e) refl
            ]
          ]
    ]

-- The fields fit their words.
pub record Fits (ip : Inode) : Type 0 where
  pub kind : ip.kind < 2 ^ 16
  pub major : ip.major < 2 ^ 16
  pub minor : ip.minor < 2 ^ 16
  pub nlink : ip.nlink < 2 ^ 16
  pub size : ip.size < 2 ^ 32
  pub addrs : (k : ℕ) → ip.addrs k < 2 ^ 32

-- Two inodes with the same fields on disk.
pub record SameOnDisk (ip ip' : Inode) : Type 0 where
  pub kind : ip'.kind ≡ ip.kind
  pub major : ip'.major ≡ ip.major
  pub minor : ip'.minor ≡ ip.minor
  pub nlink : ip'.nlink ≡ ip.nlink
  pub size : ip'.size ≡ ip.size
  pub addrs : (k : ℕ) → k < 13 → ip'.addrs k ≡ ip.addrs k

-- the four halves, and the size behind them
halves : Memory → ℕ → Inode → Memory
halves m a ip =
    store_half
      (store_half (store_half (store_half m a (ip.kind)) (a + 2) (ip.major)) (a + 4) (ip.minor))
      (a + 6) (ip.nlink)

low_fields :
    (m : Memory) (a : ℕ) (ip : Inode) (x : ℕ) → x < a + 8 → put_dinode m a ip x ≡ halves m a ip x
unfolding put_dinode halves
low_fields m a ip x l =
    store_addrs-frame (ip.addrs) 13 0 (store_word (halves m a ip) (a + 8) (ip.size)) (a + 12) x
      (omega arith)
    ∙ store_word-frame (halves m a ip) (a + 8) (ip.size) x (inl l)

half_field :
    (m : Memory) (a : ℕ) (ip : Inode) (x : ℕ)
    → x + 1 < a + 8
    → load_half (put_dinode m a ip) x ≡ load_half (halves m a ip) x
half_field m a ip x l =
    load_half-same (put_dinode m a ip) (halves m a ip) x (low_fields m a ip x (omega arith))
      (low_fields m a ip (x + 1) l)

load_half-beside :
    (m : Memory) (a h u : ℕ)
    → (u + 2 ≤ a) ⊎ (a + 2 ≤ u)
    → load_half (store_half m a h) u ≡ load_half m u
load_half-beside m a h u o =
    load_half-same (store_half m a h) m u
      (store_half-frame m a h u (elim o [ inl c ↦ inl (omega arith) | inr c ↦ inr (omega arith) ]))
      (store_half-frame m a h (u + 1)
        (elim o [ inl c ↦ inl (omega arith) | inr c ↦ inr (omega arith) ]))

halves_fields :
    (m : Memory) (a : ℕ) (ip : Inode)
    → Fits ip
    → (load_half (halves m a ip) a ≡ ip.kind)
      × (load_half (halves m a ip) (a + 2) ≡ ip.major)
      × (load_half (halves m a ip) (a + 4) ≡ ip.minor)
      × (load_half (halves m a ip) (a + 6) ≡ ip.nlink)
unfolding halves
halves_fields m a ip f =
    let m1 = store_half m a (ip.kind) in
    let m2 = store_half m1 (a + 2) (ip.major) in
    let m3 = store_half m2 (a + 4) (ip.minor) in
    (
      load_half-beside m3 (a + 6) (ip.nlink) a (inl (omega arith))
          ∙ load_half-beside m2 (a + 4) (ip.minor) a (inl (omega arith))
          ∙ load_half-beside m1 (a + 2) (ip.major) a (inl (omega arith))
          ∙ load_half-store_half m a (ip.kind) (f.kind),
      load_half-beside m3 (a + 6) (ip.nlink) (a + 2) (inl (omega arith))
          ∙ load_half-beside m2 (a + 4) (ip.minor) (a + 2) (inl (omega arith))
          ∙ load_half-store_half m1 (a + 2) (ip.major) (f.major),
      load_half-beside m3 (a + 6) (ip.nlink) (a + 4) (inl (omega arith))
          ∙ load_half-store_half m2 (a + 4) (ip.minor) (f.minor),
      load_half-store_half m3 (a + 6) (ip.nlink) (f.nlink),
    )

size_field :
    (m : Memory) (a : ℕ) (ip : Inode)
    → ip.size < 2 ^ 32
    → load_word (put_dinode m a ip) (a + 8) ≡ ip.size
unfolding put_dinode halves
size_field m a ip l =
    load_word-same (put_dinode m a ip) (store_word (halves m a ip) (a + 8) (ip.size)) (a + 8)
      (λ x u.
        store_addrs-frame (ip.addrs) 13 0 (store_word (halves m a ip) (a + 8) (ip.size)) (a + 12)
          (a + 8 + x) (omega arith))
    ∙ load_word-store_word (halves m a ip) (a + 8) (ip.size) l

addr_field :
    (m : Memory) (a : ℕ) (ip : Inode) (f : ℕ → ℕ) (k : ℕ)
    → ((k : ℕ) → ip.addrs k < 2 ^ 32)
    → k < 13
    → load_addrs (put_dinode m a ip) (a + 12) 13 0 f k ≡ ip.addrs k
unfolding put_dinode
addr_field m a ip f k b l = elim (range-cases 0 13 k) [
  | inr (u, w) ↦ absurd (elim u [ inl c ↦ omega arith | inr c ↦ omega arith ])
  | inl (u, v, w) ↦
      load_addrs_lem (put_dinode m a ip) (a + 12) 13 0 f k
      ∙ rw w (load_word-store_addrs (ip.addrs) 13 0 _ (a + 12) k b (omega arith) l)
]

put-get_dinode :
    (m : Memory) (a : ℕ) (ip ip0 : Inode)
    → Fits ip
    → SameOnDisk ip (get_dinode (put_dinode m a ip) a ip0)
unfolding get_dinode
put-get_dinode m a ip ip0 f =
    let h = halves_fields m a ip f in
    record {
      kind = half_field m a ip a (omega arith) ∙ h.0;
      major = half_field m a ip (a + 2) (omega arith) ∙ h.1;
      minor = half_field m a ip (a + 4) (omega arith) ∙ h.2;
      nlink = half_field m a ip (a + 6) (omega arith) ∙ h.3;
      size = size_field m a ip (f.size);
      addrs = λ k l. addr_field m a ip (ip0.addrs) k (f.addrs) l;
    }

checked-Same :
    (ip got : Inode)
    → ip.kind ≢ 0
    → SameOnDisk ip got
    → (ip' : Inode) × (checked got ≡ some ip') × (ip'.valid ≡ true) × SameOnDisk ip ip'
unfolding checked
checked-Same ip got k s =
    let z : (got.kind == 0) ≡ false = ≢→== _ _ (λ z. k (sym (s.kind) ∙ z)) in
    (
      record got { valid = true },
      if_false (got.kind == 0) none (some (record got { valid = true })) z,
      refl,
      record {
        kind = s.kind;
        major = s.major;
        minor = s.minor;
        nlink = s.nlink;
        size = s.size;
        addrs = s.addrs;
      },
    )

ilock_reads :
    (sb : Super) (ip : Inode) (d : Blocks)
    → 0 < ip.ref
    → ip.valid ≡ false
    → ilock sb ip d ≡ checked (get_dinode (d (iblock sb (ip.inum))) (dinode_at (ip.inum)) ip)
unfolding ilock
ilock_reads sb ip d r v =
    let z : ltb (ip.ref) 1 ≡ false = ≥→ltb _ _ (omega arith) in
    if_false (ltb (ip.ref) 1) none _ z ∙ if_false (ip.valid) (some ip) _ v

panic_test : Attempt (Unit {0}) → Bool
panic_test (returns u e) = false
panic_test (panics e) = true

panicked : (d d' : Blocks) → ◌≢◌ {A = Attempt (Unit {0})} (panics d) (returns tt d')
unfolding panic_test
panicked d d' e = (let b = ap panic_test e in cc)

one_block : Blocks → Attempt (Unit {0}) → Blocks
one_block d (returns u e) = e
one_block d (panics e) = d

panicked_at :
    (d d' : Blocks) (r : Attempt (Unit {0}))
    → r ≡ returns tt d'
    → r ≡ panics d
    → ◌≡◌ {A = Attempt (Unit {0})} (panics d) (returns tt d')
panicked_at d d' r u e = sym e ∙ u

written_back :
    (d d' : Blocks) {x : Blocks} (r : Attempt (Unit {0}))
    → r ≡ returns tt d'
    → r ≡ returns tt x
    → d' ≡ x
unfolding one_block
written_back d d' r u e = ap (one_block d) (sym u ∙ e)

-- Where `iupdate` does not panic, it changes the block of the inode.
iupdate-with_inode :
    (sb : Super) (ip : Inode) (d d' : Blocks)
    → iupdate sb ip d ≡ returns tt d'
    → d' ≡ with_inode sb ip d
unfolding iupdate with_inode one_block log_write
iupdate-with_inode sb ip d d' u = elim (Bool-cases (sb.log_panics (iblock sb (ip.inum)) d)) [
  | inl e ↦ absurd (panicked d d' (panicked_at d d' _ u (rw (log_write, e) refl)))
  | inr e ↦ written_back d d' _ u (rw (log_write, e) refl)
]

-- ilock of a cache entry that is in use but not read in, behind an iupdate of the inode with its number
-- that does not panic, whose fields fit their words and whose type is not 0, gives an entry that is read in, with the fields
-- that were written out.
pub ilock-iupdate :
    (sb : Super) (ip entry : Inode) (d d' : Blocks)
    → Fits ip
    → ip.kind ≢ 0
    → entry.inum ≡ ip.inum
    → 0 < entry.ref
    → entry.valid ≡ false
    → iupdate sb ip d ≡ returns tt d'
    → (ip' : Inode) × (ilock sb entry d' ≡ some ip') × (ip'.valid ≡ true) × SameOnDisk ip ip'
ilock-iupdate sb ip entry d d' f k e r v u =
    let b = iblock sb (entry.inum) in
    let a = dinode_at (entry.inum) in
    let c =
      checked-Same ip (get_dinode (put_dinode (d b) a ip) a entry) k
        (put-get_dinode (d b) a ip entry f) in
    (
      c.0,
      ilock_reads sb entry d' r v
          ∙ ap (λ (m : Memory). checked (get_dinode m a entry))
              (ap (λ (x : Blocks). x (iblock sb (entry.inum))) (iupdate-with_inode sb ip d d' u)
                ∙ with_inode_at sb ip d (entry.inum) (sym e))
          ∙ c.1,
      c.2,
      c.3,
    )
