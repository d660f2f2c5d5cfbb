-- ===== src/Directory/Lookup.antt =====
-- The search of `dirlookup` of fs.c finds the first entry of the name.
use mathlib.Core.Path.{subst}
use compiling_to_assembly.Prelude.{
  ℕ, zero, suc, ◌+◌, ◌-◌, ◌*◌, ◌/◌, ◌%◌, ◌≤◌, ◌<◌, ◌≡◌, ◌≢◌, refl, ap, sym, ◌∙◌, fun_ext, inl, inr,
  min, Bool, true, false, ◌&&◌, not, Option, none, some, arith, ◌==◌, ltb, if◌then◌else◌,
  Bool-cases, ltb→lt, ltb→ge, ==→≡, ==→≢,
}
use compiling_to_assembly.StringOps.{Memory}
use compiling_to_assembly.Fs.{Super, Blocks, Attempt, returns, panics, Run, and_then, bsize}
use compiling_to_assembly.Fs.Blocks.{Halted}
use compiling_to_assembly.Inode.{Inode, t_dir, maxfile, readi, load_half}
use compiling_to_assembly.Inode.Slots.{IsMapped, content, Extends, Extends-refl, Extends-trans}
use compiling_to_assembly.Inode.Read.{Reads, readi_file-Reads, readi-readi_file}
use compiling_to_assembly.Directory.{
  dirent_size, namecmp, is_zero, is_whole, lookup_loop, find_entry,
}

-- the memory with the entry at `off` of a directory in front
unfoldable pub with_entry : Inode → Blocks → ℕ → Memory → Memory
with_entry dp d off m a = if ltb a dirent_size then content dp d (off + a) else m a

-- The entry at `off` is in use and has the name.
unfoldable pub is_named : ℕ → Inode → Blocks → Memory → ℕ → Bool
is_named name dp d m off =
    let e = with_entry dp d off m in not (load_half e 0 == 0) && is_zero (namecmp e name 2)

-- A directory of whole entries.
pub record IsDirectory (sb : Super) (dp : Inode) (d : Blocks) : Type 0 where
  pub kind : dp.kind ≡ t_dir
  pub whole : dp.size % dirent_size ≡ 0
  pub small : dp.size ≤ maxfile * bsize
  pub mapped : IsMapped sb dp d

-- Reading one entry.
data EntryRead (sb : Super) (dp : Inode) (d : Blocks) (off : ℕ) (m : Memory)
    : Attempt (Option ℕ × Memory × Inode) → Type 0 where
  entry :
      (dp' : Inode) (d' : Blocks)
      → Extends sb dp d dp' d'
      → EntryRead sb dp d off m (returns (some dirent_size, with_entry dp d off m, dp') d')
  no_blocks : (d' : Blocks) → Halted sb d' → EntryRead sb dp d off m (panics d')

whole_entry :
    (off size k : ℕ)
    → off % dirent_size ≡ 0
    → size % dirent_size ≡ 0
    → off < size
    → k ≡ min dirent_size (size - off)
    → k ≡ dirent_size
whole_entry off size k a b l e = omega arith

Reads-EntryRead :
    (sb : Super) (dp : Inode) (d : Blocks) (off : ℕ) (m : Memory)
    (r : Attempt (Option ℕ × Memory × Inode))
    → IsDirectory sb dp d
    → off % dirent_size ≡ 0
    → off < dp.size
    → Reads sb dp d off dirent_size m r
    → EntryRead sb dp d off m r
unfolding with_entry
Reads-EntryRead sb dp d off m _ i a l (Reads.refuses e) = absurd (omega arith)
Reads-EntryRead sb dp d off m _ i a l (Reads.reads m' dp' d' k h q e f) =
    let kk : k ≡ dirent_size = whole_entry off (dp.size) k a (i.whole) l q in
    let mm : m' ≡ with_entry dp d off m =
      fun_ext (λ x. f x ∙ ap (λ (n : ℕ). if ltb x n then content dp d (off + x) else m x) kk) in
    subst (λ (n : ℕ). EntryRead sb dp d off m (returns (some n, m', dp') d')) (sym kk)
      (subst (λ (w : Memory). EntryRead sb dp d off m (returns (some dirent_size, w, dp') d'))
        (sym mm) (entry dp' d' e))
Reads-EntryRead sb dp d off m _ i a l (Reads.fills d' h f) = no_blocks d' f

-- The offsets of entries from `from` up to `to` have other names.
unfoldable pub NotNamed : ℕ → Inode → Blocks → Memory → ℕ → ℕ → Type 0
NotNamed name dp d m from to =
    (o : ℕ) → from ≤ o → o < to → o % dirent_size ≡ 0 → is_named name dp d m o ≡ false

-- How a search of a directory from an offset on ends: at the first entry with the name, which it leaves
-- in front of its memory; at the end, without one; or in a panic on a full disk.
pub data Looked (sb : Super) (dp : Inode) (d : Blocks) (m : Memory) (name from : ℕ)
    : Attempt (Option (ℕ × ℕ) × Memory × Inode) → Type 0 where
  found :
      (o : ℕ) (m' : Memory) (dp' : Inode) (d' : Blocks)
      → from ≤ o
      → o < dp.size
      → o % dirent_size ≡ 0
      → is_named name dp d m o ≡ true
      → NotNamed name dp d m from o
      → m' ≡ with_entry dp d o m
      → Extends sb dp d dp' d'
      → Looked sb dp d m name from (returns (some (load_half m' 0, o), m', dp') d')
  absent :
      (m' : Memory) (dp' : Inode) (d' : Blocks)
      → NotNamed name dp d m from (dp.size)
      → ((a : ℕ) → dirent_size ≤ a → m' a ≡ m a)
      → Extends sb dp d dp' d'
      → Looked sb dp d m name from (returns (none, m', dp') d')
  fills : (d' : Blocks) → Halted sb d' → Looked sb dp d m name from (panics d')

-- Reading one entry does not change what the others are.
with_entry_again :
    (sb : Super) (dp dp' : Inode) (d d' : Blocks) (off o : ℕ) (m : Memory)
    → Extends sb dp d dp' d'
    → o + dirent_size ≤ maxfile * bsize
    → with_entry dp' d' o (with_entry dp d off m) ≡ with_entry dp d o m
unfolding with_entry
with_entry_again sb dp dp' d d' off o m e l = fun_ext (λ x. elim (Bool-cases (ltb x dirent_size)) [
  | inl t ↦ (let u = ltb→lt x dirent_size t in rw t (e.bytes (o + x) (omega arith)))
  | inr t ↦ rw t refl
])

named_again :
    (sb : Super) (dp dp' : Inode) (d d' : Blocks) (off o name : ℕ) (m : Memory)
    → Extends sb dp d dp' d'
    → o + dirent_size ≤ maxfile * bsize
    → is_named name dp' d' (with_entry dp d off m) o ≡ is_named name dp d m o
unfolding is_named
named_again sb dp dp' d d' off o name m e l =
    ap (λ (w : Memory). not (load_half w 0 == 0) && is_zero (namecmp w name 2))
      (with_entry_again sb dp dp' d d' off o m e l)

entry_end :
    (o size : ℕ) → o % dirent_size ≡ 0 → size % dirent_size ≡ 0 → o < size → o + dirent_size ≤ size
entry_end o size a b l = omega arith

next_entry :
    (o off : ℕ)
    → o % dirent_size ≡ 0
    → off % dirent_size ≡ 0
    → off ≤ o
    → o ≢ off
    → off + dirent_size ≤ o
next_entry o off a b l n = omega arith

Extends-size :
    (sb : Super) (dp dp' : Inode) (d d' : Blocks) → Extends sb dp d dp' d' → dp'.size ≡ dp.size
Extends-size sb dp dp' d d' e = ap (λ (x : Inode). x.size) (e.fields)

Extends-IsDirectory :
    (sb : Super) (dp dp' : Inode) (d d' : Blocks)
    → Extends sb dp d dp' d'
    → IsDirectory sb dp d
    → IsDirectory sb dp' d'
Extends-IsDirectory sb dp dp' d d' e i =
    let s = Extends-size sb dp dp' d d' e in
    record {
      kind = ap (λ (x : Inode). x.kind) (e.fields) ∙ i.kind;
      whole = ap (λ (n : ℕ). n % dirent_size) s ∙ i.whole;
      small = subst (λ (n : ℕ). n ≤ maxfile * bsize) (sym s) (i.small);
      mapped = e.mapped;
    }

-- An entry with another name, and the search behind it.
module _ (sb : Super) (dp dp' : Inode) (d d' : Blocks) (off name : ℕ) (m : Memory)
    (i : IsDirectory sb dp d) (al : off % dirent_size ≡ 0) (e : Extends sb dp d dp' d')
    (not_here : is_named name dp d m off ≡ false) where
  NotNamed-from :
      (to : ℕ)
      → to ≤ dp.size
      → NotNamed name dp' d' (with_entry dp d off m) (off + dirent_size) to
      → NotNamed name dp d m off to
  unfolding NotNamed
  NotNamed-from to l h o a b c = elim (Bool-cases (o == off)) [
    | inl t ↦ ap (is_named name dp d m) (==→≡ o off t) ∙ not_here
    | inr t ↦
        sym (
          named_again sb dp dp' d d' off o name m e (
            let x = entry_end o (dp.size) c (i.whole) (omega arith) in
            let y = i.small in omega arith))
        ∙ h o (next_entry o off c al a (==→≢ o off t)) b c
  ]

  Looked-from :
      (r : Attempt (Option (ℕ × ℕ) × Memory × Inode))
      → Looked sb dp' d' (with_entry dp d off m) name (off + dirent_size) r
      → Looked sb dp d m name off r
  unfolding with_entry
  Looked-from _ (found o m' dp2 d2 a b c n h q x) =
      let s = Extends-size sb dp dp' d d' e in
      let bb : o < dp.size = omega (arith, b, s) in
      let room : o + dirent_size ≤ maxfile * bsize =
        (let u = entry_end o (dp.size) c (i.whole) bb in let y = i.small in omega arith) in
      found o m' dp2 d2 (omega arith) bb c
        (sym (named_again sb dp dp' d d' off o name m e room) ∙ n) (NotNamed-from o (omega arith) h)
        (q ∙ with_entry_again sb dp dp' d d' off o m e room)
        (Extends-trans sb dp d dp' d' dp2 d2 e x)
  Looked-from _ (absent m' dp2 d2 h f x) =
      absent m' dp2 d2
        (NotNamed-from (dp.size) (omega arith) (
          subst (NotNamed name dp' d' (with_entry dp d off m) (off + dirent_size))
            (Extends-size sb dp dp' d d' e) h))
        (λ a l. f a l ∙ (let t : ltb a dirent_size ≡ false = ground arith in rw t refl))
        (Extends-trans sb dp d dp' d' dp2 d2 e x)
  Looked-from _ (fills d2 f) = fills d2 f

nothing_before :
    (name : ℕ) (dp : Inode) (d : Blocks) (m : Memory) (off : ℕ) → NotNamed name dp d m off off
unfolding NotNamed
nothing_before name dp d m off o a b c = absurd (omega arith)

-- A search at the end of the directory.
ended :
    (sb : Super) (name : ℕ) (dp : Inode) (off : ℕ) (m : Memory) (d : Blocks)
    → IsDirectory sb dp d
    → dp.size ≤ off
    → Looked sb dp d m name off (returns (none, m, dp) d)
unfolding NotNamed
ended sb name dp off m d i l =
    absent m dp d (λ o a b c. absurd (omega arith)) (λ a h. refl) (Extends-refl sb dp d (i.mapped))

readi-EntryRead :
    (devread : ℕ → Option (Inode → Memory → ℕ → Run (Option ℕ × Memory × Inode))) (sb : Super)
    (dp : Inode) (off : ℕ) (m : Memory) (d : Blocks)
    → IsDirectory sb dp d
    → off % dirent_size ≡ 0
    → off < dp.size
    → EntryRead sb dp d off m (readi devread sb dp off dirent_size m d)
readi-EntryRead devread sb dp off m d i al l =
    subst (EntryRead sb dp d off m)
      (sym (readi-readi_file devread sb dp off dirent_size m d (let x = i.kind in ground arith)))
      (Reads-EntryRead sb dp d off m _ i al l (
        readi_file-Reads sb dp d off dirent_size m (i.mapped) (i.small)
          (let x = i.small in omega arith)))

-- What is left to search behind one entry, by what it is.
module _ (devread : ℕ → Option (Inode → Memory → ℕ → Run (Option ℕ × Memory × Inode))) (sb : Super)
    (name : ℕ) where
  LoopLooks : ℕ → Type 0
  LoopLooks k =
      (dp : Inode) (off : ℕ) (m : Memory) (d : Blocks)
      → IsDirectory sb dp d
      → off % dirent_size ≡ 0
      → dp.size ≤ off + dirent_size * k
      → Looked sb dp d m name off (lookup_loop devread sb name k dp off m d)

  behind_entry :
      (k : ℕ) (dp : Inode) (off : ℕ) (m : Memory) (d : Blocks)
      (r : Attempt (Option ℕ × Memory × Inode))
      → LoopLooks k
      → IsDirectory sb dp d
      → off % dirent_size ≡ 0
      → off < dp.size
      → dp.size ≤ off + dirent_size * suc k
      → EntryRead sb dp d off m r
      → Looked sb dp d m name off (
          and_then r (λ r d'. elim (is_whole (r.0)) [
            | false ↦ panics d'
            | true ↦ elim (load_half (r.1) 0 == 0) [
              | true ↦ lookup_loop devread sb name k (r.2) (off + dirent_size) (r.1) d'
              | false ↦ elim (is_zero (namecmp (r.1) name 2)) [
                | true ↦ returns (some (load_half (r.1) 0, off), r.1, r.2) d'
                | false ↦ lookup_loop devread sb name k (r.2) (off + dirent_size) (r.1) d'
              ]
            ]
          ]))
  unfolding is_named LoopLooks
  behind_entry k dp off m d _ ih i al l u (no_blocks d' f) = fills d' f
  behind_entry k dp off m d _ ih i al l u (entry dp' d' e) =
      let w = with_entry dp d off m in
      let rest : Looked sb dp' d' w name (off + dirent_size)
          (lookup_loop devread sb name k dp' (off + dirent_size) w d') =
        ih dp' (off + dirent_size) w d' (Extends-IsDirectory sb dp dp' d d' e i) (omega arith)
          (let s = Extends-size sb dp dp' d d' e in omega arith) in
      elim (Bool-cases (load_half w 0 == 0)) [
        | inl z ↦
            rw (and_then, is_whole, z)
              (Looked-from sb dp dp' d d' off name m i al e (rw z refl) _ rest)
        | inr z ↦ elim (Bool-cases (is_zero (namecmp w name 2))) [
          | inr c ↦
              rw (and_then, is_whole, z, c)
                (Looked-from sb dp dp' d d' off name m i al e (rw (z, c) refl) _ rest)
          | inl c ↦
              rw (and_then, is_whole, z, c)
                (found off w dp' d' (omega arith) l al (rw (z, c) refl)
                  (nothing_before name dp d m off) refl e)
        ]
      ]

  lookup_loop-Looked : (k : ℕ) → LoopLooks k
  unfolding LoopLooks lookup_loop
  lookup_loop-Looked zero dp off m d i al u = ended sb name dp off m d i (omega arith)
  lookup_loop-Looked (suc k) dp off m d i al u = elim (Bool-cases (ltb off (dp.size))) [
    | inr t ↦ rw (lookup_loop, t) (ended sb name dp off m d i (ltb→ge _ _ t))
    | inl t ↦
        rw (lookup_loop, t)
          (behind_entry k dp off m d _ (lookup_loop-Looked k) i al (ltb→lt _ _ t) u
            (readi-EntryRead devread sb dp off m d i al (ltb→lt _ _ t)))
  ]

  -- The search of `dirlookup` as a whole.
  pub find_entry-Looked :
      (dp : Inode) (m : Memory) (d : Blocks)
      → IsDirectory sb dp d
      → Looked sb dp d m name 0 (find_entry devread sb dp name m d)
  unfolding find_entry LoopLooks
  find_entry-Looked dp m d i =
      let k : (dp.kind == t_dir) ≡ true = (let x = i.kind in ground arith) in
      rw (find_entry, k)
        (lookup_loop-Looked (dp.size / dirent_size + 1) dp 0 m d i (omega arith) (omega arith))
