-- ===== src/Directory/Find.antt =====
-- `dirlookup` of fs.c finds the first entry of the name, and the inode of it in the cache.
use compiling_to_assembly.Prelude.{
  ℕ, ◌+◌, ◌*◌, ◌%◌, ◌<◌, ◌≡◌, ◌≢◌, refl, ap, sym, ◌∙◌, inl, inr, ℤ, pos, negsuc, Bool, true, false,
  ◌&&◌, not, Option, none, some, arith, ◌==◌, Option-cases, ==→≢, ≢→==,
}
use compiling_to_assembly.StringOps.{Memory}
use compiling_to_assembly.StringOps.Compare.{SameString, strncmp_iff}
use compiling_to_assembly.Fs.{Super, Blocks, Attempt, returns, panics, Run, and_then}
use compiling_to_assembly.Fs.Blocks.{Halted}
use compiling_to_assembly.Inode.{Inode, load_half}
use compiling_to_assembly.Inode.Slots.{content, Extends}
use compiling_to_assembly.Icache.{Cache, iget}
use compiling_to_assembly.Directory.{namecmp, is_zero, dirlookup}
use compiling_to_assembly.Directory.Lookup.{
  with_entry, is_named, IsDirectory, NotNamed, Looked, find_entry-Looked,
}

-- The inode number in the entry at `off`: its first two bytes.
abbrev pub entry_inum : Inode → Blocks → ℕ → ℕ
entry_inum dp d off = content dp d off + content dp d (off + 1) * 256

-- The entry at `off` is in use, and the 14 bytes behind its number agree with the name, or do so up to
-- the NUL of the name.
pub record IsNamed (name : ℕ) (dp : Inode) (d : Blocks) (m : Memory) (off : ℕ) : Type 0 where
  pub used : entry_inum dp d off ≢ 0
  pub same : SameString (with_entry dp d off m) name 2 14

number :
    (dp : Inode) (d : Blocks) (off : ℕ) (m : Memory)
    → load_half (with_entry dp d off m) 0 ≡ entry_inum dp d off
unfolding load_half with_entry
number dp d off m = let e : off + 0 ≡ off = omega arith in rw e refl

zero_test : (z : ℤ) → is_zero z ≡ true → z ≡ pos 0
zero_test (pos n) h = ap pos (let e : n ≡ 0 = ground arith in e)
zero_test (negsuc n) h = absurd (let e = h in cc)

both : (a b : Bool) → (a && b) ≡ true → (a ≡ true) × (b ≡ true)
both true b h = (refl, h)
both false b h = (h, absurd (let e = h in cc))

negated_true : (a : Bool) → not a ≡ true → a ≡ false
negated_true true h = sym h
negated_true false h = refl

is_named-IsNamed :
    (name : ℕ) (dp : Inode) (d : Blocks) (m : Memory) (off : ℕ)
    → is_named name dp d m off ≡ true
    → IsNamed name dp d m off
unfolding is_named namecmp
is_named-IsNamed name dp d m off h =
    let b = both _ _ h in
    record {
      used = λ e. ==→≢ _ _ (negated_true _ (b.0)) (number dp d off m ∙ e);
      same = (strncmp_iff (with_entry dp d off m) name 2 14).0 (zero_test _ (b.1));
    }

IsNamed-is_named :
    (name : ℕ) (dp : Inode) (d : Blocks) (m : Memory) (off : ℕ)
    → IsNamed name dp d m off
    → is_named name dp d m off ≡ true
unfolding is_named namecmp
IsNamed-is_named name dp d m off n =
    let u : (load_half (with_entry dp d off m) 0 == 0) ≡ false =
      ≢→== _ _ (λ e. n.used (sym (number dp d off m) ∙ e)) in
    let s = (strncmp_iff (with_entry dp d off m) name 2 14).1 (n.same) in rw (u, s) refl

-- The entries at offsets below `to` have other names, or are not in use.
abbrev pub NoneNamed : ℕ → Inode → Blocks → Memory → ℕ → Type 0
NoneNamed name dp d m to = (o : ℕ) → o < to → o % 16 ≡ 0 → IsNamed name dp d m o → ⊥

NotNamed-NoneNamed :
    (name : ℕ) (dp : Inode) (d : Blocks) (m : Memory) (to : ℕ)
    → NotNamed name dp d m 0 to
    → NoneNamed name dp d m to
unfolding NotNamed
NotNamed-NoneNamed name dp d m to h o l a n =
    let t = IsNamed-is_named name dp d m o n in let f = h o (omega arith) l a in cc

-- How `dirlookup` ends.
pub data Finds (sb : Super) (dp : Inode) (d : Blocks) (m : Memory) (name : ℕ) (c : Cache)
    : Attempt (Option (ℕ × ℕ) × Memory × Inode × Cache) → Type 0 where
  finds :
      (o i : ℕ) (m' : Memory) (dp' : Inode) (d' : Blocks) (c' : Cache)
      → o < dp.size
      → o % 16 ≡ 0
      → IsNamed name dp d m o
      → NoneNamed name dp d m o
      → iget (dp.dev) (entry_inum dp d o) c ≡ some (i, c')
      → Extends sb dp d dp' d'
      → Finds sb dp d m name c (returns (some (i, o), m', dp', c') d')
  misses :
      (m' : Memory) (dp' : Inode) (d' : Blocks)
      → NoneNamed name dp d m (dp.size)
      → Extends sb dp d dp' d'
      → Finds sb dp d m name c (returns (none, m', dp', c) d')
  no_inodes :
      (o : ℕ) (d' : Blocks)
      → o < dp.size
      → IsNamed name dp d m o
      → iget (dp.dev) (entry_inum dp d o) c ≡ none
      → Finds sb dp d m name c (panics d')
  fills : (d' : Blocks) → Halted sb d' → Finds sb dp d m name c (panics d')

then_iget :
    (sb : Super) (dp : Inode) (d : Blocks) (m : Memory) (name : ℕ) (c : Cache)
    (r : Attempt (Option (ℕ × ℕ) × Memory × Inode))
    → Looked sb dp d m name 0 r
    → Finds sb dp d m name c (
        and_then r (λ r d'. elim (r.0) [
          | none ↦ returns (none, r.1, r.2, c) d'
          | some e ↦ elim (iget (r.2.dev) (e.0) c) [
            | none ↦ panics d'
            | some g ↦ returns (some (g.0, e.1), r.1, r.2, g.1) d'
          ]
        ]))
then_iget sb dp d m name c _ (Looked.found o m' dp' d' a b e n h q x) =
    let same : load_half m' 0 ≡ entry_inum dp d o =
      ap (λ (w : Memory). load_half w 0) q ∙ number dp d o m in
    let dev : dp'.dev ≡ dp.dev = ap (λ (i : Inode). i.dev) (x.fields) in
    let named = is_named-IsNamed name dp d m o n in
    let g : iget (dp'.dev) (load_half m' 0) c ≡ iget (dp.dev) (entry_inum dp d o) c =
      ap (λ (k : ℕ). iget k (load_half m' 0) c) dev ∙ ap (λ (k : ℕ). iget (dp.dev) k c) same in
    elim (Option-cases (iget (dp.dev) (entry_inum dp d o) c)) [
      | inl z ↦ rw (and_then, g ∙ z) (no_inodes o d' b named z)
      | inr (y, z) ↦
          rw (and_then, g ∙ z)
            (finds o (y.0) m' dp' d' (y.1) b e named (NotNamed-NoneNamed name dp d m o h) z x)
    ]
then_iget sb dp d m name c _ (Looked.absent m' dp' d' h f x) =
    misses m' dp' d' (NotNamed-NoneNamed name dp d m (dp.size) h) x
then_iget sb dp d m name c _ (Looked.fills d' f) = fills d' f

-- `dirlookup` of a directory with whole entries, sound blocks and a size of at most MAXFILE blocks:
-- it finds the first entry in use whose name is that at the given address, up to its NUL or 14
-- bytes, and gives its offset and what `iget` gives for its number; where there is none it gives
-- none; no byte of the directory changes; it panics only on a full disk, where a `log_write` panics,
-- or where that `iget` does; `bread` is taken to find a buffer.
pub dirlookup-Finds :
    (devread : ℕ → Option (Inode → Memory → ℕ → Run (Option ℕ × Memory × Inode))) (sb : Super)
    (name : ℕ) (dp : Inode) (m : Memory) (c : Cache) (d : Blocks)
    → IsDirectory sb dp d
    → Finds sb dp d m name c (dirlookup devread sb dp name m c d)
unfolding dirlookup
dirlookup-Finds devread sb name dp m c d i =
    then_iget sb dp d m name c _ (find_entry-Looked devread sb name dp m d i)
