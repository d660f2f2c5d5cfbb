-- ===== src/Inode/RoundTrip.antt =====
-- `writei`, then `readi`, of fs.c.
use mathlib.Core.Path.{subst}
use compiling_to_assembly.Prelude.{
  ℕ, ◌+◌, ◌-◌, ◌*◌, ◌^◌, ◌≤◌, ◌<◌, ◌≡◌, ◌≢◌, refl, ap, sym, ◌∙◌, Bool, true, false, ◌&&◌, Option,
  some, arith, ltb, leb, if◌then◌else◌, ltb→lt, lt→ltb, ltb→ge, ≥→ltb, range-cases, Bool-cases, inl,
  inr,
}
use compiling_to_assembly.StringOps.{Memory}
use compiling_to_assembly.Fs.{Super, Blocks, Attempt, returns, panics, bsize}
use compiling_to_assembly.Fs.Blocks.{Halted}
use compiling_to_assembly.Inode.{Inode, maxfile, readi_file, writei_file, iblock}
use compiling_to_assembly.Inode.Slots.{IsMapped, content}
use compiling_to_assembly.Inode.Read.{Reads, refuses, reads, fills, readi_file-Reads}
use compiling_to_assembly.Inode.Write.{WriteEnds, Stores, writei_file-WriteEnds}
use compiling_to_assembly.Inode.Write

-- What a read of the bytes just written may give.
pub data ReadsBack (sb : Super) (n : ℕ) (src dst : Memory)
    : Attempt (Option ℕ × Memory × Inode) → Type 0 where
  back :
      (dst' : Memory) (ip' : Inode) (d' : Blocks)
      → ((a : ℕ) → dst' a ≡ (if ltb a n then src a else dst a))
      → ReadsBack sb n src dst (returns (some n, dst', ip') d')
  on_full : (d' : Blocks) → Halted sb d' → ReadsBack sb n src dst (panics d')

grown_size :
    (size size' off n : ℕ)
    → size' ≡ (if ltb size (off + n) then off + n else size)
    → off + n ≤ size'
grown_size size size' off n h = ground arith

stored_byte :
    (off n a : ℕ) (src f : ℕ → ℕ)
    → a < n
    → (if leb off (off + a) && ltb (off + a) (off + n) then src (off + a - off) else f (off + a))
      ≡ src a
stored_byte off n a src f h = elim (range-cases off (off + n) (off + a)) [
  | inl (u, v, w) ↦ (let e : off + a - off ≡ a = omega arith in rw (w, e) refl)
  | inr (u, w) ↦ absurd (elim u [ inl c ↦ omega arith | inr c ↦ omega arith ])
]

value : {A : Type 0} → A → Attempt A → A
value a (returns b d) = b
value a (panics d) = a

left : {A : Type 0} → Blocks → Attempt A → Blocks
left d (returns b e) = e
left d (panics e) = d

is_panic : {A : Type 0} → Attempt A → Bool
is_panic (returns a d) = false
is_panic (panics d) = true

pub panics_ne : {A : Type 0} (a : A) (d d' : Blocks) → ◌≢◌ {A = Attempt A} (panics d) (returns a d')
unfolding is_panic
panics_ne a d d' e = (let b = ap is_panic e in cc)

size_bound :
    (size size' off n : ℕ)
    → size' ≡ (if ltb size (off + n) then off + n else size)
    → size ≤ maxfile * bsize
    → off + n ≤ maxfile * bsize
    → size' ≤ maxfile * bsize
size_bound size size' off n h z b = ground arith

read_back :
    (sb : Super) (ip : Inode) (d : Blocks) (off n : ℕ) (src dst : Memory) (ip' : Inode)
    (d' : Blocks) (r : Attempt (Option ℕ × Memory × Inode))
    → off ≤ ip.size
    → off + n ≤ maxfile * bsize
    → Stores sb ip d off n src ip' d'
    → Reads sb ip' d' off n dst r
    → ReadsBack sb n src dst r
read_back sb ip d off n src dst ip' d' r l b s (refuses h) =
    absurd (let g = grown_size (ip.size) (ip'.size) off n (s.size) in omega arith)
read_back sb ip d off n src dst ip' d' r l b s (fills e h f) = on_full e f
read_back sb ip d off n src dst ip' d' r l b s (reads dst' ip2 d2 m h e x y) =
    let g = grown_size (ip.size) (ip'.size) off n (s.size) in
    let whole : m ≡ n = omega arith in
    subst (λ k. ReadsBack sb n src dst (returns (some k, dst', ip2) d2)) (sym whole)
      (back dst' ip2 d2 (λ a. elim (Bool-cases (ltb a n)) [
        | inl u ↦
            let v : ltb a m ≡ true = lt→ltb a m (let w = ltb→lt a n u in omega arith) in
            let w = ltb→lt a n u in
            y a
            ∙ rw (u, v) (s.bytes (off + a) (omega arith) ∙ stored_byte off n a src (content ip d) w)
        | inr u ↦
            let v : ltb a m ≡ false = ≥→ltb a m (let w = ltb→ge a n u in omega arith) in
            y a ∙ rw (u, v) refl
      ]))

pub returned :
    {A : Type 0} (a a' : A) (d d' : Blocks)
    → ◌≡◌ {A = Attempt A} (returns a d) (returns a' d')
    → (a ≡ a') × (d ≡ d')
unfolding value left
returned a a' d d' e = (ap (value a) e, ap (left d) e)

written_back :
    (sb : Super) (ip : Inode) (d : Blocks) (off n : ℕ) (src dst : Memory) (ip' : Inode)
    (d' : Blocks) (r : Attempt (Option ℕ × Inode))
    → r ≡ returns (some n, ip') d'
    → ip.size ≤ maxfile * bsize
    → off + n < 2 ^ 32
    → WriteEnds sb ip d off n src r
    → ReadsBack sb n src dst (readi_file sb ip' off n dst d')
written_back sb ip d off n src dst ip' d' r h z w (Write.refuses o) =
    absurd (let e = ap (λ (p : Option ℕ × Inode). p.0) ((returned _ _ _ _ h).0) in ground arith)
written_back sb ip d off n src dst ip' d' r h z w (Write.fills d2 f) = absurd (panics_ne _ _ _ h)
written_back sb ip d off n src dst ip' d' r h z w (Write.stores ip2 d2 l b s) =
    let e = returned _ _ _ _ h in
    let same : ip2 ≡ ip' = ap (λ (p : Option ℕ × Inode). p.1) (e.0) in
    let at : Stores sb ip d off n src ip' d' =
      subst (λ i. Stores sb ip d off n src i d') same
        (subst (λ m. Stores sb ip d off n src ip2 m) (e.1) s) in
    read_back sb ip d off n src dst ip' d' _ l b at (
      readi_file-Reads sb ip' d' off n dst (at.mapped)
        (size_bound (ip.size) (ip'.size) off n (at.size) z b) w)

-- Where a write of `n` bytes is not refused and does not panic, a read of `n` bytes from the same
-- offset gives the bytes written, into the first `n` places of the destination only; the read can
-- only panic on a full disk, or where a `log_write` panics; `bread` is taken to find a buffer.
pub readi-writei :
    (sb : Super) (ip : Inode) (d : Blocks) (off n : ℕ) (src dst : Memory) (ip' : Inode)
    (d' : Blocks)
    → IsMapped sb ip d
    → ip.size ≤ maxfile * bsize
    → iblock sb (ip.inum) < sb.bmapstart
    → off + n < 2 ^ 32
    → writei_file sb ip off n src d ≡ returns (some n, ip') d'
    → ReadsBack sb n src dst (readi_file sb ip' off n dst d')
readi-writei sb ip d off n src dst ip' d' i z q w h =
    written_back sb ip d off n src dst ip' d' _ h z w
      (writei_file-WriteEnds sb ip d off n src i q w)
