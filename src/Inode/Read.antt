-- ===== src/Inode/Read.antt =====
-- `readi` of fs.c: it copies the bytes of the file.
use compiling_to_assembly.Prelude.{
  ℕ, zero, suc, ◌+◌, ◌-◌, ◌*◌, ◌/◌, ◌%◌, ◌^◌, ◌≤◌, ◌<◌, ◌≡◌, ◌≢◌, refl, ap, sym, ◌∙◌, min, true,
  false, ◌&&◌, Option, none, some, arith, ◌==◌, ltb, leb, if◌then◌else◌, ltb→lt, ltb→ge,
  range-cases, Bool-cases, inl, inr,
}
use compiling_to_assembly.StringOps.{Memory}
use compiling_to_assembly.Fs.{Super, Blocks, Attempt, returns, panics, Run, and_then, bsize}
use compiling_to_assembly.Fs.Blocks.{Halted}
use compiling_to_assembly.Inode.{Inode, maxfile, bmap, splice, readi_loop, readi_file, readi, t_dev}
use compiling_to_assembly.Inode.Slots.{
  slot, IsMapped, content, content_at, Extends, Extends-refl, Extends-trans,
}
use compiling_to_assembly.Inode.Map.{Filled, filled, no_room}
use compiling_to_assembly.Inode.Bmap.{bmap-Filled}

-- the bytes of one round
unfoldable pub chunk : ℕ → ℕ → ℕ
chunk off left = min left (bsize - off % bsize)

pub chunk_bounds :
    (off left : ℕ)
    → 0 < left
    → (0 < chunk off left) × (chunk off left ≤ left) × (off % bsize + chunk off left ≤ bsize)
unfolding chunk
chunk_bounds off left h = (omega arith, omega arith, omega arith)

-- The offsets of a round lie in one block.
pub chunk_place :
    (off i m : ℕ)
    → i < m
    → off % bsize + m ≤ bsize
    → ((off + i) / bsize ≡ off / bsize) × ((off + i) % bsize ≡ off % bsize + i)
chunk_place off i m h l = omega arith

pub data ReadOk (sb : Super) (ip : Inode) (d : Blocks) (off tot n : ℕ) (dst : Memory)
    : Attempt (Memory × Inode) → Type 0 where
  copied :
      (dst' : Memory) (ip' : Inode) (d' : Blocks)
      → Extends sb ip d ip' d'
      → ((a : ℕ)
          → dst' a ≡ (if leb tot a && ltb a n then content ip d (off + (a - tot)) else dst a))
      → ReadOk sb ip d off tot n dst (returns (dst', ip') d')
  no_blocks : (d' : Blocks) → Halted sb d' → ReadOk sb ip d off tot n dst (panics d')

module _ (sb : Super) (ip : Inode) (d : Blocks) (off tot n : ℕ) (dst : Memory) (x : ℕ) (ip' : Inode)
    (d' : Blocks) where
  -- one round and the rest, at one address
  round_then :
      (m : ℕ) (dst' : Memory)
      → Extends sb ip d ip' d'
      → slot ip' d' (off / bsize) ≡ x
      → x ≢ 0
      → tot < n
      → m ≤ n - tot
      → off % bsize + m ≤ bsize
      → off + (n - tot) ≤ maxfile * bsize
      → (a : ℕ)
      → dst' a ≡ (
          if leb (tot + m) a && ltb a n
          then content ip' d' (off + m + (a - (tot + m)))
          else splice dst tot (d' x) (off % bsize) m a)
      → dst' a ≡ (if leb tot a && ltb a n then content ip d (off + (a - tot)) else dst a)
  unfolding splice
  round_then m dst' e s nz l p q r a h = elim (range-cases tot n a) [
    | inr (o, f) ↦
        let g : (leb (tot + m) a && ltb a n) ≡ false = elim (range-cases (tot + m) n a) [
          | inl (u, v, w) ↦ absurd (elim o [ inl c ↦ omega arith | inr c ↦ omega arith ])
          | inr (u, w) ↦ w
        ] in
        let k : (leb tot a && ltb a (tot + m)) ≡ false = elim (range-cases tot (tot + m) a) [
          | inl (u, v, w) ↦ absurd (elim o [ inl c ↦ omega arith | inr c ↦ omega arith ])
          | inr (u, w) ↦ w
        ] in
        h ∙ rw (f, g, splice, k) refl
    | inl (lo, hi, f) ↦
        let old : content ip' d' (off + (a - tot)) ≡ content ip d (off + (a - tot)) =
          e.bytes (off + (a - tot)) (omega arith) in
        elim (range-cases (tot + m) n a) [
          | inl (u, v, g) ↦
              let w : off + m + (a - (tot + m)) ≡ off + (a - tot) = omega arith in
              h ∙ rw (f, g, w) old
          | inr (u, g) ↦
              let c : a < tot + m = elim u [ inl c ↦ c | inr c ↦ absurd (omega arith) ] in
              let k : (leb tot a && ltb a (tot + m)) ≡ true = elim (range-cases tot (tot + m) a) [
                | inl (y, v, w) ↦ w
                | inr (y, w) ↦ absurd (elim y [ inl c' ↦ omega arith | inr c' ↦ omega arith ])
              ] in
              let at = chunk_place off (a - tot) m (omega arith) q in
              let b : content ip' d' (off + (a - tot)) ≡ d' x (off % bsize + (a - tot)) =
                content_at ip' d' (off + (a - tot)) x (ap (slot ip' d') (at.0) ∙ s) nz
                ∙ ap (d' x) (at.1) in
              h ∙ rw (f, g, splice, k) (sym b ∙ old)
        ]
  ]

pub rounds_left : (n tot k m : ℕ) → 0 < m → n ≤ tot + suc k → n ≤ tot + m + k
rounds_left n tot k m p u = omega arith

pub bytes_left :
    (off n tot m : ℕ)
    → m ≤ n - tot
    → off + (n - tot) ≤ maxfile * bsize
    → off + m + (n - (tot + m)) ≤ maxfile * bsize
bytes_left off n tot m p b = omega arith

no_bytes : (tot n a x y : ℕ) → n ≤ tot → y ≡ (if leb tot a && ltb a n then x else y)
no_bytes tot n a x y l = elim (range-cases tot n a) [
  | inl (u, v, w) ↦ absurd (omega arith)
  | inr (u, w) ↦ rw w refl
]

abbrev LoopReads : Super → ℕ → Type 0
LoopReads sb k =
    (ip : Inode) (off tot n : ℕ) (dst : Memory) (d : Blocks)
    → IsMapped sb ip d
    → n ≤ tot + k
    → off + (n - tot) ≤ maxfile * bsize
    → ReadOk sb ip d off tot n dst (readi_loop sb k ip off tot n dst d)

join_read :
    (sb : Super) (ip : Inode) (d : Blocks) (off tot n : ℕ) (dst : Memory) (x : ℕ) (ip' : Inode)
    (d' : Blocks) (m : ℕ) (r : Attempt (Memory × Inode))
    → Extends sb ip d ip' d'
    → slot ip' d' (off / bsize) ≡ x
    → x ≢ 0
    → tot < n
    → m ≤ n - tot
    → off % bsize + m ≤ bsize
    → off + (n - tot) ≤ maxfile * bsize
    → ReadOk sb ip' d' (off + m) (tot + m) n (splice dst tot (d' x) (off % bsize) m) r
    → ReadOk sb ip d off tot n dst r
join_read sb ip d off tot n dst x ip' d' m r e s nz l p q b (copied dst2 ip2 d2 e2 h) =
    copied dst2 ip2 d2 (Extends-trans sb ip d ip' d' ip2 d2 e e2)
      (λ a. round_then sb ip d off tot n dst x ip' d' m dst2 e s nz l p q b a (h a))
join_read sb ip d off tot n dst x ip' d' m r e s nz l p q b (no_blocks d2 f) = no_blocks d2 f

readi_step :
    (sb : Super) (k : ℕ)
    → LoopReads sb k
    → (ip : Inode) (off tot n : ℕ) (dst : Memory) (d : Blocks) → tot < n
    → n ≤ tot + suc k
    → off + (n - tot) ≤ maxfile * bsize
    → (r : Attempt (ℕ × Inode)) → Filled sb ip d (off / bsize) r
    → ReadOk sb ip d off tot n dst (
        and_then r (λ r d'.
          let m = min (n - tot) (bsize - off % bsize) in
          readi_loop sb k
            (r.1)
            (off + m)
            (tot + m)
            n
            (splice dst tot (d' (r.0)) (off % bsize) m)
            d'))
unfolding chunk
readi_step sb k ih ip off tot n dst d l u b r (no_room d' f) = no_blocks d' f
readi_step sb k ih ip off tot n dst d l u b r (filled x ip' d' e s nz) =
    let m = chunk off (n - tot) in
    let c = chunk_bounds off (n - tot) (omega arith) in
    join_read sb ip d off tot n dst x ip' d' m _ e s nz l (c.1) (c.2) b (
      ih ip' (off + m) (tot + m) n (splice dst tot (d' x) (off % bsize) m) d' (e.mapped)
        (rounds_left n tot k m (c.0) u) (bytes_left off n tot m (c.1) b))

-- The loop of `readi` from an offset on copies the bytes left, unless the disk is full.
readi_loop-ReadOk : (sb : Super) (k : ℕ) → LoopReads sb k
unfolding readi_loop
readi_loop-ReadOk sb zero ip off tot n dst d i u b =
    copied dst ip d (Extends-refl sb ip d i)
      (λ a. no_bytes tot n a (content ip d (off + (a - tot))) (dst a) (omega arith))
readi_loop-ReadOk sb (suc k) ip off tot n dst d i u b = elim (Bool-cases (ltb tot n)) [
  | inr e ↦
      rw (readi_loop, e)
        (copied dst ip d (Extends-refl sb ip d i)
          (λ a. no_bytes tot n a (content ip d (off + (a - tot))) (dst a) (ltb→ge tot n e)))
  | inl e ↦
      rw (readi_loop, e)
        (readi_step sb k (readi_loop-ReadOk sb k) ip off tot n dst d (ltb→lt tot n e) u b
          (bmap sb ip (off / bsize) d)
          (bmap-Filled sb ip d (off / bsize) (let l = ltb→lt tot n e in omega arith) i))
]

-- How a read of a file ends.
pub data Reads (sb : Super) (ip : Inode) (d : Blocks) (off n : ℕ) (dst : Memory)
    : Attempt (Option ℕ × Memory × Inode) → Type 0 where
  refuses : ip.size < off → Reads sb ip d off n dst (returns (none, dst, ip) d)
  reads :
      (dst' : Memory) (ip' : Inode) (d' : Blocks) (m : ℕ)
      → off ≤ ip.size
      → m ≡ min n (ip.size - off)
      → Extends sb ip d ip' d'
      → ((a : ℕ) → dst' a ≡ (if ltb a m then content ip d (off + a) else dst a))
      → Reads sb ip d off n dst (returns (some m, dst', ip') d')
  fills : (d' : Blocks) → off ≤ ip.size → Halted sb d' → Reads sb ip d off n dst (panics d')

from_zero :
    (off a m : ℕ) (f : ℕ → ℕ) (y : ℕ)
    → (if leb 0 a && ltb a m then f (off + (a - 0)) else y) ≡ (if ltb a m then f (off + a) else y)
from_zero off a m f y =
    let e : leb 0 a ≡ true = ground arith in let z : a - 0 ≡ a = omega arith in rw (e, z) refl

read_count :
    (size off n : ℕ)
    → off ≤ size
    → size ≤ maxfile * bsize
    → ((if ltb size (off + n) then size - off else n) ≡ min n (size - off))
      × (off + ((if ltb size (off + n) then size - off else n) - 0) ≤ maxfile * bsize)
read_count size off n l s = elim (Bool-cases (ltb size (off + n))) [
  | inl e ↦ (let w = ltb→lt _ _ e in rw e (omega arith, omega arith))
  | inr e ↦ (let w = ltb→ge _ _ e in rw e (omega arith, omega arith))
]

Reads-loop :
    (sb : Super) (ip : Inode) (d : Blocks) (off n m : ℕ) (dst : Memory)
    (r : Attempt (Memory × Inode))
    → off ≤ ip.size
    → m ≡ min n (ip.size - off)
    → ReadOk sb ip d off 0 m dst r
    → Reads sb ip d off n dst (and_then r (λ r d'. returns (some m, r.0, r.1) d'))
Reads-loop sb ip d off n m dst r l e (copied dst' ip' d' x h) =
    reads dst' ip' d' m l e x (λ a. h a ∙ from_zero off a m (content ip d) (dst a))
Reads-loop sb ip d off n m dst r l e (no_blocks d' f) = fills d' l f

-- `readi` of a file that is no device, whose blocks are sound and whose size is at most MAXFILE
-- blocks, with offsets that do not wrap: from behind the end it fails and changes nothing; elsewhere
-- it returns the number of bytes up to the end of the file, at most `n`, and copies them to the
-- start of the destination and nothing else; no byte of the file changes; it panics only on a full
-- disk, or where a `log_write` panics; `bread` is taken to find a buffer.
pub readi_file-Reads :
    (sb : Super) (ip : Inode) (d : Blocks) (off n : ℕ) (dst : Memory)
    → IsMapped sb ip d
    → ip.size ≤ maxfile * bsize
    → off + n < 2 ^ 32
    → Reads sb ip d off n dst (readi_file sb ip off n dst d)
unfolding readi_file
readi_file-Reads sb ip d off n dst i s w =
    let nowrap : ltb ((off + n) % 2 ^ 32) off ≡ false = ground arith in
    elim (Bool-cases (ltb (ip.size) off)) [
      | inl e ↦ rw (readi_file, e) (refuses (ltb→lt _ _ e))
      | inr e ↦
          let l = ltb→ge (ip.size) off e in
          let m = if ltb (ip.size) (off + n) then ip.size - off else n in
          rw (readi_file, e, nowrap)
            (Reads-loop sb ip d off n m dst _ l ((read_count (ip.size) off n l s).0) (
              readi_loop-ReadOk sb m ip off 0 m dst d i (omega arith)
                ((read_count (ip.size) off n l s).1)))
    ]

-- `readi` of an inode that is no device.
pub readi-readi_file :
    (devsw : ℕ → Option (Inode → Memory → ℕ → Run (Option ℕ × Memory × Inode))) (sb : Super)
    (ip : Inode) (off n : ℕ) (dst : Memory) (d : Blocks)
    → (ip.kind == t_dev) ≡ false
    → readi devsw sb ip off n dst d ≡ readi_file sb ip off n dst d
unfolding readi
readi-readi_file devsw sb ip off n dst d e = rw (readi, e) refl
