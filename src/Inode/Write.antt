-- ===== src/Inode/Write.antt =====
-- `writei` of fs.c: it stores bytes in the file.
use compiling_to_assembly.Prelude.{
  ℕ, zero, suc, ◌+◌, ◌-◌, ◌*◌, ◌/◌, ◌%◌, ◌^◌, ◌≤◌, ◌<◌, ◌≡◌, ◌≢◌, refl, ap, sym, ◌∙◌, ◌⊎◌, min,
  Bool, true, false, ◌&&◌, Option, none, some, arith, ◌==◌, ltb, leb, if◌then◌else◌, update, ltb→lt,
  lt→ltb, ltb→ge, ≥→ltb, ==→≡, ==→≢, ≢→==, range-cases, Bool-cases, inl, inr,
}
use mathlib.Core.Path.{subst}
use compiling_to_assembly.StringOps.{Memory}
use compiling_to_assembly.Fs.{Super, Blocks, Attempt, returns, panics, and_then, log_write, bsize}
use compiling_to_assembly.Fs.Blocks.{Halted, log_then}
use compiling_to_assembly.Inode.{
  Inode, maxfile, bmap, splice, writei_loop, writei_file, iupdate, iblock, dinode_at, put_dinode,
}
use compiling_to_assembly.Inode.Slots.{slot, IsMapped, content, content_at, Extends, Extends-refl}
use compiling_to_assembly.Inode.Map.{Filled, filled, no_room}
use compiling_to_assembly.Inode.Bmap.{bmap-Filled}
use compiling_to_assembly.Inode.Read.{chunk, chunk_bounds, chunk_place, rounds_left, bytes_left}
use compiling_to_assembly.Inode.Changes.{
  Outside, Changes, Extends-Changes, Changes-trans, Changes-same, stored-Changes, front_bytes,
  front-IsMapped, resized-IsMapped, resized_bytes, front_slot, resized_slot,
}

-- The file with `n - tot` bytes stored at `off`.
abbrev pub written : (ℕ → ℕ) → ℕ → ℕ → ℕ → Memory → ℕ → ℕ
written f off tot n src o =
    if leb off o && ltb o (off + (n - tot)) then src (tot + (o - off)) else f o

pub data WriteOk (sb : Super) (ip : Inode) (d : Blocks) (off tot n : ℕ) (src : Memory)
    : Attempt Inode → Type 0 where
  stored :
      (ip' : Inode) (d' : Blocks)
      → Changes sb ip d ip' d' (written (content ip d) off tot n src)
      → WriteOk sb ip d off tot n src (returns ip' d')
  no_blocks : (d' : Blocks) → Halted sb d' → WriteOk sb ip d off tot n src (panics d')

-- one round and the rest, at one offset; `old` is the file before and `block` its block
round_then :
    (off tot n m o : ℕ) (src block : Memory) (old : ℕ → ℕ)
    → tot < n
    → m ≤ n - tot
    → off % bsize + m ≤ bsize
    → (o / bsize ≡ off / bsize → block (o % bsize) ≡ old o)
    → written
        (λ o.
          if o / bsize == off / bsize
          then splice block (off % bsize) src tot m (o % bsize)
          else old o)
        (off + m)
        (tot + m)
        n
        src
        o
      ≡ written old off tot n src o
unfolding splice
round_then off tot n m o src block old l p q h = elim (range-cases off (off + (n - tot)) o) [
  | inl (lo, hi, f) ↦ elim (range-cases (off + m) (off + m + (n - (tot + m))) o) [
    | inl (u, v, g) ↦
        let w : tot + m + (o - (off + m)) ≡ tot + (o - off) = omega arith in rw (f, g, w) refl
    | inr (u, g) ↦
        let c : o < off + m = elim u [ inl c ↦ c | inr c ↦ absurd (omega arith) ] in
        let e : off + (o - off) ≡ o = omega arith in
        let at = rw e at (chunk_place off (o - off) m (omega arith) q) in
        let same : (o / bsize == off / bsize) ≡ true = ground (arith, at.0) in
        let k : (leb (off % bsize) (o % bsize) && ltb (o % bsize) (off % bsize + m)) ≡ true =
          elim (range-cases (off % bsize) (off % bsize + m) (o % bsize)) [
            | inl (y, v, w) ↦ w
            | inr (y, w) ↦ absurd (elim y [ inl c' ↦ omega arith | inr c' ↦ omega arith ])
          ] in
        let w : o % bsize - off % bsize ≡ o - off = omega arith in
        rw (f, g, same, splice, k, w) refl
  ]
  | inr (u, f) ↦
      let g : (leb (off + m) o && ltb o (off + m + (n - (tot + m)))) ≡ false =
        elim (range-cases (off + m) (off + m + (n - (tot + m))) o) [
          | inl (y, v, w) ↦ absurd (elim u [ inl c ↦ omega arith | inr c ↦ omega arith ])
          | inr (y, w) ↦ w
        ] in
      elim (Bool-cases (o / bsize == off / bsize)) [
        | inr e ↦ rw (f, g, e) refl
        | inl e ↦
            let b = ==→≡ _ _ e in
            let k : (leb (off % bsize) (o % bsize) && ltb (o % bsize) (off % bsize + m)) ≡ false =
              elim (range-cases (off % bsize) (off % bsize + m) (o % bsize)) [
                | inl (y, v, w) ↦ absurd (elim u [ inl c ↦ omega arith | inr c ↦ omega arith ])
                | inr (y, w) ↦ w
              ] in
            rw (f, g, e, splice, k) (h b)
      ]
]

written_same :
    (f g : ℕ → ℕ) (off tot n : ℕ) (src : Memory) (o : ℕ)
    → f o ≡ g o
    → written f off tot n src o ≡ written g off tot n src o
written_same f g off tot n src o h =
    ap (λ (y : ℕ). if leb off o && ltb o (off + (n - tot)) then src (tot + (o - off)) else y) h

no_bytes :
    (sb : Super) (ip : Inode) (d : Blocks) (off tot n : ℕ) (src : Memory)
    → IsMapped sb ip d
    → n ≤ tot
    → Changes sb ip d ip d (written (content ip d) off tot n src)
no_bytes sb ip d off tot n src i l =
    Changes-same sb ip d ip d (content ip d) _
      (λ o u. elim (range-cases off (off + (n - tot)) o) [
        | inl (x, v, w) ↦ absurd (omega arith)
        | inr (x, w) ↦ rw w refl
      ])
      (Extends-Changes sb ip d ip d (Extends-refl sb ip d i))

abbrev LoopWrites : Super → ℕ → Type 0
LoopWrites sb k =
    (ip : Inode) (off tot n : ℕ) (src : Memory) (d : Blocks)
    → IsMapped sb ip d
    → n ≤ tot + k
    → off + (n - tot) ≤ maxfile * bsize
    → WriteOk sb ip d off tot n src (writei_loop sb k ip off tot n src d)

join_write :
    (sb : Super) (ip : Inode) (d : Blocks) (off tot n : ℕ) (src : Memory) (x : ℕ) (ip' : Inode)
    (d' : Blocks) (m : ℕ) (r : Attempt Inode)
    → Extends sb ip d ip' d'
    → slot ip' d' (off / bsize) ≡ x
    → x ≢ 0
    → tot < n
    → m ≤ n - tot
    → off % bsize + m ≤ bsize
    → off / bsize < maxfile
    → WriteOk sb ip'
        (update d' x (splice (d' x) (off % bsize) src tot m))
        (off + m)
        (tot + m)
        n
        src
        r
    → WriteOk sb ip d off tot n src r
join_write sb ip d off tot n src x ip' d' m r e s nz l p q b (no_blocks d2 f) = no_blocks d2 f
join_write sb ip d off tot n src x ip' d' m r e s nz l p q b (stored ip2 d2 c) =
    let block = splice (d' x) (off % bsize) src tot m in
    let d1 = update d' x block in
    let st = stored-Changes sb ip' d' (off / bsize) x block (e.mapped) b s nz in
    let both = Changes-trans sb ip d ip' d' ip' d1 _ _ (Extends-Changes sb ip d ip' d' e) st in
    stored ip2 d2 (
      Changes-same sb ip d ip2 d2 _ _
        (λ o u.
          written_same (content ip' d1)
            (λ o. if o / bsize == off / bsize then block (o % bsize) else content ip d o) (off + m)
            (tot + m) n src o
            (st.bytes o u
              ∙ ap (λ (y : ℕ). if o / bsize == off / bsize then block (o % bsize) else y)
                  (e.bytes o u))
          ∙ round_then off tot n m o src (d' x) (content ip d) l p q
              (λ at. sym (content_at ip' d' o x (ap (slot ip' d') at ∙ s) nz) ∙ e.bytes o u))
        (Changes-trans sb ip d ip' d1 ip2 d2 _ _ both c))

writei_step :
    (sb : Super) (k : ℕ)
    → LoopWrites sb k
    → (ip : Inode) (off tot n : ℕ) (src : Memory) (d : Blocks) → tot < n
    → n ≤ tot + suc k
    → off + (n - tot) ≤ maxfile * bsize
    → (r : Attempt (ℕ × Inode)) → Filled sb ip d (off / bsize) r
    → WriteOk sb ip d off tot n src (
        and_then r (λ r d'.
          let m = min (n - tot) (bsize - off % bsize) in
          and_then
            (log_write sb (r.0) (splice (d' (r.0)) (off % bsize) src tot m) d')
            (λ u e. writei_loop sb k (r.1) (off + m) (tot + m) n src e)))
unfolding chunk
writei_step sb k ih ip off tot n src d l u b r (no_room d' f) = no_blocks d' f
writei_step sb k ih ip off tot n src d l u b r (filled x ip' d' e s nz) =
    let m = chunk off (n - tot) in
    let c = chunk_bounds off (n - tot) (omega arith) in
    let block = splice (d' x) (off % bsize) src tot m in
    let low : off / bsize < maxfile = omega arith in
    let st = stored-Changes sb ip' d' (off / bsize) x block (e.mapped) low s nz in
    log_then (WriteOk sb ip d off tot n src) sb x block d' _ (λ p. no_blocks d' (inr p))
      (join_write sb ip d off tot n src x ip' d' m _ e s nz l (c.1) (c.2) low (
        ih ip' (off + m) (tot + m) n src (update d' x block) (st.mapped)
          (rounds_left n tot k m (c.0) u) (bytes_left off n tot m (c.1) b)))

writei_loop-WriteOk : (sb : Super) (k : ℕ) → LoopWrites sb k
unfolding writei_loop
writei_loop-WriteOk sb zero ip off tot n src d i u b =
    stored ip d (no_bytes sb ip d off tot n src i (omega arith))
writei_loop-WriteOk sb (suc k) ip off tot n src d i u b = elim (Bool-cases (ltb tot n)) [
  | inr e ↦ rw (writei_loop, e) (stored ip d (no_bytes sb ip d off tot n src i (ltb→ge tot n e)))
  | inl e ↦
      rw (writei_loop, e)
        (writei_step sb k (writei_loop-WriteOk sb k) ip off tot n src d (ltb→lt tot n e) u b
          (bmap sb ip (off / bsize) d)
          (bmap-Filled sb ip d (off / bsize) (let l = ltb→lt tot n e in omega arith) i))
]

-- A write of `n` bytes to a file: refused where it starts behind the end or ends beyond the largest
-- file; done whole, with the size grown to its end; or a panic on a full disk or in log_write.
pub record Stores (sb : Super) (ip : Inode) (d : Blocks) (off n : ℕ) (src : Memory) (ip' : Inode)
    (d' : Blocks) : Type 0 where
  pub mapped : IsMapped sb ip' d'
  pub bytes :
      (o : ℕ)
      → o < maxfile * bsize
      → content ip' d' o ≡ (if leb off o && ltb o (off + n) then src (o - off) else content ip d o)
  pub size : ip'.size ≡ (if ltb (ip.size) (off + n) then off + n else ip.size)
  pub fields : ip' ≡ record ip { addrs = ip'.addrs; size = ip'.size }
  pub saved :
      ip.size < off + n
      → d' (iblock sb (ip.inum)) ≡ put_dinode (d (iblock sb (ip.inum))) (dinode_at (ip.inum)) ip'
  pub others : (b : ℕ) → Outside sb ip d ip' d' b → b ≢ iblock sb (ip.inum) → d' b ≡ d b

pub data WriteEnds (sb : Super) (ip : Inode) (d : Blocks) (off n : ℕ) (src : Memory)
    : Attempt (Option ℕ × Inode) → Type 0 where
  refuses :
      (ip.size < off) ⊎ (maxfile * bsize < off + n)
      → WriteEnds sb ip d off n src (returns (none, ip) d)
  stores :
      (ip' : Inode) (d' : Blocks)
      → off ≤ ip.size
      → off + n ≤ maxfile * bsize
      → Stores sb ip d off n src ip' d'
      → WriteEnds sb ip d off n src (returns (some n, ip') d')
  fills : (d' : Blocks) → Halted sb d' → WriteEnds sb ip d off n src (panics d')

plain_bytes :
    (f : ℕ → ℕ) (off n : ℕ) (src : Memory) (o : ℕ)
    → written f off 0 n src o ≡ (if leb off o && ltb o (off + n) then src (o - off) else f o)
plain_bytes f off n src o =
    let e : n - 0 ≡ n = omega arith in
    let z : 0 + (o - off) ≡ o - off = omega arith in rw (e, z) refl

and_false : (b : Bool) → (b && false) ≡ false
and_false true = refl
and_false false = refl

update_at : (d : Blocks) (b : ℕ) (m : Memory) → update d b m b ≡ m
update_at d b m = (let e : (b == b) ≡ true = ground arith in rw e refl)

-- the blocks behind `iupdate`
unfoldable pub with_inode : Super → Inode → Blocks → Blocks
with_inode sb ip d =
    update d (iblock sb (ip.inum)) (put_dinode (d (iblock sb (ip.inum))) (dinode_at (ip.inum)) ip)

pub with_inode_at :
    (sb : Super) (ip : Inode) (d : Blocks) (i : ℕ)
    → ip.inum ≡ i
    → with_inode sb ip d (iblock sb i) ≡ put_dinode (d (iblock sb i)) (dinode_at i) ip
unfolding with_inode
with_inode_at sb ip d i e =
    subst (λ m. with_inode sb ip d (iblock sb m) ≡ put_dinode (d (iblock sb m)) (dinode_at m) ip) e
      (update_at d (iblock sb (ip.inum))
        (put_dinode (d (iblock sb (ip.inum))) (dinode_at (ip.inum)) ip))

module _ (sb : Super) (ip : Inode) (d : Blocks) (off n : ℕ) (src : Memory) (ip' : Inode)
    (d' : Blocks) (c : Changes sb ip d ip' d' (written (content ip d) off 0 n src))
    (q : iblock sb (ip.inum) < sb.bmapstart) where
  same_size : ip'.size ≡ ip.size
  same_size = ap (λ (i : Inode). i.size) (c.fields)

  same_inum : ip'.inum ≡ ip.inum
  same_inum = ap (λ (i : Inode). i.inum) (c.fields)

  stays_within : off ≤ ip.size → (ltb 0 n && ltb (ip'.size) (off + n)) ≡ false → off + n ≤ ip.size
  stays_within l e = elim (Bool-cases (ltb 0 n)) [
    | inr z ↦ (let w = ltb→ge 0 n z in omega arith)
    | inl z ↦ elim (Bool-cases (ltb (ip'.size) (off + n))) [
      | inl g ↦ absurd (cc)
      | inr g ↦ (let w = ltb→ge _ _ g in let s = same_size in omega arith)
    ]
  ]

  grows_beyond : (ltb 0 n && ltb (ip'.size) (off + n)) ≡ true → ip.size < off + n
  grows_beyond e = elim (Bool-cases (ltb (ip'.size) (off + n))) [
    | inl g ↦ (let w = ltb→lt _ _ g in let s = same_size in omega arith)
    | inr g ↦ absurd (let f = rw (g, and_false (ltb 0 n)) at e in cc)
  ]

  stays-Stores : off + n ≤ ip.size → Stores sb ip d off n src ip' d'
  stays-Stores w =
      let stays : ltb (ip.size) (off + n) ≡ false = ≥→ltb _ _ w in
      record {
        mapped = c.mapped;
        bytes = λ o u. c.bytes o u ∙ plain_bytes (content ip d) off n src o;
        size = same_size ∙ rw stays refl;
        fields =
            c.fields ∙ ap (λ (s : ℕ). record ip { addrs = ip'.addrs; size = s }) (sym same_size);
        saved = λ g. absurd (omega arith);
        others = λ y o u. c.others y o;
      }

  pub grown : Inode
  grown = record ip' { size = off + n }

  inode_block : d' (iblock sb (ip.inum)) ≡ d (iblock sb (ip.inum))
  inode_block = c.others (iblock sb (ip.inum)) (
    inl q,
    λ k u. elim (Bool-cases (slot ip' d' k == 0)) [
      | inl z ↦ inr (==→≡ _ _ z)
      | inr z ↦
          inl (λ e. absurd (let low = ((c.mapped).data_blocks k u (==→≢ _ _ z)).low in omega arith))
    ],
  )

  saved_block :
      with_inode sb grown d' (iblock sb (ip.inum))
      ≡ put_dinode (d (iblock sb (ip.inum))) (dinode_at (ip.inum)) grown
  unfolding grown
  saved_block =
      with_inode_at sb grown d' (ip.inum) same_inum
      ∙ ap (λ (b : Memory). put_dinode b (dinode_at (ip.inum)) grown) inode_block

  grows-Stores : ip.size < off + n → Stores sb ip d off n src grown (with_inode sb grown d')
  unfolding with_inode grown
  grows-Stores w =
      let grows : ltb (ip.size) (off + n) ≡ true = lt→ltb _ _ w in
      let i = resized-IsMapped sb ip' d' (off + n) (c.mapped) in
      let low : iblock sb (ip'.inum) < sb.bmapstart =
        subst (λ m. iblock sb m < sb.bmapstart) (sym same_inum) q in
      let m = put_dinode (d' (iblock sb (ip'.inum))) (dinode_at (ip'.inum)) grown in
      record {
        mapped = front-IsMapped sb grown d' (iblock sb (ip'.inum)) m i low;
        bytes = λ o u.
            front_bytes sb grown d' (iblock sb (ip'.inum)) m i low o u
            ∙ resized_bytes ip' d' (off + n) o
            ∙ c.bytes o u
            ∙ plain_bytes (content ip d) off n src o;
        size = rw grows refl;
        fields = ap (λ (i : Inode). record i { size = off + n }) (c.fields);
        saved = λ g. saved_block;
        others = λ y o u.
            let other : (iblock sb (ip'.inum) == y) ≡ false =
              ≢→== _ _ (λ e. u (sym e ∙ ap (iblock sb) same_inum)) in
            rw other (
              c.others y (
                o.0,
                λ k v.
                    let s =
                      front_slot sb grown d' (iblock sb (ip'.inum)) m i low k v
                      ∙ resized_slot ip' d' (off + n) k in
                    subst (λ p. (y ≢ p) ⊎ (p ≡ 0)) s (o.1 k v),
              ));
      }

write_end :
    (sb : Super) (ip : Inode) (d : Blocks) (off n : ℕ) (src : Memory) (r : Attempt Inode)
    → off ≤ ip.size
    → off + n ≤ maxfile * bsize
    → iblock sb (ip.inum) < sb.bmapstart
    → WriteOk sb ip d off 0 n src r
    → WriteEnds sb ip d off n src (
        and_then r (λ ip' d'. elim (ltb 0 n && ltb (ip'.size) (off + n)) [
          | false ↦ returns (some n, ip') d'
          | true ↦
              and_then
                (iupdate sb (record ip' { size = off + n }) d')
                (λ u e. returns (some n, record ip' { size = off + n }) e)
        ]))
unfolding grown iupdate with_inode
write_end sb ip d off n src r l b q (no_blocks d' f) = fills d' f
write_end sb ip d off n src r l b q (stored ip' d' c) =
    elim (Bool-cases (ltb 0 n && ltb (ip'.size) (off + n))) [
      | inr e ↦
          rw (and_then, e)
            (stores ip' d' l b (
              stays-Stores sb ip d off n src ip' d' c q
                (stays_within sb ip d off n src ip' d' c q l e)))
      | inl e ↦
          rw (and_then, e)
            (log_then (WriteEnds sb ip d off n src) sb _ _ d' _ (λ p. fills d' (inr p))
              (stores (record ip' { size = off + n })
                (with_inode sb (record ip' { size = off + n }) d') l b
                (grows-Stores sb ip d off n src ip' d' c q
                  (grows_beyond sb ip d off n src ip' d' c q e))))
    ]

-- `writei` of a file that is no device, whose blocks are sound and whose inode lies in front of the
-- bitmap, with offsets that do not wrap: it is refused where it starts behind the end of the file or
-- ends beyond MAXFILE blocks, and changes nothing then; else it stores all bytes, at their offsets
-- and nowhere else in the file, grows the size to their end and writes the inode out if that is
-- beyond it, and leaves the blocks of everything else alone. It panics only on a full disk, or where
-- a `log_write` panics; `bread` is taken to find a buffer.
pub writei_file-WriteEnds :
    (sb : Super) (ip : Inode) (d : Blocks) (off n : ℕ) (src : Memory)
    → IsMapped sb ip d
    → iblock sb (ip.inum) < sb.bmapstart
    → off + n < 2 ^ 32
    → WriteEnds sb ip d off n src (writei_file sb ip off n src d)
unfolding writei_file
writei_file-WriteEnds sb ip d off n src i q w =
    let nowrap : ltb ((off + n) % 2 ^ 32) off ≡ false = ground arith in
    elim (Bool-cases (ltb (ip.size) off)) [
      | inl e ↦ rw (writei_file, e) (refuses (inl (ltb→lt _ _ e)))
      | inr e ↦ elim (Bool-cases (ltb (maxfile * bsize) (off + n))) [
        | inl f ↦ rw (writei_file, e, nowrap, f) (refuses (inr (ltb→lt _ _ f)))
        | inr f ↦
            let l = ltb→ge (ip.size) off e in
            let b = ltb→ge (maxfile * bsize) (off + n) f in
            rw (writei_file, e, nowrap, f)
              (write_end sb ip d off n src _ l b q
                (writei_loop-WriteOk sb n ip off 0 n src d i (omega arith) (omega arith)))
      ]
    ]
