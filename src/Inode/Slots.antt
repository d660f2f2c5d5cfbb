-- ===== src/Inode/Slots.antt =====
-- The blocks of an inode of fs.c, as 141 slots of which the last is the indirect block, and the bytes of
-- its file.
use mathlib.Core.Path.{subst}
use compiling_to_assembly.Prelude.{
  ℕ, ◌-◌, ◌*◌, ◌/◌, ◌%◌, ◌^◌, ◌≤◌, ◌<◌, ◌≡◌, ◌≢◌, refl, ap, sym, ◌∙◌, ◌⊎◌, Bool, true, false, arith,
  ◌==◌, ltb, if◌then◌else◌, ==→≡, ==→≢, Bool-cases, inl, inr,
}
use compiling_to_assembly.StringOps.{Memory}
use compiling_to_assembly.Kalloc.{load_word}
use compiling_to_assembly.Fs.{Super, Blocks, bsize, bblock}
use compiling_to_assembly.Fs.Bits.{in_use, in_use-block}
use compiling_to_assembly.Fs.Blocks.{data_start, Reserved, Taken}
use compiling_to_assembly.Inode.{Inode, ndirect, maxfile}

-- The block behind slot `k`, or 0.
unfoldable pub slot : Inode → Blocks → ℕ → ℕ
slot ip d k =
    if ltb k ndirect
    then ip.addrs k
    else if k == maxfile
    then ip.addrs ndirect
    else if ip.addrs ndirect == 0
    then 0
    else load_word (d (ip.addrs ndirect)) (4 * (k - ndirect))

-- A block for data that is in use.
pub record IsData (sb : Super) (d : Blocks) (p : ℕ) : Type 0 where
  pub low : data_start sb ≤ p
  pub high : p < sb.size
  pub used : in_use sb d p ≡ true

-- The blocks of the inode are blocks in use, all different, and block numbers fit an `int`.
pub record IsMapped (sb : Super) (ip : Inode) (d : Blocks) : Type 0 where
  pub small : sb.size < 2 ^ 31
  pub reserved : Reserved sb d
  pub data_blocks : (k : ℕ) → k ≤ maxfile → slot ip d k ≢ 0 → IsData sb d (slot ip d k)
  pub apart :
      (j k : ℕ) → j ≤ maxfile → k ≤ maxfile → slot ip d j ≡ slot ip d k → slot ip d j ≢ 0 → j ≡ k

-- The byte at an offset of the file; what is not mapped reads as 0.
unfoldable pub content : Inode → Blocks → ℕ → ℕ
content ip d o = if slot ip d (o / bsize) == 0 then 0 else d (slot ip d (o / bsize)) (o % bsize)

-- What mapping more blocks keeps: the file's bytes, all fields but the addresses, the blocks in use, and
-- every block in front of the bitmap or in use but the indirect block.
pub record Extends (sb : Super) (ip : Inode) (d : Blocks) (ip' : Inode) (d' : Blocks) : Type 0 where
  pub mapped : IsMapped sb ip' d'
  pub slots : (k : ℕ) → k ≤ maxfile → slot ip d k ≢ 0 → slot ip' d' k ≡ slot ip d k
  pub bytes : (o : ℕ) → o < maxfile * bsize → content ip' d' o ≡ content ip d o
  pub fields : ip' ≡ record ip { addrs = ip'.addrs }
  pub marks : (y : ℕ) → y < sb.size → in_use sb d y ≡ true → in_use sb d' y ≡ true
  pub others :
      (b : ℕ)
      → (b < sb.bmapstart) ⊎ ((data_start sb ≤ b) × (b < sb.size) × (in_use sb d b ≡ true))
      → (b ≢ slot ip' d' maxfile) ⊎ (slot ip' d' maxfile ≡ 0)
      → d' b ≡ d b

pub Extends-refl : (sb : Super) (ip : Inode) (d : Blocks) → IsMapped sb ip d → Extends sb ip d ip d
Extends-refl sb ip d m = record {
  mapped = m;
  slots = λ k l n. refl;
  bytes = λ o l. refl;
  fields = refl;
  marks = λ y l u. u;
  others = λ b o n. refl;
}

-- One slot that was empty holds a new block, and nothing else changes but the indirect block.
pub record Grows (sb : Super) (ip : Inode) (d : Blocks) (m x : ℕ) (ip' : Inode) (d1 d' : Blocks)
    : Type 0 where
  pub bound : m ≤ maxfile
  pub empty : slot ip d m ≡ 0
  pub slots : (k : ℕ) → k ≤ maxfile → slot ip' d' k ≡ (if m == k then x else slot ip d k)
  pub same : (b : ℕ) → (b ≢ slot ip d maxfile) ⊎ (slot ip d maxfile ≡ 0) → d' b ≡ d1 b
  pub fields : ip' ≡ record ip { addrs = ip'.addrs }

pub content_zero :
    (ip : Inode) (d : Blocks) (o : ℕ) → slot ip d (o / bsize) ≡ 0 → content ip d o ≡ 0
unfolding content
content_zero ip d o h = ground arith

pub content_at :
    (ip : Inode) (d : Blocks) (o p : ℕ)
    → slot ip d (o / bsize) ≡ p
    → p ≢ 0
    → content ip d o ≡ d p (o % bsize)
unfolding content
content_at ip d o p h n = let e : (p == 0) ≡ false = ground arith in rw (content, h, e) refl

if_used : (b : Bool) {v : Bool} → v ≡ true → (if b then true else v) ≡ true
if_used b h = ground arith

module _ (sb : Super) (ip : Inode) (d : Blocks) (m x : ℕ) (ip' : Inode) (d1 d' : Blocks)
    (i : IsMapped sb ip d) (t : Taken sb d x d1) (g : Grows sb ip d m x ip' d1 d') where
  new_ne_zero : x ≢ 0
  new_ne_zero e = (let l = t.data_block in absurd (omega arith))

  fresh : (k : ℕ) → k ≤ maxfile → slot ip d k ≢ x
  fresh k l e =
      let u : in_use sb d x ≡ true =
        subst (λ p. in_use sb d p ≡ true) e
          ((i.data_blocks k l (λ z. new_ne_zero (sym e ∙ z))).used) in
      let f = t.free in cc

  -- the indirect block, if there is one, is no block of the bitmap and no new block
  indirect : (slot ip d maxfile ≡ 0) ⊎ (data_start sb ≤ slot ip d maxfile)
  indirect = elim (Bool-cases (slot ip d maxfile == 0)) [
    | inl e ↦ inl (==→≡ _ _ e)
    | inr n ↦ inr ((i.data_blocks maxfile (omega arith) (==→≢ _ _ n)).low)
  ]

  same_but : (b : ℕ) → (data_start sb ≤ slot ip d maxfile → b ≢ slot ip d maxfile) → d' b ≡ d1 b
  same_but b h = elim indirect [ inl z ↦ g.same b (inr z) | inr l ↦ g.same b (inl (h l)) ]

  grown_marks : (y : ℕ) → y < sb.size → in_use sb d' y ≡ (if x == y then true else in_use sb d y)
  grown_marks y l =
      in_use-block sb d1 d' y (same_but (bblock sb y) (λ p e. absurd (omega arith))) ∙ t.marks y l

  grown_apart :
      (j k : ℕ)
      → j ≤ maxfile
      → k ≤ maxfile
      → slot ip' d' j ≡ slot ip' d' k
      → slot ip' d' j ≢ 0
      → j ≡ k
  grown_apart j k l u e n =
      let sj = g.slots j l in
      let sk = g.slots k u in
      elim (Bool-cases (m == j)) [
        | inl a ↦ elim (Bool-cases (m == k)) [
          | inl b ↦ sym (==→≡ m j a) ∙ ==→≡ m k b
          | inr b ↦ absurd (fresh k u (sym (rw b at sk) ∙ sym e ∙ (rw a at sj)))
        ]
        | inr a ↦ elim (Bool-cases (m == k)) [
          | inl b ↦ absurd (fresh j l (sym (rw a at sj) ∙ e ∙ (rw b at sk)))
          | inr b ↦
              i.apart j k l u (sym (rw a at sj) ∙ e ∙ (rw b at sk)) (λ z. n ((rw a at sj) ∙ z))
        ]
      ]

  kept : (k : ℕ) → k < maxfile → slot ip d k ≢ 0 → d' (slot ip d k) ≡ d (slot ip d k)
  kept k l n =
      same_but (slot ip d k)
        (λ p e. absurd (let q = i.apart k maxfile (omega arith) (omega arith) e n in omega arith))
      ∙ t.others (slot ip d k) (fresh k (omega arith)) (inr ((i.data_blocks k (omega arith) n).low))

  grown_bytes : (o : ℕ) → o < maxfile * bsize → content ip' d' o ≡ content ip d o
  grown_bytes o l =
      let k = o / bsize in
      let u : k < maxfile = omega arith in
      let s : slot ip' d' k ≡ (if m == k then x else slot ip d k) = g.slots k (omega arith) in
      elim (Bool-cases (m == k)) [
        | inl a ↦
            content_at ip' d' o x (rw a at s) new_ne_zero
            ∙ ap (λ (b : Memory). b (o % bsize))
                (same_but x (λ p e. fresh maxfile (omega arith) (sym e)))
            ∙ t.zeroed (o % bsize) (omega arith)
            ∙ sym (content_zero ip d o (subst (λ y. slot ip d y ≡ 0) (==→≡ m k a) (g.empty)))
        | inr a ↦ elim (Bool-cases (slot ip d k == 0)) [
          | inl z ↦
              content_zero ip' d' o ((rw a at s) ∙ ==→≡ _ _ z)
              ∙ sym (content_zero ip d o (==→≡ _ _ z))
          | inr z ↦
              content_at ip' d' o (slot ip d k) (rw a at s) (==→≢ _ _ z)
              ∙ ap (λ (b : Memory). b (o % bsize)) (kept k u (==→≢ _ _ z))
              ∙ sym (content_at ip d o (slot ip d k) refl (==→≢ _ _ z))
        ]
      ]

  grown-IsData : (k : ℕ) → k ≤ maxfile → slot ip' d' k ≢ 0 → IsData sb d' (slot ip' d' k)
  grown-IsData k l n =
      let s = g.slots k l in
      elim (Bool-cases (m == k)) [
        | inl a ↦ subst (IsData sb d') (sym (rw a at s)) (record {
          low = t.data_block;
          high = t.bound;
          used = grown_marks x (t.bound) ∙ ground arith;
        })
        | inr a ↦
            let old = i.data_blocks k l (λ z. n ((rw a at s) ∙ z)) in
            subst (IsData sb d') (sym (rw a at s)) (record {
              low = old.low;
              high = old.high;
              used = grown_marks (slot ip d k) (old.high) ∙ if_used (x == slot ip d k) (old.used);
            })
      ]

  kept_slot : (k : ℕ) → k ≤ maxfile → slot ip d k ≢ 0 → slot ip' d' k ≡ slot ip d k
  kept_slot k l n = elim (Bool-cases (m == k)) [
    | inl a ↦ absurd (n (subst (λ y. slot ip d y ≡ 0) (==→≡ m k a) (g.empty)))
    | inr a ↦ rw a at (g.slots k l)
  ]

  grown_others :
      (b : ℕ)
      → (b < sb.bmapstart) ⊎ ((data_start sb ≤ b) × (b < sb.size) × (in_use sb d b ≡ true))
      → (b ≢ slot ip' d' maxfile) ⊎ (slot ip' d' maxfile ≡ 0)
      → d' b ≡ d b
  grown_others b o n =
      same_but b (λ p e.
        let k = kept_slot maxfile (omega arith) (λ z. absurd (omega arith)) in
        elim n [ inl m' ↦ m' (e ∙ sym k) | inr z ↦ absurd (omega arith) ])
      ∙ elim o [
        | inl l ↦ t.others b (λ e. absurd (let p = t.data_block in omega arith)) (inl l)
        | inr u ↦
            t.others b
              (λ e.
                let f : in_use sb d b ≡ false =
                  subst (λ y. in_use sb d y ≡ false) (sym e) (t.free) in
                let v = u.2 in absurd (cc))
              (inr (u.0))
      ]

  pub Grows-Extends : Extends sb ip d ip' d'
  Grows-Extends = record {
    mapped = record {
      small = i.small;
      reserved = λ y l.
          grown_marks y (let p = t.data_block in let q = t.bound in omega arith)
          ∙ if_used (x == y) (i.reserved y l);
      data_blocks = grown-IsData;
      apart = grown_apart;
    };
    slots = kept_slot;
    bytes = grown_bytes;
    fields = g.fields;
    marks = λ y l u. grown_marks y l ∙ if_used (x == y) u;
    others = grown_others;
  }

pub Extends-trans :
    (sb : Super) (ip : Inode) (d : Blocks) (ip1 : Inode) (d1 : Blocks) (ip2 : Inode) (d2 : Blocks)
    → Extends sb ip d ip1 d1
    → Extends sb ip1 d1 ip2 d2
    → Extends sb ip d ip2 d2
Extends-trans sb ip d ip1 d1 ip2 d2 a b = record {
  mapped = b.mapped;
  slots = λ k l n. b.slots k l (λ z. n (sym (a.slots k l n) ∙ z)) ∙ a.slots k l n;
  bytes = λ o l. b.bytes o l ∙ a.bytes o l;
  fields = b.fields ∙ ap (λ (i : Inode). record i { addrs = ip2.addrs }) (a.fields);
  marks = λ y l u. b.marks y l (a.marks y l u);
  others = λ y o n.
      b.others y (elim o [ inl l ↦ inl l | inr u ↦ inr (u.0, u.1, a.marks y (u.1) (u.2)) ]) n
      ∙ a.others y o (elim (Bool-cases (slot ip1 d1 maxfile == 0)) [
        | inl z ↦ inr (==→≡ _ _ z)
        | inr z ↦
            let k = b.slots maxfile (omega arith) (==→≢ _ _ z) in
            elim n [ inl m ↦ inl (λ e. m (e ∙ sym k)) | inr w ↦ inr (sym k ∙ w) ]
      ]);
}
