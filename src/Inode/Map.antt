-- ===== src/Inode/Map.antt =====
-- `bmap` of fs.c: it finds the block of a file's block, or maps a new one that reads as zeros.
use mathlib.Core.Path.{subst}
use compiling_to_assembly.Prelude.{
  ℕ, ◌+◌, ◌-◌, ◌*◌, ◌^◌, ◌≤◌, ◌<◌, ◌≡◌, ◌≢◌, refl, ap, sym, ◌∙◌, Bool, true, false, arith, ◌==◌,
  ltb, if◌then◌else◌, update, ltb→ge, ==→≡, ==→≢, Bool-cases, inl, inr,
}
use compiling_to_assembly.StringOps.{Memory, store_word}
use compiling_to_assembly.Kalloc.{load_word}
use compiling_to_assembly.Kalloc.Words.{load_word-store_word, load_word-zero, load_word-beside}
use compiling_to_assembly.Fs.{Super, Blocks, Attempt, returns, panics, and_then, bsize, balloc}
use compiling_to_assembly.Fs.Bits.{in_use}
use compiling_to_assembly.Fs.Blocks.{
  data_start, Taken, Halted, Allocates, takes, full, refused, balloc-Allocates,
}
use compiling_to_assembly.Inode.{Inode, ndirect, nindirect, maxfile, addr_block}
use compiling_to_assembly.Inode.Slots.{slot, IsMapped, Extends, Extends-refl, Grows, Grows-Extends}

-- Slot `k` is found or filled; a panic is on a full disk or in log_write.
pub data Filled (sb : Super) (ip : Inode) (d : Blocks) (k : ℕ) : Attempt (ℕ × Inode) → Type 0 where
  filled :
      (x : ℕ) (ip' : Inode) (d' : Blocks)
      → Extends sb ip d ip' d'
      → slot ip' d' k ≡ x
      → x ≢ 0
      → Filled sb ip d k (returns (x, ip') d')
  no_room : (d' : Blocks) → Halted sb d' → Filled sb ip d k (panics d')

-- the slot that `addrs[k]` is
abbrev pub slot_of : ℕ → ℕ
slot_of k = if ltb k ndirect then k else maxfile

pub slot-slot_of :
    (ip : Inode) (d : Blocks) (k : ℕ) → k ≤ ndirect → slot ip d (slot_of k) ≡ ip.addrs k
unfolding slot
slot-slot_of ip d k l = elim (Bool-cases (ltb k ndirect)) [
  | inl e ↦ rw (e, slot, e) refl
  | inr e ↦ (let q : k ≡ ndirect = ground arith in rw (e, slot, q) refl)
]

-- slots in the three ranges
slot_direct : (ip : Inode) (d : Blocks) (j : ℕ) → j < ndirect → slot ip d j ≡ ip.addrs j
unfolding slot
slot_direct ip d j l = ground arith

pub slot_last : (ip : Inode) (d : Blocks) → slot ip d maxfile ≡ ip.addrs ndirect
unfolding slot
slot_last ip d = refl

pub slot_entry :
    (ip : Inode) (d : Blocks) (j a : ℕ)
    → ndirect ≤ j
    → j < maxfile
    → ip.addrs ndirect ≡ a
    → slot ip d j ≡ (if a == 0 then 0 else load_word (d a) (4 * (j - ndirect)))
unfolding slot
slot_entry ip d j a l u h =
    let p : ltb j ndirect ≡ false = ground arith in
    let q : (j == maxfile) ≡ false = ground arith in rw (slot, p, q, h) refl

-- the indirect block is as it was behind `balloc`
indirect_same :
    (sb : Super) (ip : Inode) (d : Blocks) (x : ℕ) (d1 : Blocks)
    → IsMapped sb ip d
    → Taken sb d x d1
    → ip.addrs ndirect ≢ 0
    → d1 (ip.addrs ndirect) ≡ d (ip.addrs ndirect)
unfolding slot
indirect_same sb ip d x d1 i t n =
    let b = i.data_blocks maxfile (omega arith) n in
    let low : data_start sb ≤ ip.addrs ndirect = b.low in
    let used : in_use sb d (ip.addrs ndirect) ≡ true = b.used in
    t.others (ip.addrs ndirect)
      (λ e.
        let f : in_use sb d (ip.addrs ndirect) ≡ false =
          subst (λ y. in_use sb d y ≡ false) (sym e) (t.free) in
        absurd (cc))
      (inr low)

-- entries behind `balloc`
entry_same :
    (sb : Super) (ip : Inode) (d : Blocks) (x : ℕ) (d1 : Blocks) (j : ℕ)
    → IsMapped sb ip d
    → Taken sb d x d1
    → (if ip.addrs ndirect == 0 then 0 else load_word (d1 (ip.addrs ndirect)) j)
      ≡ (if ip.addrs ndirect == 0 then 0 else load_word (d (ip.addrs ndirect)) j)
entry_same sb ip d x d1 j i t = elim (Bool-cases (ip.addrs ndirect == 0)) [
  | inl z ↦ rw z refl
  | inr z ↦
      simp z (ap (λ (m : Memory). load_word m j) (indirect_same sb ip d x d1 i t (==→≢ _ _ z)))
]

below : (j : ℕ) → j ≤ maxfile → (j == maxfile) ≡ false → j < maxfile
below j u b = ground arith

room : (j : ℕ) → j ≤ maxfile → (j == maxfile) ≡ false → 4 * (j - ndirect) + 4 ≤ bsize
room j u b = (let l = below j u b in omega arith)

zero_zero : (b : Bool) → ◌≡◌ {A = ℕ} (if b then 0 else 0) 0
zero_zero true = refl
zero_zero false = refl

addr_slots :
    (sb : Super) (ip : Inode) (d : Blocks) (k x : ℕ) (d1 : Blocks)
    → k ≤ ndirect
    → IsMapped sb ip d
    → ip.addrs k ≡ 0
    → Taken sb d x d1
    → (j : ℕ) → j ≤ maxfile
    → slot (record ip { addrs = update (ip.addrs) k x }) d1 j
      ≡ (if slot_of k == j then x else slot ip d j)
addr_slots sb ip d k x d1 l i z t j u =
    let ip' = record ip { addrs = update (ip.addrs) k x } in
    elim (Bool-cases (ltb j ndirect)) [
      | inl a ↦ ground (arith, slot_direct ip' d1 j, slot_direct ip d j)
      | inr a ↦ elim (Bool-cases (j == maxfile)) [
        | inl b ↦
            subst (λ y. slot ip' d1 y ≡ (if slot_of k == y then x else slot ip d y))
              (sym (==→≡ j maxfile b)) (slot_last ip' d1 ∙ ground (arith, slot_last ip d))
        | inr b ↦ elim (Bool-cases (k == ndirect)) [
          | inl c ↦
              let q : update (ip.addrs) k x ndirect ≡ x = rw c refl in
              let o : ip.addrs ndirect ≡ 0 = ap (ip.addrs) (sym (==→≡ k ndirect c)) ∙ z in
              let w : load_word (d1 x) (4 * (j - ndirect)) ≡ 0 =
                load_word-zero (d1 x) bsize (4 * (j - ndirect)) (t.zeroed) (room j u b) in
              let f : (slot_of k == j) ≡ false = ground arith in
              slot_entry ip' d1 j x (ltb→ge j ndirect a) (below j u b) q
              ∙ rw (w, f)
                  (zero_zero (x == 0)
                    ∙ sym (slot_entry ip d j 0 (ltb→ge j ndirect a) (below j u b) o))
          | inr c ↦
              let q : update (ip.addrs) k x ndirect ≡ ip.addrs ndirect = rw c refl in
              let f : (slot_of k == j) ≡ false = ground arith in
              slot_entry ip' d1 j (ip.addrs ndirect) (ltb→ge j ndirect a) (below j u b) q
              ∙ entry_same sb ip d x d1 (4 * (j - ndirect)) i t
              ∙ sym (slot_entry ip d j (ip.addrs ndirect) (ltb→ge j ndirect a) (below j u b) refl)
              ∙ rw f refl
        ]
      ]
    ]

addr-Grows :
    (sb : Super) (ip : Inode) (d : Blocks) (k x : ℕ) (d1 : Blocks)
    → k ≤ ndirect
    → IsMapped sb ip d
    → ip.addrs k ≡ 0
    → Taken sb d x d1
    → Grows sb ip d (slot_of k) x (record ip { addrs = update (ip.addrs) k x }) d1 d1
addr-Grows sb ip d k x d1 l i z t = record {
  bound = ground arith;
  empty = slot-slot_of ip d k l ∙ z;
  slots = addr_slots sb ip d k x d1 l i z t;
  same = λ b o. refl;
  fields = refl;
}

pub entry_slots :
    (sb : Super) (ip : Inode) (d : Blocks) (bn x : ℕ) (d1 : Blocks)
    → bn < nindirect
    → IsMapped sb ip d
    → ip.addrs ndirect ≢ 0
    → Taken sb d x d1
    → (j : ℕ) → j ≤ maxfile
    → slot ip (update d1 (ip.addrs ndirect) (store_word (d1 (ip.addrs ndirect)) (4 * bn) x)) j
      ≡ (if bn + ndirect == j then x else slot ip d j)
entry_slots sb ip d bn x d1 l i n t j u =
    let a = ip.addrs ndirect in
    let d2 = update d1 a (store_word (d1 a) (4 * bn) x) in
    elim (Bool-cases (ltb j ndirect)) [
      | inl e ↦ ground (arith, slot_direct ip d2 j, slot_direct ip d j)
      | inr e ↦ elim (Bool-cases (j == maxfile)) [
        | inl b ↦
            subst (λ y. slot ip d2 y ≡ (if bn + ndirect == y then x else slot ip d y))
              (sym (==→≡ j maxfile b)) (slot_last ip d2 ∙ ground (arith, slot_last ip d))
        | inr b ↦
            let z : (a == 0) ≡ false = ground arith in
            let at : d2 a ≡ store_word (d1 a) (4 * bn) x = ground arith in
            slot_entry ip d2 j a (ltb→ge j ndirect e) (below j u b) refl
            ∙ rw (z, at)
                (elim (Bool-cases (bn + ndirect == j)) [
                  | inl q ↦
                      let w : j - ndirect ≡ bn = ground arith in
                      let s : x < 2 ^ 32 = (let p = t.bound in let r = i.small in omega arith) in
                      rw (q, w) (load_word-store_word (d1 a) (4 * bn) x s)
                  | inr q ↦ rw q (
                      load_word-beside (d1 a) (4 * bn) x (4 * (j - ndirect)) (ground arith)
                      ∙ ap (λ (m : Memory). load_word m (4 * (j - ndirect)))
                          (indirect_same sb ip d x d1 i t n)
                      ∙ sym
                          (slot_entry ip d j a (ltb→ge j ndirect e) (below j u b) refl ∙ rw z refl))
                ])
      ]
    ]

pub taken_ne_zero : (sb : Super) (d : Blocks) (x : ℕ) (d1 : Blocks) → Taken sb d x d1 → x ≢ 0
taken_ne_zero sb d x d1 t e = (let l = t.data_block in absurd (omega arith))

addr_new :
    (sb : Super) (ip : Inode) (d : Blocks) (k : ℕ)
    → k ≤ ndirect
    → IsMapped sb ip d
    → ip.addrs k ≡ 0
    → (r : Attempt ℕ) → Allocates sb d r
    → Filled sb ip d
        (slot_of k)
        (and_then r (λ x d'. returns (x, record ip { addrs = update (ip.addrs) k x }) d'))
addr_new sb ip d k l i z r (takes x d1 t) =
    let g = addr-Grows sb ip d k x d1 l i z t in
    filled x (record ip { addrs = update (ip.addrs) k x }) d1
      (Grows-Extends sb ip d (slot_of k) x (record ip { addrs = update (ip.addrs) k x }) d1 d1 i t
        g)
      (slot-slot_of (record ip { addrs = update (ip.addrs) k x }) d1 k l ∙ ground arith)
      (taken_ne_zero sb d x d1 t)
addr_new sb ip d k l i z r (full f) = no_room d (inl f)
addr_new sb ip d k l i z r (refused d' p) = no_room d' (inr p)

pub addr_block-Filled :
    (sb : Super) (ip : Inode) (d : Blocks) (k : ℕ)
    → k ≤ ndirect
    → IsMapped sb ip d
    → Filled sb ip d (slot_of k) (addr_block sb ip k d)
unfolding addr_block
addr_block-Filled sb ip d k l i = elim (Bool-cases (ip.addrs k == 0)) [
  | inr n ↦
      rw (addr_block, n)
        (filled (ip.addrs k) ip d (Extends-refl sb ip d i) (slot-slot_of ip d k l) (==→≢ _ _ n))
  | inl z ↦
      rw (addr_block, z)
        (addr_new sb ip d k l i (==→≡ _ _ z) (balloc sb d) (balloc-Allocates sb d (i.reserved)))
]
