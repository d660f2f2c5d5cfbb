-- ===== src/Inode/Bmap.antt =====
-- `bmap` of fs.c as a whole: the indirect block, its entries, and the cases.
use mathlib.Core.Path.{subst}
use compiling_to_assembly.Prelude.{
  ℕ, ◌+◌, ◌-◌, ◌*◌, ◌<◌, ◌≡◌, ◌≢◌, refl, sym, ◌∙◌, true, false, arith, ◌==◌, ltb, update, ltb→ge,
  ltb→lt, lt→ltb, ==→≡, ==→≢, Bool-cases, inl, inr,
}
use compiling_to_assembly.StringOps.{Memory, store_word}
use compiling_to_assembly.Kalloc.{load_word}
use compiling_to_assembly.Fs.{Super, Blocks, Attempt, returns, and_then, balloc, log_write}
use compiling_to_assembly.Fs.Blocks.{
  Taken, Allocates, takes, full, refused, log_then, balloc-Allocates,
}
use compiling_to_assembly.Inode.{Inode, ndirect, nindirect, maxfile, addr_block, entry_block, bmap}
use compiling_to_assembly.Inode.Slots.{
  slot, IsMapped, Extends, Extends-refl, Extends-trans, Grows, Grows-Extends,
}
use compiling_to_assembly.Inode.Map.{
  Filled, filled, no_room, slot_last, slot_entry, entry_slots, addr_block-Filled, taken_ne_zero,
}

other_block : (d1 : Blocks) (a : ℕ) (m : Memory) (b : ℕ) → b ≢ a → update d1 a m b ≡ d1 b
other_block d1 a m b n = ground arith

entry-Grows :
    (sb : Super) (ip : Inode) (d : Blocks) (bn x : ℕ) (d1 : Blocks)
    → bn < nindirect
    → IsMapped sb ip d
    → ip.addrs ndirect ≢ 0
    → slot ip d (bn + ndirect) ≡ 0
    → Taken sb d x d1
    → Grows sb ip d
        (bn + ndirect)
        x
        ip
        d1
        (update d1 (ip.addrs ndirect) (store_word (d1 (ip.addrs ndirect)) (4 * bn) x))
unfolding slot
entry-Grows sb ip d bn x d1 l i n z t = record {
  bound = omega arith;
  empty = z;
  slots = entry_slots sb ip d bn x d1 l i n t;
  same = λ b o. elim o [ inl m ↦ other_block d1 (ip.addrs ndirect) _ b m | inr e ↦ absurd (n e) ];
  fields = refl;
}

slot_word :
    (ip : Inode) (d : Blocks) (bn : ℕ)
    → bn < nindirect
    → ip.addrs ndirect ≢ 0
    → slot ip d (bn + ndirect) ≡ load_word (d (ip.addrs ndirect)) (4 * bn)
slot_word ip d bn l n =
    let z : (ip.addrs ndirect == 0) ≡ false = ground arith in
    let e : bn + ndirect - ndirect ≡ bn = omega arith in
    slot_entry ip d (bn + ndirect) (ip.addrs ndirect) (omega arith) (omega arith) refl
    ∙ rw (z, e) refl

entry_new :
    (sb : Super) (ip : Inode) (d : Blocks) (bn : ℕ)
    → bn < nindirect
    → IsMapped sb ip d
    → ip.addrs ndirect ≢ 0
    → slot ip d (bn + ndirect) ≡ 0
    → (r : Attempt ℕ) → Allocates sb d r
    → Filled sb ip d (bn + ndirect) (
        and_then
          (and_then r (λ x d'.
            and_then
              (log_write sb (ip.addrs ndirect) (store_word (d' (ip.addrs ndirect)) (4 * bn) x) d')
              (λ u e. returns x e)))
          (λ x e. returns (x, ip) e))
entry_new sb ip d bn l i n z r (takes x d1 t) =
    let d2 = update d1 (ip.addrs ndirect) (store_word (d1 (ip.addrs ndirect)) (4 * bn) x) in
    log_then (λ r. Filled sb ip d (bn + ndirect) (and_then r (λ x e. returns (x, ip) e))) sb
      (ip.addrs ndirect) (store_word (d1 (ip.addrs ndirect)) (4 * bn) x) d1 (λ u e. returns x e)
      (λ p. no_room d1 (inr p))
      (filled x ip d2
        (Grows-Extends sb ip d (bn + ndirect) x ip d1 d2 i t
          (entry-Grows sb ip d bn x d1 l i n z t))
        (entry_slots sb ip d bn x d1 l i n t (bn + ndirect) (omega arith) ∙ ground arith)
        (taken_ne_zero sb d x d1 t))
entry_new sb ip d bn l i n z r (full f) = no_room d (inl f)
entry_new sb ip d bn l i n z r (refused d' p) = no_room d' (inr p)

entry_block-Filled :
    (sb : Super) (ip : Inode) (d : Blocks) (bn : ℕ)
    → bn < nindirect
    → IsMapped sb ip d
    → ip.addrs ndirect ≢ 0
    → Filled sb ip d
        (bn + ndirect)
        (and_then (entry_block sb (ip.addrs ndirect) bn d) (λ x e. returns (x, ip) e))
unfolding entry_block
entry_block-Filled sb ip d bn l i n =
    let w = slot_word ip d bn l n in
    elim (Bool-cases (load_word (d (ip.addrs ndirect)) (4 * bn) == 0)) [
      | inr m ↦
          rw (entry_block, m)
            (filled (load_word (d (ip.addrs ndirect)) (4 * bn)) ip d (Extends-refl sb ip d i) w
              (==→≢ _ _ m))
      | inl z ↦
          rw (entry_block, z)
            (entry_new sb ip d bn l i n (w ∙ ==→≡ _ _ z) (balloc sb d)
              (balloc-Allocates sb d (i.reserved)))
    ]

-- A slot filled in two steps.
Filled-Extends :
    (sb : Super) (ip : Inode) (d : Blocks) (ip' : Inode) (d' : Blocks) (k : ℕ)
    (r : Attempt (ℕ × Inode))
    → Extends sb ip d ip' d'
    → Filled sb ip' d' k r
    → Filled sb ip d k r
Filled-Extends sb ip d ip' d' k r a (filled x ip2 d2 b e n) =
    filled x ip2 d2 (Extends-trans sb ip d ip' d' ip2 d2 a b) e n
Filled-Extends sb ip d ip' d' k r a (no_room d2 f) = no_room d2 f

behind_indirect :
    (sb : Super) (ip : Inode) (d : Blocks) (bn : ℕ) (r : Attempt (ℕ × Inode))
    → bn < nindirect
    → Filled sb ip d maxfile r
    → Filled sb ip d
        (bn + ndirect)
        (and_then r (λ r d'. and_then (entry_block sb (r.0) bn d') (λ x e. returns (x, r.1) e)))
behind_indirect sb ip d bn r l (filled a ip' d' x e n) =
    let at : ip'.addrs ndirect ≡ a = sym (slot_last ip' d') ∙ e in
    Filled-Extends sb ip d ip' d' (bn + ndirect) _ x (
      subst
        (λ y.
          Filled sb ip' d' (bn + ndirect)
            (and_then (entry_block sb y bn d') (λ x e. returns (x, ip') e)))
        at (entry_block-Filled sb ip' d' bn l (x.mapped) (λ z. n (sym at ∙ z))))
behind_indirect sb ip d bn r l (no_room d' f) = no_room d' f

-- `bmap` of a block number below MAXFILE gives a block that is not 0 and that the inode maps there
-- afterwards; the mapping stays sound, no byte of the file changes, and no block in use but the
-- indirect block. It panics only on a full disk, or where a `log_write` panics; `bread` is taken to
-- find a buffer.
pub bmap-Filled :
    (sb : Super) (ip : Inode) (d : Blocks) (bn : ℕ)
    → bn < maxfile
    → IsMapped sb ip d
    → Filled sb ip d bn (bmap sb ip bn d)
unfolding bmap
bmap-Filled sb ip d bn l i = elim (Bool-cases (ltb bn ndirect)) [
  | inl e ↦
      rw (bmap, e)
        (subst (λ k. Filled sb ip d k (addr_block sb ip bn d)) (rw e refl)
          (addr_block-Filled sb ip d bn (omega (arith, ltb→lt bn ndirect e)) i))
  | inr e ↦
      let g = ltb→ge bn ndirect e in
      let m : bn - ndirect + ndirect ≡ bn = omega arith in
      let f : ltb (bn - ndirect) nindirect ≡ true = lt→ltb _ _ (omega arith) in
      rw (bmap, e, f)
        (subst
          (λ k. Filled sb ip d k (
            and_then (addr_block sb ip ndirect d) (λ r d'.
              and_then (entry_block sb (r.0) (bn - ndirect) d') (λ x e. returns (x, r.1) e))))
          m
          (behind_indirect sb ip d (bn - ndirect) (addr_block sb ip ndirect d) (omega arith)
            (addr_block-Filled sb ip d ndirect (omega arith) i)))
]
