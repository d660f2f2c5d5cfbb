-- ===== src/Inode/Changes.antt =====
-- What writes to a file change, and what they leave alone, in terms of the blocks of Inode.Slots.
use compiling_to_assembly.Prelude.{
  ℕ, ◌*◌, ◌/◌, ◌%◌, ◌≤◌, ◌<◌, ◌≡◌, ◌≢◌, refl, ap, sym, ◌∙◌, ◌⊎◌, true, false, arith, ◌==◌,
  if◌then◌else◌, update, ==→≡, ==→≢, ≢→==, Bool-cases, inl, inr,
}
use mathlib.Core.Path.{subst}
use compiling_to_assembly.StringOps.{Memory}
use compiling_to_assembly.Fs.{Super, Blocks, bsize, bblock}
use compiling_to_assembly.Fs.Bits.{in_use, in_use-block}
use compiling_to_assembly.Fs.Blocks.{data_start}
use compiling_to_assembly.Inode.{Inode, maxfile, ndirect}
use compiling_to_assembly.Inode.Slots.{
  slot, IsData, IsMapped, content, content_at, content_zero, Extends,
}

-- A block outside the file: in front of the bitmap, or in use as data and none of the file's.
abbrev pub Outside : Super → Inode → Blocks → Inode → Blocks → ℕ → Type 0
Outside sb ip d ip' d' b =
    ((b < sb.bmapstart) ⊎ ((data_start sb ≤ b) × (b < sb.size) × (in_use sb d b ≡ true)))
    × ((k : ℕ) → k ≤ maxfile → (b ≢ slot ip' d' k) ⊎ (slot ip' d' k ≡ 0))

-- What a write does: the file's bytes are now given by a function, and nothing outside the file changes.
pub record Changes (sb : Super) (ip : Inode) (d : Blocks) (ip' : Inode) (d' : Blocks) (f : ℕ → ℕ)
    : Type 0 where
  pub mapped : IsMapped sb ip' d'
  pub slots : (k : ℕ) → k ≤ maxfile → slot ip d k ≢ 0 → slot ip' d' k ≡ slot ip d k
  pub bytes : (o : ℕ) → o < maxfile * bsize → content ip' d' o ≡ f o
  pub fields : ip' ≡ record ip { addrs = ip'.addrs }
  pub marks : (y : ℕ) → y < sb.size → in_use sb d y ≡ true → in_use sb d' y ≡ true
  pub others : (b : ℕ) → Outside sb ip d ip' d' b → d' b ≡ d b

pub Extends-Changes :
    (sb : Super) (ip : Inode) (d : Blocks) (ip' : Inode) (d' : Blocks)
    → Extends sb ip d ip' d'
    → Changes sb ip d ip' d' (content ip d)
Extends-Changes sb ip d ip' d' e = record {
  mapped = e.mapped;
  slots = e.slots;
  bytes = e.bytes;
  fields = e.fields;
  marks = e.marks;
  others = λ b o. e.others b (o.0) (o.1 maxfile (omega arith));
}

pub Changes-trans :
    (sb : Super) (ip : Inode) (d : Blocks) (ip1 : Inode) (d1 : Blocks) (ip2 : Inode) (d2 : Blocks)
    (f g : ℕ → ℕ)
    → Changes sb ip d ip1 d1 f
    → Changes sb ip1 d1 ip2 d2 g
    → Changes sb ip d ip2 d2 g
Changes-trans sb ip d ip1 d1 ip2 d2 f g a b = record {
  mapped = b.mapped;
  slots = λ k l n. b.slots k l (λ z. n (sym (a.slots k l n) ∙ z)) ∙ a.slots k l n;
  bytes = b.bytes;
  fields = b.fields ∙ ap (λ (i : Inode). record i { addrs = ip2.addrs }) (a.fields);
  marks = λ y l u. b.marks y l (a.marks y l u);
  others = λ y o.
      b.others y (elim (o.0) [ inl l ↦ inl l | inr u ↦ inr (u.0, u.1, a.marks y (u.1) (u.2)) ], o.1)
      ∙ a.others y (
        o.0,
        λ k l. elim (Bool-cases (slot ip1 d1 k == 0)) [
          | inl z ↦ inr (==→≡ _ _ z)
          | inr z ↦
              let s = b.slots k l (==→≢ _ _ z) in
              elim (o.1 k l) [ inl m ↦ inl (λ e. m (e ∙ sym s)) | inr w ↦ inr (sym s ∙ w) ]
        ],
      );
}

-- New bytes in one block of the file.
module _ (sb : Super) (ip : Inode) (d : Blocks) (k x : ℕ) (m : Memory) (i : IsMapped sb ip d)
    (l : k < maxfile) (s : slot ip d k ≡ x) (nz : x ≢ 0) where
  not_indirect : (x == ip.addrs ndirect) ≡ false
  unfolding slot
  not_indirect = elim (Bool-cases (x == ip.addrs ndirect)) [
    | inr e ↦ e
    | inl e ↦ absurd (
        let q =
          i.apart k maxfile (omega arith) (omega arith) (s ∙ ==→≡ _ _ e) (λ z. nz (sym s ∙ z)) in
        omega arith)
  ]

  stored_slot : (j : ℕ) → slot ip (update d x m) j ≡ slot ip d j
  unfolding slot
  stored_slot j = rw (slot, not_indirect) refl

  stored_marks : (y : ℕ) → y < sb.size → in_use sb (update d x m) y ≡ in_use sb d y
  stored_marks y u =
      let b =
        subst (λ p. data_start sb ≤ p) s
          ((i.data_blocks k (omega arith) (λ z. nz (sym s ∙ z))).low) in
      in_use-block sb d (update d x m) y
        (let e : (x == bblock sb y) ≡ false = ≢→== _ _ (λ q. absurd (omega arith)) in rw e refl)

  stored_bytes :
      (o : ℕ)
      → o < maxfile * bsize
      → content ip (update d x m) o ≡ (if o / bsize == k then m (o % bsize) else content ip d o)
  stored_bytes o u = elim (Bool-cases (o / bsize == k)) [
    | inl e ↦
        let same : (x == x) ≡ true = ground arith in
        rw e (
          content_at ip (update d x m) o x
            (stored_slot (o / bsize) ∙ ap (slot ip d) (==→≡ _ _ e) ∙ s) nz
          ∙ rw same refl)
    | inr e ↦ rw e (elim (Bool-cases (slot ip d (o / bsize) == 0)) [
      | inl z ↦
          content_zero ip (update d x m) o (stored_slot (o / bsize) ∙ ==→≡ _ _ z)
          ∙ sym (content_zero ip d o (==→≡ _ _ z))
      | inr z ↦
          let q : (x == slot ip d (o / bsize)) ≡ false = ≢→== _ _ (λ p.
            ==→≢ _ _ e
              (i.apart (o / bsize) k (omega arith) (omega arith) (sym p ∙ sym s) (==→≢ _ _ z))) in
          content_at ip (update d x m) o (slot ip d (o / bsize)) (stored_slot (o / bsize))
            (==→≢ _ _ z)
          ∙ rw q (sym (content_at ip d o (slot ip d (o / bsize)) refl (==→≢ _ _ z)))
    ])
  ]

  pub stored-Changes :
      Changes sb ip d ip
        (update d x m)
        (λ o. if o / bsize == k then m (o % bsize) else content ip d o)
  stored-Changes = record {
    mapped = record {
      small = i.small;
      reserved = λ y u.
          let b = i.data_blocks k (omega arith) (λ z. nz (sym s ∙ z)) in
          let low : data_start sb ≤ x = subst (λ p. data_start sb ≤ p) s (b.low) in
          let high : x < sb.size = subst (λ p. p < sb.size) s (b.high) in
          stored_marks y (omega arith) ∙ i.reserved y u;
      data_blocks = λ j u n.
          let b = i.data_blocks j u (λ z. n (stored_slot j ∙ z)) in
          subst (IsData sb (update d x m)) (sym (stored_slot j)) (record {
            low = b.low;
            high = b.high;
            used = stored_marks (slot ip d j) (b.high) ∙ b.used;
          });
      apart = λ j j' u v e n.
          i.apart j j' u v (sym (stored_slot j) ∙ e ∙ stored_slot j') (λ z. n (stored_slot j ∙ z));
    };
    slots = λ j u n. stored_slot j;
    bytes = stored_bytes;
    fields = refl;
    marks = λ y u v. stored_marks y u ∙ v;
    others = λ b o.
        let q : (x == b) ≡ false = ≢→== _ _ (λ e. elim (o.1 k (omega arith)) [
          | inl n ↦ n (sym e ∙ sym s ∙ sym (stored_slot k))
          | inr z ↦ nz (sym s ∙ sym (stored_slot k) ∙ z)
        ]) in
        rw q refl;
  }

pub Changes-same :
    (sb : Super) (ip : Inode) (d : Blocks) (ip' : Inode) (d' : Blocks) (f g : ℕ → ℕ)
    → ((o : ℕ) → o < maxfile * bsize → f o ≡ g o)
    → Changes sb ip d ip' d' f
    → Changes sb ip d ip' d' g
Changes-same sb ip d ip' d' f g h c = record {
  mapped = c.mapped;
  slots = c.slots;
  bytes = λ o l. c.bytes o l ∙ h o l;
  fields = c.fields;
  marks = c.marks;
  others = c.others;
}

-- A write of a block in front of the bitmap leaves the file alone.
module _ (sb : Super) (ip : Inode) (d : Blocks) (b : ℕ) (m : Memory) (i : IsMapped sb ip d)
    (l : b < sb.bmapstart) where
  pub front_slot : (j : ℕ) → j ≤ maxfile → slot ip (update d b m) j ≡ slot ip d j
  unfolding slot
  front_slot j u = elim (Bool-cases (ip.addrs ndirect == 0)) [
    | inl z ↦ rw (slot, z) refl
    | inr z ↦
        let low = (i.data_blocks maxfile (omega arith) (==→≢ _ _ z)).low in
        let e : (b == ip.addrs ndirect) ≡ false = ≢→== _ _ (λ e. absurd (omega arith)) in
        rw (slot, e) refl
  ]

  front_marks : (y : ℕ) → in_use sb (update d b m) y ≡ in_use sb d y
  front_marks y =
      in_use-block sb d (update d b m) y
        (let e : (b == bblock sb y) ≡ false = ≢→== _ _ (λ q. absurd (omega arith)) in rw e refl)

  pub front_bytes : (o : ℕ) → o < maxfile * bsize → content ip (update d b m) o ≡ content ip d o
  front_bytes o u =
      let s = front_slot (o / bsize) (omega arith) in
      elim (Bool-cases (slot ip d (o / bsize) == 0)) [
        | inl z ↦
            content_zero ip (update d b m) o (s ∙ ==→≡ _ _ z)
            ∙ sym (content_zero ip d o (==→≡ _ _ z))
        | inr z ↦
            let low = (i.data_blocks (o / bsize) (omega arith) (==→≢ _ _ z)).low in
            let e : (b == slot ip d (o / bsize)) ≡ false = ≢→== _ _ (λ e. absurd (omega arith)) in
            content_at ip (update d b m) o (slot ip d (o / bsize)) s (==→≢ _ _ z)
            ∙ rw e (sym (content_at ip d o (slot ip d (o / bsize)) refl (==→≢ _ _ z)))
      ]

  pub front-IsMapped : IsMapped sb ip (update d b m)
  front-IsMapped = record {
    small = i.small;
    reserved = λ y u. front_marks y ∙ i.reserved y u;
    data_blocks = λ j u n.
        let s = front_slot j u in
        let old = i.data_blocks j u (λ z. n (s ∙ z)) in
        subst (IsData sb (update d b m)) (sym s)
          (record { low = old.low; high = old.high; used = front_marks (slot ip d j) ∙ old.used });
    apart = λ j k u v e n.
        i.apart j k u v (sym (front_slot j u) ∙ e ∙ front_slot k v) (λ z. n (front_slot j u ∙ z));
  }

-- The length of the file plays no part in its blocks.
pub resized-IsMapped :
    (sb : Super) (ip : Inode) (d : Blocks) (n : ℕ)
    → IsMapped sb ip d
    → IsMapped sb (record ip { size = n }) d
unfolding slot
resized-IsMapped sb ip d n i = record {
  small = i.small;
  reserved = i.reserved;
  data_blocks = i.data_blocks;
  apart = i.apart;
}

pub resized_bytes :
    (ip : Inode) (d : Blocks) (n o : ℕ) → content (record ip { size = n }) d o ≡ content ip d o
unfolding slot content
resized_bytes ip d n o = refl

pub resized_slot :
    (ip : Inode) (d : Blocks) (n k : ℕ) → slot (record ip { size = n }) d k ≡ slot ip d k
unfolding slot
resized_slot ip d n k = refl
