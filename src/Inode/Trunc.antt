-- ===== src/Inode/Trunc.antt =====
-- `itrunc` of fs.c, and what it leaves of an inode.
use compiling_to_assembly.Prelude.{
  ℕ, zero, suc, ◌+◌, ◌≡◌, refl, true, false, ◌==◌, update, Bool-cases, inl, inr,
}
use compiling_to_assembly.Fs.{Super, Blocks, Attempt, returns, panics, and_then, bfree}
use compiling_to_assembly.Inode.{
  Inode, free_direct, free_entries, itrunc, iupdate, ndirect, nindirect,
}

-- What stays of an inode while it is locked: its identity and its references.
pub record SameInode (ip ip' : Inode) : Type 0 where
  pub dev : ip'.dev ≡ ip.dev
  pub inum : ip'.inum ≡ ip.inum
  pub ref : ip'.ref ≡ ip.ref

pub data Keeps (ip : Inode) : Attempt Inode → Type 0 where
  keeps : (ip' : Inode) (d : Blocks) → SameInode ip ip' → Keeps ip (returns ip' d)
  halts : (d : Blocks) → Keeps ip (panics d)

after_free :
    {A : Type 0} (ip : Inode) (r : Attempt A) (f : A → Blocks → Attempt Inode)
    → ((a : A) (d : Blocks) → Keeps ip (f a d))
    → Keeps ip (and_then r f)
after_free ip (returns a d) f h = h a d
after_free ip (panics d) f h = halts d

free_direct-Keeps :
    (sb : Super) (k i : ℕ) (ip0 ip : Inode) (d : Blocks)
    → SameInode ip0 ip
    → Keeps ip0 (free_direct sb k i ip d)
unfolding free_direct
free_direct-Keeps sb zero i ip0 ip d s = keeps ip d s
free_direct-Keeps sb (suc k) i ip0 ip d s = elim (Bool-cases (ip.addrs i == 0)) [
  | inl e ↦ rw (free_direct, e) (free_direct-Keeps sb k (i + 1) ip0 ip d s)
  | inr e ↦
      rw (free_direct, e)
        (after_free ip0 (bfree sb (ip.addrs i) d)
          (λ u d'. free_direct sb k (i + 1) (record ip { addrs = update (ip.addrs) i 0 }) d')
          (λ u d'.
            free_direct-Keeps sb k (i + 1) ip0 (record ip { addrs = update (ip.addrs) i 0 }) d'
              (record { dev = s.dev; inum = s.inum; ref = s.ref })))
]

indirect_freed :
    (sb : Super) (ip0 ip : Inode) (d : Blocks)
    → SameInode ip0 ip
    → Keeps ip0 (elim (ip.addrs ndirect == 0) [
      | true ↦ returns ip d
      | false ↦ and_then (free_entries sb nindirect 0 (ip.addrs ndirect) d) (λ u e.
          and_then
            (bfree sb (ip.addrs ndirect) e)
            (λ u e'. returns (record ip { addrs = update (ip.addrs) ndirect 0 }) e'))
    ])
indirect_freed sb ip0 ip d s = elim (Bool-cases (ip.addrs ndirect == 0)) [
  | inl e ↦ rw e (keeps ip d s)
  | inr e ↦ rw e (
      after_free ip0 (free_entries sb nindirect 0 (ip.addrs ndirect) d) _ (λ u e.
        after_free ip0 (bfree sb (ip.addrs ndirect) e) _ (λ u e'.
          keeps (record ip { addrs = update (ip.addrs) ndirect 0 }) e'
            (record { dev = s.dev; inum = s.inum; ref = s.ref }))))
]

resized :
    (sb : Super) (ip0 : Inode) (r : Attempt Inode)
    → Keeps ip0 r
    → Keeps ip0 (
        and_then r (λ ip2 d2.
          let done = record ip2 { size = 0 } in
          and_then (iupdate sb done d2) (λ u e. returns done e)))
resized sb ip0 r (keeps ip d s) =
    after_free ip0 (iupdate sb (record ip { size = 0 }) d) _
      (λ u e. keeps (record ip { size = 0 }) e (record { dev = s.dev; inum = s.inum; ref = s.ref }))
resized sb ip0 r (halts d) = halts d

then_indirect :
    (sb : Super) (ip0 : Inode) (r : Attempt Inode) (f : Inode → Blocks → Attempt Inode)
    → Keeps ip0 r
    → ((ip : Inode) (d : Blocks) → SameInode ip0 ip → Keeps ip0 (f ip d))
    → Keeps ip0 (and_then r f)
then_indirect sb ip0 r f (keeps ip d s) h = h ip d s
then_indirect sb ip0 r f (halts d) h = halts d

pub itrunc-Keeps : (sb : Super) (ip : Inode) (d : Blocks) → Keeps ip (itrunc sb ip d)
unfolding itrunc
itrunc-Keeps sb ip d =
    then_indirect sb ip (free_direct sb ndirect 0 ip d) _
      (free_direct-Keeps sb ndirect 0 ip ip d (record { dev = refl; inum = refl; ref = refl }))
      (λ ip' d' s. resized sb ip _ (indirect_freed sb ip ip' d' s))
