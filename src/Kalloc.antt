-- ===== src/Kalloc.antt =====
-- projects/xv6/kalloc.c: the allocator of physical pages, whose free list runs through the free
-- pages themselves, over the memory of StringOps. Addresses are those of the 32-bit kernel.
-- `kmem.lock` is taken round the list operations once `use_lock` is set: each of `kfree` and
-- `kalloc` is one atomic step on the list.
pub mod Words
pub mod Chain
pub mod Range
mod Tests
use compiling_to_assembly.Prelude.{
  ℕ, zero, suc, ◌+◌, ◌-◌, ◌*◌, ◌/◌, ◌%◌, ◌^◌, Bool, true, false, ◌||◌, not, Option, none, some,
  ◌==◌, ltb, leb, if◌then◌else◌,
}
use compiling_to_assembly.StringOps.{Memory, memset, store_word}

abbrev pub pgsize : ℕ
pgsize = 4096

abbrev pub kernbase : ℕ
kernbase = 0x80000000

abbrev pub phystop : ℕ
phystop = 0xE000000

-- `V2P`, in `uint` arithmetic
abbrev pub v2p : ℕ → ℕ
v2p a = (a + 2 ^ 32 - kernbase) % 2 ^ 32

-- `PGROUNDUP`: adding PGSIZE - 1 and clearing the low 12 bits
pub pg_round_up : ℕ → ℕ
pg_round_up a = let s = (a + pgsize - 1) % 2 ^ 32 in s - s % pgsize

-- One little-endian 32-bit load.
pub load_word : Memory → ℕ → ℕ
load_word m a = m a + m (a + 1) * 2 ^ 8 + m (a + 2) * 2 ^ 16 + m (a + 3) * 2 ^ 24

-- `kmem` and the memory that its list runs through; `freelist` is 0 where the list is empty.
pub record Kmem : Type 0 where
  pub mem : Memory
  pub use_lock : Bool
  pub freelist : ℕ

-- `end` is the linker's `end[]`, the first address after the kernel.
module _ (end : ℕ) where
  -- `kfree`; `none` is the panic.
  pub kfree : Kmem → ℕ → Option Kmem
  kfree k v =
      if not (v % pgsize == 0) || ltb v end || leb phystop (v2p v)
      then none
      else some
          (record k { mem = store_word (memset (k.mem) v 1 pgsize) v (k.freelist); freelist = v })

  -- The loop of `freerange`, with fuel; pointers past the end of the address space do not arise.
  pub free_loop : ℕ → Kmem → ℕ → ℕ → Option Kmem
  unfolding kfree
  free_loop zero k p vend = none
  free_loop (suc fuel) k p vend = elim (leb (p + pgsize) vend) [
    | false ↦ some k
    | true ↦ elim (kfree k p) [ none ↦ none | some k' ↦ free_loop fuel k' (p + pgsize) vend ]
  ]

  -- `freerange`
  pub freerange : ℕ → Kmem → ℕ → ℕ → Option Kmem
  unfolding free_loop pg_round_up
  freerange fuel k vstart vend = free_loop fuel k (pg_round_up vstart) vend

  pub kinit1 : ℕ → Kmem → ℕ → ℕ → Option Kmem
  unfolding freerange
  kinit1 fuel k vstart vend = freerange fuel (record k { use_lock = false }) vstart vend

  pub kinit2 : ℕ → Kmem → ℕ → ℕ → Option Kmem
  unfolding freerange
  kinit2 fuel k vstart vend = elim (freerange fuel k vstart vend) [
    | none ↦ none
    | some k' ↦ some (record k' { use_lock = true })
  ]

-- `kalloc`: the page, or 0.
pub kalloc : Kmem → Kmem × ℕ
unfolding load_word
kalloc k =
    if k.freelist == 0
    then (k, 0)
    else (record k { freelist = load_word (k.mem) (k.freelist) }, k.freelist)
