-- ===== src/Kalloc/Words.antt =====
-- Words in memory: a load after a store, and the memory that a freed page leaves.
use compiling_to_assembly.Prelude.{ℕ, ◌+◌, ◌^◌, ◌≤◌, ◌<◌, ◌≡◌, ◌⊎◌, arith}
use compiling_to_assembly.StringOps.{Memory, memset, store_word}
use compiling_to_assembly.StringOps.Copy.{memset_lem}
use compiling_to_assembly.Kalloc.{pgsize, load_word}

pub load_word-store_word : (m : Memory) (a w : ℕ) → w < 2 ^ 32 → load_word (store_word m a w) a ≡ w
unfolding load_word store_word
load_word-store_word m a w h = ground arith

-- A store leaves every address outside its four bytes.
pub store_word-frame : (m : Memory) (a w x : ℕ) → (x < a) ⊎ (a + 4 ≤ x) → store_word m a w x ≡ m x
unfolding store_word
store_word-frame m a w x h = ground arith

-- the memory behind `kfree`
abbrev pub freed_mem : Memory → ℕ → ℕ → Memory
freed_mem m v w = store_word (memset m v 1 pgsize) v w

pub freed_mem-frame :
    (m : Memory) (v w x : ℕ) → (x < v) ⊎ (v + pgsize ≤ x) → freed_mem m v w x ≡ m x
freed_mem-frame m v w x h =
    ground (arith, store_word-frame (memset m v 1 pgsize) v w x, memset_lem m v 1 pgsize x)

pub freed_mem-junk : (m : Memory) (v w x : ℕ) → v + 4 ≤ x → x < v + pgsize → freed_mem m v w x ≡ 1
freed_mem-junk m v w x h k =
    ground (arith, store_word-frame (memset m v 1 pgsize) v w x, memset_lem m v 1 pgsize x)

pub load_word-freed_mem :
    (m : Memory) (v w u : ℕ)
    → (u + 4 ≤ v) ⊎ (v + pgsize ≤ u)
    → load_word (freed_mem m v w) u ≡ load_word m u
unfolding load_word
load_word-freed_mem m v w u h = ground (
  arith,
  freed_mem-frame m v w u,
  freed_mem-frame m v w (u + 1),
  freed_mem-frame m v w (u + 2),
  freed_mem-frame m v w (u + 3),
)

pub load_word-zero :
    (m : Memory) (n a : ℕ) → ((x : ℕ) → x < n → m x ≡ 0) → a + 4 ≤ n → load_word m a ≡ 0
unfolding load_word
load_word-zero m n a h l =
    let b0 = h a (omega arith) in
    let b1 = h (a + 1) (omega arith) in
    let b2 = h (a + 2) (omega arith) in let b3 = h (a + 3) (omega arith) in omega arith

-- A load beside a store.
pub load_word-beside :
    (m : Memory) (a w u : ℕ)
    → (u + 4 ≤ a) ⊎ (a + 4 ≤ u)
    → load_word (store_word m a w) u ≡ load_word m u
unfolding load_word
load_word-beside m a w u h = ground (
  arith,
  store_word-frame m a w u,
  store_word-frame m a w (u + 1),
  store_word-frame m a w (u + 2),
  store_word-frame m a w (u + 3),
)

pub load_word-same :
    (m m' : Memory) (a : ℕ)
    → ((i : ℕ) → i < 4 → m (a + i) ≡ m' (a + i))
    → load_word m a ≡ load_word m' a
unfolding load_word
load_word-same m m' a h =
    let z : a + 0 ≡ a = omega arith in
    let h0 = rw z at (h 0 (omega arith)) in
    let h1 = h 1 (omega arith) in
    let h2 = h 2 (omega arith) in let h3 = h 3 (omega arith) in omega arith
