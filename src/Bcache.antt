-- ===== src/Bcache.antt =====
-- projects/xv6/bio.c: the buffer cache. The links of the buffers are two functions on their indices, and
-- the head of the list is index NBUF. A buffer's data is left to the disk driver, which `bread` and
-- `bwrite` call.
pub mod Ring
pub mod Scan
pub mod Get
pub mod Release
pub mod Reach
mod Tests
use compiling_to_assembly.Prelude.{
  ℕ, zero, suc, ◌+◌, ◌-◌, ◌%◌, ◌^◌, Bool, true, false, ◌&&◌, not, Option, none, some, ◌==◌,
  if◌then◌else◌, update,
}
use compiling_to_assembly.Proc.{Table}
use compiling_to_assembly.Sleeplock.{SleepLock, initsleeplock, holdingsleep, releasesleep}

abbrev pub nbuf : ℕ
nbuf = 30

-- `struct buf` without its links and data. `valid` and `dirty` are the bits of `flags`.
pub record Buf : Type 0 where
  pub valid : Bool
  pub dirty : Bool
  pub dev : ℕ
  pub blockno : ℕ
  pub lock : SleepLock
  pub refcnt : ℕ

-- `bcache`
pub record Bcache : Type 0 where
  pub buf : ℕ → Buf
  pub next : ℕ → ℕ
  pub prev : ℕ → ℕ

-- `&bcache.head`
abbrev pub head : ℕ
head = nbuf

-- The four assignments that put `b` in front of the list.
pub push_front : ℕ → Bcache → Bcache
push_front b s =
    let n = update (s.next) b (s.next head) in
    let p = update (s.prev) b head in
    record s { next = update n head b; prev = update p (n head) b }

-- The two assignments that take `b` out of the list.
pub unlink : ℕ → Bcache → Bcache
unlink b s =
    let p = update (s.prev) (s.next b) (s.prev b) in
    record s { next = update (s.next) (p b) (s.next b); prev = p }

-- The loop of `binit` from buffer `b` on, with the rounds left.
pub init_loop : ℕ → ℕ → Bcache → Bcache
unfolding push_front initsleeplock
init_loop zero b s = s
init_loop (suc k) b s =
    init_loop k (b + 1) (
      push_front b
        (record s { buf = update (s.buf) b (record (s.buf b) { lock = initsleeplock }) }))

-- `binit`
pub binit : Bcache → Bcache
unfolding init_loop
binit s =
    init_loop nbuf 0
      (record s { next = update (s.next) head head; prev = update (s.prev) head head })

-- How a loop over the list ends: at a buffer, at the head, or without rounds left.
pub data Search : Type 0 where
  stops : ℕ → Search
  passes lost : Search

-- A loop over the list from `b` on, along `next` or `prev`, to the first buffer that passes a test.
pub scan : (ℕ → ℕ) → (ℕ → Bool) → ℕ → ℕ → Search
scan step test zero b = lost
scan step test (suc k) b = elim (b == head) [
  | true ↦ passes
  | false ↦ elim (test b) [ true ↦ stops b | false ↦ scan step test k (step b) ]
]

-- the tests of the two loops of `bget`
abbrev pub holds : ℕ → ℕ → Bcache → ℕ → Bool
holds dev blockno s b = ((s.buf b).dev == dev) && ((s.buf b).blockno == blockno)

abbrev pub unused : Bcache → ℕ → Bool
unused s b = ((s.buf b).refcnt == 0) && not ((s.buf b).dirty)

-- How `bget` ends, up to its `acquiresleep`.
pub data Got : Type 0 where
  buffer : ℕ → Bcache → Got
  no_buffers out_of_rounds : Got

-- The second loop of `bget` behind its scan: the panic, or the recycled buffer.
pub recycle : ℕ → ℕ → Bcache → Search → Got
recycle dev blockno s (stops b) = buffer b (record s {
  buf =
      update (s.buf) b (record (s.buf b) {
        dev = dev;
        blockno = blockno;
        valid = false;
        dirty = false;
        refcnt = 1;
      });
})
recycle dev blockno s passes = no_buffers
recycle dev blockno s lost = out_of_rounds

-- The first loop of `bget` behind its scan.
pub get_cached : ℕ → ℕ → Bcache → Search → Got
unfolding scan recycle
get_cached dev blockno s (stops b) = buffer b (record s {
  buf = update (s.buf) b (record (s.buf b) { refcnt = ((s.buf b).refcnt + 1) % 2 ^ 32 });
})
get_cached dev blockno s passes =
    recycle dev blockno s (scan (s.prev) (unused s) (nbuf + 1) (s.prev head))
get_cached dev blockno s lost = out_of_rounds

-- `bget`: a loop ends after as many rounds as there are links.
pub bget : ℕ → ℕ → Bcache → Got
unfolding get_cached
bget dev blockno s =
    get_cached dev blockno s (scan (s.next) (holds dev blockno s) (nbuf + 1) (s.next head))

-- The part of `brelse` under the lock of the cache.
pub drop_buf : ℕ → Bcache → Bcache
unfolding push_front unlink
drop_buf b s =
    let r = ((s.buf b).refcnt + 2 ^ 32 - 1) % 2 ^ 32 in
    let s' = record s { buf = update (s.buf) b (record (s.buf b) { refcnt = r }) } in
    if r == 0 then push_front b (unlink b s') else s'

-- `brelse` by a process with pid `me`; `addr` gives the address of a buffer's lock, and `none` is the
-- panic.
pub brelse : (ℕ → ℕ) → ℕ → ℕ → Bcache → Table → Option (Bcache × Table)
unfolding drop_buf holdingsleep releasesleep
brelse addr me b s t = elim (holdingsleep me ((s.buf b).lock)) [
  | false ↦ none
  | true ↦
      let r = releasesleep (addr b) ((s.buf b).lock) t in
      some (drop_buf b (record s { buf = update (s.buf) b (record (s.buf b) { lock = r.0 }) }), r.1)
]

-- `bwrite`, and the end of `bread` once the buffer is locked, over the driver's `iderw`.
module _ (iderw : ℕ → Bcache → Bcache) where
  pub bread_end : ℕ → Bcache → Bcache
  bread_end b s = if (s.buf b).valid then s else iderw b s

  pub bwrite : ℕ → ℕ → Bcache → Option Bcache
  unfolding holdingsleep
  bwrite me b s = elim (holdingsleep me ((s.buf b).lock)) [
    | false ↦ none
    | true ↦
        some (iderw b (record s { buf = update (s.buf) b (record (s.buf b) { dirty = true }) }))
  ]
