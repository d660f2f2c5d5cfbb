-- ===== src/Log.antt =====
-- projects/xv6/log.c: the write-ahead log of the file system, over a disk that may lose power
-- between any two block writes.
-- A block is its 32-bit words. The buffer cache is seen through its contract: `bread` gives the
-- contents of a buffer that B_DIRTY pins in the cache, and of the disk block elsewhere, and panics
-- where it needs a buffer and all NBUF are busy, that is dirty or held; `bwrite` writes the disk and
-- leaves the buffer clean; `brelse` gives a clean buffer back. A second `bread` of a block that is
-- still held sleeps for ever.
-- `budget` counts the block writes that the disk still makes before the power fails.
pub mod Outcomes
pub mod Replay
pub mod Install
pub mod Header
pub mod Settle
pub mod Commit
pub mod Recover
pub mod Write
pub mod Power
pub mod Reserve
mod Tests
use compiling_to_assembly.Prelude.{
  ℕ, zero, suc, ◌+◌, ◌-◌, ◌*◌, ◌^◌, ◌%◌, Bool, true, false, ◌||◌, ◌==◌, Option, none, some, ltb,
  leb, if◌then◌else◌, update,
}

abbrev pub max_op_blocks : ℕ
max_op_blocks = 10

abbrev pub log_size : ℕ
log_size = max_op_blocks * 3

-- `struct buf`'s data: BSIZE / 4 words, by index
abbrev pub Block : Type 0
Block = ℕ → ℕ

abbrev pub Disk : Type 0
Disk = ℕ → Block

-- `struct log` with its `struct logheader`; an `int` that is never negative is a number.
pub record Log : Type 0 where
  pub start : ℕ
  pub size : ℕ
  pub outstanding : ℕ
  pub committing : Bool
  pub n : ℕ
  pub block : ℕ → ℕ

pub record State : Type 0 where
  pub disk : Disk
  pub pinned : ℕ → Option Block
  pub log : Log
  pub budget : ℕ
  pub busy : ℕ

-- `crashed` holds the disk as the power failure leaves it; `asleep` waits for a lock that it holds, and
-- `overrun` writes behind the end of an array.
pub data Outcome (A : Type 0) : Type 0 where
  ok : A → State → Outcome A
  panic asleep overrun : Outcome A
  crashed : Disk → Outcome A

abbrev pub Run : Type 0 → Type 0
Run A = State → Outcome A

abbrev pub pure : {A : Type 0} → A → Run A
pure a s = ok a s

abbrev pub and_then : {A B : Type 0} → Outcome A → (A → Run B) → Outcome B
and_then (ok a s) f = f a s
and_then panic f = panic
and_then asleep f = asleep
and_then overrun f = overrun
and_then (crashed d) f = crashed d

infixl 5 ◌>>=◌ ◌>>◌
abbrev pub ◌>>=◌ : {A B : Type 0} → Run A → (A → Run B) → Run B
◌>>=◌ m f s = and_then (m s) f

abbrev pub ◌>>◌ : {B : Type 0} → Run (Unit {0}) → Run B → Run B
m >> k = m >>= λ _. k

abbrev pub get : Run State
get s = ok s s

-- what the file system sees of block `b`
abbrev pub view : State → ℕ → Block
view s b = elim (s.pinned b) [ none ↦ s.disk b | some data' ↦ data' ]

-- the buffers of the cache
abbrev pub nbuf : ℕ
nbuf = 30

pub bread : ℕ → Run Block
bread b s = elim (s.pinned b) [
  | some contents ↦ ok contents s
  | none ↦ elim (leb nbuf (s.busy)) [
    | true ↦ panic
    | false ↦ ok (s.disk b) (record s { busy = s.busy + 1 })
  ]
]

-- `bread` of a block while the caller holds block `a`
pub bread_beside : ℕ → ℕ → Run Block
unfolding bread
bread_beside a b s = elim (a == b) [ true ↦ asleep | false ↦ bread b s ]

pub brelse : ℕ → Run (Unit {0})
brelse b s = elim (s.pinned b) [
  | some contents ↦ ok tt s
  | none ↦ ok tt (record s { busy = s.busy - 1 })
]

pub bwrite : ℕ → Block → Run (Unit {0})
bwrite b contents s = elim (s.budget) [
  | zero ↦ crashed (s.disk)
  | suc k ↦ ok tt (record s {
    disk = update (s.disk) b contents;
    pinned = update (s.pinned) b none;
    budget = k;
  })
]

abbrev pub set_log : Log → Run (Unit {0})
set_log l s = ok tt (record s { log = l })

-- The body of the loop of `install_trans`.
pub install_block : ℕ → ℕ → Run (Unit {0})
unfolding bread bread_beside bwrite brelse
install_block from home = do
  lbuf ← bread from
  dbuf ← bread_beside from home
  bwrite home lbuf
  brelse from
  brelse home

-- The loop of `install_trans` from `tail`, with the rounds left.
pub install_loop : ℕ → ℕ → Run (Unit {0})
unfolding install_block
install_loop zero tail = pure tt
install_loop (suc k) tail = do
  s ← get
  install_block (s.log.start + tail + 1) (s.log.block tail)
  install_loop k (tail + 1)

-- `install_trans`
pub install_trans : Run (Unit {0})
unfolding install_loop
install_trans s = install_loop (s.log.n) 0 s

-- The loop of `read_head`: `log.lh.block[i] = lh->block[i]`, where word 0 of the header is `n`.
pub read_blocks : Block → ℕ → ℕ → (ℕ → ℕ) → ℕ → ℕ
read_blocks lh zero i block = block
read_blocks lh (suc k) i block = read_blocks lh k (i + 1) (update block i (lh (i + 1)))

-- `log.lh.n` as the header gives it: a negative `int` runs no loop, as 0 does.
abbrev pub header_count : Block → ℕ
header_count lh = if leb (2 ^ 31) (lh 0) then 0 else lh 0

-- `read_head` behind its `bread`; the array `log.lh.block` has LOGSIZE words.
pub take_head : Block → Run (Unit {0})
unfolding read_blocks
take_head lh s = elim (ltb log_size (header_count lh)) [
  | true ↦ overrun
  | false ↦
      set_log
        (record (s.log) {
          n = header_count lh;
          block = read_blocks lh (header_count lh) 0 (s.log.block);
        })
        s
]

pub read_head : Run (Unit {0})
unfolding bread take_head brelse
read_head = do s ← get; lh ← bread s.log.start; take_head lh; brelse s.log.start

-- The loop of `write_head`: `hb->block[i] = log.lh.block[i]`.
pub write_blocks : (ℕ → ℕ) → ℕ → ℕ → Block → Block
write_blocks block zero i hb = hb
write_blocks block (suc k) i hb = write_blocks block k (i + 1) (update hb (i + 1) (block i))

pub write_head : Run (Unit {0})
unfolding bread bwrite brelse write_blocks
write_head = do
  s ← get
  hb ← bread s.log.start
  bwrite (s.log.start) (write_blocks (s.log.block) (s.log.n) 0 (update hb 0 (s.log.n)))
  brelse s.log.start

-- `log.lh.n = 0`
pub clear_n : Run (Unit {0})
clear_n s = set_log (record (s.log) { n = 0 }) s

pub recover_from_log : Run (Unit {0})
unfolding read_head install_trans clear_n write_head
recover_from_log = do read_head; install_trans; clear_n; write_head

-- `initlog`, where a `struct logheader` fits in a block. `readsb` copies the superblock, whose
-- words 3 and 4 are `nlog` and `logstart`.
pub initlog : Run (Unit {0})
unfolding bread brelse recover_from_log
initlog = do
  s ← get
  sb ← bread 1
  brelse 1
  set_log (record (s.log) { start = sb 4; size = sb 3 })
  recover_from_log

-- The body of the loop of `write_log`.
pub log_block : ℕ → ℕ → Run (Unit {0})
unfolding bread bread_beside bwrite brelse
log_block to home = do
  old ← bread to
  from ← bread_beside to home
  bwrite to from
  brelse home
  brelse to

-- The loop of `write_log` from `tail`, with the rounds left.
pub write_log_loop : ℕ → ℕ → Run (Unit {0})
unfolding log_block
write_log_loop zero tail = pure tt
write_log_loop (suc k) tail = do
  s ← get
  log_block (s.log.start + tail + 1) (s.log.block tail)
  write_log_loop k (tail + 1)

pub write_log : Run (Unit {0})
unfolding write_log_loop
write_log s = write_log_loop (s.log.n) 0 s

pub commit : Run (Unit {0})
unfolding write_log write_head install_trans clear_n
commit s =
    if ltb 0 (s.log.n)
    then (do write_log; write_head; install_trans; clear_n; write_head) s
    else ok tt s

-- One pass of the loop of `begin_op` under `log.lock`; `none` where the caller goes to sleep.
pub begin_op : Log → Option Log
begin_op l =
    if l.committing
    then none
    else if ltb log_size (l.n + (l.outstanding + 1) * max_op_blocks)
    then none
    else some (record l { outstanding = l.outstanding + 1 })

-- The first part of `end_op`, up to the release of `log.lock`: `none` is the panic, and the flag is
-- `do_commit`. The decrement wraps below 0.
pub end_enter : Log → Option (Bool × Log)
end_enter l =
    let left = (l.outstanding + 2 ^ 32 - 1) % 2 ^ 32 in
    if l.committing
    then none
    else if left == 0
    then some (true, record l { outstanding = left; committing = true })
    else some (false, record l { outstanding = left })

-- The last part of `end_op`, after `commit`.
pub end_leave : Run (Unit {0})
end_leave s = set_log (record (s.log) { committing = false }) s

pub end_op : Run (Unit {0})
unfolding end_enter commit end_leave
end_op s = elim (end_enter (s.log)) [
  | none ↦ panic
  | some (do_commit, l) ↦
      if do_commit
      then (do commit; end_leave) (record s { log = l })
      else ok tt (record s { log = l })
]

-- The search of `log_write` for a block that is logged already, with the rounds left.
pub find_slot : (ℕ → ℕ) → ℕ → ℕ → ℕ → ℕ
find_slot block b zero i = i
find_slot block b (suc k) i = elim (block i == b) [ true ↦ i | false ↦ find_slot block b k (i + 1) ]

-- `log_write` of the buffer of block `b`, whose data the caller has set to `contents`. `size - 1`
-- is written out for a size of 0, which C takes to -1.
pub log_write : ℕ → Block → Run (Unit {0})
unfolding find_slot
log_write b contents s =
    let l = s.log in
    let i = find_slot (l.block) b (l.n) 0 in
    if leb log_size (l.n) || leb (l.size) (l.n + 1)
    then panic
    else if ltb (l.outstanding) 1
    then panic
    else ok tt (record s {
      pinned = update (s.pinned) b (some contents);
      log = record l { block = update (l.block) i b; n = if i == l.n then l.n + 1 else l.n };
    })
