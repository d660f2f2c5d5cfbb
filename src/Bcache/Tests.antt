-- ===== src/Bcache/Tests.antt =====
-- The buffer cache behind a few calls, and the theorems at it.
use compiling_to_assembly.Prelude.{
  ℕ, ◌+◌, ◌≡◌, refl, false, true, none, List, ◌∷◌, ◌++◌, arith, update,
}
use compiling_to_assembly.Proc.{Table, unused, null}
use compiling_to_assembly.Bcache.{
  Buf, Bcache, binit, bget, brelse, Got, buffer, no_buffers, out_of_rounds, drop_buf,
}
use compiling_to_assembly.Bcache.Get.{IsValid, Gets}
use compiling_to_assembly.Bcache.Release.{Releases}
use compiling_to_assembly.Bcache.Reach.{Reach, boots, gets, changes, one_buffer, last_release}

abbrev no_block : Buf
no_block = record {
  valid = false;
  dirty = false;
  dev = 0;
  blockno = 0;
  lock = record { locked = false; pid = 0 };
  refcnt = 0;
}

abbrev at_boot : Bcache
at_boot = record { buf = λ b. no_block; next = λ b. 0; prev = λ b. 0 }

abbrev cache_of : Got → Bcache
cache_of (buffer b s) = s
cache_of no_buffers = at_boot
cache_of out_of_rounds = at_boot

abbrev buffer_of : Got → ℕ
buffer_of (buffer b s) = b
buffer_of no_buffers = 99
buffer_of out_of_rounds = 99

-- block 5 in a buffer
abbrev one_block : Bcache
one_block = cache_of (bget 1 5 (binit at_boot))

-- The first buffer is recycled first, the same block gives the same buffer, and another block another.
first_blocks :
    (buffer_of (bget 1 5 (binit at_boot)) ≡ 0)
    × (buffer_of (bget 1 5 one_block) ≡ 0)
    × (buffer_of (bget 1 6 one_block) ≡ 1)
    × (((cache_of (bget 1 5 one_block)).buf 0).refcnt ≡ 2)
unfolding bget binit
first_blocks = (refl, refl, refl, refl)

-- A released buffer goes to the front, where it is recycled last.
released_first : ((drop_buf 0 one_block).next 30 ≡ 0) × ((drop_buf 0 one_block).prev 30 ≡ 1)
unfolding bget binit drop_buf
released_first = (refl, refl)

abbrev address : ℕ → ℕ
address b = 1000 + b

one_block-Reach : Reach address one_block
unfolding bget binit
one_block-Reach =
    gets (binit at_boot) one_block 1 5 0 (boots at_boot (λ j. refl)) (ground arith) refl

one_buffer_example :
    (xs : List ℕ) × IsValid one_block xs × Gets 1 5 one_block xs (bget 1 5 one_block)
one_buffer_example = one_buffer address one_block 1 5 one_block-Reach

-- process 4 holds the buffer's lock
abbrev locked_buf : Buf
locked_buf = record (one_block.buf 0) { lock = record { locked = true; pid = 4 } }

abbrev held : Bcache
held = record one_block { buf = update (one_block.buf) 0 locked_buf }

held-Reach : Reach address held
held-Reach = changes one_block 0 locked_buf one_block-Reach refl refl refl

abbrev sleepers : Table
sleepers = record {
  proc = λ i. record {
    size = 0;
    pgdir = 0;
    kstack = 0;
    state = unused;
    pid = 0;
    parent = none;
    chan = null;
    killed = false;
    ofile = λ k. 0;
    cwd = 0;
  };
  nextpid = 1;
  initproc = 0;
}

last_release_example :
    (us : List ℕ) × (vs : List ℕ) × IsValid held (us ++ 0 ∷ vs)
    × Releases address 4 0 held us vs sleepers (brelse address 4 0 held sleepers)
unfolding bget binit
last_release_example =
    last_release address 4 0 held sleepers held-Reach (omega arith) (ground arith) (ground arith)
