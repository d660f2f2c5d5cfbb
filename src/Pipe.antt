-- ===== src/Pipe.antt =====
-- projects/xv6/pipe.c: a pipe as a ring of PIPESIZE bytes under free-running 32-bit counters.
-- Each function is what runs under `p->lock` from its acquisition, or from the return of `sleep`, to
-- its release or to the next `sleep`; the wakeups that it makes are listed in order.
pub mod Contents
pub mod Refine
pub mod Stream
mod Tests
use compiling_to_assembly.Prelude.{
  ℕ, zero, suc, ◌+◌, ◌%◌, ◌^◌, Bool, true, false, ◌&&◌, ◌||◌, not, List, [], ◌∷◌, ◌==◌,
  if◌then◌else◌, update,
}

abbrev pub pipe_size : ℕ
pipe_size = 512

-- `uint` addition
abbrev pub add_uint : ℕ → ℕ → ℕ
add_uint a b = (a + b) % 2 ^ 32

-- `struct pipe`, without its lock
pub record Pipe : Type 0 where
  pub bytes : ℕ → ℕ
  pub nread : ℕ
  pub nwrite : ℕ
  pub readopen : Bool
  pub writeopen : Bool

-- the channels `&p->nread` and `&p->nwrite`
pub data Channel : Type 0 where
  readers writers : Channel

-- What `pipealloc` sets in a new page; the bytes are whatever the page holds.
pub init : (ℕ → ℕ) → Pipe
init page = record { bytes = page; nread = 0; nwrite = 0; readopen = true; writeopen = true }

-- How a call stands when it leaves the lock: `wrote` and `broken` return `n` and -1, and `asleep`
-- holds the bytes still to write.
pub data WriteEnd : Type 0 where
  wrote broken : WriteEnd
  asleep : List ℕ → WriteEnd

pub record Written : Type 0 where
  pub pipe : Pipe
  pub result : WriteEnd
  pub wakes : List Channel

pub is_full : Pipe → Bool
is_full p = p.nwrite == add_uint (p.nread) pipe_size

-- `p->data[p->nwrite++ % PIPESIZE] = addr[i]`
pub put : Pipe → ℕ → Pipe
put p c = record p {
  bytes = update (p.bytes) (p.nwrite % pipe_size) c;
  nwrite = add_uint (p.nwrite) 1;
}

-- `pipewrite` on the bytes that remain.
pub pipewrite : Bool → Pipe → List ℕ → Written
unfolding is_full put
pipewrite killed p [] = record { pipe = p; result = wrote; wakes = readers ∷ [] }
pipewrite killed p (c ∷ cs) =
    let rest = pipewrite killed (put p c) cs in
    if is_full p
    then (if not (p.readopen) || killed
        then record { pipe = p; result = broken; wakes = [] }
        else record { pipe = p; result = asleep (c ∷ cs); wakes = readers ∷ [] })
    else rest

-- `got` is the bytes copied out, whose number is returned; `interrupted` returns -1.
pub data ReadEnd : Type 0 where
  got : List ℕ → ReadEnd
  interrupted waiting : ReadEnd

pub record Taken : Type 0 where
  pub pipe : Pipe
  pub result : ReadEnd
  pub wakes : List Channel

pub is_empty : Pipe → Bool
is_empty p = p.nread == p.nwrite

-- The copying loop of `piperead`: the pipe and the bytes copied.
pub copy_out : Pipe → ℕ → Pipe × List ℕ
unfolding is_empty
copy_out p zero = (p, [])
copy_out p (suc n) = elim (is_empty p) [
  | true ↦ (p, [])
  | false ↦
      let (q, out) = copy_out (record p { nread = add_uint (p.nread) 1 }) n in
      (q, p.bytes (p.nread % pipe_size) ∷ out)
]

-- `piperead`
pub piperead : Bool → Pipe → ℕ → Taken
unfolding copy_out
piperead killed p n =
    if is_empty p && p.writeopen
    then (if killed
        then record { pipe = p; result = interrupted; wakes = [] }
        else record { pipe = p; result = waiting; wakes = [] })
    else let (q, out) = copy_out p n in record { pipe = q; result = got out; wakes = writers ∷ [] }

pub record Closed : Type 0 where
  pub pipe : Pipe
  pub freed : Bool
  pub wakes : List Channel

-- `pipeclose`: `freed` where the page goes back to `kfree`.
pub pipeclose : Pipe → Bool → Closed
pipeclose p writable =
    let q = if writable then record p { writeopen = false } else record p { readopen = false } in
    record {
      pipe = q;
      freed = not (q.readopen) && not (q.writeopen);
      wakes = if writable then readers ∷ [] else writers ∷ [];
    }
