-- ===== src/Pipe/Tests.antt =====
-- Runs of pipe.c, and the theorems at them.
use compiling_to_assembly.Prelude.{
  ℕ, ◌-◌, ◌^◌, ◌≤◌, ◌≡◌, refl, true, false, [], ◌∷◌, ◌++◌, arith, length, replicate,
}
use compiling_to_assembly.Pipe.{
  pipe_size, Pipe, broken, got, waiting, interrupted, init, pipewrite, piperead, pipeclose,
}
use compiling_to_assembly.Pipe.Contents.{IsValid, contents}
use compiling_to_assembly.Pipe.Refine.{queue_write, queue_read, pipewrite_refines, piperead_refines}
use compiling_to_assembly.Pipe.Stream.{
  accepted, History, Reach, opens, next, writes, reads, received-append-contents,
  pipewrite_killed_silent,
}

-- both counters about to wrap, and an empty ring
abbrev wrapping : Pipe
wrapping = record {
  bytes = λ i. 0;
  nread = 2 ^ 32 - 1;
  nwrite = 2 ^ 32 - 1;
  readopen = true;
  writeopen = true;
}

wrapping-IsValid : IsValid wrapping
wrapping-IsValid = omega arith

-- Bytes go through while the counters wrap.
wrapping_round_trip :
    (contents ((pipewrite false wrapping (5 ∷ 6 ∷ [])).pipe) ≡ 5 ∷ 6 ∷ [])
    × ((piperead false ((pipewrite false wrapping (5 ∷ 6 ∷ [])).pipe) 9).result ≡ got (5 ∷ 6 ∷ []))
unfolding pipewrite piperead
wrapping_round_trip = (refl, refl)

-- An empty pipe with a writer makes its reader wait; without one the reader gets nothing.
empty_reads :
    ((piperead false wrapping 3).result ≡ waiting)
    × ((piperead true wrapping 3).result ≡ interrupted)
    × ((piperead false ((pipeclose wrapping true).pipe) 3).result ≡ got [])
unfolding piperead pipeclose
empty_reads = (refl, refl, refl)

pipewrite_refines_example :
    IsValid ((pipewrite false wrapping (5 ∷ 6 ∷ [])).pipe)
    × ((
      contents ((pipewrite false wrapping (5 ∷ 6 ∷ [])).pipe),
      (pipewrite false wrapping (5 ∷ 6 ∷ [])).result,
    )
        ≡ queue_write false true [] (5 ∷ 6 ∷ []))
pipewrite_refines_example = pipewrite_refines false wrapping (5 ∷ 6 ∷ []) wrapping-IsValid

piperead_refines_example :
    IsValid ((piperead false wrapping 4).pipe)
    × ((contents ((piperead false wrapping 4).pipe), (piperead false wrapping 4).result)
        ≡ queue_read false true [] 4)
piperead_refines_example = piperead_refines false wrapping 4 wrapping-IsValid

abbrev zeros : ℕ → ℕ
zeros i = 0

abbrev exchanged : History
exchanged = record {
  pipe = (piperead false ((pipewrite false (init zeros) (1 ∷ 2 ∷ 3 ∷ [])).pipe) 2).pipe;
  sent = 1 ∷ 2 ∷ 3 ∷ [];
  received = 1 ∷ 2 ∷ [];
}

exchanged-Reach : Reach exchanged
unfolding pipewrite piperead init
exchanged-Reach = next (next (opens zeros) (writes false (1 ∷ 2 ∷ 3 ∷ []))) (reads false 2)

received-append-contents_example :
    (1 ∷ 2 ∷ [] ++ contents (exchanged.pipe) ≡ 1 ∷ 2 ∷ 3 ∷ [])
    × (length (contents (exchanged.pipe)) ≤ pipe_size)
received-append-contents_example = received-append-contents exchanged-Reach

pipewrite_killed_silent_example :
    ((pipewrite true wrapping (replicate 513 7)).result ≡ broken)
    × ((pipewrite true wrapping (replicate 513 7)).wakes ≡ [])
    × (contents ((pipewrite true wrapping (replicate 513 7)).pipe)
        ≡ contents wrapping ++ accepted wrapping (replicate 513 7))
pipewrite_killed_silent_example =
    pipewrite_killed_silent wrapping (replicate 513 7) wrapping-IsValid (omega arith)
