-- ===== src/File.antt =====
-- projects/xv6/file.c: the table of open files, with reads and writes through it. What a function does to
-- the table is one step under `ftable.lock`; the pipes and inodes behind the files are parameters.
pub mod Handles
mod Tests
use compiling_to_assembly.Prelude.{
  ℕ, zero, suc, ◌+◌, ◌-◌, ◌*◌, ◌/◌, ◌%◌, ◌^◌, Bool, true, false, not, Option, none, some, List, [],
  ◌∷◌, ◌==◌, ltb, if◌then◌else◌, update, length, take, drop,
}
use compiling_to_assembly.Log.{max_op_blocks}

abbrev pub nfile : ℕ
nfile = 100

pub data FileKind : Type 0 where
  fd_none fd_pipe fd_inode : FileKind

-- `struct file`; a pipe or an inode is an address.
pub record File : Type 0 where
  pub kind : FileKind
  pub ref : ℕ
  pub readable : Bool
  pub writable : Bool
  pub pipe : ℕ
  pub ip : ℕ
  pub off : ℕ

-- `ftable.file`
abbrev pub Ftable : Type 0
Ftable = ℕ → File

-- The search of `filealloc` from entry `i`, with the rounds left.
pub find_file : Ftable → ℕ → ℕ → Option ℕ
find_file t zero i = none
find_file t (suc k) i = elim ((t i).ref == 0) [ true ↦ some i | false ↦ find_file t k (i + 1) ]

-- `filealloc`: the entry and the table.
pub filealloc : Ftable → Option (ℕ × Ftable)
unfolding find_file
filealloc t = elim (find_file t nfile 0) [
  | none ↦ none
  | some i ↦ some (i, update t i (record (t i) { ref = 1 }))
]

-- `filedup`; `none` is the panic.
pub filedup : ℕ → Ftable → Option Ftable
filedup i t =
    if ltb ((t i).ref) 1 then none else some (update t i (record (t i) { ref = (t i).ref + 1 }))

-- What `fileclose` calls once the last reference is gone: `pipeclose`, or `iput` in a transaction.
pub data Release : Type 0 where
  nothing : Release
  close_pipe : ℕ → Bool → Release
  put_inode : ℕ → Release

abbrev pub release_of : File → Release
release_of ff = elim (ff.kind) [
  | fd_none ↦ nothing
  | fd_pipe ↦ close_pipe (ff.pipe) (ff.writable)
  | fd_inode ↦ put_inode (ff.ip)
]

-- `fileclose`; `none` is the panic.
pub fileclose : ℕ → Ftable → Option (Release × Ftable)
fileclose i t =
    let left = (t i).ref - 1 in
    if ltb ((t i).ref) 1
    then none
    else if ltb 0 left
    then some (nothing, update t i (record (t i) { ref = left }))
    else some (release_of (t i), update t i (record (t i) { ref = 0; kind = fd_none }))

-- A call's return value, -1, or a panic.
pub data Result : Type 0 where
  count : ℕ → Result
  failed panic : Result

-- What a read or a write leaves of the file and of what is behind it.
pub record Done (S : Type 0) : Type 0 where
  pub file : File
  pub store : S
  pub result : Result

-- `uint` addition
abbrev pub advance : File → ℕ → File
advance f r = record f { off = (f.off + r) % 2 ^ 32 }

abbrev pub result_of : Option ℕ → Result
result_of none = failed
result_of (some r) = count r

-- the `max` of `filewrite`
abbrev pub max_chunk : ℕ
max_chunk = (max_op_blocks - 1 - 1 - 2) / 2 * 512

-- `S` is what is behind the file. `readi` and `writei` on its inode, and `piperead` and `pipewrite` on
-- its pipe, return a count or, for -1, `none`.
module _ {S : Type 0} where
  -- `filestat`, where `stati` reads the inode
  pub filestat : {Stat : Type 0} → (S → Stat) → File → S → Option Stat
  filestat stati f s = elim (f.kind) [ fd_none ↦ none | fd_pipe ↦ none | fd_inode ↦ some (stati s) ]

  -- `fileread` of `n` bytes
  pub fileread : (S → ℕ → S × Option ℕ) → (S → ℕ → ℕ → S × Option ℕ) → File → S → ℕ → Done S
  fileread piperead readi f s n =
      if not (f.readable) then record { file = f; store = s; result = failed } else elim (f.kind) [
        | fd_none ↦ record { file = f; store = s; result = panic }
        | fd_pipe ↦ record {
          file = f;
          store = (piperead s n).0;
          result = result_of ((piperead s n).1);
        }
        | fd_inode ↦
            let (s', r) = readi s (f.off) n in
            elim r [
              | none ↦ record { file = f; store = s'; result = failed }
              | some got ↦ record { file = advance f got; store = s'; result = count got }
            ]
      ]

  -- The loop of `filewrite` on the bytes that remain, of `n`, with fuel for the rounds.
  pub write_loop : (S → ℕ → List ℕ → S × Option ℕ) → ℕ → ℕ → File → S → List ℕ → Option (Done S)
  write_loop writei n fuel f s [] = some (record { file = f; store = s; result = count n })
  write_loop writei n zero f s (c ∷ cs) = none
  write_loop writei n (suc fuel) f s (c ∷ cs) =
      let rest = c ∷ cs in
      let n1 = if ltb max_chunk (length rest) then max_chunk else length rest in
      let (s', r) = writei s (f.off) (take n1 rest) in
      elim r [
        | none ↦ some (record { file = f; store = s'; result = failed })
        | some r ↦ elim (r == n1) [
          | false ↦ some (record { file = advance f r; store = s'; result = panic })
          | true ↦ write_loop writei n fuel (advance f r) s' (drop n1 rest)
        ]
      ]

  -- `filewrite`; `none` where the fuel runs out.
  pub filewrite :
      (S → List ℕ → S × Option ℕ)
      → (S → ℕ → List ℕ → S × Option ℕ)
      → ℕ
      → File
      → S
      → List ℕ
      → Option (Done S)
  unfolding write_loop
  filewrite pipewrite writei fuel f s data' =
      if not (f.writable)
      then some (record { file = f; store = s; result = failed })
      else elim (f.kind) [
        | fd_none ↦ some (record { file = f; store = s; result = panic })
        | fd_pipe ↦ some (record {
          file = f;
          store = (pipewrite s data').0;
          result = result_of ((pipewrite s data').1);
        })
        | fd_inode ↦ write_loop writei (length data') fuel f s data'
      ]
