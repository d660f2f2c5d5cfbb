-- ===== src/Icache.antt =====
-- projects/xv6/fs.c, the cache of inodes in memory: iget, idup, iput and ialloc. Each is a step under
-- `icache.lock`, but for the part of iput that frees the inode, which runs for its last holder.
pub mod Entries
pub mod Held
mod Tests
use compiling_to_assembly.Prelude.{
  ℕ, zero, suc, ◌+◌, ◌-◌, ◌%◌, ◌^◌, Bool, true, false, ◌&&◌, Option, none, some, ◌==◌, ltb,
  if◌then◌else◌, update,
}
use compiling_to_assembly.StringOps.{Memory, memset}
use compiling_to_assembly.Fs.{Super, Blocks, Attempt, returns, panics, Run, and_then, log_write}
use compiling_to_assembly.Inode.{Inode, iblock, dinode_at, load_half, store_half, itrunc, iupdate}

abbrev pub ninode : ℕ
ninode = 50

-- `icache.inode`
abbrev pub Cache : Type 0
Cache = ℕ → Inode

-- How the search of `iget` ends: at the entry of the inode, or with the first free entry.
pub data Search : Type 0 where
  cached : ℕ → Search
  missed : Option ℕ → Search

abbrev pub caches : ℕ → ℕ → Inode → Bool
caches dev inum ip = ltb 0 (ip.ref) && (ip.dev == dev) && (ip.inum == inum)

-- The loop of `iget` from entry `i`, with the free entry found so far and the rounds left.
pub find_inode : Cache → ℕ → ℕ → ℕ → ℕ → Option ℕ → Search
find_inode c dev inum zero i empty = missed empty
find_inode c dev inum (suc k) i empty = elim (caches dev inum (c i)) [
  | true ↦ cached i
  | false ↦
      find_inode c dev inum k (i + 1)
        (elim empty [ some e ↦ some e | none ↦ if (c i).ref == 0 then some i else none ])
]

-- `iget` behind its search; `none` is the panic.
pub iget_end : ℕ → ℕ → Cache → Search → Option (ℕ × Cache)
iget_end dev inum c (cached i) = some (i, update c i (record (c i) { ref = (c i).ref + 1 }))
iget_end dev inum c (missed none) = none
iget_end dev inum c (missed (some i)) =
    some (i, update c i (record (c i) { dev = dev; inum = inum; ref = 1; valid = false }))

-- `iget`
pub iget : ℕ → ℕ → Cache → Option (ℕ × Cache)
unfolding find_inode iget_end
iget dev inum c = iget_end dev inum c (find_inode c dev inum ninode 0 none)

-- `idup`
pub idup : ℕ → Cache → Cache
idup i c = update c i (record (c i) { ref = (c i).ref + 1 })

-- The end of `iput`. The decrement of the `int` wraps below 0.
abbrev pub drop_ref : ℕ → Inode → Cache → Cache
drop_ref i ip c = update c i (record ip { ref = (ip.ref + 2 ^ 32 - 1) % 2 ^ 32 })

-- `iput`
pub iput : Super → ℕ → Cache → Run Cache
iput sb i c d = elim ((c i).valid && ((c i).nlink == 0) && ((c i).ref == 1)) [
  | false ↦ returns (drop_ref i (c i) c) d
  | true ↦ and_then (itrunc sb (c i) d) (λ ip d'.
      let freed = record ip { kind = 0 } in
      and_then (iupdate sb freed d')
        (λ u e. returns (drop_ref i (record freed { valid = false }) c) e))
]

-- The loop of `ialloc` from inode `inum` on, with the rounds left.
pub ialloc_loop : Super → ℕ → ℕ → ℕ → Run ℕ
ialloc_loop sb kind zero inum d = panics d
ialloc_loop sb kind (suc k) inum d = elim (ltb inum (sb.ninodes)) [
  | false ↦ panics d
  | true ↦
      let b = iblock sb inum in
      elim (load_half (d b) (dinode_at inum) == 0) [
        | true ↦
            and_then
              (log_write sb b
                (store_half (memset (d b) (dinode_at inum) 0 64) (dinode_at inum) kind) d)
              (λ u e. returns inum e)
        | false ↦ ialloc_loop sb kind k (inum + 1) d
      ]
]

-- `ialloc` up to the call of `iget`: the number of the inode.
pub ialloc : Super → ℕ → Run ℕ
unfolding ialloc_loop
ialloc sb kind d = ialloc_loop sb kind (sb.ninodes) 1 d
