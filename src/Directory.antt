-- ===== src/Directory.antt =====
-- projects/xv6/fs.c, directories: files of entries of 16 bytes. The `struct dirent` that the functions
-- read into stands at address 0 of their memory, and the name that they are given behind it.
pub mod Lookup
pub mod Find
mod Tests
use compiling_to_assembly.Prelude.{
  ℕ, zero, suc, ◌+◌, ◌/◌, ℤ, pos, negsuc, Bool, true, false, Option, none, some, ◌==◌, ltb,
  if◌then◌else◌,
}
use compiling_to_assembly.StringOps.{Memory, strncmp, strncpy}
use compiling_to_assembly.Names.{dirsiz}
use compiling_to_assembly.Fs.{Super, Blocks, Attempt, returns, panics, Run, and_then}
use compiling_to_assembly.Icache.{Cache, iget, iput}
use compiling_to_assembly.Inode.{Inode, t_dir, readi, writei, load_half, store_half}

-- `sizeof(struct dirent)`
abbrev pub dirent_size : ℕ
dirent_size = 16

-- `namecmp`
unfoldable pub namecmp : Memory → ℕ → ℕ → ℤ
namecmp m s t = strncmp m s t dirsiz

abbrev pub is_zero : ℤ → Bool
is_zero (pos n) = n == 0
is_zero (negsuc n) = false

-- `readi(...) != sizeof(de)` and the same of `writei`, where a negative count is `none`
abbrev pub is_whole : Option ℕ → Bool
is_whole none = false
is_whole (some n) = n == dirent_size

module _ (devread : ℕ → Option (Inode → Memory → ℕ → Run (Option ℕ × Memory × Inode)))
    (sb : Super) where
  -- The loop of `dirlookup` from `off` on, with the rounds left: the number and the offset of the entry.
  pub lookup_loop : ℕ → ℕ → Inode → ℕ → Memory → Run (Option (ℕ × ℕ) × Memory × Inode)
  lookup_loop name zero dp off m d = returns (none, m, dp) d
  lookup_loop name (suc k) dp off m d = elim (ltb off (dp.size)) [
    | false ↦ returns (none, m, dp) d
    | true ↦ and_then (readi devread sb dp off dirent_size m d) (λ r d'. elim (is_whole (r.0)) [
      | false ↦ panics d'
      | true ↦ elim (load_half (r.1) 0 == 0) [
        | true ↦ lookup_loop name k (r.2) (off + dirent_size) (r.1) d'
        | false ↦ elim (is_zero (namecmp (r.1) name 2)) [
          | true ↦ returns (some (load_half (r.1) 0, off), r.1, r.2) d'
          | false ↦ lookup_loop name k (r.2) (off + dirent_size) (r.1) d'
        ]
      ]
    ])
  ]

  -- `dirlookup` up to the call of `iget`.
  pub find_entry : Inode → ℕ → Memory → Run (Option (ℕ × ℕ) × Memory × Inode)
  unfolding lookup_loop
  find_entry dp name m d = elim (dp.kind == t_dir) [
    | false ↦ panics d
    | true ↦ lookup_loop name (dp.size / dirent_size + 1) dp 0 m d
  ]

  -- `dirlookup`: the inode's entry in the cache, and the offset.
  pub dirlookup : Inode → ℕ → Memory → Cache → Run (Option (ℕ × ℕ) × Memory × Inode × Cache)
  unfolding find_entry
  dirlookup dp name m c d = and_then (find_entry dp name m d) (λ r d'. elim (r.0) [
    | none ↦ returns (none, r.1, r.2, c) d'
    | some e ↦ elim (iget (r.2.dev) (e.0) c) [
      | none ↦ panics d'
      | some g ↦ returns (some (g.0, e.1), r.1, r.2, g.1) d'
    ]
  ])

  -- The loop of `dirlink` that looks for a free entry: its offset, or the end of the directory.
  pub slot_loop : ℕ → Inode → ℕ → Memory → Run (ℕ × Memory × Inode)
  slot_loop zero dp off m d = returns (off, m, dp) d
  slot_loop (suc k) dp off m d = elim (ltb off (dp.size)) [
    | false ↦ returns (off, m, dp) d
    | true ↦ and_then (readi devread sb dp off dirent_size m d) (λ r d'. elim (is_whole (r.0)) [
      | false ↦ panics d'
      | true ↦ elim (load_half (r.1) 0 == 0) [
        | true ↦ returns (off, r.1, r.2) d'
        | false ↦ slot_loop k (r.2) (off + dirent_size) (r.1) d'
      ]
    ])
  ]

-- How `dirlink` ends: with 0, or with -1 where the name is there.
pub data LinkEnd : Type 0 where
  linked present : LinkEnd

module _ (devread : ℕ → Option (Inode → Memory → ℕ → Run (Option ℕ × Memory × Inode)))
    (devwrite : ℕ → Option (Inode → Memory → ℕ → Run (Option ℕ × Inode))) (sb : Super) where
  -- The end of `dirlink`: the entry is filled in and written.
  pub write_entry : ℕ → ℕ → ℕ × Memory × Inode → Run (LinkEnd × Inode)
  write_entry name inum q d =
      let de = store_half (strncpy (q.1) 2 name dirsiz) 0 inum in
      and_then (writei devwrite sb (q.2) (q.0) dirent_size de d)
        (λ w d'. if is_whole (w.0) then returns (linked, w.1) d' else panics d')

  -- `dirlink`
  pub dirlink : Inode → ℕ → ℕ → Memory → Cache → Run (LinkEnd × Inode × Cache)
  unfolding dirlookup slot_loop write_entry
  dirlink dp name inum m c d = and_then (dirlookup devread sb dp name m c d) (λ r d'. elim (r.0) [
    | some e ↦ and_then (iput sb (e.0) (r.3) d') (λ c' d2. returns (present, r.2, c') d2)
    | none ↦
        and_then (slot_loop devread sb (r.2.size / dirent_size + 1) (r.2) 0 (r.1) d')
          (λ q d2. and_then (write_entry name inum q d2) (λ w d3. returns (w.0, w.1, r.3) d3))
  ])
