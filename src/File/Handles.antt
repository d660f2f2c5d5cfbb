-- ===== src/File/Handles.antt =====
-- The reference counts of file.c: an open file lives as long as something refers to it.
use compiling_to_assembly.Prelude.{ℕ, ◌+◌, ◌-◌, ◌<◌, ◌≡◌, some, ◌==◌, if◌then◌else◌, update}
use compiling_to_assembly.File.{
  File, Ftable, filealloc, filedup, fileclose, Release, nothing, release_of,
}

-- the table, and how many references to each entry are held
pub record Held : Type 0 where
  pub table : Ftable
  pub refs : ℕ → ℕ

-- Who calls `filedup` or `fileclose` has a reference.
pub data Step : Held → Held → Type 0 where
  alloc :
      (h : Held) (i : ℕ) (t : Ftable)
      → filealloc (h.table) ≡ some (i, t)
      → Step h (record { table = t; refs = update (h.refs) i (h.refs i + 1) })
  dup :
      (h : Held) (i : ℕ) (t : Ftable)
      → 0 < h.refs i
      → filedup i (h.table) ≡ some t
      → Step h (record { table = t; refs = update (h.refs) i (h.refs i + 1) })
  close :
      (h : Held) (i : ℕ) (r : Release) (t : Ftable)
      → 0 < h.refs i
      → fileclose i (h.table) ≡ some (r, t)
      → Step h (record { table = t; refs = update (h.refs) i (h.refs i - 1) })

pub data Reach (h : Held) : Held → Type 0 where
  start : Reach h h
  next : (h1 h2 : Held) → Reach h h1 → Step h1 h2 → Reach h h2

abbrev pub Counted : Held → Type 0
Counted h = (i : ℕ) → (h.table i).ref ≡ h.refs i

-- what closing a reference to an entry releases
abbrev pub released : File → Release
released f = if f.ref == 1 then release_of f else nothing

-- What the reference counts guarantee: an entry that is handed out had no reference, and who has a
-- reference can copy and close it, where the last one to close releases what is behind the file.
pub record Guarded (h : Held) : Type 0 where
  pub counts : Counted h
  pub fresh : (i : ℕ) (t : Ftable) → filealloc (h.table) ≡ some (i, t) → h.refs i ≡ 0
  pub copies : (i : ℕ) → 0 < h.refs i → (t : Ftable) × (filedup i (h.table) ≡ some t)
  pub closes :
      (i : ℕ)
      → 0 < h.refs i
      → (t : Ftable) × (fileclose i (h.table)
          ≡ some (if h.refs i == 1 then release_of (h.table i) else nothing, t))
