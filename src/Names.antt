-- ===== src/Names.antt =====
-- Paths of projects/xv6/fs.c: skipelem and namex. A path is the list of its bytes before the NUL; inodes,
-- the test for a directory and dirlookup are parameters.
pub mod Elements
pub mod Resolve
mod Tests
use compiling_to_assembly.Prelude.{
  ℕ, zero, suc, Bool, true, false, ◌&&◌, not, Option, none, some, List, [], ◌∷◌, ◌==◌,
  if◌then◌else◌, take,
}

abbrev pub dirsiz : ℕ
dirsiz = 14

-- '/'
abbrev pub slash : ℕ
slash = 47

-- `while(*path == '/') path++`
pub skip_slashes : List ℕ → List ℕ
skip_slashes [] = []
skip_slashes (c ∷ cs) = elim (c == slash) [ true ↦ skip_slashes cs | false ↦ c ∷ cs ]

-- The bytes up to the next slash or the end, and those from there on.
pub split_elem : List ℕ → List ℕ × List ℕ
split_elem [] = ([], [])
split_elem (c ∷ cs) = elim (c == slash) [
  | true ↦ ([], c ∷ cs)
  | false ↦ (c ∷ (split_elem cs).0, (split_elem cs).1)
]

-- `skipelem`: the name, cut to DIRSIZ bytes, and the path behind it.
pub skipelem : List ℕ → Option (List ℕ × List ℕ)
unfolding skip_slashes split_elem
skipelem path = elim (skip_slashes path) [
  | [] ↦ none
  | c ∷ cs ↦ some (take dirsiz ((split_elem (c ∷ cs)).0), skip_slashes ((split_elem (c ∷ cs)).1))
]

-- How `namex` ends: an inode with what it left in `name`, 0, or without fuel.
pub data Walk (Inode : Type 0) : Type 0 where
  found : Inode → List ℕ → Walk Inode
  failed stuck : Walk Inode

abbrev pub at_end : List ℕ → Bool
at_end [] = true
at_end (c ∷ cs) = false

abbrev pub starts_at_root : List ℕ → Bool
starts_at_root [] = false
starts_at_root (c ∷ cs) = c == slash

module _ {Inode : Type 0} (is_dir : Inode → Bool) (dirlookup : Inode → List ℕ → Option Inode) where
  -- The loop of `namex` from inode `ip`, with fuel.
  pub walk : Bool → ℕ → Inode → List ℕ → List ℕ → Walk Inode
  unfolding skipelem
  walk parent zero ip name path = stuck
  walk parent (suc fuel) ip name path = elim (skipelem path) [
    | none ↦ if parent then failed else found ip name
    | some elem ↦ elim (is_dir ip) [
      | false ↦ failed
      | true ↦ elim (parent && at_end (elem.1)) [
        | true ↦ found ip (elem.0)
        | false ↦ elim (dirlookup ip (elem.0)) [
          | none ↦ failed
          | some next ↦ walk parent fuel next (elem.0) (elem.1)
        ]
      ]
    ]
  ]

  -- `namex`, with `nameiparent` as its flag, from the root or the directory of the process
  pub namex : Bool → ℕ → Inode → Inode → List ℕ → List ℕ → Walk Inode
  unfolding walk
  namex parent fuel root cwd name path =
      walk parent fuel (if starts_at_root path then root else cwd) name path
