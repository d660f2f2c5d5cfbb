-- ===== src/File/Tests.antt =====
-- Open files of file.c, and the theorems at them.
use compiling_to_assembly.Prelude.{
  ℕ, ◌+◌, ◌≡◌, refl, true, Option, none, some, List, [], ◌∷◌, update, length,
}
use compiling_to_assembly.File.{
  File, FileKind, fd_none, fd_inode, Ftable, fileclose, count, filewrite, Release, nothing,
  put_inode,
}
use compiling_to_assembly.File.Handles.{Held}

abbrev closed_file : File
closed_file = record {
  kind = fd_none;
  ref = 0;
  readable = true;
  writable = true;
  pipe = 0;
  ip = 3;
  off = 5;
}

abbrev no_files : Held
no_files = record { table = λ i. closed_file; refs = λ i. 0 }

abbrev one_file : Held
one_file = record {
  table = update (λ i. closed_file) 0 (record closed_file { ref = 1 });
  refs = update (λ i. 0) 0 1;
}

abbrev of_kind : FileKind → ℕ → File
of_kind k n = record closed_file { kind = k; ref = n }

abbrev release_part : Option (Release × Ftable) → Option Release
release_part none = none
release_part (some (r, t)) = some r

-- Only the last reference releases the inode; closing a closed file is a panic.
closes :
    (release_part (fileclose 0 (λ i. of_kind fd_inode 2)) ≡ some nothing)
    × (release_part (fileclose 0 (λ i. of_kind fd_inode 1)) ≡ some (put_inode 3))
    × (release_part (fileclose 0 (λ i. of_kind fd_inode 0)) ≡ none)
unfolding fileclose
closes = (refl, refl, refl)

-- An inode that takes every write, as a function from offsets to bytes.
abbrev store_bytes : (ℕ → ℕ) → ℕ → List ℕ → ℕ → ℕ
store_bytes s off [] = s
store_bytes s off (x ∷ xs) = store_bytes (update s off x) (off + 1) xs

abbrev writei : (ℕ → ℕ) → ℕ → List ℕ → (ℕ → ℕ) × Option ℕ
writei s off xs = (store_bytes s off xs, some (length xs))

abbrev pipewrite : (ℕ → ℕ) → List ℕ → (ℕ → ℕ) × Option ℕ
pipewrite s xs = (s, none)

-- The write goes to the offset of the file and moves it.
filewrite_stores :
    filewrite pipewrite writei 3 (of_kind fd_inode 1) (λ o. 0) (7 ∷ 8 ∷ 9 ∷ [])
    ≡ some (record {
      file = record (of_kind fd_inode 1) { off = 8 };
      store = store_bytes (λ o. 0) 5 (7 ∷ 8 ∷ 9 ∷ []);
      result = count 3;
    })
unfolding filewrite
filewrite_stores = refl
