-- ===== src/Directory/Tests.antt =====
-- A directory with one entry, and the theorem on dirlookup at it.
use mathlib.Core.Path.{subst}
use compiling_to_assembly.Prelude.{
  false, ℕ, zero, suc, ◌≡◌, ◌≢◌, refl, ap, sym, ◌∙◌, inl, inr, true, Option, none, some, arith,
  ◌==◌, if◌then◌else◌, Bool-cases, ==→≡,
}
use compiling_to_assembly.StringOps.{Memory, strncmp}
use compiling_to_assembly.Fs.{Super, Blocks, Attempt, returns, panics, Run, test_bit}
use compiling_to_assembly.Fs.Bits.{in_use}
use compiling_to_assembly.Fs.Blocks.{Reserved}
use compiling_to_assembly.Inode.{Inode, readi, readi_file, load_half}
use compiling_to_assembly.Inode.Slots.{slot, IsData, IsMapped}
use compiling_to_assembly.Icache.{Cache}
use compiling_to_assembly.Directory.{find_entry, dirlookup, namecmp}
use compiling_to_assembly.Directory.Find.{Finds, dirlookup-Finds}
use compiling_to_assembly.Inode.Read.{Reads, readi_file-Reads}
use compiling_to_assembly.Directory.Lookup.{IsDirectory}

-- inodes in block 3, the bitmap in block 4, and data from block 5 on
abbrev little : Super
little = record {
  size = 20;
  nblocks = 15;
  ninodes = 8;
  nlog = 1;
  logstart = 2;
  inodestart = 3;
  bmapstart = 4;
  log_panics = λ b d. false;
}

-- The directory in block 5 has one entry: inode 7 with the name "a".
abbrev with_a : Blocks
with_a b a =
    if b == 4
    then (if a == 0 then 63 else 0)
    else if b == 5
    then (if a == 0 then 7 else if a == 2 then 97 else 0)
    else 0

abbrev directory : Inode
directory = record {
  dev = 1;
  inum = 1;
  ref = 1;
  valid = true;
  kind = 1;
  major = 0;
  minor = 0;
  nlink = 1;
  size = 16;
  addrs = λ k. if k == 0 then 5 else 0;
}

with_a-Reserved : Reserved little with_a
unfolding in_use test_bit
with_a-Reserved zero h = refl
with_a-Reserved (suc zero) h = refl
with_a-Reserved (suc (suc zero)) h = refl
with_a-Reserved (suc (suc (suc zero))) h = refl
with_a-Reserved (suc (suc (suc (suc zero)))) h = refl
with_a-Reserved (suc (suc (suc (suc (suc y))))) h = absurd (omega arith)

only_slot : (k : ℕ) → slot directory with_a k ≡ (if k == 0 then 5 else 0)
unfolding slot
only_slot k = ground arith

first_slot : (k : ℕ) → slot directory with_a k ≢ 0 → k ≡ 0
first_slot k n = elim (Bool-cases (k == 0)) [
  | inl e ↦ ==→≡ k 0 e
  | inr e ↦ absurd (n (only_slot k ∙ rw e refl))
]

five-IsData : IsData little with_a 5
unfolding in_use test_bit
five-IsData = record { low = omega arith; high = omega arith; used = refl }

directory-IsMapped : IsMapped little directory with_a
unfolding in_use test_bit
directory-IsMapped = record {
  small = omega arith;
  reserved = with_a-Reserved;
  data_blocks = λ k l n.
      subst (IsData little with_a) (sym (ap (slot directory with_a) (first_slot k n) ∙ only_slot 0))
        five-IsData;
  apart = λ j k l u e n. first_slot j n ∙ sym (first_slot k (λ z. n (e ∙ z)));
}

directory-IsDirectory : IsDirectory little directory with_a
directory-IsDirectory = record {
  kind = refl;
  whole = omega arith;
  small = omega arith;
  mapped = directory-IsMapped;
}

-- the name "a" at address 100
abbrev name_a : Memory
name_a x = if x == 100 then 97 else 0

-- no device answers reads
abbrev no_devices : ℕ → Option (Inode → Memory → ℕ → Run (Option ℕ × Memory × Inode))
no_devices i = none

abbrev what : Attempt (Option (ℕ × ℕ) × Memory × Inode) → Option (ℕ × ℕ)
what (returns r d) = r.0
what (panics d) = none

-- The name is found with its inode, and another is not.
looks_up :
    (what (find_entry no_devices little directory 100 name_a with_a) ≡ some (7, 0))
    × (what (find_entry no_devices little directory 200 name_a with_a) ≡ none)
unfolding find_entry readi load_half namecmp strncmp
looks_up = (refl, refl)

-- a cache without inodes
abbrev no_inode : Inode
no_inode = record directory { ref = 0; valid = false; size = 0 }

abbrev no_inodes : Cache
no_inodes i = no_inode

dirlookup-Finds_example :
    Finds little directory with_a name_a 100 no_inodes
      (dirlookup no_devices little directory 100 name_a no_inodes with_a)
dirlookup-Finds_example =
    dirlookup-Finds no_devices little 100 directory name_a no_inodes with_a directory-IsDirectory

-- nine bytes of the entry
readi_file-Reads_example :
    Reads little directory with_a 0 9 name_a (readi_file little directory 0 9 name_a with_a)
readi_file-Reads_example =
    readi_file-Reads little directory with_a 0 9 name_a directory-IsMapped (omega arith)
      (omega arith)
