-- ===== src/Icache/Tests.antt =====
-- The inode cache with one entry in use, and the theorems at it.
use compiling_to_assembly.Prelude.{ℕ, ◌<◌, ◌≡◌, refl, false, some, update}
use compiling_to_assembly.Fs.{Super}
use compiling_to_assembly.Inode.{Inode}
use compiling_to_assembly.Icache.{ninode, Cache, iget}
use compiling_to_assembly.Icache.Held.{Held, Reach, start, next, get, Counted, one_entry}

abbrev layout : Super
layout = record {
  size = 20;
  nblocks = 15;
  ninodes = 8;
  nlog = 1;
  logstart = 2;
  inodestart = 3;
  bmapstart = 4;
  log_panics = λ b d. false;
}

abbrev unused : Inode
unused = record {
  dev = 0;
  inum = 0;
  ref = 0;
  valid = false;
  kind = 0;
  major = 0;
  minor = 0;
  nlink = 0;
  size = 0;
  addrs = λ k. 0;
}

abbrev none_held : Held
none_held = record { cache = λ i. unused; blocks = λ b a. 0; refs = λ i. 0 }

abbrev root_held : Held
root_held = record {
  cache = update (λ i. unused) 0 (record unused { dev = 1; inum = 1; ref = 1 });
  blocks = λ b a. 0;
  refs = update (λ i. 0) 0 1;
}

root_held-Reach : Reach layout none_held root_held
unfolding iget
root_held-Reach = next none_held root_held start (get none_held 1 1 0 (root_held.cache) refl)

one_entry_example :
    Counted root_held
    × ((i j : ℕ) (c : Cache)
        → i < ninode
        → 0 < root_held.refs i
        → iget ((root_held.cache i).dev) ((root_held.cache i).inum) (root_held.cache) ≡ some (j, c)
        → j ≡ i)
one_entry_example = one_entry layout none_held root_held (λ i. refl) (λ i. refl) root_held-Reach
