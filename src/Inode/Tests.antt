-- ===== src/Inode/Tests.antt =====
-- A small file system, and the theorems of fs.c at it.
use compiling_to_assembly.Prelude.{
  ℕ, zero, suc, ◌+◌, ◌≡◌, refl, true, false, Option, some, arith, ◌==◌, if◌then◌else◌,
}
use compiling_to_assembly.StringOps.{Memory}
use compiling_to_assembly.Fs.{
  Super, Blocks, Attempt, returns, panics, balloc, bfree, test_bit, log_write,
}
use compiling_to_assembly.Fs.Bits.{in_use}
use compiling_to_assembly.Fs.Blocks.{Reserved, Allocates, balloc-Allocates}
use compiling_to_assembly.Inode.{Inode, bmap, readi_file, writei_file, iupdate, ilock}
use compiling_to_assembly.Inode.Slots.{slot, IsMapped}
use compiling_to_assembly.Inode.Map.{Filled}
use compiling_to_assembly.Inode.Bmap.{bmap-Filled}
use compiling_to_assembly.Inode.Write.{WriteEnds, writei_file-WriteEnds}
use compiling_to_assembly.Inode.Disk.{Fits, SameOnDisk, ilock-iupdate}
use compiling_to_assembly.Inode.RoundTrip.{ReadsBack, readi-writei}

-- 20 blocks: inodes in block 3, the bitmap in block 4, and data from block 5 on
abbrev small : Super
small = record {
  size = 20;
  nblocks = 15;
  ninodes = 8;
  nlog = 1;
  logstart = 2;
  inodestart = 3;
  bmapstart = 4;
  log_panics = λ b d. false;
}

-- the first five blocks are in use, and everything else is 0
abbrev fresh : Blocks
fresh b a = if b == 4 then (if a == 0 then 31 else 0) else 0

abbrev empty_file : Inode
empty_file = record {
  dev = 1;
  inum = 2;
  ref = 1;
  valid = true;
  kind = 2;
  major = 0;
  minor = 0;
  nlink = 1;
  size = 0;
  addrs = λ k. 0;
}

fresh-Reserved : Reserved small fresh
unfolding in_use test_bit
fresh-Reserved zero h = refl
fresh-Reserved (suc zero) h = refl
fresh-Reserved (suc (suc zero)) h = refl
fresh-Reserved (suc (suc (suc zero))) h = refl
fresh-Reserved (suc (suc (suc (suc zero)))) h = refl
fresh-Reserved (suc (suc (suc (suc (suc y))))) h = absurd (omega arith)

no_slot : (k : ℕ) → slot empty_file fresh k ≡ 0
unfolding slot
no_slot k = ground arith

empty-IsMapped : IsMapped small empty_file fresh
empty-IsMapped = record {
  small = omega arith;
  reserved = fresh-Reserved;
  data_blocks = λ k l n. absurd (n (no_slot k));
  apart = λ j k l u e n. absurd (n (no_slot j));
}

abbrev bytes_of : Memory
bytes_of a = a + 65

abbrev zeros : Memory
zeros a = 0

abbrev result_of : {A : Type 0} → A → Attempt A → A
result_of a (returns b d) = b
result_of a (panics d) = a

abbrev blocks_of : {A : Type 0} → Attempt A → Blocks
blocks_of (returns b d) = d
blocks_of (panics d) = d

-- The first block is given, then given back; a free block is not freed.
allocates :
    (result_of 0 (balloc small fresh) ≡ 5)
    × (in_use small (blocks_of (balloc small fresh)) 5 ≡ true)
    × (in_use small (blocks_of (bfree small 5 (blocks_of (balloc small fresh)))) 5 ≡ false)
unfolding balloc bfree in_use log_write
allocates = (refl, refl, refl)

balloc-Allocates_example : Allocates small fresh (balloc small fresh)
balloc-Allocates_example = balloc-Allocates small fresh fresh-Reserved

bmap-Filled_example : Filled small empty_file fresh 13 (bmap small empty_file 13 fresh)
bmap-Filled_example = bmap-Filled small empty_file fresh 13 (omega arith) empty-IsMapped

writei_file-WriteEnds_example :
    WriteEnds small empty_file fresh 0 600 bytes_of
      (writei_file small empty_file 0 600 bytes_of fresh)
writei_file-WriteEnds_example =
    writei_file-WriteEnds small empty_file fresh 0 600 bytes_of empty-IsMapped (omega arith)
      (omega arith)

-- what a write of three bytes leaves
abbrev three_bytes : Attempt (Option ℕ × Inode)
three_bytes = writei_file small empty_file 0 3 bytes_of fresh

abbrev file_of : Attempt (Option ℕ × Inode) → Inode
file_of (returns r d) = r.1
file_of (panics d) = empty_file

three_bytes_written : three_bytes ≡ returns (some 3, file_of three_bytes) (blocks_of three_bytes)
unfolding writei_file balloc log_write
three_bytes_written = refl

readi-writei_example :
    ReadsBack small 3 bytes_of zeros
      (readi_file small (file_of three_bytes) 0 3 zeros (blocks_of three_bytes))
readi-writei_example =
    readi-writei small empty_file fresh 0 3 bytes_of zeros (file_of three_bytes)
      (blocks_of three_bytes) empty-IsMapped (omega arith) (omega arith) (omega arith)
      three_bytes_written

-- what the cache has of an inode before it is locked
abbrev not_read : Inode
not_read = record {
  dev = 1;
  inum = 2;
  ref = 1;
  valid = false;
  kind = 0;
  major = 0;
  minor = 0;
  nlink = 0;
  size = 0;
  addrs = λ k. 0;
}

empty-Fits : Fits empty_file
empty-Fits = record {
  kind = omega arith;
  major = omega arith;
  minor = omega arith;
  nlink = omega arith;
  size = omega arith;
  addrs = λ k. omega arith;
}

ilock-iupdate_example :
    (ip' : Inode) × (ilock small not_read (blocks_of (iupdate small empty_file fresh)) ≡ some ip')
    × (ip'.valid ≡ true)
    × SameOnDisk empty_file ip'
unfolding iupdate log_write
ilock-iupdate_example =
    ilock-iupdate small empty_file not_read fresh (blocks_of (iupdate small empty_file fresh))
      empty-Fits (ground arith) refl (omega arith) refl refl
