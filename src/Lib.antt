-- ===== src/Lib.antt =====
-- A verification library for the xv6 kernel of projects/xv6.
--
-- xv6 is a small Unix for 32-bit x86 with several CPUs. The parts modelled here, bottom up:
--
-- * StringOps (projects/xv6/string.c): memset, memmove and the string copies and comparisons, over a
--   memory that holds a byte at each address. Kalloc uses memset through its law.
-- * Spinlock (projects/xv6/spinlock.c): spin locks, and interrupts under nested pushcli and popcli.
--   Spinlock.System interleaves CPUs, one access to the lock at a time, and Spinlock.Exclusion
--   proves that a critical section belongs to one CPU. That is the ground on which the other parts
--   take each stretch of code between acquire and release for one atomic step.
-- * Kalloc (projects/xv6/kalloc.c): the page allocator, whose free list runs through the memory of the
--   free pages.
-- * Pipe (projects/xv6/pipe.c): pipewrite, piperead and pipeclose. A function that may sleep is split
--   there: it returns what it would sleep on, and what is left to do.
-- * Proc (projects/xv6/proc.c): the process table, with fork, exit, wait, sleep, wakeup and kill. A
--   process is its index in the table, and a function runs up to its switch of context. Proc.Wakeup,
--   Proc.Exit, Proc.Wait and Proc.Kill are about one function each, with what it calls, and
--   Proc.Reparent about a loop of exit.
-- * File (projects/xv6/file.c): the table of open files. File.Handles counts references.
--   Pipes and inodes are parameters there.
-- * Fs (projects/xv6/fs.c, blocks): the bitmap of free blocks, with balloc and bfree. A state is what the
--   file system sees of each block through the log. Each store of a block is a `log_write`, which may
--   panic: whether it does, in a state, is a parameter, as the log is not part of that state. Fs.Bits is about single bits of the bitmap,
--   Fs.Blocks about the calls.
-- * Inode (projects/xv6/fs.c, inodes): bmap, readi, writei, itrunc, iupdate, ilock and stati. Inode.Slots
--   says what a sound inode is and what the bytes of its file are, Inode.Map and Inode.Bmap are about
--   bmap, Inode.Read about readi, Inode.Changes and Inode.Write about writei, Inode.RoundTrip about
--   both, Inode.Disk about an inode on disk, and Inode.Trunc about itrunc.
-- * Sleeplock (projects/xv6/sleeplock.c): sleep locks, over the table of Proc.
-- * Bcache (projects/xv6/bio.c): the buffer cache. Bcache.Ring is about its linked list, Bcache.Scan about
--   the searches of bget, Bcache.Get and Bcache.Release about one call each, and Bcache.Reach about any
--   order of them.
-- * Icache (projects/xv6/fs.c, the inode cache): iget, idup, iput and ialloc. Icache.Entries is about the
--   search of iget, and Icache.Held counts references.
-- * Directory (projects/xv6/fs.c, directories): namecmp, dirlookup and dirlink, over readi and writei of
--   Inode and iget and iput of Icache. Directory.Lookup is about the search for an entry, and
--   Directory.Find about dirlookup and the names that it compares.
-- * Names (projects/xv6/fs.c): skipelem and namex, where inodes and dirlookup are parameters.
--   Names.Elements is about one name of a path, Names.Resolve about the whole walk.
-- * Grep (projects/xv6/grep.c): the matcher of regular expressions, and in Grep.Language what they mean.
-- * Log (projects/xv6/log.c): the write-ahead log. A state has the disk, the contents that the cache
--   pins, `struct log`, the number of block writes that are left before the power fails, and the
--   number of buffers that are dirty or held: bread panics where all NBUF are, sleeps for ever on a
--   block that its caller holds already, and brelse gives the buffer back.
--   Log.Outcomes has the rule for sequences, Log.Install, Log.Header and Log.Settle take the parts of
--   a commit one by one, Log.Commit and Log.Recover put them together, Log.Power counts the writes,
--   Log.Write is log_write, and Log.Reserve interleaves system calls.
--
-- Machine integers are natural numbers with their wrap-around written out; an `int` that is never
-- negative is a number. Loops over an array or a count recur on the rounds that are left: balloc has a
-- round for each block of the bitmap, readi and writei one for each byte at most. The loops of strlen,
-- freerange, namex and bget take fuel, and their theorems say how much is enough: one round more than
-- the string has bytes, the range pages, the path names or the cache buffers. So does filewrite, about
-- which nothing is shown but a run.
--
-- Not modelled: that bread may find no free buffer under Fs, Inode, Icache and Directory, as it does in
-- Log and Bcache; virtual memory and system calls; devices, boot code and trap entry, whose effect is in
-- hardware; the debugging parts of locks; user programs but the matcher of grep; and the Zig chapters
-- of the repository.
mod Prelude
pub mod StringOps
pub mod Log
pub mod Pipe
pub mod Kalloc
pub mod Spinlock
pub mod Proc
pub mod File
pub mod Names
pub mod Fs
pub mod Inode
pub mod Icache
pub mod Directory
pub mod Grep
pub mod Sleeplock
pub mod Bcache
