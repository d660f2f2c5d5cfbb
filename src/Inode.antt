-- ===== src/Inode.antt =====
-- projects/xv6/fs.c, the inode layer, over the block layer of Fs: the inode on disk and in memory, the map
-- from a file's blocks to the disk's, and reads and writes. The caller holds the inode's lock.
pub mod Slots
pub mod Map
pub mod Bmap
pub mod Read
pub mod Changes
pub mod Write
pub mod Disk
pub mod Trunc
pub mod RoundTrip
mod Tests
use compiling_to_assembly.Prelude.{
  ℕ, zero, suc, ◌+◌, ◌-◌, ◌*◌, ◌/◌, ◌%◌, ◌^◌, min, Bool, true, false, ◌&&◌, ◌||◌, not, Option, none,
  some, ◌==◌, ltb, leb, if◌then◌else◌, update,
}
use compiling_to_assembly.StringOps.{Memory, memset, store_word}
use compiling_to_assembly.Kalloc.{load_word}
use compiling_to_assembly.Fs.{
  Super, Blocks, Attempt, returns, panics, Run, and_then, log_write, ◌>>=◌, ◌>>◌, bsize, balloc,
  bfree,
}

abbrev pub ndirect : ℕ
ndirect = 12

abbrev pub nindirect : ℕ
nindirect = 128

abbrev pub maxfile : ℕ
maxfile = 140

-- inodes in a block
abbrev pub ipb : ℕ
ipb = 8

-- `struct inode` without its lock. `kind` is the C field `type`, and a `short` is its 16 bits.
pub record Inode : Type 0 where
  pub dev : ℕ
  pub inum : ℕ
  pub ref : ℕ
  pub valid : Bool
  pub kind : ℕ
  pub major : ℕ
  pub minor : ℕ
  pub nlink : ℕ
  pub size : ℕ
  pub addrs : ℕ → ℕ

-- `addrs[k]`, allocated if it is 0
pub addr_block : Super → Inode → ℕ → Run (ℕ × Inode)
addr_block sb ip k d = elim (ip.addrs k == 0) [
  | true ↦
      and_then (balloc sb d) (λ x d'. returns (x, record ip { addrs = update (ip.addrs) k x }) d')
  | false ↦ returns (ip.addrs k, ip) d
]

-- entry `bn` of the indirect block `addr`, allocated if it is 0
pub entry_block : Super → ℕ → ℕ → Run ℕ
entry_block sb addr bn d = elim (load_word (d addr) (4 * bn) == 0) [
  | true ↦ and_then (balloc sb d) (λ x d'.
      and_then (log_write sb addr (store_word (d' addr) (4 * bn) x) d') (λ u e. returns x e))
  | false ↦ returns (load_word (d addr) (4 * bn)) d
]

-- `bmap`
pub bmap : Super → Inode → ℕ → Run (ℕ × Inode)
unfolding addr_block entry_block
bmap sb ip bn d = elim (ltb bn ndirect) [
  | true ↦ addr_block sb ip bn d
  | false ↦ elim (ltb (bn - ndirect) nindirect) [
    | false ↦ panics d
    | true ↦
        and_then (addr_block sb ip ndirect d)
          (λ r d'. and_then (entry_block sb (r.0) (bn - ndirect) d') (λ x e. returns (x, r.1) e))
  ]
]

-- `memmove` of `n` bytes between two objects (StringOps.Copy.memmove_lem)
pub splice : Memory → ℕ → Memory → ℕ → ℕ → Memory
splice dst at src from n a = if leb at a && ltb a (at + n) then src (from + (a - at)) else dst a

-- The loop of `readi` from `off` on, with `tot` bytes of `n` done and the rounds left.
pub readi_loop : Super → ℕ → Inode → ℕ → ℕ → ℕ → Memory → Run (Memory × Inode)
unfolding bmap splice
readi_loop sb zero ip off tot n dst d = returns (dst, ip) d
readi_loop sb (suc k) ip off tot n dst d = elim (ltb tot n) [
  | false ↦ returns (dst, ip) d
  | true ↦ and_then (bmap sb ip (off / bsize) d) (λ r d'.
      let m = min (n - tot) (bsize - off % bsize) in
      readi_loop sb k (r.1) (off + m) (tot + m) n (splice dst tot (d' (r.0)) (off % bsize) m) d')
]

-- The part of `readi` behind the test for a device: the count, or `none` for -1.
pub readi_file : Super → Inode → ℕ → ℕ → Memory → Run (Option ℕ × Memory × Inode)
unfolding readi_loop
readi_file sb ip off n dst d = elim (ltb (ip.size) off || ltb ((off + n) % 2 ^ 32) off) [
  | true ↦ returns (none, dst, ip) d
  | false ↦
      let n' = if ltb (ip.size) (off + n) then ip.size - off else n in
      and_then (readi_loop sb n' ip off 0 n' dst d) (λ r d'. returns (some n', r.0, r.1) d')
]

-- The loop of `writei`.
pub writei_loop : Super → ℕ → Inode → ℕ → ℕ → ℕ → Memory → Run Inode
unfolding bmap splice
writei_loop sb zero ip off tot n src d = returns ip d
writei_loop sb (suc k) ip off tot n src d = elim (ltb tot n) [
  | false ↦ returns ip d
  | true ↦ and_then (bmap sb ip (off / bsize) d) (λ r d'.
      let m = min (n - tot) (bsize - off % bsize) in
      and_then (log_write sb (r.0) (splice (d' (r.0)) (off % bsize) src tot m) d')
        (λ u e. writei_loop sb k (r.1) (off + m) (tot + m) n src e))
]

-- One little-endian 16-bit store and load.
pub store_half : Memory → ℕ → ℕ → Memory
store_half m a h = update (update m a (h % 256)) (a + 1) (h / 256 % 256)

unfoldable pub load_half : Memory → ℕ → ℕ
load_half m a = m a + m (a + 1) * 256

-- `memmove` of the `addrs` between memory and disk, with the words left.
pub store_addrs : (ℕ → ℕ) → ℕ → ℕ → Memory → ℕ → Memory
store_addrs addrs zero i m a = m
store_addrs addrs (suc k) i m a = store_addrs addrs k (i + 1) (store_word m (a + 4 * i) (addrs i)) a

pub load_addrs : Memory → ℕ → ℕ → ℕ → (ℕ → ℕ) → ℕ → ℕ
load_addrs m a zero i addrs = addrs
load_addrs m a (suc k) i addrs = load_addrs m a k (i + 1) (update addrs i (load_word m (a + 4 * i)))

-- The fields of a `struct dinode` at address `a`, set from an inode and read into one.
pub put_dinode : Memory → ℕ → Inode → Memory
unfolding store_half store_addrs
put_dinode m a ip =
    store_addrs (ip.addrs) 13 0
      (store_word
        (store_half
          (store_half (store_half (store_half m a (ip.kind)) (a + 2) (ip.major)) (a + 4) (ip.minor))
          (a + 6) (ip.nlink))
        (a + 8) (ip.size))
      (a + 12)

pub get_dinode : Memory → ℕ → Inode → Inode
unfolding load_half load_addrs
get_dinode m a ip = record ip {
  kind = load_half m a;
  major = load_half m (a + 2);
  minor = load_half m (a + 4);
  nlink = load_half m (a + 6);
  size = load_word m (a + 8);
  addrs = load_addrs m (a + 12) 13 0 (ip.addrs);
}

-- `IBLOCK`, and the address of an inode in its block
abbrev pub iblock : Super → ℕ → ℕ
iblock sb i = i / ipb + sb.inodestart

abbrev pub dinode_at : ℕ → ℕ
dinode_at i = i % ipb * 64

-- `iupdate`
unfoldable pub iupdate : Super → Inode → Run (Unit {0})
unfolding put_dinode
iupdate sb ip d =
    log_write sb (iblock sb (ip.inum))
      (put_dinode (d (iblock sb (ip.inum))) (dinode_at (ip.inum)) ip) d

-- The end of `ilock` on what it read; `none` is a panic.
pub checked : Inode → Option Inode
checked ip = if ip.kind == 0 then none else some (record ip { valid = true })

-- `ilock` of an inode that is there, once its sleep lock is held; `none` is a panic.
pub ilock : Super → Inode → Blocks → Option Inode
unfolding get_dinode checked
ilock sb ip d =
    if ltb (ip.ref) 1
    then none
    else if ip.valid
    then some ip
    else checked (get_dinode (d (iblock sb (ip.inum))) (dinode_at (ip.inum)) ip)

-- The part of `writei` behind the test for a device: the count, or `none` for -1.
pub writei_file : Super → Inode → ℕ → ℕ → Memory → Run (Option ℕ × Inode)
unfolding writei_loop iupdate
writei_file sb ip off n src d =
    elim (ltb (ip.size) off || ltb ((off + n) % 2 ^ 32) off || ltb (maxfile * bsize) (off + n)) [
      | true ↦ returns (none, ip) d
      | false ↦ and_then (writei_loop sb n ip off 0 n src d) (λ ip' d'.
          elim (ltb 0 n && ltb (ip'.size) (off + n)) [
            | false ↦ returns (some n, ip') d'
            | true ↦
                let grown = record ip' { size = off + n } in
                and_then (iupdate sb grown d') (λ u e. returns (some n, grown) e)
          ])
    ]

abbrev pub t_dir : ℕ
t_dir = 1

abbrev pub t_dev : ℕ
t_dev = 3

abbrev pub ndev : ℕ
ndev = 10

-- `readi`. The `read` of a device, where it has one, is a parameter; a negative `major` is a 16-bit number
-- above all devices.
unfoldable pub readi :
    (ℕ → Option (Inode → Memory → ℕ → Run (Option ℕ × Memory × Inode)))
    → Super
    → Inode
    → ℕ
    → ℕ
    → Memory
    → Run (Option ℕ × Memory × Inode)
unfolding readi_file
readi devsw sb ip off n dst d =
    if ip.kind == t_dev
    then (if leb ndev (ip.major) then returns (none, dst, ip) d else elim (devsw (ip.major)) [
      | none ↦ returns (none, dst, ip) d
      | some read ↦ read ip dst n d
    ])
    else readi_file sb ip off n dst d

-- `writei`
pub writei :
    (ℕ → Option (Inode → Memory → ℕ → Run (Option ℕ × Inode)))
    → Super
    → Inode
    → ℕ
    → ℕ
    → Memory
    → Run (Option ℕ × Inode)
unfolding writei_file
writei devsw sb ip off n src d =
    if ip.kind == t_dev
    then (if leb ndev (ip.major) then returns (none, ip) d else elim (devsw (ip.major)) [
      | none ↦ returns (none, ip) d
      | some write ↦ write ip src n d
    ])
    else writei_file sb ip off n src d

-- The loop of `itrunc` over the direct blocks from slot `i` on, with the rounds left.
pub free_direct : Super → ℕ → ℕ → Inode → Run Inode
free_direct sb zero i ip d = returns ip d
free_direct sb (suc k) i ip d = elim (ip.addrs i == 0) [
  | true ↦ free_direct sb k (i + 1) ip d
  | false ↦
      and_then (bfree sb (ip.addrs i) d)
        (λ u d'. free_direct sb k (i + 1) (record ip { addrs = update (ip.addrs) i 0 }) d')
]

-- The loop over the entries of the indirect block.
pub free_entries : Super → ℕ → ℕ → ℕ → Run (Unit {0})
free_entries sb zero j addr d = returns tt d
free_entries sb (suc k) j addr d = elim (load_word (d addr) (4 * j) == 0) [
  | true ↦ free_entries sb k (j + 1) addr d
  | false ↦
      and_then (bfree sb (load_word (d addr) (4 * j)) d) (λ u d'. free_entries sb k (j + 1) addr d')
]

-- `itrunc`
pub itrunc : Super → Inode → Run Inode
unfolding free_direct free_entries iupdate
itrunc sb ip d = and_then (free_direct sb ndirect 0 ip d) (λ ip' d'.
    and_then
      (elim (ip'.addrs ndirect == 0) [
        | true ↦ returns ip' d'
        | false ↦ and_then (free_entries sb nindirect 0 (ip'.addrs ndirect) d') (λ u e.
            and_then (bfree sb (ip'.addrs ndirect) e)
              (λ u e'. returns (record ip' { addrs = update (ip'.addrs) ndirect 0 }) e'))
      ])
      (λ ip2 d2.
        let done = record ip2 { size = 0 } in
        and_then (iupdate sb done d2) (λ u e. returns done e)))

-- `struct stat` as `stati` fills it
pub record Stat : Type 0 where
  pub dev : ℕ
  pub ino : ℕ
  pub kind : ℕ
  pub nlink : ℕ
  pub size : ℕ

-- `stati`
pub stati : Inode → Stat
stati ip = record { dev = ip.dev; ino = ip.inum; kind = ip.kind; nlink = ip.nlink; size = ip.size }
