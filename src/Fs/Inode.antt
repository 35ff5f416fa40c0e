-- ===== src/Fs/Inode.antt =====
-- Inodes of kernel/fs.c on the disk and in memory: `struct dinode` and `iupdate`, and the inode
-- cache with `iget`, `idup`, `ialloc`, `ilock` and `iunlock`. A `short` is its bit pattern.
pub mod Record
pub mod Cache
use xv6_learn.Common.{
  ℕ, zero, suc, ◌+◌, ◌*◌, ◌/◌, ◌%◌, Bool, true, false, not, ◌&&◌, ◌||◌, Option, none, some, List,
  [], ◌∷◌, ◌==◌, ltb, if◌then◌else◌, get_elem?, set,
}
use xv6_learn.Sleep.{Sleeplock, acquiresleep, releasesleep, holdingsleep}
use xv6_learn.Fs.{Superblock, Bytes, Blocks, logged_write, change, ipb, iblock}
use xv6_learn.Fs.Words.{get_le, put_le}

-- `struct inode`; `addrs` has NDIRECT + 1 words.
pub record Inode : Type 0 where
  pub dev : ℕ
  pub inum : ℕ
  pub ref : ℕ
  pub lock : Sleeplock
  pub valid : Bool
  pub kind : ℕ
  pub major : ℕ
  pub minor : ℕ
  pub nlink : ℕ
  pub size : ℕ
  pub addrs : List ℕ

-- Where the `struct dinode` of an inode stands in its block; it has 64 bytes.
abbrev pub dinode_at : ℕ → ℕ
dinode_at inum = inum % ipb * 64

pub get_addrs : (n j : ℕ) → Bytes → List ℕ
get_addrs zero j f = []
get_addrs (suc n) j f = get_le 4 j f ∷ get_addrs n (j + 4) f

pub put_addrs : List ℕ → ℕ → Bytes → Bytes
put_addrs [] j f = f
put_addrs (a ∷ bs) j f = put_addrs bs (j + 4) (put_le 4 j a f)

-- The fields of an inode from its `struct dinode`.
pub read_dinode : Inode → Bytes → Inode
unfolding get_addrs
read_dinode ip f =
    let o = dinode_at ip.inum in
    record ip {
      kind = get_le 2 o f;
      major = get_le 2 (o + 2) f;
      minor = get_le 2 (o + 4) f;
      nlink = get_le 2 (o + 6) f;
      size = get_le 4 (o + 8) f;
      addrs = get_addrs 13 (o + 12) f;
    }

pub write_dinode : Inode → Bytes → Bytes
unfolding put_addrs
write_dinode ip f =
    let o = dinode_at ip.inum in
    let f1 = put_le 2 o ip.kind f in
    let f2 = put_le 2 (o + 2) ip.major f1 in
    let f3 = put_le 2 (o + 4) ip.minor f2 in
    let f4 = put_le 2 (o + 6) ip.nlink f3 in
    put_addrs ip.addrs (o + 12) (put_le 4 (o + 8) ip.size f4)

-- The entries of the inode cache that pass or are passed over by `iget`: the first in use for the
-- inode, and the first that is free.
abbrev pub matches : (dev inum : ℕ) → Inode → Bool
matches dev inum ip = ltb 0 ip.ref && (ip.dev == dev && ip.inum == inum)

-- What the loop of `iget` from entry `i` on returns: the cached inode, or else the free entry that
-- it remembers.
pub data Found : Type 0 where
  cached : ℕ → Inode → Found
  empty : Option (ℕ × Inode) → Found

abbrev pub or_else : Option (ℕ × Inode) → Option (ℕ × Inode) → Option (ℕ × Inode)
or_else none o = o
or_else (some e) o = some e

unfoldable pub iget_loop : (dev inum i : ℕ) → Option (ℕ × Inode) → List Inode → Found
iget_loop dev inum i e [] = empty e
iget_loop dev inum i e (ip ∷ ips) =
    let rest =
      iget_loop dev inum (i + 1) (or_else e (if ip.ref == 0 then some (i, ip) else none)) ips in
    if matches dev inum ip then cached i ip else rest

-- `none` is a panic.
unfoldable pub iget : (dev inum : ℕ) → List Inode → Option (ℕ × List Inode)
unfolding iget_loop
iget dev inum ips = elim (iget_loop dev inum 0 none ips) [
  | cached i ip ↦ some (i, set ips i (record ip { ref = ip.ref + 1 }))
  | empty none ↦ none
  | empty (some (i, ip)) ↦
      some (i, set ips i (record ip { dev = dev; inum = inum; ref = 1; valid = false }))
]

pub idup : ℕ → List Inode → List Inode
idup i ips = elim (get_elem? ips i) [
  | none ↦ ips
  | some ip ↦ set ips i (record ip { ref = ip.ref + 1 })
]

-- How a call that takes a sleep lock ends.
pub data Locked {ℓ} (A : Type ℓ) : Type ℓ where
  panics sleeps : Locked A
  done : A → Locked A

module _ (sb : Superblock) where
  pub iupdate : Inode → Blocks → Blocks
  unfolding write_dinode
  iupdate ip s = logged_write (iblock sb ip.inum) (change (iblock sb ip.inum) (write_dinode ip) s)

  -- A round of `ilock` by process `p`.
  pub ilock : (p : ℕ) → Inode → Blocks → Locked Inode
  unfolding acquiresleep read_dinode
  ilock p ip s = if ltb ip.ref 1 then panics else elim (acquiresleep p ip.lock) [
    | none ↦ sleeps
    | some lk ↦
        (let held = record ip { lock = lk } in
          let filled = record (read_dinode held (s.bytes (iblock sb ip.inum))) { valid = true } in
          if ip.valid then done held else if filled.kind == 0 then panics else done filled)
  ]

  -- `none` is a panic. Those that `releasesleep` wakes are not part of the entry.
  pub iunlock : (p : ℕ) → Inode → Option Inode
  unfolding releasesleep holdingsleep
  iunlock p ip =
      if not (holdingsleep p ip.lock) || ltb ip.ref 1
      then none
      else some (record ip { lock = (releasesleep ip.lock).0 })

  -- The loop of `ialloc` from inode `inum` on, for at most `n` inodes.
  pub ialloc_loop : (n inum : ℕ) → Blocks → Option ℕ
  ialloc_loop zero inum s = none
  ialloc_loop (suc n) inum s =
      let rest = ialloc_loop n (inum + 1) s in
      if ltb inum sb.ninodes
      then (if get_le 2 (dinode_at inum) (s.bytes (iblock sb inum)) == 0 then some inum else rest)
      else none

  -- `memset(dip, 0, sizeof(*dip))`, and `dip->type = type`.
  abbrev pub fresh_dinode : (inum kind : ℕ) → Bytes → Bytes
  fresh_dinode inum kind f = put_le 2 (dinode_at inum) kind (put_le 64 (dinode_at inum) 0 f)

  pub ialloc : (dev kind : ℕ) → List Inode → Blocks → Option (ℕ × List Inode × Blocks)
  unfolding ialloc_loop iget
  ialloc dev kind ips s = elim (ialloc_loop sb.ninodes 1 s) [
    | none ↦ none
    | some inum ↦ elim (iget dev inum ips) [
      | none ↦ none
      | some (i, ips') ↦ some (
        i,
        ips',
        logged_write (iblock sb inum) (change (iblock sb inum) (fresh_dinode inum kind) s),
      )
    ]
  ]
