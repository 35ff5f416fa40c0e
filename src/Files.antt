-- ===== src/Files.antt =====
-- kernel/file.c: the table of open files and the dispatch on their types. Pipes, inodes and devices
-- enter as an interface; a result of -1 is `none`. `ftable.lock` is held around each change of the
-- table; a call of the interface runs without it. `off` is a `uint`, `major` the bit pattern of a
-- `short`; the counts `n` that reads and writes ask for are not negative.
pub mod Refs
pub mod Steps
pub mod Chunks
pub mod Sample
mod Tests
use xv6_learn.Common.{
  ℕ, zero, suc, ◌+◌, ◌-◌, ◌*◌, ◌/◌, ◌%◌, ◌^◌, Bool, true, false, not, Option, none, some, List, [],
  ◌∷◌, ◌==◌, ltb, if◌then◌else◌, get_elem?, set,
}

abbrev pub ndev : ℕ
ndev = 10

-- ((MAXOPBLOCKS - 1 - 1 - 2) / 2) * BSIZE
abbrev pub max_chunk : ℕ
max_chunk = (10 - 1 - 1 - 2) / 2 * 1024

pub data FileType : Type 0 where
  fd_none fd_pipe fd_inode fd_device : FileType

-- `struct file`; `pipe` and `ip` are addresses.
pub record File : Type 0 where
  pub kind : FileType
  pub ref : ℕ
  pub readable : Bool
  pub writable : Bool
  pub pipe : ℕ
  pub ip : ℕ
  pub off : ℕ
  pub major : ℕ

-- What kernel/file.c calls: kernel/pipe.c, kernel/log.c, kernel/fs.c, the devices of `devsw` and
-- `copyout`. A device without the operation is `none`.
pub record FileServices : Type 1 where
  pub Rest : Type 0
  pub pipeclose : (pipe : ℕ) → (writable : Bool) → Rest → Rest
  pub piperead : (pipe addr n : ℕ) → Rest → Option ℕ × Rest
  pub pipewrite : (pipe addr n : ℕ) → Rest → Option ℕ × Rest
  pub devread : (major : ℕ) → Option ((addr n : ℕ) → Rest → Option ℕ × Rest)
  pub devwrite : (major : ℕ) → Option ((addr n : ℕ) → Rest → Option ℕ × Rest)
  pub begin_transaction : Rest → Rest
  pub end_transaction : Rest → Rest
  pub put_inode : (ip : ℕ) → Rest → Rest
  pub ilock : (ip : ℕ) → Rest → Rest
  pub iunlock : (ip : ℕ) → Rest → Rest
  -- The fields of a `struct stat`, and their copy to the user.
  pub stati : (ip : ℕ) → Rest → List ℕ
  pub copyout_stat : (addr : ℕ) → List ℕ → Rest → Bool × Rest
  pub readi : (ip addr off n : ℕ) → Rest → Option ℕ × Rest
  pub writei : (ip addr off n : ℕ) → Rest → Option ℕ × Rest

-- The first file that is not in use, from index `i` on.
abbrev pub find_free : ℕ → List File → Option (ℕ × File)
find_free i [] = none
find_free i (f ∷ fs) = if f.ref == 0 then some (i, f) else find_free (i + 1) fs

unfoldable pub filealloc : List File → Option ℕ × List File
filealloc fs = elim (find_free 0 fs) [
  | none ↦ (none, fs)
  | some (i, f) ↦ (some i, set fs i (record f { ref = 1 }))
]

-- `none` is a panic.
pub filedup : ℕ → List File → Option (List File)
filedup i fs = elim (get_elem? fs i) [
  | none ↦ none
  | some f ↦ if ltb f.ref 1 then none else some (set fs i (record f { ref = f.ref + 1 }))
]

-- How much of a loop of chunks is done, or a panic.
pub data Written : Type 0 where
  panicked : Written
  stopped : (i : ℕ) → Written

module _ (v : FileServices) where
  open v use {
    Rest, pipeclose, piperead, pipewrite, devread, devwrite, begin_transaction, end_transaction,
    put_inode, ilock, iunlock, stati, copyout_stat, readi, writei,
  }

  -- What `fileclose` does with the copy of a file that nobody holds any more.
  pub let_go : File → Rest → Rest
  let_go f r = elim f.kind [
    | fd_none ↦ r
    | fd_pipe ↦ pipeclose f.pipe f.writable r
    | fd_inode ↦ end_transaction (put_inode f.ip (begin_transaction r))
    | fd_device ↦ end_transaction (put_inode f.ip (begin_transaction r))
  ]

  pub fileclose : ℕ → List File → Rest → Option (List File × Rest)
  unfolding let_go
  fileclose i fs r = elim (get_elem? fs i) [
    | none ↦ none
    | some f ↦
        if ltb f.ref 1
        then none
        else if ltb 0 (f.ref - 1)
        then some (set fs i (record f { ref = f.ref - 1 }), r)
        else some (set fs i (record f { ref = 0; kind = fd_none }), let_go f r)
  ]

  pub stat_inode : (ip addr : ℕ) → Rest → Bool × Rest
  stat_inode ip addr r = let r1 = ilock ip r in copyout_stat addr (stati ip r1) (iunlock ip r1)

  pub filestat : File → (addr : ℕ) → Rest → Bool × Rest
  unfolding stat_inode
  filestat f addr r = elim f.kind [
    | fd_none ↦ (false, r)
    | fd_pipe ↦ (false, r)
    | fd_inode ↦ stat_inode f.ip addr r
    | fd_device ↦ stat_inode f.ip addr r
  ]

  -- The file's offset is changed by a read or a write of an inode. The outer `none` is a panic.
  pub fileread : File → (addr n : ℕ) → Rest → Option (Option ℕ × File × Rest)
  fileread f addr n r = if not f.readable then some (none, f, r) else elim f.kind [
    | fd_none ↦ none
    | fd_pipe ↦ let (c, r1) = piperead f.pipe addr n r in some (c, f, r1)
    | fd_device ↦
        if ltb f.major ndev
        then elim (devread f.major) [
          | none ↦ some (none, f, r)
          | some read ↦ let (c, r1) = read addr n r in some (c, f, r1)
        ]
        else some (none, f, r)
    | fd_inode ↦
        (let (c, r1) = readi f.ip addr f.off n (ilock f.ip r) in
          elim c [
            | none ↦ some (none, f, iunlock f.ip r1)
            | some k ↦ some (some k, record f { off = (f.off + k) % 2 ^ 32 }, iunlock f.ip r1)
          ])
  ]

  -- The loop of `filewrite` from byte `i` on.
  pub write_chunks : (fuel addr n i : ℕ) → File → Rest → Written × File × Rest
  write_chunks zero addr n i f r = (stopped i, f, r)
  write_chunks (suc fuel) addr n i f r =
      if ltb i n
      then (let n1 = if ltb max_chunk (n - i) then max_chunk else n - i in
          let (c, r1) =
            writei f.ip ((addr + i) % 2 ^ 64) f.off n1 (ilock f.ip (begin_transaction r)) in
          let r2 = end_transaction (iunlock f.ip r1) in
          elim c [
            | none ↦ (stopped i, f, r2)
            | some k ↦
                (let f1 = record f { off = (f.off + k) % 2 ^ 32 } in
                  let rest = write_chunks fuel addr n (i + k) f1 r2 in
                  if k == n1 then rest else (panicked, f1, r2))
          ])
      else (stopped i, f, r)

  pub filewrite : File → (addr n : ℕ) → Rest → Option (Option ℕ × File × Rest)
  unfolding write_chunks
  filewrite f addr n r = if not f.writable then some (none, f, r) else elim f.kind [
    | fd_none ↦ none
    | fd_pipe ↦ let (c, r1) = pipewrite f.pipe addr n r in some (c, f, r1)
    | fd_device ↦
        if ltb f.major ndev
        then elim (devwrite f.major) [
          | none ↦ some (none, f, r)
          | some write ↦ let (c, r1) = write addr n r in some (c, f, r1)
        ]
        else some (none, f, r)
    | fd_inode ↦
        (let (w, f1, r1) = write_chunks n addr n 0 f r in
          elim w [ panicked ↦ none | stopped i ↦ some (if i == n then some n else none, f1, r1) ])
  ]
