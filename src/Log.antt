-- ===== src/Log.antt =====
-- kernel/log.c: the redo log of the file system, over the buffer cache of kernel/bio.c. A block is
-- its 256 words; the header block holds the number of logged blocks and then their numbers. The
-- in-memory header is the list of these numbers (`lh.block` past `lh.n` is never read).
pub mod Header
pub mod Loops
pub mod Along
pub mod Commit
pub mod Crash
pub mod Reserve
pub mod Absorb
mod Tests
use xv6_learn.Common.{
  ℕ, zero, suc, ◌+◌, ◌-◌, ◌*◌, ◌%◌, ◌^◌, Bool, true, false, ◌||◌, Option, none, some, List, [], ◌∷◌,
  ◌++◌, ◌==◌, ltb, leb, if◌then◌else◌, get_or, set, length, update, not,
}

abbrev pub maxopblocks : ℕ
maxopblocks = 10

abbrev pub logsize : ℕ
logsize = 30

abbrev pub Block : Type 0
Block = List ℕ

abbrev pub Disk : Type 0
Disk = ℕ → Block

-- What the log sees of the buffer cache and the disk below it: what `bread` of a block returns, what
-- the disk holds, the reference count of the block's buffer (`uint`) outside the log's own calls,
-- and the writes that the disk has taken, the first first.
pub record Store : Type 0 where
  pub view : ℕ → Block
  pub disk : Disk
  pub refs : ℕ → ℕ
  pub writes : List (ℕ × Block)

-- `bwrite` of the buffer of block `b`.
abbrev pub bwrite : ℕ → Store → Store
bwrite b st = record st {
  disk = update st.disk b (st.view b);
  writes = st.writes ++ ((b, st.view b) ∷ []);
}

-- A change of the data in the buffer of block `b`.
abbrev pub modify : ℕ → Block → Store → Store
modify b d st = record st { view = update st.view b d }

abbrev pub bpin : ℕ → Store → Store
bpin b st = record st { refs = update st.refs b ((st.refs b + 1) % 2 ^ 32) }

abbrev pub bunpin : ℕ → Store → Store
bunpin b st = record st { refs = update st.refs b ((st.refs b + 2 ^ 32 - 1) % 2 ^ 32) }

-- `struct log`, less its lock and the device; the words are `int`s.
pub record Log : Type 0 where
  pub start : ℕ
  pub size : ℕ
  pub outstanding : ℕ
  pub committing : Bool
  pub lh : List ℕ

-- `hb->block[i] = log.lh.block[i]` from word `i` of the block on.
pub put_words : List ℕ → ℕ → Block → Block
put_words [] i d = d
put_words (b ∷ bs) i d = put_words bs (i + 1) (set d i b)

pub get_words : ℕ → ℕ → Block → List ℕ
get_words zero i d = []
get_words (suc n) i d = get_or d i 0 ∷ get_words n (i + 1) d

-- The header block with a new header laid over it, and the header that a block holds.
pub put_head : List ℕ → Block → Block
unfolding put_words
put_head bs d = put_words bs 1 (set d 0 (length bs))

pub get_head : Block → List ℕ
unfolding get_words
get_head d = get_words (get_or d 0 0) 1 d

pub write_head : Log → Store → Store
unfolding put_head
write_head l st = bwrite l.start (modify l.start (put_head l.lh (st.view l.start)) st)

pub read_head : Log → Store → Log
unfolding get_head
read_head l st = record l { lh = get_head (st.view l.start) }

-- The loop of `write_log` over the blocks that are left, from log block `at` on.
pub write_log_loop : List ℕ → ℕ → Store → Store
write_log_loop [] at st = st
write_log_loop (b ∷ bs) at st = write_log_loop bs (at + 1) (bwrite at (modify at (st.view b) st))

pub write_log : Log → Store → Store
unfolding write_log_loop
write_log l st = write_log_loop l.lh (l.start + 1) st

-- The loop of `install_trans`.
pub install_loop : List ℕ → ℕ → Store → Store
install_loop [] at st = st
install_loop (b ∷ bs) at st =
    install_loop bs (at + 1) (bunpin b (bwrite b (modify b (st.view at) st)))

pub install_trans : Log → Store → Store
unfolding install_loop
install_trans l st = install_loop l.lh (l.start + 1) st

pub commit : Log → Store → Log × Store
unfolding write_log write_head install_trans
commit l st =
    if ltb 0 (length l.lh)
    then (let l' = record l { lh = [] } in
        (l', write_head l' (install_trans l (write_head l (write_log l st)))))
    else (l, st)

pub recover_from_log : Log → Store → Log × Store
unfolding read_head install_trans write_head
recover_from_log l st =
    let l1 = read_head l st in
    let l2 = record l1 { lh = [] } in (l2, write_head l2 (install_trans l1 st))

-- `initlog` with the superblock's `logstart` and `nlog`; the static `struct log` starts as zeros.
pub initlog : ℕ → ℕ → Store → Log × Store
unfolding recover_from_log
initlog logstart nlog st =
    recover_from_log
      (record { start = logstart; size = nlog; outstanding = 0; committing = false; lh = [] }) st

-- One round of `begin_op`: the new log, or `none` for a sleep on the log.
pub begin_op : Log → Option Log
begin_op l =
    if l.committing
    then none
    else if ltb logsize (length l.lh + (l.outstanding + 1) * maxopblocks)
    then none
    else some (record l { outstanding = l.outstanding + 1 })

-- The first half of `end_op`, to the release of the lock: the new log and whether to commit, or
-- `none` for a panic. Otherwise it wakes those that wait for the log.
pub end_op : Log → Option (Log × Bool)
end_op l =
    let l' = record l { outstanding = (l.outstanding + 2 ^ 32 - 1) % 2 ^ 32 } in
    if l.committing
    then none
    else if l'.outstanding == 0
    then some (record l' { committing = true }, true)
    else some (l', false)

-- The second half, where the caller commits.
pub end_commit : Log → Store → Log × Store
unfolding commit
end_commit l st = let (l', st') = commit l st in (record l' { committing = false }, st')

abbrev pub has : List ℕ → ℕ → Bool
has [] b = false
has (x ∷ xs) b = x == b || has xs b

-- `log_write` of the buffer of block `b`; `none` is a panic.
pub log_write : ℕ → Log → Store → Option (Log × Store)
log_write b l st =
    if leb logsize (length l.lh) || leb l.size (length l.lh + 1)
    then none
    else if ltb l.outstanding 1
    then none
    else if has l.lh b
    then some (l, st)
    else some (record l { lh = l.lh ++ (b ∷ []) }, bpin b st)

-- A crash: the buffers are lost, and the disk has taken the first writes of a list.
unfoldable pub replay : List (ℕ × Block) → Disk → Disk
replay [] d = d
replay ((b, x) ∷ ws) d = replay ws (update d b x)

pub reboot : Disk → Store
reboot d = record { view = d; disk = d; refs = λ b. 0; writes = [] }
