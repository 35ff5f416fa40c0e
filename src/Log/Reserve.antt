-- ===== src/Log/Reserve.antt =====
-- The reservations of `begin_op`: file system calls that each log a bounded number of blocks, in any
-- order and with any number of writes to blocks that are logged already, against the log's capacity.
pub mod Budget
pub mod Room
use xv6_learn.Common.{
  ℕ, zero, suc, ◌+◌, Bool, true, false, Option, none, some, List, [], ◌∷◌, ◌++◌, get_elem?, set,
  if◌then◌else◌, ◌==◌, take, drop,
}
use xv6_learn.Log.{Block, Store, Log, modify, begin_op, end_op, end_commit, log_write}

-- The log, the buffers, and how many blocks each call in progress may still log.
pub record System : Type 0 where
  pub log : Log
  pub store : Store
  pub left : List ℕ

pub data Event : Type 0 where
  -- A call comes to `begin_op`; call `i` changes block `b` and logs it; call `i` comes to `end_op`;
  -- the caller that commits does so.
  begin : Event
  write : (i b : ℕ) → Block → Event
  finish : ℕ → Event
  commit_done : Event

-- `refused`: the event does not occur in this state (the call sleeps, there is no such call, or it
-- comes to a block that is not logged yet and has none left).
pub data Outcome : Type 0 where
  next : System → Outcome
  refused : Outcome
  panicked : Outcome

abbrev pub spend : Option ℕ → Option ℕ
spend (some (suc m)) = some m
spend _ = none

abbrev pub remove : List ℕ → ℕ → List ℕ
remove [] i = []
remove (x ∷ xs) zero = xs
remove (x ∷ xs) (suc i) = x ∷ remove xs i

abbrev pub logged : List ℕ → ℕ → Bool
logged [] b = false
logged (x ∷ xs) b = if x == b then true else logged xs b

-- What call `i` has left for a write to block `b`: one block less, unless the log has `b` already.
abbrev pub allowed : (is_logged : Bool) → Option ℕ → Option ℕ
allowed true o = o
allowed false o = spend o

-- `cap` is the number of blocks that each call logs at most.
module _ (cap : ℕ) where
  pub exec : Event → System → Outcome
  exec begin s = elim (begin_op s.log) [
    | none ↦ refused
    | some l ↦ next (record s { log = l; left = cap ∷ s.left })
  ]
  exec (write i b d) s = elim (allowed (logged s.log.lh b) (get_elem? s.left i)) [
    | none ↦ refused
    | some m ↦ elim (log_write b s.log (modify b d s.store)) [
      | none ↦ panicked
      | some (l, st) ↦ next (record { log = l; store = st; left = set s.left i m })
    ]
  ]
  exec (finish i) s = elim (get_elem? s.left i) [
    | none ↦ refused
    | some m ↦ elim (end_op s.log) [
      | none ↦ panicked
      | some (l, c) ↦ next (record s { log = l; left = remove s.left i })
    ]
  ]
  exec commit_done s =
      if s.log.committing
      then (let (l, st) = end_commit s.log s.store in next (record s { log = l; store = st }))
      else refused

  -- An event that is refused is passed over; a panic ends the run.
  unfoldable pub run : List Event → System → Outcome
  unfolding exec
  run [] s = next s
  run (e ∷ es) s = elim (exec e s) [ next t ↦ run es t | refused ↦ run es s | panicked ↦ panicked ]
