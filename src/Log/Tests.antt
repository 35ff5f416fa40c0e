-- ===== src/Log/Tests.antt =====
-- The log run at concrete inputs, and the theorems at them.
use xv6_learn.Common.{
  ℕ, zero, suc, ◌+◌, ◌-◌, ◌^◌, ◌≡◌, ◌⊎◌, refl, true, false, List, [], ◌∷◌, ◌++◌, arith, replicate,
  length-replicate, if◌then◌else◌, ◌==◌, take,
}
use xv6_learn.Log.{
  Block, Disk, Store, Log, put_head, get_head, commit, log_write, replay, initlog, reboot, begin_op,
}
use xv6_learn.Log.Commit.{Ready}
use xv6_learn.Log.Crash.{restart, IsOld, IsNew}
use xv6_learn.Log.Crash.Durable.{Durable, commit-atomic, commit-Durable}
use xv6_learn.Log.Absorb.{recover-refs}
use xv6_learn.Log.Reserve.{System, Event, begin, write, finish, commit_done, panicked, run}

abbrev zeros : Block
zeros = replicate 256 0

-- Two blocks, 50 and 60, are changed in the buffers and logged; the log starts at block 2.
abbrev log : Log
log = record { start = 2; size = 31; outstanding = 0; committing = true; lh = 50 ∷ 60 ∷ [] }

abbrev store : Store
store = record {
  view = λ b. if b == 50 then 5 ∷ [] else if b == 60 then 6 ∷ [] else zeros;
  disk = λ b. zeros;
  refs = λ b. 1;
  writes = [];
}

log-Ready : Ready log store
unfolding get_head
log-Ready = record {
  words = omega (arith, length-replicate {A = ℕ} 256 0);
  fits = omega arith;
  homes = omega arith;
  clean = refl;
}

commit-atomic_example :
    let d = restart log (replay (take 3 (commit log store).1.writes) store.disk) in
    IsOld log store d ⊎ IsNew log store d
commit-atomic_example = commit-atomic log store 3 log-Ready refl

commit-Durable_example : Durable log store (commit log store)
commit-Durable_example = commit-Durable log store log-Ready

-- A disk whose log holds one committed block.
abbrev committed : Disk
committed b = if b == 2 then put_head (50 ∷ []) zeros else zeros

recover-refs_example : (initlog 2 31 (reboot committed)).1.refs 50 ≡ 2 ^ 32 - 1
unfolding put_head get_head
recover-refs_example = recover-refs 2 31 committed 50 (refl, tt) refl

abbrev idle : System
idle = record {
  log = record { start = 2; size = 31; outstanding = 0; committing = false; lh = [] };
  store = record store { view = λ b. zeros };
  left = [];
}

abbrev script : List Event
script =
    begin
    ∷ write 0 50 (5 ∷ [])
    ∷ write 0 50 (7 ∷ [])
    ∷ begin
    ∷ write 1 60 (6 ∷ [])
    ∷ finish 0
    ∷ finish 0
    ∷ commit_done
    ∷ []

-- Three calls of ten blocks each against the log of 30 blocks that mkfs makes.
abbrev short : System
short = record idle { log = record idle.log { size = 30 } }

abbrev writes_from : ℕ → ℕ → ℕ → List Event
writes_from i b zero = []
writes_from i b (suc n) = write i b zeros ∷ writes_from i (b + 1) n

abbrev three_calls : List Event
three_calls =
    begin ∷ begin ∷ begin ∷ writes_from 0 100 10 ++ (writes_from 1 110 10 ++ writes_from 2 120 10)

three_calls_panic : run 10 three_calls short ≡ panicked
unfolding run log_write begin_op
three_calls_panic = refl

-- The same with a log of more than LOGSIZE blocks: the calls have logged what they may, and a write
-- to a block that is logged panics.
full_log_panic : run 10 (three_calls ++ (write 0 100 zeros ∷ [])) idle ≡ panicked
unfolding run log_write begin_op
full_log_panic = refl
