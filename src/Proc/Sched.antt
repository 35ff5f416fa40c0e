-- ===== src/Proc/Sched.antt =====
-- `scheduler`, `sched`, `yield`, `sleep`, `wakeup` and `kill` of kernel/proc.c, on the table of
-- processes.
use xv6_learn.Common.{
  ℕ, Bool, true, false, not, ◌&&◌, none, some, List, [], ◌∷◌, map, ◌==◌, if◌then◌else◌, get_elem?,
}
use xv6_learn.Proc.{
  ProcState, runnable, running, sleeping, Chan, null, Proc, is_sleeping, is_runnable, is_running,
  chan_eq, modify,
}

-- The checks of `sched` at its start: false is a panic. `held` is whether the processor holds
-- `p->lock`, `noff` its depth of `push_off` and `intr` its interrupt flag.
unfoldable pub sched_ok : Bool → (noff : ℕ) → ProcState → Bool → Bool
sched_ok held noff state intr = held && (noff == 1) && not (is_running state) && not intr

-- The body of the scheduler's loop for entry `i`: whether it is chosen, and the table.
unfoldable pub dispatch : ℕ → List Proc → Bool × List Proc
dispatch i ps = elim (get_elem? ps i) [
  | none ↦ (false, ps)
  | some p ↦
      if is_runnable p.state
      then (true, modify ps i (λ q. record q { state = running }))
      else (false, ps)
]

-- `yield` in process `i`, up to `sched`.
unfoldable pub yield_proc : ℕ → List Proc → List Proc
yield_proc i ps = modify ps i (λ q. record q { state = runnable })

-- `sleep` in process `i`, up to `sched`, and what it does when it is scheduled again.
unfoldable pub sleep : ℕ → Chan → List Proc → List Proc
sleep i chan ps = modify ps i (λ q. record q { chan = chan; state = sleeping })

unfoldable pub resume : ℕ → List Proc → List Proc
resume i ps = modify ps i (λ q. record q { chan = null })

abbrev pub roused : Chan → Proc → Proc
roused chan p =
    if is_sleeping p.state && chan_eq p.chan chan then record p { state = runnable } else p

unfoldable pub wakeup : Chan → List Proc → List Proc
wakeup chan ps = map (roused chan) ps

abbrev pub killed_proc : Proc → Proc
killed_proc p = record p {
  killed = true;
  state = if is_sleeping p.state then runnable else p.state;
}

-- The result is whether there is such a process (0, and not -1).
unfoldable pub kill : ℕ → List Proc → Bool × List Proc
kill pid [] = (false, [])
kill pid (p ∷ ps) =
    let (found, rest) = kill pid ps in
    if p.pid == pid then (true, killed_proc p ∷ ps) else (found, p ∷ rest)
