-- ===== src/Lock/Race.antt =====
-- `acquire` and `release` of kernel/spinlock.c on many processors at once, one memory access or
-- atomic swap at a time; `holding` reads `locked` and `cpu` one after the other.
pub mod Exclusion
pub mod Atomic
use xv6_learn.Common.{
  ℕ, Bool, true, false, Option, none, some, List, [], ◌∷◌, if◌then◌else◌, update,
}
use xv6_learn.Lock.{Cpu, Spinlock, initlock, is_cpu, push_off, pop_off}

-- Where a processor stands. In `idle` it is outside; `critical` is between `acquire` and `release`.
pub data Pc : Type 0 where
  idle : Pc
  -- `acquire`, after `push_off`: the two reads of `holding`, the spin, `lk->cpu = mycpu()`.
  test_locked test_cpu spinning won : Pc
  critical : Pc
  -- `release`: the two reads of `holding`, `lk->cpu = 0`, `locked = 0`, `pop_off`.
  check_locked check_cpu clearing unlocking popping : Pc
  panicked : Pc

pub record System : Type 0 where
  pub lock : Spinlock
  pub cpus : ℕ → Cpu
  pub pc : ℕ → Pc

abbrev pub goto : System → ℕ → Pc → System
goto s i p = record s { pc = update s.pc i p }

-- The next access of processor `i`, which stands at `p`.
unfoldable pub step_at : Pc → ℕ → System → System
unfolding push_off pop_off
step_at idle i s = record s {
  cpus = update s.cpus i (push_off (s.cpus i));
  pc = update s.pc i test_locked;
}
step_at test_locked i s = goto s i (if s.lock.locked then test_cpu else spinning)
step_at test_cpu i s = goto s i (if is_cpu s.lock.cpu i then panicked else spinning)
step_at spinning i s = record s {
  lock = record { locked = true; cpu = s.lock.cpu };
  pc = update s.pc i (if s.lock.locked then spinning else won);
}
step_at won i s = record s {
  lock = record { locked = s.lock.locked; cpu = some i };
  pc = update s.pc i critical;
}
step_at critical i s = goto s i check_locked
step_at check_locked i s = goto s i (if s.lock.locked then check_cpu else panicked)
step_at check_cpu i s = goto s i (if is_cpu s.lock.cpu i then clearing else panicked)
step_at clearing i s = record s {
  lock = record { locked = s.lock.locked; cpu = none };
  pc = update s.pc i unlocking;
}
step_at unlocking i s = record s {
  lock = record { locked = false; cpu = s.lock.cpu };
  pc = update s.pc i popping;
}
step_at popping i s = elim (pop_off (s.cpus i)) [
  | none ↦ goto s i panicked
  | some c ↦ record s { cpus = update s.cpus i c; pc = update s.pc i idle }
]
step_at panicked i s = s

unfoldable pub step : ℕ → System → System
unfolding step_at
step i s = step_at (s.pc i) i s

-- The processors act in the order of the list.
unfoldable pub run : List ℕ → System → System
unfolding step
run [] s = s
run (i ∷ is) s = run is (step i s)

-- All outside, with interrupts as they may be.
unfoldable pub start : (ℕ → Bool) → System
unfolding initlock
start on = record {
  lock = initlock;
  cpus = λ i. record { noff = 0; intena = false; intr = on i };
  pc = λ i. idle;
}
