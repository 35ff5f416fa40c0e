-- ===== src/Lock.antt =====
-- kernel/spinlock.c: spin locks and the nesting of `push_off`, and the processors' part of
-- kernel/proc.h. A processor is a number below NCPU.
pub mod Interrupts
pub mod Race
mod Tests
use xv6_learn.Common.{ℕ, ◌+◌, ◌-◌, Bool, true, false, ◌&&◌, Option, none, some, ◌==◌, if◌then◌else◌}

-- `struct cpu`: the depth of `push_off` nesting and whether interrupts were on before it. `intr` is
-- the SIE bit of the processor's `sstatus`, which `intr_get` reads.
pub record Cpu : Type 0 where
  pub noff : ℕ
  pub intena : Bool
  pub intr : Bool

-- `struct spinlock`; `cpu` is null or the processor that holds it.
pub record Spinlock : Type 0 where
  pub locked : Bool
  pub cpu : Option ℕ

pub initlock : Spinlock
initlock = record { locked = false; cpu = none }

pub push_off : Cpu → Cpu
push_off c = record {
  noff = c.noff + 1;
  intena = if c.noff == 0 then c.intr else c.intena;
  intr = false;
}

-- `none` is a panic.
pub pop_off : Cpu → Option Cpu
pop_off c =
    if c.intr
    then none
    else if c.noff == 0
    then none
    else some (record c { noff = c.noff - 1; intr = (c.noff - 1 == 0) && c.intena })

abbrev pub is_cpu : Option ℕ → ℕ → Bool
is_cpu none i = false
is_cpu (some j) i = j == i

pub holding : Spinlock → ℕ → Bool
holding lk i = lk.locked && is_cpu lk.cpu i

-- `acquire` and `release` of processor `i` where no other processor acts in between: `none` is a
-- panic, and `some none` is a spin that does not end before the lock is released.
unfoldable pub acquire : ℕ → Cpu → Spinlock → Option (Option (Cpu × Spinlock))
unfolding holding push_off
acquire i c lk =
    let c' = push_off c in
    if holding lk i
    then none
    else if lk.locked
    then some none
    else some (some (c', record { locked = true; cpu = some i }))

unfoldable pub release : ℕ → Cpu → Spinlock → Option (Cpu × Spinlock)
unfolding holding pop_off
release i c lk =
    if holding lk i
    then elim (pop_off c) [
      | none ↦ none
      | some c' ↦ some (c', record { locked = false; cpu = none })
    ]
    else none
