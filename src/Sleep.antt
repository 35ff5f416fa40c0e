-- ===== src/Sleep.antt =====
-- kernel/sleeplock.c: locks that are held over sleeps, by pid. `lk->lk` is held from the start of a
-- call to its return or its `sleep`; a call of `acquiresleep` is modelled by its rounds.
pub mod Holders
mod Tests
use xv6_learn.Common.{ℕ, Bool, true, false, ◌&&◌, Option, none, some, ◌==◌, if◌then◌else◌}

-- `struct sleeplock`, less its spin lock and its name.
pub record Sleeplock : Type 0 where
  pub locked : Bool
  pub pid : ℕ

pub initsleeplock : Sleeplock
initsleeplock = record { locked = false; pid = 0 }

-- One round of process `p`: the lock taken, or `none` for a sleep on the lock.
unfoldable pub acquiresleep : (p : ℕ) → Sleeplock → Option Sleeplock
acquiresleep p lk = if lk.locked then none else some (record { locked = true; pid = p })

-- The lock, and whether those that sleep on it are woken.
unfoldable pub releasesleep : Sleeplock → Sleeplock × Bool
releasesleep lk = (record { locked = false; pid = 0 }, true)

unfoldable pub holdingsleep : (p : ℕ) → Sleeplock → Bool
holdingsleep p lk = lk.locked && (lk.pid == p)
