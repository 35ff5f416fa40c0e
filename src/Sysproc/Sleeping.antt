-- ===== src/Sysproc/Sleeping.antt =====
-- When `sys_sleep` returns, over the ticks of the clock.
use xv6_learn.Common.{ℕ, ◌+◌, ◌-◌, ◌%◌, ◌^◌, ◌<◌, ◌≡◌, refl, arith, Bool, ltb, if◌then◌else◌}
use xv6_learn.Sysproc.{woke, gave_up, asleep, sys_sleep}

-- With `k` ticks of the clock since the call, fewer than 2^32, `sys_sleep` returns 0 where these are `n`
-- at least, though the count of ticks wraps; before that it sleeps, or gives up if the process is killed.
pub sys_sleep-ticks :
    (n ticks0 k : ℕ) (killed : Bool)
    → ticks0 < 2 ^ 32
    → k < 2 ^ 32
    → sys_sleep n ticks0 ((ticks0 + k) % 2 ^ 32) killed
      ≡ (if ltb k n then (if killed then gave_up else asleep) else woke)
unfolding sys_sleep
sys_sleep-ticks n ticks0 k killed h l =
    let e : ((ticks0 + k) % 2 ^ 32 + 2 ^ 32 - ticks0) % 2 ^ 32 ≡ k = omega arith in rw e refl
