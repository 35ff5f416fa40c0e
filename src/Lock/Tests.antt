-- ===== src/Lock/Tests.antt =====
-- Locks run at concrete inputs, and the theorems at them.
use xv6_learn.Common.{ℕ, ◌≡◌, ◌≢◌, refl, Bool, true, some, List, [], ◌∷◌}
use xv6_learn.Lock.Race.{critical, panicked, run, start}
use xv6_learn.Lock.Race.Exclusion.{IsOff, run-exclusive, run-alive}

abbrev all_on : ℕ → Bool
all_on i = true

-- Processor 1 is inside, and processor 0 spins.
abbrev schedule : List ℕ
schedule = 1 ∷ 0 ∷ 1 ∷ 0 ∷ 1 ∷ 0 ∷ 1 ∷ 0 ∷ []

inside : (run schedule (start all_on)).pc 1 ≡ critical
unfolding run start
inside = refl

run-exclusive_example :
    (◌≡◌ {A = ℕ} 1 1)
    × ((run schedule (start all_on)).lock.locked ≡ true)
    × ((run schedule (start all_on)).lock.cpu ≡ some 1)
run-exclusive_example = run-exclusive schedule all_on 1 1 inside inside

run-alive_example :
    ((run schedule (start all_on)).pc 0 ≢ panicked)
    × IsOff ((run schedule (start all_on)).pc 0) ((run schedule (start all_on)).cpus 0)
run-alive_example = run-alive schedule all_on 0
