-- ===== src/Sleep/Tests.antt =====
-- A sleep lock between two processes.
use xv6_learn.Common.{ℕ, ◌≡◌, true, ◌&&◌, List, [], ◌∷◌}
use xv6_learn.Sleep.{holdingsleep}
use xv6_learn.Sleep.Holders.{Event, tries, releases, among, run, start, run-holders}

-- The second sleeps, is woken, and takes the lock.
abbrev script : List Event
script = tries 3 ∷ tries 4 ∷ releases 3 ∷ tries 4 ∷ []

run-holders_example :
    let s = run script start in
    (among 4 s.holders ≡ holdingsleep 4 s.lock)
    × ((among 4 s.holders && among 3 s.holders) ≡ true → ◌≡◌ {A = ℕ} 4 3)
    × (among 4 s.asleep ≡ true → s.lock.locked ≡ true)
run-holders_example = run-holders script 4 3
