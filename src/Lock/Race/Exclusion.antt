-- ===== src/Lock/Race/Exclusion.antt =====
-- Mutual exclusion of the spin lock, and that its own checks never panic.
use xv6_learn.Common.{ℕ, ◌≡◌, ◌≢◌, refl, ap, Bool, true, false, some, List, [], ◌∷◌, arith}
use xv6_learn.Lock.{Cpu}
use xv6_learn.Lock.Race.{
  Pc, idle, won, critical, check_locked, check_cpu, clearing, unlocking, panicked, System, step_at,
  step, run, start,
}

-- The processor has set `locked` and not yet reset it.
abbrev pub holds : Pc → Bool
holds won = true
holds critical = true
holds check_locked = true
holds check_cpu = true
holds clearing = true
holds unlocking = true
holds _ = false

-- The processor's number stands in `lk->cpu`.
abbrev pub named : Pc → Bool
named critical = true
named check_locked = true
named check_cpu = true
named clearing = true
named _ = false

abbrev pub is_idle : Pc → Bool
is_idle idle = true
is_idle _ = false

-- The depth of `push_off` and the interrupt flag that go with a place.
abbrev pub IsOff : Pc → Cpu → Type 0
IsOff idle c = c.noff ≡ 0
IsOff _ c = (c.noff ≡ 1) × (c.intr ≡ false)

pub record Inv (s : System) : Type 0 where
  pub locked : (i : ℕ) → holds (s.pc i) ≡ true → s.lock.locked ≡ true
  pub alone : (i j : ℕ) → holds (s.pc i) ≡ true → holds (s.pc j) ≡ true → i ≡ j
  pub owner : (i : ℕ) → named (s.pc i) ≡ true → s.lock.cpu ≡ some i
  pub owned : (i : ℕ) → s.lock.cpu ≡ some i → named (s.pc i) ≡ true
  pub quiet : (i : ℕ) → IsOff (s.pc i) (s.cpus i)
  pub alive : (i : ℕ) → s.pc i ≢ panicked

module _ {s : System} (inv : Inv s) (i : ℕ) where
  step_locked :
      (p : Pc)
      → s.pc i ≡ p
      → (j : ℕ) → holds ((step_at p i s).pc j) ≡ true
      → (step_at p i s).lock.locked ≡ true
  unfolding step_at
  step_locked idle e j h = ground (arith, inv.locked j, inv.locked i, inv.alone i j)
  step_locked p e j h = ground (arith, inv.locked j, inv.locked i, inv.alone i j, inv.quiet i)

  step_alone :
      (p : Pc)
      → s.pc i ≡ p
      → (j k : ℕ) → holds ((step_at p i s).pc j) ≡ true
      → holds ((step_at p i s).pc k) ≡ true
      → j ≡ k
  unfolding step_at
  step_alone idle e j k h g = ground (arith, inv.alone j k)
  step_alone p e j k h g = ground (arith, inv.alone j k, inv.locked j, inv.locked k, inv.quiet i)

  step_owner :
      (p : Pc)
      → s.pc i ≡ p
      → (j : ℕ) → named ((step_at p i s).pc j) ≡ true
      → (step_at p i s).lock.cpu ≡ some j
  unfolding step_at
  step_owner idle e j h = ground (arith, inv.owner j)
  step_owner p e j h = ground (arith, inv.owner j, inv.owner i, inv.alone i j, inv.quiet i)

  step_owned :
      (p : Pc)
      → s.pc i ≡ p
      → (j : ℕ) → (step_at p i s).lock.cpu ≡ some j
      → named ((step_at p i s).pc j) ≡ true
  unfolding step_at
  step_owned idle e j h = ground (arith, inv.owned j)
  step_owned p e j h = ground (arith, inv.owned j, inv.locked i, inv.owner i, inv.quiet i)

  step_quiet :
      (p : Pc) → s.pc i ≡ p → (j : ℕ) → IsOff ((step_at p i s).pc j) ((step_at p i s).cpus j)
  unfolding step_at
  step_quiet idle e j = ground (arith, inv.quiet j, inv.quiet i)
  step_quiet p e j = ground (arith, inv.quiet j, inv.quiet i)

  step_alive : (p : Pc) → s.pc i ≡ p → (j : ℕ) → (step_at p i s).pc j ≢ panicked
  unfolding step_at
  step_alive idle e j = ground (arith, inv.alive j)
  step_alive p e j =
      ground (arith, inv.alive j, inv.locked i, inv.owner i, inv.owned i, inv.quiet i)

step-Inv : (i : ℕ) {s : System} → Inv s → Inv (step i s)
unfolding step
step-Inv i {s} inv = record {
  locked = step_locked inv i (s.pc i) refl;
  alone = step_alone inv i (s.pc i) refl;
  owner = step_owner inv i (s.pc i) refl;
  owned = step_owned inv i (s.pc i) refl;
  quiet = step_quiet inv i (s.pc i) refl;
  alive = step_alive inv i (s.pc i) refl;
}

start-Inv : (on : ℕ → Bool) → Inv (start on)
unfolding start
start-Inv on = record {
  locked = λ i h. cc;
  alone = λ i j h g. cc;
  owner = λ i h. cc;
  owned = λ i h. cc;
  quiet = λ i. refl;
  alive = λ i h. cc;
}

pub run-Inv : (is : List ℕ) {s : System} → Inv s → Inv (run is s)
unfolding run
run-Inv [] inv = inv
run-Inv (i ∷ is) inv = run-Inv is (step-Inv i inv)

-- Whatever the order in which the processors take their steps from a free lock, at most one of
-- them is between `acquire` and `release`, and `lk->cpu` names that one, so that `holding` tells it
-- apart from all others.
pub run-exclusive :
    (is : List ℕ) (on : ℕ → Bool) (i j : ℕ)
    → (run is (start on)).pc i ≡ critical
    → (run is (start on)).pc j ≡ critical
    → (i ≡ j) × ((run is (start on)).lock.locked ≡ true) × ((run is (start on)).lock.cpu ≡ some i)
run-exclusive is on i j p q =
    let inv = run-Inv is (start-Inv on) in
    (inv.alone i j (ap holds p) (ap holds q), inv.locked i (ap holds p), inv.owner i (ap named p))

-- In no order of steps does `acquire`, `release`, `push_off` or `pop_off` panic, and a processor
-- that is not outside the lock has interrupts off and one `push_off` pending.
pub run-alive :
    (is : List ℕ) (on : ℕ → Bool) (i : ℕ)
    → ((run is (start on)).pc i ≢ panicked)
      × IsOff ((run is (start on)).pc i) ((run is (start on)).cpus i)
run-alive is on i = let inv = run-Inv is (start-Inv on) in (inv.alive i, inv.quiet i)
