-- ===== src/Lock/Race/Atomic.antt =====
-- Where no other processor comes between, the steps of `acquire` and `release` add up to the
-- functions `acquire` and `release` of Lock.
use xv6_learn.Common.{ℕ, ◌≡◌, true, false, some, [], ◌∷◌, arith, ◌≢◌}
use xv6_learn.Lock.{acquire, release}
use xv6_learn.Lock.Race.{idle, critical, System, run}

-- Four steps of `acquire` on a free lock: `push_off`, the test of `holding`, the swap and the
-- record of the owner do what `acquire` says.
pub acquire-run :
    (i : ℕ) (s : System)
    → s.pc i ≡ idle
    → s.lock.locked ≡ false
    → let t = run (i ∷ i ∷ i ∷ i ∷ []) s in
      (acquire i (s.cpus i) s.lock ≡ some (some (t.cpus i, t.lock))) × (t.pc i ≡ critical)
unfolding run acquire
acquire-run i s at free = (ground arith, ground arith)

-- Six steps of `release` by the owner, with interrupts off, do what `release` says.
pub release-run :
    (i : ℕ) (s : System)
    → s.pc i ≡ critical
    → s.lock.locked ≡ true
    → s.lock.cpu ≡ some i
    → (s.cpus i).intr ≡ false
    → (s.cpus i).noff ≢ 0
    → let t = run (i ∷ i ∷ i ∷ i ∷ i ∷ i ∷ []) s in
      (release i (s.cpus i) s.lock ≡ some (t.cpus i, t.lock)) × (t.pc i ≡ idle)
unfolding run release
release-run i s at held owner off deep = (ground arith, ground arith)
