-- ===== src/Sleep/Holders.antt =====
-- Sleep locks under any order of rounds and releases: who holds the lock, and who sleeps.
use xv6_learn.Common.{
  ℕ, ◌≡◌, refl, ◌∙◌, Bool, true, false, ◌&&◌, ◌||◌, Option, none, some, List, [], ◌∷◌, arith, ◌==◌,
  if◌then◌else◌, inl, inr, Bool-cases,
}
use xv6_learn.Sleep.{Sleeplock, initsleeplock, acquiresleep, releasesleep, holdingsleep}

abbrev pub among : ℕ → List ℕ → Bool
among p [] = false
among p (q ∷ qs) = q == p || among p qs

abbrev pub without : ℕ → List ℕ → List ℕ
without p [] = []
without p (q ∷ qs) = if q == p then without p qs else q ∷ without p qs

-- The lock, those that have come back from `acquiresleep` and not called `releasesleep`, and those
-- that sleep on the lock.
pub record System : Type 0 where
  pub lock : Sleeplock
  pub holders : List ℕ
  pub asleep : List ℕ

-- A round of `acquiresleep`, the first or one after a wakeup, or a `releasesleep` by one that holds
-- the lock, as all of its callers are; what a sleeper does does not occur.
pub data Event : Type 0 where
  tries : (p : ℕ) → Event
  releases : (p : ℕ) → Event

abbrev pub tried : (p : ℕ) → Option Sleeplock → System → System
tried p none s = record s { asleep = p ∷ s.asleep }
tried p (some lk) s = record s { lock = lk; holders = p ∷ s.holders }

-- Those that sleep on the lock stay asleep unless the call wakes them.
abbrev pub released : ℕ → Sleeplock × Bool → System → System
released p (lk, wakes) s = record {
  lock = lk;
  holders = without p s.holders;
  asleep = if wakes then [] else s.asleep;
}

pub exec : Event → System → System
exec (tries p) s = if among p s.asleep then s else tried p (acquiresleep p s.lock) s
exec (releases p) s = if among p s.holders then released p (releasesleep s.lock) s else s

pub run : List Event → System → System
unfolding exec
run [] s = s
run (e ∷ es) s = run es (exec e s)

pub start : System
unfolding initsleeplock
start = record { lock = initsleeplock; holders = []; asleep = [] }

-- The one that the lock names holds it, or nobody does and nobody sleeps.
abbrev pub holders_of : Sleeplock → List ℕ
holders_of lk = if lk.locked then lk.pid ∷ [] else []

pub record Inv (s : System) : Type 0 where
  pub named : s.holders ≡ holders_of s.lock
  pub awake : s.lock.locked ≡ false → s.asleep ≡ []

without-holders_of :
    (p : ℕ) (lk : Sleeplock) (hs : List ℕ)
    → hs ≡ holders_of lk
    → among p hs ≡ true
    → without p hs ≡ []
without-holders_of p lk hs e h = elim (Bool-cases lk.locked) [
  | inl taken ↦ let f : hs ≡ lk.pid ∷ [] = e ∙ rw taken refl in ground (arith, f)
  | inr idle ↦ let f : hs ≡ [] = e ∙ rw idle refl in ground (arith, f)
]

exec-Inv : (e : Event) (s : System) → Inv s → Inv (exec e s)
unfolding exec acquiresleep releasesleep
exec-Inv (tries p) s v = elim (Bool-cases (among p s.asleep)) [
  | inl sleeps ↦ rw sleeps v
  | inr acts ↦ elim (Bool-cases s.lock.locked) [
    | inl taken ↦
        rw (acts, taken, acquiresleep) (record { named = ground (arith, v.named); awake = λ h. cc })
    | inr idle ↦
        rw (acts, idle, acquiresleep) (record { named = ground (arith, v.named); awake = λ h. cc })
  ]
]
exec-Inv (releases p) s v = elim (Bool-cases (among p s.holders)) [
  | inl held ↦
      rw (held, releasesleep)
        (record { named = without-holders_of p s.lock s.holders v.named held; awake = λ h. refl })
  | inr other ↦ rw other v
]

start-Inv : Inv start
unfolding start
start-Inv = record { named = refl; awake = λ _. refl }

run-Inv : (es : List Event) (s : System) → Inv s → Inv (run es s)
unfolding run
run-Inv [] s v = v
run-Inv (e ∷ es) s v = run-Inv es (exec e s) (exec-Inv e s v)

holders_of-holds :
    (p q : ℕ) (lk : Sleeplock)
    → (among p (holders_of lk) ≡ holdingsleep p lk)
      × ((among p (holders_of lk) && among q (holders_of lk)) ≡ true → p ≡ q)
unfolding holdingsleep
holders_of-holds p q lk = elim (Bool-cases lk.locked) [
  | inl taken ↦ ground arith
  | inr idle ↦ ground arith
]

sleeps-locked : (p : ℕ) (s : System) → Inv s → among p s.asleep ≡ true → s.lock.locked ≡ true
sleeps-locked p s v h = elim (Bool-cases s.lock.locked) [
  | inl taken ↦ taken
  | inr idle ↦ let e = v.awake idle in ground (arith, e)
]

-- Whatever the order of the rounds of `acquiresleep` and of the releases by holders, from a lock
-- that is free: a process holds the lock exactly when `holdingsleep` says so of it, no two do, and
-- while anyone sleeps on the lock it is held: `releasesleep` wakes them all.
pub run-holders :
    (es : List Event) (p q : ℕ)
    → let s = run es start in
      (among p s.holders ≡ holdingsleep p s.lock)
      × ((among p s.holders && among q s.holders) ≡ true → p ≡ q)
      × (among p s.asleep ≡ true → s.lock.locked ≡ true)
run-holders es p q =
    let v = run-Inv es start start-Inv in
    let h = holders_of-holds p q (run es start).lock in
    (rw v.named h.0, rw v.named h.1, sleeps-locked p (run es start) v)
