-- ===== src/Log/Reserve/Room.antt =====
-- The capacity of the log is never exceeded, and what the log promises holds in every state that
-- file system calls lead to.
use xv6_learn.Common.{ℕ, ◌+◌, ◌-◌, ◌≤◌, ◌<◌, ◌≡◌, ◌⊎◌, true, List, [], ◌∷◌, ◌++◌, length}
use xv6_learn.Log.{logsize, maxopblocks, get_head}
use xv6_learn.Log.Commit.{Ready}
use xv6_learn.Log.Loops.{Outside, AllOutside}
use xv6_learn.Log.Reserve.{System, Event, write, Outcome, next, refused, panicked, run, logged}
use xv6_learn.Log.Reserve.Budget.{sum, AllSmall}

-- In each state the blocks logged and those that the calls in progress may still log fit in LOGSIZE,
-- with as many to spare as `cap` is below MAXOPBLOCKS; a commit runs only when no call is in progress;
-- and all else that `commit` relies on holds.
pub record Inv (cap start size : ℕ) (s : System) : Type 0 where
  pub place : (s.log.start ≡ start) × (s.log.size ≡ size)
  pub counted : length s.left ≡ s.log.outstanding
  pub room : length s.log.lh + sum s.left + (maxopblocks - cap) ≤ logsize
  pub few : s.log.outstanding ≤ 3
  pub small : AllSmall cap s.left
  pub quiet : s.log.committing ≡ true → s.log.outstanding ≡ 0
  pub words : logsize < length (s.store.view start)
  pub homes : AllOutside start size s.log.lh
  pub clean : get_head (s.store.disk start) ≡ []

-- A call changes home blocks only.
abbrev pub IsHome : (start size : ℕ) → Event → Type 0
IsHome start size (write i b d) = Outside start size b
IsHome start size e = Unit

-- Each call logs MAXOPBLOCKS blocks, and one comes to a block that is logged when the log is full.
abbrev pub Overfull : (cap : ℕ) → Event → System → Type 0
Overfull cap (write i b d) s =
    (cap ≡ maxopblocks) × (logged s.log.lh b ≡ true) × (length s.log.lh ≡ logsize)
Overfull cap e s = ⊥

-- An outcome whose state is as wanted, or a panic of the one kind.
abbrev pub Safe : (cap : ℕ) → (System → Type 0) → Event → System → Outcome → Type 0
Safe cap P e s (next t) = P t
Safe cap P e s refused = P s
Safe cap P e s panicked = Overfull cap e s

abbrev pub AllHome : (start size : ℕ) → List Event → Type 0
AllHome start size [] = Unit
AllHome start size (e ∷ es) = IsHome start size e × AllHome start size es

-- The run ends in a state with the invariant, from which `commit` is atomic and durable.
abbrev pub EndsWell : (cap start size : ℕ) → List Event → System → Type 0
EndsWell cap start size es s =
    (t : System) × (run cap es s ≡ next t) × Inv cap start size t × Ready t.log t.store

-- The run panics at an event that is overfull after those before it.
abbrev pub Overfills : (cap : ℕ) → List Event → System → Type 0
Overfills cap es s =
    (run cap es s ≡ panicked)
    × ((before after : List Event) × (e : Event) × (t : System) × (es ≡ before ++ (e ∷ after))
        × (run cap before s ≡ next t)
        × Overfull cap e t)

abbrev pub RunEnd : (cap start size : ℕ) → List Event → System → Type 0
RunEnd cap start size es s = EndsWell cap start size es s ⊎ Overfills cap es s
