-- ===== src/Proc/Zombies/Forever.antt =====
-- Whatever the processes do, a zombie's entry of the table is never free again.
use xv6_learn.Common.{
  ℕ, zero, suc, ◌≡◌, refl, Bool, true, false, Option, none, some, List, [], ◌∷◌, arith,
  if◌then◌else◌, get_elem?, inl, inr, Bool-cases, Option-cases,
}
use xv6_learn.Services.{Services}
use xv6_learn.Proc.{Chan, Proc, Table, is_running, is_zombie}
use xv6_learn.Proc.Life.{fork, exit, wait, growproc}
use xv6_learn.Proc.Sched.{dispatch, yield_proc, sleep, resume, wakeup, kill}
use xv6_learn.Proc.Zombies.{
  Kept, Free, Kept-refl, Kept-trans, Kept-Free, wakeup-Kept, kill-Kept, dispatch-Kept,
}
use xv6_learn.Proc.Zombies.Calls.{fork-Kept, exit-Kept, wait-Kept, growproc-Kept}

-- A call of process `i`, or a step of the scheduler or of an interrupt.
pub data Event : Type 0 where
  forks : (i : ℕ) → Event
  exits : (i status : ℕ) → Event
  waits : (i addr flags : ℕ) → Event
  grows : (i n : ℕ) → Event
  yields : (i : ℕ) → Event
  sleeps : (i : ℕ) → Chan → Event
  resumes : (i : ℕ) → Event
  wakes : Chan → Event
  kills : (pid : ℕ) → Event
  dispatches : (i : ℕ) → Event

-- Process `i` is the one that runs on some processor, so it can make calls.
abbrev pub runs : ℕ → List Proc → Bool
runs i ps = elim (get_elem? ps i) [ none ↦ false | some p ↦ is_running p.state ]

module _ (v : Services) (forkret : ℕ) where
  abbrev pub with_procs : Table v → List Proc → Table v
  with_procs t ps = record t { procs = ps }

  abbrev pub or_same : Table v → Option (Table v) → Table v
  or_same t none = t
  or_same t (some u) = u

  -- The event's operation; what a process does that does not run does not occur, and neither does an
  -- `exit` that panics.
  pub call : Event → Table v → Table v
  call (forks i) t = (fork v forkret i t).1
  call (exits i status) t = or_same t (exit v forkret i status t)
  call (waits i addr flags) t = (wait v forkret i addr flags t).1
  call (grows i n) t = (growproc v forkret i n t).1
  call (yields i) t = with_procs t (yield_proc i t.procs)
  call (sleeps i chan) t = with_procs t (sleep i chan t.procs)
  call (resumes i) t = with_procs t (resume i t.procs)
  call (wakes chan) t = with_procs t (wakeup chan t.procs)
  call (kills pid) t = with_procs t (kill pid t.procs).1
  call (dispatches i) t = with_procs t (dispatch i t.procs).1

  abbrev pub caller : Event → Option ℕ
  caller (forks i) = some i
  caller (exits i status) = some i
  caller (waits i addr flags) = some i
  caller (grows i n) = some i
  caller (yields i) = some i
  caller (sleeps i chan) = some i
  caller (resumes i) = some i
  caller _ = none

  abbrev pub may : Option ℕ → List Proc → Bool
  may none ps = true
  may (some i) ps = runs i ps

  pub exec : Event → Table v → Table v
  unfolding call
  exec e t = if may (caller e) t.procs then call e t else t

  pub run : List Event → Table v → Table v
  unfolding exec
  run [] t = t
  run (e ∷ es) t = run es (exec e t)

  runs-Free : (i : ℕ) (ps : List Proc) → runs i ps ≡ true → Free i ps
  runs-Free i ps h p e = ground arith

  exit-or_same :
      (i status : ℕ) (t : Table v)
      → Free i t.procs
      → Kept t.procs (or_same t (exit v forkret i status t)).procs
  exit-or_same i status t free = elim (Option-cases (exit v forkret i status t)) [
    | inl panics ↦ rw panics (Kept-refl t.procs)
    | inr (u, e) ↦ rw e (exit-Kept v forkret i status t free e)
  ]

  call-Kept :
      (e : Event) (t : Table v) → may (caller e) t.procs ≡ true → Kept t.procs (call e t).procs
  unfolding call yield_proc sleep resume
  call-Kept (forks i) t h = fork-Kept v forkret i t
  call-Kept (exits i status) t h = exit-or_same i status t (runs-Free i t.procs h)
  call-Kept (waits i addr flags) t h = wait-Kept v forkret i addr flags t (runs-Free i t.procs h)
  call-Kept (grows i n) t h = growproc-Kept v forkret i n t (runs-Free i t.procs h)
  call-Kept (yields i) t h = Kept-Free _ t.procs i (runs-Free i t.procs h)
  call-Kept (sleeps i chan) t h = Kept-Free _ t.procs i (runs-Free i t.procs h)
  call-Kept (resumes i) t h = Kept-Free _ t.procs i (runs-Free i t.procs h)
  call-Kept (wakes chan) t h = wakeup-Kept chan t.procs
  call-Kept (kills pid) t h = kill-Kept pid t.procs
  call-Kept (dispatches i) t h = dispatch-Kept i t.procs

  run-Kept : (es : List Event) (t : Table v) → Kept t.procs (run es t).procs
  unfolding run
  run-Kept [] t = Kept-refl t.procs
  run-Kept (e ∷ es) t = elim (Bool-cases (may (caller e) t.procs)) [
    | inl made ↦
        rw (made, run)
          (Kept-trans t.procs (call e t).procs _ (call-Kept e t made) (run-Kept es (call e t)))
    | inr refused ↦ rw (refused, run) (run-Kept es t)
  ]

  Kept-zombie :
      (ps qs : List Proc) (i : ℕ) {p : Proc}
      → Kept ps qs
      → get_elem? ps i ≡ some p
      → is_zombie p.state ≡ true
      → (q : Proc) × (get_elem? qs i ≡ some q) × (is_zombie q.state ≡ true) × (q.pid ≡ p.pid)
  Kept-zombie [] qs i k h z = cc
  Kept-zombie (p ∷ ps) [] i k h z = elim k [ ]
  Kept-zombie (p ∷ ps) (q ∷ qs) zero k h z = (q, refl, ground arith, ground arith)
  Kept-zombie (p ∷ ps) (q ∷ qs) (suc i) k h z = Kept-zombie ps qs i k.1 h z

  -- A process that has exited keeps its entry of the table, with its pid, as a zombie, whatever the
  -- processes call from then on, `wait` by its parent included, and whatever the scheduler and
  -- `wakeup` do: `wait` does not call `freeproc`.
  pub run-zombie :
      (es : List Event) (t : Table v) (i : ℕ) {p : Proc}
      → get_elem? t.procs i ≡ some p
      → is_zombie p.state ≡ true
      → (q : Proc) × (get_elem? (run es t).procs i ≡ some q)
        × (is_zombie q.state ≡ true)
        × (q.pid ≡ p.pid)
  run-zombie es t i h z = Kept-zombie t.procs (run es t).procs i (run-Kept es t) h z
