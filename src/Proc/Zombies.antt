-- ===== src/Proc/Zombies.antt =====
-- A process that has exited: no operation of kernel/proc.c frees its entry in the table.
pub mod Calls
pub mod Forever
use mathlib.Core.Path.{subst}
use xv6_learn.Common.{
  ℕ, zero, suc, ◌+◌, ◌≡◌, refl, Bool, true, false, ◌&&◌, Option, none, some, List, [], ◌∷◌, map,
  arith, ◌==◌, if◌then◌else◌, get_elem?, inl, inr, Bool-cases, Option-cases, of_some, ◌||◌, not,
  leb, ltb, ◌%◌, ◌^◌,
}
use xv6_learn.Services.{Services}
use xv6_learn.Proc.{
  Chan, null, Proc, Table, modify, is_unused, is_zombie, find, is_runnable, running, zombie,
  cleared, allocproc, freeproc, setup, proc_pagetable, pgsize,
}
use xv6_learn.Proc.Life.{adopted, woken, fork, exit, wait, growproc, wakeup1, reparent, scan}
use xv6_learn.Proc.Sched.{dispatch, roused, wakeup, killed_proc, kill}

-- What stays of a zombie, and entry by entry of two tables.
abbrev pub KeptProc : Proc → Proc → Type 0
KeptProc p q = is_zombie p.state ≡ true → (is_zombie q.state ≡ true) × (q.pid ≡ p.pid)

abbrev pub Kept : List Proc → List Proc → Type 0
Kept [] [] = Unit
Kept (p ∷ ps) (q ∷ qs) = KeptProc p q × Kept ps qs
Kept _ _ = ⊥

pub Kept-refl : (ps : List Proc) → Kept ps ps
Kept-refl [] = tt
Kept-refl (p ∷ ps) = (λ h. (h, refl), Kept-refl ps)

pub Kept-trans : (ps qs rs : List Proc) → Kept ps qs → Kept qs rs → Kept ps rs
Kept-trans [] [] [] a b = tt
Kept-trans (p ∷ ps) (q ∷ qs) (r ∷ rs) a b = (ground arith, Kept-trans ps qs rs a.1 b.1)
Kept-trans [] [] (r ∷ rs) a b = b
Kept-trans [] (q ∷ qs) rs a b = elim a [ ]
Kept-trans (p ∷ ps) [] rs a b = elim a [ ]
Kept-trans (p ∷ ps) (q ∷ qs) [] a b = elim b [ ]

pub Kept-map :
    (f : Proc → Proc) → ((p : Proc) → KeptProc p (f p)) → (ps : List Proc) → Kept ps (map f ps)
Kept-map f h [] = tt
Kept-map f h (p ∷ ps) = (h p, Kept-map f h ps)

pub Kept-modify :
    (f : Proc → Proc) (ps : List Proc) (i : ℕ)
    → ((p : Proc) → get_elem? ps i ≡ some p → KeptProc p (f p))
    → Kept ps (modify ps i f)
Kept-modify f [] i h = tt
Kept-modify f (p ∷ ps) zero h = (h p refl, Kept-refl ps)
Kept-modify f (p ∷ ps) (suc i) h = (λ z. (z, refl), Kept-modify f ps i h)

pub wakeup-Kept : (chan : Chan) (ps : List Proc) → Kept ps (wakeup chan ps)
unfolding wakeup
wakeup-Kept chan ps = Kept-map (roused chan) (λ p. ground arith) ps

pub kill-Kept : (pid : ℕ) (ps : List Proc) → Kept ps (kill pid ps).1
unfolding kill
kill-Kept pid [] = tt
kill-Kept pid (p ∷ ps) = elim (Bool-cases (p.pid == pid)) [
  | inl this ↦ rw this (ground arith, Kept-refl ps)
  | inr other ↦ rw other (λ z. (z, refl), kill-Kept pid ps)
]

pub dispatch-Kept : (i : ℕ) (ps : List Proc) → Kept ps (dispatch i ps).1
unfolding dispatch
dispatch-Kept i ps = elim (Option-cases (get_elem? ps i)) [
  | inl outside ↦ rw (outside, dispatch) (Kept-refl ps)
  | inr (p, e) ↦ elim (Bool-cases (is_runnable p.state)) [
    | inl ready ↦
        rw (e, dispatch, ready)
          (Kept-modify (λ q. record q { state = running }) ps i (λ q f. ground arith))
    | inr busy ↦ rw (e, dispatch, busy) (Kept-refl ps)
  ]
]

pub wakeup1-Kept : (i : ℕ) (ps : List Proc) → Kept ps (wakeup1 i ps)
unfolding wakeup1
wakeup1-Kept i ps = Kept-modify (woken i) ps i (λ p e. ground arith)

pub reparent-Kept : (i init : ℕ) (ps : List Proc) → Kept ps (reparent i init ps)
unfolding reparent
reparent-Kept i init ps = Kept-map (adopted i init) (λ p. ground arith) ps

-- The entry that `find` finds passes the test.
pub find-test :
    (test : Proc → Bool) (ps : List Proc) {n : ℕ}
    → find test ps ≡ some n
    → (p : Proc) × (get_elem? ps n ≡ some p) × (test p ≡ true)
find-test test [] h = cc
find-test test (p ∷ ps) {n} h = elim (Bool-cases (test p)) [
  | inl passes ↦ (p, ground arith, passes)
  | inr fails ↦ elim (Option-cases (find test ps)) [
    | inl nothing ↦ absurd (ground arith)
    | inr (m, e) ↦ let (q, at, ok) = find-test test ps e in (q, ground arith, ok)
  ]
]

-- Entry `i` is no zombie.
abbrev pub Free : ℕ → List Proc → Type 0
Free i ps = (p : Proc) → get_elem? ps i ≡ some p → is_zombie p.state ≡ false

pub Kept-Free : (f : Proc → Proc) (ps : List Proc) (i : ℕ) → Free i ps → Kept ps (modify ps i f)
Kept-Free f ps i h = Kept-modify f ps i (λ p e z. absurd (ground (arith, h p e)))

pub Free-modify :
    (f : Proc → Proc) (ps : List Proc) (i : ℕ)
    → ((p : Proc) → is_zombie p.state ≡ false → is_zombie (f p).state ≡ false)
    → Free i ps
    → Free i (modify ps i f)
Free-modify f [] i h free q e = cc
Free-modify f (p ∷ ps) zero h free q e = ground (arith, h p (free p refl))
Free-modify f (p ∷ ps) (suc i) h free q e = Free-modify f ps i h free q e
