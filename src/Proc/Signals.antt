-- ===== src/Proc/Signals.antt =====
-- `sleep` against `wakeup`, and `kill`.
use xv6_learn.Common.{
  ℕ, ◌≡◌, refl, ◌∙◌, Bool, true, false, Option, none, some, List, [], ◌∷◌, arith, ◌==◌, get_elem?,
  inl, inr, Bool-cases,
}
use xv6_learn.Proc.{
  sleeping, runnable, Chan, null, proc_chan, other_chan, Proc, modify, find, one_more, chan_eq,
}
use xv6_learn.Proc.Entries.{get_elem?-modify_self, get_elem?-map}
use xv6_learn.Proc.Sched.{sleep, roused, wakeup, killed_proc, kill}

pub chan_eq_refl : (c : Chan) → chan_eq c c ≡ true
chan_eq_refl null = refl
chan_eq_refl (proc_chan a) = ground arith
chan_eq_refl (other_chan a) = ground arith

-- A process that sleeps on a channel is made runnable by a `wakeup` of that channel, and by one of
-- another channel it is left asleep where it was.
pub wakeup-sleep :
    (i : ℕ) (c d : Chan) (ps : List Proc) {p : Proc}
    → get_elem? ps i ≡ some p
    → (get_elem? (wakeup c (sleep i c ps)) i ≡ some (record p { chan = c; state = runnable }))
      × (chan_eq c d ≡ false
          → get_elem? (wakeup d (sleep i c ps)) i ≡ some (record p { chan = c; state = sleeping }))
unfolding wakeup sleep
wakeup-sleep i c d ps {p} h =
    let f = λ (q : Proc). record q { chan = c; state = sleeping } in
    let at = get_elem?-modify_self f ps i h in
    (
      get_elem?-map (roused c) (modify ps i f) i at ∙ ground (arith, chan_eq_refl c),
      λ other. get_elem?-map (roused d) (modify ps i f) i at ∙ ground arith,
    )

-- What `kill` should do, by a search for the pid.
abbrev pub killed_at : Option ℕ → List Proc → Bool × List Proc
killed_at none ps = (false, ps)
killed_at (some i) ps = (true, modify ps i killed_proc)

killed_at-cons :
    (o : Option ℕ) (p : Proc) (ps : List Proc)
    → killed_at (one_more o) (p ∷ ps) ≡ ((killed_at o ps).0, p ∷ (killed_at o ps).1)
killed_at-cons none p ps = refl
killed_at-cons (some i) p ps = refl

-- `kill` returns 0 exactly when a process has the pid, and then flags the first one and makes it
-- runnable if it sleeps; otherwise, and at every other entry, it changes nothing.
pub kill-find :
    (pid : ℕ) (ps : List Proc) → kill pid ps ≡ killed_at (find (λ p. p.pid == pid) ps) ps
unfolding kill
kill-find pid [] = refl
kill-find pid (p ∷ ps) = elim (Bool-cases (p.pid == pid)) [
  | inl this ↦ rw this
  | inr other ↦ rw (other, kill-find pid ps, killed_at-cons)
]
