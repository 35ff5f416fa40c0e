-- ===== src/Proc/Wait.antt =====
-- `wait` and `exit`: what a scan of `wait` finds, and that an exiting child wakes its parent.
use xv6_learn.Common.{
  ℕ, zero, suc, ◌≡◌, ◌≢◌, ◌⊎◌, refl, sym, ap, ◌∙◌, true, false, not, ◌||◌, ◌&&◌, none, some, List,
  [], ◌∷◌, arith, ◌==◌, get_elem?, inl, inr, Bool-cases, Option-cases,
}
use xv6_learn.Services.{Services}
use xv6_learn.Proc.{sleeping, runnable, proc_chan, Proc, Table, is_zombie, is_parent}
use xv6_learn.Proc.Entries.{
  get_elem?-modify_self, Has, Has-modify, Has-modify_self, Has-modify_ne, Has-map,
}
use xv6_learn.Proc.Life.{
  Waited, nothing, child, blocked, scan, wait, exit, woken, adopted, exit_procs, close_files,
}

-- Entry `j` is a child of `i`.
abbrev pub IsChild : ℕ → List Proc → ℕ → Proc → Type 0
IsChild i ps j q = (get_elem? ps j ≡ some q) × (is_parent q.parent i ≡ true)

pub scan-found :
    (i : ℕ) (ps : List Proc) {q : Proc}
    → (scan i ps).0 ≡ some q
    → (j : ℕ) × IsChild i ps j q × (is_zombie q.state ≡ true)
unfolding scan
scan-found i [] h = cc
scan-found i (p ∷ ps) h = elim (Bool-cases (is_parent p.parent i && is_zombie p.state)) [
  | inl hit ↦ (0, ground arith, ground arith)
  | inr miss ↦ let (j, c, z) = scan-found i ps (ground arith) in (suc j, c, z)
]

pub scan-missed :
    (i : ℕ) (ps : List Proc) (j : ℕ) {q : Proc}
    → (scan i ps).0 ≡ none
    → IsChild i ps j q
    → (is_zombie q.state ≡ false) × ((scan i ps).1 ≡ true)
unfolding scan
scan-missed i [] j h c = cc
scan-missed i (p ∷ ps) zero h c = ground arith
scan-missed i (p ∷ ps) (suc j) h c = ground (arith, scan-missed i ps j (ground arith) c)

scan-kids :
    (i : ℕ) (ps : List Proc) → (scan i ps).1 ≡ true → (j : ℕ) × (q : Proc) × IsChild i ps j q
unfolding scan
scan-kids i [] h = cc
scan-kids i (p ∷ ps) h = elim (Bool-cases (is_parent p.parent i)) [
  | inl mine ↦ (0, p, (refl, mine))
  | inr other ↦ let (j, q, c) = scan-kids i ps (ground arith) in (suc j, q, c)
]

-- A zombie child is never missed.
scan-hit :
    (i : ℕ) (ps : List Proc) (j : ℕ) {q : Proc}
    → IsChild i ps j q
    → is_zombie q.state ≡ true
    → (r : Proc) × ((scan i ps).0 ≡ some r)
scan-hit i ps j {q} c z = elim (Option-cases (scan i ps).0) [
  | inl missed ↦ absurd (ground (arith, scan-missed i ps j missed c))
  | inr found ↦ found
]

abbrev IsOf : ℕ → Proc → Type 0
IsOf k r = r.parent ≡ some k

abbrev IsDeadOf : ℕ → Proc → Type 0
IsDeadOf k r = (is_parent r.parent k ≡ true) × (is_zombie r.state ≡ true)

-- Asleep in `wait`, or already woken.
abbrev Waits : ℕ → Proc → Type 0
Waits k r = (r.state ≡ sleeping) × (r.chan ≡ proc_chan k) ⊎ (r.state ≡ runnable)

abbrev IsReady : Proc → Type 0
IsReady r = r.state ≡ runnable

-- The exiting process is a zombie child of its parent.
exit_procs-child :
    (i k init status : ℕ) (ps : List Proc) {p : Proc}
    → get_elem? ps i ≡ some p
    → p.parent ≡ some k
    → i ≢ k
    → Has (IsDeadOf k) (exit_procs i k init status ps) i
unfolding exit_procs
exit_procs-child i k init status ps {p} h parent ne =
    Has-modify_self (IsOf k) (IsDeadOf k) _ _ i (λ r e. ground arith)
      (Has-modify (IsOf k) (woken k) _ k i (λ r e. ground arith)
        (Has-map (IsOf k) (adopted i init) _ i (λ r e. ground arith)
          (Has-modify (IsOf k) (woken init) _ init i (λ r e. ground arith)
            (Has-modify (IsOf k) _ ps i i (λ r e. e) (p, h, parent)))))

-- A parent that sleeps in `wait` is made runnable.
exit_procs-parent :
    (i k init status : ℕ) (ps : List Proc) {q : Proc}
    → get_elem? ps k ≡ some q
    → q.state ≡ sleeping
    → q.chan ≡ proc_chan k
    → i ≢ k
    → Has IsReady (exit_procs i k init status ps) k
unfolding exit_procs
exit_procs-parent i k init status ps {q} h asleep on_self ne = Has-modify_ne IsReady _ _ i k ne (
    Has-modify_self (Waits k) IsReady (woken k) _ k (λ r w. ground arith)
      (Has-map (Waits k) (adopted i init) _ k (λ r w. ground arith)
        (Has-modify (Waits k) (woken init) _ init k (λ r w. ground arith)
          (Has-modify (Waits k) _ ps i k (λ r w. w) (q, h, inl (asleep, on_self))))))

module _ (v : Services) (forkret : ℕ) where
  -- What each result of `wait` by process `i` means.
  abbrev pub WaitEnd : (i addr flags : ℕ) → Proc → Table v → Waited → Table v → Type 0
  WaitEnd i addr flags p t (child c) u =
      (j : ℕ) × (q : Proc) × IsChild i t.procs j q
      × (is_zombie q.state ≡ true)
      × (q.pid ≡ c)
      × (u.procs ≡ t.procs)
  WaitEnd i addr flags p t nothing u = u.procs ≡ t.procs
  WaitEnd i addr flags p t blocked u =
      (flags ≢ 1)
      × (p.killed ≡ false)
      × ((j : ℕ) (q : Proc) → IsChild i t.procs j q → is_zombie q.state ≡ false)
      × ((j : ℕ) × (q : Proc) × IsChild i t.procs j q)
      × (get_elem? u.procs i ≡ some (record p { chan = proc_chan i; state = sleeping }))

  -- A scan of `wait` that returns a pid returns that of a child that is a zombie. It sleeps only in
  -- the blocking mode, when the caller is not killed and has children of which none is a zombie, and
  -- then on the caller's own channel. A scan that returns leaves the process table as it was.
  pub wait-WaitEnd :
      (i addr flags : ℕ) (t : Table v) {p : Proc}
      → get_elem? t.procs i ≡ some p
      → let (w, u) = wait v forkret i addr flags t in WaitEnd i addr flags p t w u
  unfolding wait
  wait-WaitEnd i addr flags t {p} h = elim (Option-cases (scan i t.procs).0) [
    | inr (q, found) ↦
        (let (j, c, z) = scan-found i t.procs found in
          elim (Bool-cases (addr == 0)) [
            | inl silent ↦ rw (h, wait, found, silent) (j, q, c, z, refl, refl)
            | inr told ↦ elim (Bool-cases (v.copyout_int p.pagetable addr q.xstate t.rest).0) [
              | inl copied ↦ rw (h, wait, found, told, copied) (j, q, c, z, refl, refl)
              | inr bad ↦ rw (h, wait, found, told, bad) refl
            ]
          ])
    | inl absent ↦ elim (Bool-cases (flags == 1)) [
      | inl poll ↦ rw (h, wait, absent, poll) refl
      | inr stay ↦ elim (Bool-cases (not (scan i t.procs).1 || p.killed)) [
        | inl stop ↦ rw (h, wait, absent, stay, stop) refl
        | inr asleep ↦
            rw (h, wait, absent, stay, asleep)
              (
                ground arith,
                ground arith,
                λ j q c. (scan-missed i t.procs j absent c).0,
                scan-kids i t.procs (ground arith),
                get_elem?-modify_self (λ q. record q { chan = proc_chan i; state = sleeping })
                    t.procs i h,
              )
      ]
    ]
  ]

  wait-hit :
      (i flags : ℕ) (t : Table v) {p q : Proc}
      → get_elem? t.procs i ≡ some p
      → (scan i t.procs).0 ≡ some q
      → wait v forkret i 0 flags t ≡ (child q.pid, t)
  unfolding wait
  wait-hit i flags t h found = rw (h, wait, found)

  -- `wait` does not consume the child that it reports: asked again at once, it reports the same one.
  pub wait-again :
      (i flags flags' : ℕ) (t : Table v) {p : Proc} {c : ℕ}
      → get_elem? t.procs i ≡ some p
      → (wait v forkret i 0 flags t).0 ≡ child c
      → (wait v forkret i 0 flags' (wait v forkret i 0 flags t).1).0 ≡ child c
  unfolding wait
  wait-again i flags flags' t {p} h e = elim (Option-cases (scan i t.procs).0) [
    | inr (q, found) ↦ rw (wait-hit i flags t h found) (
        rw (wait-hit i flags' t h found)
          (ap (λ (r : Waited × Table v). r.0) (sym (wait-hit i flags t h found)) ∙ e))
    | inl absent ↦ elim (Bool-cases (flags == 1)) [
      | inl poll ↦ cc (rw (h, wait, absent, poll) at e)
      | inr stay ↦ elim (Bool-cases (not (scan i t.procs).1 || p.killed)) [
        | inl stop ↦ cc (rw (h, wait, absent, stay, stop) at e)
        | inr asleep ↦ cc (rw (h, wait, absent, stay, asleep) at e)
      ]
    ]
  ]

  -- The child's part of `exit` and the parent's `wait` fit together: where a parent sleeps in `wait`,
  -- the `exit` of a child makes it runnable, and its next scan finds a child that has exited.
  pub exit-wait :
      (i k status flags : ℕ) (t : Table v) {p q : Proc}
      → get_elem? t.procs i ≡ some p
      → p.parent ≡ some k
      → get_elem? t.procs k ≡ some q
      → q.state ≡ sleeping
      → q.chan ≡ proc_chan k
      → i ≢ t.initproc
      → i ≢ k
      → (u : Table v) × (c : ℕ) × (r : Proc) × (exit v forkret i status t ≡ some u)
        × (get_elem? u.procs k ≡ some r)
        × (r.state ≡ runnable)
        × ((wait v forkret k 0 flags u).0 ≡ child c)
  unfolding exit
  exit-wait i k status flags t {p} {q} hp parent hq asleep on_self ni nk =
      let (r, at, ready) = exit_procs-parent i k t.initproc status t.procs hq asleep on_self nk in
      let (z, at_i, dead) = exit_procs-child i k t.initproc status t.procs hp parent nk in
      let (found, e) =
        scan-hit k (exit_procs i k t.initproc status t.procs) i (at_i, dead.0) dead.1 in
      (
        record t {
          procs = exit_procs i k t.initproc status t.procs;
          rest = v.end_op (v.iput p.cwd (v.begin_op (close_files v forkret p.ofile t.rest)));
        },
        found.pid,
        r,
        rw (exit, init_no, hp, parent),
        at,
        ready,
        ap (λ (o : Waited × Table v). o.0) (wait-hit k flags _ at e),
      )
    where
      init_no : (i == t.initproc) ≡ false
      init_no = ground arith
