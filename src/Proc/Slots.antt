-- ===== src/Proc/Slots.antt =====
-- `allocproc`: the pid that it hands out, and what a failure leaves behind.
use xv6_learn.Common.{
  ℕ, zero, suc, ◌+◌, ◌≡◌, refl, sym, ap, ◌∙◌, true, Option, none, some, List, [], ◌∷◌, arith, ◌==◌,
  get_elem?, inl, inr, Bool-cases, Option-cases, of_some,
}
use xv6_learn.Services.{Services}
use xv6_learn.Proc.{Proc, Table, modify, find, is_unused, allocproc, setup, proc_pagetable, pgsize}
use xv6_learn.Proc.Entries.{get_elem?-modify_self}
use xv6_learn.Proc.Sched.{kill}
use xv6_learn.Proc.Zombies.{find-test}

-- A pid that stands in the table is found by `kill`.
kill-found :
    (pid : ℕ) (ps : List Proc) (i : ℕ) {p : Proc}
    → get_elem? ps i ≡ some p
    → p.pid ≡ pid
    → (kill pid ps).0 ≡ true
unfolding kill
kill-found pid [] i h e = cc
kill-found pid (q ∷ ps) zero h e = ground arith
kill-found pid (q ∷ ps) (suc i) h e = ground (arith, kill-found pid ps i h e)

module _ (v : Services) (forkret : ℕ) where
  -- Where `allocproc` finds an entry but no page for the trapframe, it returns null and leaves the
  -- entry UNUSED with the new pid in it, so that a `kill` of that pid succeeds though no process
  -- has it.
  pub allocproc-stale :
      (t : Table v) {i : ℕ}
      → find (λ p. is_unused p.state) t.procs ≡ some i
      → (v.kalloc t.rest).0 ≡ 0
      → let (slot, u) = allocproc v forkret t in
        (slot ≡ none)
        × ((q : Proc) × (get_elem? u.procs i ≡ some q)
            × (is_unused q.state ≡ true)
            × (q.pid ≡ t.nextpid))
        × ((kill t.nextpid u.procs).0 ≡ true)
  unfolding allocproc setup
  allocproc-stale t {i} found no_page =
      let (p, at, free) = find-test (λ p. is_unused p.state) t.procs found in
      let f = λ (q : Proc). record q { pid = t.nextpid; trapframe = (v.kalloc t.rest).0 } in
      let here = get_elem?-modify_self f t.procs i at in
      let zero_test : ((v.kalloc t.rest).0 == 0) ≡ true = ground arith in
      rw (found, allocproc, zero_test)
        (refl, (f p, here, free, refl), kill-found t.nextpid (modify t.procs i f) i here refl)

  setup-some :
      (i : ℕ) (t : Table v) {n : ℕ} {p : Proc}
      → get_elem? t.procs i ≡ some p
      → (setup v forkret i t).0 ≡ some n
      → (i ≡ n)
        × ((q : Proc) × (get_elem? (setup v forkret i t).1.procs i ≡ some q)
            × (q.pid ≡ t.nextpid)
            × (q.killed ≡ p.killed))
  unfolding setup
  setup-some i t {n} {p} at h =
      let k = v.kalloc t.rest in
      let pt = (proc_pagetable v forkret k.0 k.1).0 in
      let f1 = λ (q : Proc). record q { pid = t.nextpid; trapframe = k.0 } in
      let f2 = λ (q : Proc). record q { pagetable = pt } in
      let f3 = λ (q : Proc). record q { context = (forkret, q.kstack + pgsize) } in
      let ps1 = modify t.procs i f1 in
      let at1 = get_elem?-modify_self f1 t.procs i at in
      let at2 = get_elem?-modify_self f2 ps1 i at1 in
      elim (Bool-cases (k.0 == 0)) [
        | inl no_frame ↦ cc (rw (no_frame, setup) at h)
        | inr frame ↦ elim (Bool-cases (pt == 0)) [
          | inl no_table ↦ cc (rw (frame, setup, no_table) at h)
          | inr table ↦
              rw (frame, setup, table)
                (
                  of_some (rw (frame, setup, table) at h),
                  (f3 (f2 (f1 p)), get_elem?-modify_self f3 (modify ps1 i f2) i at2, refl, refl),
                )
        ]
      ]

  allocproc-setup :
      (t : Table v) {i : ℕ}
      → find (λ p. is_unused p.state) t.procs ≡ some i
      → allocproc v forkret t ≡ setup v forkret i t
  unfolding allocproc
  allocproc-setup t found = rw (found, allocproc)

  -- A process that `allocproc` returns has the next pid, and it is as killed as the entry was before:
  -- `allocproc` does not reset `killed`.
  pub allocproc-killed :
      (t : Table v) {n : ℕ}
      → (allocproc v forkret t).0 ≡ some n
      → (p q : Proc) × (get_elem? t.procs n ≡ some p)
        × (is_unused p.state ≡ true)
        × (get_elem? (allocproc v forkret t).1.procs n ≡ some q)
        × (q.pid ≡ t.nextpid)
        × (q.killed ≡ p.killed)
  unfolding allocproc
  allocproc-killed t {n} h = elim (Option-cases (find (λ p. is_unused p.state) t.procs)) [
    | inl full ↦ cc (rw (full, allocproc) at h)
    | inr (i, found) ↦
        (let (p, at, free) = find-test (λ p. is_unused p.state) t.procs found in
          let e = allocproc-setup t found in
          let (same, made) = setup-some i t at (ap (λ (r : Option ℕ × Table v). r.0) (sym e) ∙ h) in
          let (q, here, pid, killed) = made in rw (← same) (p, q, at, free, rw e here, pid, killed))
  ]
