-- ===== src/Proc/Zombies/Calls.antt =====
-- `allocproc`, `fork`, `exit`, `wait` and `growproc` of kernel/proc.c on the entry of a zombie.
use mathlib.Core.Path.{subst}
use xv6_learn.Common.{
  ℕ, ◌+◌, ◌≡◌, refl, some, map, arith, ◌==◌, get_elem?, inl, inr, Bool-cases, Option-cases, of_some,
  ◌||◌, not, ltb, ◌%◌, ◌^◌,
}
use xv6_learn.Services.{Services}
use xv6_learn.Proc.{
  Proc, Table, modify, is_unused, find, zombie, cleared, allocproc, freeproc, setup, proc_pagetable,
  pgsize,
}
use xv6_learn.Proc.Life.{fork, exit, wait, growproc, wakeup1, reparent, scan}
use xv6_learn.Proc.Zombies.{
  Kept, Free, find-test, Free-modify, Kept-Free, Kept-refl, Kept-trans, Kept-modify, wakeup1-Kept,
  reparent-Kept,
}

module _ (v : Services) (forkret : ℕ) where
  freeproc-Kept :
      (i : ℕ) (t : Table v) → Free i t.procs → Kept t.procs (freeproc v forkret i t).procs
  unfolding freeproc
  freeproc-Kept i t free = elim (Option-cases (get_elem? t.procs i)) [
    | inl outside ↦ rw (outside, freeproc) (Kept-refl t.procs)
    | inr (p, e) ↦ rw (e, freeproc) (Kept-Free cleared t.procs i free)
  ]

  setup-Kept :
      (i : ℕ) (t : Table v)
      → Free i t.procs
      → Kept t.procs (setup v forkret i t).1.procs
        × ((n : ℕ) → (setup v forkret i t).0 ≡ some n → Free n (setup v forkret i t).1.procs)
  unfolding setup
  setup-Kept i t free =
      let k = v.kalloc t.rest in
      let tf = k.0 in
      let f1 = λ (p : Proc). record p { pid = t.nextpid; trapframe = tf } in
      let ps1 = modify t.procs i f1 in
      let free1 = Free-modify f1 t.procs i (λ p h. h) free in
      let kept1 = Kept-Free f1 t.procs i free in
      let pt = (proc_pagetable v forkret tf k.1).0 in
      let f2 = λ (p : Proc). record p { pagetable = pt } in
      let ps2 = modify ps1 i f2 in
      let free2 = Free-modify f2 ps1 i (λ p h. h) free1 in
      let kept2 = Kept-trans t.procs ps1 ps2 kept1 (Kept-Free f2 ps1 i free1) in
      let f3 = λ (p : Proc). record p { context = (forkret, p.kstack + pgsize) } in
      elim (Bool-cases (tf == 0)) [
        | inl no_frame ↦ rw no_frame (kept1, λ n h. cc)
        | inr frame ↦ elim (Bool-cases (pt == 0)) [
          | inl no_table ↦
              rw (frame, no_table)
                (Kept-trans t.procs ps2 _ kept2 (freeproc-Kept i _ free2), λ n h. cc)
          | inr table ↦
              rw (frame, table)
                (
                  Kept-trans t.procs ps2 _ kept2 (Kept-Free f3 ps2 i free2),
                  λ n h.
                      subst (λ m. Free m (modify ps2 i f3)) (of_some h)
                        (Free-modify f3 ps2 i (λ p q. q) free2),
                )
        ]
      ]

  pub allocproc-Kept :
      (t : Table v)
      → Kept t.procs (allocproc v forkret t).1.procs
        × ((n : ℕ) → (allocproc v forkret t).0 ≡ some n → Free n (allocproc v forkret t).1.procs)
  unfolding allocproc
  allocproc-Kept t = elim (Option-cases (find (λ p. is_unused p.state) t.procs)) [
    | inl full ↦ rw (full, allocproc) (Kept-refl t.procs, λ n h. cc)
    | inr (i, e) ↦
        rw (e, allocproc)
          (let (p, at, free) = find-test (λ p. is_unused p.state) t.procs e in
            setup-Kept i t (λ q f. ground arith))
  ]

  pub fork-Kept : (i : ℕ) (t : Table v) → Kept t.procs (fork v forkret i t).1.procs
  unfolding fork
  fork-Kept i t = elim (Option-cases (get_elem? t.procs i)) [
    | inl outside ↦ rw (outside, fork) (Kept-refl t.procs)
    | inr (p, e) ↦
        (let made = allocproc v forkret t in
          let a = allocproc-Kept t in
          elim (Option-cases made.0) [
            | inl full ↦ rw (e, fork, full) a.0
            | inr (n, slot) ↦ elim (Option-cases (get_elem? made.1.procs n)) [
              | inl lost ↦ rw (e, fork, slot, lost) a.0
              | inr (np, f) ↦
                  elim (Bool-cases (v.uvmcopy p.pagetable np.pagetable p.sz made.1.rest).0) [
                    | inl copied ↦
                        rw (e, fork, slot, f, copied)
                          (Kept-trans t.procs made.1.procs _ a.0
                            (Kept-Free _ made.1.procs n (a.1 n slot)))
                    | inr short ↦
                        rw (e, fork, slot, f, short)
                          (Kept-trans t.procs made.1.procs _ a.0 (freeproc-Kept n _ (a.1 n slot)))
                  ]
            ]
          ])
  ]

  pub exit-Kept :
      (i status : ℕ) (t : Table v) {t' : Table v}
      → Free i t.procs
      → exit v forkret i status t ≡ some t'
      → Kept t.procs t'.procs
  unfolding exit
  exit-Kept i status t {t'} free h = elim (Bool-cases (i == t.initproc)) [
    | inl init ↦ cc (rw (init, exit) at h)
    | inr other ↦ elim (Option-cases (get_elem? t.procs i)) [
      | inl outside ↦ cc (rw (other, exit, outside) at h)
      | inr (p, e) ↦ elim (Option-cases p.parent) [
        | inl orphan ↦ cc (rw (other, exit, e, orphan) at h)
        | inr (parent, g) ↦
            (let f1 = λ (q : Proc). record q { ofile = map (λ _. 0) q.ofile; cwd = 0 } in
              let ps1 = modify t.procs i f1 in
              let ps2 = wakeup1 t.initproc ps1 in
              let ps3 = reparent i t.initproc ps2 in
              let ps4 = wakeup1 parent ps3 in
              let f5 = λ (q : Proc). record q { xstate = status; state = zombie } in
              let k1 = Kept-Free f1 t.procs i free in
              let k2 = Kept-trans t.procs ps1 ps2 k1 (wakeup1-Kept t.initproc ps1) in
              let k3 = Kept-trans t.procs ps2 ps3 k2 (reparent-Kept i t.initproc ps2) in
              let k4 = Kept-trans t.procs ps3 ps4 k3 (wakeup1-Kept parent ps3) in
              let k5 = Kept-trans t.procs ps4 _ k4 (Kept-modify f5 ps4 i (λ q _ _. (refl, refl))) in
              subst (λ (u : Table v). Kept t.procs u.procs) (of_some (rw (other, exit, e, g) at h))
                k5)
      ]
    ]
  ]

  pub wait-Kept :
      (i addr flags : ℕ) (t : Table v)
      → Free i t.procs
      → Kept t.procs (wait v forkret i addr flags t).1.procs
  unfolding wait
  wait-Kept i addr flags t free = elim (Option-cases (get_elem? t.procs i)) [
    | inl outside ↦ rw (outside, wait) (Kept-refl t.procs)
    | inr (p, e) ↦ elim (Option-cases (scan i t.procs).0) [
      | inr (q, found) ↦ elim (Bool-cases (addr == 0)) [
        | inl silent ↦ rw (e, wait, found, silent) (Kept-refl t.procs)
        | inr told ↦ rw (e, wait, found, told) (Kept-refl t.procs)
      ]
      | inl absent ↦ elim (Bool-cases (flags == 1)) [
        | inl poll ↦ rw (e, wait, absent, poll) (Kept-refl t.procs)
        | inr stay ↦ elim (Bool-cases (not (scan i t.procs).1 || p.killed)) [
          | inl stop ↦ rw (e, wait, absent, stay, stop) (Kept-refl t.procs)
          | inr asleep ↦ rw (e, wait, absent, stay, asleep) (Kept-Free _ t.procs i free)
        ]
      ]
    ]
  ]

  pub growproc-Kept :
      (i n : ℕ) (t : Table v) → Free i t.procs → Kept t.procs (growproc v forkret i n t).1.procs
  unfolding growproc
  growproc-Kept i n t free = elim (Option-cases (get_elem? t.procs i)) [
    | inl outside ↦ rw (outside, growproc) (Kept-refl t.procs)
    | inr (p, e) ↦ elim (Bool-cases (n == 0)) [
      | inl same ↦ rw (e, growproc, same) (Kept-Free _ t.procs i free)
      | inr change ↦ elim (Bool-cases (ltb n (2 ^ 31))) [
        | inr shrink ↦ rw (e, growproc, change, shrink) (Kept-Free _ t.procs i free)
        | inl grow ↦
            (let sz = p.sz % 2 ^ 32 in
              let new = (sz + n) % 2 ^ 32 in
              elim (Bool-cases ((v.uvmalloc p.pagetable sz new t.rest).0 % 2 ^ 32 == 0)) [
                | inl failed ↦ rw (e, growproc, change, grow, failed) (Kept-refl t.procs)
                | inr grown ↦ rw (e, growproc, change, grow, grown) (Kept-Free _ t.procs i free)
              ])
      ]
    ]
  ]
