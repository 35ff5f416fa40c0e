-- ===== src/Proc/Life.antt =====
-- `fork`, `exit`, `wait` and `growproc` of kernel/proc.c.
use xv6_learn.Common.{
  ℕ, zero, suc, ◌+◌, ◌%◌, ◌^◌, Bool, true, false, not, ◌&&◌, ◌||◌, Option, none, some, List, [],
  ◌∷◌, map, ◌==◌, ltb, if◌then◌else◌, get_elem?,
}
use xv6_learn.Services.{Services}
use xv6_learn.Proc.{
  runnable, zombie, sleeping, proc_chan, Proc, is_sleeping, is_zombie, chan_eq, is_parent, modify,
  Table, allocproc, freeproc,
}

-- `p->chan == p && p->state == SLEEPING` makes `p` runnable.
abbrev pub woken : ℕ → Proc → Proc
woken i p =
    if is_sleeping p.state && chan_eq p.chan (proc_chan i) then record p { state = runnable } else p

unfoldable pub wakeup1 : ℕ → List Proc → List Proc
wakeup1 i ps = modify ps i (woken i)

-- `p`'s children go to `init`.
abbrev pub adopted : ℕ → ℕ → Proc → Proc
adopted i init p = if is_parent p.parent i then record p { parent = some init } else p

unfoldable pub reparent : ℕ → ℕ → List Proc → List Proc
reparent i init ps = map (adopted i init) ps

-- What `exit` of process `i` with the given parent does to the table, in its order: the files and
-- the directory go, `init` is woken, the children go to `init`, the parent is woken, and the process
-- becomes a zombie.
unfoldable pub exit_procs : (i parent init status : ℕ) → List Proc → List Proc
unfolding wakeup1 reparent
exit_procs i parent init status ps =
    let ps1 = modify ps i (λ q. record q { ofile = map (λ _. 0) q.ofile; cwd = 0 }) in
    let ps2 = wakeup1 init ps1 in
    let ps3 = wakeup1 parent (reparent i init ps2) in
    modify ps3 i (λ q. record q { xstate = status; state = zombie })

-- What a scan of `wait` comes to: -1, the child's pid, or a sleep on the caller's own channel.
pub data Waited : Type 0 where
  nothing : Waited
  child : ℕ → Waited
  blocked : Waited

-- The first zombie child of `i`, if any, and whether `i` has a child.
unfoldable pub scan : ℕ → List Proc → Option Proc × Bool
scan i [] = (none, false)
scan i (q ∷ qs) =
    let (found, kids) = scan i qs in
    if is_parent q.parent i
    then (if is_zombie q.state then (some q, true) else (found, true))
    else (found, kids)

module _ (v : Services) (forkret : ℕ) where
  open v use {
    Rest, uvmcopy, uvmalloc, uvmdealloc, copyout_int, copy_trapframe, filedup, fileclose, idup,
    begin_op, iput, end_op,
  }

  -- `np->ofile[i] = filedup(p->ofile[i])` for the open ones; the child's are null before.
  unfoldable pub dup_files : List ℕ → List ℕ → Rest → List ℕ × Rest
  dup_files [] ns r = (ns, r)
  dup_files (f ∷ fs) [] r = ([], r)
  dup_files (f ∷ fs) (n ∷ ns) r =
      let (gs, r') = dup_files fs ns (if f == 0 then r else filedup f r) in
      ((if f == 0 then n else f) ∷ gs, r')

  unfoldable pub close_files : List ℕ → Rest → Rest
  close_files [] r = r
  close_files (f ∷ fs) r = close_files fs (if f == 0 then r else fileclose f r)

  -- The name that `safestrcpy` leaves: the bytes up to a NUL, at most `n` of them.
  abbrev pub copied_name : (n : ℕ) → List ℕ → List ℕ
  copied_name zero cs = []
  copied_name (suc n) [] = []
  copied_name (suc n) (c ∷ cs) = let rest = copied_name n cs in if c == 0 then [] else c ∷ rest

  -- `fork` in process `i`: the child's pid, or `none` for -1.
  unfoldable pub fork : ℕ → Table v → Option ℕ × Table v
  unfolding dup_files
  fork i t = elim (get_elem? t.procs i) [
    | none ↦ (none, t)
    | some p ↦
        (let (slot, t1) = allocproc v forkret t in
          elim slot [
            | none ↦ (none, t1)
            | some n ↦ elim (get_elem? t1.procs n) [
              | none ↦ (none, t1)
              | some np ↦
                  (let (copied, r2) = uvmcopy p.pagetable np.pagetable p.sz t1.rest in
                    if copied
                    then (let (files, r3) =
                          dup_files p.ofile np.ofile (copy_trapframe p.trapframe np.trapframe r2) in
                        (
                          some np.pid,
                          record t1 {
                            procs = modify t1.procs n (λ q. record q {
                              sz = p.sz;
                              parent = some i;
                              ofile = files;
                              cwd = p.cwd;
                              name = copied_name 15 p.name;
                              state = runnable;
                            });
                            rest = idup p.cwd r3;
                          },
                        ))
                    else (none, freeproc v forkret n (record t1 { rest = r2 })))
            ]
          ])
  ]

  -- `exit` of process `i` up to `sched`; `none` is a panic, or a read through a null parent.
  unfoldable pub exit : ℕ → ℕ → Table v → Option (Table v)
  unfolding exit_procs close_files
  exit i status t = if i == t.initproc then none else elim (get_elem? t.procs i) [
    | none ↦ none
    | some p ↦ elim p.parent [
      | none ↦ none
      | some parent ↦
          (let r1 = end_op (iput p.cwd (begin_op (close_files p.ofile t.rest))) in
            some (record t { procs = exit_procs i parent t.initproc status t.procs; rest = r1 }))
    ]
  ]

  -- One scan of `wait(addr, flags)` in process `i`.
  unfoldable pub wait : ℕ → (addr flags : ℕ) → Table v → Waited × Table v
  unfolding scan
  wait i addr flags t = elim (get_elem? t.procs i) [
    | none ↦ (nothing, t)
    | some p ↦
        (let (found, kids) = scan i t.procs in
          elim found [
            | some q ↦
                (if addr == 0
                  then (child q.pid, t)
                  else (let (copied, r) = copyout_int p.pagetable addr q.xstate t.rest in
                      (if copied then child q.pid else nothing, record t { rest = r })))
            | none ↦
                (if flags == 1
                  then (nothing, t)
                  else if not kids || p.killed
                  then (nothing, t)
                  else (
                    blocked,
                    record t {
                      procs =
                          modify t.procs i (λ q. record q { chan = proc_chan i; state = sleeping });
                    },
                  ))
          ])
  ]

  -- `growproc`; `n` is the bit pattern of an `int`, and `sz` is a `uint`. The result is success.
  unfoldable pub growproc : ℕ → ℕ → Table v → Bool × Table v
  growproc i n t = elim (get_elem? t.procs i) [
    | none ↦ (false, t)
    | some p ↦
        (let sz = p.sz % 2 ^ 32 in
          let new = (sz + n) % 2 ^ 32 in
          if n == 0
          then (true, record t { procs = modify t.procs i (λ q. record q { sz = sz }) })
          else if ltb n (2 ^ 31)
          then (let (grown, r) = uvmalloc p.pagetable sz new t.rest in
              let grown32 = grown % 2 ^ 32 in
              if grown32 == 0 then (false, record t { rest = r }) else (
                true,
                record t { procs = modify t.procs i (λ q. record q { sz = grown32 }); rest = r },
              ))
          else (let (shrunk, r) = uvmdealloc p.pagetable sz new t.rest in
              (
                true,
                record t {
                  procs = modify t.procs i (λ q. record q { sz = shrunk % 2 ^ 32 });
                  rest = r;
                },
              )))
  ]
