-- ===== src/Proc.antt =====
-- kernel/proc.c: the process table. A process is its index in the table. An operation is modelled
-- from the acquisition of the locks that it works under to its return, its `sleep` or its `sched`;
-- memory and files enter as an interface, `Services`.
pub mod Life
pub mod Sched
pub mod Zombies
pub mod Signals
pub mod Wait
pub mod Slots
pub mod Entries
mod Tests
use xv6_learn.Common.{
  ℕ, zero, suc, ◌+◌, ◌-◌, ◌*◌, ◌%◌, ◌^◌, Bool, true, false, Option, none, some, List, [], ◌∷◌, ◌==◌,
  ltb, if◌then◌else◌, replicate, get_elem?, ◌&&◌,
}
use xv6_learn.Services.{Services}

abbrev pub nproc : ℕ
nproc = 64

abbrev pub nofile : ℕ
nofile = 16

abbrev pub pgsize : ℕ
pgsize = 4096

-- MAXVA is 1 << 38.
abbrev pub trampoline : ℕ
trampoline = 2 ^ 38 - pgsize

abbrev pub trapframe_va : ℕ
trapframe_va = trampoline - pgsize

pub data ProcState : Type 0 where
  unused sleeping runnable running zombie : ProcState

-- What a process sleeps on: `p->chan` is null, a process (in `wait`), or another kernel address.
pub data Chan : Type 0 where
  null : Chan
  proc_chan : ℕ → Chan
  other_chan : ℕ → Chan

-- `struct proc`, less its lock. `parent` is null or an index; addresses, files and inodes are
-- numbers, null is 0; `context` is the saved `ra` and `sp`.
pub record Proc : Type 0 where
  pub state : ProcState
  pub parent : Option ℕ
  pub chan : Chan
  pub killed : Bool
  pub xstate : ℕ
  pub pid : ℕ
  pub kstack : ℕ
  pub sz : ℕ
  pub pagetable : ℕ
  pub trapframe : ℕ
  pub context : ℕ × ℕ
  pub ofile : List ℕ
  pub cwd : ℕ
  pub name : List ℕ

abbrev pub is_unused : ProcState → Bool
is_unused unused = true
is_unused _ = false

abbrev pub is_sleeping : ProcState → Bool
is_sleeping sleeping = true
is_sleeping _ = false

abbrev pub is_runnable : ProcState → Bool
is_runnable runnable = true
is_runnable _ = false

abbrev pub is_running : ProcState → Bool
is_running running = true
is_running _ = false

abbrev pub is_zombie : ProcState → Bool
is_zombie zombie = true
is_zombie _ = false

abbrev pub chan_eq : Chan → Chan → Bool
chan_eq null null = true
chan_eq (proc_chan a) (proc_chan b) = a == b
chan_eq (other_chan a) (other_chan b) = a == b
chan_eq _ _ = false

abbrev pub is_parent : Option ℕ → ℕ → Bool
is_parent none i = false
is_parent (some j) i = j == i

-- An index in the table is changed; one out of range changes nothing.
abbrev pub modify : List Proc → ℕ → (Proc → Proc) → List Proc
modify [] i f = []
modify (p ∷ ps) zero f = f p ∷ ps
modify (p ∷ ps) (suc i) f = p ∷ modify ps i f

abbrev pub one_more : Option ℕ → Option ℕ
one_more none = none
one_more (some i) = some (suc i)

-- The index of the first entry that passes a test.
abbrev pub find : (Proc → Bool) → List Proc → Option ℕ
find test [] = none
find test (p ∷ ps) = if test p then some 0 else one_more (find test ps)

module _ (v : Services) where
  open v use {Rest}

  pub record Table : Type 0 where
    pub procs : List Proc
    pub nextpid : ℕ
    pub initproc : ℕ
    pub rest : Rest

-- The fields that `freeproc` resets.
abbrev pub cleared : Proc → Proc
cleared p = record p {
  trapframe = 0;
  pagetable = 0;
  sz = 0;
  pid = 0;
  parent = none;
  name = [];
  chan = null;
  killed = false;
  xstate = 0;
  state = unused;
}

-- `forkret`'s address is an unknown of the build.
module _ (v : Services) (forkret : ℕ) where
  open v use {Rest, kalloc, kfree, uvmcreate, mappages, uvmunmap, uvmfree, uvmcopy}

  pub allocpid : Table v → ℕ × Table v
  allocpid t = (t.nextpid, record t { nextpid = (t.nextpid + 1) % 2 ^ 32 })

  -- The page table, 0 for null.
  pub proc_pagetable : ℕ → Rest → ℕ × Rest
  proc_pagetable trapframe r =
      let (pt, r1) = uvmcreate r in
      if pt == 0
      then (0, r1)
      else (let (mapped, r2) = mappages pt trampoline pgsize v.trampoline_pa v.perm_rx r1 in
          if mapped
          then (let (framed, r3) = mappages pt trapframe_va pgsize trapframe v.perm_rw r2 in
              if framed then (pt, r3) else (0, uvmfree pt 0 (uvmunmap pt trampoline 1 false r3)))
          else (0, uvmfree pt 0 r2))

  pub proc_freepagetable : (pt sz : ℕ) → Rest → Rest
  proc_freepagetable pt sz r =
      uvmfree pt sz (uvmunmap pt trapframe_va 1 false (uvmunmap pt trampoline 1 false r))

  -- The part of `freeproc` that gives memory back.
  pub release_memory : Proc → Rest → Rest
  unfolding proc_freepagetable
  release_memory p r =
      let r1 = if p.trapframe == 0 then r else kfree p.trapframe r in
      if p.pagetable == 0 then r1 else proc_freepagetable p.pagetable p.sz r1

  pub freeproc : ℕ → Table v → Table v
  unfolding release_memory
  freeproc i t = elim (get_elem? t.procs i) [
    | none ↦ t
    | some p ↦ record t { procs = modify t.procs i cleared; rest = release_memory p t.rest }
  ]

  -- `allocproc` after it has found entry `i`.
  pub setup : ℕ → Table v → Option ℕ × Table v
  unfolding allocpid proc_pagetable freeproc
  setup i t =
      let (pid, t1) = allocpid t in
      let (tf, r2) = kalloc t1.rest in
      let t2 = record t1 {
        procs = modify t1.procs i (λ p. record p { pid = pid; trapframe = tf });
        rest = r2;
      } in
      if tf == 0
      then (none, t2)
      else (let (pt, r3) = proc_pagetable tf t2.rest in
          let t3 = record t2 {
            procs = modify t2.procs i (λ p. record p { pagetable = pt });
            rest = r3;
          } in
          if pt == 0 then (none, freeproc i t3) else (
            some i,
            record t3 {
              procs = modify t3.procs i (λ p. record p { context = (forkret, p.kstack + pgsize) });
            },
          ))

  -- The index of the new process, or `none` for a null pointer.
  pub allocproc : Table v → Option ℕ × Table v
  unfolding setup
  allocproc t = elim (find (λ p. is_unused p.state) t.procs) [
    | none ↦ (none, t)
    | some i ↦ setup i t
  ]
