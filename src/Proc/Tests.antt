-- ===== src/Proc/Tests.antt =====
-- Concrete process tables for the theorems on kernel/proc.c.
use xv6_learn.Common.{
  ℕ, ◌+◌, ◌≡◌, refl, true, false, Option, none, some, List, [], ◌∷◌, arith, ◌==◌, get_elem?,
  if◌then◌else◌,
}
use xv6_learn.Services.{Services}
use xv6_learn.Proc.{
  ProcState, unused, sleeping, runnable, running, zombie, Chan, null, proc_chan, Proc, Table,
  is_zombie, allocproc,
}
use xv6_learn.Proc.Life.{child, wait, exit, fork}
use xv6_learn.Proc.Wait.{WaitEnd, wait-WaitEnd, exit-wait}
use xv6_learn.Proc.Zombies.Forever.{forks, waits, kills, run, run-zombie}

-- Services over a count of the pages handed out: a page is its number, counted from 1, and there
-- are `limit` of them; nothing is ever given back.
abbrev pages : (limit : ℕ) → Services
pages limit = record {
  Rest = ℕ;
  kalloc = λ r. if r == limit then (0, r) else (r + 1, r + 1);
  kfree = λ a r. r;
  uvmcreate = λ r. if r == limit then (0, r) else (r + 1, r + 1);
  mappages = λ a b c d e r. (true, r);
  uvmunmap = λ a b c d r. r;
  uvmfree = λ a b r. r;
  uvmcopy = λ a b c r. (true, r);
  uvmalloc = λ a b c r. (c, r);
  uvmdealloc = λ a b c r. (c, r);
  copyout_int = λ a b c r. (true, r);
  copy_trapframe = λ a b r. r;
  filedup = λ a r. r;
  fileclose = λ a r. r;
  idup = λ a r. r;
  begin_op = λ r. r;
  iput = λ a r. r;
  end_op = λ r. r;
  trampoline_pa = 7;
  perm_rx = 10;
  perm_rw = 6;
}

abbrev entry : ProcState → Option ℕ → Chan → (pid : ℕ) → Proc
entry state parent chan pid = record {
  state = state;
  parent = parent;
  chan = chan;
  killed = false;
  xstate = 0;
  pid = pid;
  kstack = 0;
  sz = 0;
  pagetable = 0;
  trapframe = 0;
  context = (0, 0);
  ofile = 0 ∷ 5 ∷ [];
  cwd = 3;
  name = [];
}

-- `init`, a shell that sleeps in `wait`, its child, and two free entries, the first of them killed.
abbrev init_proc : Proc
init_proc = entry sleeping none (proc_chan 0) 1

abbrev shell : Proc
shell = entry sleeping (some 0) (proc_chan 1) 2

abbrev job : Proc
job = entry running (some 1) null 3

abbrev free_entry : Proc
free_entry = record (entry unused none null 0) { killed = true }

abbrev some_procs : List Proc
some_procs = init_proc ∷ shell ∷ job ∷ free_entry ∷ free_entry ∷ []

abbrev table : (limit : ℕ) → Table (pages limit)
table limit = record { procs = some_procs; nextpid = 4; initproc = 0; rest = 0 }

-- The shell runs and its child is a zombie.
abbrev reap_procs : List Proc
reap_procs =
    init_proc ∷ entry running (some 0) null 2 ∷ entry zombie (some 1) null 3 ∷ free_entry ∷ []

abbrev reap : Table (pages 9)
reap = record { procs = reap_procs; nextpid = 4; initproc = 0; rest = 0 }

-- The first call hands out pid 4 in entry 3; with no page left it hands out nothing.
fork_gives_pid : (fork (pages 9) 99 2 (table 9)).0 ≡ some 4
unfolding fork allocproc
fork_gives_pid = refl

fork_out_of_pages : (fork (pages 1) 99 2 (table 1)).0 ≡ none
unfolding fork allocproc
fork_out_of_pages = refl

wait-WaitEnd_example :
    WaitEnd (pages 9) 99 1 0 0 (entry running (some 0) null 2) reap (child 3) reap
unfolding wait
wait-WaitEnd_example = wait-WaitEnd (pages 9) 99 1 0 0 reap refl

reap_child : (wait (pages 9) 99 1 0 0 reap).0 ≡ child 3
unfolding wait
reap_child = refl

exit-wait_example :
    (u : Table (pages 9)) × (c : ℕ) × (r : Proc) × (exit (pages 9) 99 2 7 (table 9) ≡ some u)
    × (get_elem? u.procs 1 ≡ some r)
    × (r.state ≡ runnable)
    × ((wait (pages 9) 99 1 0 0 u).0 ≡ child c)
exit-wait_example =
    exit-wait (pages 9) 99 2 1 7 0 (table 9) refl refl refl refl refl (ground arith) (ground arith)

run-zombie_example :
    (q : Proc) × (get_elem? (run (pages 9) 99 (waits 1 0 0 ∷ forks 1 ∷ kills 3 ∷ []) reap).procs 2
      ≡ some q)
    × (is_zombie q.state ≡ true)
    × (q.pid ≡ 3)
run-zombie_example = run-zombie (pages 9) 99 (waits 1 0 0 ∷ forks 1 ∷ kills 3 ∷ []) reap 2 refl refl

slot_3 : (allocproc (pages 9) 99 (table 9)).0 ≡ some 3
unfolding allocproc
slot_3 = refl
