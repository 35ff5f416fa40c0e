-- ===== src/Pipe.antt =====
-- kernel/pipe.c: a ring of 512 bytes between the two ends of a pipe, with 32-bit counters that wrap.
-- `pi->lock` is held from the start of a call to its return or its `sleep`; a call is modelled by
-- such segments. A segment that sleeps says how far it came, and the next one goes on from there.
pub mod Inv
pub mod Queue
pub mod Write
pub mod Read
pub mod Stream
mod Tests
use xv6_learn.Common.{
  ℕ, zero, suc, ◌+◌, ◌%◌, ◌^◌, Bool, true, false, not, ◌&&◌, ◌||◌, none, some, List, [], ◌∷◌, ◌==◌,
  if◌then◌else◌, get_or, set, replicate,
}
use xv6_learn.User.{UserMemory}

abbrev pub pipesize : ℕ
pipesize = 512

-- `uint` counters.
abbrev pub wrap : ℕ → ℕ
wrap x = x % 2 ^ 32

-- `struct pipe`, less its lock. The bytes of a page from `kalloc` are junk until written.
pub record Pipe : Type 0 where
  pub buf : List ℕ
  pub nread : ℕ
  pub nwrite : ℕ
  pub readopen : Bool
  pub writeopen : Bool

-- The channels that readers and writers sleep on, `&pi->nread` and `&pi->nwrite`.
pub data Chan : Type 0 where
  nread_chan nwrite_chan : Chan

-- How a segment ends: the call returns a count or -1, or it sleeps with `i` bytes done.
pub data Outcome : Type 0 where
  returned : ℕ → Outcome
  failed : Outcome
  asleep : ℕ → Outcome

-- The initialisation that `pipealloc` does on a fresh page.
pub init_pipe : List ℕ → Pipe
init_pipe page = record { buf = page; nread = 0; nwrite = 0; readopen = true; writeopen = true }

abbrev pub is_full : Pipe → Bool
is_full p = p.nwrite == wrap (p.nread + pipesize)

abbrev pub is_empty : Pipe → Bool
is_empty p = p.nread == p.nwrite

-- `pi->data[pi->nwrite++ % PIPESIZE] = ch`
pub put : Pipe → ℕ → Pipe
put p ch = record p { buf = set p.buf (p.nwrite % pipesize) ch; nwrite = wrap (p.nwrite + 1) }

-- `ch = pi->data[pi->nread++ % PIPESIZE]`
pub get : Pipe → ℕ × Pipe
get p = (get_or p.buf (p.nread % pipesize) 0, record p { nread = wrap (p.nread + 1) })

-- What a segment leaves: the pipe, the channels woken in order, and how it ended.
abbrev pub Segment : Type 0
Segment = Pipe × List Chan × Outcome

-- `pipeclose`: the pipe, the channel woken, and whether its page is given back to `kfree`.
pub pipeclose : Pipe → Bool → Pipe × Chan × Bool
pipeclose p writable =
    let p' = if writable then record p { writeopen = false } else record p { readopen = false } in
    (p', if writable then nread_chan else nwrite_chan, not p'.readopen && not p'.writeopen)

module _ (u : UserMemory) where
  open u use {Space, copyin, copyout}

  -- The loop of `pipewrite` with `k` bytes left, `i` done. `killed` is read at most once in a
  -- segment. A negative `n` is as 0: the loop does not run.
  pub write_loop : Space → Bool → (addr k i : ℕ) → Pipe → Segment
  write_loop s killed addr zero i p = (p, nread_chan ∷ [], returned i)
  write_loop s killed addr (suc k) i p =
      if is_full p
      then (if not p.readopen || killed then (p, [], failed) else (p, nread_chan ∷ [], asleep i))
      else elim (copyin s ((addr + i) % 2 ^ 64)) [
        | none ↦ (p, nread_chan ∷ [], returned i)
        | some ch ↦ write_loop s killed addr k (i + 1) (put p ch)
      ]

  pub pipewrite : Space → Bool → (addr n : ℕ) → Pipe → Segment
  unfolding write_loop
  pipewrite s killed addr n p = write_loop s killed addr n 0 p

  -- The copying loop of `piperead`; it also returns the user memory that it has written. A byte
  -- whose `copyout` fails has left the pipe.
  pub read_loop : (addr k i : ℕ) → Space → Pipe → Space × Segment
  read_loop addr zero i s p = (s, (p, nwrite_chan ∷ [], returned i))
  read_loop addr (suc k) i s p =
      if is_empty p
      then (s, (p, nwrite_chan ∷ [], returned i))
      else (let (ch, p') = get p in
          elim (copyout s ((addr + i) % 2 ^ 64) ch) [
            | none ↦ (s, (p', nwrite_chan ∷ [], returned i))
            | some s' ↦ read_loop addr k (i + 1) s' p'
          ])

  pub piperead : Space → Bool → (addr n : ℕ) → Pipe → Space × Segment
  unfolding read_loop
  piperead s killed addr n p =
      if is_empty p && p.writeopen
      then (s, (p, [], if killed then failed else asleep 0))
      else read_loop addr n 0 s p
