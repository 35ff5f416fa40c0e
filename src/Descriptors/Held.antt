-- ===== src/Descriptors/Held.antt =====
-- The descriptors of all processes and the reference counts of files: calls of `sys_dup`, `sys_close`
-- and `sys_pipe` by any processes in any order, each run from its start to its return.
use xv6_learn.Common.{
  ℕ, zero, suc, ◌+◌, ◌≤◌, ◌<◌, ◌≡◌, refl, Option, none, some, List, [], ◌∷◌, arith, get_elem?, set,
  inl, inr, Option-cases,
}
use xv6_learn.Files.{File, FileServices}
use xv6_learn.Files.Refs.{ref_at}
use xv6_learn.Files.Steps.{filedup-Adds, fileclose-Drops}
use xv6_learn.Descriptors.{
  Args, Ofile, PipeServices, Kernel, Sys, Result, close, sys_dup, sys_close, sys_pipe,
}
use xv6_learn.Descriptors.Table.{held, held-set, fdalloc-cases, argfd-cases}
use xv6_learn.Descriptors.Pipes.{Piped, sys_pipe-Piped}

pub data Call : Type 0 where
  dup closes pipe : Call

-- How many descriptors of all processes hold file `j`.
abbrev pub total : List Ofile → ℕ → ℕ
total [] j = 0
total (t ∷ ts) j = total ts j + held t j

total-set :
    (ts : List Ofile) (p : ℕ) (t u : Ofile)
    → get_elem? ts p ≡ some t
    → (j : ℕ) → total (set ts p u) j + held t j ≡ total ts j + held u j
total-set [] p t u h j = cc
total-set (x ∷ ts) zero t u h j = let e : x ≡ t = ground arith in rw e (omega arith)
total-set (x ∷ ts) (suc p) t u h j = omega (arith, total-set ts p t u h j)

held-total :
    (ts : List Ofile) (p : ℕ) (t : Ofile)
    → get_elem? ts p ≡ some t
    → (j : ℕ) → held t j ≤ total ts j
held-total [] p t h j = cc
held-total (x ∷ ts) zero t h j = let e : x ≡ t = ground arith in rw (← e) (omega arith)
held-total (x ∷ ts) (suc p) t h j = omega (arith, held-total ts p t h j)

module _ (v : FileServices) where
  open v use {Rest}

  -- A call adds to each count what it adds to the descriptors.
  abbrev pub Balanced : Ofile → List File → Result v → Type 0
  Balanced t fs none = ⊥
  Balanced t fs (some (c, (u, (gs, r)))) = (j : ℕ) → ref_at gs j + held t j ≡ ref_at fs j + held u j

  abbrev Covers : List File → Ofile → Type 0
  Covers fs t = (j : ℕ) → held t j ≤ ref_at fs j

  -- A descriptor that is held has its file in use.
  held_at : (t : Ofile) (fd f : ℕ) → get_elem? t fd ≡ some (some f) → 0 < held t f
  held_at t fd f at = ground (arith, held-set t fd (some f) none at f)

  sys_dup-Balanced :
      (a : Args) (t : Ofile) (fs : List File) (r : Rest)
      → Covers fs t
      → Balanced t fs (sys_dup v a (t, (fs, r)))
  unfolding sys_dup
  sys_dup-Balanced a t fs r c = elim (argfd-cases a t) [
    | inl bad ↦ rw (sys_dup, bad) (λ j. refl)
    | inr (fd, f, e, at) ↦ elim (fdalloc-cases f t) [
      | inl full ↦ rw (sys_dup, e, full) (λ j. refl)
      | inr (k, made, low) ↦
          (let (gs, d, adds) = filedup-Adds fs f (omega (arith, c f, held_at t fd f at)) in
            rw (sys_dup, e, made, d)
              (λ j. omega (arith, adds j, held-set t k none (some f) low.0 j)))
    ]
  ]

  sys_close-Balanced :
      (a : Args) (t : Ofile) (fs : List File) (r : Rest)
      → Covers fs t
      → Balanced t fs (sys_close v a (t, (fs, r)))
  unfolding sys_close
  sys_close-Balanced a t fs r c = elim (argfd-cases a t) [
    | inl bad ↦ rw (sys_close, bad) (λ j. refl)
    | inr (fd, f, e, at) ↦
        (let (gs, r', d, drops) =
            fileclose-Drops v fs r f (omega (arith, c f, held_at t fd f at)) in
          rw (sys_close, e, close, d)
            (λ j. omega (arith, drops j, held-set t fd (some f) none at j)))
  ]

  module _ (w : PipeServices v) where
    Piped-Balanced :
        (addr : ℕ) (t : Ofile) (fs : List File) (r : Rest) (o : Result v)
        → Piped v w addr t fs r o
        → Balanced t fs o
    Piped-Balanced addr t fs r none p = p
    Piped-Balanced addr t fs r (some (none, (u, (gs, r')))) (e, same, why) =
        λ j. rw (e, same j) refl
    Piped-Balanced addr t fs r (some (some c, (u, (gs, r'))))
          (z, (fd0, fd1, i, j, low0, low1, e, b, copied)) =
        λ k. rw e (
          omega (
            arith,
            b.refs k,
            held-set t fd0 none (some i) low0.0 k,
            held-set (set t fd0 (some i)) fd1 none (some j) low1.0 k,
          ))

    pub call : Call → Args → Sys v → Result v
    call dup = sys_dup v
    call closes = sys_close v
    call pipe = sys_pipe v w

    call-Balanced :
        (e : Call) (a : Args) (t : Ofile) (fs : List File) (r : Rest)
        → Covers fs t
        → Balanced t fs (call e a (t, (fs, r)))
    unfolding call
    call-Balanced dup a t fs r c = sys_dup-Balanced a t fs r c
    call-Balanced closes a t fs r c = sys_close-Balanced a t fs r c
    call-Balanced pipe a t fs r c = Piped-Balanced a.a0 t fs r _ (sys_pipe-Piped v w a t fs r)

    -- The descriptors of each process.
    pub record System : Type 0 where
      pub tables : List Ofile
      pub kernel : Kernel v

    abbrev pub returned : (p : ℕ) → List Ofile → Result v → Option System
    returned p ts none = none
    returned p ts (some (c, (u, k))) = some (record { tables = set ts p u; kernel = k })

    -- A call of process `p`; `none` is a panic.
    pub exec : ℕ × (Call × Args) → System → Option System
    exec (p, (e, a)) s = elim (get_elem? s.tables p) [
      | none ↦ some s
      | some t ↦ returned p s.tables (call e a (t, s.kernel))
    ]

    pub run : List (ℕ × (Call × Args)) → System → Option System
    unfolding exec
    run [] s = some s
    run (x ∷ xs) s = elim (exec x s) [ none ↦ none | some s' ↦ run xs s' ]

    abbrev pub Counted : System → Type 0
    Counted s = (j : ℕ) → ref_at s.kernel.0 j ≡ total s.tables j

    abbrev pub Held : Option System → Type 0
    Held none = ⊥
    Held (some s) = Counted s

    returned-Held :
        (s : System) (p : ℕ) (t : Ofile) (o : Result v)
        → Counted s
        → get_elem? s.tables p ≡ some t
        → Balanced t s.kernel.0 o
        → Held (returned p s.tables o)
    returned-Held s p t none c at b = b
    returned-Held s p t (some (x, (u, (gs, r)))) c at b =
        λ j. omega (arith, c j, b j, total-set s.tables p t u at j)

    exec-Held : (x : ℕ × (Call × Args)) (s : System) → Counted s → Held (exec x s)
    unfolding exec
    exec-Held (p, (e, a)) s c = elim (Option-cases (get_elem? s.tables p)) [
      | inl past ↦ rw (exec, past) c
      | inr (t, at) ↦
          rw (exec, at)
            (returned-Held s p t _ c at (
              call-Balanced e a t s.kernel.0 s.kernel.1
                (λ j. omega (arith, c j, held-total s.tables p t at j))))
    ]

    -- Whatever calls of `sys_dup`, `sys_close` and `sys_pipe` the processes make, with whatever
    -- arguments, and however the allocation of pipes and the copies to the user end, none of them
    -- panics, and each file's reference count stays the number of descriptors that hold it.
    pub run-Held : (xs : List (ℕ × (Call × Args))) (s : System) → Counted s → Held (run xs s)
    unfolding run
    run-Held [] s c = c
    run-Held (x ∷ xs) s c = elim (Option-cases (exec x s)) [
      | inl panics ↦ absurd (rw panics at (exec-Held x s c))
      | inr (t, made) ↦ rw (run, made) (run-Held xs t (rw made at (exec-Held x s c)))
    ]
