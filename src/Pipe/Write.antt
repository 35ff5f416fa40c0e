-- ===== src/Pipe/Write.antt =====
-- `pipewrite`: what one segment of it adds to the pipe, and how it ends.
use xv6_learn.Common.{
  ℕ, zero, suc, ◌+◌, ◌%◌, ◌^◌, ◌≤◌, ◌≡◌, ◌⊎◌, inl, inr, refl, sym, ap, ◌∙◌, Bool, true, false, none,
  some, List, [], ◌∷◌, ◌++◌, append-nil, append_assoc, arith, length, Bool-cases, Option-cases, not,
  ◌||◌,
}
use xv6_learn.User.{UserMemory}
use xv6_learn.Pipe.{
  Pipe, Chan, nread_chan, Outcome, returned, failed, asleep, Segment, is_full, put, write_loop,
  pipewrite,
}
use xv6_learn.Pipe.Inv.{IsValid, put-IsValid}
use xv6_learn.Pipe.Queue.{contents, contents-put}

module _ (u : UserMemory) where
  open u use {Space, copyin}

  -- `bytes` stand in user memory from `addr + i` on.
  abbrev pub FromUser : Space → (addr i : ℕ) → List ℕ → Type 0
  FromUser s addr i [] = Unit
  FromUser s addr i (b ∷ bs) =
      (copyin s ((addr + i) % 2 ^ 64) ≡ some b) × FromUser s addr (i + 1) bs

  -- What each ending of a segment means, where `m` bytes were copied from byte `i` on.
  abbrev pub WriteEnd : Space → Bool → (addr k i m : ℕ) → Pipe → List Chan → Outcome → Type 0
  WriteEnd s killed addr k i m p wakes (returned j) =
      (j ≡ i + m) × (wakes ≡ nread_chan ∷ []) × ((m ≡ k) ⊎ (copyin s ((addr + j) % 2 ^ 64) ≡ none))
  WriteEnd s killed addr k i m p wakes failed =
      (is_full p ≡ true) × (wakes ≡ []) × ((p.readopen ≡ false) ⊎ (killed ≡ true))
  WriteEnd s killed addr k i m p wakes (asleep j) =
      (j ≡ i + m)
      × (wakes ≡ nread_chan ∷ [])
      × (is_full p ≡ true)
      × (p.readopen ≡ true)
      × (killed ≡ false)

  pub record Wrote (s : Space) (killed : Bool) (addr k i : ℕ) (p : Pipe) (seg : Segment)
      : Type 0 where
    pub bytes : List ℕ
    pub valid : IsValid seg.0
    pub ends : (seg.0.readopen ≡ p.readopen) × (seg.0.writeopen ≡ p.writeopen)
    pub queued : contents seg.0 ≡ contents p ++ bytes
    pub copied : FromUser s addr i bytes
    pub fits : length bytes ≤ k
    pub ended : WriteEnd s killed addr k i (length bytes) seg.0 seg.1 seg.2

  -- Nothing was copied.
  stopped :
      {s : Space} {killed : Bool} {addr k i : ℕ} {p : Pipe} {w : List Chan} {o : Outcome}
      → IsValid p
      → WriteEnd s killed addr k i 0 p w o
      → Wrote s killed addr k i p (p, w, o)
  stopped {p} v e = record {
    bytes = [];
    valid = v;
    ends = (refl, refl);
    queued = sym (append-nil (contents p));
    copied = tt;
    fits = omega arith;
    ended = e;
  }

  shift_end :
      (s : Space) (killed : Bool) (addr k i m : ℕ) (p : Pipe) (w : List Chan) (o : Outcome)
      → WriteEnd s killed addr k (i + 1) m p w o
      → WriteEnd s killed addr (suc k) i (suc m) p w o
  shift_end s killed addr k i m p w (returned j) e = ground arith
  shift_end s killed addr k i m p w failed e = e
  shift_end s killed addr k i m p w (asleep j) e = ground arith

  -- One byte was put first.
  step :
      {s : Space} {killed : Bool} {addr k i ch : ℕ} {p : Pipe} {seg : Segment}
      → IsValid p
      → is_full p ≡ false
      → copyin s ((addr + i) % 2 ^ 64) ≡ some ch
      → Wrote s killed addr k (i + 1) (put p ch) seg
      → Wrote s killed addr (suc k) i p seg
  unfolding put
  step {s} {killed} {addr} {k} {i} {ch} {p} {seg} v room read rest = record {
    bytes = ch ∷ rest.bytes;
    valid = rest.valid;
    ends = rest.ends;
    queued =
        rest.queued
        ∙ ap (λ q. q ++ rest.bytes) (contents-put ch v room)
        ∙ append_assoc (contents p) (ch ∷ []) rest.bytes;
    copied = (read, rest.copied);
    fits = omega (arith, rest.fits);
    ended = shift_end s killed addr k i (length rest.bytes) seg.0 seg.1 seg.2 rest.ended;
  }

  pub write_loop-Wrote :
      (s : Space) (killed : Bool) (addr k i : ℕ) (p : Pipe)
      → IsValid p
      → Wrote s killed addr k i p (write_loop u s killed addr k i p)
  unfolding write_loop
  write_loop-Wrote s killed addr zero i p v = stopped v (omega arith, refl, inl refl)
  write_loop-Wrote s killed addr (suc k) i p v = elim (Bool-cases (is_full p)) [
    | inl full ↦ elim (Bool-cases (not p.readopen || killed)) [
      | inl out ↦ rw (full, out) (stopped v (full, refl, ground arith))
      | inr stay ↦ rw (full, stay) (stopped v (omega arith, refl, full, ground arith, ground arith))
    ]
    | inr room ↦ elim (Option-cases (copyin s ((addr + i) % 2 ^ 64))) [
      | inl bad ↦ rw (room, bad) (stopped v (omega arith, refl, inr bad))
      | inr (ch, read) ↦
          rw (room, read)
            (step v room read
              (write_loop-Wrote s killed addr k (i + 1) (put p ch) (put-IsValid ch v room)))
    ]
  ]

  -- A segment of `pipewrite` on a valid pipe leaves a valid pipe with the same ends open, whose
  -- bytes are the old ones followed by the user's bytes from `addr` on, at most `n`. If it returns
  -- `j`, these are `j` bytes, all `n` or up to the first address that cannot be read; if it sleeps,
  -- the pipe is full, its reader's end is open and the caller is not killed; both have woken the
  -- readers. If it fails, the pipe is full, and there is no reader or the caller is killed.
  pub pipewrite-Wrote :
      (s : Space) (killed : Bool) (addr n : ℕ) (p : Pipe)
      → IsValid p
      → Wrote s killed addr n 0 p (pipewrite u s killed addr n p)
  unfolding pipewrite
  pipewrite-Wrote s killed addr n p v = write_loop-Wrote s killed addr n 0 p v
