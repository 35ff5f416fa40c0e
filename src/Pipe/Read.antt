-- ===== src/Pipe/Read.antt =====
-- `piperead`: what one segment of it takes from the pipe, and how it ends.
use xv6_learn.Common.{
  ℕ, zero, suc, ◌+◌, ◌%◌, ◌^◌, ◌≤◌, ◌≡◌, ◌⊎◌, inl, inr, refl, ap, ◌∙◌, Bool, true, false, none,
  some, List, [], ◌∷◌, ◌++◌, arith, length, Bool-cases, Option-cases, ◌&&◌,
}
use xv6_learn.User.{UserMemory}
use xv6_learn.Pipe.{
  Pipe, nwrite_chan, returned, failed, asleep, Segment, is_empty, get, read_loop, piperead,
}
use xv6_learn.Pipe.Inv.{IsValid, get-IsValid}
use xv6_learn.Pipe.Queue.{contents, contents-get}

module _ (u : UserMemory) where
  open u use {Space, copyout}

  -- `bytes` are written to user memory from `addr + i` on, which leads from `s` to `t`.
  abbrev pub ToUser : (addr i : ℕ) → Space → List ℕ → Space → Type 0
  ToUser addr i s [] t = s ≡ t
  ToUser addr i s (b ∷ bs) t =
      (s' : Space) × (copyout s ((addr + i) % 2 ^ 64) b ≡ some s') × ToUser addr (i + 1) s' bs t

  -- Why the copying loop ends after `m` of `k` bytes, with the byte that it lost, if any.
  abbrev pub ReadEnd : (addr k i m : ℕ) → Space → Pipe → List ℕ → Type 0
  ReadEnd addr k i m t p [] = (m ≡ k) ⊎ (is_empty p ≡ true)
  ReadEnd addr k i m t p (c ∷ cs) = (copyout t ((addr + (i + m)) % 2 ^ 64) c ≡ none) × (cs ≡ [])

  pub record Copied (addr k i : ℕ) (s : Space) (p : Pipe) (out : Space × Segment) : Type 0 where
    pub bytes : List ℕ
    pub lost : List ℕ
    pub valid : IsValid out.1.0
    pub ends : (out.1.0.readopen ≡ p.readopen) × (out.1.0.writeopen ≡ p.writeopen)
    pub queued : contents p ≡ bytes ++ (lost ++ contents out.1.0)
    pub copied : ToUser addr i s bytes out.0
    pub fits : length bytes ≤ k
    pub woken : out.1.1 ≡ nwrite_chan ∷ []
    pub result : out.1.2 ≡ returned (i + length bytes)
    pub ended : ReadEnd addr k i (length bytes) out.0 out.1.0 lost

  stopped :
      {addr k i : ℕ} {s : Space} {p : Pipe}
      → IsValid p
      → (0 ≡ k) ⊎ (is_empty p ≡ true)
      → Copied addr k i s p (s, (p, nwrite_chan ∷ [], returned i))
  stopped {i} v e = record {
    bytes = [];
    lost = [];
    valid = v;
    ends = (refl, refl);
    queued = refl;
    copied = refl;
    fits = omega arith;
    woken = refl;
    result = ap returned (omega arith);
    ended = e;
  }

  faulted :
      {addr k i : ℕ} {s : Space} {p : Pipe}
      → IsValid p
      → is_empty p ≡ false
      → copyout s ((addr + i) % 2 ^ 64) (get p).0 ≡ none
      → Copied addr (suc k) i s p (s, ((get p).1, nwrite_chan ∷ [], returned i))
  unfolding get
  faulted {addr} {i} {s} {p} v some_in bad = record {
    bytes = [];
    lost = (get p).0 ∷ [];
    valid = get-IsValid v some_in;
    ends = (refl, refl);
    queued = contents-get v some_in;
    copied = refl;
    fits = omega arith;
    woken = refl;
    result = ap returned (omega arith);
    ended = (ap (λ j. copyout s ((addr + j) % 2 ^ 64) (get p).0) (omega arith) ∙ bad, refl);
  }

  shift_end :
      (addr k i m : ℕ) (t : Space) (p : Pipe) (lost : List ℕ)
      → ReadEnd addr k (i + 1) m t p lost
      → ReadEnd addr (suc k) i (suc m) t p lost
  shift_end addr k i m t p [] e = ground arith
  shift_end addr k i m t p (c ∷ cs) e =
      (ap (λ j. copyout t ((addr + j) % 2 ^ 64) c) (omega arith) ∙ e.0, e.1)

  step :
      {addr k i : ℕ} {s s' : Space} {p : Pipe} {out : Space × Segment}
      → IsValid p
      → is_empty p ≡ false
      → copyout s ((addr + i) % 2 ^ 64) (get p).0 ≡ some s'
      → Copied addr k (i + 1) s' (get p).1 out
      → Copied addr (suc k) i s p out
  unfolding get
  step {addr} {k} {i} {s} {s'} {p} {out} v some_in written rest = record {
    bytes = (get p).0 ∷ rest.bytes;
    lost = rest.lost;
    valid = rest.valid;
    ends = rest.ends;
    queued = contents-get v some_in ∙ ap (λ q. (get p).0 ∷ q) rest.queued;
    copied = (s', written, rest.copied);
    fits = omega (arith, rest.fits);
    woken = rest.woken;
    result = rest.result ∙ ap returned (omega arith);
    ended = shift_end addr k i (length rest.bytes) out.0 out.1.0 rest.lost rest.ended;
  }

  read_loop-Copied :
      (addr k i : ℕ) (s : Space) (p : Pipe)
      → IsValid p
      → Copied addr k i s p (read_loop u addr k i s p)
  unfolding read_loop
  read_loop-Copied addr zero i s p v = stopped v (inl refl)
  read_loop-Copied addr (suc k) i s p v = elim (Bool-cases (is_empty p)) [
    | inl none_left ↦ rw none_left (stopped v (inr none_left))
    | inr some_in ↦ elim (Option-cases (copyout s ((addr + i) % 2 ^ 64) (get p).0)) [
      | inl bad ↦ rw (some_in, bad) (faulted v some_in bad)
      | inr (s', written) ↦
          rw (some_in, written)
            (step v some_in written
              (read_loop-Copied addr k (i + 1) s' (get p).1 (get-IsValid v some_in)))
    ]
  ]

  -- A segment of `piperead` on a valid pipe that is not empty, or has no writer, returns the number
  -- of bytes that it copied out, at most `n`: the oldest bytes, in order, at the user's addresses
  -- from `addr` on. It wakes the writers. It stops short of `n` only when the pipe is empty or a
  -- byte cannot be copied out, and that byte, which has left the pipe, is the only one lost.
  pub piperead-Copied :
      (s : Space) (killed : Bool) (addr n : ℕ) (p : Pipe)
      → IsValid p
      → (is_empty p && p.writeopen) ≡ false
      → Copied addr n 0 s p (piperead u s killed addr n p)
  unfolding piperead
  piperead-Copied s killed addr n p v go = rw go (read_loop-Copied addr n 0 s p v)

  -- On an empty pipe that still has a writer `piperead` changes nothing: it fails if the caller is
  -- killed, and sleeps otherwise.
  pub piperead-wait :
      (s : Space) (addr n : ℕ) (p : Pipe)
      → (is_empty p && p.writeopen) ≡ true
      → (piperead u s true addr n p ≡ (s, (p, [], failed)))
        × (piperead u s false addr n p ≡ (s, (p, [], asleep 0)))
  unfolding piperead
  piperead-wait s addr n p wait = (rw wait, rw wait)

  pub pipe-piperead_wait :
      (s : Space) (killed : Bool) (addr n : ℕ) (p : Pipe)
      → (is_empty p && p.writeopen) ≡ true
      → (piperead u s killed addr n p).1.0 ≡ p
  unfolding piperead
  pipe-piperead_wait s killed addr n p wait = rw wait
