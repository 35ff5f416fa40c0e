-- ===== src/Pipe/Stream.antt =====
-- A pipe over a sequence of segments of any writers and readers, sleeps and closings between them.
use xv6_learn.Common.{
  ℕ, ◌≡◌, ◌⊎◌, inl, inr, refl, sym, ap, ◌∙◌, Bool, true, List, [], ◌∷◌, ◌++◌, append-nil,
  append_assoc, Bool-cases, ◌&&◌,
}
use xv6_learn.User.{UserMemory}
use xv6_learn.Pipe.{Pipe, is_empty, write_loop, piperead, pipeclose}
use xv6_learn.Pipe.Inv.{IsValid}
use xv6_learn.Pipe.Queue.{contents, contents-pipeclose, pipeclose-IsValid}
use xv6_learn.Pipe.Write.{Wrote, write_loop-Wrote}
use xv6_learn.Pipe.Read.{Copied, piperead-Copied, pipe-piperead_wait}

module _ (u : UserMemory) where
  open u use {Space}

  -- A segment of a writer with `k` bytes left and `i` done, one of a reader, or a `pipeclose`.
  pub data Event : Type 0 where
    write : Space → Bool → (addr k i : ℕ) → Event
    read : Space → Bool → (addr n : ℕ) → Event
    close : Bool → Event

  pub exec : Event → Pipe → Pipe
  exec (write s killed addr k i) p = (write_loop u s killed addr k i p).0
  exec (read s killed addr n) p = (piperead u s killed addr n p).1.0
  exec (close writable) p = (pipeclose p writable).0

  pub run : List Event → Pipe → Pipe
  unfolding exec
  run [] p = p
  run (e ∷ es) p = run es (exec e p)

  -- The bytes that one event puts in and takes out.
  abbrev pub Moves : Event → Pipe → (ins outs : List ℕ) → Type 0
  Moves (write s killed addr k i) p ins outs =
      (w : Wrote u s killed addr k i p (write_loop u s killed addr k i p)) × (ins ≡ w.bytes)
      × (outs ≡ [])
  Moves (read s killed addr n) p ins outs =
      (ins ≡ [])
      × (((is_empty p && p.writeopen) ≡ true) × (outs ≡ [])
          ⊎ ((c : Copied u addr n 0 s p (piperead u s killed addr n p)) × (outs
                ≡ c.bytes ++ c.lost)))
  Moves (close writable) p ins outs = (ins ≡ []) × (outs ≡ [])

  -- The bytes that the events put in and take out, in order.
  abbrev pub Accounts : List Event → Pipe → (ins outs : List ℕ) → Type 0
  Accounts [] p ins outs = (ins ≡ []) × (outs ≡ [])
  Accounts (e ∷ es) p ins outs =
      (i o is os : List ℕ) × (Moves e p i o × (ins ≡ i ++ is) × (outs ≡ o ++ os))
      × Accounts es (exec e p) is os

  pub record Kept (e : Event) (p : Pipe) : Type 0 where
    pub ins : List ℕ
    pub outs : List ℕ
    pub moves : Moves e p ins outs
    pub valid : IsValid (exec e p)
    pub balance : contents p ++ ins ≡ outs ++ contents (exec e p)

  exec-Kept : (e : Event) (p : Pipe) → IsValid p → Kept e p
  unfolding exec
  exec-Kept (write s killed addr k i) p v =
      let w = write_loop-Wrote u s killed addr k i p v in
      record {
        ins = w.bytes;
        outs = [];
        moves = (w, refl, refl);
        valid = w.valid;
        balance = sym w.queued;
      }
  exec-Kept (read s killed addr n) p v = elim (Bool-cases (is_empty p && p.writeopen)) [
    | inl wait ↦ record {
      ins = [];
      outs = [];
      moves = (refl, inl (wait, refl));
      valid = rw (pipe-piperead_wait u s killed addr n p wait) v;
      balance = append-nil (contents p) ∙ rw (pipe-piperead_wait u s killed addr n p wait);
    }
    | inr go ↦
        let c = piperead-Copied u s killed addr n p v go in
        record {
          ins = [];
          outs = c.bytes ++ c.lost;
          moves = (refl, inr (c, refl));
          valid = c.valid;
          balance = append-nil (contents p) ∙ c.queued ∙ sym (append_assoc c.bytes c.lost _);
        }
  ]
  exec-Kept (close w) p v = record {
    ins = [];
    outs = [];
    moves = (refl, refl);
    valid = pipeclose-IsValid w v;
    balance = append-nil (contents p) ∙ sym (contents-pipeclose p w);
  }

  pub record Fifo (es : List Event) (p : Pipe) : Type 0 where
    pub ins : List ℕ
    pub outs : List ℕ
    pub moves : Accounts es p ins outs
    pub valid : IsValid (run es p)
    pub balance : contents p ++ ins ≡ outs ++ contents (run es p)

  -- Whatever the order of the segments of writers and readers and of the closings, the bytes that
  -- a valid pipe held and those put in, in order, are those taken out, in order, and those that it
  -- still holds: none is lost in the pipe, doubled or overtaken. The pipe stays valid.
  pub run-Fifo : (es : List Event) (p : Pipe) → IsValid p → Fifo es p
  unfolding run
  run-Fifo [] p v = record {
    ins = [];
    outs = [];
    moves = (refl, refl);
    valid = v;
    balance = append-nil (contents p);
  }
  run-Fifo (e ∷ es) p v =
      let k = exec-Kept e p v in
      let r = run-Fifo es (exec e p) k.valid in
      record {
        ins = k.ins ++ r.ins;
        outs = k.outs ++ r.outs;
        moves = (k.ins, k.outs, r.ins, r.outs, (k.moves, refl, refl), r.moves);
        valid = r.valid;
        balance =
            sym (append_assoc (contents p) k.ins r.ins)
            ∙ ap (λ q. q ++ r.ins) k.balance
            ∙ append_assoc k.outs (contents (exec e p)) r.ins
            ∙ ap (λ q. k.outs ++ q) r.balance
            ∙ sym (append_assoc k.outs r.outs (contents (run es (exec e p))));
      }
