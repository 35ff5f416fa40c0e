-- ===== src/Console/Storing.antt =====
-- A byte that the interrupt handler stores, and the handler as a whole.
use mathlib.Core.Path.{subst}
use xv6_learn.Common.{
  ℕ, suc, ◌+◌, ◌-◌, ◌%◌, ◌^◌, ◌<◌, ◌≡◌, refl, sym, ap, ap₂, ◌∙◌, arith, true, false, not, ◌&&◌,
  ◌||◌, List, [], ◌∷◌, ◌++◌, ◌==◌, ltb, length, length-append, length-set, get_or, set,
  get_or-set_self, Bool-cases, inl, inr,
}
use xv6_learn.Console.{input_buf, wrap, Cons, Effect, store_char, consoleintr}
use xv6_learn.Console.Window.{window, length-window, window-append, window-suc, window-set_apart}
use xv6_learn.Console.Editing.{
  Line, committed_count, pending_count, view, IsOpen, IsValid, completes, add, as_line_end, edit,
  stores, woken, append-IsOpen, full_count, Edits, kill_loop-Edits, erase-Edits,
}

module _ (c : ℕ) (s : Cons) (v : IsValid s)
    (fits : committed_count s + pending_count s < input_buf) where
  abbrev place : ℕ
  place = s.e % input_buf

  abbrev filled : List ℕ
  filled = set s.buf place c

  -- The buffer with the byte, before a line is committed.
  abbrev grown : Cons
  grown = record s { buf = filled; e = wrap (s.e + 1) }

  committed_kept : window filled s.r (committed_count s) ≡ (view s).committed
  committed_kept =
      window-set_apart s.buf place c s.r (committed_count s)
        (λ k h e. omega (arith, h, e, v.r_word, v.w_word, v.e_word, fits)) v.r_word

  grown_count : pending_count grown ≡ suc (pending_count s)
  grown_count = omega (arith, v.w_word, v.e_word, fits)

  pending_grown : window filled s.w (suc (pending_count s)) ≡ (view s).pending ++ (c ∷ [])
  pending_grown =
      let n = pending_count s in
      let at : wrap (s.w + n) % input_buf ≡ place = omega (arith, v.w_word, v.e_word) in
      window-suc filled s.w n v.w_word
      ∙ ap₂ (λ xs x. xs ++ (x ∷ []))
          (window-set_apart s.buf place c s.w n
            (λ k h e. omega (arith, h, e, v.w_word, v.e_word, fits)) v.w_word)
          (ap (λ i. get_or filled i 0) at ∙ get_or-set_self s.buf place c 0 (omega (arith, v.room)))

  -- The line is left open.
  view-grown : view grown ≡ record (view s) { pending = (view s).pending ++ (c ∷ []) }
  view-grown =
      let p : (view grown).pending ≡ (view s).pending ++ (c ∷ []) =
        ap (window filled s.w) grown_count ∙ pending_grown in
      λ i. record { committed = committed_kept i; pending = p i }

  grown-IsValid : (c == 10) ≡ false → IsValid grown
  grown-IsValid open_line = record {
    room = length-set s.buf place c ∙ v.room;
    r_word = v.r_word;
    w_word = v.w_word;
    e_word = omega arith;
    bounded = omega (arith, grown_count, fits);
    typed =
        subst IsOpen (sym (ap (λ (l : Line). l.pending) view-grown))
          (append-IsOpen (view s).pending (c ∷ []) v.typed (open_line, tt));
  }

  -- The line is committed.
  abbrev committed : Cons
  committed = record grown { w = wrap (s.e + 1) }

  all_count : committed_count committed ≡ committed_count s + suc (pending_count s)
  all_count = omega (arith, v.r_word, v.w_word, v.e_word, fits)

  none_count : pending_count committed ≡ 0
  none_count = omega arith

  view-committed :
      view committed
      ≡ record { committed = (view s).committed ++ ((view s).pending ++ (c ∷ [])); pending = [] }
  view-committed =
      let at : s.w ≡ wrap (s.r + committed_count s) = omega (arith, v.r_word, v.w_word) in
      let a =
        ap (window filled s.r) all_count
        ∙ window-append filled s.r (committed_count s) (suc (pending_count s)) s.w v.r_word at
        ∙ ap₂ ◌++◌ committed_kept pending_grown in
      let b = ap (window filled (wrap (s.e + 1))) none_count in
      λ i. record { committed = a i; pending = b i }

  committed-IsValid : IsValid committed
  committed-IsValid = record {
    room = length-set s.buf place c ∙ v.room;
    r_word = v.r_word;
    w_word = omega arith;
    e_word = omega arith;
    bounded = omega (arith, all_count, none_count, fits);
    typed = subst IsOpen (sym (ap (λ (l : Line). l.pending) view-committed)) tt;
  }

  line_full :
      (grown.e == wrap (s.r + input_buf))
      ≡ (length (view s).committed + length ((view s).pending ++ (c ∷ [])) == input_buf)
  line_full =
      let a = length-window s.buf s.r (committed_count s) in
      let b = length-append (view s).pending (c ∷ []) in
      let d = length-window s.buf s.w (pending_count s) in
      ground (arith, a, b, d, v.r_word, v.w_word, v.e_word, fits)

  store_char-Edits :
      Edits s (add c (view s)) (store_char c s).0
      × (woken (store_char c s).1 ≡ completes c (view s))
  unfolding store_char
  store_char-Edits = elim (Bool-cases (c == 10 || (c == 4 || grown.e == wrap (s.r + input_buf)))) [
    | inl whole ↦
        (let t : completes c (view s) ≡ true =
            ap (λ b. c == 10 || (c == 4 || b)) (sym line_full) ∙ whole in
          rw (store_char, whole, t) ((committed-IsValid, view-committed), refl))
    | inr open_line ↦
        (let t : completes c (view s) ≡ false =
            ap (λ b. c == 10 || (c == 4 || b)) (sym line_full) ∙ open_line in
          rw (store_char, open_line, t) ((grown-IsValid (ground arith), view-grown), refl))
  ]

room_left :
    (s : Cons)
    → IsValid s
    → ltb (wrap (s.e + 2 ^ 32 - s.r)) input_buf
      ≡ ltb (length (view s).committed + length (view s).pending) input_buf
room_left s v =
    let a = length-window s.buf s.r (committed_count s) in
    let b = length-window s.buf s.w (pending_count s) in
    ap (λ n. ltb n input_buf) (omega (arith, a, b, full_count s v))

-- What the handler of a byte comes to.
abbrev pub Handles : ℕ → Cons → Cons × List Effect → Type 0
Handles c s (s', out) =
    Edits s (edit c (view s)) s'
    × (woken out ≡ (stores c (view s) && completes (as_line_end c) (view s)))

-- The interrupt handler keeps the invariant of the console's buffer, and is an editor of a line: ctrl-U
-- drops the line that is typed, a backspace its last byte; any other byte but NUL and ctrl-P is added
-- where the buffer has room, a return as a newline; a newline, a ctrl-D or a full buffer hands the line
-- over to the readers, and these are woken just then.
pub consoleintr-Handles : (c : ℕ) (s : Cons) → IsValid s → Handles c s (consoleintr c s)
unfolding consoleintr
consoleintr-Handles c s v = elim (Bool-cases (c == 16)) [
  | inl p ↦ rw (consoleintr, p) ((v, refl), refl)
  | inr not_p ↦ elim (Bool-cases (c == 21)) [
    | inl u ↦
        (let (k, w) = kill_loop-Edits (wrap (s.e + 2 ^ 32 - s.w)) s v (omega arith) in
          rw (consoleintr, not_p, u) (k, w))
    | inr not_u ↦ elim (Bool-cases (c == 8 || c == 127)) [
      | inl h ↦ rw (consoleintr, not_p, not_u, h) (erase-Edits s v)
      | inr not_h ↦
          (let full = room_left s v in
            elim (Bool-cases (
              not (c == 0)
              && ltb (length (view s).committed + length (view s).pending) input_buf)) [
                | inr drop ↦
                    (let t : (not (c == 0) && ltb (wrap (s.e + 2 ^ 32 - s.r)) input_buf) ≡ false =
                        ap (λ b. not (c == 0) && b) full ∙ drop in
                      rw (consoleintr, not_p, not_u, not_h, t, drop) ((v, refl), refl))
                | inl take ↦
                    (let t : (not (c == 0) && ltb (wrap (s.e + 2 ^ 32 - s.r)) input_buf) ≡ true =
                        ap (λ b. not (c == 0) && b) full ∙ take in
                      let fits : committed_count s + pending_count s < input_buf =
                        ground (arith, full_count s v) in
                      rw (consoleintr, not_p, not_u, not_h, t, take)
                        (store_char-Edits (as_line_end c) s v fits))
              ])
    ]
  ]
]
