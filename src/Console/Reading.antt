-- ===== src/Console/Reading.antt =====
-- `consoleread` into the memory of the kernel, as a reader of the bytes that are committed.
use mathlib.Core.Path.{subst}
use xv6_learn.Common.{
  ℕ, zero, suc, ◌+◌, ◌-◌, ◌%◌, ◌^◌, ◌≡◌, inl, inr, refl, sym, ap, ◌∙◌, arith, Bool, true, false,
  List, [], ◌∷◌, ◌==◌, ltb, if◌then◌else◌, get_or, Bool-cases,
}
use xv6_learn.Fs.{Bytes}
use xv6_learn.Fs.Content.{kernel_copies, put_slice}
use xv6_learn.Console.{input_buf, wrap, Cons, ReadEnd, finished, asleep, failed, consoleread}
use xv6_learn.Console.Window.{window}
use xv6_learn.Console.Editing.{committed_count, view, IsValid}

-- What a reader takes from the bytes that are committed, with `n` of `target` left to read: the bytes
-- that it gets, those that stay, and how the segment ends.
pub record Served : Type 0 where
  pub got : List ℕ
  pub stay : List ℕ
  pub end : ReadEnd

abbrev pub also : ℕ → Served → Served
also x a = record a { got = x ∷ a.got }

abbrev pub serve : (killed : Bool) (n target : ℕ) → List ℕ → Served
serve killed zero target q = record { got = []; stay = q; end = finished 0 }
serve killed (suc n) target [] = record {
  got = [];
  stay = [];
  end = if killed then failed else asleep (suc n);
}
serve killed (suc n) target (x ∷ q) =
    let rest = serve killed n target q in
    if x == 4
    then record { got = []; stay = if ltb (suc n) target then x ∷ q else q; end = finished (suc n) }
    else if x == 10
    then record { got = x ∷ []; stay = q; end = finished n }
    else also x rest

-- The buffer with its first byte taken.
abbrev taken : Cons → Cons
taken s = record s { r = wrap (s.r + 1) }

module _ (s : Cons) (v : IsValid s) (some_left : (s.r == s.w) ≡ false) where
  taken_count : committed_count s ≡ suc (committed_count (taken s))
  taken_count = ground (arith, v.r_word, v.w_word)

  taken-view : (view s).committed ≡ get_or s.buf (s.r % input_buf) 0 ∷ (view (taken s)).committed
  taken-view = ap (window s.buf s.r) taken_count

  taken-IsValid : IsValid (taken s)
  taken-IsValid = record {
    room = v.room;
    r_word = omega arith;
    w_word = v.w_word;
    e_word = v.e_word;
    bounded = omega (arith, taken_count, v.bounded);
    typed = v.typed;
  }

-- `cons.r--` after `cons.r++`.
put_back : (s : Cons) → IsValid s → record (taken s) { r = wrap (wrap (s.r + 1) + 2 ^ 32 - 1) } ≡ s
put_back s v =
    let e : wrap (wrap (s.r + 1) + 2 ^ 32 - 1) ≡ s.r = omega (arith, v.r_word) in
    λ i. record s { r = e i }

none_left : (s : Cons) → (s.r == s.w) ≡ true → IsValid s → (view s).committed ≡ []
none_left s e v =
    let z : committed_count s ≡ 0 = ground (arith, v.w_word) in ap (window s.buf s.r) z

-- What a segment of `consoleread` comes to.
abbrev pub Serves : (a : Served) (dst : ℕ) → Cons → Bytes → ReadEnd × Cons × Bytes → Type 0
Serves a dst s m (end, s', m') =
    IsValid s'
    × (view s' ≡ record { committed = a.stay; pending = (view s).pending })
    × (end ≡ a.end)
    × (m' ≡ put_slice dst a.got m)

-- A segment of `consoleread` serves a reader from the bytes that are committed, the oldest first, and
-- leaves the line that is typed: it copies bytes up to a newline, that one included, or `n` of them,
-- and ends there; a ctrl-D ends it too, and stays for the next call where a byte was read before it;
-- where no byte is left it sleeps, or fails if the process is killed.
pub consoleread-Serves :
    (killed : Bool) (n target dst : ℕ) (s : Cons) (m : Bytes)
    → IsValid s
    → Serves
        (serve killed n target (view s).committed)
        dst
        s
        m
        (consoleread kernel_copies killed n target dst s m)
unfolding consoleread
consoleread-Serves killed zero target dst s m v = (v, refl, refl, refl)
consoleread-Serves killed (suc n) target dst s m v =
    let c = get_or s.buf (s.r % input_buf) 0 in
    elim (Bool-cases (s.r == s.w)) [
      | inl wait ↦ rw (consoleread, wait, none_left s wait v) (v, refl, refl, refl)
      | inr more ↦ elim (Bool-cases (c == 4)) [
        | inl stop ↦ elim (Bool-cases (ltb (suc n) target)) [
          | inl later ↦
              (let back = put_back s v in
                let keeps =
                  ap view back
                  ∙ ap (λ l. record (view s) { committed = l }) (taken-view s v more) in
                rw (consoleread, more, taken-view s v more, stop, later)
                  (subst IsValid (sym back) v, keeps, refl, refl))
          | inr first ↦
              rw (consoleread, more, taken-view s v more, stop, first)
                (taken-IsValid s v more, refl, refl, refl)
        ]
        | inr byte ↦ elim (Bool-cases (c == 10)) [
          | inl last ↦
              rw (consoleread, more, taken-view s v more, byte, last)
                (taken-IsValid s v more, refl, refl, refl)
          | inr next ↦
              (let ih =
                  consoleread-Serves killed n target (dst + 1) (taken s) (put_slice dst (c ∷ []) m)
                    (taken-IsValid s v more) in
                rw (consoleread, more, taken-view s v more, byte, next) ih)
        ]
      ]
    ]
