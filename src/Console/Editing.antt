-- ===== src/Console/Editing.antt =====
-- The interrupt handler as an editor of a line.
use mathlib.Core.Path.{subst}
use xv6_learn.Common.{
  ℕ, zero, suc, ◌+◌, ◌-◌, ◌%◌, ◌^◌, ◌≤◌, ◌<◌, ◌≡◌, refl, sym, ap, ◌∙◌, arith, Bool, true, false,
  not, ◌&&◌, ◌||◌, List, [], ◌∷◌, ◌++◌, ◌==◌, ltb, if◌then◌else◌, length, get_or, Bool-cases, inl,
  inr,
}
use xv6_learn.Console.{input_buf, wrap, Cons, Effect, putc, wakes, lists, kill_loop, erase}
use xv6_learn.Console.Window.{window, window-suc}

-- What may be read, and the line that is being typed.
pub record Line : Type 0 where
  pub committed : List ℕ
  pub pending : List ℕ

abbrev pub committed_count : Cons → ℕ
committed_count s = wrap (s.w + 2 ^ 32 - s.r)

abbrev pub pending_count : Cons → ℕ
pending_count s = wrap (s.e + 2 ^ 32 - s.w)

abbrev pub view : Cons → Line
view s = record {
  committed = window s.buf s.r (committed_count s);
  pending = window s.buf s.w (pending_count s);
}

-- No byte of a list ends a line.
abbrev pub IsOpen : List ℕ → Type 0
IsOpen [] = Unit {0}
IsOpen (x ∷ xs) = ((x == 10) ≡ false) × IsOpen xs

-- The invariant of `cons`.
pub record IsValid (s : Cons) : Type 0 where
  pub room : length s.buf ≡ input_buf
  pub r_word : s.r < 2 ^ 32
  pub w_word : s.w < 2 ^ 32
  pub e_word : s.e < 2 ^ 32
  pub bounded : committed_count s + pending_count s ≤ input_buf
  pub typed : IsOpen (view s).pending

-- The editor: a byte is added to the line, which is committed when it is whole or the buffer full.
abbrev pub completes : ℕ → Line → Bool
completes c l =
    c == 10 || (c == 4 || length l.committed + length (l.pending ++ (c ∷ [])) == input_buf)

abbrev pub add : ℕ → Line → Line
add c l =
    let line = l.pending ++ (c ∷ []) in
    if completes c l
    then record { committed = l.committed ++ line; pending = [] }
    else record l { pending = line }

abbrev pub drop_last : List ℕ → List ℕ
drop_last [] = []
drop_last (x ∷ []) = []
drop_last (x ∷ y ∷ xs) = x ∷ drop_last (y ∷ xs)

abbrev pub as_line_end : ℕ → ℕ
as_line_end c = if c == 13 then 10 else c

abbrev pub edit : ℕ → Line → Line
edit c l =
    if c == 16
    then l
    else if c == 21
    then record l { pending = [] }
    else if c == 8 || c == 127
    then record l { pending = drop_last l.pending }
    else if not (c == 0) && ltb (length l.committed + length l.pending) input_buf
    then add (as_line_end c) l
    else l

-- Whether a byte is stored.
abbrev pub stores : ℕ → Line → Bool
stores c l =
    not (c == 16)
    && (not (c == 21)
        && (not (c == 8 || c == 127)
            && (not (c == 0) && ltb (length l.committed + length l.pending) input_buf)))

-- Whether the readers are woken.
abbrev pub woken : List Effect → Bool
woken [] = false
woken (putc c ∷ out) = woken out
woken (wakes ∷ out) = true
woken (lists ∷ out) = woken out

drop_last-snoc : (xs : List ℕ) (x : ℕ) → drop_last (xs ++ (x ∷ [])) ≡ xs
drop_last-snoc [] x = refl
drop_last-snoc (y ∷ []) x = refl
drop_last-snoc (y ∷ z ∷ xs) x = ap (λ l. y ∷ l) (drop_last-snoc (z ∷ xs) x)

IsOpen-append : (xs ys : List ℕ) → IsOpen (xs ++ ys) → IsOpen xs × IsOpen ys
IsOpen-append [] ys h = (tt, h)
IsOpen-append (x ∷ xs) ys (a, h) = let (b, c) = IsOpen-append xs ys h in ((a, b), c)

pub append-IsOpen : (xs ys : List ℕ) → IsOpen xs → IsOpen ys → IsOpen (xs ++ ys)
append-IsOpen [] ys h k = k
append-IsOpen (x ∷ xs) ys (a, h) k = (a, append-IsOpen xs ys h k)

-- The same buffer with the edit index one lower.
abbrev shorter : Cons → Cons
shorter s = record s { e = wrap (s.e + 2 ^ 32 - 1) }

module _ (s : Cons) (v : IsValid s) where
  pub full_count : wrap (s.e + 2 ^ 32 - s.r) ≡ committed_count s + pending_count s
  full_count = omega (arith, v.r_word, v.w_word, v.e_word, v.bounded)

  shorter_count : (s.e == s.w) ≡ false → pending_count s ≡ suc (pending_count (shorter s))
  shorter_count ne = ground (arith, v.w_word, v.e_word, v.bounded)

  -- The last byte of the line, which goes.
  shorter-view :
      (s.e == s.w) ≡ false
      → (view s).pending
        ≡ (view (shorter s)).pending ++ (get_or s.buf (wrap (s.e + 2 ^ 32 - 1) % input_buf) 0 ∷ [])
  shorter-view ne =
      let n = pending_count (shorter s) in
      let at : wrap (s.w + n) ≡ wrap (s.e + 2 ^ 32 - 1) =
        ground (arith, v.w_word, v.e_word, v.bounded) in
      ap (window s.buf s.w) (shorter_count ne)
      ∙ window-suc s.buf s.w n v.w_word
      ∙ ap (λ i. window s.buf s.w n ++ (get_or s.buf (i % input_buf) 0 ∷ [])) at

  shorter-IsValid : (s.e == s.w) ≡ false → IsValid (shorter s)
  shorter-IsValid ne = record {
    room = v.room;
    r_word = v.r_word;
    w_word = v.w_word;
    e_word = omega arith;
    bounded = omega (arith, shorter_count ne, v.bounded);
    typed = (IsOpen-append (view (shorter s)).pending _ (subst IsOpen (shorter-view ne) v.typed)).0;
  }

  last_open :
      (s.e == s.w) ≡ false → (get_or s.buf (wrap (s.e + 2 ^ 32 - 1) % input_buf) 0 == 10) ≡ false
  last_open ne =
      (IsOpen-append (view (shorter s)).pending _ (subst IsOpen (shorter-view ne) v.typed)).1.0

-- What an edit comes to.
abbrev pub Edits : Cons → Line → Cons → Type 0
Edits s l s' = IsValid s' × (view s' ≡ l)

-- An index that reaches the write index leaves no line.
pub emptied : (s : Cons) → IsValid s → (s.e == s.w) ≡ true → (view s).pending ≡ []
emptied s v e = let z : pending_count s ≡ 0 = ground (arith, v.w_word) in ap (window s.buf s.w) z

pub kill_loop-Edits :
    (fuel : ℕ) (s : Cons)
    → IsValid s
    → pending_count s ≤ fuel
    → Edits s (record (view s) { pending = [] }) (kill_loop fuel s).0
      × (woken (kill_loop fuel s).1 ≡ false)
unfolding kill_loop
kill_loop-Edits zero s v h =
    let z : (s.e == s.w) ≡ true = ground (arith, v.w_word, v.e_word) in
    ((v, ap (λ l. record (view s) { pending = l }) (emptied s v z)), refl)
kill_loop-Edits (suc fuel) s v h = elim (Bool-cases (s.e == s.w)) [
  | inl done ↦
      rw (kill_loop, done) ((v, ap (λ l. record (view s) { pending = l }) (emptied s v done)), refl)
  | inr more ↦
      (let ih =
          kill_loop-Edits fuel (shorter s) (shorter-IsValid s v more)
            (omega (arith, shorter_count s v more)) in
        rw (kill_loop, more, last_open s v more) ih)
]

pub erase-Edits :
    (s : Cons)
    → IsValid s
    → Edits s (record (view s) { pending = drop_last (view s).pending }) (erase s).0
      × (woken (erase s).1 ≡ false)
unfolding erase
erase-Edits s v = elim (Bool-cases (s.e == s.w)) [
  | inl nothing ↦
      (let e = emptied s v nothing in
        rw (erase, nothing)
          ((v, ap (λ l. record (view s) { pending = l }) (e ∙ ap drop_last (sym e))), refl))
  | inr more ↦
      rw (erase, more)
        (
          (
            shorter-IsValid s v more,
            ap (λ l. record (view s) { pending = l })
                (sym (
                  ap drop_last (shorter-view s v more)
                  ∙ drop_last-snoc (view (shorter s)).pending _)),
          ),
          refl,
        )
]
