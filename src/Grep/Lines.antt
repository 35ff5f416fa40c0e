-- ===== src/Grep/Lines.antt =====
-- What `grep` writes, whatever the reads return at a time.
use xv6_learn.Common.{
  ℕ, zero, suc, ◌≤◌, ◌<◌, ◌≡◌, inl, inr, refl, sym, ap, ◌∙◌, arith, false, Option, none, some, List,
  [], ◌∷◌, ◌++◌, append_assoc, append-nil, ◌==◌, ltb, if◌then◌else◌, length, Bool-cases,
  Option-cases,
}
use xv6_learn.Grep.{match_re, newline, longer, split_line, grep_lines, grep}

-- The lines of a text, and what is after the last newline.
abbrev pub Split : Type 0
Split = List (List ℕ) × List ℕ

abbrev pub put_byte : ℕ → Split → Split
put_byte c ([], rest) = ([], c ∷ rest)
put_byte c (l ∷ ls, rest) = ((c ∷ l) ∷ ls, rest)

abbrev pub lines : List ℕ → Split
lines [] = ([], [])
lines (c ∷ s) = if c == newline then ([] ∷ (lines s).0, (lines s).1) else put_byte c (lines s)

-- The lines that match, each with its newline.
abbrev pub matching : (pattern : List ℕ) → List (List ℕ) → List ℕ
matching pattern [] = []
matching pattern (l ∷ ls) =
    if match_re pattern l then (l ++ (newline ∷ [])) ++ matching pattern ls else matching pattern ls

abbrev pub NoNul : List ℕ → Type 0
NoNul [] = Unit {0}
NoNul (c ∷ s) = ((c == 0) ≡ false) × NoNul s

abbrev pub all_bytes : List (List ℕ) → List ℕ
all_bytes [] = []
all_bytes (c ∷ reads) = c ++ all_bytes reads

-- The reads return at least a byte each, no NUL, and no more than fits after the start of a line.
abbrev pub Served : (m : List ℕ) → List (List ℕ) → Type 0
Served m [] = Unit {0}
Served m (c ∷ reads) =
    ((length c == 0) ≡ false) × (length (m ++ c) ≤ 1023) × NoNul c × Served (lines (m ++ c)).1 reads

-- What `split_line` finds of the lines.
abbrev IsSplit : List ℕ → Option (List ℕ × List ℕ) → Type 0
IsSplit s none = lines s ≡ ([], s)
IsSplit s (some (l, r)) =
    (lines s ≡ (l ∷ (lines r).0, (lines r).1)) × (length r < length s) × NoNul r

split_line-IsSplit : (s : List ℕ) → NoNul s → IsSplit s (split_line s)
unfolding split_line
split_line-IsSplit [] h = refl
split_line-IsSplit (c ∷ s) (nonzero, h) = elim (Bool-cases (c == newline)) [
  | inl here ↦ rw (split_line, nonzero, here) (rw (lines, here) refl, omega arith, h)
  | inr other ↦
      rw (split_line, nonzero, other) (later c s (split_line s) other (split_line-IsSplit s h))
]
  where
    later :
        (c : ℕ) (s : List ℕ) (o : Option (List ℕ × List ℕ))
        → (c == newline) ≡ false
        → IsSplit s o
        → IsSplit (c ∷ s) (longer c o)
    later c s none other e = rw (lines, other, e) refl
    later c s (some (l, r)) other (e, shorter, n) = (rw (lines, other, e) refl, omega arith, n)

abbrev joined : Split → List ℕ → Split
joined p b = (p.0 ++ (lines (p.1 ++ b)).0, (lines (p.1 ++ b)).1)

put_byte-joined :
    (c : ℕ) (p : Split) (b : List ℕ)
    → (c == newline) ≡ false
    → put_byte c (joined p b) ≡ joined (put_byte c p) b
put_byte-joined c ([], r) b h = rw (lines, h) refl
put_byte-joined c (l ∷ ls, r) b h = refl

lines-append : (a b : List ℕ) → lines (a ++ b) ≡ joined (lines a) b
lines-append [] b = refl
lines-append (c ∷ a) b = elim (Bool-cases (c == newline)) [
  | inl here ↦ rw (lines, here) (ap (λ p. ([] ∷ p.0, p.1)) (lines-append a b))
  | inr other ↦
      rw (lines, other) (ap (put_byte c) (lines-append a b) ∙ put_byte-joined c (lines a) b other)
]

matching-append :
    (pattern : List ℕ) (a b : List (List ℕ))
    → matching pattern (a ++ b) ≡ matching pattern a ++ matching pattern b
matching-append pattern [] b = refl
matching-append pattern (l ∷ a) b = elim (Bool-cases (match_re pattern l)) [
  | inl hit ↦
      rw (matching, hit)
        (ap (λ s. (l ++ (newline ∷ [])) ++ s) (matching-append pattern a b)
          ∙ sym (append_assoc (l ++ (newline ∷ [])) (matching pattern a) (matching pattern b)))
  | inr miss ↦ rw (matching, miss) (matching-append pattern a b)
]

grep_lines-matching :
    (fuel : ℕ) (pattern s : List ℕ)
    → length s ≤ fuel
    → NoNul s
    → grep_lines fuel pattern s ≡ (matching pattern (lines s).0, (lines s).1)
unfolding grep_lines
grep_lines-matching zero pattern [] h n = refl
grep_lines-matching zero pattern (c ∷ s) h n = absurd (omega arith)
grep_lines-matching (suc fuel) pattern s h n = elim (Option-cases (split_line s)) [
  | inl e ↦ (let i = rw e at (split_line-IsSplit s n) in rw (grep_lines, e, i) refl)
  | inr ((l, r), e) ↦
      (let (i, shorter, m) = rw e at (split_line-IsSplit s n) in
        rw (grep_lines, e, i, grep_lines-matching fuel pattern r (omega arith) m) refl)
]

rest_NoNul : (s : List ℕ) → NoNul s → NoNul (lines s).1
rest_NoNul [] h = tt
rest_NoNul (c ∷ s) (nonzero, h) = elim (Bool-cases (c == newline)) [
  | inl here ↦ rw (lines, here) (rest_NoNul s h)
  | inr other ↦ rw (lines, other) (put c (lines s) nonzero (rest_NoNul s h))
]
  where
    put : (c : ℕ) (p : Split) → (c == 0) ≡ false → NoNul p.1 → NoNul (put_byte c p).1
    put c ([], r) z n = (z, n)
    put c (l ∷ ls, r) z n = n

append_NoNul : (a b : List ℕ) → NoNul a → NoNul b → NoNul (a ++ b)
append_NoNul [] b h k = k
append_NoNul (c ∷ a) b (z, h) k = (z, append_NoNul a b h k)

-- What is after the last newline has no newline.
put_none : (c : ℕ) (p : Split) → p.0 ≡ [] → (put_byte c p).0 ≡ []
put_none c ([], r) h = refl
put_none c (l ∷ ls, r) h = cc

put_open :
    (c : ℕ) (p : Split)
    → (c == newline) ≡ false
    → (lines p.1).0 ≡ []
    → (lines (put_byte c p).1).0 ≡ []
put_open c ([], r) h e = rw (lines, h) (put_none c (lines r) e)
put_open c (l ∷ ls, r) h e = e

open_line : (s : List ℕ) → (lines (lines s).1).0 ≡ []
open_line [] = refl
open_line (c ∷ s) = elim (Bool-cases (c == newline)) [
  | inl here ↦ rw (lines, here) (open_line s)
  | inr other ↦ rw (lines, other) (put_open c (lines s) other (open_line s))
]

-- With a part of a line in the buffer, and no NUL there or in what is read, and where each read returns a
-- byte at least and finds room for what it returns, `grep` writes the lines that end with a newline and
-- match, in order, however the reads cut the text.
pub grep-matching :
    (pattern m : List ℕ) (reads : List (List ℕ))
    → NoNul m
    → (lines m).0 ≡ []
    → Served m reads
    → grep pattern m reads ≡ matching pattern (lines (m ++ all_bytes reads)).0
unfolding grep
grep-matching pattern m [] n closed s =
    sym (ap (λ t. matching pattern (lines t).0) (append-nil m) ∙ ap (matching pattern) closed)
grep-matching pattern m (c ∷ reads) n closed (some_left, fits, nc, s) =
    let p = m ++ c in
    let np = append_NoNul m c n nc in
    let room : ltb 1023 (length p) ≡ false = ground arith in
    let here = grep_lines-matching (length p) pattern p (omega arith) np in
    let later = grep-matching pattern (lines p).1 reads (rest_NoNul p np) (open_line p) s in
    let whole =
      ap (λ t. matching pattern (lines t).0) (sym (append_assoc m c (all_bytes reads)))
      ∙ ap (λ t. matching pattern t.0) (lines-append p (all_bytes reads))
      ∙ matching-append pattern (lines p).0 (lines ((lines p).1 ++ all_bytes reads)).0 in
    rw (grep, some_left, room, here) (ap (λ t. matching pattern (lines p).0 ++ t) later ∙ sym whole)
