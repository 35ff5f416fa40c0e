-- ===== src/Grep.antt =====
-- user/grep.c: the matcher, where a string is the list of its characters before the NUL, and the loop
-- over the lines of a file, where `buf` is the list of its `m` bytes.
pub mod Regex
pub mod Language
pub mod Lines
mod Tests
use xv6_learn.Common.{
  ℕ, zero, suc, ◌+◌, Bool, true, false, ◌&&◌, ◌||◌, Option, none, some, List, [], ◌∷◌, ◌++◌, ◌==◌,
  ltb, if◌then◌else◌, length,
}

abbrev pub caret : ℕ
caret = 94

abbrev pub dollar : ℕ
dollar = 36

abbrev pub star : ℕ
star = 42

abbrev pub dot : ℕ
dot = 46

abbrev pub is_end : List ℕ → Bool
is_end [] = true
is_end (t ∷ ts) = false

-- The loop of `matchstar`, with `matchhere` of the rest of the expression.
pub matchstar : (c : ℕ) → (List ℕ → Bool) → List ℕ → Bool
matchstar c here [] = here []
matchstar c here (t ∷ ts) =
    let rest = matchstar c here ts in
    if here (t ∷ ts) then true else if t == c || c == dot then rest else false

-- `*text != '\0' && (re[0] == '.' || re[0] == *text)`, and then `matchhere` of what follows both.
abbrev pub match_char : (c : ℕ) → (List ℕ → Bool) → List ℕ → Bool
match_char c here [] = false
match_char c here (t ∷ ts) = if c == dot || c == t then here ts else false

pub matchhere : (re text : List ℕ) → Bool
unfolding matchstar
matchhere [] text = true
matchhere (c ∷ []) text = if c == dollar then is_end text else match_char c (matchhere []) text
matchhere (c ∷ d ∷ re) text =
    if d == star then matchstar c (matchhere re) text else match_char c (matchhere (d ∷ re)) text

-- The loop of `match`.
pub match_from : (re text : List ℕ) → Bool
unfolding matchhere
match_from re [] = matchhere re []
match_from re (t ∷ ts) = let rest = match_from re ts in if matchhere re (t ∷ ts) then true else rest

pub match_re : (re text : List ℕ) → Bool
unfolding match_from
match_re [] text = match_from [] text
match_re (c ∷ re) text = if c == caret then matchhere re text else match_from (c ∷ re) text

abbrev pub newline : ℕ
newline = 10

abbrev pub longer : ℕ → Option (List ℕ × List ℕ) → Option (List ℕ × List ℕ)
longer c none = none
longer c (some (line, rest)) = some (c ∷ line, rest)

-- `strchr(p, '\n')`, which stops at a NUL: the bytes before the newline, and those after it.
pub split_line : List ℕ → Option (List ℕ × List ℕ)
split_line [] = none
split_line (c ∷ p) =
    let later = longer c (split_line p) in
    if c == 0 then none else if c == newline then some ([], p) else later

-- The loop over the lines of the buffer from `p` on: what is written, and the bytes that are left.
pub grep_lines : (fuel : ℕ) → (pattern p : List ℕ) → List ℕ × List ℕ
grep_lines zero pattern p = ([], p)
grep_lines (suc fuel) pattern p = elim (split_line p) [
  | none ↦ ([], p)
  | some (line, rest) ↦
      (let (out, left) = grep_lines fuel pattern rest in
        (if match_re pattern line then (line ++ (newline ∷ [])) ++ out else out, left))
]

-- What `grep` writes, with `m` in the buffer, on the bytes that the reads return; a read returns no
-- more than fits.
pub grep : (pattern m : List ℕ) → List (List ℕ) → List ℕ
grep pattern m [] = []
grep pattern m (c ∷ reads) =
    let p = m ++ c in
    let (out, left) = grep_lines (length p) pattern p in
    let rest = grep pattern left reads in
    if length c == 0 || ltb 1023 (length p) then [] else out ++ rest
