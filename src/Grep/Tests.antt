-- ===== src/Grep/Tests.antt =====
-- The matcher on concrete strings.
use xv6_learn.Common.{ℕ, true, false, ◌≡◌, ◌↔◌, refl, List, [], ◌∷◌, ◌++◌, arith}
use xv6_learn.Grep.{match_re, matchhere, split_line, grep_lines, grep}
use xv6_learn.Grep.Regex.{Matches, Starts, parse}
use xv6_learn.Grep.Lines.{lines, matching, all_bytes, grep-matching}
use xv6_learn.Grep.Language.{match_re-Matches, matchhere-Starts}

-- ^ab*c$, and a text that it matches.
abbrev anchored : List ℕ
anchored = 94 ∷ 97 ∷ 98 ∷ 42 ∷ 99 ∷ 36 ∷ []

abbrev abbc : List ℕ
abbc = 97 ∷ 98 ∷ 98 ∷ 99 ∷ []

anchored_matches : match_re anchored abbc ≡ true
unfolding match_re
anchored_matches = refl

anchored_misses : match_re anchored (120 ∷ abbc) ≡ false
unfolding match_re
anchored_misses = refl

-- .*c, which is found inside.
found_inside : match_re (46 ∷ 42 ∷ 99 ∷ []) (120 ∷ 99 ∷ 121 ∷ []) ≡ true
unfolding match_re
found_inside = refl

match_re-Matches_example : (match_re anchored abbc ≡ true) ↔ Matches anchored abbc
match_re-Matches_example = match_re-Matches anchored abbc

matchhere-Starts_example :
    (matchhere (98 ∷ 42 ∷ 99 ∷ []) (98 ∷ 99 ∷ []) ≡ true)
    ↔ Starts (parse (98 ∷ 42 ∷ 99 ∷ [])).0 (parse (98 ∷ 42 ∷ 99 ∷ [])).1 (98 ∷ 99 ∷ [])
matchhere-Starts_example = matchhere-Starts (98 ∷ 42 ∷ 99 ∷ []) (98 ∷ 99 ∷ [])

-- "ab", newline, "c", and then "d", newline, "b", newline, "x".
abbrev cut_up : List (List ℕ)
cut_up = (97 ∷ 98 ∷ 10 ∷ 99 ∷ []) ∷ (100 ∷ 10 ∷ 98 ∷ 10 ∷ 120 ∷ []) ∷ []

grep-matching_example :
    grep (98 ∷ []) [] cut_up ≡ matching (98 ∷ []) (lines ([] ++ all_bytes cut_up)).0
grep-matching_example = grep-matching (98 ∷ []) [] cut_up tt refl (
  refl,
  omega arith,
  (refl, (refl, (refl, (refl, tt)))),
  (refl, omega arith, (refl, (refl, (refl, (refl, (refl, tt))))), tt),
)

-- The lines with a "b".
two_lines : grep (98 ∷ []) [] cut_up ≡ 97 ∷ 98 ∷ 10 ∷ 98 ∷ 10 ∷ []
unfolding grep grep_lines split_line match_re
two_lines = refl
