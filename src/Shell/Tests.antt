-- ===== src/Shell/Tests.antt =====
-- The parser of the shell run on command lines, and its theorems at them.
use xv6_learn.Common.{ℕ, ◌≡◌, refl, List, [], ◌∷◌}
use xv6_learn.Shell.{
  exec, redir, pipe, list, back, ok, failed, missing_paren, gettoken, peek, parsecmd,
}
use xv6_learn.Shell.Bounds.{Parses, parsecmd-Parses}

-- "a <b|c &;d"
abbrev line : List ℕ
line = 97 ∷ 32 ∷ 60 ∷ 98 ∷ 124 ∷ 99 ∷ 32 ∷ 38 ∷ 59 ∷ 100 ∷ []

-- "(a"
abbrev half : List ℕ
half = 40 ∷ 97 ∷ []

parsecmd-line :
    parsecmd line
    ≡ ok
        (list
          (back (pipe (redir (exec ((97 ∷ []) ∷ [])) (98 ∷ []) 0 0) (exec ((99 ∷ []) ∷ []))))
          (exec ((100 ∷ []) ∷ [])))
        []
unfolding parsecmd peek gettoken
parsecmd-line = refl

parsecmd-half : parsecmd half ≡ failed missing_paren
unfolding parsecmd peek gettoken
parsecmd-half = refl

parsecmd-Parses_example : Parses (parsecmd line)
parsecmd-Parses_example = parsecmd-Parses line
