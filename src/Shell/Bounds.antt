-- ===== src/Shell/Bounds.antt =====
-- The parser ends within its fuel, and the commands that it makes fit their arrays.
use xv6_learn.Common.{
  ℕ, zero, suc, ◌+◌, ◌≤◌, ◌<◌, ◌≡◌, inl, inr, refl, arith, List, [], ◌∷◌, ◌==◌, leb, length,
  length-append, Bool-cases,
}
use xv6_learn.Shell.{
  Cmd, exec, redir, pipe, list, back, Parsed, ok, failed, out_of_fuel, leftovers, Parser, bind,
  skip_space, maxargs, gettoken, peek, add_redir, parseredirs, add_arg, parse_args, parseblock,
  parseexec, parsepipe, parse_backs, parseline, parsecmd,
}
use xv6_learn.Shell.Scanner.{gettoken-shorter, gettoken_le, skip_space_le, peek-shorter}

-- Each `execcmd` has room for its arguments and the 0 after them.
abbrev pub Fits : Cmd → Type 0
Fits (exec argv) = length argv < maxargs
Fits (redir c file mode fd) = Fits c
Fits (pipe c d) = Fits c × Fits d
Fits (list c d) = Fits c × Fits d
Fits (back c) = Fits c

-- The arguments of the `execcmd` that redirections stand around; no other command is in the loop.
abbrev HasArgs : ℕ → Cmd → Type 0
HasArgs n (exec argv) = length argv ≡ n
HasArgs n (redir c file mode fd) = HasArgs n c
HasArgs n (pipe c d) = ⊥
HasArgs n (list c d) = ⊥
HasArgs n (back c) = ⊥

HasArgs-Fits : (n : ℕ) (c : Cmd) → HasArgs n c → n < maxargs → Fits c
HasArgs-Fits n (exec argv) h p = omega (arith, h)
HasArgs-Fits n (redir c file mode fd) h p = HasArgs-Fits n c h p
HasArgs-Fits n (pipe c d) h p = elim h [ ]
HasArgs-Fits n (list c d) h p = elim h [ ]
HasArgs-Fits n (back c) h p = elim h [ ]

add_arg-HasArgs : (w : List ℕ) (n : ℕ) (c : Cmd) → HasArgs n c → HasArgs (n + 1) (add_arg w c)
unfolding add_arg
add_arg-HasArgs w n (exec argv) h = omega (arith, h, length-append argv (w ∷ []))
add_arg-HasArgs w n (redir c file mode fd) h = add_arg-HasArgs w n c h
add_arg-HasArgs w n (pipe c d) h = elim h [ ]
add_arg-HasArgs w n (list c d) h = elim h [ ]
add_arg-HasArgs w n (back c) h = elim h [ ]

-- The parser comes to an end, what it leaves has at most `n` bytes, and its command has the property.
data Ends (P : Cmd → Type 0) (n : ℕ) : Parsed → Type 0 where
  reads : {c : Cmd} {s : List ℕ} → length s ≤ n → P c → Ends P n (ok c s)
  fails : {e : _} → Ends P n (failed e)

Ends-bind :
    {P Q : Cmd → Type 0} {n k : ℕ} {r : Parsed} {f : Cmd → Parser}
    → Ends P n r
    → ((c : Cmd) (s : List ℕ) → P c → length s ≤ n → Ends Q k (f c s))
    → Ends Q k (bind r f)
Ends-bind (reads {c} {s} le p) f = f c s p le
Ends-bind fails f = fails

-- Redirections keep a property that they do not see.
module _ (P : Cmd → Type 0)
    (keep : (c : Cmd) (file : List ℕ) (mode fd : ℕ) → P c → P (redir c file mode fd)) where
  add_redir-keeps : (tok : ℕ) (file : List ℕ) (c : Cmd) → P c → P (add_redir tok file c)
  add_redir-keeps tok file c h = elim (Bool-cases (tok == 60)) [
    | inl lt ↦ rw lt (keep c file 0 0 h)
    | inr not_lt ↦ elim (Bool-cases (tok == 62)) [
      | inl gt ↦ rw (not_lt, gt) (keep c file 0x601 1 h)
      | inr not_gt ↦ elim (Bool-cases (tok == 43)) [
        | inl append ↦ rw (not_lt, not_gt, append) (keep c file 0x201 1 h)
        | inr other ↦ rw (not_lt, not_gt, other) h
      ]
    ]
  ]

  parseredirs-Ends :
      (fuel n : ℕ) (c : Cmd) (s : List ℕ)
      → length s < fuel
      → length s ≤ n
      → P c
      → Ends P n (parseredirs fuel c s)
  unfolding parseredirs
  parseredirs-Ends zero n c s f le h = absurd (omega arith)
  parseredirs-Ends (suc fuel) n c s f le h = elim (Bool-cases (peek (60 ∷ 62 ∷ []) s)) [
    | inr over ↦ rw (parseredirs, over) (reads (omega (arith, skip_space_le s)) h)
    | inl more ↦
        (let tok = gettoken s in
          let name = gettoken tok.left in
          let shorter = peek-shorter (60 ∷ 62 ∷ []) s more in
          elim (Bool-cases (name.ret == 97)) [
            | inr none ↦ rw (parseredirs, more, none) fails
            | inl word ↦
                (let le' = gettoken_le tok.left in
                  rw (parseredirs, more, word)
                    (parseredirs-Ends fuel n (add_redir tok.ret name.text c) name.left
                      (omega (arith, shorter, le')) (omega (arith, shorter, le'))
                      (add_redir-keeps tok.ret name.text c h)))
          ])
  ]

parse_args-Ends :
    (fuel argc n : ℕ) (c : Cmd) (s : List ℕ)
    → length s < fuel
    → length s ≤ n
    → argc < maxargs
    → HasArgs argc c
    → Ends Fits n (parse_args fuel argc c s)
unfolding parse_args
parse_args-Ends zero argc n c s f le room h = absurd (omega arith)
parse_args-Ends (suc fuel) argc n c s f le room h =
    let tok = gettoken s in
    elim (Bool-cases (peek (124 ∷ 41 ∷ 38 ∷ 59 ∷ []) s)) [
      | inl over ↦
          rw (parse_args, over)
            (reads (omega (arith, skip_space_le s)) (HasArgs-Fits argc c h room))
      | inr more ↦ elim (Bool-cases (tok.ret == 0)) [
        | inl end ↦
            rw (parse_args, more, end)
              (reads (omega (arith, gettoken_le s)) (HasArgs-Fits argc c h room))
        | inr token ↦ elim (Bool-cases (tok.ret == 97)) [
          | inr no_word ↦ rw (parse_args, more, token, no_word) fails
          | inl word ↦ elim (Bool-cases (leb maxargs (argc + 1))) [
            | inl full ↦ rw (parse_args, more, token, word, full) fails
            | inr fits ↦
                (let shorter = gettoken-shorter s (λ e. ground (arith, e)) in
                  rw (parse_args, more, token, word, fits)
                    (Ends-bind
                      (parseredirs-Ends (HasArgs (argc + 1)) (λ d file mode fd k. k) (suc fuel)
                        (length tok.left) (add_arg tok.text c) tok.left (omega (arith, shorter))
                        (omega arith) (add_arg-HasArgs tok.text argc c h))
                      λ d rest k le'.
                        parse_args-Ends fuel (argc + 1) n d rest (omega (arith, shorter, le'))
                          (omega (arith, shorter, le')) (ground arith) k))
          ]
        ]
      ]
    ]

module _ (line : Parser) (bound : ℕ)
    (line-Ends : (s : List ℕ) → length s < bound → Ends Fits (length s) (line s)) where
  parseblock-Ends : (s : List ℕ) → length s ≤ bound → Ends Fits (length s) (parseblock line s)
  unfolding parseblock
  parseblock-Ends s le = elim (Bool-cases (peek (40 ∷ []) s)) [
    | inr none ↦ rw (parseblock, none) fails
    | inl open_paren ↦
        (let shorter = peek-shorter (40 ∷ []) s open_paren in
          rw (parseblock, open_paren)
            (Ends-bind (line-Ends (gettoken s).left (omega (arith, shorter))) λ c rest h le'.
              elim (Bool-cases (peek (41 ∷ []) rest)) [
                | inr missing ↦ rw missing fails
                | inl close_paren ↦
                    (let after = (gettoken rest).left in
                      let shorter' = gettoken_le rest in
                      rw close_paren (
                        parseredirs-Ends Fits (λ d file mode fd k. k) (length after + 1) (length s)
                          c after (omega arith) (omega (arith, shorter, le', shorter')) h))
              ]))
  ]

  parseexec-Ends : (s : List ℕ) → length s ≤ bound → Ends Fits (length s) (parseexec line s)
  unfolding parseexec
  parseexec-Ends s le = elim (Bool-cases (peek (40 ∷ []) s)) [
    | inl block ↦ rw (parseexec, block) (parseblock-Ends s le)
    | inr simple ↦
        rw (parseexec, simple)
          (Ends-bind
            (parseredirs-Ends (HasArgs 0) (λ d file mode fd k. k) (length s + 1) (length s)
              (exec []) (skip_space s) (omega (arith, skip_space_le s)) (skip_space_le s) refl)
            λ c rest h le'.
              parse_args-Ends (length rest + 1) 0 (length s) c rest (omega arith) le' (omega arith)
                h)
  ]

  parsepipe-Ends :
      (fuel : ℕ) (s : List ℕ)
      → length s < fuel
      → length s ≤ bound
      → Ends Fits (length s) (parsepipe line fuel s)
  unfolding parsepipe
  parsepipe-Ends zero s f le = absurd (omega arith)
  parsepipe-Ends (suc fuel) s f le = Ends-bind (parseexec-Ends s le) λ c rest h le'.
      elim (Bool-cases (peek (124 ∷ []) rest)) [
        | inr over ↦ rw over (reads (omega (arith, skip_space_le rest, le')) h)
        | inl more ↦
            (let shorter = peek-shorter (124 ∷ []) rest more in
              rw more (
                Ends-bind
                  (parsepipe-Ends fuel (gettoken rest).left (omega (arith, shorter, le'))
                    (omega (arith, shorter, le')))
                  λ d rest' k le''. reads (omega (arith, shorter, le', le'')) (h, k)))
      ]

parse_backs-Ends :
    (fuel n : ℕ) (c : Cmd) (s : List ℕ)
    → length s < fuel
    → length s ≤ n
    → Fits c
    → Ends Fits n (parse_backs fuel c s)
unfolding parse_backs
parse_backs-Ends zero n c s f le h = absurd (omega arith)
parse_backs-Ends (suc fuel) n c s f le h = elim (Bool-cases (peek (38 ∷ []) s)) [
  | inr over ↦ rw (parse_backs, over) (reads (omega (arith, skip_space_le s)) h)
  | inl more ↦
      (let shorter = peek-shorter (38 ∷ []) s more in
        rw (parse_backs, more)
          (parse_backs-Ends fuel n (back c) (gettoken s).left (omega (arith, shorter))
            (omega (arith, shorter)) h))
]

parseline-Ends : (fuel : ℕ) (s : List ℕ) → length s < fuel → Ends Fits (length s) (parseline fuel s)
unfolding parseline
parseline-Ends zero s f = absurd (omega arith)
parseline-Ends (suc fuel) s f =
    Ends-bind
      (parsepipe-Ends (parseline fuel) fuel (parseline-Ends fuel) (length s + 1) s (omega arith)
        (omega arith))
      λ c rest h le.
        Ends-bind (parse_backs-Ends (length rest + 1) (length s) c rest (omega arith) le h)
          λ d rest' k le'. elim (Bool-cases (peek (59 ∷ []) rest')) [
            | inr over ↦ rw over (reads (omega (arith, skip_space_le rest', le')) k)
            | inl more ↦
                (let shorter = peek-shorter (59 ∷ []) rest' more in
                  rw more (
                    Ends-bind
                      (parseline-Ends fuel (gettoken rest').left (omega (arith, shorter, le')))
                      λ e end j le''. reads (omega (arith, shorter, le', le'')) (k, j)))
          ]

-- What a call of `parsecmd` may come to.
abbrev pub Parses : Parsed → Type 0
Parses (ok c s) = (s ≡ []) × Fits c
Parses (failed e) = Unit {0}
Parses out_of_fuel = ⊥

parsecmd-Ends : (s : List ℕ) → Ends Fits (length s) (parseline (length s + 1) s)
parsecmd-Ends s = parseline-Ends (length s + 1) s (omega arith)

-- The parser of the shell comes to an end on every line: `parsecmd` returns a command with no byte
-- of the line left, or reports a syntax error. Each `execcmd` of the command has at most 9
-- arguments, so that the 0 after them fits `argv` too.
pub parsecmd-Parses : (s : List ℕ) → Parses (parsecmd s)
unfolding parsecmd
parsecmd-Parses s = go (parseline (length s + 1) s) refl (parsecmd-Ends s)
  where
    go :
        (r : Parsed) → parseline (length s + 1) s ≡ r → Ends Fits (length s) r → Parses (parsecmd s)
    go r e (reads {c} {s = rest} le h) = rw e (end (skip_space rest))
      where
        end : (s' : List ℕ) → Parses (elim s' [ [] ↦ ok c [] | x ∷ s'' ↦ failed leftovers ])
        end [] = (refl, h)
        end (x ∷ s') = tt
    go r e fails = rw e tt
