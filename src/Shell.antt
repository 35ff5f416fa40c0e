-- ===== src/Shell.antt =====
-- user/sh.c: the scanner and the parser of the shell. A command line is its bytes up to `es`, none of
-- them NUL, and `*ps` is the bytes that are left; `*es` reads as 0. A word is the bytes from `q` to
-- `eq`, which `nulterminate` makes a string.
pub mod Scanner
pub mod Bounds
mod Tests
use xv6_learn.Common.{
  ℕ, zero, suc, ◌+◌, Bool, true, false, not, ◌&&◌, ◌||◌, List, [], ◌∷◌, ◌++◌, ◌==◌, ltb, leb,
  if◌then◌else◌, length,
}

-- The shell's `panic`s, which end the process that parses.
pub data Error : Type 0 where
  missing_file missing_paren not_a_block not_a_word too_many_args leftovers : Error

pub data Cmd : Type 0 where
  exec : (argv : List (List ℕ)) → Cmd
  redir : Cmd → (file : List ℕ) → (mode fd : ℕ) → Cmd
  pipe list : Cmd → Cmd → Cmd
  back : Cmd → Cmd

-- What a parser comes to: a command and the bytes that are left. `out_of_fuel` has no counterpart in
-- the program.
pub data Parsed : Type 0 where
  ok : Cmd → List ℕ → Parsed
  failed : Error → Parsed
  out_of_fuel : Parsed

abbrev pub Parser : Type 0
Parser = List ℕ → Parsed

abbrev pub bind : Parsed → (Cmd → Parser) → Parsed
bind (ok c s) k = k c s
bind (failed e) k = failed e
bind out_of_fuel k = out_of_fuel

-- " \t\r\n\v"
abbrev pub whitespace : List ℕ
whitespace = 32 ∷ 9 ∷ 13 ∷ 10 ∷ 11 ∷ []

-- "<|>&;()"
abbrev pub symbols : List ℕ
symbols = 60 ∷ 124 ∷ 62 ∷ 38 ∷ 59 ∷ 40 ∷ 41 ∷ []

-- The symbols of one byte that `gettoken` takes as they are: "|();&<".
abbrev pub operators : List ℕ
operators = 124 ∷ 40 ∷ 41 ∷ 59 ∷ 38 ∷ 60 ∷ []

abbrev pub maxargs : ℕ
maxargs = 10

-- Whether `strchr(s, c)` is not 0, of user/ulib.c.
unfoldable pub strchr : List ℕ → ℕ → Bool
strchr [] c = false
strchr (x ∷ s) c = let rest = strchr s c in if x == c then true else rest

-- `while (s < es && strchr(whitespace, *s)) s++`
unfoldable pub skip_space : List ℕ → List ℕ
unfolding strchr
skip_space [] = []
skip_space (x ∷ s) = let rest = skip_space s in if strchr whitespace x then rest else x ∷ s

abbrev pub ends_word : ℕ → Bool
ends_word x = strchr whitespace x || strchr symbols x

-- The bytes of a word, and those after it.
unfoldable pub word : List ℕ → List ℕ
word [] = []
word (x ∷ s) = let rest = word s in if ends_word x then [] else x ∷ rest

unfoldable pub after_word : List ℕ → List ℕ
after_word [] = []
after_word (x ∷ s) = let rest = after_word s in if ends_word x then x ∷ s else rest

-- What `gettoken` returns, the bytes from `*q` to `*eq`, and the bytes that are left: 0 at the end,
-- a byte of `operators`, '>', '+' for ">>", or 'a' for a word.
pub record Token : Type 0 where
  pub ret : ℕ
  pub text : List ℕ
  pub left : List ℕ

abbrev pub starts_gt : List ℕ → Bool
starts_gt [] = false
starts_gt (x ∷ s) = x == 62

abbrev pub tail : List ℕ → List ℕ
tail [] = []
tail (x ∷ s) = s

-- The token that a '>' before the bytes `s` starts.
unfoldable pub greater_at : List ℕ → Token
greater_at s =
    if starts_gt s
    then record { ret = 43; text = 62 ∷ 62 ∷ []; left = tail s }
    else record { ret = 62; text = 62 ∷ []; left = s }

unfoldable pub token_at : List ℕ → Token
unfolding strchr word after_word greater_at
token_at [] = record { ret = 0; text = []; left = [] }
token_at (x ∷ s) =
    if strchr operators x
    then record { ret = x; text = x ∷ []; left = s }
    else if x == 62
    then greater_at s
    else record { ret = 97; text = word (x ∷ s); left = after_word (x ∷ s) }

unfoldable pub gettoken : List ℕ → Token
unfolding skip_space token_at
gettoken s = let t = token_at (skip_space s) in record t { left = skip_space t.left }

-- The test of `peek`; the bytes that it leaves are those of `skip_space`.
unfoldable pub peek : (toks : List ℕ) → List ℕ → Bool
unfolding skip_space strchr
peek toks s = elim (skip_space s) [ [] ↦ false | x ∷ s' ↦ strchr toks x ]

-- O_RDONLY is 0, O_WRONLY | O_CREATE | O_TRUNC is 0x601, and O_WRONLY | O_CREATE is 0x201.
abbrev pub add_redir : (tok : ℕ) → (file : List ℕ) → Cmd → Cmd
add_redir tok file c =
    if tok == 60
    then redir c file 0 0
    else if tok == 62
    then redir c file 0x601 1
    else if tok == 43
    then redir c file 0x201 1
    else c

pub parseredirs : (fuel : ℕ) → Cmd → Parser
parseredirs zero c s = out_of_fuel
parseredirs (suc fuel) c s = elim (peek (60 ∷ 62 ∷ []) s) [
  | false ↦ ok c (skip_space s)
  | true ↦
      (let tok = gettoken s in
        let name = gettoken tok.left in
        elim (name.ret == 97) [
          | false ↦ failed missing_file
          | true ↦ parseredirs fuel (add_redir tok.ret name.text c) name.left
        ])
]

-- `cmd->argv[argc] = q` of the `execcmd` that the redirections stand around.
pub add_arg : List ℕ → Cmd → Cmd
add_arg w (exec argv) = exec (argv ++ (w ∷ []))
add_arg w (redir c file mode fd) = redir (add_arg w c) file mode fd
add_arg w (pipe c d) = pipe c d
add_arg w (list c d) = list c d
add_arg w (back c) = back c

-- The loop of `parseexec`.
pub parse_args : (fuel argc : ℕ) → Cmd → Parser
unfolding parseredirs add_arg
parse_args zero argc c s = out_of_fuel
parse_args (suc fuel) argc c s = elim (peek (124 ∷ 41 ∷ 38 ∷ 59 ∷ []) s) [
  | true ↦ ok c (skip_space s)
  | false ↦
      (let tok = gettoken s in
        elim (tok.ret == 0) [
          | true ↦ ok c tok.left
          | false ↦ elim (tok.ret == 97) [
            | false ↦ failed not_a_word
            | true ↦ elim (leb maxargs (argc + 1)) [
              | true ↦ failed too_many_args
              | false ↦
                  bind (parseredirs (suc fuel) (add_arg tok.text c) tok.left)
                    λ d rest. parse_args fuel (argc + 1) d rest
            ]
          ]
        ])
]

-- The parsers that call `parseline` take it as `line`.
module _ (line : Parser) where
  pub parseblock : Parser
  parseblock s = elim (peek (40 ∷ []) s) [
    | false ↦ failed not_a_block
    | true ↦ bind (line (gettoken s).left) λ c rest. elim (peek (41 ∷ []) rest) [
      | false ↦ failed missing_paren
      | true ↦ (let after = (gettoken rest).left in parseredirs (length after + 1) c after)
    ]
  ]

  pub parseexec : Parser
  unfolding parseblock parse_args
  parseexec s = elim (peek (40 ∷ []) s) [
    | true ↦ parseblock s
    | false ↦
        bind (parseredirs (length s + 1) (exec []) (skip_space s))
          λ c rest. parse_args (length rest + 1) 0 c rest
  ]

  pub parsepipe : (fuel : ℕ) → Parser
  unfolding parseexec
  parsepipe zero s = out_of_fuel
  parsepipe (suc fuel) s = bind (parseexec s) λ c rest. elim (peek (124 ∷ []) rest) [
    | false ↦ ok c (skip_space rest)
    | true ↦ bind (parsepipe fuel (gettoken rest).left) λ d rest'. ok (pipe c d) rest'
  ]

-- The loop of `parseline`.
pub parse_backs : (fuel : ℕ) → Cmd → Parser
parse_backs zero c s = out_of_fuel
parse_backs (suc fuel) c s = elim (peek (38 ∷ []) s) [
  | false ↦ ok c (skip_space s)
  | true ↦ parse_backs fuel (back c) (gettoken s).left
]

pub parseline : (fuel : ℕ) → Parser
unfolding parsepipe parse_backs
parseline zero s = out_of_fuel
parseline (suc fuel) s =
    let line = parseline fuel in
    bind (parsepipe line (length s + 1) s) λ c rest.
      bind (parse_backs (length rest + 1) c rest) λ d rest'. elim (peek (59 ∷ []) rest') [
        | false ↦ ok d (skip_space rest')
        | true ↦ bind (line (gettoken rest').left) λ e end. ok (list d e) end
      ]

pub parsecmd : List ℕ → Parsed
unfolding parseline
parsecmd s =
    bind (parseline (length s + 1) s)
      λ c rest. elim (skip_space rest) [ [] ↦ ok c [] | x ∷ s' ↦ failed leftovers ]
