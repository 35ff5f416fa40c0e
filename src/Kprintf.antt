-- ===== src/Kprintf.antt =====
-- kernel/printf.c: what a call gives to `consputc`, as a list of bytes, with the arguments of
-- user/printf.c's model. `pr.lock` is held around a call; `panic`, `panicked`, the variant with
-- TEST and the panic on a null format are left out.
pub mod Agrees
mod Tests
use xv6_learn.Common.{
  ℕ, zero, suc, ◌+◌, ◌%◌, ◌^◌, Bool, true, false, ◌&&◌, Option, none, some, List, [], ◌∷◌, ◌++◌,
  ◌==◌, if◌then◌else◌, length,
}
use xv6_learn.Printf.{
  tens, is_negative, negate, digit_loop, emit, ptr_loop, Arg, Printed, with_word, with_text, int_of,
  then_print, then_rest,
}

abbrev pub digits : List ℕ
digits = tens ++ (97 ∷ 98 ∷ 99 ∷ 100 ∷ 101 ∷ 102 ∷ [])

-- What is in `buf` when the last loop of `printint` starts.
unfoldable pub int_buf : (xx base : ℕ) → (sign : Bool) → List ℕ
int_buf xx base sign =
    let minus = sign && is_negative xx in
    let x = if minus then negate xx else xx in
    let buf = digit_loop 32 digits base x in if minus then buf ++ (45 ∷ []) else buf

unfoldable pub printint : (xx base : ℕ) → (sign : Bool) → List ℕ
printint xx base sign = let buf = int_buf xx base sign in emit (length buf) buf

unfoldable pub printptr : ℕ → List ℕ
printptr x = 48 ∷ 120 ∷ ptr_loop digits 16 x

-- The `switch` on the byte after a '%': d, x, p, s, '%', or another.
unfoldable pub conversion : ℕ → List Arg → Printed
conversion c args =
    if c == 100
    then with_word (λ x. printint (int_of x) 10 true) args
    else if c == 120
    then with_word (λ x. printint (int_of x) 16 true) args
    else if c == 112
    then with_word (λ x. printptr (x % 2 ^ 64)) args
    else if c == 115
    then with_text args
    else if c == 37
    then some (37 ∷ [], args)
    else some (37 ∷ c ∷ [], args)

-- The loop over the format.
unfoldable pub format : List ℕ → List Arg → Option (List ℕ)
format [] args = some []
format (c ∷ []) args = if c == 37 then some [] else some (c ∷ [])
format (c ∷ d ∷ fmt) args =
    let after_char = format (d ∷ fmt) args in
    let after_conversion = then_rest (conversion d args) (format fmt) in
    if c == 37 then after_conversion else then_print (c ∷ []) after_char

-- `_printf`
pub printf : List ℕ → List Arg → Option (List ℕ)
printf fmt args = format fmt args

-- "\033[0;36m[INFO] " and "\033[0m"
abbrev info_start : List ℕ
info_start = 27 ∷ 91 ∷ 48 ∷ 59 ∷ 51 ∷ 54 ∷ 109 ∷ 91 ∷ 73 ∷ 78 ∷ 70 ∷ 79 ∷ 93 ∷ 32 ∷ []

abbrev info_end : List ℕ
info_end = 27 ∷ 91 ∷ 48 ∷ 109 ∷ []

-- Without LAB_SYSCALL_TEST.
pub info_with_color : List ℕ → List Arg → Option (List ℕ)
info_with_color fmt args = elim (format fmt args) [
  | none ↦ none
  | some out ↦ some (info_start ++ (out ++ info_end))
]
