-- ===== src/Printf.antt =====
-- user/printf.c: what a call writes, as a list of bytes. An `int` is its bit pattern; a format and a
-- string are their bytes up to the NUL. `none` is a `va_arg` with no argument of its type left. A
-- `write` of a byte is taken to succeed: `putc` does not look at its result.
pub mod Numerals
pub mod RoundTrip
mod Tests
use xv6_learn.Common.{
  ℕ, zero, suc, ◌+◌, ◌-◌, ◌*◌, ◌/◌, ◌%◌, ◌^◌, Bool, true, false, ◌&&◌, Option, none, some, List, [],
  ◌∷◌, ◌++◌, ◌==◌, leb, if◌then◌else◌, length, get_or,
}

-- The first ten entries of `digits`, and the others.
abbrev pub tens : List ℕ
tens = 48 ∷ 49 ∷ 50 ∷ 51 ∷ 52 ∷ 53 ∷ 54 ∷ 55 ∷ 56 ∷ 57 ∷ []

abbrev pub digits : List ℕ
digits = tens ++ (65 ∷ 66 ∷ 67 ∷ 68 ∷ 69 ∷ 70 ∷ [])

abbrev pub is_negative : ℕ → Bool
is_negative x = leb (2 ^ 31) x

-- `-xx` as a `uint`.
abbrev pub negate : ℕ → ℕ
negate x = (2 ^ 32 - x) % 2 ^ 32

-- The loop that fills `buf`, the lowest digit first.
unfoldable pub digit_loop : (fuel : ℕ) → List ℕ → (base x : ℕ) → List ℕ
digit_loop zero ds base x = []
digit_loop (suc fuel) ds base x =
    let rest = digit_loop fuel ds base (x / base) in
    get_or ds (x % base) 0 ∷ (if x / base == 0 then [] else rest)

-- `while (--i >= 0) putc(fd, buf[i])`
unfoldable pub emit : (i : ℕ) → List ℕ → List ℕ
emit zero buf = []
emit (suc i) buf = get_or buf i 0 ∷ emit i buf

-- What `printint` leaves in `buf`; a word has at most 32 digits.
unfoldable pub int_buf : List ℕ → (xx base : ℕ) → (sgn : Bool) → List ℕ
unfolding digit_loop
int_buf ds xx base sgn =
    if sgn && is_negative xx
    then digit_loop 32 ds base (negate xx) ++ (45 ∷ [])
    else digit_loop 32 ds base xx

unfoldable pub printint : (xx base : ℕ) → (sgn : Bool) → List ℕ
unfolding int_buf emit
printint xx base sgn = let buf = int_buf digits xx base sgn in emit (length buf) buf

-- The loop of `printptr`, with `n` digits left.
unfoldable pub ptr_loop : List ℕ → (n x : ℕ) → List ℕ
ptr_loop ds zero x = []
ptr_loop ds (suc n) x = get_or ds (x / 2 ^ 60) 0 ∷ ptr_loop ds n (x * 16 % 2 ^ 64)

unfoldable pub printptr : ℕ → List ℕ
unfolding ptr_loop
printptr x = 48 ∷ 120 ∷ ptr_loop digits 16 x

-- An argument of the call: an integer or an address, or a string, where 0 is `none`.
pub data Arg : Type 0 where
  number : ℕ → Arg
  text : Option (List ℕ) → Arg

-- The bytes that a conversion prints, and the arguments after it.
abbrev pub Printed : Type 0
Printed = Option (List ℕ × List Arg)

abbrev pub with_word : (ℕ → List ℕ) → List Arg → Printed
with_word f [] = none
with_word f (number x ∷ args) = some (f x, args)
with_word f (text s ∷ args) = none

-- "(null)"
abbrev pub null_text : List ℕ
null_text = 40 ∷ 110 ∷ 117 ∷ 108 ∷ 108 ∷ 41 ∷ []

abbrev pub with_text : List Arg → Printed
with_text [] = none
with_text (number x ∷ args) = none
with_text (text none ∷ args) = some (null_text, args)
with_text (text (some s) ∷ args) = some (s, args)

-- `va_arg(ap, int)`
abbrev pub int_of : ℕ → ℕ
int_of x = x % 2 ^ 32

-- The byte after a '%': d, l, x, p, s, c, '%', or another.
unfoldable pub conversion : ℕ → List Arg → Printed
unfolding printint printptr
conversion c args =
    if c == 100
    then with_word (λ x. printint (int_of x) 10 true) args
    else if c == 108
    then with_word (λ x. printint (int_of x) 10 false) args
    else if c == 120
    then with_word (λ x. printint (int_of x) 16 false) args
    else if c == 112
    then with_word (λ x. printptr (x % 2 ^ 64)) args
    else if c == 115
    then with_text args
    else if c == 99
    then with_word (λ x. x % 256 ∷ []) args
    else if c == 37
    then some (c ∷ [], args)
    else some (37 ∷ c ∷ [], args)

abbrev pub then_print : List ℕ → Option (List ℕ) → Option (List ℕ)
then_print out none = none
then_print out (some rest) = some (out ++ rest)

-- A conversion, and the rest of the format.
abbrev pub then_rest : Printed → (List Arg → Option (List ℕ)) → Option (List ℕ)
then_rest none rest = none
then_rest (some (out, args)) rest = then_print out (rest args)

-- The loop of `vprintf`; `true` is the state '%'.
unfoldable pub vprintf : (state : Bool) → List ℕ → List Arg → Option (List ℕ)
unfolding conversion
vprintf state [] args = some []
vprintf false (c ∷ fmt) args =
    let after_percent = vprintf true fmt args in
    let after_char = vprintf false fmt args in
    if c == 37 then after_percent else then_print (c ∷ []) after_char
vprintf true (c ∷ fmt) args = then_rest (conversion c args) (vprintf false fmt)

-- `printf` and `fprintf`, to whatever descriptor.
unfoldable pub printf : List ℕ → List Arg → Option (List ℕ)
unfolding vprintf
printf fmt args = vprintf false fmt args
