-- ===== src/Printf/Tests.antt =====
-- The printing of numbers at concrete inputs.
use xv6_learn.Common.{
  ◌-◌, ◌^◌, ◌≤◌, ◌≡◌, refl, arith, true, false, none, some, [], ◌∷◌, ◌++◌, length, if◌then◌else◌,
}
use xv6_learn.Ulib.{atoi}
use xv6_learn.Printf.{
  digits, is_negative, negate, digit_loop, emit, int_buf, printint, number, text, conversion,
  vprintf,
}
use xv6_learn.Printf.Numerals.{ten, int_buf-fits}
use xv6_learn.Printf.RoundTrip.{printint-atoi}

-- The lowest `int`.
int_buf-fits_example : length (int_buf digits (2 ^ 31) 10 true) ≤ 11
int_buf-fits_example = int_buf-fits digits (2 ^ 31) 10 true ten (omega arith)

printint-atoi_example :
    (printint 407 10 true
      ≡ (if is_negative 407 then 45 ∷ printint (negate 407) 10 false else printint 407 10 false))
    × (atoi (printint 407 10 false ++ (32 ∷ [])) ≡ 407)
printint-atoi_example = printint-atoi 407 (32 ∷ []) (omega arith) refl

-- "-12"
minus : printint (2 ^ 32 - 12) 10 true ≡ 45 ∷ 49 ∷ 50 ∷ []
unfolding printint int_buf digit_loop emit
minus = refl

-- "a%d %s" of 7 and null.
formatted :
    vprintf false (97 ∷ 37 ∷ 100 ∷ 32 ∷ 37 ∷ 115 ∷ []) (number 7 ∷ text none ∷ [])
    ≡ some (97 ∷ 55 ∷ 32 ∷ 40 ∷ 110 ∷ 117 ∷ 108 ∷ 108 ∷ 41 ∷ [])
unfolding vprintf conversion printint int_buf digit_loop emit
formatted = refl
