-- ===== src/Kprintf/Tests.antt =====
-- The printing of the kernel at concrete inputs.
use xv6_learn.Common.{◌^◌, ◌≡◌, refl, true, [], ◌∷◌}
use xv6_learn.Printf
use xv6_learn.Printf.{number, digit_loop, emit}
use xv6_learn.Kprintf.{printf, printint, int_buf}
use xv6_learn.Kprintf.Agrees.{printf-agrees}

-- "x%d%%" of 42.
printf-agrees_example :
    printf (120 ∷ 37 ∷ 100 ∷ 37 ∷ 37 ∷ []) (number 42 ∷ [])
    ≡ Printf.printf (120 ∷ 37 ∷ 100 ∷ 37 ∷ 37 ∷ []) (number 42 ∷ [])
printf-agrees_example = printf-agrees (120 ∷ 37 ∷ 100 ∷ 37 ∷ 37 ∷ []) (number 42 ∷ []) refl

-- A hexadecimal number with the highest bit is printed with a sign: "-80000000".
signed_hex : printint (2 ^ 31) 16 true ≡ 45 ∷ 56 ∷ 48 ∷ 48 ∷ 48 ∷ 48 ∷ 48 ∷ 48 ∷ 48 ∷ []
unfolding printint int_buf digit_loop emit
signed_hex = refl
