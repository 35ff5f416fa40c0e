-- ===== src/Kprintf/Agrees.antt =====
-- The `printf` of the kernel and that of user/printf.c.
use xv6_learn.Common.{
  ℕ, zero, suc, ◌/◌, ◌%◌, ◌≡◌, refl, sym, ap, ap₂, ◌∙◌, fun_ext, arith, Bool, true, false, not,
  ◌&&◌, ◌||◌, some, List, [], ◌∷◌, ◌++◌, ◌==◌, if◌then◌else◌, length, Bool-cases, inl, inr,
}
use xv6_learn.Printf
use xv6_learn.Printf.{
  tens, is_negative, negate, digit_loop, emit, Arg, number, text, Printed, with_word, int_of,
  then_print, then_rest, vprintf,
}
use xv6_learn.Printf.Numerals.{digit_at}
use xv6_learn.Kprintf.{digits, int_buf, printint, conversion, format, printf}

same_digits : (fuel x : ℕ) → digit_loop fuel digits 10 x ≡ digit_loop fuel Printf.digits 10 x
unfolding digit_loop
same_digits zero x = refl
same_digits (suc fuel) x =
    let ih = same_digits fuel (x / 10) in
    let d =
      digit_at (97 ∷ 98 ∷ 99 ∷ 100 ∷ 101 ∷ 102 ∷ []) (x % 10) (omega arith)
      ∙ sym (digit_at (65 ∷ 66 ∷ 67 ∷ 68 ∷ 69 ∷ 70 ∷ []) (x % 10) (omega arith)) in
    ap₂ (λ a s. a ∷ (if x / 10 == 0 then [] else s)) d ih

same_decimal : (xx : ℕ) → printint xx 10 true ≡ Printf.printint xx 10 true
unfolding printint int_buf Printf.printint Printf.int_buf
same_decimal xx =
    ap (λ buf. emit (length buf) buf)
      (elim (Bool-cases (is_negative xx)) [
        | inl minus ↦
            rw (int_buf, Printf.int_buf, minus)
              (ap (λ s. s ++ (45 ∷ [])) (same_digits 32 (negate xx)))
        | inr plus ↦ rw (int_buf, Printf.int_buf, plus) (same_digits 32 xx)
      ])

-- The conversions that the two print in different ways: x, p, l and c.
abbrev pub differs : ℕ → Bool
differs c = c == 120 || (c == 112 || (c == 108 || c == 99))

same_word :
    (f g : ℕ → List ℕ) (args : List Arg)
    → ((x : ℕ) → f x ≡ g x)
    → with_word f args ≡ with_word g args
same_word f g [] h = refl
same_word f g (number x ∷ args) h = ap (λ s. some (s, args)) (h x)
same_word f g (text s ∷ args) h = refl

same_conversion :
    (c : ℕ) (args : List Arg) → differs c ≡ false → conversion c args ≡ Printf.conversion c args
unfolding conversion Printf.conversion
same_conversion c args h = elim (Bool-cases (c == 100)) [
  | inl d ↦
      rw (conversion, Printf.conversion, d) (same_word _ _ args (λ x. same_decimal (int_of x)))
  | inr not_d ↦
      (let x : (c == 120) ≡ false = ground arith in
        let p : (c == 112) ≡ false = ground arith in
        let l : (c == 108) ≡ false = ground arith in
        let k : (c == 99) ≡ false = ground arith in
        elim (Bool-cases (c == 37)) [
          | inl percent ↦
              (let e : c ≡ 37 = ground arith in
                rw (conversion, Printf.conversion, not_d, x, p, l, k, percent, e) refl)
          | inr other ↦ rw (conversion, Printf.conversion, not_d, x, p, l, k, other) refl
        ])
]

-- No '%' of the format is followed by such a conversion.
abbrev pub is_shared : List ℕ → Bool
is_shared [] = true
is_shared (c ∷ []) = true
is_shared (c ∷ d ∷ fmt) = if c == 37 then not (differs d) && is_shared fmt else is_shared (d ∷ fmt)

-- On a format whose conversions are '%d', '%s', '%%' or unknown ones, the `printf` of the kernel
-- prints what that of the user library prints, and takes the same arguments; on a '%' at the end of
-- the format too.
pub printf-agrees :
    (fmt : List ℕ) (args : List Arg)
    → is_shared fmt ≡ true
    → printf fmt args ≡ Printf.printf fmt args
unfolding printf Printf.printf format vprintf
printf-agrees [] args h = refl
printf-agrees (c ∷ []) args h = elim (Bool-cases (c == 37)) [
  | inl percent ↦ rw percent refl
  | inr other ↦ rw other refl
]
printf-agrees (c ∷ d ∷ fmt) args h = elim (Bool-cases (c == 37)) [
  | inl percent ↦
      (let this : differs d ≡ false = ground arith in
        let later : is_shared fmt ≡ true = ground arith in
        rw (percent, same_conversion d args this)
          (ap (then_rest (Printf.conversion d args)) (fun_ext (λ a. printf-agrees fmt a later))))
  | inr other ↦
      (let later : is_shared (d ∷ fmt) ≡ true = ground arith in
        rw other (ap (then_print (c ∷ [])) (printf-agrees (d ∷ fmt) args later)))
]
