-- ===== src/Printf/RoundTrip.antt =====
-- `atoi` of user/ulib.c reads back what `printint` of user/printf.c prints in base 10.
use xv6_learn.Common.{
  ℕ, zero, suc, ◌+◌, ◌-◌, ◌*◌, ◌/◌, ◌%◌, ◌^◌, ◌<◌, ◌≡◌, refl, sym, ap, ◌∙◌, arith, true, false,
  List, [], ◌∷◌, ◌++◌, append_assoc, ◌==◌, if◌then◌else◌, length, get_or, Bool-cases, inl, inr,
}
use xv6_learn.Ulib.{is_digit, atoi_loop, atoi}
use xv6_learn.Printf.{digits, is_negative, negate, digit_loop, emit, int_buf, printint}
use xv6_learn.Printf.Numerals.{digit_at}

abbrev power_of_ten : ℕ → ℕ
power_of_ten zero = 1
power_of_ten (suc k) = 10 * power_of_ten k

-- The first byte of `buf` is printed last.
emit-cons : (i d : ℕ) (buf : List ℕ) → emit (suc i) (d ∷ buf) ≡ emit i buf ++ (d ∷ [])
unfolding emit
emit-cons zero d buf = refl
emit-cons (suc i) d buf = ap (λ s. get_or buf i 0 ∷ s) (emit-cons i d buf)

-- A digit that `atoi` reads.
atoi_digit :
    (x n : ℕ) (s : List ℕ)
    → x < 2 ^ 32
    → n ≡ x / 10
    → atoi_loop n (get_or digits (x % 10) 0 ∷ s) ≡ atoi_loop x s
unfolding atoi_loop
atoi_digit x n s h e =
    let d = digit_at (65 ∷ 66 ∷ 67 ∷ 68 ∷ 69 ∷ 70 ∷ []) (x % 10) (omega arith) in
    let yes : is_digit (48 + x % 10) ≡ true = ground arith in
    let val : (n * 10 + (48 + x % 10) + 2 ^ 32 - 48) % 2 ^ 32 ≡ x = omega arith in
    rw (d, atoi_loop, yes, val) refl

read_back :
    (fuel x : ℕ) (s : List ℕ)
    → x < power_of_ten fuel
    → x < 2 ^ 32
    → let buf = digit_loop fuel digits 10 x in
      atoi_loop 0 (emit (length buf) buf ++ s) ≡ atoi_loop x s
unfolding digit_loop emit
read_back zero x s h w = let e : 0 ≡ x = omega arith in ap (λ n. atoi_loop n s) e
read_back (suc fuel) x s h w =
    let d = get_or digits (x % 10) 0 in
    let rest = digit_loop fuel digits 10 (x / 10) in
    elim (Bool-cases (x / 10 == 0)) [
      | inl stop ↦ rw (digit_loop, stop) (atoi_digit x 0 s w (ground arith))
      | inr more ↦
          (let step : digit_loop (suc fuel) digits 10 x ≡ d ∷ rest = rw (digit_loop, more) refl in
            ap (λ buf. atoi_loop 0 (emit (length buf) buf ++ s)) step
            ∙ ap (λ z. atoi_loop 0 (z ++ s)) (emit-cons (length rest) d rest)
            ∙ ap (atoi_loop 0) (append_assoc (emit (length rest) rest) (d ∷ []) s)
            ∙ read_back fuel (x / 10) (d ∷ s) (omega arith) (omega arith)
            ∙ atoi_digit x (x / 10) s w refl)
    ]

-- What follows the numeral is no digit.
abbrev pub Stops : List ℕ → Type 0
Stops [] = Unit {0}
Stops (c ∷ s) = is_digit c ≡ false

atoi-stop : (n : ℕ) (s : List ℕ) → Stops s → atoi_loop n s ≡ n
unfolding atoi_loop
atoi-stop n [] h = refl
atoi-stop n (c ∷ s) h = rw h refl

emit-sign :
    (buf : List ℕ)
    → let signed = buf ++ (45 ∷ []) in emit (length signed) signed ≡ 45 ∷ emit (length buf) buf
unfolding emit
emit-sign [] = refl
emit-sign (d ∷ buf) =
    emit-cons (length (buf ++ (45 ∷ []))) d (buf ++ (45 ∷ []))
    ∙ ap (λ s. s ++ (d ∷ [])) (emit-sign buf)
    ∙ ap (λ s. 45 ∷ s) (sym (emit-cons (length buf) d buf))

-- For each `int`, as its bit pattern: a signed `printint` prints a negative one as a '-' and its
-- magnitude, and another as an unsigned one does; and `atoi` reads from an unsigned numeral, before
-- the end or a byte that is no digit, the bit pattern that was printed.
pub printint-atoi :
    (xx : ℕ) (s : List ℕ)
    → xx < 2 ^ 32
    → Stops s
    → (printint xx 10 true
        ≡ (if is_negative xx then 45 ∷ printint (negate xx) 10 false else printint xx 10 false))
      × (atoi (printint xx 10 false ++ s) ≡ xx)
unfolding printint int_buf atoi
printint-atoi xx s h stops = (
  elim (Bool-cases (is_negative xx)) [
    | inl minus ↦ rw (printint, int_buf, minus) (emit-sign (digit_loop 32 digits 10 (negate xx)))
    | inr plus ↦ rw (printint, int_buf, plus) refl
  ],
  read_back 32 xx s (omega arith) h ∙ atoi-stop xx s stops,
)
