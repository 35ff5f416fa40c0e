-- ===== src/Printf/Numerals.antt =====
-- The numerals of `printint`: how much of `buf` they take, and what `atoi` reads back.
use xv6_learn.Common.{
  ℕ, zero, suc, ◌+◌, ◌*◌, ◌/◌, ◌^◌, ◌≤◌, ◌<◌, ◌≡◌, refl, arith, Bool, true, ◌&&◌, List, [], ◌∷◌,
  ◌++◌, ◌==◌, length, length-append, get_or, Bool-cases, inl, inr,
}
use xv6_learn.Printf.{tens, is_negative, negate, digit_loop, int_buf}

-- A table of digits starts with the decimal ones.
pub digit_at : (ds : List ℕ) (k : ℕ) → k < 10 → get_or (tens ++ ds) k 0 ≡ 48 + k
digit_at ds zero h = refl
digit_at ds (suc zero) h = refl
digit_at ds (suc (suc zero)) h = refl
digit_at ds (suc (suc (suc zero))) h = refl
digit_at ds (suc (suc (suc (suc zero)))) h = refl
digit_at ds (suc (suc (suc (suc (suc zero))))) h = refl
digit_at ds (suc (suc (suc (suc (suc (suc zero)))))) h = refl
digit_at ds (suc (suc (suc (suc (suc (suc (suc zero))))))) h = refl
digit_at ds (suc (suc (suc (suc (suc (suc (suc (suc zero)))))))) h = refl
digit_at ds (suc (suc (suc (suc (suc (suc (suc (suc (suc zero))))))))) h = refl
digit_at ds (suc (suc (suc (suc (suc (suc (suc (suc (suc (suc k)))))))))) h = absurd (omega arith)

abbrev power : (base k : ℕ) → ℕ
power base zero = 1
power base (suc k) = base * power base k

digit_loop-short :
    (base : ℕ)
    → ((x p : ℕ) → x < base * p → x / base < p)
    → (ds : List ℕ) (fuel k x : ℕ) → x < power base (suc k)
    → length (digit_loop fuel ds base x) ≤ suc k
unfolding digit_loop
digit_loop-short base shrinks ds zero k x h = omega arith
digit_loop-short base shrinks ds (suc fuel) zero x h =
    let one_left = shrinks x 1 h in
    let stop : (x / base == 0) ≡ true = ground arith in rw (digit_loop, stop) (omega arith)
digit_loop-short base shrinks ds (suc fuel) (suc k) x h =
    let ih = digit_loop-short base shrinks ds fuel k (x / base) (shrinks x _ h) in
    elim (Bool-cases (x / base == 0)) [
      | inl stop ↦ rw (digit_loop, stop) (omega arith)
      | inr more ↦ rw (digit_loop, more) (omega (arith, ih))
    ]

-- The bases that `printf` uses.
pub data Base : ℕ → Type 0 where
  ten : Base 10
  sixteen : Base 16

loop_short :
    (ds : List ℕ) (x base : ℕ) → Base base → x < 2 ^ 32 → length (digit_loop 32 ds base x) ≤ 10
loop_short ds x base ten h = digit_loop-short 10 (λ y p g. omega (arith, g)) ds 32 9 x (omega arith)
loop_short ds x base sixteen h =
    let s = digit_loop-short 16 (λ y p g. omega (arith, g)) ds 32 7 x (omega arith) in
    omega (arith, s)

-- In base 10 or 16, and with either table of digits, the numeral of an `int` with its sign takes at
-- most 11 of the 16 bytes of `buf`.
pub int_buf-fits :
    (ds : List ℕ) (xx base : ℕ) (sgn : Bool)
    → Base base
    → xx < 2 ^ 32
    → length (int_buf ds xx base sgn) ≤ 11
unfolding int_buf
int_buf-fits ds xx base sgn b h = elim (Bool-cases (sgn && is_negative xx)) [
  | inl minus ↦
      rw (int_buf, minus)
        (omega (
          arith,
          loop_short ds (negate xx) base b (omega arith),
          length-append (digit_loop 32 ds base (negate xx)) (45 ∷ []),
        ))
  | inr plus ↦ rw (int_buf, plus) (omega (arith, loop_short ds xx base b h))
]
