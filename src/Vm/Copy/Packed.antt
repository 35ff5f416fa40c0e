-- ===== src/Vm/Copy/Packed.antt =====
-- Bytes in words: what a byte that is put leaves of the others, in its word and elsewhere.
use native.Mathlib.Nat.{div-div-eq-div-mul, div-mul-le_self, mul-le-mul_right}
use xv6_learn.Common.{
  ℕ, zero, suc, ◌+◌, ◌-◌, ◌*◌, ◌/◌, ◌%◌, ◌^◌, ◌≤◌, ◌<◌, ◌≡◌, ◌≢◌, arith, ap, sym, ◌∙◌, ◌==◌,
  if◌then◌else◌, inl, inr, Bool-cases, update, update_self, update_ne,
}
use xv6_learn.Vm.Copy.{get_byte, put_byte}

-- Byte `j` of a word, and the word with another byte there.
abbrev pub digit : (j w : ℕ) → ℕ
digit j w = w / 256 ^ j % 256

abbrev pub with_digit : (j c w : ℕ) → ℕ
with_digit j c w = w + c * 256 ^ j - digit j w * 256 ^ j

power : (j : ℕ) → 256 ^ suc j ≡ 256 * 256 ^ j
power j = omega arith

digit-suc : (j w : ℕ) → digit (suc j) w ≡ digit j (w / 256)
digit-suc j w =
    ap (λ p. w / p % 256) (power j) ∙ ap (λ q. q % 256) (sym (div-div-eq-div-mul w 256 (256 ^ j)))

digit-small : (j w : ℕ) → digit j w * 256 ^ j ≤ w
digit-small j w = omega (
  arith,
  mul-le-mul_right {m = digit j w} {n = w / 256 ^ j} (256 ^ j) (omega arith),
  div-mul-le_self w (256 ^ j),
)

carry :
    (w c d p : ℕ)
    → d * p ≤ w / 256
    → w + c * (256 * p) - d * (256 * p) ≡ 256 * (w / 256 + c * p - d * p) + w % 256
carry w c d p h = omega arith

with_digit-suc : (j c w : ℕ) → with_digit (suc j) c w ≡ 256 * with_digit j c (w / 256) + w % 256
with_digit-suc j c w =
    rw (digit-suc j w, power j) (carry w c (digit j (w / 256)) (256 ^ j) (digit-small j (w / 256)))

digit-with_digit :
    (i j c w : ℕ) → c < 256 → digit i (with_digit j c w) ≡ (if i == j then c else digit i w)
digit-with_digit zero zero c w h = ground arith
digit-with_digit zero (suc j) c w h = ground (arith, with_digit-suc j c w)
digit-with_digit (suc i) zero c w h =
    digit-suc i (with_digit zero c w)
    ∙ ap (digit i) (omega arith)
    ∙ sym (digit-suc i w)
    ∙ ground arith
digit-with_digit (suc i) (suc j) c w h =
    digit-suc i (with_digit (suc j) c w)
    ∙ ap (digit i) (omega (arith, with_digit-suc j c w))
    ∙ digit-with_digit i j c (w / 256) h
    ∙ ap (λ d. if i == j then c else d) (sym (digit-suc i w))
    ∙ ground arith

-- A byte that is put is there, and every other byte is as it was.
pub get_byte-put_byte : (a c : ℕ) (m : ℕ → ℕ) → c < 256 → get_byte a (put_byte a c m) ≡ c
unfolding get_byte put_byte
get_byte-put_byte a c m h =
    let j = a % 8 in
    let w = m (a - j) in
    ap (digit j) (update_self m (a - j) (with_digit j c w))
    ∙ digit-with_digit j j c w h
    ∙ ground arith

pub get_byte-put_byte_ne :
    (a b c : ℕ) (m : ℕ → ℕ) → c < 256 → b ≢ a → get_byte b (put_byte a c m) ≡ get_byte b m
unfolding get_byte put_byte
get_byte-put_byte_ne a b c m h ne =
    let w = m (a - a % 8) in
    let x = with_digit (a % 8) c w in
    elim (Bool-cases (a - a % 8 == b - b % 8)) [
      | inl same ↦
          (let e : b - b % 8 ≡ a - a % 8 = ground arith in
            let other : b % 8 ≢ a % 8 = λ s. ne (omega (arith, e, s)) in
            ap (λ i. digit (b % 8) (update m (a - a % 8) x i)) e
            ∙ ap (digit (b % 8)) (update_self m (a - a % 8) x)
            ∙ digit-with_digit (b % 8) (a % 8) c w h
            ∙ ground (arith, other)
            ∙ ap (λ i. digit (b % 8) (m i)) (sym e))
      | inr apart ↦ ap (digit (b % 8)) (update_ne m (a - a % 8) x (b - b % 8) (ground arith))
    ]
