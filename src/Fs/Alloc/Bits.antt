-- ===== src/Fs/Alloc/Bits.antt =====
-- Single bits of a number.
use native.Mathlib.Nat.{div-div-eq-div-mul, pow-succ'}
use xv6_learn.Common.{
  ℕ, zero, suc, ◌+◌, ◌-◌, ◌/◌, ◌%◌, ◌^◌, ◌≤◌, ◌≡◌, ◌≢◌, refl, ap, sym, ◌∙◌, arith,
}

abbrev pub bit_at : ℕ → ℕ → ℕ
bit_at x k = x / 2 ^ k % 2

bit_at-suc : (x k : ℕ) → bit_at x (suc k) ≡ bit_at (x / 2) k
bit_at-suc x k =
    ap (λ y. y % 2) (ap (λ p. x / p) (pow-succ' 2 k) ∙ sym (div-div-eq-div-mul x 2 (2 ^ k)))

bit_at_zero : (x : ℕ) → bit_at x 0 ≡ x % 2
bit_at_zero x = omega arith

half_add : (x k : ℕ) → (x + 2 ^ suc k) / 2 ≡ x / 2 + 2 ^ k
half_add x k = omega (arith, pow-succ' 2 k)

half_sub : (x k : ℕ) → (x - 2 ^ suc k) / 2 ≡ x / 2 - 2 ^ k
half_sub x k = omega (arith, pow-succ' 2 k)

-- To add 2^k where bit `k` is clear sets that bit and no other.
pub bit_at-add_self : (k x : ℕ) → bit_at x k ≡ 0 → bit_at (x + 2 ^ k) k ≡ 1
bit_at-add_self zero x h = omega arith
bit_at-add_self (suc k) x h =
    bit_at-suc (x + 2 ^ suc k) k
    ∙ rw (half_add x k) (bit_at-add_self k (x / 2) (sym (bit_at-suc x k) ∙ h))

pub bit_at-add_ne : (k j x : ℕ) → k ≢ j → bit_at x k ≡ 0 → bit_at (x + 2 ^ k) j ≡ bit_at x j
bit_at-add_ne zero zero x ne h = absurd (ne refl)
bit_at-add_ne zero (suc j) x ne h =
    let same : (x + 1) / 2 ≡ x / 2 = omega arith in
    bit_at-suc (x + 1) j ∙ ap (λ y. bit_at y j) same ∙ sym (bit_at-suc x j)
bit_at-add_ne (suc k) zero x ne h = omega (arith, pow-succ' 2 k)
bit_at-add_ne (suc k) (suc j) x ne h =
    bit_at-suc (x + 2 ^ suc k) j
    ∙ ap (λ y. bit_at y j) (half_add x k)
    ∙ bit_at-add_ne k j (x / 2) (λ e. ne (ap suc e)) (sym (bit_at-suc x k) ∙ h)
    ∙ sym (bit_at-suc x j)

bit_at-le : (k x : ℕ) → bit_at x k ≡ 1 → 2 ^ k ≤ x
bit_at-le zero x h = omega arith
bit_at-le (suc k) x h = omega (arith, pow-succ' 2 k, bit_at-le k (x / 2) (sym (bit_at-suc x k) ∙ h))

-- To take 2^k away where bit `k` is set clears that bit and no other.
pub bit_at-sub_self : (k x : ℕ) → bit_at x k ≡ 1 → bit_at (x - 2 ^ k) k ≡ 0
bit_at-sub_self zero x h = omega arith
bit_at-sub_self (suc k) x h =
    bit_at-suc (x - 2 ^ suc k) k
    ∙ ap (λ y. bit_at y k) (half_sub x k)
    ∙ bit_at-sub_self k (x / 2) (sym (bit_at-suc x k) ∙ h)

pub bit_at-sub_ne : (k j x : ℕ) → k ≢ j → bit_at x k ≡ 1 → bit_at (x - 2 ^ k) j ≡ bit_at x j
bit_at-sub_ne zero zero x ne h = absurd (ne refl)
bit_at-sub_ne zero (suc j) x ne h =
    let same : (x - 1) / 2 ≡ x / 2 = omega arith in
    bit_at-suc (x - 1) j ∙ ap (λ y. bit_at y j) same ∙ sym (bit_at-suc x j)
bit_at-sub_ne (suc k) zero x ne h =
    omega (arith, pow-succ' 2 k, bit_at-le k (x / 2) (sym (bit_at-suc x k) ∙ h))
bit_at-sub_ne (suc k) (suc j) x ne h =
    bit_at-suc (x - 2 ^ suc k) j
    ∙ ap (λ y. bit_at y j) (half_sub x k)
    ∙ bit_at-sub_ne k j (x / 2) (λ e. ne (ap suc e)) (sym (bit_at-suc x k) ∙ h)
    ∙ sym (bit_at-suc x j)
