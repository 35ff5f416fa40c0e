-- ===== src/Log/Reserve/Budget.antt =====
-- Budgets of the calls in progress: their number, their sum, and that none exceeds a bound.
use xv6_learn.Common.{
  ℕ, zero, suc, ◌+◌, ◌*◌, ◌≤◌, ◌≡◌, some, List, [], ◌∷◌, arith, get_elem?, set, length,
}
use xv6_learn.Log.{maxopblocks}
use xv6_learn.Log.Reserve.{spend, remove}

abbrev pub sum : List ℕ → ℕ
sum [] = 0
sum (x ∷ xs) = x + sum xs

abbrev pub AllSmall : (cap : ℕ) → List ℕ → Type 0
AllSmall cap [] = Unit
AllSmall cap (x ∷ xs) = (x ≤ cap) × AllSmall cap xs

pub sum-le :
    (cap : ℕ) (xs : List ℕ) → cap ≤ maxopblocks → AllSmall cap xs → sum xs ≤ length xs * maxopblocks
sum-le cap [] c h = omega arith
sum-le cap (x ∷ xs) c h = omega (arith, sum-le cap xs c h.1)

-- Spending one block of call `i`.
pub sum-set :
    (cap : ℕ) (xs : List ℕ) (i m : ℕ)
    → spend (get_elem? xs i) ≡ some m
    → AllSmall cap xs
    → (sum (set xs i m) + 1 ≡ sum xs) × AllSmall cap (set xs i m)
sum-set cap [] i m h a = cc
sum-set cap (zero ∷ xs) zero m h a = cc
sum-set cap (suc x ∷ xs) zero m h a = ground arith
sum-set cap (x ∷ xs) (suc i) m h a = let r = sum-set cap xs i m h a.1 in (omega arith, (a.0, r.1))

-- Spending nothing.
pub sum-set_same :
    (cap : ℕ) (xs : List ℕ) (i m : ℕ)
    → get_elem? xs i ≡ some m
    → AllSmall cap xs
    → (sum (set xs i m) ≡ sum xs) × AllSmall cap (set xs i m)
sum-set_same cap [] i m h a = cc
sum-set_same cap (x ∷ xs) zero m h a = ground arith
sum-set_same cap (x ∷ xs) (suc i) m h a =
    let r = sum-set_same cap xs i m h a.1 in (omega arith, (a.0, r.1))

-- The end of call `i`.
pub sum-remove :
    (cap : ℕ) (xs : List ℕ) (i m : ℕ)
    → get_elem? xs i ≡ some m
    → AllSmall cap xs
    → (sum (remove xs i) ≤ sum xs)
      × (length (remove xs i) + 1 ≡ length xs)
      × AllSmall cap (remove xs i)
sum-remove cap [] i m h a = cc
sum-remove cap (x ∷ xs) zero m h a = (omega arith, omega arith, a.1)
sum-remove cap (x ∷ xs) (suc i) m h a =
    let r = sum-remove cap xs i m h a.1 in (omega arith, omega arith, (a.0, r.2))
