-- ===== src/Bytes/Compare.antt =====
-- `memcmp`, `strncmp` and `strlen`.
use xv6_learn.Common.{
  ℕ, zero, suc, ◌+◌, ◌≤◌, ◌<◌, ◌≡◌, ◌≢◌, ◌⊎◌, ◌↔◌, refl, ap, sym, ◌∙◌, Option, none, some, arith,
  ◌==◌, inl, inr, Bool-cases,
}
use xv6_learn.Bytes.{Memory, memcmp, strncmp, strlen_loop, strlen}

abbrev pub AllBytes : Memory → Type 0
AllBytes m = (x : ℕ) → m x < 256

-- The two ranges have the same bytes.
abbrev pub Agree : (p q n : ℕ) → Memory → Type 0
Agree p q zero m = Unit
Agree p q (suc n) m = (m p ≡ m q) × Agree (p + 1) (q + 1) n m

-- Of bytes, `memcmp` returns 0 exactly when the `n` bytes at the two addresses are the same.
pub memcmp-Agree :
    (v1 v2 n : ℕ) (m : Memory) → AllBytes m → (memcmp v1 v2 n m ≡ 0) ↔ Agree v1 v2 n m
unfolding memcmp
memcmp-Agree v1 v2 zero m b = (λ _. tt, λ _. refl)
memcmp-Agree v1 v2 (suc n) m b = ground (arith, memcmp-Agree (v1 + 1) (v2 + 1) n m b, b v1, b v2)

-- The same bytes up to the first NUL, or for `n` bytes.
abbrev pub SameString : (p q n : ℕ) → Memory → Type 0
SameString p q zero m = Unit
SameString p q (suc n) m = (m p ≡ m q) × ((m p ≡ 0) ⊎ SameString (p + 1) (q + 1) n m)

-- Of bytes, `strncmp` returns 0 exactly when the strings are the same up to the first NUL, or in
-- their first `n` bytes.
pub strncmp-SameString :
    (p q n : ℕ) (m : Memory) → AllBytes m → (strncmp p q n m ≡ 0) ↔ SameString p q n m
unfolding strncmp
strncmp-SameString p q zero m b = (λ _. tt, λ _. refl)
strncmp-SameString p q (suc n) m b =
    ground (arith, strncmp-SameString (p + 1) (q + 1) n m b, b p, b q)

strlen_loop-first :
    (fuel s n k : ℕ) (m : Memory)
    → n ≤ k
    → k < n + fuel
    → m (s + k) ≡ 0
    → ((j : ℕ) → j < k → m (s + j) ≢ 0)
    → strlen_loop fuel s n m ≡ some k
unfolding strlen_loop
strlen_loop-first zero s n k m low fuel h before = absurd (omega arith)
strlen_loop-first (suc f) s n k m low fuel h before = elim (Bool-cases (n == k)) [
  | inl this ↦ let e : m (s + n) ≡ 0 = ap (λ q. m (s + q)) (ground arith) ∙ h in ground arith
  | inr other ↦ ground (
    arith,
    before n (ground arith),
    strlen_loop-first f s (n + 1) k m (ground arith) (omega arith) h before,
  )
]

-- `strlen` returns the index of the first NUL, as soon as the fuel goes past it.
pub strlen-first :
    (fuel s k : ℕ) (m : Memory)
    → m (s + k) ≡ 0
    → ((j : ℕ) → j < k → m (s + j) ≢ 0)
    → k < fuel
    → strlen fuel s m ≡ some k
unfolding strlen
strlen-first fuel s k m h before enough =
    strlen_loop-first fuel s 0 k m (omega arith) (omega arith) h before

-- Where a NUL stands within the fuel, `strlen` finds the first.
abbrev pub Finds : (s k : ℕ) → Memory → Option ℕ → Type 0
Finds s k m none = ⊥
Finds s k m (some n) = (n ≤ k) × (m (s + n) ≡ 0) × ((j : ℕ) → j < n → m (s + j) ≢ 0)

strlen_loop-Finds :
    (fuel s n k : ℕ) (m : Memory)
    → n ≤ k
    → k < n + fuel
    → m (s + k) ≡ 0
    → ((j : ℕ) → j < n → m (s + j) ≢ 0)
    → Finds s k m (strlen_loop fuel s n m)
unfolding strlen_loop
strlen_loop-Finds zero s n k m low fuel h before = absurd (omega arith)
strlen_loop-Finds (suc f) s n k m low fuel h before = elim (Bool-cases (m (s + n) == 0)) [
  | inl here ↦ rw (strlen_loop, here) (low, ground arith, before)
  | inr not_here ↦
      (let differ : n ≢ k = λ e. ground (arith, ap (λ q. m (s + q)) e, h, not_here) in
        let nonzero : m (s + n) ≢ 0 = ground arith in
        rw (strlen_loop, not_here)
          (strlen_loop-Finds f s (n + 1) k m (ground arith) (omega arith) h (λ j l z.
            elim (Bool-cases (j == n)) [
              | inl this ↦
                  (let e : j ≡ n = ground arith in nonzero (ap (λ q. m (s + q)) (sym e) ∙ z))
              | inr other ↦ before j (ground arith) z
            ])))
]

pub strlen-Finds :
    (fuel s k : ℕ) (m : Memory) → k < fuel → m (s + k) ≡ 0 → Finds s k m (strlen fuel s m)
unfolding strlen
strlen-Finds fuel s k m h z =
    strlen_loop-Finds fuel s 0 k m (omega arith) (omega arith) z (λ j l. absurd (omega arith))
