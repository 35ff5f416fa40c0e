-- ===== src/Bytes/Copy.antt =====
-- `safestrcpy`.
use xv6_learn.Common.{
  ℕ, zero, suc, ◌+◌, ◌-◌, ◌≤◌, ◌<◌, ◌≡◌, ◌≢◌, ◌⊎◌, ◌∙◌, false, arith, ◌==◌, update, inl, inr,
  Bool-cases,
}
use xv6_learn.Bytes.{Memory, safe_loop, safestrcpy}
use xv6_learn.Bytes.Move.{within}

-- The ranges do not overlap.
abbrev pub Apart : (s t n : ℕ) → Type 0
Apart s t n = (s + n ≤ t) ⊎ (t + n ≤ s)

-- What a copy of a string into `n` bytes leaves.
pub record Copied (s t n : ℕ) (m m' : Memory) : Type 0 where
  pub size : ℕ
  pub fits : size < n
  pub nul : m' (s + size) ≡ 0
  pub copied : (i : ℕ) → i < size → (m' (s + i) ≡ m (t + i)) × (m (t + i) ≢ 0)
  pub ended : (size + 1 ≡ n) ⊎ (m (t + size) ≡ 0)
  pub kept : (x : ℕ) → within s n x ≡ false → m' x ≡ m x

-- One character more, before the others.
copy_first :
    (s t k : ℕ) (m m' : Memory)
    → Apart s t (suc k + 1)
    → m t ≢ 0
    → Copied (s + 1) (t + 1) (k + 1) (update m s (m t)) m'
    → Copied s t (suc k + 1) m m'
copy_first s t k m m' apart more r = record {
  size = r.size + 1;
  fits = omega (arith, r.fits);
  nul = let e : s + (r.size + 1) ≡ s + 1 + r.size = omega arith in rw e r.nul;
  copied = copied;
  ended = ended r.ended;
  kept = λ x o. r.kept x (ground arith) ∙ ground arith;
}
  where
    copied : (i : ℕ) → i < r.size + 1 → (m' (s + i) ≡ m (t + i)) × (m (t + i) ≢ 0)
    copied zero l =
        let es : s + 0 ≡ s = omega arith in
        let et : t + 0 ≡ t = omega arith in
        rw (es, et) (r.kept s (ground arith) ∙ ground arith, more)
    copied (suc i) l =
        let (e, ne) = r.copied i (omega arith) in
        let es : s + suc i ≡ s + 1 + i = omega arith in
        let et : t + suc i ≡ t + 1 + i = omega arith in
        let f = r.fits in
        let same : update m s (m t) (t + 1 + i) ≡ m (t + 1 + i) = ground arith in
        rw (es, et) (e ∙ same, λ z. ne (same ∙ z))

    ended :
        (r.size + 1 ≡ k + 1) ⊎ (update m s (m t) (t + 1 + r.size) ≡ 0)
        → (r.size + 1 + 1 ≡ suc k + 1) ⊎ (m (t + (r.size + 1)) ≡ 0)
    ended (inl e) = inl (omega arith)
    ended (inr z) =
        let f = r.fits in
        let et : t + (r.size + 1) ≡ t + 1 + r.size = omega arith in
        let same : m (t + 1 + r.size) ≡ update m s (m t) (t + 1 + r.size) = ground arith in
        inr (rw et (same ∙ z))

safe_loop-Copied :
    (s t k : ℕ) (m : Memory) → Apart s t (k + 1) → Copied s t (k + 1) m (safe_loop s t k m)
unfolding safe_loop
safe_loop-Copied s t zero m apart = record {
  size = 0;
  fits = omega arith;
  nul = ground arith;
  copied = λ i l. absurd (omega arith);
  ended = inl (omega arith);
  kept = λ x o. ground arith;
}
safe_loop-Copied s t (suc k) m apart = elim (Bool-cases (m t == 0)) [
  | inl last ↦ rw last (record {
    size = 0;
    fits = omega arith;
    nul = ground arith;
    copied = λ i l. absurd (omega arith);
    ended = inr (ground arith);
    kept = λ x o. ground arith;
  })
  | inr more ↦ rw more (
      copy_first s t k m (safe_loop (s + 1) (t + 1) k (update m s (m t))) apart (ground arith)
        (safe_loop-Copied (s + 1) (t + 1) k (update m s (m t)) (ground arith)))
]

-- `safestrcpy` into `n` bytes, `n` not 0, that do not overlap with the `n` bytes from `t` on leaves
-- a string that ends with a NUL inside these bytes: the characters at `t` up to the NUL there, or
-- the first `n - 1`. It changes no other byte.
pub safestrcpy-Copied :
    (s t n : ℕ) (m : Memory) → 0 < n → Apart s t n → Copied s t n m (safestrcpy s t n m)
unfolding safestrcpy
safestrcpy-Copied s t zero m p apart = absurd (omega arith)
safestrcpy-Copied s t (suc k) m p apart =
    let e : suc k - 1 ≡ k = omega arith in
    let f : suc k ≡ k + 1 = omega arith in
    let some_left : (k + 1 == 0) ≡ false = ground arith in
    rw (e, f, some_left) (safe_loop-Copied s t k m (rw (← f) apart))
