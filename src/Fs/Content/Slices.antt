-- ===== src/Fs/Content/Slices.antt =====
-- Bytes that are read from an object and written to it.
use xv6_learn.Common.{
  ℕ, zero, suc, ◌+◌, ◌≤◌, ◌<◌, ◌≡◌, ◌⊎◌, refl, ap, ◌∙◌, arith, true, false, List, [], ◌∷◌, ◌==◌,
  if◌then◌else◌, get_or, length,
}
use xv6_learn.Fs.{Bytes}
use xv6_learn.Fs.Content.{slice, put_slice}

pub put_slice-outside :
    (off : ℕ) (cs : List ℕ) (f : Bytes) (x : ℕ)
    → (x < off) ⊎ (off + length cs ≤ x)
    → put_slice off cs f x ≡ f x
put_slice-outside off [] f x h = refl
put_slice-outside off (c ∷ cs) f x h =
    let apart : (x == off) ≡ false = ground arith in
    put_slice-outside (off + 1) cs (λ y. if y == off then c else f y) x (ground arith)
    ∙ rw apart refl

pub put_slice-inside :
    (off : ℕ) (cs : List ℕ) (f : Bytes) (k : ℕ)
    → k < length cs
    → put_slice off cs f (off + k) ≡ get_or cs k 0
put_slice-inside off [] f k h = absurd (omega arith)
put_slice-inside off (c ∷ cs) f zero h =
    let here : (off == off) ≡ true = ground arith in
    let e : off + 0 ≡ off = omega arith in
    rw e (
      put_slice-outside (off + 1) cs (λ y. if y == off then c else f y) off (ground arith)
      ∙ rw here refl)
put_slice-inside off (c ∷ cs) f (suc k) h =
    let e : off + suc k ≡ off + 1 + k = omega arith in
    rw e (put_slice-inside (off + 1) cs (λ y. if y == off then c else f y) k (omega arith))

pub length-slice : (off n : ℕ) (f : Bytes) → length (slice off n f) ≡ n
length-slice off zero f = refl
length-slice off (suc n) f = ap suc (length-slice (off + 1) n f)

pub get_or-slice :
    (off n : ℕ) (f : Bytes) (k : ℕ) → k < n → get_or (slice off n f) k 0 ≡ f (off + k)
get_or-slice off zero f k h = absurd (omega arith)
get_or-slice off (suc n) f zero h = let e : off + 0 ≡ off = omega arith in rw e refl
get_or-slice off (suc n) f (suc k) h =
    let e : off + suc k ≡ off + 1 + k = omega arith in
    rw e (get_or-slice (off + 1) n f k (omega arith))
