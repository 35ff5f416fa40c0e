-- ===== src/Console/Window.antt =====
-- The bytes that the console's buffer holds between two of its indices.
use xv6_learn.Common.{
  ℕ, zero, suc, ◌+◌, ◌%◌, ◌^◌, ◌<◌, ◌≡◌, ◌≢◌, refl, ap, ap₂, ◌∙◌, arith, List, [], ◌∷◌, ◌++◌,
  length, get_or, set, get_or-set_ne,
}
use xv6_learn.Console.{input_buf, wrap}

-- The `n` bytes from index `r` on.
abbrev pub window : List ℕ → ℕ → ℕ → List ℕ
window buf r zero = []
window buf r (suc n) = get_or buf (r % input_buf) 0 ∷ window buf (wrap (r + 1)) n

pub length-window : (buf : List ℕ) (r n : ℕ) → length (window buf r n) ≡ n
length-window buf r zero = refl
length-window buf r (suc n) = ap suc (length-window buf (wrap (r + 1)) n)

pub window-append :
    (buf : List ℕ) (r a b s : ℕ)
    → r < 2 ^ 32
    → s ≡ wrap (r + a)
    → window buf r (a + b) ≡ window buf r a ++ window buf s b
window-append buf r zero b s h e =
    let e0 : s ≡ r = omega arith in let e1 : 0 + b ≡ b = omega arith in rw (e0, e1) refl
window-append buf r (suc a) b s h e =
    let e1 : suc a + b ≡ suc (a + b) = omega arith in
    rw e1 (
      ap (λ l. get_or buf (r % input_buf) 0 ∷ l)
        (window-append buf (wrap (r + 1)) a b s (omega arith) (omega arith)))

pub window-suc :
    (buf : List ℕ) (r n : ℕ)
    → r < 2 ^ 32
    → window buf r (suc n) ≡ window buf r n ++ (get_or buf (wrap (r + n) % input_buf) 0 ∷ [])
window-suc buf r n h =
    let e : suc n ≡ n + 1 = omega arith in
    ap (window buf r) e ∙ window-append buf r n 1 (wrap (r + n)) h refl

-- A write elsewhere is not seen.
pub window-set_apart :
    (buf : List ℕ) (i x r n : ℕ)
    → ((k : ℕ) → k < n → i ≢ wrap (r + k) % input_buf)
    → r < 2 ^ 32
    → window (set buf i x) r n ≡ window buf r n
window-set_apart buf i x r zero h p = refl
window-set_apart buf i x r (suc n) h p =
    ap₂ ◌∷◌ (get_or-set_ne buf x 0 (λ e. h 0 (omega arith) (omega (arith, e)))) (
      window-set_apart buf i x (wrap (r + 1)) n
        (λ k q e. h (suc k) (omega arith) (omega (arith, e))) (omega arith))
