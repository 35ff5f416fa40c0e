-- ===== src/Fs/Words.antt =====
-- Little-endian words in the bytes of a block: `n` bytes from an offset on.
use xv6_learn.Common.{
  ℕ, zero, suc, ◌+◌, ◌*◌, ◌/◌, ◌%◌, ◌≤◌, ◌<◌, ◌≡◌, ◌⊎◌, inl, refl, ◌∙◌, arith, update, update_self,
  update_ne,
}
use xv6_learn.Fs.{Bytes}

unfoldable pub get_le : (n j : ℕ) → Bytes → ℕ
get_le zero j f = 0
get_le (suc n) j f = f j + 256 * get_le n (j + 1) f

pub put_le : (n j w : ℕ) → Bytes → Bytes
put_le zero j w f = f
put_le (suc n) j w f = put_le n (j + 1) (w / 256) (update f j (w % 256))

-- How many values `n` bytes have.
abbrev pub values : ℕ → ℕ
values zero = 1
values (suc n) = 256 * values n

pub put_le-outside :
    (n j w : ℕ) (f : Bytes) (x : ℕ) → (x < j) ⊎ (j + n ≤ x) → put_le n j w f x ≡ f x
unfolding put_le
put_le-outside zero j w f x h = refl
put_le-outside (suc n) j w f x h =
    put_le-outside n (j + 1) (w / 256) (update f j (w % 256)) x (ground arith)
    ∙ update_ne f j (w % 256) x (ground arith)

pub get_le-put_le : (n j w : ℕ) (f : Bytes) → w < values n → get_le n j (put_le n j w f) ≡ w
unfolding get_le put_le
get_le-put_le zero j w f h = omega arith
get_le-put_le (suc n) j w f h =
    let g = update f j (w % 256) in
    omega (
      arith,
      put_le-outside n (j + 1) (w / 256) g j (inl (omega arith)),
      update_self f j (w % 256),
      get_le-put_le n (j + 1) (w / 256) g (omega arith),
    )

-- Words that do not overlap.
pub get_le-agree :
    (n j : ℕ) (f g : Bytes)
    → ((x : ℕ) → j ≤ x → x < j + n → f x ≡ g x)
    → get_le n j f ≡ get_le n j g
unfolding get_le
get_le-agree zero j f g h = refl
get_le-agree (suc n) j f g h = omega (
  arith,
  h j (omega arith) (omega arith),
  get_le-agree n (j + 1) f g (λ x p q. h x (omega arith) (omega arith)),
)

pub get_le-put_le_apart :
    (m k n j w : ℕ) (f : Bytes)
    → (k + m ≤ j) ⊎ (j + n ≤ k)
    → get_le m k (put_le n j w f) ≡ get_le m k f
get_le-put_le_apart m k n j w f h =
    get_le-agree m k (put_le n j w f) f (λ x p q. put_le-outside n j w f x (ground arith))
