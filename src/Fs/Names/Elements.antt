-- ===== src/Fs/Names/Elements.antt =====
-- What `skipelem` cuts off a path.
use xv6_learn.Common.{
  ℕ, zero, suc, ◌+◌, ◌≤◌, ◌<◌, ◌≡◌, ◌≢◌, ◌⊎◌, inl, inr, refl, ap, sym, ◌∙◌, arith, Bool, true,
  false, Option, none, some, List, [], ◌∷◌, ◌++◌, append-nil, ◌==◌, ltb, get_or, length, take,
  Bool-cases,
}
use mathlib.Core.Path.{subst}
use xv6_learn.Bytes.{Memory}
use xv6_learn.Fs.Content.{put_slice}
use xv6_learn.Fs.Content.Slices.{put_slice-outside, put_slice-inside}
use xv6_learn.Fs.Names.{dirsiz, skip_slashes, element, after_element, put_name, skipelem}

pub data Slashes : List ℕ → Type 0 where
  no_slash : Slashes []
  slash : {path : List ℕ} → Slashes path → Slashes (47 ∷ path)

pub data Plain : List ℕ → Type 0 where
  no_byte : Plain []
  plain : {x : ℕ} {path : List ℕ} → x ≢ 47 → Plain path → Plain (x ∷ path)

-- A path that ends, or whose next byte is no slash; and one that ends, or whose next byte is one.
abbrev pub Starts : (Bool → Type 0) → List ℕ → Type 0
Starts P [] = Unit {0}
Starts P (x ∷ path) = P (x == 47)

skip_slashes-splits :
    (path : List ℕ)
    → (ss : List ℕ) × Slashes ss
      × (path ≡ ss ++ skip_slashes path)
      × Starts (λ b. b ≡ false) (skip_slashes path)
unfolding skip_slashes
skip_slashes-splits [] = ([], no_slash, refl, tt)
skip_slashes-splits (x ∷ path) = elim (Bool-cases (x == 47)) [
  | inr other ↦ rw other ([], no_slash, refl, other)
  | inl here ↦
      (let (ss, s, e, p) = skip_slashes-splits path in
        let x_slash : x ≡ 47 = ground arith in rw (here) (47 ∷ ss, slash s, cc (x_slash, e), p))
]

element-splits :
    (path : List ℕ)
    → Plain (element path)
      × (path ≡ element path ++ after_element path)
      × Starts (λ b. b ≡ true) (after_element path)
unfolding element after_element
element-splits [] = (no_byte, refl, tt)
element-splits (x ∷ path) = elim (Bool-cases (x == 47)) [
  | inl here ↦ rw here (no_byte, refl, here)
  | inr other ↦
      (let (s, e, p) = element-splits path in
        rw other (plain (ground arith) s, ap (λ path'. x ∷ path') e, p))
]

get_or-take : (n : ℕ) (s : List ℕ) (k : ℕ) → k < n → get_or (take n s) k 0 ≡ get_or s k 0
get_or-take zero s k h = absurd (omega arith)
get_or-take (suc n) [] k h = refl
get_or-take (suc n) (x ∷ s) zero h = refl
get_or-take (suc n) (x ∷ s) (suc k) h = get_or-take n s k (omega arith)

length-take : (n : ℕ) (s : List ℕ) → n ≤ length s → length (take n s) ≡ n
length-take zero s h = refl
length-take (suc n) [] h = absurd (omega arith)
length-take (suc n) (x ∷ s) h = ap suc (length-take n s (omega arith))

-- The buffer `name` holds the string `s`, cut to `DIRSIZ` bytes and else ended by a NUL; no other
-- byte is another than in `m`.
abbrev pub Holds : (name : ℕ) → List ℕ → (m m' : Memory) → Type 0
Holds name s m m' =
    ((k : ℕ) → k < length s → k < dirsiz → m' (name + k) ≡ get_or s k 0)
    × (length s < dirsiz → m' (name + length s) ≡ 0)
    × ((x : ℕ) → (x < name) ⊎ (name + dirsiz ≤ x) → m' x ≡ m x)

put_name-Holds : (name : ℕ) (s : List ℕ) (m : Memory) → Holds name s m (put_name name s m)
put_name-Holds name s m = elim (Bool-cases (ltb (length s) dirsiz)) [
  | inl short ↦
      (let in_bounds : length s < dirsiz = ground arith in
        let m1 = put_slice name s m in
        let e0 : name + length s ≡ name + length s + 0 = omega arith in
        rw short (
          λ k p q.
              put_slice-outside (name + length s) (0 ∷ []) m1 (name + k) (inl (omega arith))
              ∙ put_slice-inside name s m k p,
          λ q.
              ap (put_slice (name + length s) (0 ∷ []) m1) e0
              ∙ put_slice-inside (name + length s) (0 ∷ []) m1 0 (omega arith),
          λ x h.
              put_slice-outside (name + length s) (0 ∷ []) m1 x (ground arith)
              ∙ put_slice-outside name s m x (ground arith),
        ))
  | inr long ↦
      (let size : length (take dirsiz s) ≡ dirsiz = length-take dirsiz s (ground arith) in
        rw long (
          λ k p q.
              put_slice-inside name (take dirsiz s) m k (omega (arith, size))
              ∙ get_or-take dirsiz s k q,
          λ q. absurd (ground arith),
          λ x h. put_slice-outside name (take dirsiz s) m x (ground (arith, size)),
        ))
]

-- What `skipelem` comes to.
abbrev pub Cut : List ℕ → (name : ℕ) → Memory → Option (List ℕ × Memory) → Type 0
Cut path name m none = Slashes path
Cut path name m (some (rest, m')) =
    (ss : List ℕ) × (s : List ℕ) × (ts : List ℕ) × (path ≡ ss ++ (s ++ (ts ++ rest)))
    × (Slashes ss × Plain s × Slashes ts)
    × (s ≢ [])
    × (ts ≡ [] → rest ≡ [])
    × Starts (λ b. b ≡ false) rest
    × Holds name s m m'

Starts-clash :
    (rest : List ℕ) → Starts (λ b. b ≡ true) rest → Starts (λ b. b ≡ false) rest → rest ≡ []
Starts-clash [] p q = refl
Starts-clash (x ∷ rest) p q = absurd (cc)

element_nonempty : (s : List ℕ) → s ≢ [] → Starts (λ b. b ≡ false) s → element s ≢ []
unfolding element
element_nonempty [] h p = absurd (h refl)
element_nonempty (x ∷ s) h p = λ e. cc (rw p at e)

first_element-Cut :
    (path : List ℕ) (name : ℕ) (m : Memory) (ss s : List ℕ)
    → Slashes ss
    → path ≡ ss ++ s
    → s ≢ []
    → Starts (λ b. b ≡ false) s
    → Cut path name m (some (skip_slashes (after_element s), put_name name (element s) m))
first_element-Cut path name m ss s h e ne p =
    let (whole, cut, follows) = element-splits s in
    let (ts, k, f, q) = skip_slashes-splits (after_element s) in
    (
      ss,
      element s,
      ts,
      e ∙ ap (λ t. ss ++ t) (cut ∙ ap (λ t. element s ++ t) f),
      (h, whole, k),
      element_nonempty s ne p,
      λ z.
          Starts-clash (skip_slashes (after_element s))
            (subst (Starts (λ b. b ≡ true)) (f ∙ ap (λ t. t ++ skip_slashes (after_element s)) z)
              follows)
            q,
      q,
      put_name-Holds name (element s) m,
    )

-- `skipelem` cuts the first element off a path: what it skips are slashes, the element has no slash
-- and is not empty, the slashes after it are skipped too, what it returns is the rest and starts
-- with no slash, and the buffer holds the element, cut to its 14 bytes and else ended by a NUL. It
-- returns 0 only for a path of slashes.
pub skipelem-Cut : (path : List ℕ) (name : ℕ) (m : Memory) → Cut path name m (skipelem path name m)
unfolding skipelem
skipelem-Cut path name m =
    let (ss, h, e, p) = skip_slashes-splits path in go ss h (skip_slashes path) refl e p
  where
    go :
        (ss : List ℕ)
        → Slashes ss
        → (s : List ℕ) → skip_slashes path ≡ s
        → path ≡ ss ++ skip_slashes path
        → Starts (λ b. b ≡ false) (skip_slashes path)
        → Cut path name m (skipelem path name m)
    go ss h [] f e p = rw (f, Cut) (subst Slashes (sym (e ∙ ap (λ t. ss ++ t) f ∙ append-nil ss)) h)
    go ss h (x ∷ s) f e p =
        rw (f, Cut)
          (first_element-Cut path name m ss (x ∷ s) h (e ∙ ap (λ t. ss ++ t) f) (cc)
            (subst (Starts (λ b. b ≡ false)) f p))
