-- ===== src/Descriptors/Table.antt =====
-- The descriptors of a process: which files they hold, and what `fdalloc` does to them.
use xv6_learn.Common.{
  ℕ, zero, suc, ◌+◌, ◌%◌, ◌^◌, ◌<◌, ◌≡◌, ◌≢◌, refl, ap, ◌∙◌, ◌||◌, Option, none, some, [], ◌∷◌,
  arith, ◌⊎◌, leb, get_elem?, set, inl, inr, Bool-cases, Option-cases,
}
use xv6_learn.Files.Steps.{one}
use xv6_learn.Descriptors.{
  nofile, Args, argraw, argint, Ofile, file_at, missing, found, argfd, find_null, fdalloc,
}

-- How many descriptors hold file `j`.
abbrev pub holds : Option ℕ → ℕ → ℕ
holds none j = 0
holds (some f) j = one f j

abbrev pub held : Ofile → ℕ → ℕ
held [] j = 0
held (o ∷ t) j = held t j + holds o j

pub held-set :
    (t : Ofile) (fd : ℕ) (o p : Option ℕ)
    → get_elem? t fd ≡ some o
    → (j : ℕ) → held (set t fd p) j + holds o j ≡ held t j + holds p j
held-set [] fd o p h j = cc
held-set (x ∷ t) zero o p h j =
    let e : x ≡ o = ground arith in
    let f : holds x j ≡ holds o j = ap (λ y. holds y j) e in omega (arith, f)
held-set (x ∷ t) (suc fd) o p h j = omega (arith, held-set t fd o p h j)

-- The lowest descriptor that is free.
abbrev pub Lowest : Ofile → ℕ → Type 0
Lowest t fd = (get_elem? t fd ≡ some none) × ((k : ℕ) → k < fd → get_elem? t k ≢ some none)

find_null-cases :
    (f fd : ℕ) (t : Ofile)
    → (find_null f fd t ≡ none)
      ⊎ ((k : ℕ) × (find_null f fd t ≡ some (fd + k, set t k (some f))) × Lowest t k)
unfolding find_null
find_null-cases f fd [] = inl refl
find_null-cases f fd (none ∷ t) =
    let e : fd ≡ fd + 0 = omega arith in
    inr (0, ap (λ n. some (n, some f ∷ t)) e, (refl, λ k h. absurd (omega arith)))
find_null-cases f fd (some g ∷ t) = elim (find_null-cases f (fd + 1) t) [
  | inl full ↦ inl (rw (find_null, full) refl)
  | inr (k, made, (at, low)) ↦
      (let e : fd + 1 + k ≡ fd + suc k = omega arith in
        inr (suc k, rw (find_null, made, e) refl, (at, lower g t k low)))
]
  where
    lower :
        (g : ℕ) (t : Ofile) (k : ℕ)
        → ((i : ℕ) → i < k → get_elem? t i ≢ some none)
        → (i : ℕ) → i < suc k
        → get_elem? (some g ∷ t) i ≢ some none
    lower g t k low zero h e = cc
    lower g t k low (suc i) h e = low i (omega arith) e

pub fdalloc-cases :
    (f : ℕ) (t : Ofile)
    → (fdalloc f t ≡ none) ⊎ ((fd : ℕ) × (fdalloc f t ≡ some (fd, set t fd (some f))) × Lowest t fd)
unfolding fdalloc
fdalloc-cases f t = elim (find_null-cases f 0 t) [
  | inl full ↦ inl full
  | inr (k, made, low) ↦
      (let e : 0 + k ≡ k = omega arith in
        inr (k, made ∙ ap (λ n. some (n, set t k (some f))) e, low))
]

-- A descriptor that was taken is given back.
pub set-undone :
    (t : Ofile) (fd : ℕ) (o : Option ℕ) → get_elem? t fd ≡ some none → set (set t fd o) fd none ≡ t
set-undone [] fd o h = refl
set-undone (x ∷ t) zero o h = let e : x ≡ none = ground arith in rw e refl
set-undone (x ∷ t) (suc fd) o h = ap (λ u. x ∷ u) (set-undone t fd o h)

pub both_undone :
    (t : Ofile) (a b i j : ℕ)
    → get_elem? t a ≡ some none
    → get_elem? (set t a (some i)) b ≡ some none
    → set (set (set (set t a (some i)) b (some j)) a none) b none ≡ t
both_undone [] a b i j h g = refl
both_undone (x ∷ t) zero zero i j h g = cc
both_undone (x ∷ t) zero (suc b) i j h g =
    let e : x ≡ none = ground arith in rw (e, set-undone t b (some j) g) refl
both_undone (x ∷ t) (suc a) zero i j h g =
    let e : x ≡ none = ground arith in rw (e, set-undone t a (some i) h) refl
both_undone (x ∷ t) (suc a) (suc b) i j h g = ap (λ u. x ∷ u) (both_undone t a b i j h g)

pub argfd-cases :
    (a : Args) (t : Ofile)
    → (argfd 0 a t ≡ missing)
      ⊎ ((fd f : ℕ) × (argfd 0 a t ≡ found fd f) × (get_elem? t fd ≡ some (some f)))
unfolding argfd argint argraw file_at
argfd-cases a t =
    let fd = a.a0 % 2 ^ 32 in
    elim (Bool-cases (leb (2 ^ 31) fd || leb nofile fd)) [
      | inl out ↦ inl (rw (argfd, out) refl)
      | inr inside ↦ elim (Option-cases (get_elem? t fd)) [
        | inl past ↦ inl (rw (argfd, inside, past) refl)
        | inr (none, at) ↦ inl (rw (argfd, inside, at) refl)
        | inr (some f, at) ↦ inr (fd, f, rw (argfd, inside, at) refl, at)
      ]
    ]
