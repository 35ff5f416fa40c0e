-- ===== src/Descriptors/Scarce.antt =====
-- When `filealloc` and `fdalloc` find nothing for the two ends of a pipe.
use xv6_learn.Common.{
  ℕ, zero, suc, ◌+◌, ◌≡◌, ◌≢◌, refl, ap, sym, ◌∙◌, none, some, List, [], ◌∷◌, arith, ◌==◌,
  get_elem?, set, get_elem?-set_ne, of_some, inl, inr, Bool-cases, Option-cases,
}
use xv6_learn.Files.{File, find_free, filealloc}
use xv6_learn.Descriptors.{Ofile, find_null, fdalloc}

-- Fewer than two files of the table are free, and fewer than two descriptors of the process.
abbrev pub FewFiles : List File → Type 0
FewFiles fs = (i : ℕ) × ((k : ℕ) (f : File) → get_elem? fs k ≡ some f → f.ref ≡ 0 → k ≡ i)

abbrev pub FewDescriptors : Ofile → Type 0
FewDescriptors t = (i : ℕ) × ((k : ℕ) → get_elem? t k ≡ some none → k ≡ i)

find_free-full :
    (i : ℕ) (fs : List File)
    → find_free i fs ≡ none
    → (k : ℕ) (f : File) → get_elem? fs k ≡ some f
    → f.ref ≢ 0
find_free-full i [] e k f at = cc
find_free-full i (g ∷ fs) e zero f at = elim (Bool-cases (g.ref == 0)) [
  | inl idle ↦ absurd (ground arith)
  | inr busy ↦ let same : g ≡ f = of_some at in λ z. ground (arith, same)
]
find_free-full i (g ∷ fs) e (suc k) f at = elim (Bool-cases (g.ref == 0)) [
  | inl idle ↦ absurd (ground arith)
  | inr busy ↦ find_free-full (i + 1) fs (ground arith) k f at
]

filealloc-full :
    (fs : List File)
    → filealloc fs ≡ (none, fs)
    → (k : ℕ) (f : File) → get_elem? fs k ≡ some f
    → f.ref ≢ 0
unfolding filealloc
filealloc-full fs e = elim (Option-cases (find_free 0 fs)) [
  | inl full ↦ find_free-full 0 fs full
  | inr ((i, f), free) ↦
      (let found : (filealloc fs).0 ≡ some i = rw (filealloc, free) refl in
        let missing : (filealloc fs).0 ≡ none = ap (λ p. p.0) e in absurd cc)
]

filealloc-apart :
    (fs gs : List File) (i k : ℕ) (f : File)
    → filealloc fs ≡ (some i, gs)
    → k ≢ i
    → get_elem? fs k ≡ some f
    → get_elem? gs k ≡ some f
unfolding filealloc
filealloc-apart fs gs i k f e ne at = elim (Option-cases (find_free 0 fs)) [
  | inl full ↦
      (let missing : (filealloc fs).0 ≡ none = rw (filealloc, full) refl in
        let found : (filealloc fs).0 ≡ some i = ap (λ p. p.0) e in absurd cc)
  | inr ((j, g), free) ↦
      (let made : filealloc fs ≡ (some j, set fs j (record g { ref = 1 })) =
          rw (filealloc, free) refl in
        let same : some j ≡ some i = ap (λ p. p.0) (sym made ∙ e) in
        let table : gs ≡ set fs j (record g { ref = 1 }) = ap (λ p. p.1) (sym e ∙ made) in
        ap (λ hs. get_elem? hs k) table
        ∙ get_elem?-set_ne fs (record g { ref = 1 }) (λ h. ground (arith, h, of_some same))
        ∙ at)
]

-- One file at most is free where the first or the second is not found.
pub first-FewFiles : (fs : List File) → filealloc fs ≡ (none, fs) → FewFiles fs
first-FewFiles fs e = (0, λ k f at z. absurd (filealloc-full fs e k f at z))

pub second-FewFiles :
    (fs gs : List File) (i : ℕ)
    → filealloc fs ≡ (some i, gs)
    → filealloc gs ≡ (none, gs)
    → FewFiles fs
second-FewFiles fs gs i e full = (
  i,
  λ k f at z. elim (Bool-cases (k == i)) [
    | inl this ↦ ground arith
    | inr other ↦
        absurd (filealloc-full gs full k f (filealloc-apart fs gs i k f e (ground arith) at) z)
  ],
)

find_null-full :
    (f fd : ℕ) (t : Ofile) → find_null f fd t ≡ none → (k : ℕ) → get_elem? t k ≢ some none
unfolding find_null
find_null-full f fd [] e k = λ h. cc
find_null-full f fd (none ∷ t) e k = cc
find_null-full f fd (some g ∷ t) e zero = λ h. cc
find_null-full f fd (some g ∷ t) e (suc k) = elim (Option-cases (find_null f (fd + 1) t)) [
  | inl full ↦ find_null-full f (fd + 1) t full k
  | inr ((n, u), made) ↦ absurd (ground (arith, made))
]

fdalloc-full : (f : ℕ) (t : Ofile) → fdalloc f t ≡ none → (k : ℕ) → get_elem? t k ≢ some none
unfolding fdalloc
fdalloc-full f t = find_null-full f 0 t

pub first-FewDescriptors : (f : ℕ) (t : Ofile) → fdalloc f t ≡ none → FewDescriptors t
first-FewDescriptors f t e = (0, λ k at. absurd (fdalloc-full f t e k at))

pub second-FewDescriptors :
    (f g fd : ℕ) (t : Ofile) → fdalloc g (set t fd (some f)) ≡ none → FewDescriptors t
second-FewDescriptors f g fd t e = (
  fd,
  λ k at. elim (Bool-cases (k == fd)) [
    | inl this ↦ ground arith
    | inr other ↦ absurd (
        fdalloc-full g (set t fd (some f)) e k
          (get_elem?-set_ne t (some f) (λ h. ground (arith, h)) ∙ at))
  ],
)
