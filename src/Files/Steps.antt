-- ===== src/Files/Steps.antt =====
-- What a call of `filealloc`, `filedup` and `fileclose` does to the reference counts.
use xv6_learn.Common.{
  ℕ, ◌+◌, ◌-◌, ◌<◌, ◌≡◌, refl, ◌∙◌, false, none, some, List, arith, ◌⊎◌, ◌==◌, ltb, if◌then◌else◌,
  get_elem?, set, inl, inr, Bool-cases, Option-cases,
}
use xv6_learn.Files.{File, fd_none, FileServices, find_free, filealloc, filedup, fileclose, let_go}
use xv6_learn.Files.Refs.{ref_at, ref_at-set, get_elem?-ref_at, ref_at-get_elem?, find_free-found}

-- One reference to file `i`, as seen at `j`.
abbrev pub one : ℕ → ℕ → ℕ
one i j = if i == j then 1 else 0

abbrev pub Adds : ℕ → List File → List File → Type 0
Adds i fs gs = (j : ℕ) → ref_at gs j ≡ ref_at fs j + one i j

abbrev pub Drops : ℕ → List File → List File → Type 0
Drops i fs gs = (j : ℕ) → ref_at fs j ≡ ref_at gs j + one i j

pub filealloc-cases :
    (fs : List File)
    → (filealloc fs ≡ (none, fs))
      ⊎ ((i : ℕ) × (gs : List File) × (filealloc fs ≡ (some i, gs))
          × (ref_at fs i ≡ 0)
          × Adds i fs gs)
unfolding filealloc
filealloc-cases fs = elim (Option-cases (find_free 0 fs)) [
  | inl full ↦ inl (rw (filealloc, full) refl)
  | inr ((i, f), free) ↦
      (let (k, e, at, z) = find_free-found 0 fs free in
        let same : k ≡ i = omega arith in
        let at_i : get_elem? fs i ≡ some f = rw (← same) at in
        inr (
          i,
          set fs i (record f { ref = 1 }),
          rw (filealloc, free) refl,
          ref_at-get_elem? fs i at_i ∙ z,
          λ j.
              ref_at-set fs i j (record f { ref = 1 }) at_i
              ∙ ground (arith, z, ref_at-get_elem? fs i at_i),
        ))
]

pub filedup-Adds :
    (fs : List File) (i : ℕ)
    → 0 < ref_at fs i
    → (gs : List File) × (filedup i fs ≡ some gs) × Adds i fs gs
unfolding filedup
filedup-Adds fs i h =
    let (f, at, n) = get_elem?-ref_at fs i h in
    let busy : ltb f.ref 1 ≡ false = ground arith in
    (
      set fs i (record f { ref = f.ref + 1 }),
      rw (filedup, at, busy) refl,
      λ j. ref_at-set fs i j (record f { ref = f.ref + 1 }) at ∙ ground (arith, n),
    )

module _ (v : FileServices) where
  open v use {Rest}

  pub fileclose-Drops :
      (fs : List File) (r : Rest) (i : ℕ)
      → 0 < ref_at fs i
      → (gs : List File) × (r' : Rest) × (fileclose v i fs r ≡ some (gs, r')) × Drops i fs gs
  unfolding fileclose
  fileclose-Drops fs r i h =
      let (f, at, n) = get_elem?-ref_at fs i h in
      let busy : ltb f.ref 1 ≡ false = ground arith in
      elim (Bool-cases (ltb 0 (f.ref - 1))) [
        | inl more ↦ (
          set fs i (record f { ref = f.ref - 1 }),
          r,
          rw (fileclose, at, busy, more) refl,
          λ j. ground (arith, n, ref_at-set fs i j (record f { ref = f.ref - 1 }) at),
        )
        | inr last ↦ (
          set fs i (record f { ref = 0; kind = fd_none }),
          let_go v f r,
          rw (fileclose, at, busy, last) refl,
          λ j. ground (arith, n, ref_at-set fs i j (record f { ref = 0; kind = fd_none }) at),
        )
      ]
