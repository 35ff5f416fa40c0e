-- ===== src/Files/Refs.antt =====
-- The reference counts of open files: calls of `filealloc`, `filedup` and `fileclose` in any order.
use xv6_learn.Common.{
  ℕ, zero, suc, ◌+◌, ◌-◌, ◌<◌, ◌≡◌, refl, ◌∙◌, false, Option, none, some, List, [], ◌∷◌, arith,
  ◌==◌, ltb, if◌then◌else◌, get_elem?, set, inl, inr, Bool-cases, Option-cases,
}
use xv6_learn.Files.{File, fd_none, FileServices, find_free, filealloc, filedup, fileclose, let_go}

abbrev pub ref_at : List File → ℕ → ℕ
ref_at [] i = 0
ref_at (f ∷ fs) zero = f.ref
ref_at (f ∷ fs) (suc i) = ref_at fs i

-- How often a file is held: once for each descriptor.
abbrev pub count : List ℕ → ℕ → ℕ
count [] i = 0
count (h ∷ hs) i = if h == i then count hs i + 1 else count hs i

abbrev pub remove : List ℕ → ℕ → List ℕ
remove [] i = []
remove (h ∷ hs) i = if h == i then hs else h ∷ remove hs i

count-remove :
    (hs : List ℕ) (i j : ℕ)
    → 0 < count hs i
    → count (remove hs i) j ≡ (if i == j then count hs j - 1 else count hs j)
count-remove [] i j p = absurd (omega arith)
count-remove (h ∷ hs) i j p = elim (Bool-cases (h == i)) [
  | inl this ↦ rw this (ground arith)
  | inr other ↦ rw other (ground (arith, count-remove hs i j (ground arith)))
]

pub ref_at-set :
    (fs : List File) (i j : ℕ) (g : File) {f : File}
    → get_elem? fs i ≡ some f
    → ref_at (set fs i g) j ≡ (if i == j then g.ref else ref_at fs j)
ref_at-set [] i j g h = cc
ref_at-set (f ∷ fs) zero zero g h = refl
ref_at-set (f ∷ fs) zero (suc j) g h = ground arith
ref_at-set (f ∷ fs) (suc i) zero g h = ground arith
ref_at-set (f ∷ fs) (suc i) (suc j) g h = ref_at-set fs i j g h ∙ ground arith

pub get_elem?-ref_at :
    (fs : List File) (i : ℕ)
    → 0 < ref_at fs i
    → (f : File) × (get_elem? fs i ≡ some f) × (f.ref ≡ ref_at fs i)
get_elem?-ref_at [] i p = absurd (omega arith)
get_elem?-ref_at (f ∷ fs) zero p = (f, refl, refl)
get_elem?-ref_at (f ∷ fs) (suc i) p = get_elem?-ref_at fs i p

pub ref_at-get_elem? :
    (fs : List File) (i : ℕ) {f : File} → get_elem? fs i ≡ some f → ref_at fs i ≡ f.ref
ref_at-get_elem? [] i h = cc
ref_at-get_elem? (f ∷ fs) zero h = ground arith
ref_at-get_elem? (f ∷ fs) (suc i) h = ref_at-get_elem? fs i h

pub find_free-found :
    (i : ℕ) (fs : List File) {j : ℕ} {f : File}
    → find_free i fs ≡ some (j, f)
    → (k : ℕ) × (j ≡ i + k) × (get_elem? fs k ≡ some f) × (f.ref ≡ 0)
find_free-found i [] h = cc
find_free-found i (g ∷ fs) {j} {f} h = elim (Bool-cases (g.ref == 0)) [
  | inl idle ↦ (0, ground arith, ground arith, ground arith)
  | inr busy ↦
      (let (k, e, at, z) = find_free-found (i + 1) fs {j = j} {f = f} (ground arith) in
        (suc k, omega arith, at, z))
]

-- Each file's count is the number of times that it is held.
abbrev pub Counted : List File → List ℕ → Type 0
Counted fs held = (i : ℕ) → ref_at fs i ≡ count held i

pub data Event : Type 0 where
  alloc : Event
  dup : (i : ℕ) → Event
  close : (i : ℕ) → Event

module _ (v : FileServices) where
  open v use {Rest}

  pub record System : Type 0 where
    pub files : List File
    pub held : List ℕ
    pub rest : Rest

  abbrev pub allocated : Option ℕ × List File → System → System
  allocated (none, fs) s = record s { files = fs }
  allocated (some i, fs) s = record s { files = fs; held = i ∷ s.held }

  -- `none` is a panic; what is done to a file that is not held does not occur.
  pub exec : Event → System → Option System
  exec alloc s = some (allocated (filealloc s.files) s)
  exec (dup i) s = if count s.held i == 0 then some s else elim (filedup i s.files) [
    | none ↦ none
    | some fs ↦ some (record s { files = fs; held = i ∷ s.held })
  ]
  exec (close i) s = if count s.held i == 0 then some s else elim (fileclose v i s.files s.rest) [
    | none ↦ none
    | some (fs, r) ↦ some (record { files = fs; held = remove s.held i; rest = r })
  ]

  pub run : List Event → System → Option System
  unfolding exec
  run [] s = some s
  run (e ∷ es) s = elim (exec e s) [ none ↦ none | some t ↦ run es t ]

  abbrev pub Fine : Option System → Type 0
  Fine none = ⊥
  Fine (some s) = Counted s.files s.held

  allocated-Counted :
      (s : System) (o : Option (ℕ × File))
      → find_free 0 s.files ≡ o
      → Counted s.files s.held
      → Fine (some (allocated (filealloc s.files) s))
  unfolding filealloc
  allocated-Counted s none full c =
      let e : filealloc s.files ≡ (none, s.files) = rw (full, filealloc) refl in rw e c
  allocated-Counted s (some (j, f)) found c =
      let (k, e, at, z) = find_free-found 0 s.files found in
      let same : k ≡ j = omega arith in
      let at_j : get_elem? s.files j ≡ some f = rw (← same) at in
      let made : filealloc s.files ≡ (some j, set s.files j (record f { ref = 1 })) =
        rw (found, filealloc) refl in
      rw made (λ i.
        ref_at-set s.files j i (record f { ref = 1 }) at_j
        ∙ ground (arith, c i, ref_at-get_elem? s.files j at_j))

  alloc-Fine : (s : System) → Counted s.files s.held → Fine (exec alloc s)
  unfolding exec
  alloc-Fine s c = allocated-Counted s (find_free 0 s.files) refl c

  dup-Fine : (s : System) (i : ℕ) → Counted s.files s.held → Fine (exec (dup i) s)
  unfolding exec filedup
  dup-Fine s i c = elim (Bool-cases (count s.held i == 0)) [
    | inl unheld ↦ rw unheld c
    | inr used ↦
        (let (f, at, n) = get_elem?-ref_at s.files i (ground (arith, c i)) in
          let busy : ltb f.ref 1 ≡ false = ground (arith, c i) in
          rw (used, at, busy)
            (λ j.
              ref_at-set s.files i j (record f { ref = f.ref + 1 }) at ∙ ground (arith, c i, c j)))
  ]

  -- What the close of a file that is held does: the last one lets the file's pipe or inode go and
  -- frees its entry, and another leaves the rest of the kernel alone.
  abbrev pub Closed : ℕ → System → Option (List File × Rest) → Type 0
  Closed i s none = ⊥
  Closed i s (some (fs, r)) =
      (f : File) × (get_elem? s.files i ≡ some f)
      × (r ≡ (if count s.held i == 1 then let_go v f s.rest else s.rest))
      × Counted fs (remove s.held i)

  -- Where each file's count is the number of times that it is held, the `fileclose` of a file that
  -- is held does not panic: it lets the file's pipe or inode go exactly when it was held once, and
  -- the counts are right again.
  pub fileclose-Closed :
      (s : System) (i : ℕ)
      → Counted s.files s.held
      → 0 < count s.held i
      → Closed i s (fileclose v i s.files s.rest)
  unfolding fileclose
  fileclose-Closed s i c used =
      let (f, at, n) = get_elem?-ref_at s.files i (omega (arith, c i)) in
      let busy : ltb f.ref 1 ≡ false = ground (arith, c i) in
      elim (Bool-cases (ltb 0 (f.ref - 1))) [
        | inl more ↦
            rw (at, fileclose, busy, more)
              (
                f,
                at,
                ground (arith, c i),
                λ j.
                    ref_at-set s.files i j (record f { ref = f.ref - 1 }) at
                    ∙ ground (arith, c i, c j, count-remove s.held i j used),
              )
        | inr last ↦
            rw (at, fileclose, busy, last)
              (
                f,
                at,
                ground (arith, c i),
                λ j.
                    ref_at-set s.files i j (record f { ref = 0; kind = fd_none }) at
                    ∙ ground (arith, c i, c j, count-remove s.held i j used),
              )
      ]

  close-Fine : (s : System) (i : ℕ) → Counted s.files s.held → Fine (exec (close i) s)
  unfolding exec
  close-Fine s i c = elim (Bool-cases (count s.held i == 0)) [
    | inl unheld ↦ rw unheld c
    | inr used ↦ go used (fileclose v i s.files s.rest) refl (fileclose-Closed s i c (ground arith))
  ]
    where
      go :
          (count s.held i == 0) ≡ false
          → (o : Option (List File × Rest)) → fileclose v i s.files s.rest ≡ o
          → Closed i s o
          → Fine (exec (close i) s)
      go used none e w = absurd w
      go used (some (fs, r)) e w = rw (used, e) w.3

  exec-Fine : (e : Event) (s : System) → Counted s.files s.held → Fine (exec e s)
  exec-Fine alloc s c = alloc-Fine s c
  exec-Fine (dup i) s c = dup-Fine s i c
  exec-Fine (close i) s c = close-Fine s i c

  -- Whatever the order of `filealloc` and of the `filedup` and `fileclose` of files that are held,
  -- none of them panics, and each file's count is the number of times that it is held; so
  -- `filealloc` hands out no file that is held.
  pub run-Counted : (es : List Event) (s : System) → Counted s.files s.held → Fine (run es s)
  unfolding run
  run-Counted [] s c = c
  run-Counted (e ∷ es) s c = elim (Option-cases (exec e s)) [
    | inl panics ↦ absurd (rw panics at (exec-Fine e s c))
    | inr (t, made) ↦ rw (run, made) (run-Counted es t (rw made at (exec-Fine e s c)))
  ]
