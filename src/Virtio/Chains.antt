-- ===== src/Virtio/Chains.antt =====
-- What the allocation and the freeing of descriptors do to the table of those that are free.
use xv6_learn.Common.{
  ℕ, zero, suc, ◌+◌, ◌≤◌, ◌<◌, ◌≡◌, ◌≢◌, ◌⊎◌, inl, inr, refl, ap, ◌∙◌, arith, Bool, true, false,
  none, some, List, [], ◌∷◌, ◌==◌, leb, if◌then◌else◌, length, length-set, get_elem?, set,
  get_elem?-set_ne, Bool-cases, Option-cases, ==_iff,
}
use xv6_learn.Virtio.{num, Desc, Disk, find_free_desc, alloc_desc, change_desc, free_desc}

-- 1 for a descriptor that is not free.
abbrev pub taken : List Bool → ℕ → ℕ
taken [] x = 0
taken (f ∷ fs) zero = if f then 0 else 1
taken (f ∷ fs) (suc x) = taken fs x

pub taken_bound : (fs : List Bool) (x : ℕ) → taken fs x ≤ 1
taken_bound [] x = omega arith
taken_bound (true ∷ fs) zero = omega arith
taken_bound (false ∷ fs) zero = omega arith
taken_bound (f ∷ fs) (suc x) = taken_bound fs x

abbrev pub one : ℕ → ℕ → ℕ
one i x = if i == x then 1 else 0

-- One descriptor more is taken, or one less.
abbrev pub Takes : ℕ → List Bool → List Bool → Type 0
Takes i fs gs =
    (length gs ≡ length fs) × (i < length fs) × ((x : ℕ) → taken gs x ≡ taken fs x + one i x)

find_free_desc-cases :
    (i : ℕ) (fs : List Bool)
    → (find_free_desc i fs ≡ none)
      ⊎ ((k : ℕ) × (gs : List Bool) × (find_free_desc i fs ≡ some (i + k, gs)) × Takes k fs gs)
unfolding find_free_desc
find_free_desc-cases i [] = inl refl
find_free_desc-cases i (true ∷ fs) =
    let e : i ≡ i + 0 = omega arith in
    inr (0, false ∷ fs, ap (λ n. some (n, false ∷ fs)) e, (refl, omega arith, here))
  where
    here : (x : ℕ) → taken (false ∷ fs) x ≡ taken (true ∷ fs) x + one 0 x
    here zero = refl
    here (suc x) = ground arith
find_free_desc-cases i (false ∷ fs) = elim (find_free_desc-cases (i + 1) fs) [
  | inl full ↦ inl (rw (find_free_desc, full) refl)
  | inr (k, gs, e, (size, inside, t)) ↦
      (let n : i + 1 + k ≡ i + suc k = omega arith in
        inr (
          suc k,
          false ∷ gs,
          rw (find_free_desc, e, n) refl,
          (ap suc size, omega arith, later k gs t),
        ))
]
  where
    later :
        (k : ℕ) (gs : List Bool)
        → ((x : ℕ) → taken gs x ≡ taken fs x + one k x)
        → (x : ℕ) → taken (false ∷ gs) x ≡ taken (false ∷ fs) x + one (suc k) x
    later k gs t zero = ground arith
    later k gs t (suc x) = t x ∙ ground arith

pub alloc_desc-cases :
    (d : Disk)
    → (alloc_desc d ≡ none)
      ⊎ ((i : ℕ) × (fs : List Bool) × (alloc_desc d ≡ some (i, record d { free = fs }))
          × Takes i d.free fs)
unfolding alloc_desc
alloc_desc-cases d = elim (find_free_desc-cases 0 d.free) [
  | inl full ↦ inl (rw (alloc_desc, full) refl)
  | inr (k, gs, e, t) ↦
      (let n : 0 + k ≡ k = omega arith in inr (k, gs, rw (alloc_desc, e, n) refl, t))
]

taken_at :
    (fs : List Bool) (i : ℕ) → taken fs i ≡ 1 → (get_elem? fs i ≡ some false) × (i < length fs)
taken_at [] i h = absurd (omega arith)
taken_at (true ∷ fs) zero h = absurd (omega arith)
taken_at (false ∷ fs) zero h = (refl, omega arith)
taken_at (f ∷ fs) (suc i) h = let (a, b) = taken_at fs i h in (a, omega arith)

set-Takes : (fs : List Bool) (i : ℕ) → taken fs i ≡ 1 → Takes i (set fs i true) fs
set-Takes [] i h = absurd (omega arith)
set-Takes (true ∷ fs) zero h = absurd (omega arith)
set-Takes (false ∷ fs) zero h = (refl, omega arith, here)
  where
    here : (x : ℕ) → taken (false ∷ fs) x ≡ taken (true ∷ fs) x + one 0 x
    here zero = refl
    here (suc x) = ground arith
set-Takes (f ∷ fs) (suc i) h =
    let (size, inside, t) = set-Takes fs i h in (ap suc size, omega arith, later t)
  where
    later :
        ((x : ℕ) → taken fs x ≡ taken (set fs i true) x + one i x)
        → (x : ℕ) → taken (f ∷ fs) x ≡ taken (f ∷ set fs i true) x + one (suc i) x
    later t zero = ground arith
    later t (suc x) = t x ∙ ground arith

-- The address of a descriptor is addr_cleared.
abbrev pub addr_cleared : ℕ → List Desc → List Desc
addr_cleared i ds = change_desc i (λ x. record x { addr = 0 }) ds

pub free_desc-frees :
    (i : ℕ) (d : Disk)
    → length d.free ≡ num
    → taken d.free i ≡ 1
    → (fs : List Bool) × (free_desc i d
        ≡ some (record d { desc = addr_cleared i d.desc; free = fs }))
      × Takes i fs d.free
unfolding free_desc
free_desc-frees i d size h =
    let (at, inside) = taken_at d.free i h in
    let low : leb num i ≡ false = ground arith in
    (set d.free i true, rw (free_desc, low, at) refl, set-Takes d.free i h)

-- What links a descriptor to the next is as it was, where it stands.
abbrev pub Links : List Desc → List Desc → ℕ → Type 0
Links ds es x =
    (y : Desc)
    → get_elem? ds x ≡ some y
    → (z : Desc) × (get_elem? es x ≡ some z) × (z.flags ≡ y.flags) × (z.next ≡ y.next)

get_elem?-set_same :
    (ds : List Desc) (i : ℕ) (z : Desc) {y : Desc}
    → get_elem? ds i ≡ some y
    → get_elem? (set ds i z) i ≡ some z
get_elem?-set_same [] i z h = cc
get_elem?-set_same (d ∷ ds) zero z h = refl
get_elem?-set_same (d ∷ ds) (suc i) z h = get_elem?-set_same ds i z h

pub addr_cleared-Links : (i : ℕ) (ds : List Desc) (x : ℕ) → Links ds (addr_cleared i ds) x
addr_cleared-Links i ds x y at = elim (Option-cases (get_elem? ds i)) [
  | inl past ↦ rw (change_desc, past) (y, at, refl, refl)
  | inr (u, here) ↦ elim (Bool-cases (i == x)) [
    | inl same ↦
        (let e : i ≡ x = (==_iff i x).0 same in
          let at_i : get_elem? ds i ≡ some y = rw e at in
          rw (change_desc, at_i)
            (
              record y { addr = 0 },
              rw (← e) (get_elem?-set_same ds i (record y { addr = 0 }) at_i),
              refl,
              refl,
            ))
    | inr other ↦
        (let ne : i ≢ x = ground arith in
          rw (change_desc, here)
            (y, get_elem?-set_ne ds (record u { addr = 0 }) ne ∙ at, refl, refl))
  ]
]

pub Links-trans : (a b c : List Desc) (x : ℕ) → Links a b x → Links b c x → Links a c x
Links-trans a b c x f g y at =
    let (z, at_z, p, q) = f y at in let (w, at_w, r, s) = g z at_z in (w, at_w, r ∙ p, s ∙ q)

pub length-addr_cleared : (i : ℕ) (ds : List Desc) → length (addr_cleared i ds) ≡ length ds
length-addr_cleared i ds = elim (Option-cases (get_elem? ds i)) [
  | inl past ↦ rw (change_desc, past) refl
  | inr (u, here) ↦ rw (change_desc, here) (length-set ds i (record u { addr = 0 }))
]
