-- ===== src/Kalloc/Pages.antt =====
-- The free list as a list of pages.
use xv6_learn.Common.{
  ℕ, ◌+◌, ◌%◌, ◌≤◌, ◌<◌, ◌≡◌, ◌≢◌, refl, Bool, true, false, not, ◌&&◌, ◌||◌, List, [], ◌∷◌, arith,
  ◌==◌, if◌then◌else◌, length, inl, inr, Bool-cases,
}
use xv6_learn.Kalloc.{pgsize, phystop, fill_page}

abbrev pub holds : List ℕ → ℕ → Bool
holds [] x = false
holds (p ∷ ps) x = p == x || holds ps x

abbrev pub AllApart : List ℕ → Type 0
AllApart [] = Unit
AllApart (p ∷ ps) = (holds ps p ≡ false) × AllApart ps

-- A page that `kfree` takes.
abbrev pub IsPage : (end p : ℕ) → Type 0
IsPage end p = (p % pgsize ≡ 0) × (end ≤ p) × (p < phystop)

abbrev pub AllPages : ℕ → List ℕ → Type 0
AllPages end [] = Unit
AllPages end (p ∷ ps) = IsPage end p × AllPages end ps

-- From address `h` on the list runs through the pages `ps`.
abbrev pub Chain : (ℕ → ℕ) → ℕ → List ℕ → Type 0
Chain m h [] = h ≡ 0
Chain m h (p ∷ ps) = (h ≡ p) × Chain m (m p) ps

pub AllPages-holds :
    (end : ℕ) (ps : List ℕ) (x : ℕ) → AllPages end ps → holds ps x ≡ true → IsPage end x
AllPages-holds end [] x a h = cc
AllPages-holds end (p ∷ ps) x a h = elim (Bool-cases (p == x)) [
  | inl this ↦ ground arith
  | inr other ↦ AllPages-holds end ps x a.1 (ground arith)
]

-- The chain reads the first words of its pages only.
pub Chain-frame :
    (m m' : ℕ → ℕ) (h : ℕ) (ps : List ℕ)
    → ((x : ℕ) → holds ps x ≡ true → m' x ≡ m x)
    → Chain m h ps
    → Chain m' h ps
Chain-frame m m' h [] same c = c
Chain-frame m m' h (p ∷ ps) same c =
    (c.0, rw (same p (ground arith)) (Chain-frame m m' (m p) ps (λ x i. same x (ground arith)) c.1))

-- Two pages that are not the same do not overlap.
pub fill_page-elsewhere :
    (p junk : ℕ) (m : ℕ → ℕ) (x : ℕ)
    → p % pgsize ≡ 0
    → x % pgsize ≡ 0
    → p ≢ x
    → fill_page p junk m x ≡ m x
fill_page-elsewhere p junk m x hp hx ne = ground arith

abbrev pub remove : List ℕ → ℕ → List ℕ
remove [] x = []
remove (p ∷ ps) x = if p == x then ps else p ∷ remove ps x

pub holds-remove :
    (ps : List ℕ) (x y : ℕ) → AllApart ps → holds (remove ps x) y ≡ (holds ps y && not (x == y))
holds-remove [] x y a = refl
holds-remove (p ∷ ps) x y a = ground (arith, holds-remove ps x y a.1, a.0)

pub AllApart-remove : (ps : List ℕ) (x : ℕ) → AllApart ps → AllApart (remove ps x)
AllApart-remove [] x a = tt
AllApart-remove (p ∷ ps) x a = elim (Bool-cases (p == x)) [
  | inl this ↦ rw this a.1
  | inr other ↦ rw other (ground (arith, holds-remove ps x p a.1, a.0), AllApart-remove ps x a.1)
]

pub AllPages-remove : (end : ℕ) (ps : List ℕ) (x : ℕ) → AllPages end ps → AllPages end (remove ps x)
AllPages-remove end [] x a = tt
AllPages-remove end (p ∷ ps) x a = elim (Bool-cases (p == x)) [
  | inl this ↦ rw this a.1
  | inr other ↦ rw other (a.0, AllPages-remove end ps x a.1)
]

pub length-remove : (ps : List ℕ) (x : ℕ) → holds ps x ≡ true → length (remove ps x) + 1 ≡ length ps
length-remove [] x h = cc
length-remove (p ∷ ps) x h = elim (Bool-cases (p == x)) [
  | inl this ↦ rw this (omega arith)
  | inr other ↦ rw other (omega (arith, length-remove ps x (ground arith)))
]
