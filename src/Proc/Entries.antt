-- ===== src/Proc/Entries.antt =====
-- The entries of a table after a change.
use mathlib.Core.Path.{subst}
use xv6_learn.Common.{
  ℕ, zero, suc, ◌≡◌, ◌≢◌, refl, ap, some, List, [], ◌∷◌, map, arith, get_elem?, sym, ◌∙◌, of_some,
}
use xv6_learn.Proc.{Proc, modify}

pub get_elem?-modify_self :
    (f : Proc → Proc) (ps : List Proc) (i : ℕ) {p : Proc}
    → get_elem? ps i ≡ some p
    → get_elem? (modify ps i f) i ≡ some (f p)
get_elem?-modify_self f [] i h = cc
get_elem?-modify_self f (q ∷ ps) zero h = ground arith
get_elem?-modify_self f (q ∷ ps) (suc i) h = get_elem?-modify_self f ps i h

pub get_elem?-modify_ne :
    (f : Proc → Proc) (ps : List Proc) (i j : ℕ)
    → i ≢ j
    → get_elem? (modify ps i f) j ≡ get_elem? ps j
get_elem?-modify_ne f [] i j h = refl
get_elem?-modify_ne f (q ∷ ps) zero zero h = absurd (h refl)
get_elem?-modify_ne f (q ∷ ps) zero (suc j) h = refl
get_elem?-modify_ne f (q ∷ ps) (suc i) zero h = refl
get_elem?-modify_ne f (q ∷ ps) (suc i) (suc j) h = get_elem?-modify_ne f ps i j (λ e. h (ap suc e))

pub get_elem?-map :
    (f : Proc → Proc) (ps : List Proc) (i : ℕ) {p : Proc}
    → get_elem? ps i ≡ some p
    → get_elem? (map f ps) i ≡ some (f p)
get_elem?-map f [] i h = cc
get_elem?-map f (q ∷ ps) zero h = ground arith
get_elem?-map f (q ∷ ps) (suc i) h = get_elem?-map f ps i h

-- Entry `j` has a property.
abbrev pub Has : (Proc → Type 0) → List Proc → ℕ → Type 0
Has P ps j = (r : Proc) × (get_elem? ps j ≡ some r) × P r

pub Has-modify :
    (P : Proc → Type 0) (f : Proc → Proc) (ps : List Proc) (i j : ℕ)
    → ((r : Proc) → P r → P (f r))
    → Has P ps j
    → Has P (modify ps i f) j
Has-modify P f [] i j keep h = h
Has-modify P f (p ∷ ps) zero zero keep (r, e, g) = (f p, refl, keep p (subst P (sym (of_some e)) g))
Has-modify P f (p ∷ ps) zero (suc j) keep h = h
Has-modify P f (p ∷ ps) (suc i) zero keep h = h
Has-modify P f (p ∷ ps) (suc i) (suc j) keep h = Has-modify P f ps i j keep h

pub Has-modify_self :
    (P Q : Proc → Type 0) (f : Proc → Proc) (ps : List Proc) (i : ℕ)
    → ((r : Proc) → P r → Q (f r))
    → Has P ps i
    → Has Q (modify ps i f) i
Has-modify_self P Q f ps i to (r, e, g) = (f r, get_elem?-modify_self f ps i e, to r g)

pub Has-modify_ne :
    (P : Proc → Type 0) (f : Proc → Proc) (ps : List Proc) (i j : ℕ)
    → i ≢ j
    → Has P ps j
    → Has P (modify ps i f) j
Has-modify_ne P f ps i j ne (r, e, g) = (r, get_elem?-modify_ne f ps i j ne ∙ e, g)

pub Has-map :
    (P : Proc → Type 0) (f : Proc → Proc) (ps : List Proc) (j : ℕ)
    → ((r : Proc) → P r → P (f r))
    → Has P ps j
    → Has P (map f ps) j
Has-map P f ps j keep (r, e, g) = (f r, get_elem?-map f ps j e, keep r g)
