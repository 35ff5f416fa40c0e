-- ===== src/Bcache/Recycling.antt =====
-- `bget`: one buffer for a block, and the buffer that it recycles.
use mathlib.Core.Path.{subst}
use xv6_learn.Common.{
  ℕ, ◌+◌, ◌%◌, ◌^◌, Bool, ◌&&◌, ◌≡◌, ◌≢◌, ◌⊎◌, inl, inr, refl, ap, sym, arith, true, false, Option,
  none, some, List, [], ◌∷◌, ◌++◌, ◌==◌, Bool-cases,
}
use xv6_learn.Bcache.{Buf, is_for, counted, recycled, find_cached, recycle_last, bget}

-- A buffer is for a block when both its device and its number are the block's; no buffer is.
abbrev pub is_of : (dev blockno : ℕ) → Buf → Bool
is_of dev blockno b = b.dev == dev && b.blockno == blockno

abbrev pub Absent : (dev blockno : ℕ) → List Buf → Type 0
Absent dev blockno [] = Unit {0}
Absent dev blockno (b ∷ bs) = (is_of dev blockno b ≡ false) × Absent dev blockno bs

-- All are in use.
abbrev pub InUse : List Buf → Type 0
InUse [] = Unit {0}
InUse (b ∷ bs) = ((b.refcnt == 0) ≡ false) × InUse bs

-- No two buffers are for one block of a device; device 0 stands for none.
abbrev pub OneEach : List Buf → Type 0
OneEach [] = Unit {0}
OneEach (b ∷ bs) = (b.dev ≢ 0 → Absent b.dev b.blockno bs) × OneEach bs

-- A change of one buffer, with those before it and after it.
abbrev pub Changed : (old new : Buf) → (front back bs bs' : List Buf) → Type 0
Changed old new front back bs bs' = (bs ≡ front ++ (old ∷ back)) × (bs' ≡ front ++ (new ∷ back))

-- What `bget` comes to.
abbrev pub GetEnd : (dev blockno : ℕ) → List Buf → Option (ℕ × List Buf) → Type 0
GetEnd dev blockno bs none = Absent dev blockno bs × InUse bs
GetEnd dev blockno bs (some (i, bs')) =
    (b : Buf) × (front : List Buf) × (back : List Buf) × (i ≡ b.place)
    × (((is_of dev blockno b ≡ true)
          × Changed b (record b { refcnt = (b.refcnt + 1) % 2 ^ 32 }) front back bs bs')
        ⊎ (Absent dev blockno bs
            × ((b.refcnt == 0) ≡ true)
            × InUse back
            × Changed b (record b { dev = dev; blockno = blockno; is_valid = false; refcnt = 1 })
                front back bs bs'))

abbrev CachedEnd : (dev blockno : ℕ) → List Buf → Option (ℕ × List Buf) → Type 0
CachedEnd dev blockno bs none = Absent dev blockno bs
CachedEnd dev blockno bs (some (i, bs')) =
    (b : Buf) × (front : List Buf) × (back : List Buf) × (i ≡ b.place)
    × (is_of dev blockno b ≡ true)
    × Changed b (record b { refcnt = (b.refcnt + 1) % 2 ^ 32 }) front back bs bs'

find_cached-CachedEnd :
    (dev blockno : ℕ) (bs : List Buf) → CachedEnd dev blockno bs (find_cached dev blockno bs)
unfolding find_cached
find_cached-CachedEnd dev blockno [] = tt
find_cached-CachedEnd dev blockno (b ∷ bs) = elim (Bool-cases (is_for dev blockno b)) [
  | inl hit ↦ rw (find_cached, hit) (b, [], bs, refl, hit, (refl, refl))
  | inr miss ↦
      rw (find_cached, miss)
        (go (find_cached dev blockno bs) miss (find_cached-CachedEnd dev blockno bs))
]
  where
    go :
        (o : Option (ℕ × List Buf))
        → is_for dev blockno b ≡ false
        → CachedEnd dev blockno bs o
        → CachedEnd dev blockno
            (b ∷ bs)
            (elim o [ none ↦ none | some (i, bs') ↦ some (i, b ∷ bs') ])
    go none miss h = (miss, h)
    go (some (i, bs')) miss (c, front, back, e, hit, (old, new)) =
        (c, b ∷ front, back, e, hit, (ap (λ t. b ∷ t) old, ap (λ t. b ∷ t) new))

abbrev RecycleEnd : (dev blockno : ℕ) → List Buf → Option (ℕ × List Buf) → Type 0
RecycleEnd dev blockno bs none = InUse bs
RecycleEnd dev blockno bs (some (i, bs')) =
    (b : Buf) × (front : List Buf) × (back : List Buf) × (i ≡ b.place)
    × ((b.refcnt == 0) ≡ true)
    × InUse back
    × Changed b (record b { dev = dev; blockno = blockno; is_valid = false; refcnt = 1 }) front back
        bs bs'

recycle_last-RecycleEnd :
    (dev blockno : ℕ) (bs : List Buf) → RecycleEnd dev blockno bs (recycle_last dev blockno bs)
unfolding recycle_last
recycle_last-RecycleEnd dev blockno [] = tt
recycle_last-RecycleEnd dev blockno (b ∷ bs) =
    go (recycle_last dev blockno bs) (recycle_last-RecycleEnd dev blockno bs)
  where
    go :
        (o : Option (ℕ × List Buf))
        → RecycleEnd dev blockno bs o
        → RecycleEnd dev blockno (b ∷ bs) (elim o [
          | some (i, bs') ↦ some (i, b ∷ bs')
          | none ↦ elim (b.refcnt == 0) [
            | true ↦ some (b.place, recycled dev blockno b ∷ bs)
            | false ↦ none
          ]
        ])
    go (some (i, bs')) (c, front, back, e, free, used, (old, new)) =
        (c, b ∷ front, back, e, free, used, (ap (λ t. b ∷ t) old, ap (λ t. b ∷ t) new))
    go none h = elim (Bool-cases (b.refcnt == 0)) [
      | inl free ↦ rw free (b, [], bs, refl, free, h, (refl, refl))
      | inr busy ↦ rw busy (busy, h)
    ]

bget_lem : (dev blockno : ℕ) (bs : List Buf) → GetEnd dev blockno bs (bget dev blockno bs)
unfolding bget
bget_lem dev blockno bs =
    go (find_cached dev blockno bs) (find_cached-CachedEnd dev blockno bs)
      (recycle_last dev blockno bs) (recycle_last-RecycleEnd dev blockno bs)
  where
    go :
        (o : Option (ℕ × List Buf))
        → CachedEnd dev blockno bs o
        → (r : Option (ℕ × List Buf)) → RecycleEnd dev blockno bs r
        → GetEnd dev blockno bs (elim o [ some q ↦ some q | none ↦ r ])
    go (some (i, bs')) (b, front, back, e, hit, c) r k = (b, front, back, e, inl (hit, c))
    go none h none k = (h, k)
    go none h (some (i, bs')) (b, front, back, e, free, used, c) =
        (b, front, back, e, inr (h, free, used, c))

-- Another buffer at the place of `b` that is not for the block.
Absent-change :
    (dev blockno : ℕ) (b c : Buf) (front back : List Buf)
    → is_of dev blockno c ≡ false
    → Absent dev blockno (front ++ (b ∷ back))
    → Absent dev blockno (front ++ (c ∷ back))
Absent-change dev blockno b c [] back h (a, rest) = (h, rest)
Absent-change dev blockno b c (d ∷ front) back h (a, rest) =
    (a, Absent-change dev blockno b c front back h rest)

Absent-at :
    (dev blockno : ℕ) (b : Buf) (front back : List Buf)
    → Absent dev blockno (front ++ (b ∷ back))
    → is_of dev blockno b ≡ false
Absent-at dev blockno b [] back (a, rest) = a
Absent-at dev blockno b (d ∷ front) back (a, rest) = Absent-at dev blockno b front back rest

OneEach-counted :
    (b : Buf) (front back : List Buf)
    → OneEach (front ++ (b ∷ back))
    → OneEach (front ++ (counted b ∷ back))
OneEach-counted b [] back h = h
OneEach-counted b (d ∷ front) back (a, rest) = (
  λ used.
      Absent-change d.dev d.blockno b (counted b) front back
        (Absent-at d.dev d.blockno b front back (a used)) (a used),
  OneEach-counted b front back rest,
)

OneEach-recycled :
    (dev blockno : ℕ) (b : Buf) (front back : List Buf)
    → Absent dev blockno (front ++ (b ∷ back))
    → OneEach (front ++ (b ∷ back))
    → OneEach (front ++ (recycled dev blockno b ∷ back))
OneEach-recycled dev blockno b [] back (n, absent) (a, rest) = (λ used. absent, rest)
OneEach-recycled dev blockno b (d ∷ front) back (n, absent) (a, rest) = (
  λ used.
      let other : is_of d.dev d.blockno (recycled dev blockno b) ≡ false = ground (arith, n) in
      Absent-change d.dev d.blockno b (recycled dev blockno b) front back other (a used),
  OneEach-recycled dev blockno b front back absent rest,
)

abbrev pub OneEachAfter : Option (ℕ × List Buf) → Type 0
OneEachAfter none = Unit {0}
OneEachAfter (some (i, bs')) = OneEach bs'

GetEnd-OneEach :
    (dev blockno : ℕ) (bs : List Buf) (o : Option (ℕ × List Buf))
    → OneEach bs
    → GetEnd dev blockno bs o
    → OneEachAfter o
GetEnd-OneEach dev blockno bs none one h = tt
GetEnd-OneEach dev blockno bs (some (i, bs')) one (b, front, back, e, inl (hit, (old, new))) =
    subst OneEach (sym new) (OneEach-counted b front back (subst OneEach old one))
GetEnd-OneEach dev blockno bs (some (i, bs')) one
      (b, front, back, e, inr (absent, free, used, (old, new))) =
    subst OneEach (sym new) (
      OneEach-recycled dev blockno b front back (subst (Absent dev blockno) old absent)
        (subst OneEach old one))

-- `bget` keeps at most one buffer for a block. It returns a buffer for the block, with one reference
-- more (modulo 2^32) and no other change, where there is one; else it recycles the last buffer of
-- the list that no one uses, which then is for the block, with no valid data and one reference;
-- every other buffer is as it was, and in its place. It panics only where no buffer is for the block
-- and all are in use.
pub bget-GetEnd :
    (dev blockno : ℕ) (bs : List Buf)
    → OneEach bs
    → GetEnd dev blockno bs (bget dev blockno bs) × OneEachAfter (bget dev blockno bs)
bget-GetEnd dev blockno bs one =
    let h = bget_lem dev blockno bs in
    (h, GetEnd-OneEach dev blockno bs (bget dev blockno bs) one h)
