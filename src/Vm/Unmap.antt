-- ===== src/Vm/Unmap.antt =====
-- `uvmunmap` on what a page table maps, where it frees no physical page.
use mathlib.Core.Path.{subst}
use xv6_learn.Common.{
  ℕ, zero, suc, ◌+◌, ◌*◌, ◌/◌, ◌%◌, ◌≤◌, ◌<◌, ◌≡◌, inl, inr, refl, ap, sym, ◌∙◌, arith, Bool, true,
  false, not, ◌&&◌, ◌||◌, Option, none, some, ◌==◌, ltb, leb, if◌then◌else◌, Bool-cases,
}
use xv6_learn.Kalloc.{Kmem, pgsize}
use xv6_learn.Vm.{maxva, valid, pte_flags, store, walk}
use xv6_learn.Vm.Space.{unmap_loop, uvmunmap}
use xv6_learn.Vm.Lookup.{look, place, look-place, walk_loop-place}
use xv6_learn.Vm.Leaf.{look-stored, store-Tree}
use xv6_learn.Vm.Ranges.{Rooted}

-- A PTE that does not map a page.
abbrev pub no_leaf : ℕ → Bool
no_leaf pte = not (valid pte) || pte_flags pte == 1

-- The `n` pages from `x` on are not mapped, and the others as before.
abbrev pub Cleared : (root x n : ℕ) → (k k' : Kmem) → Type 0
Cleared root x n k k' =
    (va : ℕ)
    → va < maxva
    → look 2 root va k'.words
      ≡ (if leb x (va / 4096) && ltb (va / 4096) (x + n) then 0 else look 2 root va k.words)

-- What `uvmunmap` of `n` pages from page `x` on comes to.
abbrev pub Unmapped : (root x n : ℕ) → Kmem → Option Kmem → Type 0
Unmapped root x n k none =
    (j : ℕ) × (j < n) × (no_leaf (look 2 root ((x + j) * 4096) k.words) ≡ true)
Unmapped root x n k (some k') =
    Rooted root k'
    × ((j : ℕ) → j < n → no_leaf (look 2 root ((x + j) * 4096) k.words) ≡ false)
    × Cleared root x n k k'

Cleared-outside :
    (root x n va : ℕ) (k k' : Kmem)
    → Cleared root x n k k'
    → va < maxva
    → (leb x (va / 4096) && ltb (va / 4096) (x + n)) ≡ false
    → look 2 root va k'.words ≡ look 2 root va k.words
Cleared-outside root x n va k k' h low out =
    h va low ∙ ap (λ c. if c then 0 else look 2 root va k.words) out

Cleared-first :
    (root x n : ℕ) (k k1 k2 : Kmem)
    → Cleared root x 1 k k1
    → Cleared root (x + 1) n k1 k2
    → Cleared root x (suc n) k k2
Cleared-first root x n k k1 k2 first rest va low =
    let y = va / 4096 in
    let one = leb x y && ltb y (x + 1) in
    rest va low
    ∙ ap (λ z. if leb (x + 1) y && ltb y (x + 1 + n) then 0 else z) (first va low)
    ∙ elim (Bool-cases (leb x y && ltb y (x + suc n))) [
      | inl inside ↦ elim (Bool-cases one) [
        | inl here ↦ rw (here, inside) (ground arith)
        | inr there ↦
            (let c : (leb (x + 1) y && ltb y (x + 1 + n)) ≡ true = ground arith in
              rw (c, inside) refl)
      ]
      | inr outside ↦
          (let b : one ≡ false = ground arith in
            let c : (leb (x + 1) y && ltb y (x + 1 + n)) ≡ false = ground arith in
            rw (b, c, outside) refl)
    ]

-- The page `(x + 1) + j` keeps its PTE while page `x` is unmapped.
next_kept :
    (root x j : ℕ) (k k1 : Kmem)
    → Cleared root x 1 k k1
    → (x + suc j) * 4096 < maxva
    → look 2 root ((x + 1 + j) * 4096) k1.words ≡ look 2 root ((x + suc j) * 4096) k.words
next_kept root x j k k1 first room =
    let va = (x + 1 + j) * 4096 in
    let e : va ≡ (x + suc j) * 4096 = omega arith in
    let y : va / 4096 ≡ x + 1 + j = omega arith in
    let b : (leb x (va / 4096) && ltb (va / 4096) (x + 1)) ≡ false = ground (arith, y) in
    Cleared-outside root x 1 va k k1 first (omega arith) b ∙ ap (λ z. look 2 root z k.words) e

Unmapped-first :
    (root x n : ℕ) (k k1 : Kmem) (o : Option Kmem)
    → no_leaf (look 2 root (x * 4096) k.words) ≡ false
    → Cleared root x 1 k k1
    → (x + n) * 4096 < maxva
    → Unmapped root (x + 1) n k1 o
    → Unmapped root x (suc n) k o
Unmapped-first root x n k k1 none here first room (j, low, bad) =
    (suc j, omega arith, ap no_leaf (sym (next_kept root x j k k1 first (omega arith))) ∙ bad)
Unmapped-first root x n k k1 (some k') here first room (rooted, leaves, cleared) =
    (rooted, leaf_at, Cleared-first root x n k k1 k' first cleared)
  where
    leaf_at : (j : ℕ) → j < suc n → no_leaf (look 2 root ((x + j) * 4096) k.words) ≡ false
    leaf_at zero low =
        subst (λ y. no_leaf (look 2 root (y * 4096) k.words) ≡ false) (omega arith) here
    leaf_at (suc j) low =
        ap no_leaf (sym (next_kept root x j k k1 first (omega arith))) ∙ leaves j (omega arith)

-- One page: the store of 0 in the PTE that `walk` finds.
Cleared-one :
    (root x a : ℕ) (k : Kmem) (rooted : Rooted root k)
    → x * 4096 < maxva
    → place 2 root (x * 4096) k.words ≡ some a
    → Rooted root (store a 0 k) × Cleared root x 1 k (store a 0 k)
Cleared-one root x a k rooted low e = (
  record {
    tag = rooted.tag;
    free = rooted.free;
    tree = store-Tree rooted.tag rooted.free k rooted.tree root (x * 4096) 0 a rooted.top low e;
    top = rooted.top;
  },
  λ va low'.
      let y : x * 4096 / 4096 ≡ x = omega arith in
      let c : (va / 4096 == x) ≡ (leb x (va / 4096) && ltb (va / 4096) (x + 1)) = ground arith in
      look-stored rooted.tag rooted.free k rooted.tree root (x * 4096) 0 a va rooted.top low low' e
      ∙ ap (λ z. if va / 4096 == z then 0 else look 2 root va k.words) y
      ∙ ap (λ z. if z then 0 else look 2 root va k.words) c,
)

walk-place :
    (root va : ℕ) (k : Kmem) → va < maxva → walk root va false k ≡ some (place 2 root va k.words, k)
unfolding walk
walk-place root va k low =
    let h : leb maxva va ≡ false = ground arith in rw h (ap some (walk_loop-place 2 root va k))

module _ (end root : ℕ) where
  -- A round of `unmap_loop` with the result of its `walk`.
  abbrev round_end : (n a : ℕ) → Option (Option ℕ × Kmem) → Option Kmem
  round_end n a none = none
  round_end n a (some (none, k)) = none
  round_end n a (some (some pte, k)) = elim (no_leaf (k.words pte)) [
    | true ↦ none
    | false ↦ unmap_loop end n root (a + pgsize) false (store pte 0 k)
  ]

  unmap_loop-round :
      (n a : ℕ) (k : Kmem)
      → unmap_loop end (suc n) root a false k ≡ round_end n a (walk root a false k)
  unfolding unmap_loop
  unmap_loop-round n a k = go (walk root a false k)
    where
      go :
          (o : Option (Option ℕ × Kmem))
          → (elim o [
            | none ↦ none
            | some (none, k') ↦ none
            | some (some pte, k') ↦ elim (no_leaf (k'.words pte)) [
              | true ↦ none
              | false ↦ unmap_loop end n root (a + pgsize) false (store pte 0 k')
            ]
          ])
            ≡ round_end n a o
      go none = refl
      go (some (none, k')) = refl
      go (some (some pte, k')) = refl

  unmap_loop-Unmapped :
      (n x : ℕ) (k : Kmem)
      → (x + n) * 4096 ≤ maxva
      → Rooted root k
      → Unmapped root x n k (unmap_loop end n root (x * 4096) false k)
  unfolding unmap_loop
  unmap_loop-Unmapped zero x k room rooted = (
    rooted,
    λ j low. absurd (omega arith),
    λ va low.
        let c : (leb x (va / 4096) && ltb (va / 4096) (x + 0)) ≡ false = ground arith in
        sym (ap (λ z. if z then 0 else look 2 root va k.words) c),
  )
  unmap_loop-Unmapped (suc n) x k room rooted =
      subst (Unmapped root x (suc n) k) (sym (unmap_loop-round n (x * 4096) k)) (
        subst (λ o. Unmapped root x (suc n) k (round_end n (x * 4096) o))
          (sym (walk-place root (x * 4096) k low))
          (go (place 2 root (x * 4096) k.words) refl
            λ k2 rooted2. unmap_loop-Unmapped n (x + 1) k2 (omega arith) rooted2))
    where
      low : x * 4096 < maxva
      low = omega arith

      first_page : x * 4096 ≡ (x + 0) * 4096
      first_page = omega arith

      go :
          (o : Option ℕ)
          → place 2 root (x * 4096) k.words ≡ o
          → ((k2 : Kmem)
              → Rooted root k2
              → Unmapped root (x + 1) n k2 (unmap_loop end n root ((x + 1) * 4096) false k2))
          → Unmapped root x (suc n) k (round_end n (x * 4096) (some (o, k)))
      go none e ih =
          let word : look 2 root (x * 4096) k.words ≡ 0 =
            look-place 2 root (x * 4096) k.words ∙ rw e refl in
          (
            0,
            omega arith,
            subst (λ va. no_leaf (look 2 root va k.words) ≡ true) first_page (ap no_leaf word),
          )
      go (some a) e ih =
          let word : look 2 root (x * 4096) k.words ≡ k.words a =
            look-place 2 root (x * 4096) k.words ∙ rw e refl in
          let (rooted2, cleared) = Cleared-one root x a k rooted low e in
          let next : (x + 1) * 4096 ≡ x * 4096 + pgsize = omega arith in
          elim (Bool-cases (no_leaf (k.words a))) [
            | inl bad ↦
                rw (round_end, bad)
                  (
                    0,
                    omega arith,
                    subst (λ va. no_leaf (look 2 root va k.words) ≡ true) first_page
                        (ap no_leaf word ∙ bad),
                  )
            | inr good ↦
                rw (round_end, good)
                  (Unmapped-first root x n k (store a 0 k) _ (ap no_leaf word ∙ good) cleared
                    (omega arith) (rw next at (ih (store a 0 k) rooted2)))
          ]

-- `uvmunmap` that frees nothing, of aligned pages that end at MAXVA at most, in a tree of tables:
-- each page of the range was mapped and is not then, every other address is mapped as before, and
-- what is left is a tree of tables; it panics only where a page of the range is not mapped.
pub uvmunmap-Unmapped :
    (end root x n : ℕ) (k : Kmem)
    → (x + n) * 4096 ≤ maxva
    → Rooted root k
    → Unmapped root x n k (uvmunmap end root (x * 4096) n false k)
unfolding uvmunmap
uvmunmap-Unmapped end root x n k room rooted =
    let aligned : (x * 4096 % pgsize == 0) ≡ true = ground arith in
    rw (uvmunmap, aligned) (unmap_loop-Unmapped end root n x k room rooted)
