-- ===== src/Vm/Ranges.antt =====
-- Ranges of pages that a page table maps.
use mathlib.Core.Path.{subst}
use xv6_learn.Common.{
  ℕ, ◌+◌, ◌-◌, ◌*◌, ◌/◌, ◌<◌, ◌≡◌, inl, inr, refl, ap, sym, ◌∙◌, arith, Bool, true, false, ◌&&◌,
  Option, none, some, List, ◌==◌, ltb, leb, if◌then◌else◌, Bool-cases,
}
use xv6_learn.Kalloc.{Kmem, pgsize}
use xv6_learn.Vm.{maxva, valid, leaf}
use xv6_learn.Vm.Tree.{Tags, Tree}
use xv6_learn.Vm.Lookup.{look}

-- The page table at `root`, with the tables and the free pages of before and after.
pub record Rooted (root : ℕ) (k : Kmem) : Type 0 where
  pub tag : Tags
  pub free : List ℕ
  pub tree : Tree tag free k
  pub top : tag root ≡ some (2, 0)

-- The pages from `x` on are mapped to those from `pa` on, `j` of them, and the others as before.
abbrev pub Maps : (root x j pa perm : ℕ) → (k k' : Kmem) → Type 0
Maps root x j pa perm k k' =
    (va : ℕ)
    → va < maxva
    → look 2 root va k'.words ≡ (
        if leb x (va / 4096) && ltb (va / 4096) (x + j)
        then leaf (pa + (va / 4096 - x) * 4096) perm
        else look 2 root va k.words)

-- What `mappages` of `n` pages from page `x` on comes to.
abbrev pub Mapped : (root x n pa perm : ℕ) → Kmem → Option (Bool × Kmem) → Type 0
Mapped root x n pa perm k none =
    (j : ℕ) × (j < n) × (valid (look 2 root ((x + j) * 4096) k.words) ≡ true)
Mapped root x n pa perm k (some (true, k')) = Rooted root k' × Maps root x n pa perm k k'
Mapped root x n pa perm k (some (false, k')) =
    Rooted root k' × (k'.freelist ≡ 0) × ((j : ℕ) × (j < n) × Maps root x j pa perm k k')

pub Maps-first :
    (root x j pa perm : ℕ) (k k1 k2 : Kmem)
    → Maps root x 1 pa perm k k1
    → Maps root (x + 1) j (pa + pgsize) perm k1 k2
    → Maps root x (j + 1) pa perm k k2
Maps-first root x j pa perm k k1 k2 first rest va low =
    let y = va / 4096 in
    rest va low ∙ elim (Bool-cases (y == x)) [
      | inl here ↦
          (let a : (leb (x + 1) y && ltb y (x + 1 + j)) ≡ false = ground arith in
            let b : (leb x y && ltb y (x + 1)) ≡ true = ground arith in
            let c : (leb x y && ltb y (x + (j + 1))) ≡ true = ground arith in
            rw (a, c) (first va low ∙ rw b refl))
      | inr there ↦
          (let b : (leb x y && ltb y (x + 1)) ≡ false = ground arith in
            elim (Bool-cases (leb (x + 1) y && ltb y (x + 1 + j))) [
              | inl inside ↦
                  (let c : (leb x y && ltb y (x + (j + 1))) ≡ true = ground arith in
                    let e : pa + pgsize + (y - (x + 1)) * 4096 ≡ pa + (y - x) * 4096 =
                      ground arith in
                    rw (inside, c) (ap (λ z. leaf z perm) e))
              | inr outside ↦
                  (let c : (leb x y && ltb y (x + (j + 1))) ≡ false = ground arith in
                    rw (outside, c) (first va low ∙ rw b refl))
            ])
    ]

pub Maps-outside :
    (root x j pa perm va : ℕ) (k k' : Kmem)
    → Maps root x j pa perm k k'
    → va < maxva
    → (leb x (va / 4096) && ltb (va / 4096) (x + j)) ≡ false
    → look 2 root va k'.words ≡ look 2 root va k.words
Maps-outside root x j pa perm va k k' maps low out =
    maps va low
    ∙ ap (λ c. if c then leaf (pa + (va / 4096 - x) * 4096) perm else look 2 root va k.words) out

pub Mapped-first :
    (root x n pa perm : ℕ) (k k1 : Kmem) (o : Option (Bool × Kmem))
    → Maps root x 1 pa perm k k1
    → (x + n) * 4096 < maxva
    → Mapped root (x + 1) n (pa + pgsize) perm k1 o
    → Mapped root x (n + 1) pa perm k o
Mapped-first root x n pa perm k k1 none first room (j, low, v) =
    let va = (x + 1 + j) * 4096 in
    let e : va ≡ (x + (j + 1)) * 4096 = omega arith in
    let y : va / 4096 ≡ x + 1 + j = omega arith in
    let b : (leb x (va / 4096) && ltb (va / 4096) (x + 1)) ≡ false = ground (arith, y) in
    let same = Maps-outside root x 1 pa perm va k k1 first (omega arith) b in
    (
      j + 1,
      omega arith,
      subst (λ z. valid (look 2 root z k.words) ≡ true) e (ap valid (sym same) ∙ v),
    )
Mapped-first root x n pa perm k k1 (some (true, k')) first room (rooted, maps) =
    (rooted, Maps-first root x n pa perm k k1 k' first maps)
Mapped-first root x n pa perm k k1 (some (false, k')) first room (rooted, full, (j, low, maps)) =
    (rooted, full, (j + 1, omega arith, Maps-first root x j pa perm k k1 k' first maps))
