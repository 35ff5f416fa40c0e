-- ===== src/Vm/Map.antt =====
-- `mappages` on what a page table maps.
use mathlib.Core.Path.{subst}
use xv6_learn.Common.{
  ℕ, zero, suc, ◌+◌, ◌-◌, ◌*◌, ◌/◌, ◌%◌, ◌^◌, ◌≤◌, ◌<◌, ◌≡◌, inl, inr, refl, ap, sym, ◌∙◌, arith,
  Bool, true, false, ◌&&◌, Option, none, some, ◌==◌, ltb, leb, if◌then◌else◌, Bool-cases,
}
use xv6_learn.Kalloc.{Kmem, pgsize}
use xv6_learn.Vm.{maxva, valid, leaf, store, walk, walk_loop, map_loop, mappages}
use xv6_learn.Vm.Lookup.{look, look-place}
use xv6_learn.Vm.Walk.{Walked, walk_loop-Walked}
use xv6_learn.Vm.Leaf.{look-stored, store-Tree}
use xv6_learn.Vm.Ranges.{Rooted, Maps, Mapped, Mapped-first}

-- One page: the PTE that `walk` finds is that of the page, and the store of a leaf in it maps it.
module _ (root x pa perm : ℕ) (k : Kmem) (rooted : Rooted root k) (low : x * 4096 < maxva) where
  abbrev va : ℕ
  va = x * 4096

  abbrev r : Option ℕ × Kmem
  r = walk_loop 2 root va true k

  walked : Walked rooted.tag 2 root va k r.0 r.1
  walked = walk_loop-Walked rooted.tag rooted.free 2 root 0 va k rooted.tree rooted.top

  Rooted-walked : Rooted root r.1
  Rooted-walked = record {
    tag = walked.tag';
    free = walked.free';
    tree = walked.tree';
    top = walked.old root (2, 0) rooted.top;
  }

  walked-same : (va' : ℕ) → look 2 root va' r.1.words ≡ look 2 root va' k.words
  walked-same va' = walked.same root 2 0 va' rooted.top

  walked-word : (a : ℕ) → r.0 ≡ some a → r.1.words a ≡ look 2 root va k.words
  walked-word a e =
      sym (look-place 2 root va r.1.words ∙ rw (walked.found a e) refl) ∙ walked-same va

  abbrev leafed : ℕ → Kmem
  leafed a = store a (leaf pa perm) r.1

  Rooted-leafed : (a : ℕ) → r.0 ≡ some a → Rooted root (leafed a)
  Rooted-leafed a e = record {
    tag = walked.tag';
    free = walked.free';
    tree =
        store-Tree walked.tag' walked.free' r.1 walked.tree' root va (leaf pa perm) a
          (walked.old root (2, 0) rooted.top) low (walked.found a e);
    top = walked.old root (2, 0) rooted.top;
  }

  Maps-leafed : (a : ℕ) → r.0 ≡ some a → Maps root x 1 pa perm k (leafed a)
  Maps-leafed a e va' low' =
      let y : va / 4096 ≡ x = omega arith in
      look-stored walked.tag' walked.free' r.1 walked.tree' root va (leaf pa perm) a va'
        (walked.old root (2, 0) rooted.top) low low' (walked.found a e)
      ∙ elim (Bool-cases (va' / 4096 == x)) [
        | inl here ↦
            (let c : (leb x (va' / 4096) && ltb (va' / 4096) (x + 1)) ≡ true = ground arith in
              let d : pa + (va' / 4096 - x) * 4096 ≡ pa = ground arith in rw (y, here, c, d) refl)
        | inr there ↦
            (let c : (leb x (va' / 4096) && ltb (va' / 4096) (x + 1)) ≡ false = ground arith in
              rw (y, there, c) (walked-same va'))
      ]

  no_page :
      (k1 : Kmem) → r ≡ (none, k1) → Rooted root k1 × (k1.freelist ≡ 0) × Maps root x 0 pa perm k k1
  no_page k1 e =
      subst (λ k'. Rooted root k' × (k'.freelist ≡ 0) × Maps root x 0 pa perm k k')
        (ap (λ q. q.1) e)
        (
          Rooted-walked,
          walked.full (ap (λ q. q.0) e),
          λ va' low'.
              let c : (leb x (va' / 4096) && ltb (va' / 4096) (x + 0)) ≡ false = ground arith in
              walked-same va'
              ∙ sym (
                  ap
                    (λ b.
                      if b
                      then leaf (pa + (va' / 4096 - x) * 4096) perm
                      else look 2 root va' k.words)
                    c),
        )

  found_word : (a : ℕ) (k1 : Kmem) → r ≡ (some a, k1) → k1.words a ≡ look 2 root va k.words
  found_word a k1 e =
      subst (λ k'. k'.words a ≡ look 2 root va k.words) (ap (λ q. q.1) e)
        (walked-word a (ap (λ q. q.0) e))

  found_leaf :
      (a : ℕ) (k1 : Kmem)
      → r ≡ (some a, k1)
      → let k2 = store a (leaf pa perm) k1 in Rooted root k2 × Maps root x 1 pa perm k k2
  found_leaf a k1 e =
      subst
        (λ k'.
          Rooted root (store a (leaf pa perm) k')
          × Maps root x 1 pa perm k (store a (leaf pa perm) k'))
        (ap (λ q. q.1) e) (Rooted-leafed a (ap (λ q. q.0) e), Maps-leafed a (ap (λ q. q.0) e))

walk-low :
    (root va : ℕ) (k : Kmem) → va < maxva → walk root va true k ≡ some (walk_loop 2 root va true k)
unfolding walk
walk-low root va k low = let h : leb maxva va ≡ false = ground arith in rw h refl

-- A round of `map_loop` with the result of its `walk`.
abbrev round_end : (fuel table a last pa perm : ℕ) → Option (Option ℕ × Kmem) → Option (Bool × Kmem)
round_end fuel table a last pa perm none = none
round_end fuel table a last pa perm (some (none, k)) = some (false, k)
round_end fuel table a last pa perm (some (some pte, k)) = elim (valid (k.words pte)) [
  | true ↦ none
  | false ↦ elim (a == last) [
    | true ↦ some (true, store pte (leaf pa perm) k)
    | false ↦ map_loop fuel table (a + pgsize) last (pa + pgsize) perm (store pte (leaf pa perm) k)
  ]
]

map_loop-round :
    (fuel table a last pa perm : ℕ) (k : Kmem)
    → map_loop (suc fuel) table a last pa perm k
      ≡ round_end fuel table a last pa perm (walk table a true k)
unfolding map_loop
map_loop-round fuel table a last pa perm k = go (walk table a true k)
  where
    go :
        (o : Option (Option ℕ × Kmem))
        → (elim o [
          | none ↦ none
          | some (none, k') ↦ some (false, k')
          | some (some pte, k') ↦ elim (valid (k'.words pte)) [
            | true ↦ none
            | false ↦ elim (a == last) [
              | true ↦ some (true, store pte (leaf pa perm) k')
              | false ↦
                  map_loop fuel table
                    (a + pgsize)
                    last
                    (pa + pgsize)
                    perm
                    (store pte (leaf pa perm) k')
            ]
          ]
        ])
          ≡ round_end fuel table a last pa perm o
    go none = refl
    go (some (none, k')) = refl
    go (some (some pte, k')) = refl

map_loop-Mapped :
    (fuel root x n pa perm : ℕ) (k : Kmem)
    → n < fuel
    → (x + n) * 4096 < maxva
    → Rooted root k
    → Mapped root x (n + 1) pa perm k (map_loop fuel root (x * 4096) ((x + n) * 4096) pa perm k)
map_loop-Mapped zero root x n pa perm k f room rooted = absurd (omega arith)
map_loop-Mapped (suc fuel) root x n pa perm k f room rooted =
    subst Ends (sym (map_loop-round fuel root (x * 4096) ((x + n) * 4096) pa perm k)) (
      subst (λ o. Ends (round_end fuel root (x * 4096) ((x + n) * 4096) pa perm o))
        (sym (walk-low root (x * 4096) k low))
        (go (walk_loop 2 root (x * 4096) true k) refl λ k2 more rooted2.
          map_loop-Mapped fuel root (x + 1) (n - 1) (pa + pgsize) perm k2 (omega (arith, more))
            (omega (arith, more)) rooted2))
  where
    low : x * 4096 < maxva
    low = omega arith

    Ends : Option (Bool × Kmem) → Type 0
    Ends o = Mapped root x (n + 1) pa perm k o

    go :
        (q : Option ℕ × Kmem)
        → walk_loop 2 root (x * 4096) true k ≡ q
        → ((k2 : Kmem)
            → 1 ≤ n
            → Rooted root k2
            → Mapped root (x + 1) (n - 1 + 1) (pa + pgsize) perm k2 (
                map_loop fuel root
                  ((x + 1) * 4096)
                  ((x + 1 + (n - 1)) * 4096)
                  (pa + pgsize)
                  perm
                  k2))
        → Ends (round_end fuel root (x * 4096) ((x + n) * 4096) pa perm (some q))
    go (none, k1) e ih =
        let (rooted1, full, maps) = no_page root x pa perm k rooted low k1 e in
        (rooted1, full, (0, omega arith, maps))
    go (some a, k1) e ih =
        let word = found_word root x pa perm k rooted low a k1 e in
        let k2 = store a (leaf pa perm) k1 in
        let (rooted2, maps) = found_leaf root x pa perm k rooted low a k1 e in
        elim (Bool-cases (valid (k1.words a))) [
          | inl busy ↦
              rw (round_end, busy)
                (
                  0,
                  omega arith,
                  subst (λ y. valid (look 2 root (y * 4096) k.words) ≡ true) (omega arith)
                      (ap valid (sym word) ∙ busy),
                )
          | inr empty ↦ elim (Bool-cases (x * 4096 == (x + n) * 4096)) [
            | inl end ↦
                (let z : 1 ≡ n + 1 = ground arith in
                  rw (round_end, empty, end)
                    (rooted2, subst (λ j. Maps root x j pa perm k k2) z maps))
            | inr more ↦
                (let some_left : 1 ≤ n = ground arith in
                  let z : n - 1 + 1 ≡ n = omega (arith, some_left) in
                  let next : (x + 1) * 4096 ≡ x * 4096 + pgsize = omega arith in
                  let last : (x + 1 + (n - 1)) * 4096 ≡ (x + n) * 4096 = omega (arith, some_left) in
                  rw (round_end, empty, more)
                    (Mapped-first root x n pa perm k k2 _ maps room
                      (rw (z, next, last) at (ih k2 some_left rooted2))))
          ]
        ]

-- `mappages` of a range that is not empty and ends below MAXVA, in a tree of tables: it returns 0
-- with each page of the range mapped to the physical page of its place and every other address as
-- before; or -1 when no page is left for a table, with a first part of the range mapped; and it
-- panics only where a page of the range was mapped before. What is left is a tree of tables.
pub mappages-Mapped :
    (root va size pa perm : ℕ) (k : Kmem)
    → 1 ≤ size
    → va + size ≤ maxva
    → Rooted root k
    → let x = va / 4096 in
      Mapped root x ((va + size - 1) / 4096 - x + 1) pa perm k (mappages root va size pa perm k)
unfolding mappages
mappages-Mapped root va size pa perm k some_size low rooted =
    let x = va / 4096 in
    let n = (va + size - 1) / 4096 - x in
    let e : (va + size - 1) % 2 ^ 64 / pgsize * pgsize ≡ (x + n) * 4096 = omega arith in
    rw (mappages, e)
      (map_loop-Mapped (maxva / pgsize + 1) root x n pa perm k (omega arith) (omega arith) rooted)
