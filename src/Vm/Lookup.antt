-- ===== src/Vm/Lookup.antt =====
-- What a page table maps an address to, and `walk` on it.
use xv6_learn.Common.{
  ℕ, zero, suc, ◌+◌, ◌*◌, ◌<◌, ◌≡◌, inl, inr, refl, ap, sym, ◌∙◌, arith, false, ◌&&◌, Option, none,
  some, List, ◌∷◌, ◌==◌, if◌then◌else◌, Bool-cases,
}
use xv6_learn.Kalloc.{Kmem}
use xv6_learn.Vm.{valid, pa2pte, pte2pa, px, walk_loop}
use xv6_learn.Vm.Tree.{
  Tags, Tree, grown, pte2pa-pa2pte, valid-pa2pte, grow-frame, grow-here, grow-zero,
}

-- The PTE for `va` in the table at `t`, and 0 where a table is missing on the way to it.
abbrev pub look : (level t va : ℕ) → (ℕ → ℕ) → ℕ
look zero t va m = m (t + 8 * px 0 va)
look (suc level) t va m =
    let pte = m (t + 8 * px (suc level) va) in
    let below = look level (pte2pa pte) va m in if valid pte then below else 0

-- The address of that PTE.
abbrev pub place : (level t va : ℕ) → (ℕ → ℕ) → Option ℕ
place zero t va m = some (t + 8 * px 0 va)
place (suc level) t va m =
    let pte = m (t + 8 * px (suc level) va) in
    let below = place level (pte2pa pte) va m in if valid pte then below else none

pub px_lt : (level va : ℕ) → px level va < 512
px_lt level va = omega arith

-- `walk` without `alloc` finds the place and changes nothing.
pub walk_loop-place :
    (level t va : ℕ) (k : Kmem) → walk_loop level t va false k ≡ (place level t va k.words, k)
unfolding walk_loop
walk_loop-place zero t va k = refl
walk_loop-place (suc level) t va k =
    elim (Bool-cases (valid (k.words (t + 8 * px (suc level) va)))) [
      | inl there ↦
          rw (walk_loop, there)
            (walk_loop-place level (pte2pa (k.words (t + 8 * px (suc level) va))) va k)
      | inr hole ↦ rw (walk_loop, hole) refl
    ]

pub look-place :
    (level t va : ℕ) (m : ℕ → ℕ)
    → look level t va m ≡ elim (place level t va m) [ none ↦ 0 | some a ↦ m a ]
look-place zero t va m = refl
look-place (suc level) t va m = elim (Bool-cases (valid (m (t + 8 * px (suc level) va)))) [
  | inl there ↦ rw there (look-place level (pte2pa (m (t + 8 * px (suc level) va))) va m)
  | inr hole ↦ rw hole refl
]

-- A table of zeros maps nothing.
look-zero :
    (level r va : ℕ) (m : ℕ → ℕ) → ((j : ℕ) → j < 512 → m (r + 8 * j) ≡ 0) → look level r va m ≡ 0
look-zero zero r va m h = h (px 0 va) (px_lt 0 va)
look-zero (suc level) r va m h = rw (h (px (suc level) va) (px_lt (suc level) va)) refl

module _ (tag : Tags) (r : ℕ) (free : List ℕ) (k k' : Kmem) (t l p i : ℕ)
    (tree : Tree tag (r ∷ free) k) (table : tag t ≡ some (suc l, p)) (inside : i < 512)
    (rest : k'.freelist ≡ k.words r) (words : k'.words ≡ grown r (t + 8 * i) k.words)
    (hole : valid (k.words (t + 8 * i)) ≡ false) where
  -- A new table changes no PTE that a table leads to.
  pub look-grow :
      (l' u p' va : ℕ) → tag u ≡ some (l', p') → look l' u va k'.words ≡ look l' u va k.words
  look-grow zero u p' va h =
      grow-frame tag r free k k' t l p i tree table inside rest words hole u 0 p' (px 0 va) h
        (px_lt 0 va) (inl (λ e. cc (ap tag e, table, h)))
  look-grow (suc l') u p' va h =
      let j = px (suc l') va in
      elim (Bool-cases (t == u && i == j)) [
        | inl same ↦
            (let a : t ≡ u = ground arith in
              let b : i ≡ j = ground arith in
              let e : t + 8 * i ≡ u + 8 * j = ground arith in
              let old : valid (k.words (u + 8 * j)) ≡ false =
                ap (λ x. valid (k.words x)) (sym e) ∙ hole in
              let w : k'.words (u + 8 * j) ≡ pa2pte r + 1 =
                ap k'.words (sym e)
                ∙ grow-here tag r free k k' t l p i tree table inside rest words hole in
              let z = grow-zero tag r free k k' t l p i tree table inside rest words hole in
              let q = pte2pa-pa2pte r (tree.pages r (ground arith)).0 in
              rw (old, w, valid-pa2pte r, q) (look-zero l' r va k'.words z))
        | inr apart ↦
            (let w =
                grow-frame tag r free k k' t l p i tree table inside rest words hole u (suc l') p' j
                  h (px_lt (suc l') va) (ground arith) in
              elim (Bool-cases (valid (k.words (u + 8 * j)))) [
                | inr empty ↦ rw (w, empty) refl
                | inl there ↦
                    rw (w, there)
                      (look-grow l' (pte2pa (k.words (u + 8 * j))) (p' * 512 + j) va
                        (tree.child u l' p' j h (px_lt (suc l') va) there))
              ])
      ]
