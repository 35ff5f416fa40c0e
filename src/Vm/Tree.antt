-- ===== src/Vm/Tree.antt =====
-- The page-table pages of one tree of tables, and what a new table changes.
use mathlib.Core.Path.{subst}
use xv6_learn.Common.{
  ℕ, suc, ◌+◌, ◌*◌, ◌%◌, ◌≤◌, ◌<◌, ◌≡◌, ◌≢◌, ◌⊎◌, inl, inr, ap, sym, ◌∙◌, arith, true, false, ◌&&◌,
  Option, none, some, List, ◌∷◌, ◌==◌, ltb, update, update_self, update_ne, Bool-cases,
}
use xv6_learn.Kalloc.{Kmem, pgsize, fives, fill_page}
use xv6_learn.Kalloc.Pages.{holds, AllApart, Chain, Chain-frame}
use xv6_learn.Vm.{valid, pa2pte, pte2pa}

-- The pages that are tables, each with its level and the bits of the addresses that it is for.
abbrev pub Tags : Type 0
Tags = ℕ → Option (ℕ × ℕ)

-- The tables of a tree: a valid PTE above the lowest level leads to the table for its addresses, and
-- no table is on the free list.
pub record Tree (tag : Tags) (free : List ℕ) (k : Kmem) : Type 0 where
  pub aligned : (t l p : ℕ) → tag t ≡ some (l, p) → t % pgsize ≡ 0
  pub child :
      (t l p i : ℕ)
      → tag t ≡ some (suc l, p)
      → i < 512
      → valid (k.words (t + 8 * i)) ≡ true
      → tag (pte2pa (k.words (t + 8 * i))) ≡ some (l, p * 512 + i)
  pub chain : Chain k.words k.freelist free
  pub apart : AllApart free
  pub pages : (x : ℕ) → holds free x ≡ true → (x % pgsize ≡ 0) × (tag x ≡ none)

-- What `kalloc` of page `r`, `memset` and the store of a PTE for it at `a` leave in memory.
abbrev pub grown : (r a : ℕ) → (ℕ → ℕ) → ℕ → ℕ
grown r a m = update (fill_page r 0 (fill_page r fives m)) a (pa2pte r + 1)

pub grown-frame :
    (r a : ℕ) (m : ℕ → ℕ) (x : ℕ) → x ≢ a → (x < r) ⊎ (r + pgsize ≤ x) → grown r a m x ≡ m x
grown-frame r a m x ne out =
    update_ne (fill_page r 0 (fill_page r fives m)) a (pa2pte r + 1) x (λ e. ne (sym e))
    ∙ ground arith

pub grown-zero : (r a : ℕ) (m : ℕ → ℕ) (x : ℕ) → x ≢ a → r ≤ x → x < r + pgsize → grown r a m x ≡ 0
grown-zero r a m x ne low high =
    update_ne (fill_page r 0 (fill_page r fives m)) a (pa2pte r + 1) x (λ e. ne (sym e))
    ∙ ground arith

pub pte2pa-pa2pte : (r : ℕ) → r % pgsize ≡ 0 → pte2pa (pa2pte r + 1) ≡ r
pte2pa-pa2pte r h = omega arith

pub valid-pa2pte : (r : ℕ) → valid (pa2pte r + 1) ≡ true
valid-pa2pte r = ground arith

-- Two PTEs of tables stand at two addresses, and not in a page that is no table.
pub pte-apart :
    (t i u j : ℕ)
    → t % pgsize ≡ 0
    → u % pgsize ≡ 0
    → i < 512
    → j < 512
    → (t ≢ u) ⊎ (i ≢ j)
    → t + 8 * i ≢ u + 8 * j
pte-apart t i u j a b p q (inl h) e = h (omega arith)
pte-apart t i u j a b p q (inr h) e = h (omega arith)

pub pte-outside :
    (t i r : ℕ)
    → t % pgsize ≡ 0
    → r % pgsize ≡ 0
    → i < 512
    → t ≢ r
    → (t + 8 * i < r) ⊎ (r + pgsize ≤ t + 8 * i)
pte-outside t i r a b p ne = elim (Bool-cases (ltb t r)) [
  | inl low ↦ inl (ground arith)
  | inr high ↦ inr (ground arith)
]

module _ (tag : Tags) (r : ℕ) (free : List ℕ) (k k' : Kmem) (t l p i : ℕ)
    (tree : Tree tag (r ∷ free) k) (table : tag t ≡ some (suc l, p)) (inside : i < 512)
    (rest : k'.freelist ≡ k.words r) (words : k'.words ≡ grown r (t + 8 * i) k.words)
    (hole : valid (k.words (t + 8 * i)) ≡ false) where
  abbrev pub new_tag : Tags
  new_tag = update tag r (some (l, p * 512 + i))

  fresh : (r % pgsize ≡ 0) × (tag r ≡ none)
  fresh = tree.pages r (ground arith)

  tagged_apart : (u : ℕ) {x : ℕ × ℕ} → tag u ≡ some x → u ≢ r
  tagged_apart u h e = cc (ap tag e, fresh.1)

  -- The tables of before keep their words, but the one that changes.
  pub grow-frame :
      (u l' p' j : ℕ)
      → tag u ≡ some (l', p')
      → j < 512
      → (t ≢ u) ⊎ (i ≢ j)
      → k'.words (u + 8 * j) ≡ k.words (u + 8 * j)
  grow-frame u l' p' j h q ne =
      ap (λ (m : ℕ → ℕ). m (u + 8 * j)) words
      ∙ grown-frame r (t + 8 * i) k.words (u + 8 * j)
          (λ e.
            pte-apart t i u j (tree.aligned t (suc l) p table) (tree.aligned u l' p' h) inside q ne
              (sym e))
          (pte-outside u j r (tree.aligned u l' p' h) fresh.0 q (tagged_apart u h))

  pub grow-here : k'.words (t + 8 * i) ≡ pa2pte r + 1
  grow-here =
      ap (λ (m : ℕ → ℕ). m (t + 8 * i)) words
      ∙ update_self (fill_page r 0 (fill_page r fives k.words)) (t + 8 * i) (pa2pte r + 1)

  pub grow-zero : (j : ℕ) → j < 512 → k'.words (r + 8 * j) ≡ 0
  grow-zero j q =
      ap (λ (m : ℕ → ℕ). m (r + 8 * j)) words
      ∙ grown-zero r (t + 8 * i) k.words (r + 8 * j)
          (λ e.
            pte-apart t i r j (tree.aligned t (suc l) p table) fresh.0 inside q
              (inl (tagged_apart t table)) (sym e))
          (omega arith) (omega arith)

  pub new_tag-old : (u : ℕ) {x : ℕ × ℕ} → tag u ≡ some x → new_tag u ≡ some x
  new_tag-old u h = update_ne tag r (some (l, p * 512 + i)) u (λ e. tagged_apart u h (sym e)) ∙ h

  pub new_tag-new : new_tag r ≡ some (l, p * 512 + i)
  new_tag-new = update_self tag r (some (l, p * 512 + i))

  old_tag : (u : ℕ) {x : ℕ × ℕ} → new_tag u ≡ some x → r ≢ u → tag u ≡ some x
  old_tag u h ne = sym (update_ne tag r (some (l, p * 512 + i)) u ne) ∙ h

  grow-child :
      (u l' p' j : ℕ)
      → new_tag u ≡ some (suc l', p')
      → j < 512
      → valid (k'.words (u + 8 * j)) ≡ true
      → new_tag (pte2pa (k'.words (u + 8 * j))) ≡ some (l', p' * 512 + j)
  grow-child u l' p' j h q v = elim (Bool-cases (r == u)) [
    | inl new ↦
        (let e : r ≡ u = ground arith in
          let z : valid 0 ≡ true =
            ap valid (sym (grow-zero j q)) ∙ ap (λ y. valid (k'.words (y + 8 * j))) e ∙ v in
          cc (z))
    | inr old ↦
        (let h' = old_tag u h (ground arith) in
          elim (Bool-cases (t == u && i == j)) [
            | inl same ↦
                (let a : t ≡ u = ground arith in
                  let b : i ≡ j = ground arith in
                  let s : some (l, p * 512 + i) ≡ some (l', p' * 512 + j) =
                    cc (ap tag a, table, h', b) in
                  let w : k'.words (u + 8 * j) ≡ pa2pte r + 1 =
                    sym (ap (λ y. k'.words (y + 8 * j)) a)
                    ∙ sym (ap (λ y. k'.words (t + 8 * y)) b)
                    ∙ grow-here in
                  ap (λ y. new_tag (pte2pa y)) w
                  ∙ ap new_tag (pte2pa-pa2pte r fresh.0)
                  ∙ new_tag-new
                  ∙ s)
            | inr apart ↦
                (let w = grow-frame u (suc l') p' j h' q (ground arith) in
                  ap (λ y. new_tag (pte2pa y)) w
                  ∙ new_tag-old (pte2pa (k.words (u + 8 * j)))
                      (tree.child u l' p' j h' q (sym (ap valid w) ∙ v)))
          ])
  ]

  -- The free pages keep their words.
  grow-free : (x : ℕ) → holds free x ≡ true → k'.words x ≡ k.words x
  grow-free x h =
      let (a, untagged) = tree.pages x (ground arith) in
      let ne : x ≢ r = λ e. ground (arith, tree.apart.0, ap (holds free) e) in
      ap (λ (m : ℕ → ℕ). m x) words
      ∙ grown-frame r (t + 8 * i) k.words x
          (λ e.
            let same : x ≡ t = omega (arith, a, e, tree.aligned t (suc l) p table, inside) in
            cc (ap tag same, untagged, table))
          (elim (Bool-cases (ltb x r)) [
            | inl low ↦ inl (ground arith)
            | inr high ↦ inr (ground (arith, fresh.0))
          ])

  pub grow-Tree : Tree new_tag free k'
  grow-Tree = record {
    aligned = λ u l' p' h. elim (Bool-cases (r == u)) [
      | inl new ↦ ground (arith, fresh.0)
      | inr old ↦ tree.aligned u l' p' (old_tag u h (ground arith))
    ];
    child = grow-child;
    chain =
        subst (λ h. Chain k'.words h free) (sym rest)
          (Chain-frame k.words k'.words (k.words r) free grow-free tree.chain.1);
    apart = tree.apart.1;
    pages = λ x h.
        let (a, untagged) = tree.pages x (ground arith) in
        (
          a,
          update_ne tag r (some (l, p * 512 + i)) x
                (λ e. ground (arith, tree.apart.0, ap (holds free) e))
              ∙ untagged,
        );
  }
