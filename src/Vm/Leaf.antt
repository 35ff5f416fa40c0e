-- ===== src/Vm/Leaf.antt =====
-- A store of a PTE in a table of the lowest level.
use mathlib.Core.Path.{subst}
use xv6_learn.Common.{
  ℕ, zero, suc, ◌+◌, ◌*◌, ◌/◌, ◌^◌, ◌<◌, ◌≡◌, ◌≢◌, inl, inr, refl, ap, sym, ◌∙◌, arith, true, false,
  Option, none, some, List, ◌==◌, if◌then◌else◌, update, update_self, update_ne, Bool-cases,
}
use xv6_learn.Kalloc.{Kmem}
use xv6_learn.Kalloc.Pages.{holds, Chain-frame}
use xv6_learn.Vm.{valid, pte2pa, px, store, maxva}
use xv6_learn.Vm.Tree.{Tags, Tree, pte-apart}
use xv6_learn.Vm.Lookup.{look, place, px_lt, look-place}

-- The bits of an address that a table of a level is for.
abbrev pub prefix : (level va : ℕ) → ℕ
prefix zero va = va / 2 ^ 21
prefix (suc zero) va = va / 2 ^ 30
prefix (suc (suc level)) va = va / 2 ^ 39

prefix-step :
    (level va : ℕ) → level < 2 → prefix (suc level) va * 512 + px (suc level) va ≡ prefix level va
prefix-step zero va h = omega arith
prefix-step (suc zero) va h = omega arith
prefix-step (suc (suc level)) va h = absurd (omega arith)

px-page : (level va va' : ℕ) → level < 3 → va / 4096 ≡ va' / 4096 → px level va ≡ px level va'
px-page zero va va' h e = omega arith
px-page (suc zero) va va' h e = omega arith
px-page (suc (suc zero)) va va' h e = omega arith
px-page (suc (suc (suc level))) va va' h e = absurd (omega arith)

place-page :
    (level t va va' : ℕ) (m : ℕ → ℕ)
    → level < 3
    → va / 4096 ≡ va' / 4096
    → place level t va m ≡ place level t va' m
place-page zero t va va' m h e = rw (px-page 0 va va' h e) refl
place-page (suc level) t va va' m h e =
    let j = px (suc level) va' in
    rw (px-page (suc level) va va' h e) (
      ap (λ o. if valid (m (t + 8 * j)) then o else none)
        (place-page level (pte2pa (m (t + 8 * j))) va va' m (omega arith) e))

module _ (tag : Tags) (free : List ℕ) (k : Kmem) (tree : Tree tag free k) where
  -- The place of a PTE is in the table for its address.
  place-table :
      (level t va b : ℕ)
      → level < 3
      → tag t ≡ some (level, prefix level va)
      → place level t va k.words ≡ some b
      → (u : ℕ) × (tag u ≡ some (0, va / 2 ^ 21)) × (b ≡ u + 8 * px 0 va)
  place-table zero t va b low h e = (t, h, cc (e))
  place-table (suc level) t va b low h e =
      elim (Bool-cases (valid (k.words (t + 8 * px (suc level) va)))) [
        | inr hole ↦ cc (rw hole at e)
        | inl there ↦
            place-table level (pte2pa (k.words (t + 8 * px (suc level) va))) va b (omega arith)
              (tree.child t level (prefix (suc level) va) (px (suc level) va) h
                  (px_lt (suc level) va) there
                ∙ ap (λ p. some (level, p)) (prefix-step level va (omega arith)))
              (rw there at e)
      ]

  module _ (pt q i w : ℕ) (table : tag pt ≡ some (0, q)) (inside : i < 512) where
    abbrev pub stored : Kmem
    stored = store (pt + 8 * i) w k

    above :
        (t l p j : ℕ)
        → tag t ≡ some (suc l, p)
        → j < 512
        → stored.words (t + 8 * j) ≡ k.words (t + 8 * j)
    above t l p j h r = update_ne k.words (pt + 8 * i) w (t + 8 * j) (
        pte-apart pt i t j (tree.aligned pt 0 q table) (tree.aligned t (suc l) p h) inside r
          (inl (λ e. cc (ap tag e, table, h))))

    place-stored :
        (level t p va : ℕ)
        → tag t ≡ some (level, p)
        → place level t va stored.words ≡ place level t va k.words
    place-stored zero t p va h = refl
    place-stored (suc level) t p va h =
        let j = px (suc level) va in
        let same = above t level p j h (px_lt (suc level) va) in
        elim (Bool-cases (valid (k.words (t + 8 * j)))) [
          | inr hole ↦ rw (same, hole) refl
          | inl there ↦
              rw (same, there)
                (place-stored level (pte2pa (k.words (t + 8 * j))) (p * 512 + j) va
                  (tree.child t level p j h (px_lt (suc level) va) there))
        ]

    free_kept : (x : ℕ) → holds free x ≡ true → stored.words x ≡ k.words x
    free_kept x h =
        let (a, untagged) = tree.pages x h in
        update_ne k.words (pt + 8 * i) w x (λ e.
          let same : x ≡ pt = omega (arith, a, e, tree.aligned pt 0 q table, inside) in
          cc (ap tag same, untagged, table))

    pub stored-Tree : Tree tag free stored
    stored-Tree = record {
      aligned = tree.aligned;
      child = λ t l p j h r v.
          let same = above t l p j h r in
          ap (λ y. tag (pte2pa y)) same ∙ tree.child t l p j h r (ap valid (sym same) ∙ v);
      chain = Chain-frame k.words stored.words k.freelist free free_kept tree.chain;
      apart = tree.apart;
      pages = tree.pages;
    }

  -- Two addresses with one PTE are in one page.
  one_page :
      (root va va' a : ℕ)
      → tag root ≡ some (2, 0)
      → va < maxva
      → va' < maxva
      → place 2 root va k.words ≡ some a
      → place 2 root va' k.words ≡ some a
      → va' / 4096 ≡ va / 4096
  one_page root va va' a r low low' e e' =
      let (t, h, at) =
        place-table 2 root va a (omega arith) (r ∙ ap (λ p. some (2, p)) (omega arith)) e in
      let (t', h', at') =
        place-table 2 root va' a (omega arith) (r ∙ ap (λ p. some (2, p)) (omega arith)) e' in
      let i = px 0 va in
      let i' = px 0 va' in
      let p = px_lt 0 va in
      let p' = px_lt 0 va' in
      let x = tree.aligned t 0 (va / 2 ^ 21) h in
      let x' = tree.aligned t' 0 (va' / 2 ^ 21) h' in
      let same : t ≡ t' = omega (arith, at, at', x, x', p, p') in
      let same_i : i ≡ i' = omega (arith, at, at', same) in
      let q : va / 2 ^ 21 ≡ va' / 2 ^ 21 = cc (ap tag same, h, h') in omega (arith, q, same_i)

  -- The store changes the PTE of one page.
  pub look-stored :
      (root va w a va' : ℕ)
      → tag root ≡ some (2, 0)
      → va < maxva
      → va' < maxva
      → place 2 root va k.words ≡ some a
      → look 2 root va' (store a w k).words
        ≡ (if va' / 4096 == va / 4096 then w else look 2 root va' k.words)
  look-stored root va w a va' r low low' e =
      let (pt, h, at) =
        place-table 2 root va a (omega arith) (r ∙ ap (λ p. some (2, p)) (omega arith)) e in
      let moved =
        subst (λ b. place 2 root va' (update k.words b w) ≡ place 2 root va' k.words) (sym at)
          (place-stored pt (va / 2 ^ 21) (px 0 va) w h (px_lt 0 va) 2 root 0 va' r) in
      let after =
        look-place 2 root va' (store a w k).words
        ∙ ap (λ (o : Option ℕ). elim o [ none ↦ 0 | some b ↦ update k.words a w b ]) moved in
      elim (Bool-cases (va' / 4096 == va / 4096)) [
        | inl same ↦ rw same (
            after
            ∙ ap (λ (o : Option ℕ). elim o [ none ↦ 0 | some b ↦ update k.words a w b ])
                (place-page 2 root va' va k.words (omega arith) (ground arith) ∙ e)
            ∙ update_self k.words a w)
        | inr other ↦ rw other (after ∙ go other (place 2 root va' k.words) refl)
      ]
    where
      go :
          (va' / 4096 == va / 4096) ≡ false
          → (o : Option ℕ) → place 2 root va' k.words ≡ o
          → (elim o [ none ↦ 0 | some b ↦ update k.words a w b ]) ≡ look 2 root va' k.words
      go other none e' = sym (look-place 2 root va' k.words ∙ rw e' refl)
      go other (some b) e' =
          let ne : a ≢ b = λ z.
            let p = one_page root va va' a r low low' e (e' ∙ ap some (sym z)) in
            ground (arith, p) in
          update_ne k.words a w b ne ∙ sym (look-place 2 root va' k.words ∙ rw e' refl)

  pub store-Tree :
      (root va w a : ℕ)
      → tag root ≡ some (2, 0)
      → va < maxva
      → place 2 root va k.words ≡ some a
      → Tree tag free (store a w k)
  store-Tree root va w a r low e =
      let (pt, h, at) =
        place-table 2 root va a (omega arith) (r ∙ ap (λ p. some (2, p)) (omega arith)) e in
      subst (λ b. Tree tag free (store b w k)) (sym at)
        (stored-Tree pt (va / 2 ^ 21) (px 0 va) w h (px_lt 0 va))
