-- ===== src/Vm/Walk.antt =====
-- `walk` with `alloc`: new tables, and no change of what the page table maps.
use mathlib.Core.Path.{subst}
use xv6_learn.Common.{
  ℕ, zero, suc, ◌+◌, ◌*◌, ◌<◌, ◌≡◌, refl, ap, sym, ◌∙◌, arith, true, false, ◌&&◌, Option, none,
  some, List, [], ◌∷◌, ◌==◌, Bool-cases, inl, inr,
}
use xv6_learn.Kalloc.{Kmem, fives, fill_page, kalloc}
use xv6_learn.Vm.{valid, pa2pte, pte2pa, px, store, clear_page, walk_loop}
use xv6_learn.Vm.Tree.{
  Tags, Tree, grown, valid-pa2pte, pte2pa-pa2pte, grow-frame, grow-here, new_tag, new_tag-old,
  new_tag-new, grow-Tree,
}
use xv6_learn.Vm.Lookup.{look, place, px_lt, look-grow}

-- What `walk` with `alloc` from the table at `t` comes to: the place of the PTE, or `none` where no
-- page is left. In a tree of tables it leaves a tree, that has the tables of before; these map what
-- they mapped, and their valid PTEs stay.
pub record Walked (tag : Tags) (level t va : ℕ) (k : Kmem) (o : Option ℕ) (k' : Kmem) : Type 0 where
  pub tag' : Tags
  pub free' : List ℕ
  pub tree' : Tree tag' free' k'
  pub old : (u : ℕ) (x : ℕ × ℕ) → tag u ≡ some x → tag' u ≡ some x
  pub same : (u l p va' : ℕ) → tag u ≡ some (l, p) → look l u va' k'.words ≡ look l u va' k.words
  pub ptes :
      (u l p j : ℕ)
      → tag u ≡ some (suc l, p)
      → j < 512
      → valid (k.words (u + 8 * j)) ≡ true
      → k'.words (u + 8 * j) ≡ k.words (u + 8 * j)
  pub found : (a : ℕ) → o ≡ some a → place level t va k'.words ≡ some a
  pub full : o ≡ none → k'.freelist ≡ 0

unchanged :
    (tag : Tags) (free : List ℕ) (level t va : ℕ) (k : Kmem) (o : Option ℕ)
    → Tree tag free k
    → ((a : ℕ) → o ≡ some a → place level t va k.words ≡ some a)
    → (o ≡ none → k.freelist ≡ 0)
    → Walked tag level t va k o k
unchanged tag free level t va k o tree found full = record {
  tag' = tag;
  free' = free;
  tree' = tree;
  old = λ u x h. h;
  same = λ u l p va' h. refl;
  ptes = λ u l p j h q v. refl;
  found = found;
  full = full;
}

-- One level down, where the PTE is valid.
through :
    (tag : Tags) (level t p va : ℕ) (k : Kmem) (o : Option ℕ) (k' : Kmem)
    → tag t ≡ some (suc level, p)
    → valid (k.words (t + 8 * px (suc level) va)) ≡ true
    → Walked tag level (pte2pa (k.words (t + 8 * px (suc level) va))) va k o k'
    → Walked tag (suc level) t va k o k'
through tag level t p va k o k' table there w = record {
  tag' = w.tag';
  free' = w.free';
  tree' = w.tree';
  old = w.old;
  same = w.same;
  ptes = w.ptes;
  found = λ a e.
      rw (w.ptes t level p (px (suc level) va) table (px_lt (suc level) va) there, there)
        (w.found a e);
  full = w.full;
}

-- The same after a new table at `r`.
module _ (tag : Tags) (r : ℕ) (free : List ℕ) (k k1 : Kmem) (t level p va : ℕ)
    (tree : Tree tag (r ∷ free) k) (table : tag t ≡ some (suc level, p))
    (rest : k1.freelist ≡ k.words r)
    (words : k1.words ≡ grown r (t + 8 * px (suc level) va) k.words)
    (hole : valid (k.words (t + 8 * px (suc level) va)) ≡ false) where
  abbrev here : ℕ
  here = px (suc level) va

  abbrev tag1 : Tags
  tag1 = new_tag tag r free k k1 t level p here tree table (px_lt (suc level) va) rest words hole

  kept : (u : ℕ) {x : ℕ × ℕ} → tag u ≡ some x → tag1 u ≡ some x
  kept u h =
      new_tag-old tag r free k k1 t level p here tree table (px_lt (suc level) va) rest words hole u
        h

  frame :
      (u l p' j : ℕ)
      → tag u ≡ some (suc l, p')
      → j < 512
      → valid (k.words (u + 8 * j)) ≡ true
      → k1.words (u + 8 * j) ≡ k.words (u + 8 * j)
  frame u l p' j h q v =
      grow-frame tag r free k k1 t level p here tree table (px_lt (suc level) va) rest words hole u
        (suc l) p' j h q
        (elim (Bool-cases (t == u && here == j)) [
          | inl same ↦
              (let e : t + 8 * here ≡ u + 8 * j = ground arith in
                cc (ap (λ x. valid (k.words x)) e, hole, v))
          | inr apart ↦ ground arith
        ])

  linked : k1.words (t + 8 * here) ≡ pa2pte r + 1
  linked =
      grow-here tag r free k k1 t level p here tree table (px_lt (suc level) va) rest words hole

  grown_table :
      (o : Option ℕ) (k' : Kmem)
      → Walked tag1 level r va k1 o k'
      → Walked tag (suc level) t va k o k'
  grown_table o k' w = record {
    tag' = w.tag';
    free' = w.free';
    tree' = w.tree';
    old = λ u x h. w.old u x (kept u h);
    same = λ u l p' va' h.
        w.same u l p' va' (kept u h)
        ∙ look-grow tag r free k k1 t level p here tree table (px_lt (suc level) va) rest words hole
            l u p' va' h;
    ptes = λ u l p' j h q v.
        w.ptes u l p' j (kept u h) q (ap valid (frame u l p' j h q v) ∙ v) ∙ frame u l p' j h q v;
    found = λ a e.
        let pte =
          w.ptes t level p here (kept t table) (px_lt (suc level) va)
            (ap valid linked ∙ valid-pa2pte r)
          ∙ linked in
        rw (pte, valid-pa2pte r, pte2pa-pa2pte r (tree.pages r (ground arith)).0) (w.found a e);
    full = w.full;
  }

  new-Tree : Tree tag1 free k1
  new-Tree =
      grow-Tree tag r free k k1 t level p here tree table (px_lt (suc level) va) rest words hole

step-there :
    (level t va : ℕ) (k : Kmem)
    → valid (k.words (t + 8 * px (suc level) va)) ≡ true
    → walk_loop (suc level) t va true k
      ≡ walk_loop level (pte2pa (k.words (t + 8 * px (suc level) va))) va true k
unfolding walk_loop
step-there level t va k there = rw (walk_loop, there) refl

-- The memory with a new table for the PTE at `a`.
abbrev with_table : (a : ℕ) → Kmem → Kmem
with_table a k = store a (pa2pte k.freelist + 1) (
    clear_page k.freelist
      (record { freelist = k.words k.freelist; words = fill_page k.freelist fives k.words }))

kalloc-none : (k : Kmem) → (k.freelist == 0) ≡ true → kalloc k ≡ (0, k)
unfolding kalloc
kalloc-none k h = rw h refl

kalloc-some :
    (k : Kmem)
    → (k.freelist == 0) ≡ false
    → kalloc k ≡ (
      k.freelist,
      record { freelist = k.words k.freelist; words = fill_page k.freelist fives k.words },
    )
unfolding kalloc
kalloc-some k h = rw h refl

-- What `walk_loop` does with the result of `kalloc`.
abbrev after_kalloc : (level a va : ℕ) → ℕ × Kmem → Option ℕ × Kmem
after_kalloc level a va (page, k') = elim (page == 0) [
  | true ↦ (none, k')
  | false ↦ walk_loop level page va true (store a (pa2pte page + 1) (clear_page page k'))
]

step-full :
    (level t va : ℕ) (k : Kmem)
    → valid (k.words (t + 8 * px (suc level) va)) ≡ false
    → (k.freelist == 0) ≡ true
    → walk_loop (suc level) t va true k ≡ (none, k)
unfolding walk_loop
step-full level t va k hole out =
    rw (walk_loop, hole)
      (ap (after_kalloc level (t + 8 * px (suc level) va) va) (kalloc-none k out))

step-new :
    (level t va : ℕ) (k : Kmem)
    → valid (k.words (t + 8 * px (suc level) va)) ≡ false
    → (k.freelist == 0) ≡ false
    → walk_loop (suc level) t va true k
      ≡ walk_loop level k.freelist va true (with_table (t + 8 * px (suc level) va) k)
unfolding walk_loop
step-new level t va k hole page =
    rw (walk_loop, hole)
      (ap (after_kalloc level (t + 8 * px (suc level) va) va) (kalloc-some k page)
        ∙ rw (after_kalloc, page) refl)

pub walk_loop-Walked :
    (tag : Tags) (free : List ℕ) (level t p va : ℕ) (k : Kmem)
    → Tree tag free k
    → tag t ≡ some (level, p)
    → let r = walk_loop level t va true k in Walked tag level t va k r.0 r.1
unfolding walk_loop
walk_loop-Walked tag free zero t p va k tree table =
    unchanged tag free zero t va k (some (t + 8 * px 0 va)) tree (λ a e. e) (λ e. cc)
walk_loop-Walked tag free (suc level) t p va k tree table =
    elim (Bool-cases (valid (k.words (t + 8 * px (suc level) va)))) [
      | inl there ↦
          (let next = pte2pa (k.words (t + 8 * px (suc level) va)) in
            let r = walk_loop level next va true k in
            subst Ends (sym (step-there level t va k there)) (
              through tag level t p va k r.0 r.1 table there (
                walk_loop-Walked tag free level next (p * 512 + px (suc level) va) va k tree
                  (tree.child t level p (px (suc level) va) table (px_lt (suc level) va) there))))
      | inr hole ↦ elim (Bool-cases (k.freelist == 0)) [
        | inl out ↦
            subst Ends (sym (step-full level t va k hole out))
              (unchanged tag free (suc level) t va k none tree (λ a e. cc) (λ e. ground arith))
        | inr page ↦ subst Ends (sym (step-new level t va k hole page)) (
            more free tree hole page
              λ tag1 free1 u q k1 tree1 h. walk_loop-Walked tag1 free1 level u q va k1 tree1 h)
      ]
    ]
  where
    Ends : Option ℕ × Kmem → Type 0
    Ends (o, k') = Walked tag (suc level) t va k o k'

    more :
        (free : List ℕ)
        → Tree tag free k
        → valid (k.words (t + 8 * px (suc level) va)) ≡ false
        → (k.freelist == 0) ≡ false
        → ((tag1 : Tags) (free1 : List ℕ) (u q : ℕ) (k1 : Kmem)
            → Tree tag1 free1 k1
            → tag1 u ≡ some (level, q)
            → let r = walk_loop level u va true k1 in Walked tag1 level u va k1 r.0 r.1)
        → Ends (walk_loop level k.freelist va true (with_table (t + 8 * px (suc level) va) k))
    more [] tree hole page ih = let z = tree.chain in absurd (ground arith)
    more (r ∷ free) tree hole page ih =
        let k1 = with_table (t + 8 * px (suc level) va) k in
        let tree' : Tree tag (k.freelist ∷ free) k =
          subst (λ x. Tree tag (x ∷ free) k) (sym tree.chain.0) tree in
        let q = walk_loop level k.freelist va true k1 in
        grown_table tag k.freelist free k k1 t level p va tree' table refl refl hole q.0 q.1 (
          ih
            (new_tag tag k.freelist free k k1 t level p (px (suc level) va) tree' table
              (px_lt (suc level) va) refl refl hole)
            free k.freelist (p * 512 + px (suc level) va) k1
            (new-Tree tag k.freelist free k k1 t level p va tree' table refl refl hole)
            (new_tag-new tag k.freelist free k k1 t level p (px (suc level) va) tree' table
              (px_lt (suc level) va) refl refl hole))
