-- ===== src/Kalloc/Owners.antt =====
-- Pages in use: calls of `kalloc` and `kfree` and writes into pages, in any order.
use mathlib.Core.Path.{subst}
use xv6_learn.Common.{
  ℕ, ◌+◌, ◌-◌, ◌%◌, ◌<◌, ◌≡◌, ◌↔◌, refl, true, false, Option, none, some, List, [], ◌∷◌, arith,
  ◌==◌, if◌then◌else◌, update, length, inl, inr, Bool-cases, Option-cases, update_self,
}
use xv6_learn.Kalloc.{Kmem, pgsize, ones, fives, fill_page, kfree, kalloc}
use xv6_learn.Kalloc.Pages.{
  holds, AllApart, AllPages, Chain, AllPages-holds, Chain-frame, fill_page-elsewhere, remove,
  holds-remove, AllApart-remove, AllPages-remove, length-remove,
}

-- The allocator, and the pages that it has handed out and not got back.
pub record System : Type 0 where
  pub kmem : Kmem
  pub held : List ℕ

-- `kalloc`, `kfree` of a page in use, and a store of a word into a page in use.
pub data Event : Type 0 where
  alloc : Event
  free : (pa : ℕ) → Event
  write : (addr word : ℕ) → Event

module _ (end : ℕ) where
  abbrev pub took : ℕ × Kmem → List ℕ → System
  took (r, k) held = record { kmem = k; held = if r == 0 then held else r ∷ held }

  -- `none` is a panic. An event on a page that is not in use does not occur.
  pub exec : Event → System → Option System
  exec alloc s = some (took (kalloc s.kmem) s.held)
  exec (free pa) s =
      if holds s.held pa
      then elim (kfree end pa s.kmem) [
        | none ↦ none
        | some k ↦ some (record { kmem = k; held = remove s.held pa })
      ]
      else some s
  exec (write addr word) s =
      if holds s.held (addr - addr % pgsize)
      then some (record s {
        kmem = record { freelist = s.kmem.freelist; words = update s.kmem.words addr word };
      })
      else some s

  pub run : List Event → System → Option System
  unfolding exec
  run [] s = some s
  run (e ∷ es) s = elim (exec e s) [ none ↦ none | some t ↦ run es t ]

  -- The free list runs through pages, each once; those in use are pages, each once, and none of
  -- them is free.
  pub record Inv (n : ℕ) (s : System) : Type 0 where
    pub pages : List ℕ
    pub chain : Chain s.kmem.words s.kmem.freelist pages
    pub apart : AllApart pages
    pub held_apart : AllApart s.held
    pub valid : AllPages end pages
    pub held_valid : AllPages end s.held
    pub disjoint : (x : ℕ) → holds pages x ≡ true → holds s.held x ≡ false
    pub total : length pages + length s.held ≡ n

  module _ (real : 0 < end) where
    kalloc_at :
        {n : ℕ} (k : Kmem) (held ps : List ℕ) (v : Inv n (record { kmem = k; held = held }))
        → v.pages ≡ ps
        → Inv n (took (kalloc k) held)
    unfolding kalloc
    kalloc_at k held [] v e =
        let end_of : k.freelist ≡ 0 = subst (Chain k.words k.freelist) e v.chain in
        let empty : (k.freelist == 0) ≡ true = ground (arith, end_of) in rw (empty, kalloc) v
    kalloc_at {n} k held (p ∷ ps) v e =
        let (at, rest) = (subst (Chain k.words k.freelist) e v.chain) in
        let (page, pages) = subst (AllPages end) e v.valid in
        let (once, apart) = subst AllApart e v.apart in
        let found : (k.freelist == 0) ≡ false = ground (arith, page) in
        let fresh : holds held p ≡ false = v.disjoint p (rw e (ground arith)) in
        rw (found, kalloc)
          (rw found (record {
            pages = ps;
            chain =
                Chain-frame k.words (fill_page k.freelist fives k.words) (k.words k.freelist) ps
                  (λ x i.
                    fill_page-elsewhere k.freelist fives k.words x (ground (arith, page))
                      (AllPages-holds end ps x pages i).0 (ground arith))
                  (rw at rest);
            apart = apart;
            held_apart = (rw at fresh, v.held_apart);
            valid = pages;
            held_valid = (rw at page, v.held_valid);
            disjoint = λ x i. ground (arith, v.disjoint x (rw e (ground arith)));
            total = ground (arith, v.total, e);
          }))

    kalloc-Inv : {n : ℕ} (s : System) → Inv n s → Inv n (took (kalloc s.kmem) s.held)
    unfolding kalloc
    kalloc-Inv s v = kalloc_at s.kmem s.held v.pages v refl

    kfree-Inv :
        {n : ℕ} (s : System) (pa : ℕ)
        → Inv n s
        → holds s.held pa ≡ true
        → (k : Kmem) × (kfree end pa s.kmem ≡ some k)
          × Inv n (record { kmem = k; held = remove s.held pa })
    unfolding kfree
    kfree-Inv s pa v h =
        let page = AllPages-holds end s.held pa v.held_valid h in
        let not_free : holds v.pages pa ≡ false = elim (Bool-cases (holds v.pages pa)) [
          | inl there ↦ cc (v.disjoint pa there)
          | inr absent ↦ absent
        ] in
        let k : Kmem = record {
          freelist = pa;
          words = update (fill_page pa ones s.kmem.words) pa s.kmem.freelist;
        } in
        (
          k,
          ground arith,
          record {
            pages = pa ∷ v.pages;
            chain = (
              refl,
              rw (update_self (fill_page pa ones s.kmem.words) pa s.kmem.freelist) (
                  Chain-frame s.kmem.words k.words s.kmem.freelist v.pages
                    (λ x i.
                      ground (arith, v.disjoint x i, AllPages-holds end v.pages x v.valid i, page))
                    v.chain),
            );
            apart = (not_free, v.apart);
            held_apart = AllApart-remove s.held pa v.held_apart;
            valid = (page, v.valid);
            held_valid = AllPages-remove end s.held pa v.held_valid;
            disjoint = λ x i. ground (arith, holds-remove s.held pa x v.held_apart, v.disjoint x);
            total = omega (arith, length-remove s.held pa h, v.total);
          },
        )

    write-Inv :
        {n : ℕ} (s : System) (addr word : ℕ)
        → Inv n s
        → holds s.held (addr - addr % pgsize) ≡ true
        → Inv n (record s {
          kmem = record { freelist = s.kmem.freelist; words = update s.kmem.words addr word };
        })
    write-Inv s addr word v h = record {
      pages = v.pages;
      chain =
          Chain-frame s.kmem.words (update s.kmem.words addr word) s.kmem.freelist v.pages
            (λ x i. ground (arith, v.disjoint x i, AllPages-holds end v.pages x v.valid i)) v.chain;
      apart = v.apart;
      held_apart = v.held_apart;
      valid = v.valid;
      held_valid = v.held_valid;
      disjoint = v.disjoint;
      total = v.total;
    }

    -- What `run` comes to.
    abbrev pub Fine : ℕ → Option System → Type 0
    Fine n none = ⊥
    Fine n (some s) = Inv n s

    exec-Fine : {n : ℕ} (e : Event) (s : System) → Inv n s → Fine n (exec e s)
    unfolding exec
    exec-Fine alloc s v = kalloc-Inv s v
    exec-Fine (free pa) s v = elim (Bool-cases (holds s.held pa)) [
      | inl used ↦ let (k, e, w) = kfree-Inv s pa v used in rw (used, e) w
      | inr unused ↦ rw unused v
    ]
    exec-Fine (write addr word) s v = elim (Bool-cases (holds s.held (addr - addr % pgsize))) [
      | inl used ↦ rw used (write-Inv s addr word v used)
      | inr unused ↦ rw unused v
    ]

    -- Whatever the order of `kalloc`, of `kfree` of pages in use and of stores into pages in use,
    -- no `kfree` panics; no page is in use twice, or in use and free at once, whatever is written
    -- into the pages, and the number of pages in use and free together stays what it was.
    pub run-Fine : {n : ℕ} (es : List Event) (s : System) → Inv n s → Fine n (run es s)
    unfolding run
    run-Fine [] s v = v
    run-Fine (e ∷ es) s v = elim (Option-cases (exec e s)) [
      | inl panics ↦ absurd (rw panics at (exec-Fine e s v))
      | inr (t, made) ↦ rw (run, made) (run-Fine es t (rw made at (exec-Fine e s v)))
    ]

    kalloc_when :
        {n : ℕ} (s : System) (ps : List ℕ) (v : Inv n s)
        → v.pages ≡ ps
        → ((kalloc s.kmem).0 ≡ 0) ↔ (length s.held ≡ n)
    unfolding kalloc
    kalloc_when s [] v e =
        let end_of : s.kmem.freelist ≡ 0 = subst (Chain s.kmem.words s.kmem.freelist) e v.chain in
        ground (arith, end_of, v.total, e)
    kalloc_when s (p ∷ ps) v e =
        let (at, rest) = subst (Chain s.kmem.words s.kmem.freelist) e v.chain in
        let (page, pages) = subst (AllPages end) e v.valid in ground (arith, at, page, v.total, e)

    -- `kalloc` fails exactly when all of the pages are in use.
    pub kalloc-full : {n : ℕ} (s : System) → Inv n s → ((kalloc s.kmem).0 ≡ 0) ↔ (length s.held ≡ n)
    kalloc-full s v = kalloc_when s v.pages v refl
