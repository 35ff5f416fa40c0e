-- ===== src/Kalloc/Range.antt =====
-- `freerange`: which pages the allocator starts with.
use xv6_learn.Common.{
  ℕ, zero, suc, ◌+◌, ◌*◌, ◌/◌, ◌%◌, ◌≤◌, ◌<◌, ◌≡◌, refl, true, false, some, List, [], ◌∷◌, arith,
  ◌==◌, leb, update, inl, inr, Bool-cases, update_self,
}
use xv6_learn.Kalloc.{
  Kmem, pgsize, phystop, ones, fill_page, kfree, free_loop, freerange, kinit, pg_round_up,
}
use xv6_learn.Kalloc.Pages.{holds, AllApart, IsPage, AllPages, Chain, AllPages-holds, Chain-frame}

-- The free list after the pages below `p` have been given to it.
pub record Freed (end p : ℕ) (k : Kmem) : Type 0 where
  pub pages : List ℕ
  pub chain : Chain k.words k.freelist pages
  pub apart : AllApart pages
  pub valid : AllPages end pages
  pub every : (x : ℕ) → IsPage end x → x < p → holds pages x ≡ true
  pub below : (x : ℕ) → holds pages x ≡ true → x < p

kfree-Freed :
    (end p : ℕ) (k : Kmem)
    → IsPage end p
    → Freed end p k
    → (k' : Kmem) × (kfree end p k ≡ some k') × Freed end (p + pgsize) k'
unfolding kfree
kfree-Freed end p k page f =
    let k' : Kmem = record {
      freelist = p;
      words = update (fill_page p ones k.words) p k.freelist;
    } in
    let not_free : holds f.pages p ≡ false = elim (Bool-cases (holds f.pages p)) [
      | inl there ↦ absurd (omega (arith, f.below p there))
      | inr absent ↦ absent
    ] in
    (
      k',
      ground arith,
      record {
        pages = p ∷ f.pages;
        chain = (
          refl,
          rw (update_self (fill_page p ones k.words) p k.freelist) (
              Chain-frame k.words k'.words k.freelist f.pages
                (λ x i. ground (arith, f.below x i, AllPages-holds end f.pages x f.valid i, page))
                f.chain),
        );
        apart = (not_free, f.apart);
        valid = (page, f.valid);
        every = λ x q l. elim (Bool-cases (p == x)) [
          | inl this ↦ ground arith
          | inr other ↦ ground (arith, f.every x q (omega (arith, aligned p x page.0 q.0 l other)))
        ];
        below = λ x i. ground (arith, f.below x);
      },
    )
  where
    aligned :
        (a x : ℕ) → a % pgsize ≡ 0 → x % pgsize ≡ 0 → x < a + pgsize → (a == x) ≡ false → x < a
    aligned a x ha hx l ne = ground arith

ended :
    (end p : ℕ) (k : Kmem)
    → p % pgsize ≡ 0
    → phystop < p + pgsize
    → Freed end p k
    → Freed end phystop k
ended end p k a over f = record {
  pages = f.pages;
  chain = f.chain;
  apart = f.apart;
  valid = f.valid;
  every = λ x q l. f.every x q (omega arith);
  below = λ x i. (AllPages-holds end f.pages x f.valid i).2;
}

-- How the loop ends where the fuel suffices.
free_loop-Freed :
    (n end p : ℕ) (k : Kmem)
    → p % pgsize ≡ 0
    → end ≤ p
    → phystop < p + n * pgsize
    → Freed end p k
    → (k' : Kmem) × (free_loop n end p phystop k ≡ some k') × Freed end phystop k'
unfolding free_loop
free_loop-Freed zero end p k a low fuel f = (k, refl, ended end p k a (omega arith) f)
free_loop-Freed (suc n) end p k a low fuel f = elim (Bool-cases (leb (p + pgsize) phystop)) [
  | inl more ↦
      (let (k1, e1, f1) = kfree-Freed end p k (ground arith) f in
        let (k2, e2, f2) =
          free_loop-Freed n end (p + pgsize) k1 (omega arith) (omega arith) (omega arith) f1 in
        (k2, rw (more, free_loop, e1) e2, f2))
  | inr over ↦ (k, rw (over, free_loop) refl, ended end p k a (ground arith) f)
]

-- `kinit` does not panic, wherever the kernel ends below PHYSTOP, and leaves in the free list, each
-- once, just the whole pages from there to PHYSTOP.
pub kinit-Freed :
    (end : ℕ) (k : Kmem)
    → end < phystop
    → (k' : Kmem) × (kinit end k ≡ some k') × Freed end phystop k'
unfolding kinit freerange
kinit-Freed end k h =
    free_loop-Freed (phystop / pgsize + 1) end (pg_round_up end) (record k { freelist = 0 })
      (omega arith) (omega arith) (omega arith)
      (record {
        pages = [];
        chain = refl;
        apart = tt;
        valid = tt;
        every = λ x q l. absurd (omega arith);
        below = λ x i. cc;
      })
