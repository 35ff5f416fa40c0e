-- ===== src/Vm/Space.antt =====
-- kernel/vm.c: the memory of a user grown, shrunk and freed. `end` is the first address after the
-- kernel, which `kfree` looks at.
use xv6_learn.Common.{
  ℕ, zero, suc, ◌+◌, ◌-◌, ◌*◌, ◌/◌, ◌%◌, Bool, true, false, not, ◌||◌, Option, none, some, ◌==◌,
  ltb, leb, if◌then◌else◌,
}
use xv6_learn.Kalloc.{Kmem, pgsize, kfree, kalloc, pg_round_up}
use xv6_learn.Vm.{flag, valid, pte2pa, pte_flags, store, clear_page, walk, mappages}

module _ (end : ℕ) where
  -- The loop of `uvmunmap` for `n` pages from `a` on.
  unfoldable pub unmap_loop : (n table a : ℕ) → (do_free : Bool) → Kmem → Option Kmem
  unfolding walk
  unmap_loop zero table a do_free k = some k
  unmap_loop (suc n) table a do_free k = elim (walk table a false k) [
    | none ↦ none
    | some (none, k') ↦ none
    | some (some pte, k') ↦
        (let word = k'.words pte in
          elim (not (valid word) || pte_flags word == 1) [
            | true ↦ none
            | false ↦ elim (if do_free then kfree end (pte2pa word) k' else some k') [
              | none ↦ none
              | some k2 ↦ unmap_loop n table (a + pgsize) do_free (store pte 0 k2)
            ]
          ])
  ]

  unfoldable pub uvmunmap : (table va npages : ℕ) → (do_free : Bool) → Kmem → Option Kmem
  unfolding unmap_loop
  uvmunmap table va npages do_free k =
      if va % pgsize == 0 then unmap_loop npages table va do_free k else none

  pub uvmdealloc : (table oldsz newsz : ℕ) → Kmem → Option (ℕ × Kmem)
  unfolding uvmunmap
  uvmdealloc table oldsz newsz k =
      if leb oldsz newsz
      then some (oldsz, k)
      else if ltb (pg_round_up newsz) (pg_round_up oldsz)
      then elim (uvmunmap table (pg_round_up newsz)
          ((pg_round_up oldsz - pg_round_up newsz) / pgsize) true k) [
            | none ↦ none
            | some k' ↦ some (newsz, k')
          ]
      else some (newsz, k)

  -- The failure of `uvmalloc` at page `a`.
  abbrev undo_alloc : (table a oldsz : ℕ) → Kmem → Option (ℕ × Kmem)
  undo_alloc table a oldsz k = elim (uvmdealloc table a oldsz k) [
    | none ↦ none
    | some (n, k') ↦ some (0, k')
  ]

  -- The loop of `uvmalloc` with page `a` next. PTE_W | PTE_X | PTE_R | PTE_U is 30.
  pub alloc_loop : (fuel table a oldsz newsz : ℕ) → Kmem → Option (ℕ × Kmem)
  unfolding uvmdealloc mappages
  alloc_loop zero table a oldsz newsz k = some (newsz, k)
  alloc_loop (suc fuel) table a oldsz newsz k = elim (ltb a newsz) [
    | false ↦ some (newsz, k)
    | true ↦
        (let (mem, k1) = kalloc k in
          elim (mem == 0) [
            | true ↦ undo_alloc table a oldsz k1
            | false ↦ elim (mappages table a pgsize mem 30 (clear_page mem k1)) [
              | none ↦ none
              | some (true, k2) ↦ alloc_loop fuel table (a + pgsize) oldsz newsz k2
              | some (false, k2) ↦ elim (kfree end mem k2) [
                | none ↦ none
                | some k3 ↦ undo_alloc table a oldsz k3
              ]
            ]
          ])
  ]

  -- The new size, or 0.
  pub uvmalloc : (table oldsz newsz : ℕ) → Kmem → Option (ℕ × Kmem)
  unfolding alloc_loop
  uvmalloc table oldsz newsz k =
      if ltb newsz oldsz
      then some (oldsz, k)
      else alloc_loop (newsz / pgsize + 1) table (pg_round_up oldsz) (pg_round_up oldsz) newsz k

  -- The loop of `freewalk` on the `n` PTEs from the `i`th on, with the call for a child.
  pub free_ptes : (child : ℕ → Kmem → Option Kmem) (n i table : ℕ) → Kmem → Option Kmem
  free_ptes child zero i table k = some k
  free_ptes child (suc n) i table k =
      let pte = k.words (table + 8 * i) in
      elim (valid pte) [
        | false ↦ free_ptes child n (i + 1) table k
        | true ↦ elim (flag 1 pte || (flag 2 pte || flag 3 pte)) [
          | true ↦ none
          | false ↦ elim (child (pte2pa pte) k) [
            | none ↦ none
            | some k' ↦ free_ptes child n (i + 1) table (store (table + 8 * i) 0 k')
          ]
        ]
      ]

  -- `depth` bounds the recursion; a page table has 3 levels.
  pub freewalk : (depth table : ℕ) → Kmem → Option Kmem
  unfolding free_ptes
  freewalk zero table k = none
  freewalk (suc depth) table k = elim (free_ptes (freewalk depth) 512 0 table k) [
    | none ↦ none
    | some k' ↦ kfree end table k'
  ]

  pub uvmfree : (table sz : ℕ) → Kmem → Option Kmem
  unfolding uvmunmap freewalk
  uvmfree table sz k =
      elim (if ltb 0 sz then uvmunmap table 0 (pg_round_up sz / pgsize) true k else some k) [
        | none ↦ none
        | some k' ↦ freewalk 3 table k'
      ]
