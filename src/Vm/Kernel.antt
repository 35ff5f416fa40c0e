-- ===== src/Vm/Kernel.antt =====
-- kernel/vm.c: the kernel's own page table. `etext` and `trampoline` are addresses of the link.
use xv6_learn.Common.{ℕ, ◌+◌, ◌-◌, ◌%◌, true, false, Option, none, some, if◌then◌else◌}
use xv6_learn.Kalloc.{Kmem, pgsize, phystop, kalloc}
use xv6_learn.Vm.{maxva, valid, pte2pa, clear_page, walk, mappages}

pub kvmmap : (table va pa sz perm : ℕ) → Kmem → Option Kmem
kvmmap table va pa sz perm k = elim (mappages table va sz pa perm k) [
  | none ↦ none
  | some (false, k') ↦ none
  | some (true, k') ↦ some k'
]

pub kvmpa : (table va : ℕ) → Kmem → Option ℕ
kvmpa table va k = elim (walk table va false k) [
  | none ↦ none
  | some (none, k') ↦ none
  | some (some pte, k') ↦
      if valid (k'.words pte) then some (pte2pa (k'.words pte) + va % pgsize) else none
]

abbrev and_then : Option Kmem → (Kmem → Option Kmem) → Option Kmem
and_then none f = none
and_then (some k) f = f k

-- KERNBASE, and the trampoline's page.
abbrev kernbase : ℕ
kernbase = 0x80000000

abbrev trampoline_page : ℕ
trampoline_page = maxva - pgsize

-- PTE_R | PTE_W is 6 and PTE_R | PTE_X is 10. The page table that it sets up is returned too.
pub kvminit : (etext trampoline : ℕ) → Kmem → Option (ℕ × Kmem)
unfolding kvmmap
kvminit etext trampoline k =
    let (table, k1) = kalloc k in
    let k2 = kvmmap table 0x10000000 0x10000000 pgsize 6 (clear_page table k1) in
    let k3 = and_then k2 (kvmmap table 0x10001000 0x10001000 pgsize 6) in
    let k4 = and_then k3 (kvmmap table 0x2000000 0x2000000 0x10000 6) in
    let k5 = and_then k4 (kvmmap table 0x0c000000 0x0c000000 0x400000 6) in
    let k6 = and_then k5 (kvmmap table kernbase kernbase (etext - kernbase) 10) in
    let k7 = and_then k6 (kvmmap table etext etext (phystop - etext) 6) in
    elim (and_then k7 (kvmmap table trampoline_page trampoline pgsize 10)) [
      | none ↦ none
      | some k8 ↦ some (table, k8)
    ]
