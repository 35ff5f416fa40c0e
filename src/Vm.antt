-- ===== src/Vm.antt =====
-- kernel/vm.c: page tables in the memory of the page allocator, and the memory of a user. A PTE is
-- the 64-bit word at its address; the kernel reaches physical memory at the same addresses. A panic
-- is `none`. The registers and the TLB are not modelled.
pub mod Space
pub mod Copy
pub mod Kernel
pub mod Tree
pub mod Lookup
pub mod Walk
pub mod Leaf
pub mod Ranges
pub mod Map
pub mod Address
pub mod Unmap
mod Tests
use Prim.Native.Nat.{bit_or}
use xv6_learn.Common.{
  ℕ, zero, suc, ◌+◌, ◌-◌, ◌*◌, ◌/◌, ◌%◌, ◌^◌, Bool, true, false, not, ◌&&◌, ◌||◌, Option, none,
  some, ◌==◌, ltb, leb, if◌then◌else◌, update,
}
use xv6_learn.Kalloc.{Kmem, pgsize, phystop, fill_page, kfree, kalloc, pg_round_up}

abbrev pub pg_round_down : ℕ → ℕ
pg_round_down a = a / pgsize * pgsize

-- 1 << (9 + 9 + 9 + 12 - 1)
abbrev pub maxva : ℕ
maxva = 2 ^ 38

-- PTE_V, PTE_R, PTE_W, PTE_X and PTE_U are bits 0 to 4.
abbrev pub flag : (bit pte : ℕ) → Bool
flag bit pte = pte / 2 ^ bit % 2 == 1

abbrev pub valid : ℕ → Bool
valid pte = flag 0 pte

abbrev pub pa2pte : ℕ → ℕ
pa2pte pa = pa / 4096 * 1024

abbrev pub pte2pa : ℕ → ℕ
pte2pa pte = pte / 1024 * 4096

abbrev pub pte_flags : ℕ → ℕ
pte_flags pte = pte % 1024

abbrev pub px : (level va : ℕ) → ℕ
px level va = va / 2 ^ (12 + 9 * level) % 512

-- `PA2PTE(pa) | perm | PTE_V`: the ten bits of the flags, where `PA2PTE` has zeros, and those above.
abbrev pub leaf : (pa perm : ℕ) → ℕ
leaf pa perm =
    bit_or (perm / 1024) (pa / 4096) * 1024 + (if flag 0 perm then perm % 1024 else perm % 1024 + 1)

abbrev pub store : (addr word : ℕ) → Kmem → Kmem
store addr word k = record { freelist = k.freelist; words = update k.words addr word }

-- `memset` of a page with 0.
abbrev pub clear_page : ℕ → Kmem → Kmem
clear_page pa k = record { freelist = k.freelist; words = fill_page pa 0 k.words }

-- The loop of `walk` with `level` levels left: the address of the PTE, or `none` for 0.
pub walk_loop : (level table va : ℕ) → (alloc : Bool) → Kmem → Option ℕ × Kmem
walk_loop zero table va alloc k = (some (table + 8 * px 0 va), k)
walk_loop (suc level) table va alloc k =
    let pte = table + 8 * px (suc level) va in
    elim (valid (k.words pte)) [
      | true ↦ walk_loop level (pte2pa (k.words pte)) va alloc k
      | false ↦ elim alloc [
        | false ↦ (none, k)
        | true ↦
            (let (page, k') = kalloc k in
              elim (page == 0) [
                | true ↦ (none, k')
                | false ↦
                    walk_loop level page va true (store pte (pa2pte page + 1) (clear_page page k'))
              ])
      ]
    ]

pub walk : (table va : ℕ) → (alloc : Bool) → Kmem → Option (Option ℕ × Kmem)
unfolding walk_loop
walk table va alloc k = if leb maxva va then none else some (walk_loop 2 table va alloc k)

-- The address of a user's page, or 0.
pub walkaddr : (table va : ℕ) → Kmem → ℕ
unfolding walk_loop
walkaddr table va k = if leb maxva va then 0 else elim (walk_loop 2 table va false k).0 [
  | none ↦ 0
  | some pte ↦ if valid (k.words pte) && flag 4 (k.words pte) then pte2pa (k.words pte) else 0
]

-- The loop of `mappages` with page `a` next; it ends at `last` or above MAXVA.
pub map_loop : (fuel table a last pa perm : ℕ) → Kmem → Option (Bool × Kmem)
unfolding walk
map_loop zero table a last pa perm k = none
map_loop (suc fuel) table a last pa perm k = elim (walk table a true k) [
  | none ↦ none
  | some (none, k') ↦ some (false, k')
  | some (some pte, k') ↦ elim (valid (k'.words pte)) [
    | true ↦ none
    | false ↦
        (let k2 = store pte (leaf pa perm) k' in
          elim (a == last) [
            | true ↦ some (true, k2)
            | false ↦ map_loop fuel table (a + pgsize) last (pa + pgsize) perm k2
          ])
  ]
]

-- `false` is -1.
pub mappages : (table va size pa perm : ℕ) → Kmem → Option (Bool × Kmem)
unfolding map_loop
mappages table va size pa perm k =
    map_loop (maxva / pgsize + 1) table (pg_round_down va)
      (pg_round_down ((va + size - 1) % 2 ^ 64)) pa perm k
