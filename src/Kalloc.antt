-- ===== src/Kalloc.antt =====
-- kernel/kalloc.c: the allocator of physical pages. Memory is a family of 64-bit words, by byte
-- address; a free page holds the address of the next in its first word. `end`, the first address
-- after the kernel, is an unknown of the link. `kmem.lock` is held around each change.
pub mod Pages
pub mod Owners
pub mod Range
mod Tests
use xv6_learn.Common.{
  ℕ, zero, suc, ◌+◌, ◌-◌, ◌*◌, ◌/◌, ◌%◌, ◌^◌, Bool, true, false, not, ◌&&◌, ◌||◌, Option, none,
  some, List, [], ◌∷◌, ◌==◌, ltb, leb, if◌then◌else◌, update,
}

abbrev pub pgsize : ℕ
pgsize = 4096

-- KERNBASE + 128 * 1024 * 1024.
abbrev pub phystop : ℕ
phystop = 2 ^ 31 + 2 ^ 27

-- The static `kmem`, less its lock, with the memory that the list runs through.
pub record Kmem : Type 0 where
  pub freelist : ℕ
  pub words : ℕ → ℕ

-- The words that `memset` of a page with 1 or 5 leaves in it.
abbrev pub ones : ℕ
ones = 72340172838076673

abbrev pub fives : ℕ
fives = 361700864190383365

-- `memset` of the page at `pa`.
abbrev pub fill_page : ℕ → (junk : ℕ) → (ℕ → ℕ) → ℕ → ℕ
fill_page pa junk m a = if leb pa a && ltb a (pa + pgsize) then junk else m a

-- `none` is a panic.
pub kfree : (end pa : ℕ) → Kmem → Option Kmem
kfree end pa k =
    if not (pa % pgsize == 0) || ltb pa end || leb phystop pa
    then none
    else some (record { freelist = pa; words = update (fill_page pa ones k.words) pa k.freelist })

-- The page, or 0.
unfoldable pub kalloc : Kmem → ℕ × Kmem
kalloc k =
    let r = k.freelist in
    if r == 0
    then (0, k)
    else (r, record { freelist = k.words r; words = fill_page r fives k.words })

abbrev pub pg_round_up : ℕ → ℕ
pg_round_up a = (a + pgsize - 1) / pgsize * pgsize

-- The loop of `freerange` from page `p` on, for at most `n` pages.
pub free_loop : (n end p pa_end : ℕ) → Kmem → Option Kmem
unfolding kfree
free_loop zero end p pa_end k = some k
free_loop (suc n) end p pa_end k =
    if leb (p + pgsize) pa_end
    then elim (kfree end p k) [ none ↦ none | some k' ↦ free_loop n end (p + pgsize) pa_end k' ]
    else some k

pub freerange : (end pa_start pa_end : ℕ) → Kmem → Option Kmem
unfolding free_loop
freerange end pa_start pa_end k =
    free_loop (pa_end / pgsize + 1) end (pg_round_up pa_start) pa_end k

pub kinit : ℕ → Kmem → Option Kmem
unfolding freerange
kinit end k = freerange end end phystop (record k { freelist = 0 })
