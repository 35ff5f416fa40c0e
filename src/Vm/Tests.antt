-- ===== src/Vm/Tests.antt =====
-- A page table with no page mapped, and the theorems at it.
use mathlib.Core.Path.{subst}
use xv6_learn.Common.{
  ℕ, suc, ◌+◌, ◌*◌, ◌-◌, ◌/◌, ◌≡◌, refl, arith, true, false, ◌&&◌, none, some, List, [], ◌∷◌, ◌==◌,
  leb, if◌then◌else◌, Bool-cases, inl, inr,
}
use xv6_learn.Kalloc.{Kmem, kalloc}
use xv6_learn.Vm.{mappages, walkaddr}
use xv6_learn.Vm.Space.{uvmunmap}
use xv6_learn.Vm.Tree.{Tags, Tree}
use xv6_learn.Vm.Ranges.{Rooted, Mapped}
use xv6_learn.Vm.Map.{mappages-Mapped}
use xv6_learn.Vm.Unmap.{Unmapped, uvmunmap-Unmapped}
use xv6_learn.Vm.Address.{mappages-walkaddr}

-- The root stands at 4096, and the pages at 8192 and 12288 are free.
abbrev words : ℕ → ℕ
words a = if a == 8192 then 12288 else 0

abbrev memory : Kmem
memory = record { freelist = 8192; words = words }

abbrev tag : Tags
tag t = if t == 4096 then some (2, 0) else none

abbrev free : List ℕ
free = 8192 ∷ 12288 ∷ []

tag-root : (t : ℕ) (x : ℕ × ℕ) → tag t ≡ some x → t ≡ 4096
tag-root t x h = elim (Bool-cases (t == 4096)) [
  | inl here ↦ ground arith
  | inr other ↦ cc (rw other at h)
]

memory-Tree : Tree tag free memory
memory-Tree = record {
  aligned = λ t l p h. omega (arith, tag-root t (l, p) h);
  child = λ t l p i h q v.
      let e : t ≡ 4096 = tag-root t (suc l, p) h in
      let apart : (t + 8 * i == 8192) ≡ false = ground (arith, e) in cc (rw apart at v);
  chain = (refl, (refl, refl));
  apart = (refl, (refl, tt));
  pages =
      λ x h. elim (Bool-cases (x == 8192)) [ inl first ↦ ground arith | inr other ↦ ground arith ];
}

memory-Rooted : Rooted 4096 memory
memory-Rooted = record { tag = tag; free = free; tree = memory-Tree; top = refl }

mappages-Mapped_example :
    Mapped 4096 0 1 0x80000000 30 memory (mappages 4096 0 4096 0x80000000 30 memory)
mappages-Mapped_example =
    mappages-Mapped 4096 0 4096 0x80000000 30 memory (omega arith) (omega arith) memory-Rooted

-- The memory with the page at 0 mapped.
abbrev mapped : Kmem
mapped = elim (mappages 4096 0 4096 0x80000000 30 memory) [ none ↦ memory | some (b, k) ↦ k ]

mappages_page : mappages 4096 0 4096 0x80000000 30 memory ≡ some (true, mapped)
unfolding mappages kalloc
mappages_page = refl

mappages-walkaddr_example : walkaddr 4096 100 mapped ≡ (
    if leb 0 (100 / 4096) && leb (100 / 4096) ((0 + 4096 - 1) / 4096)
    then 0x80000000 + (100 / 4096 - 0 / 4096) * 4096
    else walkaddr 4096 100 memory)
mappages-walkaddr_example =
    mappages-walkaddr 4096 0 4096 0x80000000 30 memory mapped (omega arith) (omega arith)
      memory-Rooted refl (omega arith) refl mappages_page 100 (omega arith)

mapped-Rooted : Rooted 4096 mapped
mapped-Rooted =
    (subst (Mapped 4096 0 1 0x80000000 30 memory) mappages_page (
      mappages-Mapped 4096 0 4096 0x80000000 30 memory (omega arith) (omega arith) memory-Rooted)).0

uvmunmap-Unmapped_example : Unmapped 4096 0 1 mapped (uvmunmap 0 4096 (0 * 4096) 1 false mapped)
uvmunmap-Unmapped_example = uvmunmap-Unmapped 0 4096 0 1 mapped (omega arith) mapped-Rooted
