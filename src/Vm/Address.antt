-- ===== src/Vm/Address.antt =====
-- `walkaddr` after `mappages`.
use mathlib.Core.Path.{subst}
use Prim.Native.Nat.{bit_or, bit_or-bitwise}
use xv6_learn.Common.{
  ℕ, ◌+◌, ◌-◌, ◌*◌, ◌/◌, ◌%◌, ◌≤◌, ◌<◌, ◌≡◌, refl, ap, sym, ◌∙◌, arith, true, false, ◌&&◌, Option,
  none, some, ltb, leb, if◌then◌else◌, Bool-cases, inl, inr,
}
use xv6_learn.Kalloc.{Kmem}
use xv6_learn.Vm.{maxva, flag, valid, leaf, pa2pte, pte2pa, walkaddr, mappages}
use xv6_learn.Vm.Lookup.{look, place, walk_loop-place, look-place}
use xv6_learn.Vm.Ranges.{Rooted, Mapped}
use xv6_learn.Vm.Map.{mappages-Mapped}

-- The physical page that a PTE gives to a user, or 0.
abbrev pub user_page : ℕ → ℕ
user_page pte = if valid pte && flag 4 pte then pte2pa pte else 0

place-user :
    (o : Option ℕ) (m : ℕ → ℕ)
    → (elim o [ none ↦ 0 | some a ↦ user_page (m a) ])
      ≡ user_page (elim o [ none ↦ 0 | some a ↦ m a ])
place-user none m = refl
place-user (some a) m = refl

-- `walkaddr` is the reading of the PTE that the page table maps the address to.
walkaddr-look :
    (root va : ℕ) (k : Kmem) → va < maxva → walkaddr root va k ≡ user_page (look 2 root va k.words)
unfolding walkaddr
walkaddr-look root va k low =
    let h : leb maxva va ≡ false = ground arith in
    rw (walkaddr, h)
      (ap (λ (q : Option ℕ × Kmem). elim q.0 [ none ↦ 0 | some a ↦ user_page (k.words a) ])
          (walk_loop-place 2 root va k)
        ∙ place-user (place 2 root va k.words) k.words
        ∙ ap user_page (sym (look-place 2 root va k.words)))

or_zero : (x : ℕ) → bit_or 0 x ≡ x
or_zero x = λ i. bit_or-bitwise 0 x i

-- With flags below 2^10 the or is a sum.
leaf-low :
    (pa perm : ℕ)
    → perm < 1024
    → leaf pa perm ≡ pa2pte pa + (if flag 0 perm then perm else perm + 1)
leaf-low pa perm low =
    let high : perm / 1024 ≡ 0 = omega arith in
    let same : perm % 1024 ≡ perm = omega arith in rw (high, same, or_zero (pa / 4096)) refl

user_page-leaf :
    (pa perm : ℕ) → pa % 4096 ≡ 0 → perm < 1024 → flag 4 perm ≡ true → user_page (leaf pa perm) ≡ pa
user_page-leaf pa perm a low user =
    ap user_page (leaf-low pa perm low) ∙ elim (Bool-cases (flag 0 perm)) [
      | inl set ↦
          (let v : valid (pa2pte pa + perm) ≡ true = ground arith in
            let u : flag 4 (pa2pte pa + perm) ≡ true = ground arith in rw (set, v, u) (omega arith))
      | inr clear ↦
          (let v : valid (pa2pte pa + (perm + 1)) ≡ true = ground arith in
            let u : flag 4 (pa2pte pa + (perm + 1)) ≡ true = ground arith in
            rw (clear, v, u) (ground arith))
    ]

-- In a tree of tables, after a `mappages` that returns 0 of a range that ends below MAXVA, with
-- PTE_U among the permissions, to physical pages from an aligned address on: `walkaddr` gives for
-- each address of the pages of the range the physical page of its place, and for every other address
-- below MAXVA what it gave before.
pub mappages-walkaddr :
    (root va size pa perm : ℕ) (k k' : Kmem)
    → 1 ≤ size
    → va + size ≤ maxva
    → Rooted root k
    → pa % 4096 ≡ 0
    → perm < 1024
    → flag 4 perm ≡ true
    → mappages root va size pa perm k ≡ some (true, k')
    → (va' : ℕ) → va' < maxva
    → walkaddr root va' k' ≡ (
        if leb (va / 4096) (va' / 4096) && leb (va' / 4096) ((va + size - 1) / 4096)
        then pa + (va' / 4096 - va / 4096) * 4096
        else walkaddr root va' k)
mappages-walkaddr root va size pa perm k k' some_size low rooted aligned small user done va' low' =
    let x = va / 4096 in
    let n = (va + size - 1) / 4096 - x + 1 in
    let (rooted', maps) =
      subst (Mapped root x n pa perm k) done
        (mappages-Mapped root va size pa perm k some_size low rooted) in
    let y = va' / 4096 in
    walkaddr-look root va' k' low'
    ∙ ap user_page (maps va' low')
    ∙ elim (Bool-cases (leb x y && leb y ((va + size - 1) / 4096))) [
      | inl inside ↦
          (let c : (leb x y && ltb y (x + n)) ≡ true = ground arith in
            rw (inside, c)
              (user_page-leaf (pa + (y - x) * 4096) perm (omega (arith, aligned)) small user))
      | inr outside ↦
          (let c : (leb x y && ltb y (x + n)) ≡ false = ground arith in
            rw (outside, c) (sym (walkaddr-look root va' k low')))
    ]
