-- ===== src/Virtio/Triples.antt =====
-- `alloc3_desc`, which takes three descriptors or none, and `free_chain` of three.
use xv6_learn.Common.{
  ℕ, suc, ◌+◌, ◌%◌, ◌≤◌, ◌≡◌, inl, inr, refl, sym, ap, ◌∙◌, arith, Bool, true, false, Option, none,
  some, List, ◌==◌, length, get_elem?,
}
use xv6_learn.Virtio.{
  num, Desc, Disk, free_desc, free_chain, Chain, free_both, third, second, alloc3_desc,
}
use xv6_learn.Virtio.Chains.{
  taken, taken_bound, one, Takes, alloc_desc-cases, addr_cleared, free_desc-frees, Links,
  addr_cleared-Links, Links-trans, length-addr_cleared,
}

-- Descriptors freed one after another: how often each, with the links between descriptors kept.
pub record Frees (count : ℕ → ℕ) (d d' : Disk) : Type 0 where
  pub size : length d'.free ≡ length d.free
  pub fewer : (x : ℕ) → taken d.free x ≡ taken d'.free x + count x
  pub descs : length d'.desc ≡ length d.desc
  pub links : (x : ℕ) → Links d.desc d'.desc x

free_one :
    (i : ℕ) (d : Disk)
    → length d.free ≡ num
    → taken d.free i ≡ 1
    → (d' : Disk) × (free_desc i d ≡ some d') × Frees (one i) d d'
free_one i d size h =
    let (fs, e, (same, inside, t)) = free_desc-frees i d size h in
    (
      record d { desc = addr_cleared i d.desc; free = fs },
      e,
      record {
        size = sym same;
        fewer = t;
        descs = length-addr_cleared i d.desc;
        links = addr_cleared-Links i d.desc;
      },
    )

Frees-trans : (f g : ℕ → ℕ) (a b c : Disk) → Frees f a b → Frees g b c → Frees (λ x. f x + g x) a c
Frees-trans f g a b c p q = record {
  size = q.size ∙ p.size;
  fewer = λ x. omega (arith, p.fewer x, q.fewer x);
  descs = q.descs ∙ p.descs;
  links = λ x. Links-trans a.desc b.desc c.desc x (p.links x) (q.links x);
}

-- What an `alloc3_desc` comes to: -1 with what is free as before, or three that were free.
abbrev pub uses : Chain → ℕ → ℕ
uses (i, j, k) x = one i x + (one j x + one k x)

abbrev pub Same : Disk → Disk → Type 0
Same d d' =
    (length d'.free ≡ length d.free)
    × ((x : ℕ) → taken d'.free x ≡ taken d.free x)
    × (length d'.desc ≡ length d.desc)
    × ((x : ℕ) → Links d.desc d'.desc x)

abbrev pub Took : Chain → Disk → Disk → Type 0
Took c d d' =
    (d'.desc ≡ d.desc)
    × (length d'.free ≡ length d.free)
    × ((x : ℕ) → taken d'.free x ≡ taken d.free x + uses c x)

abbrev pub Allocated : Disk → Option (Option Chain × Disk) → Type 0
Allocated d none = ⊥
Allocated d (some (none, d')) = Same d d'
Allocated d (some (some c, d')) = Took c d d'

third-Allocated :
    (i j : ℕ) (d : Disk) (fs gs : List Bool)
    → length d.free ≡ num
    → Takes i d.free fs
    → Takes j fs gs
    → Allocated d (third i j (record d { free = gs }))
unfolding third
third-Allocated i j d fs gs size (s1, in1, t1) (s2, in2, t2) =
    elim (alloc_desc-cases (record d { free = gs })) [
      | inr (k, hs, e, (s3, in3, t3)) ↦
          rw (third, e) (refl, s3 ∙ s2 ∙ s1, λ x. omega (arith, t1 x, t2 x, t3 x))
      | inl full ↦
          (let (d1, e1, f1) =
              free_one i (record d { free = gs }) (s2 ∙ s1 ∙ size)
                (ground (arith, t1 i, t2 i, taken_bound gs i)) in
            let (d2, e2, f2) =
              free_one j d1 (f1.size ∙ s2 ∙ s1 ∙ size)
                (ground (arith, t1 j, t2 j, f1.fewer j, taken_bound d1.free j)) in
            let f = Frees-trans (one i) (one j) _ d1 d2 f1 f2 in
            rw (third, full, free_both, e1, e2)
              (f.size ∙ s2 ∙ s1, λ x. omega (arith, t1 x, t2 x, f.fewer x), f.descs, f.links))
    ]

second-Allocated :
    (i : ℕ) (d : Disk) (fs : List Bool)
    → length d.free ≡ num
    → Takes i d.free fs
    → Allocated d (second i (record d { free = fs }))
unfolding second
second-Allocated i d fs size (s1, in1, t1) = elim (alloc_desc-cases (record d { free = fs })) [
  | inr (j, gs, e, (s2, in2, t2)) ↦
      rw (second, e) (third-Allocated i j d fs gs size (s1, in1, t1) (s2, in2, t2))
  | inl full ↦
      (let (d1, e1, f1) =
          free_one i (record d { free = fs }) (s1 ∙ size)
            (ground (arith, t1 i, taken_bound fs i)) in
        rw (second, full, e1)
          (f1.size ∙ s1, λ x. omega (arith, t1 x, f1.fewer x), f1.descs, f1.links))
]

pub alloc3_desc-Allocated : (d : Disk) → length d.free ≡ num → Allocated d (alloc3_desc d)
unfolding alloc3_desc
alloc3_desc-Allocated d size = elim (alloc_desc-cases d) [
  | inl full ↦ rw (alloc3_desc, full) (refl, λ x. refl, refl, λ x y at. (y, at, refl, refl))
  | inr (i, fs, e, t) ↦ rw (alloc3_desc, e) (second-Allocated i d fs size t)
]

-- The descriptors of a request, linked in their order.
abbrev pub LinkedTo : List Desc → (x y : ℕ) → Type 0
LinkedTo ds x y =
    (z : Desc) × (get_elem? ds x ≡ some z) × ((z.flags % 2 == 1) ≡ true) × (z.next ≡ y)

abbrev pub IsLast : List Desc → ℕ → Type 0
IsLast ds x = (z : Desc) × (get_elem? ds x ≡ some z) × ((z.flags % 2 == 1) ≡ false)

abbrev pub IsChain : List Desc → Chain → Type 0
IsChain ds (i, j, k) = LinkedTo ds i j × LinkedTo ds j k × IsLast ds k

pub LinkedTo-kept :
    (ds es : List Desc) (x y : ℕ) → Links ds es x → LinkedTo ds x y → LinkedTo es x y
LinkedTo-kept ds es x y links (z, at, f, n) =
    let (w, at_w, p, q) = links z at in (w, at_w, ap (λ m. m % 2 == 1) p ∙ f, q ∙ n)

pub IsLast-kept : (ds es : List Desc) (x : ℕ) → Links ds es x → IsLast ds x → IsLast es x
IsLast-kept ds es x links (z, at, f) =
    let (w, at_w, p, q) = links z at in (w, at_w, ap (λ m. m % 2 == 1) p ∙ f)

-- A round of `free_chain` at a descriptor that is linked to another, and at the last.
chain_round :
    (fuel i j : ℕ) (d d' : Disk)
    → free_desc i d ≡ some d'
    → LinkedTo d'.desc i j
    → free_chain (suc fuel) i d ≡ free_chain fuel j d'
unfolding free_chain
chain_round fuel i j d d' e (z, at, f, n) = rw (free_chain, e, at, f, n) refl

chain_end :
    (fuel i : ℕ) (d d' : Disk)
    → free_desc i d ≡ some d'
    → IsLast d'.desc i
    → free_chain (suc fuel) i d ≡ some d'
unfolding free_chain
chain_end fuel i d d' e (z, at, f) = rw (free_chain, e, at, f) refl

pub free_chain-Frees :
    (fuel : ℕ) (c : Chain) (d : Disk)
    → length d.free ≡ num
    → ((x : ℕ) → uses c x ≤ taken d.free x)
    → IsChain d.desc c
    → (d' : Disk) × (free_chain (suc (suc (suc fuel))) c.0 d ≡ some d') × Frees (uses c) d d'
free_chain-Frees fuel (i, j, k) d size held (to_j, to_k, last) =
    let (d1, e1, f1) = free_one i d size (ground (arith, held i, taken_bound d.free i)) in
    let (d2, e2, f2) =
      free_one j d1 (f1.size ∙ size) (ground (arith, held j, f1.fewer j, taken_bound d1.free j)) in
    let (d3, e3, f3) =
      free_one k d2 (f2.size ∙ f1.size ∙ size)
        (ground (arith, held k, f1.fewer k, f2.fewer k, taken_bound d2.free k)) in
    let f12 = Frees-trans (one i) (one j) d d1 d2 f1 f2 in
    let f23 = Frees-trans (one j) (one k) d1 d2 d3 f2 f3 in
    let f123 = Frees-trans (one i) (λ x. one j x + one k x) d d1 d3 f1 f23 in
    let l1 = LinkedTo-kept d.desc d1.desc i j (f1.links i) to_j in
    let l2 = LinkedTo-kept d.desc d2.desc j k (f12.links j) to_k in
    let l3 = IsLast-kept d.desc d3.desc k (λ y at. f123.links k y at) last in
    (
      d3,
      chain_round (suc (suc fuel)) i j d d1 e1 l1
          ∙ chain_round (suc fuel) j k d1 d2 e2 l2
          ∙ chain_end fuel k d2 d3 e3 l3,
      f123,
    )
