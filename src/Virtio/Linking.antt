-- ===== src/Virtio/Linking.antt =====
-- The descriptors that `virtio_disk_rw` fills in for a request, as a chain of three.
use xv6_learn.Common.{
  ℕ, zero, suc, ◌+◌, ◌%◌, ◌<◌, ◌≡◌, ◌≢◌, refl, sym, ◌∙◌, arith, Bool, true, false, some, List, [],
  ◌∷◌, ◌==◌, if◌then◌else◌, length, length-set, get_elem?, get_elem?-set_self, get_elem?-set_ne,
  set,
}
use xv6_learn.Virtio.{num, Desc, Chain, Request, put_chain}
use xv6_learn.Virtio.Chains.{taken, taken_bound, Links}
use xv6_learn.Virtio.Triples.{uses, LinkedTo-kept, IsLast-kept, IsChain}

pub IsChain-kept :
    (ds es : List Desc) (c : Chain)
    → ((x : ℕ) → 0 < uses c x → Links ds es x)
    → IsChain ds c
    → IsChain es c
IsChain-kept ds es (i, j, k) links (a, b, z) = (
  LinkedTo-kept ds es i j (links i (ground arith)) a,
  LinkedTo-kept ds es j k (links j (ground arith)) b,
  IsLast-kept ds es k (links k (ground arith)) z,
)

-- Three different descriptors.
abbrev pub Distinct : Chain → Type 0
Distinct (i, j, k) = (i ≢ j) × (i ≢ k) × (j ≢ k) × (i < num) × (j < num) × (k < num)

module _ (ds : List Desc) (a b c : Desc) (i j k : ℕ) where
  abbrev three : List Desc
  three = set (set (set ds i a) j b) k c

  at_first : i ≢ j → i ≢ k → i < length ds → get_elem? three i ≡ some a
  at_first ij ik h =
      get_elem?-set_ne (set (set ds i a) j b) c (λ e. ik (sym e))
      ∙ get_elem?-set_ne (set ds i a) b (λ e. ij (sym e))
      ∙ get_elem?-set_self ds i a h

  at_body : j ≢ k → j < length ds → get_elem? three j ≡ some b
  at_body jk h =
      get_elem?-set_ne (set (set ds i a) j b) c (λ e. jk (sym e))
      ∙ get_elem?-set_self (set ds i a) j b (omega (arith, length-set ds i a))

  at_last : k < length ds → get_elem? three k ≡ some c
  at_last h =
      get_elem?-set_self (set (set ds i a) j b) k c
        (omega (arith, length-set (set ds i a) j b, length-set ds i a))

  elsewhere : (x : ℕ) → i ≢ x → j ≢ x → k ≢ x → get_elem? three x ≡ get_elem? ds x
  elsewhere x ix jx kx =
      get_elem?-set_ne (set (set ds i a) j b) c kx
      ∙ get_elem?-set_ne (set ds i a) b jx
      ∙ get_elem?-set_ne ds a ix

  length-three : length three ≡ length ds
  length-three =
      length-set (set (set ds i a) j b) k c ∙ length-set (set ds i a) j b ∙ length-set ds i a

body_linked : (write : Bool) → ((if write then 1 else 3) % 2 == 1) ≡ true
body_linked true = refl
body_linked false = refl

pub put_chain-IsChain :
    (q : Request) (c : Chain) (ds : List Desc)
    → length ds ≡ num
    → Distinct c
    → IsChain (put_chain q c ds) c
unfolding put_chain
put_chain-IsChain q (i, j, k) ds size (ij, ik, jk, li, lj, lk) = (
  (_, at_first ds _ _ _ i j k ij ik (omega (arith, size)), refl, refl),
  (_, at_body ds _ _ _ i j k jk (omega (arith, size)), body_linked q.write, refl),
  (_, at_last ds _ _ _ i j k (omega (arith, size)), refl),
)

pub put_chain-Links :
    (q : Request) (c : Chain) (ds : List Desc) (x : ℕ)
    → uses c x ≡ 0
    → Links ds (put_chain q c ds) x
unfolding put_chain
put_chain-Links q (i, j, k) ds x h y at =
    (y, elsewhere ds _ _ _ i j k x (ground arith) (ground arith) (ground arith) ∙ at, refl, refl)

pub length-put_chain :
    (q : Request) (c : Chain) (ds : List Desc) → length (put_chain q c ds) ≡ length ds
unfolding put_chain
length-put_chain q (i, j, k) ds = length-three ds _ _ _ i j k

out_of_range : (fs : List Bool) (x : ℕ) → 0 < taken fs x → x < length fs
out_of_range [] x h = absurd (omega arith)
out_of_range (f ∷ fs) zero h = omega arith
out_of_range (f ∷ fs) (suc x) h = omega (arith, out_of_range fs x h)

-- What is taken at most once is distinct.
pub took-Distinct :
    (c : Chain) (fs gs : List Bool)
    → length gs ≡ num
    → ((x : ℕ) → taken gs x ≡ taken fs x + uses c x)
    → Distinct c
took-Distinct (i, j, k) fs gs size t = (
  λ e. ground (arith, t i, taken_bound gs i, e),
  λ e. ground (arith, t i, taken_bound gs i, e),
  λ e. ground (arith, t j, taken_bound gs j, e),
  ground (arith, t i, out_of_range gs i),
  ground (arith, t j, out_of_range gs j),
  ground (arith, t k, out_of_range gs k),
)
