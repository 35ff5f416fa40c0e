-- ===== src/Fs/Inode/Cache.antt =====
-- `iget` and the cache of inodes: one entry for an inode in use.
use mathlib.Core.Path.{subst}
use xv6_learn.Common.{
  ℕ, zero, suc, ◌+◌, ◌≡◌, ◌≢◌, ◌⊎◌, inl, inr, refl, sym, ◌∙◌, arith, true, false, Option, none,
  some, List, [], ◌∷◌, ◌==◌, if◌then◌else◌, get_elem?, set, Bool-cases, of_some,
}
use xv6_learn.Fs.Inode.{Inode, matches, Found, cached, empty, or_else, iget_loop, iget}

abbrev At : List Inode → ℕ → Inode → Type 0
At ips k ip = get_elem? ips k ≡ some ip

-- What the loop of `iget` returns.
abbrev LoopEnd : (dev inum i : ℕ) → Option (ℕ × Inode) → List Inode → Found → Type 0
LoopEnd dev inum i e ips (cached j ip) =
    (k : ℕ) × (j ≡ i + k) × At ips k ip × (matches dev inum ip ≡ true)
LoopEnd dev inum i e ips (empty o) =
    ((k : ℕ) (ip : Inode) → At ips k ip → matches dev inum ip ≡ false)
    × ((j : ℕ) (ip : Inode)
        → o ≡ some (j, ip)
        → (e ≡ some (j, ip)) ⊎ ((k : ℕ) × (j ≡ i + k) × At ips k ip × (ip.ref ≡ 0)))

loop_skip :
    (dev inum i : ℕ) (e : Option (ℕ × Inode)) (ip : Inode) (ips : List Inode) (r : Found)
    → matches dev inum ip ≡ false
    → LoopEnd dev inum (i + 1) (or_else e (if ip.ref == 0 then some (i, ip) else none)) ips r
    → LoopEnd dev inum i e (ip ∷ ips) r
loop_skip dev inum i e ip ips (cached j jp) miss (k, at, here, hit) =
    (suc k, omega arith, here, hit)
loop_skip dev inum i e ip ips (empty o) miss (absent, from) = (unmatched, source e from)
  where
    unmatched : (k : ℕ) (jp : Inode) → At (ip ∷ ips) k jp → matches dev inum jp ≡ false
    unmatched zero jp at = ground arith
    unmatched (suc k) jp at = absent k jp at

    source :
        (e' : Option (ℕ × Inode))
        → ((j : ℕ) (jp : Inode)
            → o ≡ some (j, jp)
            → (or_else e' (if ip.ref == 0 then some (i, ip) else none) ≡ some (j, jp))
              ⊎ ((k : ℕ) × (j ≡ i + 1 + k) × At ips k jp × (jp.ref ≡ 0)))
        → (j : ℕ) (jp : Inode) → o ≡ some (j, jp)
        → (e' ≡ some (j, jp)) ⊎ ((k : ℕ) × (j ≡ i + k) × At (ip ∷ ips) k jp × (jp.ref ≡ 0))
    source none h j jp q = elim (h j jp q) [
      | inl now ↦ elim (Bool-cases (ip.ref == 0)) [
        | inl free ↦ inr (0, ground arith, ground arith, ground arith)
        | inr used ↦ cc (rw used at now)
      ]
      | inr (k, at, here, free) ↦ inr (suc k, omega arith, here, free)
    ]
    source (some x) h j jp q = elim (h j jp q) [
      | inl before ↦ inl before
      | inr (k, at, here, free) ↦ inr (suc k, omega arith, here, free)
    ]

iget_loop-LoopEnd :
    (dev inum i : ℕ) (e : Option (ℕ × Inode)) (ips : List Inode)
    → LoopEnd dev inum i e ips (iget_loop dev inum i e ips)
unfolding iget_loop
iget_loop-LoopEnd dev inum i e [] = (λ k ip at. cc, λ j ip q. inl q)
iget_loop-LoopEnd dev inum i e (ip ∷ ips) = elim (Bool-cases (matches dev inum ip)) [
  | inl hit ↦ rw hit (0, omega arith, refl, hit)
  | inr miss ↦
      (let e' = or_else e (if ip.ref == 0 then some (i, ip) else none) in
        rw miss (
          loop_skip dev inum i e ip ips (iget_loop dev inum (i + 1) e' ips) miss
            (iget_loop-LoopEnd dev inum (i + 1) e' ips)))
]

-- No two entries in use are for the same inode.
abbrev pub Unique : List Inode → Type 0
Unique ips =
    (dev inum i j : ℕ) (a b : Inode)
    → get_elem? ips i ≡ some a
    → get_elem? ips j ≡ some b
    → matches dev inum a ≡ true
    → matches dev inum b ≡ true
    → i ≡ j

get_elem?-set :
    (ips : List Inode) (i j : ℕ) (x : Inode) {y : Inode}
    → get_elem? ips i ≡ some y
    → get_elem? (set ips i x) j ≡ (if i == j then some x else get_elem? ips j)
get_elem?-set [] i j x h = cc
get_elem?-set (y ∷ ips) zero zero x h = refl
get_elem?-set (y ∷ ips) zero (suc j) x h = ground arith
get_elem?-set (y ∷ ips) (suc i) zero x h = ground arith
get_elem?-set (y ∷ ips) (suc i) (suc j) x h = get_elem?-set ips i j x h ∙ ground arith

-- What a successful `iget` leaves at the entry that it returns: the one in use for the inode with
-- one reference more, or a free one made over to it where there was none.
abbrev pub Got : (dev inum : ℕ) → List Inode → Inode → Inode → Type 0
Got dev inum ips old new =
    ((matches dev inum old ≡ true) × (new ≡ record old { ref = old.ref + 1 }))
    ⊎ ((old.ref ≡ 0)
        × ((k : ℕ) (ip : Inode) → get_elem? ips k ≡ some ip → matches dev inum ip ≡ false)
        × (new ≡ record old { dev = dev; inum = inum; ref = 1; valid = false }))

pub record Gets (dev inum : ℕ) (ips : List Inode) (i : ℕ) (ips' : List Inode) : Type 0 where
  pub old : Inode
  pub new : Inode
  pub was : get_elem? ips i ≡ some old
  pub now : (j : ℕ) → get_elem? ips' j ≡ (if i == j then some new else get_elem? ips j)
  pub change : Got dev inum ips old new

Gets-set :
    (dev inum : ℕ) (ips : List Inode) (j : ℕ) (old new : Inode) {i : ℕ} {ips' : List Inode}
    → get_elem? ips j ≡ some old
    → Got dev inum ips old new
    → ◌≡◌ {A = ℕ × List Inode} (j, set ips j new) (i, ips')
    → Gets dev inum ips i ips'
Gets-set dev inum ips j old new was got e =
    subst (λ (p : ℕ × List Inode). Gets dev inum ips p.0 p.1) e
      (record {
        old = old;
        new = new;
        was = was;
        now = λ k. get_elem?-set ips j k new was;
        change = got;
      })

iget-some :
    (dev inum : ℕ) (ips : List Inode) (f : Found) {i : ℕ} {ips' : List Inode}
    → iget_loop dev inum 0 none ips ≡ f
    → LoopEnd dev inum 0 none ips f
    → iget dev inum ips ≡ some (i, ips')
    → Gets dev inum ips i ips'
unfolding iget
iget-some dev inum ips (cached j ip) {i} {ips'} e (k, at, here, hit) h =
    let same : j ≡ k = omega arith in
    Gets-set dev inum ips j ip _ (rw same here) (inl (hit, refl)) (of_some (rw (e, iget) at h))
iget-some dev inum ips (empty none) e l h = cc (rw (e, iget) at h)
iget-some dev inum ips (empty (some (j, ip))) {i} {ips'} e (absent, from) h =
    elim (from j ip refl) [
      | inl never ↦ cc never
      | inr (k, at, here, free) ↦
          (let same : j ≡ k = omega arith in
            Gets-set dev inum ips j ip _ (rw same here) (inr (free, absent, refl))
              (of_some (rw (e, iget) at h)))
    ]

Got-matches :
    (dev inum : ℕ) (ips : List Inode) (old new : Inode)
    → Got dev inum ips old new
    → (matches dev inum new ≡ true) × ((d m : ℕ) → matches d m new ≡ true → (d ≡ dev) × (m ≡ inum))
Got-matches dev inum ips old new (inl (hit, e)) = rw e (ground arith, λ d m h. ground arith)
Got-matches dev inum ips old new (inr (free, absent, e)) =
    rw e (ground arith, λ d m h. ground arith)

-- No entry but the one returned is in use for the inode.
Gets-alone :
    (dev inum : ℕ) (ips : List Inode) (i : ℕ) (ips' : List Inode) (x : ℕ) (c : Inode)
    → Unique ips
    → Gets dev inum ips i ips'
    → i ≢ x
    → get_elem? ips' x ≡ some c
    → matches dev inum c ≢ true
Gets-alone dev inum ips i ips' x c u g ne at hit =
    let miss : (i == x) ≡ false = ground arith in
    let was : get_elem? ips x ≡ some c = sym (rw miss at (g.now x)) ∙ at in
    elim g.change [
      | inl (held, e) ↦ ne (u dev inum i x g.old c g.was was held hit)
      | inr (free, absent, e) ↦ cc (absent x c was)
    ]

Gets-Unique :
    (dev inum : ℕ) (ips : List Inode) (i : ℕ) (ips' : List Inode)
    → Unique ips
    → Gets dev inum ips i ips'
    → Unique ips'
Gets-Unique dev inum ips i ips' u g d m j k a b at_j at_k hit_j hit_k =
    let (found, only) = Got-matches dev inum ips g.old g.new g.change in
    elim (Bool-cases (i == j)) [
      | inl this ↦ elim (Bool-cases (i == k)) [
        | inl both ↦ ground arith
        | inr other ↦
            (let new : a ≡ g.new = of_some (sym at_j ∙ rw this at (g.now j)) in
              let e = only d m (rw new at hit_j) in
              absurd (
                Gets-alone dev inum ips i ips' k b u g (ground arith) at_k
                  (rw (e.0, e.1) at hit_k)))
      ]
      | inr there ↦ elim (Bool-cases (i == k)) [
        | inl this ↦
            (let new : b ≡ g.new = of_some (sym at_k ∙ rw this at (g.now k)) in
              let e = only d m (rw new at hit_k) in
              absurd (
                Gets-alone dev inum ips i ips' j a u g (ground arith) at_j
                  (rw (e.0, e.1) at hit_j)))
        | inr both ↦
            u d m j k a b (sym (rw there at (g.now j)) ∙ at_j) (sym (rw both at (g.now k)) ∙ at_k)
              hit_j hit_k
      ]
    ]

-- `iget` keeps at most one entry in use for an inode. The entry that it returns is in use for the
-- inode asked for, with one reference more than before, or with one where it was free, in which
-- case no entry was in use for that inode; every other entry is as it was.
pub iget-Gets :
    (dev inum : ℕ) (ips : List Inode) {i : ℕ} {ips' : List Inode}
    → Unique ips
    → iget dev inum ips ≡ some (i, ips')
    → Gets dev inum ips i ips' × Unique ips'
iget-Gets dev inum ips {i} {ips'} u h =
    let g =
      iget-some dev inum ips (iget_loop dev inum 0 none ips) refl
        (iget_loop-LoopEnd dev inum 0 none ips) h in
    (g, Gets-Unique dev inum ips i ips' u g)
