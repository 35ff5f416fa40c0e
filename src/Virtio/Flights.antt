-- ===== src/Virtio/Flights.antt =====
-- The requests that are in flight, and the descriptors that they hold: segments of `virtio_disk_rw` by
-- any processes, in any order.
use xv6_learn.Common.{
  ℕ, zero, suc, ◌+◌, ◌<◌, ◌≡◌, inl, inr, refl, ap, ◌∙◌, arith, Option, none, some, List, [], ◌∷◌,
  length, get_elem?, set, get_or, Option-cases,
}
use xv6_learn.Virtio.{
  num, Desc, Disk, Chain, alloc3_desc, Request, put_chain, submit, start_rw, finish_rw,
}
use xv6_learn.Virtio.Chains.{taken, taken_bound, Links}
use xv6_learn.Virtio.Triples.{
  Frees, uses, Took, Allocated, alloc3_desc-Allocated, IsChain, free_chain-Frees,
}
use xv6_learn.Virtio.Linking.{
  IsChain-kept, put_chain-IsChain, put_chain-Links, length-put_chain, took-Distinct,
}

-- How many requests hold descriptor `x`.
abbrev pub held : List Chain → ℕ → ℕ
held [] x = 0
held (c ∷ cs) x = held cs x + uses c x

abbrev pub AllChains : List Desc → List Chain → Type 0
AllChains ds [] = Unit {0}
AllChains ds (c ∷ cs) = IsChain ds c × AllChains ds cs

abbrev pub remove : ℕ → List Chain → List Chain
remove n [] = []
remove zero (c ∷ cs) = cs
remove (suc n) (c ∷ cs) = c ∷ remove n cs

-- The driver, with the chains of the requests that have been handed to the device.
pub record System : Type 0 where
  pub disk : Disk
  pub flights : List Chain

-- A descriptor is free unless one request holds it, once; the chain of each request is linked.
pub record Inv (s : System) : Type 0 where
  pub size : length s.disk.free ≡ num
  pub descs : length s.disk.desc ≡ num
  pub counts : (x : ℕ) → taken s.disk.free x ≡ held s.flights x
  pub chains : AllChains s.disk.desc s.flights

AllChains-kept :
    (ds es : List Desc) (cs : List Chain)
    → ((x : ℕ) → 0 < held cs x → Links ds es x)
    → AllChains ds cs
    → AllChains es cs
AllChains-kept ds es [] links h = tt
AllChains-kept ds es (c ∷ cs) links (h, hs) = (
  IsChain-kept ds es c (λ x p. links x (omega arith)) h,
  AllChains-kept ds es cs (λ x p. links x (omega arith)) hs,
)

held-remove :
    (n : ℕ) (cs : List Chain) (c : Chain)
    → get_elem? cs n ≡ some c
    → (x : ℕ) → held cs x ≡ held (remove n cs) x + uses c x
held-remove n [] c h x = cc
held-remove zero (d ∷ cs) c h x = let e : d ≡ c = ground arith in rw e refl
held-remove (suc n) (d ∷ cs) c h x = omega (arith, held-remove n cs c h x)

AllChains-remove :
    (ds : List Desc) (n : ℕ) (cs : List Chain) → AllChains ds cs → AllChains ds (remove n cs)
AllChains-remove ds n [] h = h
AllChains-remove ds zero (c ∷ cs) (h, hs) = hs
AllChains-remove ds (suc n) (c ∷ cs) (h, hs) = (h, AllChains-remove ds n cs hs)

AllChains-at :
    (ds : List Desc) (n : ℕ) (cs : List Chain) (c : Chain)
    → get_elem? cs n ≡ some c
    → AllChains ds cs
    → IsChain ds c
AllChains-at ds n [] c h a = cc
AllChains-at ds zero (d ∷ cs) c h (a, as1) = let e : d ≡ c = ground arith in rw (← e) a
AllChains-at ds (suc n) (d ∷ cs) c h (a, as1) = AllChains-at ds n cs c h as1

-- A segment of `virtio_disk_rw`: from its start, or from a wakeup with the buffer done, for the request
-- at a place among those in flight. A finish of a request that is not in flight does not occur.
pub data Event : Type 0 where
  start : Request → Event
  finish : (n : ℕ) → Event

abbrev pub started : List Chain → Option (Option Chain × Disk) → Option System
started cs none = none
started cs (some (none, d)) = some (record { disk = d; flights = cs })
started cs (some (some c, d)) = some (record { disk = d; flights = c ∷ cs })

abbrev pub finished : (n : ℕ) → List Chain → Option Disk → Option System
finished n cs none = none
finished n cs (some d) = some (record { disk = d; flights = remove n cs })

-- `none` is a panic.
pub exec : Event → System → Option System
exec (start q) s = started s.flights (start_rw q s.disk)
exec (finish n) s = elim (get_elem? s.flights n) [
  | none ↦ some s
  | some c ↦ finished n s.flights (finish_rw c s.disk)
]

pub run : List Event → System → Option System
unfolding exec
run [] s = some s
run (e ∷ es) s = elim (exec e s) [ none ↦ none | some t ↦ run es t ]

abbrev pub Flying : Option System → Type 0
Flying none = ⊥
Flying (some s) = Inv s

submitted-Inv :
    (q : Request) (c : Chain) (s : System) (d : Disk)
    → Inv s
    → Took c s.disk d
    → Inv (record { disk = submit q c d; flights = c ∷ s.flights })
unfolding submit
submitted-Inv q (i, j, k) s d v (same, size, more) =
    let descs : length d.desc ≡ num = ap length same ∙ v.descs in
    let chains : AllChains d.desc s.flights = rw same v.chains in
    record {
      size = size ∙ v.size;
      descs = length-put_chain q (i, j, k) d.desc ∙ descs;
      counts = λ x. omega (arith, more x, v.counts x);
      chains = (
        put_chain-IsChain q (i, j, k) d.desc descs
            (took-Distinct (i, j, k) s.disk.free d.free (size ∙ v.size) more),
        AllChains-kept d.desc (put_chain q (i, j, k) d.desc) s.flights
            (λ x p.
              put_chain-Links q (i, j, k) d.desc x
                (omega (arith, more x, v.counts x, taken_bound d.free x, p)))
            chains,
      );
    }

start-Flying : (q : Request) (s : System) → Inv s → Flying (exec (start q) s)
unfolding exec start_rw submit
start-Flying q s v = go (alloc3_desc s.disk) refl (alloc3_desc-Allocated s.disk v.size)
  where
    go :
        (o : Option (Option Chain × Disk))
        → alloc3_desc s.disk ≡ o
        → Allocated s.disk o
        → Flying (exec (start q) s)
    go none e a = absurd a
    go (some (none, d)) e (size, same, descs, links) =
        rw (exec, start_rw, e)
          (record {
            size = size ∙ v.size;
            descs = descs ∙ v.descs;
            counts = λ x. same x ∙ v.counts x;
            chains = AllChains-kept s.disk.desc d.desc s.flights (λ x p. links x) v.chains;
          })
    go (some (some c, d)) e a = rw (exec, start_rw, e) (submitted-Inv q c s d v a)

freed-Flying :
    (n : ℕ) (s : System) (c : Chain) (d d' : Disk)
    → Inv s
    → get_elem? s.flights n ≡ some c
    → d.desc ≡ s.disk.desc
    → d.free ≡ s.disk.free
    → Frees (uses c) d d'
    → Inv (record { disk = d'; flights = remove n s.flights })
freed-Flying n s c d d' v at descs free f =
    let chains : AllChains d.desc s.flights = rw descs v.chains in
    record {
      size = f.size ∙ ap length free ∙ v.size;
      descs = f.descs ∙ ap length descs ∙ v.descs;
      counts = λ x. omega (
        arith,
        f.fewer x,
        ap (λ fs. taken fs x) free,
        v.counts x,
        held-remove n s.flights c at x,
      );
      chains =
          AllChains-kept d.desc d'.desc (remove n s.flights) (λ x p. f.links x)
            (AllChains-remove d.desc n s.flights chains);
    }

finish-Flying : (n : ℕ) (s : System) → Inv s → Flying (exec (finish n) s)
unfolding exec finish_rw
finish-Flying n s v = elim (Option-cases (get_elem? s.flights n)) [
  | inl past ↦ rw (exec, past) v
  | inr ((i, j, k), at) ↦
      (let inf = get_or s.disk.info i (record { b = 0; status = 0 }) in
        let d : Disk = record s.disk { info = set s.disk.info i (record inf { b = 0 }) } in
        let (d', e, f) =
          free_chain-Frees 6 (i, j, k) d v.size
            (λ x. omega (arith, v.counts x, held-remove n s.flights (i, j, k) at x))
            (AllChains-at s.disk.desc n s.flights (i, j, k) at v.chains) in
        rw (exec, at, finish_rw, e) (freed-Flying n s (i, j, k) d d' v at refl refl f))
]

exec-Flying : (e : Event) (s : System) → Inv s → Flying (exec e s)
exec-Flying (start q) s v = start-Flying q s v
exec-Flying (finish n) s v = finish-Flying n s v

-- Whatever segments of `virtio_disk_rw` run, in any order, none panics; a descriptor is free unless
-- one request in flight holds it, once, and the descriptors of each request stay linked, so that the
-- request's end gives back the three that it took.
pub run-Flying : (es : List Event) (s : System) → Inv s → Flying (run es s)
unfolding run
run-Flying [] s v = v
run-Flying (e ∷ es) s v = elim (Option-cases (exec e s)) [
  | inl panics ↦ absurd (rw panics at (exec-Flying e s v))
  | inr (t, made) ↦ rw (run, made) (run-Flying es t (rw made at (exec-Flying e s v)))
]
