-- ===== src/Pipe/Queue.antt =====
-- A pipe as the queue of the bytes that it holds, oldest first.
use xv6_learn.Common.{
  ℕ, zero, suc, ◌+◌, ◌-◌, ◌%◌, ◌^◌, ◌<◌, ◌≡◌, ◌≢◌, refl, sym, ap, ap₂, ◌∙◌, Bool, true, false, List,
  [], ◌∷◌, ◌++◌, arith, length, get_or, set, get_or-set_self, get_or-set_ne,
}
use xv6_learn.Pipe.{Pipe, pipesize, wrap, is_full, is_empty, put, get, init_pipe, pipeclose}
use xv6_learn.Pipe.Inv.{IsValid, count, count-not_full, count-not_empty}

-- The `n` bytes from counter `r` on.
abbrev pub window : List ℕ → ℕ → ℕ → List ℕ
window buf r zero = []
window buf r (suc n) = get_or buf (r % pipesize) 0 ∷ window buf (wrap (r + 1)) n

unfoldable pub contents : Pipe → List ℕ
contents p = window p.buf p.nread (count p)

length-window : (buf : List ℕ) (r n : ℕ) → length (window buf r n) ≡ n
length-window buf r zero = refl
length-window buf r (suc n) = ap suc (length-window buf (wrap (r + 1)) n)

pub length-contents : (p : Pipe) → length (contents p) ≡ count p
unfolding contents
length-contents p = length-window p.buf p.nread (count p)

-- Fewer than 512 counters apart, two counters have different places.
place_ne : (r n : ℕ) → suc n < pipesize → wrap (r + suc n) % pipesize ≢ r % pipesize
place_ne r n h = omega arith

-- Writing just past a window extends it by that byte.
window-set :
    (buf : List ℕ) (x n r i : ℕ)
    → length buf ≡ pipesize
    → n < pipesize
    → i ≡ wrap (r + n) % pipesize
    → window (set buf i x) r (suc n) ≡ window buf r n ++ (x ∷ [])
window-set buf x zero r i room hn e =
    let i' : i ≡ r % pipesize = omega arith in
    ap (λ v. v ∷ [])
      (ap (λ j. get_or (set buf i x) j 0) (sym i') ∙ get_or-set_self buf i x 0 (omega arith))
window-set buf x (suc n) r i room hn e =
    ap₂ ◌∷◌ (get_or-set_ne buf x 0 (rw e (place_ne r n hn)))
      (window-set buf x n (wrap (r + 1)) i room (omega arith) (omega arith))

grown :
    {p : Pipe} (ch : ℕ)
    → IsValid p
    → is_full p ≡ false
    → (wrap (p.nwrite + 1) + 2 ^ 32 - p.nread) % 2 ^ 32 ≡ suc (count p)
grown {p} ch v h = omega (arith, count-not_full v h)

-- `put` appends at the back.
pub contents-put :
    {p : Pipe} (ch : ℕ)
    → IsValid p
    → is_full p ≡ false
    → contents (put p ch) ≡ contents p ++ (ch ∷ [])
unfolding contents put
contents-put {p} ch v h =
    ap (window (set p.buf (p.nwrite % pipesize) ch) p.nread) (grown ch v h)
    ∙ window-set p.buf ch (count p) p.nread (p.nwrite % pipesize) v.room (count-not_full v h)
        (omega (arith, count-not_full v h))

window-pop :
    (buf : List ℕ) (r n : ℕ)
    → 0 < n
    → window buf r n ≡ get_or buf (r % pipesize) 0 ∷ window buf (wrap (r + 1)) (n - 1)
window-pop buf r zero h = absurd (omega arith)
window-pop buf r (suc n) h = ap (λ k. window buf r (suc k)) (omega arith)

-- `get` takes from the front.
pub contents-get :
    {p : Pipe} → IsValid p → is_empty p ≡ false → contents p ≡ (get p).0 ∷ contents (get p).1
unfolding contents get
contents-get {p} v h =
    window-pop p.buf p.nread (count p) (count-not_empty v h)
    ∙ ap (λ k. get_or p.buf (p.nread % pipesize) 0 ∷ window p.buf (wrap (p.nread + 1)) k)
        (omega (arith, count-not_empty v h))

-- A new pipe is empty.
pub contents-init : (page : List ℕ) → contents (init_pipe page) ≡ []
unfolding contents init_pipe
contents-init page = refl

-- `pipeclose` leaves the bytes alone.
pub contents-pipeclose :
    (p : Pipe) (writable : Bool) → contents (pipeclose p writable).0 ≡ contents p
unfolding contents pipeclose
contents-pipeclose p true = refl
contents-pipeclose p false = refl

pub pipeclose-IsValid : {p : Pipe} (writable : Bool) → IsValid p → IsValid (pipeclose p writable).0
unfolding pipeclose
pipeclose-IsValid true v = omega arith
pipeclose-IsValid false v = omega arith
