-- ===== src/Vm/Copy/Strings.antt =====
-- What `copyinstr` and `memmove` leave in memory, byte by byte.
use xv6_learn.Common.{
  ℕ, zero, suc, ◌+◌, ◌-◌, ◌≤◌, ◌<◌, ◌≡◌, ◌⊎◌, inl, inr, refl, arith, ap, ◌∙◌, min, Bool, true,
  false, ◌==◌, ltb, Bool-cases,
}
use xv6_learn.Kalloc.{Kmem, pgsize}
use xv6_learn.Vm.{pg_round_down, walkaddr}
use xv6_learn.Vm.Copy.{
  get_byte, put_byte, get_bytes, put_bytes, move, string_loop, copyinstr_loop, copyinstr,
}
use xv6_learn.Vm.Copy.Packed.{get_byte-put_byte, get_byte-put_byte_ne}

abbrev pub byte : Kmem → ℕ → ℕ
byte k x = get_byte x k.words

pub get_byte-small : (x : ℕ) (m : ℕ → ℕ) → get_byte x m < 256
unfolding get_byte
get_byte-small x m = omega arith

-- Outside the `max` bytes from `dst` on nothing changes; and if the string came to its NUL, there is a
-- NUL among these bytes.
pub record Strung (dst max : ℕ) (k : Kmem) (out : Bool × Kmem) : Type 0 where
  pub keeps : (x : ℕ) → (x < dst) ⊎ (dst + max ≤ x) → byte out.1 x ≡ byte k x
  pub ends : out.0 ≡ true → (j : ℕ) × (j < max) × (byte out.1 (dst + j) ≡ 0)

same-Strung : (dst max : ℕ) (k : Kmem) → Strung dst max k (false, k)
same-Strung dst max k = record { keeps = λ x h. refl; ends = λ h. cc }

-- A string that goes on `n` bytes further.
later-Strung :
    (n rest dst max : ℕ) (k k' : Kmem) (out : Bool × Kmem)
    → n + rest ≡ max
    → ((x : ℕ) → (x < dst) ⊎ (dst + n ≤ x) → byte k' x ≡ byte k x)
    → Strung (dst + n) rest k' out
    → Strung dst max k out
later-Strung n rest dst max k k' out h same v = record {
  keeps = λ x o. v.keeps x (ground arith) ∙ same x (ground arith);
  ends = λ e.
      let (j, low, z) = v.ends e in
      let at : dst + (n + j) ≡ dst + n + j = omega arith in
      (n + j, omega arith, ap (byte out.1) at ∙ z);
}

string_loop-Strung : (n dst p : ℕ) (k : Kmem) → Strung dst n k (string_loop n dst p k)
unfolding string_loop
string_loop-Strung zero dst p k = same-Strung dst zero k
string_loop-Strung (suc n) dst p k =
    let c = get_byte p k.words in
    let k' : Kmem = record { freelist = k.freelist; words = put_byte dst c k.words } in
    let others : (x : ℕ) → (x < dst) ⊎ (dst + 1 ≤ x) → byte k' x ≡ byte k x =
      λ x o. get_byte-put_byte_ne dst x c k.words (get_byte-small p k.words) (λ e. ground arith) in
    elim (Bool-cases (c == 0)) [
      | inl end ↦
          rw (string_loop, end)
            (record {
              keeps = λ x o. others x (ground arith);
              ends = λ h.
                  let at : dst + 0 ≡ dst = omega arith in
                  (
                    0,
                    omega arith,
                    ap (byte k') at
                        ∙ get_byte-put_byte dst c k.words (get_byte-small p k.words)
                        ∙ ground arith,
                  );
            })
      | inr more ↦
          rw (string_loop, more)
            (later-Strung 1 n dst (suc n) k k' _ (omega arith) others
              (string_loop-Strung n (dst + 1) (p + 1) k'))
    ]

copyinstr_loop-Strung :
    (fuel table dst srcva max : ℕ) (k : Kmem)
    → Strung dst max k (copyinstr_loop fuel table dst srcva max k)
unfolding copyinstr_loop
copyinstr_loop-Strung zero table dst srcva max k = same-Strung dst max k
copyinstr_loop-Strung (suc fuel) table dst srcva max k = elim (Bool-cases (ltb 0 max)) [
  | inr none_left ↦ rw (copyinstr_loop, none_left) (same-Strung dst max k)
  | inl some_left ↦
      (let va0 = pg_round_down srcva in
        let pa0 = walkaddr table va0 k in
        let n = min (pgsize - (srcva - va0)) max in
        let out = string_loop n dst (pa0 + (srcva - va0)) k in
        let part : Strung dst n k out = string_loop-Strung n dst (pa0 + (srcva - va0)) k in
        let within : n + (max - n) ≡ max = ground arith in
        elim (Bool-cases (pa0 == 0)) [
          | inl unmapped ↦ rw (copyinstr_loop, some_left, unmapped) (same-Strung dst max k)
          | inr mapped ↦ elim (Bool-cases out.0) [
            | inl null ↦
                rw (copyinstr_loop, some_left, mapped, null)
                  (record {
                    keeps = λ x o. part.keeps x (ground arith);
                    ends = λ h. let (j, low, z) = part.ends null in (j, omega (arith, within), z);
                  })
            | inr more ↦
                rw (copyinstr_loop, some_left, mapped, more)
                  (later-Strung n (max - n) dst max k out.1 _ within part.keeps
                    (copyinstr_loop-Strung fuel table (dst + n) (va0 + pgsize) (max - n) out.1))
          ]
        ])
]

pub copyinstr-Strung :
    (table dst srcva max : ℕ) (k : Kmem) → Strung dst max k (copyinstr table dst srcva max k)
unfolding copyinstr
copyinstr-Strung table dst srcva max k = copyinstr_loop-Strung max table dst srcva max k

put_bytes-outside :
    (n a src x : ℕ) (f m : ℕ → ℕ)
    → (x < a) ⊎ (a + n ≤ x)
    → get_byte x (put_bytes a (get_bytes n src f) m) ≡ get_byte x m
put_bytes-outside zero a src x f m h = refl
put_bytes-outside (suc n) a src x f m h =
    put_bytes-outside n (a + 1) (src + 1) x f (put_byte a (get_byte src f) m) (ground arith)
    ∙ get_byte-put_byte_ne a x (get_byte src f) m (get_byte-small src f) (λ e. ground arith)

put_bytes-at :
    (n a src j : ℕ) (f m : ℕ → ℕ)
    → j < n
    → get_byte (a + j) (put_bytes a (get_bytes n src f) m) ≡ get_byte (src + j) f
put_bytes-at zero a src j f m h = absurd (omega arith)
put_bytes-at (suc n) a src zero f m h =
    let c = get_byte src f in
    let at : a + 0 ≡ a = omega arith in
    let from : src + 0 ≡ src = omega arith in
    rw (at, from)
      (put_bytes-outside n (a + 1) (src + 1) a f (put_byte a c m) (inl (omega arith))
        ∙ get_byte-put_byte a c m (get_byte-small src f))
put_bytes-at (suc n) a src (suc j) f m h =
    let at : a + suc j ≡ a + 1 + j = omega arith in
    let from : src + suc j ≡ src + 1 + j = omega arith in
    rw (at, from)
      (put_bytes-at n (a + 1) (src + 1) j f (put_byte a (get_byte src f) m) (omega arith))

pub move-at :
    (dst src n j : ℕ) (k : Kmem) → j < n → byte (move dst src n k) (dst + j) ≡ byte k (src + j)
move-at dst src n j k h = put_bytes-at n dst src j k.words k.words h

pub move-outside :
    (dst src n x : ℕ) (k : Kmem) → (x < dst) ⊎ (dst + n ≤ x) → byte (move dst src n k) x ≡ byte k x
move-outside dst src n x k h = put_bytes-outside n dst src x k.words k.words h
