-- ===== src/Bytes/Move.antt =====
-- `memset` and `memmove`.
use xv6_learn.Common.{
  ℕ, zero, suc, ◌+◌, ◌-◌, ◌%◌, ◌≤◌, ◌≡◌, ap, ◌∙◌, Bool, false, ◌&&◌, arith, ◌==◌, ltb, leb,
  if◌then◌else◌, update, inl, inr, Bool-cases,
}
use xv6_learn.Bytes.{Memory, memset_loop, memset, forward, backward, memmove}

abbrev pub within : (start n x : ℕ) → Bool
within start n x = leb start x && ltb x (start + n)

memset_loop-at :
    (dst c i k : ℕ) (m : Memory) (x : ℕ)
    → memset_loop dst c i k m x ≡ (if within (dst + i) k x then c % 256 else m x)
unfolding memset_loop
memset_loop-at dst c i zero m x = ground arith
memset_loop-at dst c i (suc k) m x =
    memset_loop-at dst c (i + 1) k (update m (dst + i) (c % 256)) x ∙ ground arith

-- `memset` puts the low byte of `c` into the `n` bytes from `dst` on, and into no others.
pub memset-at :
    (dst c n : ℕ) (m : Memory) (x : ℕ)
    → memset dst c n m x ≡ (if within dst n x then c % 256 else m x)
unfolding memset
memset-at dst c n m x = memset_loop-at dst c 0 n m x ∙ ground arith

abbrev moved_byte : (dst src n : ℕ) → Memory → ℕ → ℕ
moved_byte dst src n m x = if within dst n x then m (src + (x - dst)) else m x

forward-at :
    (n d s : ℕ) (m : Memory) (x : ℕ)
    → (ltb s d && ltb d (s + n)) ≡ false
    → forward n d s m x ≡ moved_byte d s n m x
unfolding forward
forward-at zero d s m x h = ground arith
forward-at (suc n) d s m x h =
    forward-at n (d + 1) (s + 1) (update m d (m s)) x (ground arith)
    ∙ elim (Bool-cases (within (d + 1) n x)) [
      | inl inside ↦
          let e : s + 1 + (x - (d + 1)) ≡ s + (x - d) = ground arith in ground (arith, ap m e)
      | inr outside ↦ elim (Bool-cases (d == x)) [
        | inl first ↦ let e : s ≡ s + (x - d) = ground arith in ground (arith, ap m e)
        | inr other ↦ ground arith
      ]
    ]

backward-at :
    (n d s : ℕ) (m : Memory) (x : ℕ) → s ≤ d → backward n (d + n) (s + n) m x ≡ moved_byte d s n m x
unfolding backward
backward-at zero d s m x h = ground arith
backward-at (suc n) d s m x h =
    let d' : d + suc n - 1 ≡ d + n = omega arith in
    let s' : s + suc n - 1 ≡ s + n = omega arith in
    rw (d', s')
      (backward-at n d s (update m (d + n) (m (s + n))) x h ∙ elim (Bool-cases (d + n == x)) [
        | inl last ↦ let e : s + n ≡ s + (x - d) = ground arith in ground (arith, ap m e)
        | inr other ↦ ground arith
      ])

-- `memmove` leaves at `dst` the `n` bytes that stood at `src` before, however the two ranges lie to
-- each other, and changes no other byte.
pub memmove-at :
    (dst src n : ℕ) (m : Memory) (x : ℕ)
    → memmove dst src n m x ≡ (if within dst n x then m (src + (x - dst)) else m x)
unfolding memmove
memmove-at dst src n m x = elim (Bool-cases (ltb src dst && ltb dst (src + n))) [
  | inl over ↦ rw over (backward-at n dst src m x (ground arith))
  | inr apart ↦ rw apart (forward-at n dst src m x apart)
]
