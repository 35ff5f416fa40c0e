-- ===== src/Bytes.antt =====
-- kernel/string.c: operations on the bytes of memory, a family by address. A `char` that is read is
-- its bit pattern; an `int` result is its bit pattern too. Addresses do not wrap: an object ends
-- below 2^64. A negative `int n` is as 0.
pub mod Move
pub mod Compare
pub mod Copy
mod Tests
use xv6_learn.Common.{
  ℕ, zero, suc, ◌+◌, ◌-◌, ◌%◌, ◌^◌, Bool, true, false, ◌&&◌, ◌||◌, Option, none, some, ◌==◌, ltb,
  if◌then◌else◌, update,
}

abbrev pub Memory : Type 0
Memory = ℕ → ℕ

-- `cdst[i] = c` for the `k` bytes from `i` on.
pub memset_loop : (dst c i k : ℕ) → Memory → Memory
memset_loop dst c i zero m = m
memset_loop dst c i (suc k) m = memset_loop dst c (i + 1) k (update m (dst + i) (c % 256))

pub memset : (dst c n : ℕ) → Memory → Memory
unfolding memset_loop
memset dst c n m = memset_loop dst c 0 n m

-- The difference of two bytes as an `int`.
abbrev pub difference : ℕ → ℕ → ℕ
difference a b = (a + 2 ^ 32 - b) % 2 ^ 32

pub memcmp : (v1 v2 n : ℕ) → Memory → ℕ
memcmp v1 v2 zero m = 0
memcmp v1 v2 (suc n) m =
    let rest = memcmp (v1 + 1) (v2 + 1) n m in
    if m v1 == m v2 then rest else difference (m v1) (m v2)

-- `*d++ = *s++`, and `*--d = *--s`.
pub forward : (n d s : ℕ) → Memory → Memory
forward zero d s m = m
forward (suc n) d s m = forward n (d + 1) (s + 1) (update m d (m s))

pub backward : (n d s : ℕ) → Memory → Memory
backward zero d s m = m
backward (suc n) d s m = backward n (d - 1) (s - 1) (update m (d - 1) (m (s - 1)))

pub memmove : (dst src n : ℕ) → Memory → Memory
unfolding forward backward
memmove dst src n m =
    if ltb src dst && ltb dst (src + n)
    then backward n (dst + n) (src + n) m
    else forward n dst src m

pub memcpy : (dst src n : ℕ) → Memory → Memory
unfolding memmove
memcpy dst src n m = memmove dst src n m

unfoldable pub strncmp : (p q n : ℕ) → Memory → ℕ
strncmp p q zero m = 0
strncmp p q (suc n) m =
    let rest = strncmp (p + 1) (q + 1) n m in
    if m p == 0 then difference (m p) (m q) else if m p == m q then rest else difference (m p) (m q)

-- `*s++ = 0`
unfoldable pub zero_loop : (n s : ℕ) → Memory → Memory
zero_loop zero s m = m
zero_loop (suc n) s m = zero_loop n (s + 1) (update m s 0)

unfoldable pub strncpy : (s t n : ℕ) → Memory → Memory
unfolding zero_loop
strncpy s t zero m = m
strncpy s t (suc n) m =
    let m' = update m s (m t) in
    let rest = strncpy (s + 1) (t + 1) n m' in if m t == 0 then zero_loop n (s + 1) m' else rest

-- The loop of `safestrcpy` that copies at most `k` bytes, and the NUL after it.
pub safe_loop : (s t k : ℕ) → Memory → Memory
safe_loop s t zero m = update m s 0
safe_loop s t (suc k) m =
    let m' = update m s (m t) in
    let rest = safe_loop (s + 1) (t + 1) k m' in if m t == 0 then update m' (s + 1) 0 else rest

pub safestrcpy : (s t n : ℕ) → Memory → Memory
unfolding safe_loop
safestrcpy s t n m = if n == 0 then m else safe_loop s t (n - 1) m

-- The loop of `strlen` from byte `n` on, for at most `fuel` bytes; `none` is when these are spent.
pub strlen_loop : (fuel s n : ℕ) → Memory → Option ℕ
strlen_loop zero s n m = none
strlen_loop (suc fuel) s n m =
    let rest = strlen_loop fuel s (n + 1) m in if m (s + n) == 0 then some n else rest

pub strlen : (fuel s : ℕ) → Memory → Option ℕ
unfolding strlen_loop
strlen fuel s m = strlen_loop fuel s 0 m
