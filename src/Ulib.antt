-- ===== src/Ulib.antt =====
-- user/ulib.c on the bytes of a process's memory, which objects end below 2^64 in; a `char` is its bit
-- pattern, and so is an `int`. A string that a function only reads from its start is its bytes.
pub mod Memory
mod Tests
use xv6_learn.Common.{
  ℕ, zero, suc, ◌+◌, ◌-◌, ◌*◌, ◌%◌, ◌^◌, Bool, true, false, not, ◌&&◌, ◌||◌, Option, none, some,
  List, [], ◌∷◌, ◌==◌, ltb, leb, if◌then◌else◌, update,
}
use xv6_learn.Bytes
use xv6_learn.Bytes.{difference}

abbrev pub is_digit : ℕ → Bool
is_digit c = leb 48 c && leb c 57

-- The loop of `atoi` with `n` read so far.
unfoldable pub atoi_loop : (n : ℕ) → List ℕ → ℕ
atoi_loop n [] = n
atoi_loop n (c ∷ s) =
    let rest = atoi_loop ((n * 10 + c + 2 ^ 32 - 48) % 2 ^ 32) s in if is_digit c then rest else n

unfoldable pub atoi : List ℕ → ℕ
unfolding atoi_loop
atoi s = atoi_loop 0 s

-- `*s++ = *t++` until a NUL is copied, for at most `fuel` bytes; `none` is when these are spent.
pub strcpy : (fuel s t : ℕ) → Bytes.Memory → Option Bytes.Memory
strcpy zero s t m = none
strcpy (suc fuel) s t m =
    let m' = update m s (m t) in
    let rest = strcpy fuel (s + 1) (t + 1) m' in if m t == 0 then some m' else rest

pub strcmp : (fuel p q : ℕ) → Bytes.Memory → Option ℕ
strcmp zero p q m = none
strcmp (suc fuel) p q m =
    let rest = strcmp fuel (p + 1) (q + 1) m in
    if not (m p == 0) && m p == m q then rest else some (difference (m p) (m q))

-- `*dst++ = *src++` and `*--dst = *--src`, `n` times.
pub copy_up : (n dst src : ℕ) → Bytes.Memory → Bytes.Memory
copy_up zero dst src m = m
copy_up (suc n) dst src m = copy_up n (dst + 1) (src + 1) (update m dst (m src))

pub copy_down : (n dst src : ℕ) → Bytes.Memory → Bytes.Memory
copy_down zero dst src m = m
copy_down (suc n) dst src m = copy_down n (dst - 1) (src - 1) (update m (dst - 1) (m (src - 1)))

pub memmove : (vdst vsrc n : ℕ) → Bytes.Memory → Bytes.Memory
unfolding copy_up copy_down
memmove vdst vsrc n m =
    if ltb vdst vsrc then copy_up n vdst vsrc m else copy_down n (vdst + n) (vsrc + n) m

pub memcpy : (dst src n : ℕ) → Bytes.Memory → Bytes.Memory
unfolding memmove
memcpy dst src n m = memmove dst src n m

pub memcmp : (s1 s2 n : ℕ) → Bytes.Memory → ℕ
memcmp s1 s2 zero m = 0
memcmp s1 s2 (suc n) m =
    let rest = memcmp (s1 + 1) (s2 + 1) n m in
    if not (m s1 == m s2) then difference (m s1) (m s2) else rest

-- `cdst[i] = c` for the `k` bytes from `i` on.
pub fill : (dst c i k : ℕ) → Bytes.Memory → Bytes.Memory
fill dst c i zero m = m
fill dst c i (suc k) m = fill dst c (i + 1) k (update m (dst + i) (c % 256))

pub memset : (dst c n : ℕ) → Bytes.Memory → Bytes.Memory
unfolding fill
memset dst c n m = fill dst c 0 n m

-- The loop of `gets` on the bytes that the reads return, the end of the input after them, with room
-- for `k` bytes more and the NUL: what is stored before the NUL, and the input that is left.
unfoldable pub gets_loop : (k : ℕ) → List ℕ → List ℕ × List ℕ
gets_loop zero input = ([], input)
gets_loop (suc k) [] = ([], [])
gets_loop (suc k) (c ∷ input) =
    let (line, left) = gets_loop k input in
    if c == 10 || c == 13 then (c ∷ [], input) else (c ∷ line, left)

-- The bytes before the NUL.
unfoldable pub gets : (max : ℕ) → List ℕ → List ℕ × List ℕ
unfolding gets_loop
gets max input = gets_loop (max - 1) input
