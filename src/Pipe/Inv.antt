-- ===== src/Pipe/Inv.antt =====
-- The invariant of `struct pipe`, with the counters taken modulo 2^32.
use xv6_learn.Common.{ℕ, ◌+◌, ◌-◌, ◌%◌, ◌^◌, ◌≤◌, ◌<◌, ◌≡◌, true, false, arith, length, length-set}
use xv6_learn.Pipe.{Pipe, pipesize, is_full, is_empty, put, get}

-- How many bytes the pipe holds.
abbrev pub count : Pipe → ℕ
count p = (p.nwrite + 2 ^ 32 - p.nread) % 2 ^ 32

pub record IsValid (p : Pipe) : Type 0 where
  pub room : length p.buf ≡ pipesize
  pub r_word : p.nread < 2 ^ 32
  pub w_word : p.nwrite < 2 ^ 32
  pub bounded : count p ≤ pipesize

pub count-full : {p : Pipe} → IsValid p → is_full p ≡ true → count p ≡ pipesize
count-full v h = ground arith

pub count-not_full : {p : Pipe} → IsValid p → is_full p ≡ false → count p < pipesize
count-not_full v h = ground arith

pub count-empty : {p : Pipe} → IsValid p → is_empty p ≡ true → count p ≡ 0
count-empty v h = ground arith

pub count-not_empty : {p : Pipe} → IsValid p → is_empty p ≡ false → 0 < count p
count-not_empty v h = ground arith

pub put-IsValid : {p : Pipe} (ch : ℕ) → IsValid p → is_full p ≡ false → IsValid (put p ch)
unfolding put
put-IsValid {p} ch v h =
    omega (arith, count-not_full v h, length-set p.buf (p.nwrite % pipesize) ch)

pub count-put : {p : Pipe} (ch : ℕ) → IsValid p → is_full p ≡ false → count (put p ch) ≡ count p + 1
unfolding put
count-put {p} ch v h = omega (arith, count-not_full v h)

pub get-IsValid : {p : Pipe} → IsValid p → is_empty p ≡ false → IsValid (get p).1
unfolding get
get-IsValid {p} v h = omega (arith, count-not_empty v h)

pub count-get : {p : Pipe} → IsValid p → is_empty p ≡ false → count (get p).1 + 1 ≡ count p
unfolding get
count-get {p} v h = omega (arith, count-not_empty v h)
