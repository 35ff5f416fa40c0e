-- ===== src/Ulib/Memory.antt =====
-- The memory functions of the user library and those of the kernel.
use xv6_learn.Common.{ℕ, ◌+◌, ◌-◌, if◌then◌else◌}
use xv6_learn.Bytes
use xv6_learn.Bytes.Move.{within}

abbrev moved : (dst src n : ℕ) → Bytes.Memory → ℕ → ℕ
moved dst src n m x = if within dst n x then m (src + (x - dst)) else m x
