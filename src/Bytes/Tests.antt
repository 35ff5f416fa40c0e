-- ===== src/Bytes/Tests.antt =====
-- The string operations on concrete bytes.
use xv6_learn.Common.{◌+◌, ◌%◌, ◌≡◌, refl, some, arith, if◌then◌else◌}
use xv6_learn.Bytes.{Memory, memset, strlen}
use xv6_learn.Bytes.Move.{within, memset-at}
use xv6_learn.Bytes.Compare.{strlen-first}

-- The bytes 11, 12, 13 at 10, then NULs.
abbrev three : Memory
three = λ x. if within 10 3 x then x + 1 else 0

memset-at_example : memset 10 263 2 three 11 ≡ (if within 10 2 11 then 263 % 256 else three 11)
memset-at_example = memset-at 10 263 2 three 11

strlen-first_example : strlen 9 10 three ≡ some 3
strlen-first_example = strlen-first 9 10 3 three refl (λ j l z. ground arith) (omega arith)
