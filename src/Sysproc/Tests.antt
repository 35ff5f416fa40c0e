-- ===== src/Sysproc/Tests.antt =====
-- The calls at concrete inputs.
use xv6_learn.Common.{ℕ, ◌≡◌, refl, false, ◌==◌, if◌then◌else◌}
use xv6_learn.Kalloc.{Kmem}
use xv6_learn.Vm.Copy.{copyin}
use xv6_learn.Sysproc.{fetchaddr}

-- The page table at 4096 maps the user's page 0 to 16384, with 20 times "a" from its byte 64 on.
abbrev words : ℕ → ℕ
words a =
    if a == 4096
    then 2049
    else if a == 8192
    then 3073
    else if a == 12288
    then 4119
    else if a == 16448
    then 0x6161616161616161
    else if a == 16456
    then 0x6161616161616161
    else if a == 16464
    then 0x61616161
    else 0

abbrev memory : Kmem
memory = record { freelist = 0; words = words }

-- The last word below the size, and one across it.
inside : fetchaddr 4096 4096 4088 20480 memory ≡ copyin 4096 20480 4088 8 memory
unfolding fetchaddr
inside = refl

across : fetchaddr 4096 4096 4089 20480 memory ≡ (false, memory)
unfolding fetchaddr
across = refl
