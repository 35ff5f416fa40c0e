-- ===== src/Ulib/Tests.antt =====
-- The user library at concrete inputs.
use xv6_learn.Common.{◌≡◌, refl, [], ◌∷◌}
use xv6_learn.Bytes
use xv6_learn.Ulib.{atoi, atoi_loop, gets, gets_loop}

-- "42!"
forty_two : atoi (52 ∷ 50 ∷ 33 ∷ []) ≡ 42
unfolding atoi atoi_loop
forty_two = refl

-- A line that ends with a newline, and one that fills the buffer.
one_line : gets 10 (97 ∷ 10 ∷ 98 ∷ []) ≡ (97 ∷ 10 ∷ [], 98 ∷ [])
unfolding gets gets_loop
one_line = refl

full_buffer : gets 2 (97 ∷ 98 ∷ []) ≡ (97 ∷ [], 98 ∷ [])
unfolding gets gets_loop
full_buffer = refl
