-- ===== src/Bcache/Tests.antt =====
-- The buffer cache run on two buffers, and its theorem there.
use xv6_learn.Common.{◌≡◌, refl, true, some, List, [], ◌∷◌}
use xv6_learn.Bcache.{Buf, counted, bget}
use xv6_learn.Bcache.Recycling.{OneEach, GetEnd, OneEachAfter, bget-GetEnd}

-- Block 7 of device 1, in use, and block 9, not in use.
abbrev seven : Buf
seven = record {
  place = 0;
  is_valid = true;
  dev = 1;
  blockno = 7;
  lock = record { locked = true; pid = 3 };
  refcnt = 1;
  bytes = λ x. x;
}

abbrev nine : Buf
nine = record seven { place = 1; blockno = 9; refcnt = 0 }

abbrev two_bufs : List Buf
two_bufs = seven ∷ nine ∷ []

two_bufs-OneEach : OneEach two_bufs
two_bufs-OneEach = (λ used. (refl, tt), (λ used. tt, tt))

bget-seven : bget 1 7 two_bufs ≡ some (0, counted seven ∷ nine ∷ [])
unfolding bget
bget-seven = refl

-- Block 8 takes the buffer of block 9.
bget-GetEnd_example : GetEnd 1 8 two_bufs (bget 1 8 two_bufs) × OneEachAfter (bget 1 8 two_bufs)
bget-GetEnd_example = bget-GetEnd 1 8 two_bufs two_bufs-OneEach
