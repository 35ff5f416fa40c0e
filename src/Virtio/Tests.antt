-- ===== src/Virtio/Tests.antt =====
-- The driver of the disk at concrete inputs.
use xv6_learn.Common.{ℕ, zero, suc, ◌≡◌, refl, true, false, List, [], ◌∷◌, replicate}
use xv6_learn.Virtio.{Desc, Disk, Request}
use xv6_learn.Virtio.Chains.{taken}
use xv6_learn.Virtio.Flights.{Event, start, finish, System, Inv, Flying, run, run-Flying}

abbrev blank : Desc
blank = record { addr = 0; len = 0; flags = 0; next = 0 }

abbrev disk : Disk
disk = record {
  desc = replicate 8 blank;
  avail_idx = 0;
  avail_ring = replicate 8 0;
  free = replicate 8 true;
  used_idx = 0;
  info = replicate 8 (record { b = 0; status = 0 });
}

abbrev idle : System
idle = record { disk = disk; flights = [] }

idle-Inv : Inv idle
idle-Inv = record { size = refl; descs = refl; counts = none_taken; chains = tt }
  where
    none_taken : (x : ℕ) → taken (replicate 8 true) x ≡ 0
    none_taken zero = refl
    none_taken (suc zero) = refl
    none_taken (suc (suc zero)) = refl
    none_taken (suc (suc (suc zero))) = refl
    none_taken (suc (suc (suc (suc zero)))) = refl
    none_taken (suc (suc (suc (suc (suc zero))))) = refl
    none_taken (suc (suc (suc (suc (suc (suc zero)))))) = refl
    none_taken (suc (suc (suc (suc (suc (suc (suc zero))))))) = refl
    none_taken (suc (suc (suc (suc (suc (suc (suc (suc x)))))))) = refl

abbrev reads : ℕ → Request
reads n = record {
  b = 4096;
  bytes_at = 5000;
  blockno = n;
  write = false;
  buf0 = 9000;
  status_at = 7000;
}

-- The third request finds two descriptors and sleeps, until the second has ended.
abbrev events : List Event
events = start (reads 4) ∷ start (reads 5) ∷ start (reads 6) ∷ finish 0 ∷ start (reads 6) ∷ []

run-Flying_example : Flying (run events idle)
run-Flying_example = run-Flying events idle idle-Inv
