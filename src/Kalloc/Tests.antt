-- ===== src/Kalloc/Tests.antt =====
-- The allocator on concrete pages.
use xv6_learn.Common.{ℕ, ◌-◌, refl, List, [], ◌∷◌, arith, if◌then◌else◌, ◌==◌}
use xv6_learn.Kalloc.{phystop}
use xv6_learn.Kalloc.Owners.{System, Event, alloc, free, write, run, Inv, Fine, run-Fine}

-- The kernel ends three pages and a byte below PHYSTOP.
abbrev kernel_end : ℕ
kernel_end = phystop - 12289

-- Three pages, the last of them first in the list; one more in use.
abbrev two_free : System
two_free = record {
  kmem = record {
    freelist = phystop - 4096;
    words = λ a. if a == phystop - 4096 then phystop - 8192 else 0;
  };
  held = (phystop - 12288) ∷ [];
}

two_free-Inv : Inv kernel_end 3 two_free
two_free-Inv = record {
  pages = (phystop - 4096) ∷ (phystop - 8192) ∷ [];
  chain = (refl, (refl, refl));
  apart = (refl, (refl, tt));
  held_apart = (refl, tt);
  valid = (omega arith, (omega arith, tt));
  held_valid = (omega arith, tt);
  disjoint = λ x i. ground arith;
  total = refl;
}

-- A page is taken, written over, given back, and comes first again.
abbrev calls : List Event
calls =
    alloc ∷ write (phystop - 4088) 7 ∷ write (phystop - 4096) 9 ∷ free (phystop - 4096) ∷ alloc ∷ []

run-Fine_example : Fine kernel_end (omega arith) 3 (run kernel_end calls two_free)
run-Fine_example = run-Fine kernel_end (omega arith) calls two_free two_free-Inv
