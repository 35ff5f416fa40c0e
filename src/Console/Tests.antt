-- ===== src/Console/Tests.antt =====
-- The console at concrete inputs.
use xv6_learn.Common.{ℕ, ◌≡◌, refl, arith, false, ◌∷◌, length-replicate, replicate}
use xv6_learn.Fs.{Bytes}
use xv6_learn.Fs.Content.{kernel_copies}
use xv6_learn.Console.{Cons, consoleintr, consoleread, kill_loop}
use xv6_learn.Console.Editing.{IsValid, view}
use xv6_learn.Console.Storing.{Handles, consoleintr-Handles}
use xv6_learn.Console.Reading.{serve, Serves, consoleread-Serves}

-- "hi" and a newline may be read, and "x" is typed.
abbrev cons : Cons
cons = record { buf = 104 ∷ 105 ∷ 10 ∷ 120 ∷ replicate 124 0; r = 0; w = 3; e = 4 }

cons-IsValid : IsValid cons
cons-IsValid = record {
  room = ground (arith, length-replicate {A = ℕ} 124 0);
  r_word = omega arith;
  w_word = omega arith;
  e_word = omega arith;
  bounded = omega arith;
  typed = (refl, tt);
}

consoleintr-Handles_example : Handles 13 cons (consoleintr 13 cons)
consoleintr-Handles_example = consoleintr-Handles 13 cons cons-IsValid

abbrev zeros : Bytes
zeros x = 0

consoleread-Serves_example :
    Serves
      (serve false 5 5 (view cons).committed)
      100
      cons
      zeros
      (consoleread kernel_copies false 5 5 100 cons zeros)
consoleread-Serves_example = consoleread-Serves false 5 5 100 cons zeros cons-IsValid

-- A kill takes the line, and the newline before it stays.
kill_line : (kill_loop 9 cons).0.e ≡ 3
unfolding kill_loop
kill_line = refl
