-- ===== src/Uart/Tests.antt =====
-- The serial driver at concrete inputs.
use xv6_learn.Common.{
  ℕ, ◌≡◌, refl, arith, true, false, [], ◌∷◌, List, ◌==◌, replicate, length-replicate,
}
use xv6_learn.Uart.{Uart, uartstart, start_loop}
use xv6_learn.Uart.Stream.{
  IsValid, contents, Event, write, interrupt, System, run, InOrder, run-InOrder,
}

-- Two bytes wait, across the end of the ring.
abbrev uart : Uart
uart = record { buf = 7 ∷ replicate 31 6; w = 1; r = 31 }

uart-IsValid : IsValid uart
uart-IsValid = record {
  room = ground (arith, length-replicate {A = ℕ} 31 6);
  w_in = omega arith;
  r_in = omega arith;
}

abbrev system : System
system = record {
  cons = record { buf = replicate 128 0; r = 0; w = 0; e = 0 };
  uart = uart;
  accepted = 5 ∷ 6 ∷ 7 ∷ [];
  sent = 5 ∷ [];
}

abbrev events : List Event
events = write 65 (λ j. false) ∷ interrupt (97 ∷ []) (λ j. true) ∷ write 66 (λ j. true) ∷ []

run-InOrder_example :
    InOrder (run events system) × (contents (uartstart (λ j. true) (run events system).uart).0 ≡ [])
run-InOrder_example = run-InOrder events system (uart-IsValid, refl)

-- The second byte finds the transmitter busy.
one_sent : (uartstart (λ k. k == 0) uart).1 ≡ 6 ∷ []
unfolding uartstart start_loop
one_sent = refl
