-- ===== src/Uart.antt =====
-- kernel/uart.c: the ring of the bytes to send, and the interrupt handler. What the line status
-- register says of the transmitter at its reads during a call is a parameter, `idle`, by the number
-- of the read; the bytes are those written to THR, each after a `wakeup` of the writers. No panic has
-- been reported, and `uart_tx_lock` is held around each change.
pub mod Stream
mod Tests
use xv6_learn.Common.{
  ℕ, zero, suc, ◌+◌, ◌-◌, ◌%◌, Bool, true, false, not, Option, none, some, List, [], ◌∷◌, ◌++◌,
  ◌==◌, if◌then◌else◌, get_or, set,
}
use xv6_learn.Console.{Cons, Effect, consoleintr}

-- UART_TX_BUF_SIZE
abbrev pub tx_buf_size : ℕ
tx_buf_size = 32

-- `uart_tx_buf`, `uart_tx_w` and `uart_tx_r`.
pub record Uart : Type 0 where
  pub buf : List ℕ
  pub w : ℕ
  pub r : ℕ

abbrev pub next : ℕ → ℕ
next i = (i + 1) % tx_buf_size

abbrev pub is_full : Uart → Bool
is_full u = next u.w == u.r

-- The loop of `uartstart` from the `k`th read of the register on; the ring has fewer bytes than
-- `fuel`.
pub start_loop : (fuel k : ℕ) → (idle : ℕ → Bool) → Uart → Uart × List ℕ
start_loop zero k idle u = (u, [])
start_loop (suc fuel) k idle u =
    let (u', sent) = start_loop fuel (k + 1) idle (record u { r = next u.r }) in
    if u.w == u.r then (u, []) else if idle k then (u', get_or u.buf u.r 0 ∷ sent) else (u, [])

pub uartstart : (idle : ℕ → Bool) → Uart → Uart × List ℕ
uartstart idle u = start_loop tx_buf_size 0 idle u

-- A byte that finds room, and the bytes that are sent then; `none` is a sleep, after which the call
-- tries again.
pub uartputc : (c : ℕ) → (idle : ℕ → Bool) → Uart → Option (Uart × List ℕ)
uartputc c idle u =
    if is_full u
    then none
    else some (uartstart idle (record u { buf = set u.buf u.w c; w = next u.w }))

-- The loop of `uartintr` on the bytes that have arrived.
pub receive : List ℕ → Cons → Cons × List Effect
receive [] s = (s, [])
receive (c ∷ cs) s =
    let (s1, out) = consoleintr c s in let (s2, rest) = receive cs s1 in (s2, out ++ rest)

pub uartintr : List ℕ → (idle : ℕ → Bool) → Cons → Uart → (Cons × List Effect) × (Uart × List ℕ)
unfolding receive
uartintr cs idle s u = (receive cs s, uartstart idle u)
