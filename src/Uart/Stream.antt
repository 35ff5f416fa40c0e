-- ===== src/Uart/Stream.antt =====
-- The transmit ring as a queue, under any order of writes and interrupts.
use xv6_learn.Common.{
  ℕ, zero, suc, ◌+◌, ◌-◌, ◌%◌, ◌<◌, ◌≡◌, refl, sym, ap, ap₂, ◌∙◌, arith, Bool, true, false, none,
  some, List, [], ◌∷◌, ◌++◌, append_assoc, ◌==◌, length, length-set, get_or, set, get_or-set_self,
  get_or-set_ne, Bool-cases, inl, inr,
}
use xv6_learn.Console.{Cons}
use xv6_learn.Uart.{tx_buf_size, Uart, next, is_full, start_loop, uartstart, uartputc, uartintr}

abbrev pub count : Uart → ℕ
count u = (u.w + tx_buf_size - u.r) % tx_buf_size

-- The `n` bytes from index `r` on.
abbrev pub window : List ℕ → ℕ → ℕ → List ℕ
window buf r zero = []
window buf r (suc n) = get_or buf r 0 ∷ window buf (next r) n

abbrev pub contents : Uart → List ℕ
contents u = window u.buf u.r (count u)

pub record IsValid (u : Uart) : Type 0 where
  pub room : length u.buf ≡ tx_buf_size
  pub w_in : u.w < tx_buf_size
  pub r_in : u.r < tx_buf_size

-- Writing just past a window extends it by that byte.
window-set :
    (buf : List ℕ) (x n r i : ℕ)
    → length buf ≡ tx_buf_size
    → r < tx_buf_size
    → n < tx_buf_size
    → i ≡ (r + n) % tx_buf_size
    → window (set buf i x) r (suc n) ≡ window buf r n ++ (x ∷ [])
window-set buf x zero r i room hr hn e =
    let i' : i ≡ r = omega arith in
    ap (λ v. v ∷ [])
      (ap (λ j. get_or (set buf i x) j 0) (sym i') ∙ get_or-set_self buf i x 0 (omega arith))
window-set buf x (suc n) r i room hr hn e =
    ap₂ ◌∷◌ (get_or-set_ne buf x 0 (λ z. omega (arith, z, e, hr, hn)))
      (window-set buf x n (next r) i room (omega arith) (omega arith) (omega arith))

module _ (u : Uart) (v : IsValid u) where
  -- A byte that leaves the ring.
  taken :
      (u.w == u.r) ≡ false → contents u ≡ get_or u.buf u.r 0 ∷ contents (record u { r = next u.r })
  taken more =
      let e : count u ≡ suc (count (record u { r = next u.r })) = ground (arith, v.w_in, v.r_in) in
      ap (window u.buf u.r) e

  taken-IsValid : IsValid (record u { r = next u.r })
  taken-IsValid = record { room = v.room; w_in = v.w_in; r_in = omega arith }

  stored :
      (c : ℕ)
      → is_full u ≡ false
      → contents (record u { buf = set u.buf u.w c; w = next u.w }) ≡ contents u ++ (c ∷ [])
  stored c room =
      let e : count (record u { buf = set u.buf u.w c; w = next u.w }) ≡ suc (count u) =
        ground (arith, v.w_in, v.r_in) in
      ap (window (set u.buf u.w c) u.r) e
      ∙ window-set u.buf c (count u) u.r u.w v.room v.r_in (omega arith)
          (omega (arith, v.w_in, v.r_in))

  stored-IsValid : (c : ℕ) → IsValid (record u { buf = set u.buf u.w c; w = next u.w })
  stored-IsValid c = record {
    room = length-set u.buf u.w c ∙ v.room;
    w_in = omega arith;
    r_in = v.r_in;
  }

-- What is sent was the oldest.
abbrev pub Sends : Uart → Uart × List ℕ → Type 0
Sends u (u', sent) = IsValid u' × (contents u ≡ sent ++ contents u')

start_loop-Sends :
    (fuel k : ℕ) (idle : ℕ → Bool) (u : Uart) → IsValid u → Sends u (start_loop fuel k idle u)
unfolding start_loop
start_loop-Sends zero k idle u v = (v, refl)
start_loop-Sends (suc fuel) k idle u v = elim (Bool-cases (u.w == u.r)) [
  | inl empty_ring ↦ rw (start_loop, empty_ring) (v, refl)
  | inr more ↦ elim (Bool-cases (idle k)) [
    | inr busy ↦ rw (start_loop, more, busy) (v, refl)
    | inl ready ↦
        (let (v', e) =
            start_loop-Sends fuel (k + 1) idle (record u { r = next u.r }) (taken-IsValid u v) in
          rw (start_loop, more, ready) (v', taken u v more ∙ ap (λ xs. get_or u.buf u.r 0 ∷ xs) e))
  ]
]

-- With the transmitter idle throughout, nothing stays.
start_loop-all :
    (fuel k : ℕ) (u : Uart)
    → IsValid u
    → count u < fuel
    → contents (start_loop fuel k (λ j. true) u).0 ≡ []
unfolding start_loop
start_loop-all zero k u v h = absurd (omega arith)
start_loop-all (suc fuel) k u v h = elim (Bool-cases (u.w == u.r)) [
  | inl empty_ring ↦
      (let z : count u ≡ 0 = ground (arith, v.r_in) in
        rw (start_loop, empty_ring) (ap (window u.buf u.r) z))
  | inr more ↦
      rw (start_loop, more)
        (start_loop-all fuel (k + 1) (record u { r = next u.r }) (taken-IsValid u v)
          (ground (arith, v.w_in, v.r_in)))
]

-- A call of `uartputc` by a writer, as far as it finds room or sleeps, and an interrupt.
pub data Event : Type 0 where
  write : (c : ℕ) → (idle : ℕ → Bool) → Event
  interrupt : List ℕ → (idle : ℕ → Bool) → Event

-- The driver with the console, the bytes that were taken from writers, and those sent.
pub record System : Type 0 where
  pub cons : Cons
  pub uart : Uart
  pub accepted : List ℕ
  pub sent : List ℕ

abbrev pub send : Uart × List ℕ → System → System
send (u, out) s = record s { uart = u; sent = s.sent ++ out }

pub exec : Event → System → System
exec (write c idle) s = elim (uartputc c idle s.uart) [
  | none ↦ s
  | some r ↦ send r (record s { accepted = s.accepted ++ (c ∷ []) })
]
exec (interrupt cs idle) s =
    let (r, q) = uartintr cs idle s.cons s.uart in send q (record s { cons = r.0 })

pub run : List Event → System → System
unfolding exec
run [] s = s
run (e ∷ es) s = run es (exec e s)

-- The bytes accepted are those sent, in order, and then those in the ring.
abbrev pub InOrder : System → Type 0
InOrder s = IsValid s.uart × (s.accepted ≡ s.sent ++ contents s.uart)

Sends-InOrder :
    (s : System) (u : Uart) (r : Uart × List ℕ)
    → s.accepted ≡ s.sent ++ contents u
    → Sends u r
    → InOrder (send r s)
Sends-InOrder s u (u', out) e (v', f) =
    (v', e ∙ ap (λ xs. s.sent ++ xs) f ∙ sym (append_assoc s.sent out (contents u')))

uartstart-Sends : (idle : ℕ → Bool) (u : Uart) → IsValid u → Sends u (uartstart idle u)
unfolding uartstart
uartstart-Sends idle u v = start_loop-Sends tx_buf_size 0 idle u v

uartstart-all : (u : Uart) → IsValid u → contents (uartstart (λ j. true) u).0 ≡ []
unfolding uartstart
uartstart-all u v = start_loop-all tx_buf_size 0 u v (omega arith)

sleeps_full : (c : ℕ) (idle : ℕ → Bool) (u : Uart) → is_full u ≡ true → uartputc c idle u ≡ none
unfolding uartputc
sleeps_full c idle u full = rw full refl

takes_byte :
    (c : ℕ) (idle : ℕ → Bool) (u : Uart)
    → is_full u ≡ false
    → uartputc c idle u ≡ some (uartstart idle (record u { buf = set u.buf u.w c; w = next u.w }))
unfolding uartputc
takes_byte c idle u room = rw room refl

exec-InOrder : (e : Event) (s : System) → InOrder s → InOrder (exec e s)
unfolding exec uartintr
exec-InOrder (interrupt cs idle) s (v, e) =
    Sends-InOrder (record s { cons = (uartintr cs idle s.cons s.uart).0.0 }) s.uart
      (uartstart idle s.uart) e (uartstart-Sends idle s.uart v)
exec-InOrder (write c idle) s (v, e) = elim (Bool-cases (is_full s.uart)) [
  | inl full ↦ rw (exec, sleeps_full c idle s.uart full) (v, e)
  | inr room ↦
      (let u1 = record s.uart { buf = set s.uart.buf s.uart.w c; w = next s.uart.w } in
        let t =
          ap (λ xs. xs ++ (c ∷ [])) e
          ∙ append_assoc s.sent (contents s.uart) (c ∷ [])
          ∙ ap (λ xs. s.sent ++ xs) (sym (stored s.uart v c room)) in
        rw (exec, takes_byte c idle s.uart room)
          (Sends-InOrder (record s { accepted = s.accepted ++ (c ∷ []) }) u1 (uartstart idle u1) t
            (uartstart-Sends idle u1 (stored-IsValid s.uart v c))))
]

-- Whatever the order of writes and interrupts, and whenever the transmitter is idle, the bytes that
-- `uartputc` has taken are those sent, in order, followed by those that wait in the ring; and a
-- `uartstart` that finds the transmitter idle throughout leaves none waiting.
pub run-InOrder :
    (es : List Event) (s : System)
    → InOrder s
    → InOrder (run es s) × (contents (uartstart (λ j. true) (run es s).uart).0 ≡ [])
unfolding run
run-InOrder [] s h = (h, uartstart-all s.uart h.0)
run-InOrder (e ∷ es) s h = run-InOrder es (exec e s) (exec-InOrder e s h)
