-- ===== src/Console.antt =====
-- kernel/console.c: the input buffer of the console, edited by the interrupt handler and read by
-- processes. `cons.lock` is held from the start of a call to its return or its `sleep`; a call of
-- `consoleread` is modelled by its segments between sleeps. Characters are bytes.
pub mod Window
pub mod Editing
pub mod Storing
pub mod Reading
mod Tests
use xv6_learn.Common.{
  ℕ, zero, suc, ◌+◌, ◌-◌, ◌%◌, ◌^◌, Bool, true, false, not, ◌&&◌, ◌||◌, List, [], ◌∷◌, ◌++◌, ◌==◌,
  ltb, if◌then◌else◌, get_or, set,
}
use xv6_learn.Fs.Content.{Copies}

-- INPUT_BUF
abbrev pub input_buf : ℕ
input_buf = 128

abbrev pub wrap : ℕ → ℕ
wrap x = x % 2 ^ 32

-- `cons`, less its lock.
pub record Cons : Type 0 where
  pub buf : List ℕ
  pub r : ℕ
  pub w : ℕ
  pub e : ℕ

-- What a handler does besides: bytes to the UART, a `wakeup` of the readers, a list of processes.
pub data Effect : Type 0 where
  putc : ℕ → Effect
  wakes lists : Effect

-- `consputc(BACKSPACE)`
abbrev pub rub_out : List Effect
rub_out = putc 8 ∷ putc 32 ∷ putc 8 ∷ []

-- The loop of ctrl-U; each round takes a byte off, and `fuel` is how many there are.
pub kill_loop : (fuel : ℕ) → Cons → Cons × List Effect
kill_loop zero s = (s, [])
kill_loop (suc fuel) s =
    let last = get_or s.buf (wrap (s.e + 2 ^ 32 - 1) % input_buf) 0 in
    let (s', out) = kill_loop fuel (record s { e = wrap (s.e + 2 ^ 32 - 1) }) in
    if s.e == s.w || last == 10 then (s, []) else (s', rub_out ++ out)

pub erase : Cons → Cons × List Effect
erase s = if s.e == s.w then (s, []) else (record s { e = wrap (s.e + 2 ^ 32 - 1) }, rub_out)

-- A byte that is echoed and stored.
pub store_char : ℕ → Cons → Cons × List Effect
store_char c s =
    let s1 = record s { buf = set s.buf (s.e % input_buf) c; e = wrap (s.e + 1) } in
    if c == 10 || (c == 4 || s1.e == wrap (s1.r + input_buf))
    then (record s1 { w = s1.e }, putc c ∷ wakes ∷ [])
    else (s1, putc c ∷ [])

-- ctrl-P is 16, ctrl-U 21, and ctrl-H 8.
pub consoleintr : ℕ → Cons → Cons × List Effect
unfolding kill_loop erase store_char
consoleintr c s =
    if c == 16
    then (s, lists ∷ [])
    else if c == 21
    then kill_loop (wrap (s.e + 2 ^ 32 - s.w)) s
    else if c == 8 || c == 127
    then erase s
    else if not (c == 0) && ltb (wrap (s.e + 2 ^ 32 - s.r)) input_buf
    then store_char (if c == 13 then 10 else c) s
    else (s, [])

-- How a segment of `consoleread` ends, with the count that is left.
pub data ReadEnd : Type 0 where
  finished asleep : (n : ℕ) → ReadEnd
  failed : ReadEnd

module _ (v : Copies) (killed : Bool) where
  open v use {Memory, copyout}

  -- The loop with `n` bytes left of `target`; a process that has slept starts it again.
  pub consoleread : (n target dst : ℕ) → Cons → Memory → ReadEnd × Cons × Memory
  consoleread zero target dst s m = (finished 0, s, m)
  consoleread (suc n) target dst s m =
      let c = get_or s.buf (s.r % input_buf) 0 in
      let s1 = record s { r = wrap (s.r + 1) } in
      elim (s.r == s.w) [
        | true ↦ (if killed then failed else asleep (suc n), s, m)
        | false ↦ elim (c == 4) [
          | true ↦ (
            finished (suc n),
            if ltb (suc n) target then record s1 { r = wrap (s1.r + 2 ^ 32 - 1) } else s1,
            m,
          )
          | false ↦
              (let (m', copied) = copyout dst (c ∷ []) m in
                elim copied [
                  | false ↦ (finished (suc n), s1, m')
                  | true ↦ elim (c == 10) [
                    | true ↦ (finished n, s1, m')
                    | false ↦ consoleread n target (dst + 1) s1 m'
                  ]
                ])
        ]
      ]

module _ (v : Copies) where
  open v use {Memory, copyin}

  -- The bytes that are given to `uartputc`, from byte `i` on, and the count that is returned. The
  -- lock is let go by `uartputc` where it sleeps, and the bytes are not looked at again.
  pub consolewrite : (n i src : ℕ) → Memory → List ℕ × ℕ
  consolewrite zero i src m = ([], i)
  consolewrite (suc n) i src m =
      let (cs, copied) = copyin (src + i) 1 m in
      let (out, k) = consolewrite n (i + 1) src m in if copied then (cs ++ out, k) else ([], i)
