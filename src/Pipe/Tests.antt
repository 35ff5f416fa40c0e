-- ===== src/Pipe/Tests.antt =====
-- Pipes run at concrete inputs, and the theorems at them.
use xv6_learn.Common.{
  ℕ, ◌-◌, ◌%◌, ◌^◌, ◌≡◌, refl, sym, ap, ◌∙◌, update, update_self, Bool-cases, inl, inr, true, false,
  Option, none, some, List, [], ◌∷◌, arith, ltb, if◌then◌else◌, replicate, length-replicate,
}
use xv6_learn.User.{UserMemory}
use xv6_learn.Pipe.{put, get, Pipe, returned, asleep, pipewrite, piperead}
use xv6_learn.Pipe.Inv.{IsValid}
use xv6_learn.Pipe.Queue.{contents}
use xv6_learn.Pipe.Write.{Wrote, pipewrite-Wrote}
use xv6_learn.Pipe.Read.{Copied, piperead-Copied}
use xv6_learn.Pipe.Stream.{Event, write, read, close, Fifo, run-Fifo}

-- A user memory whose bytes below 1000 are readable and writable.
abbrev Bytes : Type 0
Bytes = ℕ → ℕ

abbrev put_byte : Bytes → ℕ → ℕ → Option Bytes
put_byte s a c = if ltb a 1000 then some (update s a c) else none

abbrev get_byte : Bytes → ℕ → Option ℕ
get_byte s a = if ltb a 1000 then some (s a) else none

abbrev peek : ℕ → Option Bytes → Option ℕ
peek a none = none
peek a (some f) = some (f a)

get_byte-put_byte :
    (s : Bytes) (a c : ℕ) {t : Bytes} → put_byte s a c ≡ some t → get_byte t a ≡ some c
get_byte-put_byte s a c h = elim (Bool-cases (ltb a 1000)) [
  | inl low ↦ rw low (ap (peek a) (sym (rw low at h)) ∙ ap some (update_self s a c))
  | inr high ↦ cc (rw high at h)
]

abbrev user : UserMemory
user = record {
  Space = Bytes;
  copyin = get_byte;
  copyout = put_byte;
  copyin-copyout = get_byte-put_byte;
}

abbrev space : Bytes
space a = a % 256

abbrev fresh : Pipe
fresh = record { buf = replicate 512 7; nread = 0; nwrite = 0; readopen = true; writeopen = true }

-- Counters about to wrap.
abbrev late : Pipe
late = record fresh { nread = 2 ^ 32 - 2; nwrite = 2 ^ 32 - 1 }

late-IsValid : IsValid late
late-IsValid = omega (arith, length-replicate {A = ℕ} 512 7)

write_three : contents (pipewrite user space false 10 3 late).0 ≡ 7 ∷ 10 ∷ 11 ∷ 12 ∷ []
unfolding pipewrite contents put
write_three = refl

write_fault : (pipewrite user space false 998 5 fresh).2 ≡ returned 2
unfolding pipewrite put
write_fault = refl

-- 600 bytes do not fit: the writer sleeps with 512 of them done.
write_sleeps : (pipewrite user space false 0 600 fresh).2 ≡ asleep 512
unfolding pipewrite put
write_sleeps = refl

read_two :
    (piperead user space false 0 5 (pipewrite user space false 10 2 fresh).0).1.2 ≡ returned 2
unfolding pipewrite piperead put get
read_two = refl

pipewrite-Wrote_example : Wrote user space false 10 3 0 late (pipewrite user space false 10 3 late)
pipewrite-Wrote_example = pipewrite-Wrote user space false 10 3 late late-IsValid

piperead-Copied_example : Copied user 0 5 0 space late (piperead user space false 0 5 late)
piperead-Copied_example = piperead-Copied user space false 0 5 late late-IsValid refl

abbrev script : List (Event user)
script = write space false 10 3 0 ∷ read space false 100 2 ∷ close true ∷ read space false 0 9 ∷ []

run-Fifo_example : Fifo user script late
run-Fifo_example = run-Fifo user script late late-IsValid
