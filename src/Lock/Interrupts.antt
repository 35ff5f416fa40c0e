-- ===== src/Lock/Interrupts.antt =====
-- `push_off` and `pop_off` match like brackets.
use xv6_learn.Common.{
  ◌-◌, ◌<◌, ◌≡◌, refl, sym, false, Option, none, some, List, [], ◌∷◌, ◌++◌, arith, ◌∙◌, ap, ◌&&◌,
  ◌==◌, Option-cases, inl, inr,
}
use xv6_learn.Lock.{Cpu, push_off, pop_off}

pub data Op : Type 0 where
  push pop : Op

pub exec : Op → Cpu → Option Cpu
unfolding push_off pop_off
exec push c = some (push_off c)
exec pop c = pop_off c

pub run : List Op → Cpu → Option Cpu
unfolding exec
run [] c = some c
run (o ∷ os) c = elim (exec o c) [ none ↦ none | some c' ↦ run os c' ]

-- A bracketing: each `push` has its `pop`.
pub data Balanced : List Op → Type 0 where
  done : Balanced []
  nest : {a b : List Op} → Balanced a → Balanced b → Balanced (push ∷ (a ++ (pop ∷ b)))

-- Interrupts are off inside every `push_off`.
abbrev pub IsQuiet : Cpu → Type 0
IsQuiet c = 0 < c.noff → c.intr ≡ false

-- The states that a matched run may lead to: the same depth and the same interrupt flag, and inside
-- a bracket the same flag to go back to.
pub record Same (c d : Cpu) : Type 0 where
  pub depth : d.noff ≡ c.noff
  pub flag : d.intr ≡ c.intr
  pub saved : 0 < c.noff → d.intena ≡ c.intena

run-cons : (o : Op) (os : List Op) (c e : Cpu) → exec o c ≡ some e → run (o ∷ os) c ≡ run os e
unfolding run
run-cons o os c e h = rw (h, run)

run-append : (a b : List Op) (c : Cpu) {d : Cpu} → run a c ≡ some d → run (a ++ b) c ≡ run b d
unfolding run
run-append [] b c h = ap (elim [ none ↦ none | some e ↦ run b e ]) h
run-append (o ∷ a) b c h = elim (Option-cases (exec o c)) [
  | inl stuck ↦ cc (rw (stuck, run) at h)
  | inr (c', e) ↦ run-cons o (a ++ b) c c' e ∙ run-append a b c' (sym (run-cons o a c c' e) ∙ h)
]

push_off-IsQuiet : (c : Cpu) → IsQuiet (push_off c)
unfolding push_off
push_off-IsQuiet c h = refl

-- The `pop_off` that closes a bracket.
close : (c d : Cpu) → IsQuiet c → Same (push_off c) d → (e : Cpu) × (exec pop d ≡ some e) × Same c e
unfolding exec
close c d q s = (
  record d { noff = d.noff - 1; intr = (d.noff - 1 == 0) && d.intena },
  ground arith,
  record { depth = ground arith; flag = ground arith; saved = ground arith },
)

pub Same-IsQuiet : (c d : Cpu) → IsQuiet c → Same c d → IsQuiet d
Same-IsQuiet c d q s = ground arith

Same-trans : (c d e : Cpu) → Same c d → Same d e → Same c e
Same-trans c d e s t = record {
  depth = omega arith;
  flag = cc (s.flag, t.flag);
  saved = ground arith;
}

-- A matched run of `push_off` and `pop_off` never panics, and leaves the depth and the interrupt
-- flag as they were: interrupts that were off before stay off.
pub run-Same :
    {w : List Op} → Balanced w → (c : Cpu) → IsQuiet c → (d : Cpu) × (run w c ≡ some d) × Same c d
unfolding run exec
run-Same done c q = (c, refl, record { depth = refl; flag = refl; saved = λ _. refl })
run-Same (nest {a} {b} x y) c q =
    let (d, ran, same) = run-Same x (push_off c) (push_off-IsQuiet c) in
    let (e, closed, back) = close c d q same in
    let (f, rest, last) = run-Same y e (Same-IsQuiet c e q back) in
    (
      f,
      run-append a (pop ∷ b) (push_off c) ran ∙ run-cons pop b d e closed ∙ rest,
      Same-trans c e f back last,
    )
