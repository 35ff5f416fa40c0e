-- ===== src/User.antt =====
-- What the kernel asks of a process's user memory: `copyin` and `copyout` of kernel/vm.c, a byte at
-- a time. Components that move bytes to and from user space take such an interface.
use xv6_learn.Common.{ℕ, ◌≡◌, Option, some}

pub record UserMemory : Type 1 where
  pub Space : Type 0
  -- `none` where the address has no user mapping.
  pub copyin : Space → ℕ → Option ℕ
  pub copyout : Space → ℕ → ℕ → Option Space
  -- A byte that was copied out is read back.
  pub copyin-copyout :
      (s : Space) (a c : ℕ) {t : Space} → copyout s a c ≡ some t → copyin t a ≡ some c
