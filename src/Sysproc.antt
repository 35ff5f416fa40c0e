-- ===== src/Sysproc.antt =====
-- The arguments that kernel/syscall.c fetches from user memory, its dispatch, and `sys_rename`,
-- `sys_sleep` and `sys_uptime` of kernel/sysproc.c, over the memory of kernel/vm.c. A result `none` or
-- `false` is -1.
pub mod Renaming
pub mod Sleeping
mod Tests
use xv6_learn.Common.{
  ℕ, zero, suc, ◌+◌, ◌-◌, ◌%◌, ◌^◌, ◌≤◌, ◌<◌, ◌≡◌, ◌⊎◌, Bool, true, false, not, ◌&&◌, ◌||◌, Option,
  none, some, List, [], ◌∷◌, ◌==◌, ltb, leb, if◌then◌else◌, get_elem?, length, update,
}
use xv6_learn.Bytes.{strlen}
use xv6_learn.Kalloc.{Kmem}
use xv6_learn.Vm.Copy.{get_byte, put_byte, move, copyin, copyinstr}

-- MAXPATH
abbrev pub maxpath : ℕ
maxpath = 128

-- `table` is the page table of the process.
module _ (table : ℕ) where
  -- `sz` is that of the process, and the word is put at `ip`.
  unfoldable pub fetchaddr : (sz addr ip : ℕ) → Kmem → Bool × Kmem
  fetchaddr sz addr ip k =
      if leb sz addr || ltb sz ((addr + 8) % 2 ^ 64) then (false, k) else copyin table ip addr 8 k

  -- The length of the string, and what the copy leaves in memory.
  unfoldable pub fetchstr : (addr buf max : ℕ) → Kmem → Option ℕ × Kmem
  fetchstr addr buf max k =
      let (ok, k') = copyinstr table buf addr max k in
      (if ok then strlen max buf (λ x. get_byte x k'.words) else none, k')

  unfoldable pub argstr : (a buf max : ℕ) → Kmem → Option ℕ × Kmem
  unfolding fetchstr
  argstr a buf max k = fetchstr a buf max k

  -- `sys_rename` with `name` on the kernel's stack, where 16 bytes are for it, and `p->name`, which has
  -- 16 bytes too. The result says whether it is 0.
  pub sys_rename : (a name p_name : ℕ) → Kmem → Bool × Kmem
  sys_rename a name p_name k =
      let (o, k1) = argstr a name maxpath k in
      elim o [
        | none ↦ (false, k1)
        | some len ↦
            (let k2 = move p_name name len k1 in
              (true, record { freelist = k2.freelist; words = put_byte (p_name + len) 0 k2.words }))
      ]

-- A test of the loop of `sys_sleep`, with the clock at `ticks`: it returns 0, or -1, or sleeps. The
-- comparison is of `uint`s, and `n` the bit pattern of an `int`.
pub data SleepEnd : Type 0 where
  woke gave_up asleep : SleepEnd

pub sys_sleep : (n ticks0 ticks : ℕ) → (killed : Bool) → SleepEnd
sys_sleep n ticks0 ticks killed =
    if ltb ((ticks + 2 ^ 32 - ticks0) % 2 ^ 32) n
    then (if killed then gave_up else asleep)
    else woke

-- The handler of a call, with what it leaves for `a0`; `syscalls` has one for each number that is in
-- use, and `num` is the bit pattern of an `int`. The message on another number is left out.
pub syscall : {S : Type 0} → List (Option (S → ℕ × S)) → (num : ℕ) → S → ℕ × S
syscall syscalls num s =
    if ltb 0 num && (ltb num (2 ^ 31) && ltb num (length syscalls))
    then elim (get_elem? syscalls num) [
      | none ↦ (2 ^ 64 - 1, s)
      | some none ↦ (2 ^ 64 - 1, s)
      | some (some call) ↦ call s
    ]
    else (2 ^ 64 - 1, s)
