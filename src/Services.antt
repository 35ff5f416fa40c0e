-- ===== src/Services.antt =====
-- What kernel/proc.c asks of memory (kernel/vm.c, kernel/kalloc.c) and of files (kernel/file.c,
-- kernel/fs.c, kernel/log.c): operations on the rest of the kernel's state. Pages, page tables,
-- files and inodes are addresses; 0 is null, and a Boolean result is success.
use xv6_learn.Common.{ℕ, Bool}

pub record Services : Type 1 where
  pub Rest : Type 0
  pub kalloc : Rest → ℕ × Rest
  pub kfree : ℕ → Rest → Rest
  pub uvmcreate : Rest → ℕ × Rest
  pub mappages : (pagetable va size pa perm : ℕ) → Rest → Bool × Rest
  pub uvmunmap : (pagetable va npages : ℕ) → Bool → Rest → Rest
  pub uvmfree : (pagetable sz : ℕ) → Rest → Rest
  pub uvmcopy : (old new sz : ℕ) → Rest → Bool × Rest
  pub uvmalloc : (pagetable oldsz newsz : ℕ) → Rest → ℕ × Rest
  pub uvmdealloc : (pagetable oldsz newsz : ℕ) → Rest → ℕ × Rest
  pub copyout_int : (pagetable addr value : ℕ) → Rest → Bool × Rest
  -- The trapframe of the first is copied to the second, and `a0` is set to 0 there.
  pub copy_trapframe : (source target : ℕ) → Rest → Rest
  pub filedup : ℕ → Rest → Rest
  pub fileclose : ℕ → Rest → Rest
  pub idup : ℕ → Rest → Rest
  pub begin_op : Rest → Rest
  pub iput : ℕ → Rest → Rest
  pub end_op : Rest → Rest
  -- The address of the trampoline page, and the permissions PTE_R | PTE_X and PTE_R | PTE_W.
  pub trampoline_pa : ℕ
  pub perm_rx : ℕ
  pub perm_rw : ℕ
