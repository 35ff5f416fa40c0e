-- ===== src/Descriptors.antt =====
-- The calls of kernel/sysfile.c on descriptors, with `pipealloc` of kernel/pipe.c and the fetching of
-- register arguments of kernel/syscall.c. A file is its index in the table of kernel/file.c. The outer
-- `none` of a result is a panic, the inner one is -1; an `int` is its bit pattern.
pub mod Table
pub mod Scarce
pub mod Pipes
pub mod Held
mod Tests
use xv6_learn.Common.{
  ℕ, zero, suc, ◌+◌, ◌%◌, ◌^◌, Bool, true, false, ◌||◌, Option, none, some, List, [], ◌∷◌, ◌==◌,
  ltb, leb, if◌then◌else◌, get_elem?, set,
}
use xv6_learn.Files.{
  File, FileType, fd_pipe, FileServices, filealloc, filedup, fileclose, fileread, filewrite,
  filestat,
}

abbrev pub nofile : ℕ
nofile = 16

-- The registers of the trapframe that hold the arguments of a call.
pub record Args : Type 0 where
  pub a0 : ℕ
  pub a1 : ℕ
  pub a2 : ℕ
  pub a3 : ℕ
  pub a4 : ℕ
  pub a5 : ℕ

-- `none` is a panic.
unfoldable pub argraw : ℕ → Args → Option ℕ
argraw zero a = some a.a0
argraw (suc zero) a = some a.a1
argraw (suc (suc zero)) a = some a.a2
argraw (suc (suc (suc zero))) a = some a.a3
argraw (suc (suc (suc (suc zero)))) a = some a.a4
argraw (suc (suc (suc (suc (suc zero))))) a = some a.a5
argraw (suc (suc (suc (suc (suc (suc n)))))) a = none

abbrev pub to_int : Option ℕ → Option ℕ
to_int none = none
to_int (some x) = some (x % 2 ^ 32)

unfoldable pub argint : ℕ → Args → Option ℕ
argint n a = to_int (argraw n a)

unfoldable pub argaddr : ℕ → Args → Option ℕ
argaddr n a = argraw n a

infixl 1 ◌>>=◌
abbrev ◌>>=◌ {ℓ κ} : {A : Type ℓ} {B : Type κ} → Option A → (A → Option B) → Option B
none >>= f = none
some a >>= f = f a

-- `p->ofile`, where 0 is `none`.
abbrev pub Ofile : Type 0
Ofile = List (Option ℕ)

-- `fd < 0 || fd >= NOFILE || (f = myproc()->ofile[fd]) == 0`
unfoldable pub file_at : (fd : ℕ) → Ofile → Option ℕ
file_at fd t =
    if leb (2 ^ 31) fd || leb nofile fd
    then none
    else elim (get_elem? t fd) [ none ↦ none | some o ↦ o ]

-- How the fetching of the descriptor in argument `n` ends, with the descriptor and its file.
pub data Fetched : Type 0 where
  panicked missing : Fetched
  found : (fd f : ℕ) → Fetched

unfoldable pub argfd : ℕ → Args → Ofile → Fetched
argfd n a t = elim (argint n a) [
  | none ↦ panicked
  | some fd ↦ elim (file_at fd t) [ none ↦ missing | some f ↦ found fd f ]
]

-- The loop of `fdalloc` from descriptor `fd` on.
unfoldable pub find_null : (f fd : ℕ) → Ofile → Option (ℕ × Ofile)
find_null f fd [] = none
find_null f fd (none ∷ t) = some (fd, some f ∷ t)
find_null f fd (some g ∷ t) = elim (find_null f (fd + 1) t) [
  | none ↦ none
  | some (k, u) ↦ some (k, some g ∷ u)
]

unfoldable pub fdalloc : (f : ℕ) → Ofile → Option (ℕ × Ofile)
fdalloc f t = find_null f 0 t

-- What `pipealloc` and `sys_pipe` call besides: kernel/kalloc.c, where 0 is no page, the filling of
-- the `struct pipe` on its page, and `copyout` of an `int`.
pub record PipeServices (v : FileServices) : Type 0 where
  pub kalloc : v.Rest → ℕ × v.Rest
  pub init_pipe : (page : ℕ) → v.Rest → v.Rest
  pub copyout_int : (addr value : ℕ) → v.Rest → Bool × v.Rest

-- An end of a pipe.
abbrev pub pipe_end : (page : ℕ) → (readable writable : Bool) → File → File
pipe_end page readable writable f = record f {
  kind = fd_pipe;
  readable = readable;
  writable = writable;
  pipe = page;
}

-- A file of the table is changed.
abbrev pub change : ℕ → (File → File) → List File → List File
change i h fs = elim (get_elem? fs i) [ none ↦ fs | some f ↦ set fs i (h f) ]

module _ (v : FileServices) where
  open v use {Rest}

  -- The table of open files, and the rest.
  abbrev pub Kernel : Type 0
  Kernel = List File × Rest

  -- A process's descriptors, with the kernel.
  abbrev pub Sys : Type 0
  Sys = Ofile × Kernel

  abbrev pub Result : Type 0
  Result = Option (Option ℕ × Sys)

  abbrev pub close : ℕ → Kernel → Option Kernel
  close i (fs, r) = fileclose v i fs r

  -- `fileclose` of two files.
  abbrev pub close_both : (i j : ℕ) → Kernel → Option Kernel
  close_both i j k = elim (close i k) [ none ↦ none | some k' ↦ close j k' ]

  unfoldable pub sys_dup : Args → Sys → Result
  sys_dup a (t, (fs, r)) = elim (argfd 0 a t) [
    | panicked ↦ none
    | missing ↦ some (none, (t, (fs, r)))
    | found _ f ↦ elim (fdalloc f t) [
      | none ↦ some (none, (t, (fs, r)))
      | some (fd, u) ↦ elim (filedup f fs) [ none ↦ none | some gs ↦ some (some fd, (u, (gs, r))) ]
    ]
  ]

  unfoldable pub sys_close : Args → Sys → Result
  sys_close a (t, k) = elim (argfd 0 a t) [
    | panicked ↦ none
    | missing ↦ some (none, (t, k))
    | found fd f ↦ elim (close f k) [ none ↦ none | some k' ↦ some (some 0, (set t fd none, k')) ]
  ]

  -- The file of a descriptor is read or written, and what that leaves of it is kept.
  abbrev pub keep : Ofile → List File → ℕ → Option (Option ℕ × File × Rest) → Result
  keep t fs f none = none
  keep t fs f (some (c, g, r)) = some (c, (t, (set fs f g, r)))

  pub sys_read : Args → Sys → Result
  sys_read a (t, (fs, r)) = elim (argfd 0 a t) [
    | panicked ↦ none
    | missing ↦ some (none, (t, (fs, r)))
    | found _ f ↦ (do
      n ← argint 2 a
      p ← argaddr 1 a
      g ← get_elem? fs f
      keep t fs f (fileread v g p n r))
  ]

  pub sys_write : Args → Sys → Result
  sys_write a (t, (fs, r)) = elim (argfd 0 a t) [
    | panicked ↦ none
    | missing ↦ some (none, (t, (fs, r)))
    | found _ f ↦ (do
      n ← argint 2 a
      p ← argaddr 1 a
      g ← get_elem? fs f
      keep t fs f (filewrite v g p n r))
  ]

  pub sys_fstat : Args → Sys → Result
  sys_fstat a (t, (fs, r)) = elim (argfd 0 a t) [
    | panicked ↦ none
    | missing ↦ some (none, (t, (fs, r)))
    | found _ f ↦ (do
      st ← argaddr 1 a
      g ← get_elem? fs f
      let (ok, r1) = filestat v g st r in some (if ok then some 0 else none, (t, (fs, r1))))
  ]

  module _ (w : PipeServices v) where
    open w use {kalloc, init_pipe, copyout_int}

    abbrev undone : Option Kernel → Option (Option (ℕ × ℕ) × Kernel)
    undone none = none
    undone (some k) = some (none, k)

    -- The page of the pipe, with files `i` and `j` allocated.
    unfoldable pub make_pipe : (i j : ℕ) → Kernel → Option (Option (ℕ × ℕ) × Kernel)
    make_pipe i j (fs, r) =
        let (page, r1) = kalloc r in
        if page == 0
        then undone (close_both i j (fs, r1))
        else some (
          some (i, j),
          (
            change j (pipe_end page false true) (change i (pipe_end page true false) fs),
            init_pipe page r1,
          ),
        )

    -- The second file, with file `i` allocated.
    unfoldable pub with_first : (i : ℕ) → Kernel → Option (Option (ℕ × ℕ) × Kernel)
    with_first i (fs, r) =
        let (f1, gs) = filealloc fs in
        elim f1 [ none ↦ undone (close i (gs, r)) | some j ↦ make_pipe i j (gs, r) ]

    -- The read end and the write end, or -1.
    unfoldable pub pipealloc : Kernel → Option (Option (ℕ × ℕ) × Kernel)
    pipealloc (fs, r) =
        let (f0, gs) = filealloc fs in
        elim f0 [ none ↦ some (none, (gs, r)) | some i ↦ with_first i (gs, r) ]

    -- -1 with both ends closed, and the descriptors `t`.
    abbrev pub give_up : Ofile → (i j : ℕ) → Kernel → Result
    give_up t i j k = elim (close_both i j k) [ none ↦ none | some k' ↦ some (none, (t, k')) ]

    abbrev pub copy_both : (addr fd0 fd1 : ℕ) → Rest → Bool × Rest
    copy_both addr fd0 fd1 r =
        let (ok, r1) = copyout_int addr fd0 r in
        if ok then copyout_int ((addr + 4) % 2 ^ 64) fd1 r1 else (false, r1)

    -- `sys_pipe` with the ends made; a descriptor that was taken is set to 0 again.
    unfoldable pub install : (addr i j : ℕ) → Sys → Result
    install addr i j (t, (fs, r)) = elim (fdalloc i t) [
      | none ↦ give_up t i j (fs, r)
      | some (fd0, t1) ↦ elim (fdalloc j t1) [
        | none ↦ give_up (set t1 fd0 none) i j (fs, r)
        | some (fd1, t2) ↦
            (let (ok, r1) = copy_both addr fd0 fd1 r in
              if ok
              then some (some 0, (t2, (fs, r1)))
              else give_up (set (set t2 fd0 none) fd1 none) i j (fs, r1))
      ]
    ]

    unfoldable pub sys_pipe : Args → Sys → Result
    sys_pipe a (t, k) = elim (argaddr 0 a) [
      | none ↦ none
      | some addr ↦ elim (pipealloc k) [
        | none ↦ none
        | some (none, k1) ↦ some (none, (t, k1))
        | some (some (i, j), k1) ↦ install addr i j (t, k1)
      ]
    ]
