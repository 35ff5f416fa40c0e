-- ===== src/Descriptors/Tests.antt =====
-- The calls on descriptors at concrete inputs.
use xv6_learn.Common.{
  ℕ, zero, suc, ◌-◌, ◌^◌, ◌≡◌, refl, arith, true, false, none, some, List, [], ◌∷◌, replicate, ◌==◌,
  if◌then◌else◌,
}
use xv6_learn.Files.{File, fd_none, fd_inode}
use xv6_learn.Files.Sample.{counting, file}
use xv6_learn.Descriptors.{
  Args, Ofile, PipeServices, argfd, argint, argraw, file_at, found, sys_pipe,
}
use xv6_learn.Descriptors.Pipes.{Piped, sys_pipe-Piped}
use xv6_learn.Descriptors.Held.{Call, dup, closes, pipe, System, Held, Counted, run, run-Held}

-- Pages are there, and a copy to address 0 fails.
abbrev pages : PipeServices counting
pages = record {
  kalloc = λ r. (4096, r);
  init_pipe = λ p r. r;
  copyout_int = λ a x r. (if a == 0 then false else true, r);
}

-- File 0 is held by two descriptors, and two files are free.
abbrev files : List File
files = file fd_inode 2 ∷ file fd_none 0 ∷ file fd_none 0 ∷ []

abbrev table : Ofile
table = none ∷ some 0 ∷ replicate 14 none

abbrev args : ℕ → Args
args x = record { a0 = x; a1 = 0; a2 = 0; a3 = 0; a4 = 0; a5 = 0 }

sys_pipe-Piped_example :
    Piped counting pages 64 table files 0 (sys_pipe counting pages (args 64) (table, (files, 0)))
sys_pipe-Piped_example = sys_pipe-Piped counting pages (args 64) table files 0

-- Two processes with a descriptor each.
abbrev system : System counting pages
system = record { tables = table ∷ table ∷ []; kernel = (files, 0) }

system-Counted : Counted counting pages system
system-Counted zero = refl
system-Counted (suc zero) = refl
system-Counted (suc (suc zero)) = refl
system-Counted (suc (suc (suc i))) = ground arith

abbrev calls : List (ℕ × (Call × Args))
calls = (0, (pipe, args 64)) ∷ (1, (dup, args 1)) ∷ (0, (closes, args 0)) ∷ (1, (pipe, args 0)) ∷ []

run-Held_example : Held counting pages (run counting pages calls system)
run-Held_example = run-Held counting pages calls system system-Counted

-- A negative descriptor, and one in use.
negative : file_at (2 ^ 32 - 1) table ≡ none
unfolding file_at
negative = refl

used : argfd 0 (args 1) table ≡ found 1 0
unfolding argfd argint argraw file_at
used = refl
