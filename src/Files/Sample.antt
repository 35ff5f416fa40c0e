-- ===== src/Files/Sample.antt =====
-- Services and files for tests of kernel/file.c and of the calls on descriptors.
use xv6_learn.Common.{ℕ, ◌+◌, true, none, some, []}
use xv6_learn.Files.{File, FileType, FileServices}

-- Services over a count of the pipes and inodes let go.
abbrev pub counting : FileServices
counting = record {
  Rest = ℕ;
  pipeclose = λ p w r. r + 1;
  piperead = λ p a n r. (some n, r);
  pipewrite = λ p a n r. (some n, r);
  devread = λ m. none;
  devwrite = λ m. none;
  begin_transaction = λ r. r;
  end_transaction = λ r. r;
  put_inode = λ i r. r + 1;
  ilock = λ i r. r;
  iunlock = λ i r. r;
  stati = λ i r. [];
  copyout_stat = λ a s r. (true, r);
  readi = λ i a o n r. (some n, r);
  writei = λ i a o n r. (some n, r);
}

abbrev pub file : FileType → (ref : ℕ) → File
file kind ref = record {
  kind = kind;
  ref = ref;
  readable = true;
  writable = true;
  pipe = 0;
  ip = 0;
  off = 5;
  major = 0;
}
