-- ===== src/Fs/Calls/Open.antt =====
-- `create` of kernel/sysfile.c, and the calls that make, open and enter: `sys_mkdir`, `sys_mknod`,
-- `sys_open` and `sys_chdir`.
use xv6_learn.Common.{
  ℕ, ◌/◌, ◌%◌, ◌^◌, Bool, true, false, not, ◌&&◌, ◌||◌, Option, none, some, List, ◌==◌, leb,
  if◌then◌else◌, get_elem?, set,
}
use xv6_learn.Files.{File, fd_inode, fd_device, ndev, filealloc}
use xv6_learn.Descriptors.{Ofile, fdalloc}
use xv6_learn.Fs.{Superblock}
use xv6_learn.Fs.Inode.{Inode, panics, done, ialloc}
use xv6_learn.Fs.Content.{itrunc}
use xv6_learn.Fs.Names.{
  Step, pure, ◌>>=◌, ◌>>◌, stop, t_dir, load, put_inode, lock_inode, unlock_inode, iunlockput,
  dirlookup, dirlink, namei, nameiparent,
}
use xv6_learn.Fs.Calls.{one_more, update_inode}

abbrev pub t_file : ℕ
t_file = 2

abbrev pub t_device : ℕ
t_device = 3

-- Flags of kernel/fcntl.h in an open mode.
abbrev pub has_flag : (flag omode : ℕ) → Bool
has_flag flag omode = omode / flag % 2 == 1

abbrev pub o_wronly : ℕ
o_wronly = 1

abbrev pub o_rdwr : ℕ
o_rdwr = 2

abbrev pub o_create : ℕ
o_create = 512

abbrev pub o_trunc : ℕ
o_trunc = 1024

-- As for `sys_link`.
module _ (sb : Superblock) (p de name scratch dot dotdot : ℕ) where
  abbrev pub alloc_inode : (dev kind : ℕ) → Step ℕ
  alloc_inode dev kind k = elim (ialloc sb dev kind k.cache k.blocks) [
    | none ↦ panics
    | some (i, ips, t) ↦ done (i, record k { cache = ips; blocks = t })
  ]

  -- A `dirlink` that has to succeed.
  abbrev pub must_link : (dp name inum : ℕ) → Step (Unit {0})
  must_link dp n inum = do ok ← dirlink sb p de dp n inum; if ok then pure tt else stop

  -- The entries "." and ".." of a new directory.
  abbrev pub add_dots : (dp ip : ℕ) → Step (Unit {0})
  add_dots dp ip = do
    update_inode sb p de name scratch dot dotdot dp (λ i. record i { nlink = one_more i.nlink })
    c ← load sb p de ip
    must_link ip dot c.inum
    d ← load sb p de dp
    must_link ip dotdot d.inum

  abbrev pub fresh : (major minor : ℕ) → Inode → Inode
  fresh major minor i = record i { major = major; minor = minor; nlink = 1 }

  -- `create` where the parent has no such entry.
  abbrev pub create_in : (dp kind major minor : ℕ) → Step (Option ℕ)
  create_in dp kind major minor = do
    d ← load sb p de dp
    ip ← alloc_inode d.dev kind
    lock_inode sb p de ip
    update_inode sb p de name scratch dot dotdot ip (fresh major minor)
    if kind == t_dir then add_dots dp ip else pure tt
    c ← load sb p de ip
    must_link dp name c.inum
    iunlockput sb p de dp
    pure (some ip)

  -- `create` where it has the entry.
  abbrev pub reuse : (dp ip kind : ℕ) → Step (Option ℕ)
  reuse dp ip kind = do
    iunlockput sb p de dp
    lock_inode sb p de ip
    c ← load sb p de ip
    if kind == t_file && (c.kind == t_file || c.kind == t_device)
        then pure (some ip)
        else (iunlockput sb p de ip >> pure none)

  abbrev pub find_or_create : (dp kind major minor : ℕ) → Step (Option ℕ)
  find_or_create dp kind major minor = do
    lock_inode sb p de dp
    found ← dirlookup sb p de dp name
    elim found [ none ↦ create_in dp kind major minor | some (off, ip) ↦ reuse dp ip kind ]

  -- The inode, locked; `none` is 0.
  pub create : List ℕ → (kind major minor cwd : ℕ) → Step (Option ℕ)
  create path kind major minor cwd = do
    found ← nameiparent sb p de path name cwd
    elim found [ none ↦ pure none | some dp ↦ find_or_create dp kind major minor ]

  -- A node is made, and nothing held of it.
  abbrev pub make : List ℕ → (kind major minor cwd : ℕ) → Step Bool
  make path kind major minor cwd = do
    made ← create path kind major minor cwd
    elim made [ none ↦ pure false | some ip ↦ iunlockput sb p de ip >> pure true ]

  pub sys_mkdir : (path : Option (List ℕ)) → (cwd : ℕ) → Step Bool
  sys_mkdir none cwd = pure false
  sys_mkdir (some path) cwd = make path t_dir 0 0 cwd

  -- The `int` arguments become `short`s.
  pub sys_mknod : (path : Option (List ℕ)) → (major minor cwd : ℕ) → Step Bool
  sys_mknod none major minor cwd = pure false
  sys_mknod (some path) major minor cwd = make path t_device (major % 2 ^ 16) (minor % 2 ^ 16) cwd

  -- The new working directory, or -1.
  abbrev pub enter : (cwd ip : ℕ) → Step (Option ℕ)
  enter cwd ip = do
    lock_inode sb p de ip
    c ← load sb p de ip
    if c.kind == t_dir
        then (unlock_inode sb p de ip >> (put_inode sb p de cwd >> pure (some ip)))
        else (iunlockput sb p de ip >> pure none)

  pub sys_chdir : (path : Option (List ℕ)) → (cwd : ℕ) → Step (Option ℕ)
  sys_chdir none cwd = pure none
  sys_chdir (some path) cwd = do
    found ← namei sb p de path scratch cwd
    elim found [ none ↦ pure none | some ip ↦ enter cwd ip ]

  -- The inode that `sys_open` opens, locked, before the check of a device's number.
  abbrev pub open_found : (omode ip : ℕ) → Step (Option ℕ)
  open_found omode ip = do
    lock_inode sb p de ip
    c ← load sb p de ip
    if c.kind == t_dir && not (omode == 0)
        then (iunlockput sb p de ip >> pure none)
        else pure (some ip)

  abbrev pub open_inode : List ℕ → (omode cwd : ℕ) → Step (Option ℕ)
  open_inode path omode cwd = if has_flag o_create omode then create path t_file 0 0 cwd else (do
    found ← namei sb p de path scratch cwd
    elim found [ none ↦ pure none | some ip ↦ open_found omode ip ])

  abbrev pub truncate : ℕ → Step (Unit {0})
  truncate i = do
    ip ← load sb p de i
    λ k. elim (itrunc sb ip k.blocks) [
      | none ↦ panics
      | some (jp, t) ↦ done (tt, record k { cache = set k.cache i jp; blocks = t })
    ]

  -- The fields of the file that is opened; the offset of a device stays.
  abbrev pub opened : (omode i : ℕ) → Inode → File → File
  opened omode i ip f = record f {
    kind = if ip.kind == t_device then fd_device else fd_inode;
    major = if ip.kind == t_device then ip.major else f.major;
    off = if ip.kind == t_device then f.off else 0;
    ip = i;
    readable = not (has_flag o_wronly omode);
    writable = has_flag o_wronly omode || has_flag o_rdwr omode;
  }

  -- The file and the descriptor for a call of `sys_open`, or neither. A file that is free is of the
  -- type FD_NONE, so that `fileclose` of a new one only frees it.
  abbrev pub take_both : Ofile → List File → Option ((ℕ × ℕ) × (Ofile × List File))
  take_both t fs =
      let (f, gs) = filealloc fs in
      elim f [
        | none ↦ none
        | some i ↦ elim (fdalloc i t) [ none ↦ none | some (fd, u) ↦ some ((i, fd), (u, gs)) ]
      ]

  abbrev pub change_file : ℕ → (File → File) → List File → List File
  change_file i h fs = elim (get_elem? fs i) [ none ↦ fs | some f ↦ set fs i (h f) ]

  -- The descriptor, or -1, with the descriptors and the files.
  abbrev pub Opened : Type 0
  Opened = Option ℕ × (Ofile × List File)

  abbrev pub refuse : (ip : ℕ) → Ofile → List File → Step Opened
  refuse ip t fs = iunlockput sb p de ip >> pure (none, (t, fs))

  abbrev pub open_locked : (omode ip : ℕ) → Ofile → List File → Step Opened
  open_locked omode ip t fs = do
    c ← load sb p de ip
    if c.kind == t_device && leb ndev c.major then refuse ip t fs else elim (take_both t fs) [
      | none ↦ refuse ip t fs
      | some ((i, fd), (u, gs)) ↦ (do
        if has_flag o_trunc omode && c.kind == t_file then truncate ip else pure tt
        unlock_inode sb p de ip
        pure (some fd, (u, change_file i (opened omode ip c) gs)))
    ]

  pub sys_open : (path : Option (List ℕ)) → (omode cwd : ℕ) → Ofile → List File → Step Opened
  sys_open none omode cwd t fs = pure (none, (t, fs))
  sys_open (some path) omode cwd t fs = do
    found ← open_inode path omode cwd
    elim found [ none ↦ pure (none, (t, fs)) | some ip ↦ open_locked omode ip t fs ]
