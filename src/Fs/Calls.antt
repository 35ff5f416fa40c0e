-- ===== src/Fs/Calls.antt =====
-- `sys_link` and `sys_unlink` of kernel/sysfile.c, over the directories and inodes of kernel/fs.c. `begin_op` and
-- `end_op` stand around each call, and are those of the log. A path is what `argstr` fetches, `none`
-- where it fails; a result `false` is -1. `short` counts are bit patterns.
pub mod Open
pub mod Empty
mod Tests
use xv6_learn.Common.{
  ℕ, zero, suc, ◌+◌, ◌-◌, ◌*◌, ◌/◌, ◌%◌, ◌^◌, Bool, true, false, not, ◌&&◌, ◌||◌, Option, none,
  some, List, [], ◌∷◌, ◌==◌, ltb, leb, if◌then◌else◌, get_elem?, set,
}
use xv6_learn.Bytes.{memset}
use xv6_learn.Files.{File, fd_none, fd_inode, fd_device, ndev, filealloc}
use xv6_learn.Descriptors.{Ofile, fdalloc}
use xv6_learn.Fs.{Superblock}
use xv6_learn.Fs.Words.{get_le}
use xv6_learn.Fs.Inode.{Inode, Locked, panics, sleeps, done, iupdate, ialloc}
use xv6_learn.Fs.Content.{itrunc}
use xv6_learn.Fs.Names.{
  Kernel, Step, pure, ◌>>=◌, ◌>>◌, stop, t_dir, dirent_size, namecmp, load, store, put_inode,
  lock_inode, unlock_inode, read_dirent, write_dirent, iunlockput, dirlookup, dirlink, namei,
  nameiparent,
}

abbrev pub one_more : ℕ → ℕ
one_more n = (n + 1) % 2 ^ 16

abbrev pub one_less : ℕ → ℕ
one_less n = (n + 2 ^ 16 - 1) % 2 ^ 16

-- A `short` less than 1.
abbrev pub below_one : ℕ → Bool
below_one n = n == 0 || leb (2 ^ 15) n

-- Process `p`, the local variables `de` and `name`, the one of `namei`, and the strings "." and "..".
module _ (sb : Superblock) (p de name scratch dot dotdot : ℕ) where
  -- A change of an inode that is then written by `iupdate`.
  abbrev pub update_inode : ℕ → (Inode → Inode) → Step (Unit {0})
  update_inode i f = do
    ip ← load sb p de i
    λ k. done (tt, record k { cache = set k.cache i (f ip); blocks = iupdate sb (f ip) k.blocks })

  -- The loop of `isdirempty` from byte `off` on.
  pub isdirempty_loop : (fuel off dp : ℕ) → Step Bool
  isdirempty_loop zero off dp k = done (true, k)
  isdirempty_loop (suc fuel) off dp k =
      let rest = isdirempty_loop fuel (off + dirent_size) dp in
      (do
        ip ← load sb p de dp
        if ltb off ip.size
            then read_dirent sb p de dp off
              >> (λ j. if get_le 2 de j.memory == 0 then rest j else done (false, j))
            else pure true)
        k

  pub isdirempty : (dp : ℕ) → Step Bool
  unfolding isdirempty_loop
  isdirempty dp = do
    ip ← load sb p de dp
    isdirempty_loop (ip.size / dirent_size + 1) (2 * dirent_size) dp

  -- `bad` of `sys_link`.
  abbrev pub undo_link : ℕ → Step Bool
  undo_link ip = do
    lock_inode sb p de ip
    update_inode ip (λ i. record i { nlink = one_less i.nlink })
    iunlockput sb p de ip
    pure false

  -- `sys_link` from `nameiparent` on.
  abbrev pub link_in : (ip : ℕ) → Option ℕ → Step Bool
  link_in ip none = undo_link ip
  link_in ip (some dp) = do
    lock_inode sb p de dp
    d ← load sb p de dp
    c ← load sb p de ip
    linked ← if d.dev == c.dev then dirlink sb p de dp name c.inum else pure false
    iunlockput sb p de dp
    if linked then (put_inode sb p de ip >> pure true) else undo_link ip

  abbrev pub link_to : (new : List ℕ) → (cwd ip : ℕ) → Step Bool
  link_to new cwd ip = do
    lock_inode sb p de ip
    c ← load sb p de ip
    if c.kind == t_dir then (iunlockput sb p de ip >> pure false) else (do
      update_inode ip (λ i. record i { nlink = one_more i.nlink })
      unlock_inode sb p de ip
      parent ← nameiparent sb p de new name cwd
      link_in ip parent)

  pub sys_link : (old new : Option (List ℕ)) → (cwd : ℕ) → Step Bool
  sys_link none new cwd = pure false
  sys_link (some old) none cwd = pure false
  sys_link (some old) (some new) cwd = do
    found ← namei sb p de old scratch cwd
    elim found [ none ↦ pure false | some ip ↦ link_to new cwd ip ]

  -- `bad` of `sys_unlink`.
  abbrev pub leave : ℕ → Step Bool
  leave dp = do iunlockput sb p de dp; pure false

  abbrev pub clear_dirent : Step (Unit {0})
  clear_dirent k = done (tt, record k { memory = memset de 0 dirent_size k.memory })

  -- The entry at `off` of `dp` is cleared, and a link to `ip` taken off.
  abbrev pub remove_entry : (dp off ip : ℕ) → Step Bool
  remove_entry dp off ip = do
    clear_dirent
    write_dirent sb p de dp off
    c ← load sb p de ip
    if c.kind == t_dir
        then update_inode dp (λ i. record i { nlink = one_less i.nlink })
        else pure tt
    iunlockput sb p de dp
    update_inode ip (λ i. record i { nlink = one_less i.nlink })
    iunlockput sb p de ip
    pure true

  abbrev pub unlink_found : (dp off ip : ℕ) → Step Bool
  unlink_found dp off ip = do
    lock_inode sb p de ip
    c ← load sb p de ip
    if below_one c.nlink then stop else (do
      removable ← if c.kind == t_dir then isdirempty ip else pure true
      if removable then remove_entry dp off ip else (iunlockput sb p de ip >> leave dp))

  abbrev pub unlink_in : ℕ → Step Bool
  unlink_in dp k =
      if namecmp name dot k.memory == 0 || namecmp name dotdot k.memory == 0
      then leave dp k
      else (do
        found ← dirlookup sb p de dp name
        elim found [ none ↦ leave dp | some (off, ip) ↦ unlink_found dp off ip ])
          k

  pub sys_unlink : (path : Option (List ℕ)) → (cwd : ℕ) → Step Bool
  sys_unlink none cwd = pure false
  sys_unlink (some path) cwd = do
    found ← nameiparent sb p de path name cwd
    elim found [ none ↦ pure false | some dp ↦ lock_inode sb p de dp >> unlink_in dp ]
