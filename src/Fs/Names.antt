-- ===== src/Fs/Names.antt =====
-- Directories and paths of kernel/fs.c: `namecmp`, `dirlookup`, `dirlink`, `skipelem`, `namex`, `namei`
-- and `nameiparent`. The state is the blocks, the inode cache and the memory of the kernel; an inode
-- is its entry of the cache. A path is its bytes up to the NUL; a name is an address in the memory.
pub mod Elements
pub mod Entries
pub mod Lookup
use xv6_learn.Common.{
  ℕ, zero, suc, ◌+◌, ◌-◌, ◌*◌, ◌/◌, ◌%◌, ◌^◌, Bool, true, false, not, ◌&&◌, ◌||◌, Option, none,
  some, List, [], ◌∷◌, ◌==◌, ltb, if◌then◌else◌, get_elem?, set, length, take,
}
use xv6_learn.Bytes
use xv6_learn.Bytes.{Memory, strncmp, strncpy}
use xv6_learn.Fs.{Superblock, Bytes, Blocks}
use xv6_learn.Fs.Words.{get_le, put_le}
use xv6_learn.Fs.Inode.{Inode, Locked, panics, sleeps, done, iget, idup, ilock, iunlock}
use xv6_learn.Fs.Content.{kernel_copies, panicked, moved, put_slice, iput, readi, writei}

pub record Kernel : Type 0 where
  pub blocks : Blocks
  pub cache : List Inode
  pub memory : Memory

abbrev pub Step {ℓ} : Type ℓ → Type ℓ
Step A = Kernel → Locked (A × Kernel)

abbrev pub pure {ℓ} : {A : Type ℓ} → A → Step A
pure a k = done (a, k)

module _ {ℓ κ} {A : Type ℓ} {B : Type κ} where
  infixl 1 ◌>>=◌ ◌>>◌
  abbrev pub ◌>>=◌ : Step A → (A → Step B) → Step B
  (p >>= f) k = elim (p k) [ panics ↦ panics | sleeps ↦ sleeps | done (a, k') ↦ f a k' ]

  abbrev pub ◌>>◌ : Step A → Step B → Step B
  p >> q = p >>= λ _. q

abbrev pub stop {ℓ} : {A : Type ℓ} → Step A
stop k = panics

abbrev pub dirsiz : ℕ
dirsiz = 14

abbrev pub t_dir : ℕ
t_dir = 1

abbrev pub root_dev : ℕ
root_dev = 1

abbrev pub root_ino : ℕ
root_ino = 1

-- `sizeof(struct dirent)`; the number has 2 bytes and the name the other 14.
abbrev pub dirent_size : ℕ
dirent_size = 16

pub namecmp : (s t : ℕ) → Memory → ℕ
unfolding strncmp
namecmp s t m = strncmp s t dirsiz m

-- `*path == '/'`
abbrev from_root : List ℕ → Bool
from_root [] = false
from_root (x ∷ path) = x == 47

-- `while (*path == '/') path++`, and the element that follows with what is after it.
pub skip_slashes : List ℕ → List ℕ
skip_slashes [] = []
skip_slashes (x ∷ path) = let rest = skip_slashes path in if x == 47 then rest else x ∷ path

pub element : List ℕ → List ℕ
element [] = []
element (x ∷ path) = let rest = element path in if x == 47 then [] else x ∷ rest

pub after_element : List ℕ → List ℕ
after_element [] = []
after_element (x ∷ path) = let rest = after_element path in if x == 47 then x ∷ path else rest

-- What the call leaves in the buffer `name`.
abbrev pub put_name : (name : ℕ) → List ℕ → Memory → Memory
put_name name s m =
    if ltb (length s) dirsiz
    then put_slice (name + length s) (0 ∷ []) (put_slice name s m)
    else put_slice name (take dirsiz s) m

pub skipelem : List ℕ → (name : ℕ) → Memory → Option (List ℕ × Memory)
unfolding skip_slashes element after_element
skipelem path name m = elim (skip_slashes path) [
  | [] ↦ none
  | x ∷ s ↦ some (skip_slashes (after_element (x ∷ s)), put_name name (element (x ∷ s)) m)
]

module _ (sb : Superblock) (p de : ℕ) where
  -- The operations on entry `i` of the cache.
  abbrev pub load : ℕ → Step Inode
  load i k = elim (get_elem? k.cache i) [ none ↦ panics | some ip ↦ done (ip, k) ]

  abbrev pub store : ℕ → Inode → Step (Unit {0})
  store i ip k = done (tt, record k { cache = set k.cache i ip })

  abbrev pub put_inode : ℕ → Step (Unit {0})
  put_inode i = do
    ip ← load i
    λ k. elim (iput sb ip k.blocks) [
      | none ↦ panics
      | some (jp, t) ↦ done (tt, record k { cache = set k.cache i jp; blocks = t })
    ]

  abbrev pub lock_inode : ℕ → Step (Unit {0})
  lock_inode i = do
    ip ← load i
    λ k. elim (ilock sb p ip k.blocks) [
      | panics ↦ panics
      | sleeps ↦ sleeps
      | done jp ↦ store i jp k
    ]

  abbrev pub unlock_inode : ℕ → Step (Unit {0})
  unlock_inode i = do ip ← load i; elim (iunlock sb p ip) [ none ↦ stop | some jp ↦ store i jp ]

  abbrev pub get_inode : (dev inum : ℕ) → Step ℕ
  get_inode dev inum k = elim (iget dev inum k.cache) [
    | none ↦ panics
    | some (i, ips) ↦ done (i, record k { cache = ips })
  ]

  abbrev pub dup_inode : ℕ → Step ℕ
  dup_inode i k = done (i, record k { cache = idup i k.cache })

  -- `readi` of a `struct dirent` into the local variable `de`, with the panic on another count.
  abbrev pub read_dirent : (dp off : ℕ) → Step (Unit {0})
  read_dirent dp off = do
    ip ← load dp
    λ k. elim (readi sb kernel_copies de off dirent_size ip k.blocks k.memory) [
      | panicked ↦ panics
      | moved n (jp, t, m) ↦
          if n == dirent_size
          then done (tt, record { cache = set k.cache dp jp; blocks = t; memory = m })
          else panics
    ]

  abbrev pub write_dirent : (dp off : ℕ) → Step (Unit {0})
  write_dirent dp off = do
    ip ← load dp
    λ k. elim (writei sb kernel_copies de off dirent_size ip k.blocks k.memory) [
      | panicked ↦ panics
      | moved _ (none, jp, t) ↦ panics
      | moved _ (some n, jp, t) ↦
          if n == dirent_size
          then done (tt, record k { cache = set k.cache dp jp; blocks = t })
          else panics
    ]

  pub iunlockput : ℕ → Step (Unit {0})
  iunlockput i = do unlock_inode i; put_inode i

  -- A round of the loop of `dirlookup` with the entry at `off` read, and the rounds that are left.
  pub dirent_matches : (dev off name : ℕ) → Step (Option (ℕ × ℕ)) → Step (Option (ℕ × ℕ))
  unfolding namecmp
  dirent_matches dev off name rest k =
      let inum = get_le 2 de k.memory in
      if inum == 0
      then rest k
      else if namecmp name (de + 2) k.memory == 0
      then (do i ← get_inode dev inum; pure (some (off, i))) k
      else rest k

  -- The loop of `dirlookup`: the offset of the entry and the inode, which `iget` returns.
  pub dirlookup_loop : (fuel off dp name : ℕ) → Step (Option (ℕ × ℕ))
  unfolding dirent_matches
  dirlookup_loop zero off dp name k = done (none, k)
  dirlookup_loop (suc fuel) off dp name k =
      let rest = dirlookup_loop fuel (off + dirent_size) dp name in
      (do
        ip ← load dp
        if ltb off ip.size
            then read_dirent dp off >> dirent_matches ip.dev off name rest
            else pure none)
        k

  pub dirlookup : (dp name : ℕ) → Step (Option (ℕ × ℕ))
  unfolding dirlookup_loop
  dirlookup dp name = do
    ip ← load dp
    if ip.kind == t_dir then dirlookup_loop (ip.size / dirent_size + 1) 0 dp name else stop

  abbrev when_used : (off : ℕ) → Step ℕ → Step ℕ
  when_used off rest k = if get_le 2 de k.memory == 0 then done (off, k) else rest k

  -- The loop of `dirlink`: the offset of the first entry that is free, or of the end.
  pub free_dirent : (fuel off dp : ℕ) → Step ℕ
  free_dirent zero off dp k = done (off, k)
  free_dirent (suc fuel) off dp k =
      let rest = free_dirent fuel (off + dirent_size) dp in
      (do
        ip ← load dp
        if ltb off ip.size then read_dirent dp off >> when_used off rest else pure off)
        k

  -- `strncpy(de.name, name, DIRSIZ)`, and `de.inum = inum`.
  abbrev pub fill_dirent : (name inum : ℕ) → Step (Unit {0})
  unfolding strncpy
  fill_dirent name inum k =
      done (tt, record k { memory = put_le 2 de inum (strncpy (de + 2) name dirsiz k.memory) })

  -- Whether the entry was written; `false` is -1.
  pub dirlink : (dp name inum : ℕ) → Step Bool
  unfolding dirlookup free_dirent
  dirlink dp name inum = do
    found ← dirlookup dp name
    elim found [
      | some (off, i) ↦ (do put_inode i; pure false)
      | none ↦ (do
        ip ← load dp
        off ← free_dirent (ip.size / dirent_size + 1) 0 dp
        fill_dirent name inum
        write_dirent dp off
        pure true)
    ]

  -- A round of `namex` with `ip` locked, its copy `dp`, and the rounds that are left; `last` says that
  -- the caller wants the parent and the path ends here. `none` is the pointer 0.
  pub namex_round :
      (dp : Inode) (last : Bool) (name ip : ℕ) → (ℕ → Step (Option ℕ)) → Step (Option ℕ)
  unfolding iunlockput dirlookup
  namex_round dp last name ip rest =
      if not (dp.kind == t_dir)
      then iunlockput ip >> pure none
      else if last
      then unlock_inode ip >> pure (some ip)
      else (do
        found ← dirlookup ip name
        elim found [
          | none ↦ iunlockput ip >> pure none
          | some (off, next) ↦ iunlockput ip >> rest next
        ])

  -- The loop of `namex` with `ip` reached; `none` is the pointer 0.
  pub namex_loop : (fuel : ℕ) → List ℕ → (parent : Bool) → (name ip : ℕ) → Step (Option ℕ)
  unfolding skipelem namex_round
  namex_loop zero path parent name ip k = done (none, k)
  namex_loop (suc fuel) path parent name ip k = elim (skipelem path name k.memory) [
    | none ↦ (if parent then (do put_inode ip; pure none) else pure (some ip)) k
    | some (rest, m) ↦
        (let next_round = namex_loop fuel rest parent name in
          (do
            lock_inode ip
            dp ← load ip
            namex_round dp (parent && length rest == 0) name ip next_round)
            (record k { memory = m }))
  ]

  pub namex : List ℕ → (parent : Bool) → (name cwd : ℕ) → Step (Option ℕ)
  unfolding namex_loop
  namex path parent name cwd = do
    ip ← if from_root path then get_inode root_dev root_ino else dup_inode cwd
    namex_loop (length path + 1) path parent name ip

  pub namei : List ℕ → (name cwd : ℕ) → Step (Option ℕ)
  unfolding namex
  namei path name cwd = namex path false name cwd

  pub nameiparent : List ℕ → (name cwd : ℕ) → Step (Option ℕ)
  unfolding namex
  nameiparent path name cwd = namex path true name cwd
