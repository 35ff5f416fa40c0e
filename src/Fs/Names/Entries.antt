-- ===== src/Fs/Names/Entries.antt =====
-- The entries of a directory, as `readi` reads them into the variable `de`.
use xv6_learn.Common.{
  ℕ, zero, suc, ◌+◌, ◌-◌, ◌*◌, ◌%◌, ◌^◌, ◌≤◌, ◌<◌, ◌≡◌, ◌⊎◌, refl, ap, sym, ◌∙◌, arith, min, some,
  List, [], ◌∷◌, get_elem?, set,
}
use xv6_learn.Bytes.{Memory}
use xv6_learn.Fs.{Superblock, Bytes, Blocks}
use xv6_learn.Fs.Words.{get_le}
use xv6_learn.Fs.Inode.{Inode, done}
use xv6_learn.Fs.Content.Read.{file_byte, Whole, Filled, readi-Filled}
use xv6_learn.Fs.Names.{Kernel, t_dir, dirent_size, read_dirent}

pub get_le-shift :
    (n a b : ℕ) (f g : Bytes)
    → ((i : ℕ) → i < n → f (a + i) ≡ g (b + i))
    → get_le n a f ≡ get_le n b g
unfolding get_le
get_le-shift zero a b f g h = refl
get_le-shift (suc n) a b f g h =
    let a0 : a + 0 ≡ a = omega arith in
    let b0 : b + 0 ≡ b = omega arith in
    let here : f a ≡ g b = ap f (sym a0) ∙ h 0 (omega arith) ∙ ap g b0 in
    let later = get_le-shift n (a + 1) (b + 1) f g (λ i l.
      let e : a + 1 + i ≡ a + suc i = omega arith in
      let e' : b + 1 + i ≡ b + suc i = omega arith in
      ap f e ∙ h (suc i) (omega arith) ∙ ap g (sym e')) in
    omega (arith, here, later)

set-same : (ips : List Inode) (i : ℕ) {ip : Inode} → get_elem? ips i ≡ some ip → set ips i ip ≡ ips
set-same [] i h = refl
set-same (jp ∷ ips) zero h = ground arith
set-same (jp ∷ ips) (suc i) h = ap (λ l. jp ∷ l) (set-same ips i h)

-- A directory `dp` of whole entries, with no block missing.
pub record IsDirectory (dp : ℕ) (ip : Inode) (s : Blocks) (cache : List Inode) : Type 0 where
  pub at : get_elem? cache dp ≡ some ip
  pub kind : ip.kind ≡ t_dir
  pub whole : Whole ip s
  pub aligned : ip.size % dirent_size ≡ 0
  pub fits : ip.size < 2 ^ 32
  pub bytes : (b x : ℕ) → s.bytes b x < 256

-- The number in entry `j`.
abbrev pub entry_inum : (j : ℕ) → Inode → Blocks → ℕ
entry_inum j ip s = get_le 2 (j * dirent_size) (file_byte ip s)

-- Memory but for the variable `de`.
abbrev pub Kept : (de : ℕ) → (m m' : Memory) → Type 0
Kept de m m' = (x : ℕ) → (x < de) ⊎ (de + dirent_size ≤ x) → m' x ≡ m x

abbrev pub kernel : Blocks → List Inode → Memory → Kernel
kernel s cache m = record { blocks = s; cache = cache; memory = m }

module _ (sb : Superblock) (p de dp : ℕ) (ip : Inode) (s : Blocks) (cache : List Inode)
    (dir : IsDirectory dp ip s cache) where
  pub read_dirent-reads :
      (j : ℕ) (m : Memory)
      → j * dirent_size < ip.size
      → (m' : Memory) × (read_dirent sb p de dp (j * dirent_size) (kernel s cache m)
          ≡ done (tt, kernel s cache m'))
        × Filled de (j * dirent_size) dirent_size ip s m m'
  read_dirent-reads j m h =
      let (m', e, f) =
        readi-Filled sb ip s dir.whole de (j * dirent_size) dirent_size m (omega arith)
          (omega (arith, dir.fits, dir.aligned)) in
      let n : min dirent_size (ip.size - j * dirent_size) ≡ dirent_size =
        omega (arith, dir.aligned) in
      (m', rw (dir.at, e, n, set-same cache dp dir.at) refl, rw n at f)

  -- With entry `j` read, where `m` is the memory at the start.
  module _ (j : ℕ) (m m1 m2 : Memory) (kept : Kept de m m1)
      (read : Filled de (j * dirent_size) dirent_size ip s m1 m2) where
    pub still_Kept : Kept de m m2
    still_Kept x h = read.1 x h ∙ kept x h

    pub read-inum : get_le 2 de m2 ≡ entry_inum j ip s
    read-inum =
        get_le-shift 2 de (j * dirent_size) m2 (file_byte ip s) (λ i h. read.0 i (omega arith))
