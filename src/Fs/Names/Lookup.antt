-- ===== src/Fs/Names/Lookup.antt =====
-- `dirlookup` as a search of the entries of a directory.
use mathlib.Core.Path.{subst}
use xv6_learn.Common.{
  ℕ, zero, suc, ◌+◌, ◌-◌, ◌*◌, ◌/◌, ◌%◌, ◌≤◌, ◌<◌, ◌≡◌, ◌≢◌, ◌⊎◌, ◌↔◌, inl, inr, refl, ap, ap₂, sym,
  ◌∙◌, arith, true, false, Option, none, some, List, ◌==◌, ltb, Bool-cases, ==_iff,
}
use xv6_learn.Bytes.{Memory}
use xv6_learn.Bytes.Compare.{AllBytes, SameString, strncmp-SameString}
use xv6_learn.Fs.{Superblock, Bytes, Blocks, bsize}
use xv6_learn.Fs.Words.{get_le}
use xv6_learn.Fs.Inode.{Inode, Locked, done}
use xv6_learn.Fs.Content.Map.{block_of}
use xv6_learn.Fs.Content.Read.{file_byte, Filled}
use xv6_learn.Fs.Names.{
  Kernel, pure, ◌>>=◌, t_dir, dirsiz, dirent_size, namecmp, get_inode, read_dirent, dirent_matches,
  dirlookup_loop, dirlookup, Step,
}
use xv6_learn.Fs.Names.Entries.{
  IsDirectory, entry_inum, Kept, kernel, read_dirent-reads, still_Kept, read-inum,
}

-- The string at `p` in one memory is that at `b` in another, up to the first NUL or in `n` bytes.
abbrev pub Spells : (n p : ℕ) → Memory → (b : ℕ) → Bytes → Type 0
Spells zero p m b g = Unit
Spells (suc n) p m b g = (m p ≡ g b) × ((m p ≡ 0) ⊎ Spells n (p + 1) m (b + 1) g)

SameString-Spells :
    (n p q b : ℕ) (m' m : Memory) (g : Bytes)
    → ((i : ℕ) → i < n → m' (p + i) ≡ m (p + i))
    → ((i : ℕ) → i < n → m' (q + i) ≡ g (b + i))
    → SameString p q n m' ↔ Spells n p m b g
SameString-Spells zero p q b m' m g h k = (λ _. tt, λ _. tt)
SameString-Spells (suc n) p q b m' m g h k =
    let p0 : p + 0 ≡ p = omega arith in
    let q0 : q + 0 ≡ q = omega arith in
    let b0 : b + 0 ≡ b = omega arith in
    let a : m' p ≡ m p = ap m' (sym p0) ∙ h 0 (omega arith) ∙ ap m p0 in
    let c : m' q ≡ g b = ap m' (sym q0) ∙ k 0 (omega arith) ∙ ap g b0 in
    let rest =
      SameString-Spells n (p + 1) (q + 1) (b + 1) m' m g
        (λ i l.
          let e : p + 1 + i ≡ p + suc i = omega arith in
          ap m' e ∙ h (suc i) (omega arith) ∙ ap m (sym e))
        (λ i l.
          let e : q + 1 + i ≡ q + suc i = omega arith in
          let f : b + 1 + i ≡ b + suc i = omega arith in
          ap m' e ∙ k (suc i) (omega arith) ∙ ap g (sym f)) in
    ground (arith, a, c, rest)

-- A name that the variable `de` does not touch.
abbrev pub Apart : (name de : ℕ) → Type 0
Apart name de = (name + dirsiz ≤ de) ⊎ (de + dirent_size ≤ name)

-- Entry `j` is for the name.
abbrev pub IsEntry : (name j : ℕ) → Inode → Blocks → Memory → Type 0
IsEntry name j ip s m =
    (entry_inum j ip s ≢ 0) × Spells dirsiz name m (j * dirent_size + 2) (file_byte ip s)

-- What a search from entry `k` on comes to.
abbrev pub Missing :
    (name de k : ℕ)
    → Inode
    → Blocks
    → List Inode
    → Memory
    → Locked (Option (ℕ × ℕ) × Kernel)
    → Type 0
Missing name de k ip s cache m r =
    ((j : ℕ) → k ≤ j → j * dirent_size < ip.size → ¬ IsEntry name j ip s m)
    × (m' : Memory) × Kept de m m'
    × (r ≡ done (none, kernel s cache m'))

abbrev pub Present :
    Superblock
    → (p name de k : ℕ) → Inode
    → Blocks
    → List Inode
    → Memory
    → Locked (Option (ℕ × ℕ) × Kernel)
    → Type 0
Present sb p name de k ip s cache m r =
    (j : ℕ) × (k ≤ j)
    × (j * dirent_size < ip.size)
    × IsEntry name j ip s m
    × ((i : ℕ) → k ≤ i → i < j → ¬ IsEntry name i ip s m)
    × (m' : Memory) × Kept de m m'
    × (r
        ≡ (get_inode sb p de ip.dev (entry_inum j ip s) >>= λ i. pure (some (j * dirent_size, i)))
            (kernel s cache m'))

module _ (sb : Superblock) (p de dp name : ℕ) (ip : Inode) (s : Blocks) (cache : List Inode)
    (dir : IsDirectory dp ip s cache) (apart : Apart name de) where
  file_char : (x : ℕ) → file_byte ip s x < 256
  file_char x = dir.bytes (block_of (x / bsize) ip s) (x % bsize)

  -- With entry `j` read into `de`, where `m` is the memory at the start.
  module _ (j : ℕ) (m m1 m2 : Memory) (chars : AllBytes m) (kept : Kept de m m1)
      (read : Filled de (j * dirent_size) dirent_size ip s m1 m2) where
    still : Kept de m m2
    still = still_Kept sb p de dp ip s cache dir j m m1 m2 kept read

    read_at :
        (o i : ℕ) → o + i < dirent_size → m2 (de + o + i) ≡ file_byte ip s (j * dirent_size + o + i)
    read_at o i h =
        let e : de + o + i ≡ de + (o + i) = omega arith in
        let f : j * dirent_size + o + i ≡ j * dirent_size + (o + i) = omega arith in
        ap m2 e ∙ read.0 (o + i) h ∙ ap (file_byte ip s) (sym f)

    read-AllBytes : AllBytes m2
    read-AllBytes x = elim (Bool-cases (ltb x de)) [
      | inl low ↦ omega (arith, still x (inl (ground arith)), chars x)
      | inr high ↦ elim (Bool-cases (ltb x (de + dirent_size))) [
        | inr past ↦ omega (arith, still x (inr (ground arith)), chars x)
        | inl inside ↦
            (let e : de + (x - de) ≡ x = ground arith in
              let r = read.0 (x - de) (ground arith) in
              let b = file_char (j * dirent_size + (x - de)) in omega (arith, ap m2 (sym e) ∙ r, b))
      ]
    ]

    name_read :
        (namecmp name (de + 2) m2 ≡ 0) ↔ Spells dirsiz name m (j * dirent_size + 2) (file_byte ip s)
    unfolding namecmp
    name_read =
        let same =
          SameString-Spells dirsiz name (de + 2) (j * dirent_size + 2) m2 m (file_byte ip s)
            (λ i h. still (name + i) (ground arith)) (λ i h. read_at 2 i (omega arith)) in
        let cmp = strncmp-SameString name (de + 2) dirsiz m2 read-AllBytes in
        (λ z. same.0 (cmp.0 z), λ w. cmp.1 (same.1 w))

  abbrev pub Searched : (k : ℕ) → Memory → Locked (Option (ℕ × ℕ) × Kernel) → Type 0
  Searched k m r = Missing name de k ip s cache m r ⊎ Present sb p name de k ip s cache m r

  none_there :
      (k : ℕ) (m m1 : Memory)
      → ip.size ≤ k * dirent_size
      → Kept de m m1
      → Searched k m (done (none, kernel s cache m1))
  none_there k m m1 h kept = inl (λ j a b. absurd (omega arith), m1, kept, refl)

  is_nonzero : (n : ℕ) → (n == 0) ≡ false → n ≢ 0
  is_nonzero n h = ground arith

  from_next :
      {Q : ℕ → Type 0} (k : ℕ) (m : Memory)
      → ¬ IsEntry name k ip s m
      → ((i : ℕ) → suc k ≤ i → Q i → ¬ IsEntry name i ip s m)
      → (i : ℕ) → k ≤ i
      → Q i
      → ¬ IsEntry name i ip s m
  from_next k m other later i a q = elim (Bool-cases (k == i)) [
    | inl same ↦ (let e : k ≡ i = ground arith in subst (λ x. ¬ IsEntry name x ip s m) e other)
    | inr beyond ↦ later i (ground arith) q
  ]

  -- Entry `k` is not for the name.
  passed :
      (k : ℕ) (m : Memory) (r : Locked (Option (ℕ × ℕ) × Kernel))
      → ¬ IsEntry name k ip s m
      → Searched (suc k) m r
      → Searched k m r
  passed k m r other (inl (absent, m', kept, e)) = inl (from_next k m other absent, m', kept, e)
  passed k m r other (inr (j, later, inside, it, first, m', kept, e)) =
      inr (j, omega arith, inside, it, from_next k m other first, m', kept, e)

  dirent_matches-Searched :
      (k off : ℕ) (m m1 m2 : Memory) (rest : Step (Option (ℕ × ℕ)))
      → AllBytes m
      → Kept de m m1
      → Filled de (k * dirent_size) dirent_size ip s m1 m2
      → off ≡ k * dirent_size
      → k * dirent_size < ip.size
      → Searched (suc k) m (rest (kernel s cache m2))
      → Searched k m (dirent_matches sb p de ip.dev off name rest (kernel s cache m2))
  unfolding dirent_matches
  dirent_matches-Searched k off m m1 m2 rest chars kept filled e inside later =
      let number = read-inum sb p de dp ip s cache dir k m m1 m2 kept filled in
      let spelled = name_read k m m1 m2 chars kept filled in
      elim (Bool-cases (get_le 2 de m2 == 0)) [
        | inl unused ↦
            rw (dirent_matches, unused)
              (passed k m _ (λ it. it.0 (sym number ∙ (==_iff (get_le 2 de m2) 0).0 unused)) later)
        | inr used ↦ elim (Bool-cases (namecmp name (de + 2) m2 == 0)) [
          | inr other ↦
              rw (dirent_matches, used, other)
                (passed k m _ (λ it. is_nonzero (namecmp name (de + 2) m2) other (spelled.1 it.1))
                  later)
          | inl same ↦
              rw (dirent_matches, used, same)
                (inr (
                  k,
                  omega arith,
                  inside,
                  (
                    λ z. is_nonzero (get_le 2 de m2) used (number ∙ z),
                    spelled.0 ((==_iff (namecmp name (de + 2) m2) 0).0 same),
                  ),
                  λ i a b. absurd (omega arith),
                  m2,
                  still k m m1 m2 chars kept filled,
                  ap₂
                      (λ n o.
                        (get_inode sb p de ip.dev n >>= λ i. pure (some (o, i)))
                          (kernel s cache m2))
                      number e,
                ))
        ]
      ]

  dirlookup_loop-Searched :
      (fuel k off : ℕ) (m m1 : Memory)
      → AllBytes m
      → off ≡ k * dirent_size
      → ip.size < (k + fuel) * dirent_size
      → Kept de m m1
      → Searched k m (dirlookup_loop sb p de fuel off dp name (kernel s cache m1))
  unfolding dirlookup_loop
  dirlookup_loop-Searched zero k off m m1 chars e h kept = none_there k m m1 (omega arith) kept
  dirlookup_loop-Searched (suc fuel) k off m m1 chars e h kept =
      elim (Bool-cases (ltb off ip.size)) [
        | inr past ↦ rw (dirlookup_loop, dir.at, past) (none_there k m m1 (ground (arith, e)) kept)
        | inl inside ↦
            (let (m2, read, filled) =
                read_dirent-reads sb p de dp ip s cache dir k m1 (ground (arith, e)) in
              let read' = ap (λ o. read_dirent sb p de dp o (kernel s cache m1)) e ∙ read in
              let next = dirlookup_loop sb p de fuel (off + dirent_size) dp name in
              let ih =
                dirlookup_loop-Searched fuel (suc k) (off + dirent_size) m m2 chars
                  (omega (arith, e)) (omega (arith, h)) (still k m m1 m2 chars kept filled) in
              rw (dirlookup_loop, dir.at, inside, read')
                (dirent_matches-Searched k off m m1 m2 next chars kept filled e (ground (arith, e))
                  ih))
      ]

  -- `dirlookup` of a directory of whole entries, with no block missing, looks for the entries that
  -- are in use and spell the name, in their 14 bytes or up to a NUL. Where there is none it returns
  -- 0; else it returns the offset of the first of them and what `iget` returns for its number. It
  -- writes to no memory but its variable `de`.
  pub dirlookup-Searched :
      (m : Memory) → AllBytes m → Searched 0 m (dirlookup sb p de dp name (kernel s cache m))
  unfolding dirlookup
  dirlookup-Searched m chars =
      let is_dir : (ip.kind == t_dir) ≡ true = ground (arith, dir.kind) in
      rw (dirlookup, dir.at, is_dir)
        (dirlookup_loop-Searched (ip.size / dirent_size + 1) 0 0 m m chars (omega arith)
          (omega arith) (λ x h. refl))
