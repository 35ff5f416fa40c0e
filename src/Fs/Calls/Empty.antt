-- ===== src/Fs/Calls/Empty.antt =====
-- `isdirempty` as a test of the entries of a directory.
use xv6_learn.Common.{
  ℕ, zero, suc, ◌+◌, ◌*◌, ◌/◌, ◌≤◌, ◌<◌, ◌≡◌, ◌≢◌, ◌⊎◌, inl, inr, refl, ap, sym, ◌∙◌, arith, Bool,
  true, false, List, ◌==◌, ltb, Bool-cases, ==_iff,
}
use xv6_learn.Bytes.{Memory}
use xv6_learn.Fs.{Superblock, Blocks}
use xv6_learn.Fs.Words.{get_le}
use xv6_learn.Fs.Inode.{Inode, Locked, done}
use xv6_learn.Fs.Names.{Kernel, dirent_size, read_dirent}
use xv6_learn.Fs.Names.Entries.{
  IsDirectory, entry_inum, Kept, kernel, read_dirent-reads, still_Kept, read-inum,
}
use xv6_learn.Fs.Calls.{isdirempty_loop, isdirempty}

-- What a test of the entries from entry `k` on comes to: `true` and no entry in use, or `false` and
-- one in use.
abbrev pub Tested :
    (de k : ℕ) → Inode → Blocks → List Inode → Memory → Locked (Bool × Kernel) → Type 0
Tested de k ip s cache m r =
    (m' : Memory) × Kept de m m'
    × (((r ≡ done (true, kernel s cache m'))
          × ((j : ℕ) → k ≤ j → j * dirent_size < ip.size → entry_inum j ip s ≡ 0))
        ⊎ ((r ≡ done (false, kernel s cache m'))
            × ((j : ℕ) × (k ≤ j) × (j * dirent_size < ip.size) × (entry_inum j ip s ≢ 0))))

module _ (sb : Superblock) (p de name scratch dot dotdot dp : ℕ) (ip : Inode) (s : Blocks)
    (cache : List Inode) (dir : IsDirectory dp ip s cache) where
  -- Entry `k` is not in use.
  passed :
      (k : ℕ) (m : Memory) (r : Locked (Bool × Kernel))
      → entry_inum k ip s ≡ 0
      → Tested de (suc k) ip s cache m r
      → Tested de k ip s cache m r
  passed k m r z (m', kept, inl (e, unused)) = (m', kept, inl (e, from_here))
    where
      from_here : (j : ℕ) → k ≤ j → j * dirent_size < ip.size → entry_inum j ip s ≡ 0
      from_here j a b = elim (Bool-cases (k == j)) [
        | inl same ↦ ap (λ i. entry_inum i ip s) (sym ((==_iff k j).0 same)) ∙ z
        | inr beyond ↦ unused j (ground arith) b
      ]
  passed k m r z (m', kept, inr (e, (j, a, b, used))) =
      (m', kept, inr (e, (j, omega arith, b, used)))

  isdirempty_loop-Tested :
      (fuel k off : ℕ) (m m1 : Memory)
      → off ≡ k * dirent_size
      → ip.size < (k + fuel) * dirent_size
      → Kept de m m1
      → Tested de k ip s cache m
          (isdirempty_loop sb p de name scratch dot dotdot fuel off dp (kernel s cache m1))
  unfolding isdirempty_loop
  isdirempty_loop-Tested zero k off m m1 e h kept =
      (m1, kept, inl (refl, λ j a b. absurd (omega arith)))
  isdirempty_loop-Tested (suc fuel) k off m m1 e h kept = elim (Bool-cases (ltb off ip.size)) [
    | inr past ↦
        rw (isdirempty_loop, dir.at, past)
          (m1, kept, inl (refl, λ j a b. absurd (ground (arith, e))))
    | inl inside ↦
        (let (m2, read, filled) =
            read_dirent-reads sb p de dp ip s cache dir k m1 (ground (arith, e)) in
          let read' = ap (λ o. read_dirent sb p de dp o (kernel s cache m1)) e ∙ read in
          let kept2 = still_Kept sb p de dp ip s cache dir k m m1 m2 kept filled in
          let number = read-inum sb p de dp ip s cache dir k m m1 m2 kept filled in
          elim (Bool-cases (get_le 2 de m2 == 0)) [
            | inl unused ↦
                rw (isdirempty_loop, dir.at, inside, read', unused)
                  (passed k m _ (sym number ∙ (==_iff (get_le 2 de m2) 0).0 unused) (
                    isdirempty_loop-Tested fuel (suc k) (off + dirent_size) m m2 (omega (arith, e))
                      (omega (arith, h)) kept2))
            | inr used ↦
                rw (isdirempty_loop, dir.at, inside, read', used)
                  (
                    m2,
                    kept2,
                    inr (refl, (k, omega arith, ground (arith, e), λ z. ground (arith, number, z))),
                  )
          ])
  ]

  -- `isdirempty` of a directory of whole entries, with no block missing, returns true exactly when no
  -- entry after the first two is in use; it changes nothing but its variable `de`.
  pub isdirempty-Tested :
      (m : Memory)
      → Tested de 2 ip s cache m (isdirempty sb p de name scratch dot dotdot dp (kernel s cache m))
  unfolding isdirempty
  isdirempty-Tested m =
      rw (isdirempty, dir.at)
        (isdirempty_loop-Tested (ip.size / dirent_size + 1) 2 (2 * dirent_size) m m refl
          (omega arith) (λ x h. refl))
