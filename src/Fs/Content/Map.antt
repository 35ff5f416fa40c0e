-- ===== src/Fs/Content/Map.antt =====
-- `bmap` on a block that the inode has.
use xv6_learn.Common.{
  ℕ, ◌+◌, ◌-◌, ◌*◌, ◌<◌, ◌≡◌, ◌≢◌, ◌⊎◌, inl, inr, refl, arith, true, false, some, ◌==◌, ltb,
  if◌then◌else◌, get_or, Bool-cases,
}
use xv6_learn.Fs.{Superblock, Blocks}
use xv6_learn.Fs.Words.{get_le}
use xv6_learn.Fs.Inode.{Inode}
use xv6_learn.Fs.Content.{ndirect, nindirect, bmap_slot, bmap_word, bmap}

-- Where block `bn` of an inode stands, 0 where it has none.
abbrev pub block_of : (bn : ℕ) → Inode → Blocks → ℕ
block_of bn ip s =
    if ltb bn ndirect
    then get_or ip.addrs bn 0
    else get_le 4 (4 * (bn - ndirect)) (s.bytes (get_or ip.addrs ndirect 0))

-- The inode has the block, and the indirect block where that is needed.
abbrev pub IsMapped : (bn : ℕ) → Inode → Blocks → Type 0
IsMapped bn ip s =
    (block_of bn ip s ≢ 0)
    × ((bn < ndirect) ⊎ ((bn < ndirect + nindirect) × (get_or ip.addrs ndirect 0 ≢ 0)))

module _ (sb : Superblock) where
  bmap_slot-mapped :
      (i : ℕ) (ip : Inode) (s : Blocks)
      → get_or ip.addrs i 0 ≢ 0
      → bmap_slot sb i ip s ≡ some (get_or ip.addrs i 0, ip, s)
  unfolding bmap_slot
  bmap_slot-mapped i ip s h =
      let there : (get_or ip.addrs i 0 == 0) ≡ false = ground arith in rw there refl

  -- `bmap` of a block that the inode has returns it, and changes nothing.
  pub bmap-mapped :
      (bn : ℕ) (ip : Inode) (s : Blocks)
      → IsMapped bn ip s
      → bmap sb bn ip s ≡ some (block_of bn ip s, ip, s)
  unfolding bmap
  bmap-mapped bn ip s (there, inl direct) =
      let d : ltb bn ndirect ≡ true = ground arith in
      rw d (bmap_slot-mapped bn ip s (rw d at there))
  bmap-mapped bn ip s (there, inr (inside, indirect)) = elim (Bool-cases (ltb bn ndirect)) [
    | inl d ↦ rw d (bmap_slot-mapped bn ip s (rw d at there))
    | inr d ↦
        (let j = bn - ndirect in
          let i : ltb j nindirect ≡ true = ground arith in
          let a : get_or ip.addrs ndirect 0 ≢ 0 = indirect in
          let w : (get_le 4 (4 * j) (s.bytes (get_or ip.addrs ndirect 0)) == 0) ≡ false =
            ground (arith, there) in
          rw (d, i, bmap_slot-mapped ndirect ip s a, bmap_word, w) refl)
  ]
