-- ===== src/Fs/Content/Read.antt =====
-- `readi` into the memory of the kernel, as a copy of the bytes of the file.
use xv6_learn.Common.{
  ℕ, zero, suc, ◌+◌, ◌-◌, ◌*◌, ◌/◌, ◌%◌, ◌^◌, ◌≤◌, ◌<◌, ◌≡◌, ◌⊎◌, inl, inr, refl, ap, sym, ◌∙◌,
  arith, min, false, ltb, length, Bool-cases,
}
use xv6_learn.Fs.{Superblock, Bytes, Blocks, bsize}
use xv6_learn.Fs.Inode.{Inode}
use xv6_learn.Fs.Content.{kernel_copies, Moved, moved, slice, put_slice, read_blocks, readi}
use xv6_learn.Fs.Content.Map.{block_of, IsMapped, bmap-mapped}
use xv6_learn.Fs.Content.Slices.{put_slice-outside, put_slice-inside, length-slice, get_or-slice}

-- Byte `x` of the file.
abbrev pub file_byte : Inode → Blocks → ℕ → ℕ
file_byte ip s x = s.bytes (block_of (x / bsize) ip s) (x % bsize)

-- No block of the file is missing.
abbrev pub Whole : Inode → Blocks → Type 0
Whole ip s = (bn : ℕ) → bn * bsize < ip.size → IsMapped bn ip s

-- The `n` bytes of the file from `off` on stand at `dst`, and the rest of the memory is as before.
abbrev pub Filled : (dst off n : ℕ) → Inode → Blocks → (m m' : Bytes) → Type 0
Filled dst off n ip s m m' =
    ((k : ℕ) → k < n → m' (dst + k) ≡ file_byte ip s (off + k))
    × ((x : ℕ) → (x < dst) ⊎ (dst + n ≤ x) → m' x ≡ m x)

-- The bytes of a first chunk, and those of the rest.
Filled-append :
    (dst off k n : ℕ) (ip : Inode) (s : Blocks) (m m1 m2 : Bytes)
    → Filled dst off k ip s m m1
    → Filled (dst + k) (off + k) n ip s m1 m2
    → Filled dst off (k + n) ip s m m2
Filled-append dst off k n ip s m m1 m2 (here, kept) (there, kept') = (
  λ i p. elim (Bool-cases (ltb i k)) [
    | inl first ↦ kept' (dst + i) (inl (ground arith)) ∙ here i (ground arith)
    | inr later ↦
        (let e : k + (i - k) ≡ i = ground arith in
          let e1 : dst + k + (i - k) ≡ dst + i = ground arith in
          let e2 : off + k + (i - k) ≡ off + i = ground arith in
          ap m2 (sym e1) ∙ there (i - k) (ground arith) ∙ ap (file_byte ip s) e2)
  ],
  λ x h. kept' x (ground arith) ∙ kept x (ground arith),
)

-- A chunk of one block.
Filled-chunk :
    (dst off k : ℕ) (ip : Inode) (s : Blocks) (m : Bytes)
    → off % bsize + k ≤ bsize
    → Filled dst off k ip s m
        (put_slice dst (slice (off % bsize) k (s.bytes (block_of (off / bsize) ip s))) m)
Filled-chunk dst off k ip s m h =
    let f = s.bytes (block_of (off / bsize) ip s) in
    let size : length (slice (off % bsize) k f) ≡ k = length-slice (off % bsize) k f in
    (
      λ i p.
          let q : (off + i) / bsize ≡ off / bsize = omega arith in
          let r : (off + i) % bsize ≡ off % bsize + i = omega arith in
          put_slice-inside dst (slice (off % bsize) k f) m i (omega (arith, size))
          ∙ get_or-slice (off % bsize) k f i p
          ∙ sym (ap (λ y. s.bytes (block_of y ip s) ((off + i) % bsize)) q ∙ ap f r),
      λ x p. put_slice-outside dst (slice (off % bsize) k f) m x (ground (arith, size)),
    )

module _ (sb : Superblock) (ip : Inode) (s : Blocks) (whole : Whole ip s) where
  abbrev Reads : (dst off n tot : ℕ) (m : Bytes) → Moved (Inode × Blocks × Bytes) → Type 0
  Reads dst off n tot m r =
      (m' : Bytes) × (r ≡ moved (tot + n) (ip, s, m')) × Filled dst off n ip s m m'

  read_blocks-Reads :
      (fuel dst off n tot : ℕ) (m : Bytes)
      → n ≤ fuel
      → off + n ≤ ip.size
      → Reads dst off n tot m (read_blocks sb kernel_copies fuel dst off n tot ip s m)
  unfolding read_blocks
  read_blocks-Reads zero dst off n tot m h p =
      let z : n ≡ 0 = omega arith in
      rw z
        (m, ap (λ t. moved t (ip, s, m)) (omega arith), (λ k q. absurd (omega arith), λ x q. refl))
  read_blocks-Reads (suc fuel) dst off n tot m h p = elim (Bool-cases (ltb 0 n)) [
    | inr over ↦
        (let z : n ≡ 0 = ground arith in
          rw (read_blocks, over)
            (
              m,
              ap (λ t. moved t (ip, s, m)) (omega (arith, z)),
              (λ k q. absurd (omega (arith, z)), λ x q. refl),
            ))
    | inl more ↦
        (let e = bmap-mapped sb (off / bsize) ip s (whole (off / bsize) (ground arith)) in
          let k = min n (bsize - off % bsize) in
          let m1 =
            put_slice dst (slice (off % bsize) k (s.bytes (block_of (off / bsize) ip s))) m in
          let (m', r, f) =
            read_blocks-Reads fuel (dst + k) (off + k) (n - k) (tot + k) m1 (ground arith)
              (ground arith) in
          let c =
            Filled-append dst off k (n - k) ip s m m1 m'
              (Filled-chunk dst off k ip s m (omega arith)) f in
          let t : tot + k + (n - k) ≡ tot + n = omega arith in
          let z : k + (n - k) ≡ n = omega arith in
          rw (read_blocks, more, e) (m', r ∙ ap (λ y. moved y (ip, s, m')) t, rw z at c))
  ]

  whole_read :
      (fuel dst off n : ℕ) (m : Bytes)
      → n ≤ fuel
      → off + n ≤ ip.size
      → (m' : Bytes) × (read_blocks sb kernel_copies fuel dst off n 0 ip s m ≡ moved n (ip, s, m'))
        × Filled dst off n ip s m m'
  whole_read fuel dst off n m h p =
      let (m', r, f) = read_blocks-Reads fuel dst off n 0 m h p in
      let z : 0 + n ≡ n = omega arith in (m', r ∙ ap (λ y. moved y (ip, s, m')) z, f)

  -- `readi` of a file with no block missing, from an offset that is not past its end and with an end
  -- that fits 32 bits, copies to the kernel's memory the bytes of the file from the offset on, `n`
  -- or as many as the file has, and no others; it returns their number and changes neither the inode
  -- nor a block.
  pub readi-Filled :
      (dst off n : ℕ) (m : Bytes)
      → off ≤ ip.size
      → off + n < 2 ^ 32
      → (m' : Bytes) × (readi sb kernel_copies dst off n ip s m
          ≡ moved (min n (ip.size - off)) (ip, s, m'))
        × Filled dst off (min n (ip.size - off)) ip s m m'
  unfolding readi
  readi-Filled dst off n m low high =
      let a : ltb ip.size off ≡ false = ground arith in
      let b : ltb ((off + n) % 2 ^ 32) off ≡ false = ground arith in
      elim (Bool-cases (ltb ip.size (off + n))) [
        | inl past ↦
            (let z : min n (ip.size - off) ≡ ip.size - off = ground arith in
              rw (a, b, past, z)
                (whole_read (ip.size - off) dst off (ip.size - off) m (omega arith) (omega arith)))
        | inr inside ↦
            (let z : min n (ip.size - off) ≡ n = ground arith in
              rw (a, b, inside, z) (whole_read n dst off n m (omega arith) (ground arith)))
      ]
