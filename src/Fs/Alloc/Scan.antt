-- ===== src/Fs/Alloc/Scan.antt =====
-- The two loops of `balloc`: they find the first block that is not marked.
use xv6_learn.Common.{
  ℕ, zero, suc, ◌+◌, ◌-◌, ◌*◌, ◌/◌, ◌%◌, ◌≤◌, ◌<◌, ◌≡◌, inl, inr, refl, ◌∙◌, arith, Bool, true,
  false, Option, none, some, ◌==◌, ltb, Bool-cases,
}
use xv6_learn.Fs.{Superblock, Bytes, Blocks, bblock, bpb}
use xv6_learn.Fs.Alloc.{bit, scan_bits, scan_blocks}

-- What a scan of the bits of a block finds.
abbrev BitsEnd : (size n b bi : ℕ) → Bytes → Option ℕ → Type 0
BitsEnd size n b bi f (some j) =
    (bi ≤ j)
    × (j < bi + n)
    × (b + j < size)
    × (bit f j ≡ false)
    × ((k : ℕ) → bi ≤ k → k < j → bit f k ≡ true)
BitsEnd size n b bi f none = (k : ℕ) → bi ≤ k → k < bi + n → b + k < size → bit f k ≡ true

module _ (sb : Superblock) where
  -- Block `n` is marked in the bitmap.
  abbrev pub used : Blocks → ℕ → Bool
  used s n = bit (s.bytes (bblock sb n)) (n % bpb)

  bits_skip :
      (n b bi : ℕ) (f : Bytes) (o : Option ℕ)
      → bit f bi ≡ true
      → BitsEnd sb.size n b (bi + 1) f o
      → BitsEnd sb.size (suc n) b bi f o
  bits_skip n b bi f none set e = λ k p q r. elim (Bool-cases (bi == k)) [
    | inl this ↦ ground arith
    | inr later ↦ e k (ground arith) (omega arith) r
  ]
  bits_skip n b bi f (some j) set (low, high, inside, free, before) = (
    omega arith,
    omega arith,
    inside,
    free,
    λ k p q. elim (Bool-cases (bi == k)) [
      | inl this ↦ ground arith
      | inr later ↦ before k (ground arith) q
    ],
  )

  scan_bits-BitsEnd : (n b bi : ℕ) (f : Bytes) → BitsEnd sb.size n b bi f (scan_bits sb n b bi f)
  unfolding scan_bits
  scan_bits-BitsEnd zero b bi f = λ k p q r. absurd (omega arith)
  scan_bits-BitsEnd (suc n) b bi f = elim (Bool-cases (ltb (b + bi) sb.size)) [
    | inr past ↦ rw past (λ k p q r. absurd (ground arith))
    | inl inside ↦ elim (Bool-cases (bit f bi)) [
      | inl set ↦
          rw (inside, set)
            (bits_skip n b bi f (scan_bits sb n b (bi + 1) f) set
              (scan_bits-BitsEnd n b (bi + 1) f))
      | inr free ↦
          rw (inside, free)
            (omega arith, omega arith, ground arith, free, λ k p q. absurd (omega arith))
    ]
  ]

  abbrev pub BlocksEnd : (n b : ℕ) → Blocks → Option ℕ → Type 0
  BlocksEnd n b s (some m) =
      (b ≤ m) × (m < sb.size) × (used s m ≡ false) × ((k : ℕ) → b ≤ k → k < m → used s k ≡ true)
  BlocksEnd n b s none = (k : ℕ) → b ≤ k → k < b + n * bpb → k < sb.size → used s k ≡ true

  -- The bits of one block of the bitmap are those of the blocks from `b` on.
  used-bit :
      (b k : ℕ) (s : Blocks)
      → b % bpb ≡ 0
      → b ≤ k
      → k < b + bpb
      → used s k ≡ bit (s.bytes (bblock sb b)) (k - b)
  used-bit b k s whole low high =
      let q : k / bpb ≡ b / bpb = omega arith in
      let r : k % bpb ≡ k - b = omega arith in rw (q, r) refl

  blocks_skip :
      (n b : ℕ) (s : Blocks) (o : Option ℕ)
      → ((k : ℕ) → b ≤ k → k < b + bpb → k < sb.size → used s k ≡ true)
      → BlocksEnd n (b + bpb) s o
      → BlocksEnd (suc n) b s o
  blocks_skip n b s none first e = λ k p q r. elim (Bool-cases (ltb k (b + bpb))) [
    | inl here ↦ first k p (ground arith) r
    | inr later ↦ e k (ground arith) (omega arith) r
  ]
  blocks_skip n b s (some m) first (low, inside, free, before) = (
    omega arith,
    inside,
    free,
    λ k p q. elim (Bool-cases (ltb k (b + bpb))) [
      | inl here ↦ first k p (ground arith) (omega arith)
      | inr later ↦ before k (ground arith) q
    ],
  )

  pub scan_blocks-BlocksEnd :
      (n b : ℕ) (s : Blocks) → b % bpb ≡ 0 → BlocksEnd n b s (scan_blocks sb n b s)
  unfolding scan_blocks
  scan_blocks-BlocksEnd zero b s whole = λ k p q r. absurd (omega arith)
  scan_blocks-BlocksEnd (suc n) b s whole = elim (Bool-cases (ltb b sb.size)) [
    | inr past ↦ rw past (λ k p q r. absurd (ground arith))
    | inl inside ↦
        (let f = s.bytes (bblock sb b) in
          let e = scan_bits-BitsEnd bpb b 0 f in
          go inside (scan_bits sb bpb b 0 f) refl e
            (scan_blocks-BlocksEnd n (b + bpb) s (omega arith)))
  ]
    where
      go :
          ltb b sb.size ≡ true
          → (o : Option ℕ) → scan_bits sb bpb b 0 (s.bytes (bblock sb b)) ≡ o
          → BitsEnd sb.size bpb b 0 (s.bytes (bblock sb b)) o
          → BlocksEnd n (b + bpb) s (scan_blocks sb n (b + bpb) s)
          → BlocksEnd (suc n) b s (scan_blocks sb (suc n) b s)
      go inside none e h ih =
          rw (inside, e)
            (blocks_skip n b s (scan_blocks sb n (b + bpb) s)
              (λ k p q r.
                used-bit b k s whole p q ∙ h (k - b) (omega arith) (omega arith) (omega arith))
              ih)
      go inside (some j) e (low, high, in_size, free, before) ih =
          let at : b + j - b ≡ j = omega arith in
          rw (inside, e)
            (
              omega arith,
              in_size,
              used-bit b (b + j) s whole (omega arith) (omega arith) ∙ rw at free,
              λ k p q.
                  used-bit b k s whole p (omega arith) ∙ before (k - b) (omega arith) (omega arith),
            )
