-- ===== src/Fs/Alloc.antt =====
-- The free bitmap of kernel/fs.c: `bzero`, `balloc` and `bfree`.
pub mod Bits
pub mod Free
pub mod Scan
pub mod Bitmap
use xv6_learn.Common.{
  ℕ, zero, suc, ◌+◌, ◌-◌, ◌*◌, ◌/◌, ◌%◌, ◌^◌, Bool, true, false, ◌&&◌, Option, none, some, ◌==◌,
  ltb, if◌then◌else◌, update,
}
use xv6_learn.Fs.{Superblock, Bytes, Blocks, logged_write, change, bblock, bpb}

abbrev pub zero_bytes : Bytes → Bytes
zero_bytes f x = 0

pub bzero : ℕ → Blocks → Blocks
bzero bno s = logged_write bno (change bno zero_bytes s)

-- `(bp->data[bi / 8] & (1 << (bi % 8))) != 0`
abbrev pub bit : Bytes → ℕ → Bool
bit f bi = f (bi / 8) / 2 ^ (bi % 8) % 2 == 1

-- `bp->data[bi / 8] |= m` on a bit that is clear, and `&= ~m` on one that is set.
abbrev pub set_bit : ℕ → Bytes → Bytes
set_bit bi f = update f (bi / 8) (f (bi / 8) + 2 ^ (bi % 8))

abbrev pub clear_bit : ℕ → Bytes → Bytes
clear_bit bi f = update f (bi / 8) (f (bi / 8) - 2 ^ (bi % 8))

module _ (sb : Superblock) where
  -- The inner loop of `balloc` on the block of the bitmap for `b`, for at most `n` bits from `bi` on.
  pub scan_bits : (n b bi : ℕ) → Bytes → Option ℕ
  scan_bits zero b bi f = none
  scan_bits (suc n) b bi f =
      let rest = scan_bits n b (bi + 1) f in
      if ltb (b + bi) sb.size then (if bit f bi then rest else some bi) else none

  -- The outer loop, for at most `n` blocks of the bitmap; `none` is the panic.
  pub scan_blocks : (n b : ℕ) → Blocks → Option ℕ
  scan_blocks zero b s = none
  scan_blocks (suc n) b s =
      let rest = scan_blocks n (b + bpb) s in
      if ltb b sb.size
      then elim (scan_bits bpb b 0 (s.bytes (bblock sb b))) [
        | none ↦ rest
        | some bi ↦ some (b + bi)
      ]
      else none

  pub balloc : Blocks → Option (ℕ × Blocks)
  unfolding scan_blocks bzero
  balloc s = elim (scan_blocks (sb.size / bpb + 1) 0 s) [
    | none ↦ none
    | some b ↦
        (let map_block = bblock sb b in
          some (b, bzero b (logged_write map_block (change map_block (set_bit (b % bpb)) s))))
  ]

  pub bfree : ℕ → Blocks → Option Blocks
  bfree b s =
      let map_block = bblock sb b in
      if bit (s.bytes map_block) (b % bpb)
      then some (logged_write map_block (change map_block (clear_bit (b % bpb)) s))
      else none
