-- ===== src/Fs/Alloc/Bitmap.antt =====
-- The bitmap as a set of blocks, and what `balloc` and `bfree` do to it.
use xv6_learn.Common.{
  ℕ, ◌/◌, ◌%◌, ◌≡◌, inl, inr, arith, true, false, not, ◌&&◌, ◌||◌, ◌==◌, Bool-cases,
}
use xv6_learn.Fs.{Bytes}
use xv6_learn.Fs.Alloc.{bit, set_bit, clear_bit}
use xv6_learn.Fs.Alloc.Bits.{bit_at, bit_at-add_self, bit_at-add_ne, bit_at-sub_self, bit_at-sub_ne}

pub bit-set_bit :
    (i j : ℕ) (f : Bytes) → bit f i ≡ false → bit (set_bit i f) j ≡ ((i == j) || bit f j)
bit-set_bit i j f h =
    let b : bit_at (f (i / 8)) (i % 8) ≡ 0 = ground arith in
    elim (Bool-cases (i == j)) [
      | inl same ↦ ground (arith, bit_at-add_self (i % 8) (f (i / 8)) b)
      | inr other ↦ elim (Bool-cases (i / 8 == j / 8)) [
        | inl byte ↦ ground (arith, bit_at-add_ne (i % 8) (j % 8) (f (i / 8)) (ground arith) b)
        | inr apart ↦ ground arith
      ]
    ]

pub bit-clear_bit :
    (i j : ℕ) (f : Bytes) → bit f i ≡ true → bit (clear_bit i f) j ≡ (not (i == j) && bit f j)
bit-clear_bit i j f h =
    let b : bit_at (f (i / 8)) (i % 8) ≡ 1 = ground arith in
    elim (Bool-cases (i == j)) [
      | inl same ↦ ground (arith, bit_at-sub_self (i % 8) (f (i / 8)) b)
      | inr other ↦ elim (Bool-cases (i / 8 == j / 8)) [
        | inl byte ↦ ground (arith, bit_at-sub_ne (i % 8) (j % 8) (f (i / 8)) (ground arith) b)
        | inr apart ↦ ground arith
      ]
    ]
