-- ===== src/Fs/Content.antt =====
-- The content of inodes in kernel/fs.c: `bmap`, `itrunc`, `iput`, `stati`, `readi` and `writei`. An
-- inode is one that the caller has locked. A panic is `none`, or `panicked` in a loop.
pub mod Map
pub mod Read
pub mod Slices
use xv6_learn.Common.{
  ℕ, zero, suc, ◌+◌, ◌-◌, ◌*◌, ◌/◌, ◌%◌, ◌^◌, min, Bool, true, false, ◌&&◌, ◌||◌, Option, none,
  some, List, [], ◌∷◌, ◌==◌, ltb, if◌then◌else◌, get_or, set, length,
}
use xv6_learn.Fs.{Superblock, Bytes, Blocks, logged_write, change, bsize}
use xv6_learn.Fs.Words.{get_le, put_le}
use xv6_learn.Fs.Alloc.{balloc, bfree}
use xv6_learn.Fs.Inode.{Inode, iupdate}

abbrev pub ndirect : ℕ
ndirect = 12

-- BSIZE / sizeof(uint)
abbrev pub nindirect : ℕ
nindirect = 256

-- NDIRECT + NINDIRECT
abbrev pub maxfile : ℕ
maxfile = 268

-- The bytes of a block from an offset on.
abbrev pub slice : (off n : ℕ) → Bytes → List ℕ
slice off zero f = []
slice off (suc n) f = f off ∷ slice (off + 1) n f

abbrev pub put_slice : (off : ℕ) → List ℕ → Bytes → Bytes
put_slice off [] f = f
put_slice off (c ∷ cs) f = put_slice (off + 1) cs (λ x. if x == off then c else f x)

-- `either_copyout` and `either_copyin` with the direction chosen, over the memory that they reach.
-- A copy may fail, with a part done: the Boolean is success.
pub record Copies : Type 1 where
  pub Memory : Type 0
  pub copyout : (dst : ℕ) → List ℕ → Memory → Memory × Bool
  pub copyin : (src n : ℕ) → Memory → List ℕ × Bool

-- `memmove` from and to the kernel, which the two copies come to with `user_dst` or `user_src` 0.
abbrev pub kernel_copies : Copies
kernel_copies = record {
  Memory = Bytes;
  copyout = λ dst cs m. (put_slice dst cs m, true);
  copyin = λ src n m. (slice src n m, true);
}

-- The fields of `struct stat` that `stati` fills in, in their order.
pub stati : Inode → List ℕ
stati ip = ip.dev ∷ ip.inum ∷ ip.kind ∷ ip.nlink ∷ ip.size ∷ []

pub data Moved {ℓ} (A : Type ℓ) : Type ℓ where
  panicked : Moved A
  moved : (tot : ℕ) → A → Moved A

module _ (sb : Superblock) where
  -- `ip->addrs[i]`, allocated where it is 0.
  pub bmap_slot : (i : ℕ) → Inode → Blocks → Option (ℕ × Inode × Blocks)
  bmap_slot i ip s =
      let addr = get_or ip.addrs i 0 in
      if addr == 0
      then elim (balloc sb s) [
        | none ↦ none
        | some (b, t) ↦ some (b, record ip { addrs = set ip.addrs i b }, t)
      ]
      else some (addr, ip, s)

  -- Word `j` of the indirect block `addr`, allocated where it is 0.
  pub bmap_word : (addr j : ℕ) → Blocks → Option (ℕ × Blocks)
  bmap_word addr j s =
      let a = get_le 4 (4 * j) (s.bytes addr) in
      if a == 0
      then elim (balloc sb s) [
        | none ↦ none
        | some (b, t) ↦ some (b, logged_write addr (change addr (put_le 4 (4 * j) b) t))
      ]
      else some (a, s)

  pub bmap : (bn : ℕ) → Inode → Blocks → Option (ℕ × Inode × Blocks)
  unfolding bmap_slot bmap_word
  bmap bn ip s =
      if ltb bn ndirect
      then bmap_slot bn ip s
      else if ltb (bn - ndirect) nindirect
      then elim (bmap_slot ndirect ip s) [
        | none ↦ none
        | some (addr, jp, t) ↦ elim (bmap_word addr (bn - ndirect) t) [
          | none ↦ none
          | some (a, u) ↦ some (a, jp, u)
        ]
      ]
      else none

  -- The blocks of a list that are not 0 are freed, in order.
  pub free_all : List ℕ → Blocks → Option Blocks
  free_all [] s = some s
  free_all (b ∷ bs) s =
      if b == 0 then free_all bs s else elim (bfree sb b s) [ none ↦ none | some t ↦ free_all bs t ]

  -- The same for `n` words of block `addr` from byte `j` on.
  pub free_words : (n j addr : ℕ) → Blocks → Option Blocks
  free_words zero j addr s = some s
  free_words (suc n) j addr s =
      let b = get_le 4 j (s.bytes addr) in
      elim (if b == 0 then some s else bfree sb b s) [
        | none ↦ none
        | some t ↦ free_words n (j + 4) addr t
      ]

  abbrev pub first_n : ℕ → List ℕ → List ℕ
  first_n zero bs = []
  first_n (suc n) [] = []
  first_n (suc n) (a ∷ bs) = a ∷ first_n n bs

  -- The loops of `itrunc` on the direct blocks, and on the indirect block and its words.
  pub itrunc : Inode → Blocks → Option (Inode × Blocks)
  unfolding free_all free_words
  itrunc ip s =
      let indirect = get_or ip.addrs ndirect 0 in
      let emptied = record ip {
        addrs = 0 ∷ 0 ∷ 0 ∷ 0 ∷ 0 ∷ 0 ∷ 0 ∷ 0 ∷ 0 ∷ 0 ∷ 0 ∷ 0 ∷ 0 ∷ [];
        size = 0;
      } in
      elim (free_all (first_n ndirect ip.addrs) s) [
        | none ↦ none
        | some t ↦
            if indirect == 0
            then some (emptied, iupdate sb emptied t)
            else elim (free_words nindirect 0 indirect t) [
              | none ↦ none
              | some u ↦ elim (bfree sb indirect u) [
                | none ↦ none
                | some w ↦ some (emptied, iupdate sb emptied w)
              ]
            ]
      ]

  -- `iput`; `none` is a panic.
  pub iput : Inode → Blocks → Option (Inode × Blocks)
  unfolding itrunc
  iput ip s =
      if ip.ref == 1 && (ip.valid && ip.nlink == 0)
      then elim (itrunc ip s) [
        | none ↦ none
        | some (jp, t) ↦
            (let dead = record jp { kind = 0 } in
              some (record dead { valid = false; ref = dead.ref - 1 }, iupdate sb dead t))
      ]
      else some (record ip { ref = ip.ref - 1 }, s)

  module _ (c : Copies) where
    open c use {Memory, copyout, copyin}

    -- The loop of `readi` with `n` bytes left, `tot` done; a round does one byte at least.
    pub read_blocks :
        (fuel dst off n tot : ℕ) → Inode → Blocks → Memory → Moved (Inode × Blocks × Memory)
    read_blocks zero dst off n tot ip s m = moved tot (ip, s, m)
    read_blocks (suc fuel) dst off n tot ip s m = elim (ltb 0 n) [
      | false ↦ moved tot (ip, s, m)
      | true ↦ elim (bmap (off / bsize) ip s) [
        | none ↦ panicked
        | some (b, jp, t) ↦
            (let k = min n (bsize - off % bsize) in
              let (m', copied) = copyout dst (slice (off % bsize) k (t.bytes b)) m in
              elim copied [
                | false ↦ moved tot (jp, t, m')
                | true ↦ read_blocks fuel (dst + k) (off + k) (n - k) (tot + k) jp t m'
              ])
      ]
    ]

    pub readi : (dst off n : ℕ) → Inode → Blocks → Memory → Moved (Inode × Blocks × Memory)
    unfolding read_blocks
    readi dst off n ip s m =
        if ltb ip.size off || ltb ((off + n) % 2 ^ 32) off
        then moved 0 (ip, s, m)
        else (let k = if ltb ip.size (off + n) then ip.size - off else n in
            read_blocks k dst off k 0 ip s m)

    -- The loop of `writei`; `tot` counts what was copied, and the offset that is reached is returned.
    pub write_blocks : (fuel src off n : ℕ) → Inode → Blocks → Memory → Moved (Inode × Blocks)
    write_blocks zero src off n ip s m = moved off (ip, s)
    write_blocks (suc fuel) src off n ip s m = elim (ltb 0 n) [
      | false ↦ moved off (ip, s)
      | true ↦ elim (bmap (off / bsize) ip s) [
        | none ↦ panicked
        | some (b, jp, t) ↦
            (let k = min n (bsize - off % bsize) in
              let (cs, copied) = copyin src k m in
              let t' = change b (put_slice (off % bsize) cs) t in
              elim copied [
                | false ↦ moved off (jp, t')
                | true ↦ write_blocks fuel (src + k) (off + k) (n - k) jp (logged_write b t') m
              ])
      ]
    ]

    -- The count that it returns is `n`, however far the loop came; `none` is -1.
    pub writei : (src off n : ℕ) → Inode → Blocks → Memory → Moved (Option ℕ × Inode × Blocks)
    unfolding write_blocks
    writei src off n ip s m =
        if ltb ip.size off || ltb ((off + n) % 2 ^ 32) off
        then moved 0 (none, ip, s)
        else if ltb (maxfile * bsize) (off + n)
        then moved 0 (none, ip, s)
        else elim (write_blocks n src off n ip s m) [
          | panicked ↦ panicked
          | moved end (jp, t) ↦
              (let grown = if ltb jp.size end then record jp { size = end } else jp in
                if ltb 0 n
                then moved n (some n, grown, iupdate sb grown t)
                else moved n (some n, jp, t))
        ]
