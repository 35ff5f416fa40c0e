-- ===== src/Fs/Tests.antt =====
-- The file system run at concrete inputs, and the theorems at them.
use mathlib.Core.Path.{subst}
use xv6_learn.Common.{
  ℕ, zero, suc, ◌-◌, ◌≡◌, refl, sym, arith, true, false, some, List, [], ◌∷◌, ◌==◌, if◌then◌else◌,
  of_some, inl, min,
}
use xv6_learn.Fs.{Superblock, Bytes, Blocks, bblock}
use xv6_learn.Fs.Alloc.{balloc}
use xv6_learn.Fs.Alloc.Free.{MapMarked, Allocated, balloc-Allocated}
use xv6_learn.Fs.Inode.{Inode, iupdate, done, ilock, iget}
use xv6_learn.Fs.Inode.Record.{AllWords, Fits, loaded, iupdate-ilock}
use xv6_learn.Fs.Inode.Cache.{Unique, Gets, iget-Gets}
use xv6_learn.Fs.Content.{kernel_copies, moved, readi}
use xv6_learn.Fs.Content.Map.{IsMapped}
use xv6_learn.Fs.Content.Read.{Whole, Filled, readi-Filled}
use xv6_learn.Fs.Names.{skipelem}
use xv6_learn.Fs.Names.Elements.{Cut, skipelem-Cut}

-- 100 blocks, the bitmap in block 45, and blocks 0 to 45 marked; block 70 counts its bytes.
abbrev super : Superblock
super = record {
  magic = 0x10203040;
  size = 100;
  nblocks = 54;
  ninodes = 200;
  nlog = 30;
  logstart = 2;
  inodestart = 32;
  bmapstart = 45;
}

abbrev bitmap : Bytes
bitmap x = if x == 5 then 63 else 255

abbrev disk : Blocks
disk = record { bytes = λ b x. if b == 45 then bitmap x else if b == 70 then x else 0; logged = [] }

disk-MapMarked : MapMarked super disk
disk-MapMarked k p = let e : bblock super k ≡ 45 = omega arith in rw e refl

balloc-Allocated_example : Allocated super disk (balloc super disk)
balloc-Allocated_example = balloc-Allocated super disk disk-MapMarked

-- A file of 10 bytes in block 70, and a free entry of the cache.
abbrev file : Inode
file = record {
  dev = 1;
  inum = 5;
  ref = 1;
  lock = record { locked = false; pid = 0 };
  valid = true;
  kind = 2;
  major = 0;
  minor = 0;
  nlink = 1;
  size = 10;
  addrs = 70 ∷ 0 ∷ 0 ∷ 0 ∷ 0 ∷ 0 ∷ 0 ∷ 0 ∷ 0 ∷ 0 ∷ 0 ∷ 0 ∷ 0 ∷ [];
}

abbrev free_entry : Inode
free_entry = record file { ref = 0; inum = 0 }

file_words : AllWords file.addrs
file_words = (
  omega arith,
  (
    omega arith,
    (
      omega arith,
      (
        omega arith,
        (
          omega arith,
          (
            omega arith,
            (
              omega arith,
              (
                omega arith,
                (omega arith, (omega arith, (omega arith, (omega arith, (omega arith, tt))))),
              ),
            ),
          ),
        ),
      ),
    ),
  ),
)

file-Fits : Fits file
file-Fits = record {
  kind = omega arith;
  major = omega arith;
  minor = omega arith;
  nlink = omega arith;
  size = omega arith;
  addrs = file_words;
  length = refl;
}

-- An entry for it that is not read yet, and one for the next inode of its block.
abbrev unread : Inode
unread = record file { kind = 0; size = 0; valid = false }

abbrev next_file : Inode
next_file = record unread { inum = 6 }

iupdate-ilock_example :
    (ilock super 3 unread (iupdate super file disk)
      ≡ done
          (record (loaded unread file) { lock = record { locked = true; pid = 3 }; valid = true }))
    × (ilock super 3 next_file (iupdate super file disk) ≡ ilock super 3 next_file disk)
iupdate-ilock_example =
    iupdate-ilock super 3 file unread next_file disk file-Fits (λ e. absurd (omega arith)) refl
      (omega arith) refl refl (λ e. absurd (omega arith))

abbrev cache : List Inode
cache = file ∷ free_entry ∷ []

cache-Unique : Unique cache
cache-Unique d m zero zero a b at_i at_j hit_a hit_b = refl
cache-Unique d m zero (suc zero) a b at_i at_j hit_a hit_b =
    let e : b ≡ free_entry = sym (of_some at_j) in cc (rw e at hit_b)
cache-Unique d m (suc zero) j a b at_i at_j hit_a hit_b =
    let e : a ≡ free_entry = sym (of_some at_i) in cc (rw e at hit_a)
cache-Unique d m (suc (suc i)) j a b at_i at_j hit_a hit_b = cc (at_i)
cache-Unique d m zero (suc (suc j)) a b at_i at_j hit_a hit_b = cc (at_j)

-- The cache with one reference more to the file.
abbrev cache' : List Inode
cache' = record file { ref = 2 } ∷ free_entry ∷ []

iget_file : iget 1 5 cache ≡ some (0, cache')
unfolding iget
iget_file = refl

iget-Gets_example : Gets 1 5 cache 0 cache' × Unique cache'
iget-Gets_example = iget-Gets 1 5 cache cache-Unique iget_file

file-Whole : Whole file disk
file-Whole bn h =
    let e : bn ≡ 0 = omega arith in
    subst (λ b. IsMapped b file disk) (sym e) (λ z. ground arith, inl (omega arith))

readi-Filled_example :
    (m' : Bytes) × (readi super kernel_copies 1000 4 20 file disk (λ a. 0)
      ≡ moved (min 20 (10 - 4)) (file, disk, m'))
    × Filled 1000 4 (min 20 (10 - 4)) file disk (λ a. 0) m'
readi-Filled_example =
    readi-Filled super file disk file-Whole 1000 4 20 (λ a. 0) (omega arith) (omega arith)

-- "/ab//c"
abbrev path : List ℕ
path = 47 ∷ 97 ∷ 98 ∷ 47 ∷ 47 ∷ 99 ∷ []

skipelem-Cut_example : Cut path 1000 (λ a. 1) (skipelem path 1000 (λ a. 1))
skipelem-Cut_example = skipelem-Cut path 1000 (λ a. 1)
