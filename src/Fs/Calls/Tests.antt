-- ===== src/Fs/Calls/Tests.antt =====
-- A directory with three entries, searched and tested.
use mathlib.Core.Path.{subst}
use xv6_learn.Common.{◌≡◌, refl, sym, arith, true, List, [], ◌∷◌, ◌==◌, if◌then◌else◌, inl}
use xv6_learn.Bytes.{Memory}
use xv6_learn.Fs.{Superblock, Bytes, Blocks}
use xv6_learn.Fs.Inode.{Inode}
use xv6_learn.Fs.Content.Map.{IsMapped}
use xv6_learn.Fs.Content.Read.{Whole}
use xv6_learn.Fs.Names.{dirlookup}
use xv6_learn.Fs.Names.Entries.{IsDirectory, kernel}
use xv6_learn.Fs.Names.Lookup.{Searched, dirlookup-Searched}
use xv6_learn.Fs.Calls.{isdirempty}
use xv6_learn.Fs.Calls.Empty.{Tested, isdirempty-Tested}

abbrev super : Superblock
super = record {
  magic = 0x10203040;
  size = 100;
  nblocks = 54;
  ninodes = 200;
  nlog = 30;
  logstart = 2;
  inodestart = 32;
  bmapstart = 45;
}

-- "." for inode 5, ".." for inode 1, and "a" for inode 7.
abbrev entries : Bytes
entries x =
    if x == 0
    then 5
    else if x == 16
    then 1
    else if x == 32
    then 7
    else if x == 34
    then 97
    else if x == 2
    then 46
    else if x == 18
    then 46
    else if x == 19
    then 46
    else 0

abbrev disk : Blocks
disk = record { bytes = λ b x. if b == 70 then entries x else 0; logged = [] }

abbrev directory : Inode
directory = record {
  dev = 1;
  inum = 5;
  ref = 1;
  lock = record { locked = true; pid = 3 };
  valid = true;
  kind = 1;
  major = 0;
  minor = 0;
  nlink = 1;
  size = 48;
  addrs = 70 ∷ 0 ∷ 0 ∷ 0 ∷ 0 ∷ 0 ∷ 0 ∷ 0 ∷ 0 ∷ 0 ∷ 0 ∷ 0 ∷ 0 ∷ [];
}

abbrev cache : List Inode
cache = directory ∷ record directory { ref = 0; inum = 0 } ∷ []

directory-Whole : Whole directory disk
directory-Whole bn h =
    let e : bn ≡ 0 = omega arith in
    subst (λ b. IsMapped b directory disk) (sym e) (λ z. ground arith, inl (omega arith))

directory-IsDirectory : IsDirectory 0 directory disk cache
directory-IsDirectory = record {
  at = refl;
  kind = refl;
  whole = directory-Whole;
  aligned = refl;
  fits = omega arith;
  bytes = λ b x. ground arith;
}

-- "a" at 1000.
abbrev memory : Memory
memory x = if x == 1000 then 97 else 0

dirlookup-Searched_example :
    Searched super 3 2000 0 1000 directory disk cache directory-IsDirectory
      (inl (omega arith))
      0
      memory
      (dirlookup super 3 2000 0 1000 (kernel disk cache memory))
dirlookup-Searched_example =
    dirlookup-Searched super 3 2000 0 1000 directory disk cache directory-IsDirectory
      (inl (omega arith)) memory (λ x. ground arith)

isdirempty-Tested_example :
    Tested 2000 2 directory disk cache memory
      (isdirempty super 3 2000 1000 1100 1200 1300 0 (kernel disk cache memory))
isdirempty-Tested_example =
    isdirempty-Tested super 3 2000 1000 1100 1200 1300 0 directory disk cache directory-IsDirectory
      memory
