-- ===== src/Fs.antt =====
-- kernel/fs.c and the layout of kernel/fs.h, over the buffers of the blocks and the log. A block is
-- its 1024 bytes by offset. `log_write` of a block is noted in order; that it does not panic is the
-- reservation's part (Log.Reserve).
pub mod Words
pub mod Alloc
pub mod Inode
pub mod Content
pub mod Names
pub mod Calls
pub mod Super
mod Tests
use xv6_learn.Common.{ℕ, ◌+◌, ◌*◌, ◌/◌, ◌%◌, ◌^◌, List, [], ◌∷◌, ◌++◌, update}

abbrev pub bsize : ℕ
bsize = 1024

-- BSIZE * 8
abbrev pub bpb : ℕ
bpb = 8192

-- BSIZE / sizeof(struct dinode)
abbrev pub ipb : ℕ
ipb = 16

abbrev pub fsmagic : ℕ
fsmagic = 0x10203040

pub record Superblock : Type 0 where
  pub magic : ℕ
  pub size : ℕ
  pub nblocks : ℕ
  pub ninodes : ℕ
  pub nlog : ℕ
  pub logstart : ℕ
  pub inodestart : ℕ
  pub bmapstart : ℕ

-- The bytes of an object, by offset.
abbrev pub Bytes : Type 0
Bytes = ℕ → ℕ

-- What `bread` of each block returns, and the blocks that were logged, the first first.
pub record Blocks : Type 0 where
  pub bytes : ℕ → Bytes
  pub logged : List ℕ

abbrev pub logged_write : ℕ → Blocks → Blocks
logged_write b s = record s { logged = s.logged ++ (b ∷ []) }

-- A change of the buffer of a block.
abbrev pub change : ℕ → (Bytes → Bytes) → Blocks → Blocks
change b f s = record s { bytes = update s.bytes b (f (s.bytes b)) }

abbrev pub iblock : Superblock → ℕ → ℕ
iblock sb i = i / ipb + sb.inodestart

abbrev pub bblock : Superblock → ℕ → ℕ
bblock sb b = b / bpb + sb.bmapstart
