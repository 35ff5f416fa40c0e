-- ===== src/Fs/Super.antt =====
-- The super block: `readsb` and the check of `fsinit`, whose `initlog` is Log's.
use xv6_learn.Common.{Option, none, some, ◌==◌, if◌then◌else◌}
use xv6_learn.Fs.{Superblock, Blocks, fsmagic}
use xv6_learn.Fs.Words.{get_le}

pub readsb : Blocks → Superblock
readsb s =
    let f = s.bytes 1 in
    record {
      magic = get_le 4 0 f;
      size = get_le 4 4 f;
      nblocks = get_le 4 8 f;
      ninodes = get_le 4 12 f;
      nlog = get_le 4 16 f;
      logstart = get_le 4 20 f;
      inodestart = get_le 4 24 f;
      bmapstart = get_le 4 28 f;
    }

-- `none` is the panic.
pub fsinit : Blocks → Option Superblock
unfolding readsb
fsinit s = let sb = readsb s in if sb.magic == fsmagic then some sb else none
