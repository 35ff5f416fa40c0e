-- ===== src/Bcache.antt =====
-- kernel/bio.c: the buffers in the order of their list, from `bcache.head.next` to
-- `bcache.head.prev`. A buffer is named by its place in `bcache.buf`. `bcache.lock` is held around
-- each change and not modelled; a panic is `none`. The copy of a block that the driver reads is a
-- parameter.
pub mod Recycling
mod Tests
use xv6_learn.Common.{
  ℕ, zero, suc, ◌+◌, ◌-◌, ◌%◌, ◌^◌, Bool, true, false, not, ◌&&◌, Option, none, some, List, [], ◌∷◌,
  ◌==◌, if◌then◌else◌,
}
use xv6_learn.Sleep.{Sleeplock, initsleeplock, acquiresleep, releasesleep, holdingsleep}

-- `struct buf`, less the links of the list.
pub record Buf : Type 0 where
  pub place : ℕ
  pub is_valid : Bool
  pub dev : ℕ
  pub blockno : ℕ
  pub lock : Sleeplock
  pub refcnt : ℕ
  pub bytes : ℕ → ℕ

abbrev pub nbuf : ℕ
nbuf = 30

-- The loop of `binit` for the `n` first places: each buffer is put in front.
pub binit_loop : (n : ℕ) → List Buf
binit_loop zero = []
binit_loop (suc n) =
    record {
      place = n;
      is_valid = false;
      dev = 0;
      blockno = 0;
      lock = initsleeplock;
      refcnt = 0;
      bytes = λ x. 0;
    }
    ∷ binit_loop n

pub binit : List Buf
unfolding binit_loop
binit = binit_loop nbuf

abbrev pub is_for : (dev blockno : ℕ) → Buf → Bool
is_for dev blockno b = b.dev == dev && b.blockno == blockno

-- `b->refcnt++`, and the fields of a buffer that is recycled.
abbrev pub counted : Buf → Buf
counted b = record b { refcnt = (b.refcnt + 1) % 2 ^ 32 }

abbrev pub recycled : (dev blockno : ℕ) → Buf → Buf
recycled dev blockno b = record b { dev = dev; blockno = blockno; is_valid = false; refcnt = 1 }

-- The first loop of `bget`: the buffer, and the buffers then.
unfoldable pub find_cached : (dev blockno : ℕ) → List Buf → Option (ℕ × List Buf)
find_cached dev blockno [] = none
find_cached dev blockno (b ∷ bs) =
    let rest = find_cached dev blockno bs in
    elim (is_for dev blockno b) [
      | true ↦ some (b.place, counted b ∷ bs)
      | false ↦ elim rest [ none ↦ none | some (i, bs') ↦ some (i, b ∷ bs') ]
    ]

-- The second loop, from the end of the list on.
unfoldable pub recycle_last : (dev blockno : ℕ) → List Buf → Option (ℕ × List Buf)
recycle_last dev blockno [] = none
recycle_last dev blockno (b ∷ bs) = elim (recycle_last dev blockno bs) [
  | some (i, bs') ↦ some (i, b ∷ bs')
  | none ↦ elim (b.refcnt == 0) [
    | true ↦ some (b.place, recycled dev blockno b ∷ bs)
    | false ↦ none
  ]
]

-- `bget` up to its `acquiresleep`, whose rounds are `lock_buf`.
unfoldable pub bget : (dev blockno : ℕ) → List Buf → Option (ℕ × List Buf)
unfolding find_cached recycle_last
bget dev blockno bs = elim (find_cached dev blockno bs) [
  | some r ↦ some r
  | none ↦ recycle_last dev blockno bs
]

-- A change of the buffer at a place.
abbrev pub at_place : (i : ℕ) → (Buf → Buf) → List Buf → List Buf
at_place i f [] = []
at_place i f (b ∷ bs) = if b.place == i then f b ∷ bs else b ∷ at_place i f bs

abbrev pub buf_at : (i : ℕ) → List Buf → Option Buf
buf_at i [] = none
buf_at i (b ∷ bs) = if b.place == i then some b else buf_at i bs

-- A round of process `p`; `none` is a sleep.
pub lock_buf : (p i : ℕ) → List Buf → Option (List Buf)
unfolding acquiresleep
lock_buf p i bs = elim (buf_at i bs) [
  | none ↦ none
  | some b ↦ elim (acquiresleep p b.lock) [
    | none ↦ none
    | some lk ↦ some (at_place i (λ b. record b { lock = lk }) bs)
  ]
]

-- `bread` after its `bget`.
pub fill_buf : (read : ℕ → ℕ → ℕ → ℕ) → (i : ℕ) → List Buf → List Buf
fill_buf read i bs =
    at_place i
      (λ b. if b.is_valid then b else record b { bytes = read b.dev b.blockno; is_valid = true }) bs

abbrev pub without : (i : ℕ) → List Buf → List Buf
without i [] = []
without i (b ∷ bs) = if b.place == i then bs else b ∷ without i bs

-- Those that `releasesleep` wakes are not part of the buffers.
pub brelse : (p i : ℕ) → List Buf → Option (List Buf)
unfolding holdingsleep releasesleep
brelse p i bs = elim (buf_at i bs) [
  | none ↦ none
  | some b ↦ elim (holdingsleep p b.lock) [
    | false ↦ none
    | true ↦
        (let b' = record b {
          lock = (releasesleep b.lock).0;
          refcnt = (b.refcnt + 2 ^ 32 - 1) % 2 ^ 32;
        } in
          if b'.refcnt == 0 then some (b' ∷ without i bs) else some (at_place i (λ c. b') bs))
  ]
]
