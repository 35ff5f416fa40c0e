-- ===== src/Virtio.antt =====
-- kernel/virtio_disk.c: the descriptors of the disk's queue, and what the driver puts in the rings.
-- `disk.vdisk_lock` is held from the start of a call to its return or its `sleep`; `virtio_disk_rw` is
-- modelled by the segments up to its first sleep and from its last. `none` is a panic; the device's
-- registers and what the device does are left out, and the used ring that it writes is an argument.
pub mod Chains
pub mod Triples
pub mod Linking
pub mod Flights
mod Tests
use xv6_learn.Common.{
  ℕ, zero, suc, ◌+◌, ◌*◌, ◌%◌, ◌^◌, Bool, true, false, Option, none, some, List, [], ◌∷◌, ◌==◌, leb,
  if◌then◌else◌, get_elem?, get_or, set, update,
}

-- NUM
abbrev pub num : ℕ
num = 8

-- `struct VRingDesc`
pub record Desc : Type 0 where
  pub addr : ℕ
  pub len : ℕ
  pub flags : ℕ
  pub next : ℕ

-- `disk.info`: a buffer, 0 for none, and the status that the device writes.
pub record Info : Type 0 where
  pub b : ℕ
  pub status : ℕ

-- `disk`, with `avail[1]` and the entries after it apart.
pub record Disk : Type 0 where
  pub desc : List Desc
  pub avail_idx : ℕ
  pub avail_ring : List ℕ
  pub free : List Bool
  pub used_idx : ℕ
  pub info : List Info

-- The loop of `alloc_desc` from descriptor `i` on.
pub find_free_desc : (i : ℕ) → List Bool → Option (ℕ × List Bool)
find_free_desc i [] = none
find_free_desc i (true ∷ fs) = some (i, false ∷ fs)
find_free_desc i (false ∷ fs) = elim (find_free_desc (i + 1) fs) [
  | none ↦ none
  | some (k, gs) ↦ some (k, false ∷ gs)
]

pub alloc_desc : Disk → Option (ℕ × Disk)
alloc_desc d = elim (find_free_desc 0 d.free) [
  | none ↦ none
  | some (i, fs) ↦ some (i, record d { free = fs })
]

abbrev pub change_desc : ℕ → (Desc → Desc) → List Desc → List Desc
change_desc i f ds = elim (get_elem? ds i) [ none ↦ ds | some x ↦ set ds i (f x) ]

-- The wakeup is left out.
pub free_desc : ℕ → Disk → Option Disk
free_desc i d = if leb num i then none else elim (get_elem? d.free i) [
  | none ↦ none
  | some true ↦ none
  | some false ↦ some (record d {
    desc = change_desc i (λ x. record x { addr = 0 }) d.desc;
    free = set d.free i true;
  })
]

-- The loop of `free_chain`; after NUM rounds it comes to a descriptor that is free.
pub free_chain : (fuel i : ℕ) → Disk → Option Disk
free_chain zero i d = none
free_chain (suc fuel) i d = elim (free_desc i d) [
  | none ↦ none
  | some d' ↦ elim (get_elem? d'.desc i) [
    | none ↦ none
    | some x ↦ if x.flags % 2 == 1 then free_chain fuel x.next d' else some d'
  ]
]

abbrev pub Chain : Type 0
Chain = ℕ × ℕ × ℕ

abbrev pub gave_up : Option Disk → Option (Option Chain × Disk)
gave_up none = none
gave_up (some d) = some (none, d)

abbrev pub free_both : (i j : ℕ) → Disk → Option Disk
free_both i j d = elim (free_desc i d) [ none ↦ none | some d' ↦ free_desc j d' ]

-- The last round of `alloc3_desc`, with `i` and `j` allocated, and the last two.
pub third : (i j : ℕ) → Disk → Option (Option Chain × Disk)
third i j d = elim (alloc_desc d) [
  | none ↦ gave_up (free_both i j d)
  | some (k, d') ↦ some (some (i, j, k), d')
]

pub second : (i : ℕ) → Disk → Option (Option Chain × Disk)
second i d = elim (alloc_desc d) [ none ↦ gave_up (free_desc i d) | some (j, d') ↦ third i j d' ]

-- The three descriptors, or -1.
pub alloc3_desc : Disk → Option (Option Chain × Disk)
alloc3_desc d = elim (alloc_desc d) [ none ↦ some (none, d) | some (i, d') ↦ second i d' ]

-- What a call asks for: the buffer, the address of its data, its block, and whether to write; and the
-- physical address of `buf0`, and that of the status byte. The page of `buf0` is on the kernel's stack
-- and mapped: the panic of `kvmpa` where it is not is left out.
pub record Request : Type 0 where
  pub b : ℕ
  pub bytes_at : ℕ
  pub blockno : ℕ
  pub write : Bool
  pub buf0 : ℕ
  pub status_at : ℕ

-- The type and the sector of `buf0`.
pub header : Request → ℕ × ℕ
header q = (if q.write then 1 else 0, q.blockno * 2)

-- The descriptors of a request.
pub put_chain : Request → Chain → List Desc → List Desc
put_chain q (i, j, k) ds =
    let first : Desc = record { addr = q.buf0; len = 16; flags = 1; next = j } in
    let body : Desc = record {
      addr = q.bytes_at;
      len = 1024;
      flags = if q.write then 1 else 3;
      next = k;
    } in
    let last : Desc = record { addr = q.status_at; len = 1; flags = 2; next = 0 } in
    set (set (set ds i first) j body) k last

pub submit : Request → Chain → Disk → Disk
submit q (i, j, k) d = record d {
  desc = put_chain q (i, j, k) d.desc;
  info = set d.info i (record { b = q.b; status = 0 });
  avail_ring = set d.avail_ring (d.avail_idx % num) i;
  avail_idx = (d.avail_idx + 1) % 2 ^ 16;
}

-- A segment of `virtio_disk_rw` from its start, or from a sleep for descriptors: `none` is a sleep.
pub start_rw : Request → Disk → Option (Option Chain × Disk)
start_rw q d = elim (alloc3_desc d) [
  | none ↦ none
  | some (none, d') ↦ some (none, d')
  | some (some c, d') ↦ some (some c, submit q c d')
]

-- The segment that finds `b->disk` 0.
pub finish_rw : Chain → Disk → Option Disk
finish_rw (i, j, k) d =
    let inf = get_or d.info i (record { b = 0; status = 0 }) in
    free_chain (num + 1) i (record d { info = set d.info i (record inf { b = 0 }) })

-- The loop of `virtio_disk_intr` with the `used->id` and the `used->elems` that the device wrote, and
-- `b->disk` of the buffers; it takes fewer than NUM rounds.
pub intr_loop :
    (fuel used_id : ℕ) → (elems : List ℕ) → Disk → (ℕ → Bool) → Option (Disk × (ℕ → Bool))
intr_loop zero used_id elems d pending = some (d, pending)
intr_loop (suc fuel) used_id elems d pending =
    let inf = get_or d.info (get_or elems d.used_idx 0) (record { b = 0; status = 0 }) in
    let rest =
      intr_loop fuel used_id elems (record d { used_idx = (d.used_idx + 1) % num })
        (update pending inf.b false) in
    if d.used_idx % num == used_id % num
    then some (d, pending)
    else if inf.status == 0
    then rest
    else none

pub virtio_disk_intr :
    (used_id : ℕ) → (elems : List ℕ) → Disk → (ℕ → Bool) → Option (Disk × (ℕ → Bool))
virtio_disk_intr used_id elems d pending = intr_loop num used_id elems d pending
