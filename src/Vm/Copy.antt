-- ===== src/Vm/Copy.antt =====
-- kernel/vm.c: the memory of a user, created, copied, and reached from the kernel.
pub mod Packed
pub mod Strings
use xv6_learn.Common.{
  ℕ, zero, suc, ◌+◌, ◌-◌, ◌*◌, ◌/◌, ◌%◌, ◌^◌, min, Bool, true, false, Option, none, some, List, [],
  ◌∷◌, ◌==◌, ltb, leb, if◌then◌else◌, update,
}
use xv6_learn.Kalloc.{Kmem, pgsize, kfree, kalloc}
use xv6_learn.Vm.{
  pg_round_down, flag, valid, pte2pa, pte_flags, store, clear_page, walk, walkaddr, mappages,
}
use xv6_learn.Vm.Space.{uvmunmap}

-- The byte at an address, in the word that it is part of.
pub get_byte : ℕ → (ℕ → ℕ) → ℕ
get_byte a m = m (a - a % 8) / 256 ^ (a % 8) % 256

pub put_byte : (a byte : ℕ) → (ℕ → ℕ) → ℕ → ℕ
unfolding get_byte
put_byte a byte m =
    update m (a - a % 8) (m (a - a % 8) + byte * 256 ^ (a % 8) - get_byte a m * 256 ^ (a % 8))

abbrev pub get_bytes : (n a : ℕ) → (ℕ → ℕ) → List ℕ
get_bytes zero a m = []
get_bytes (suc n) a m = get_byte a m ∷ get_bytes n (a + 1) m

abbrev pub put_bytes : (a : ℕ) → List ℕ → (ℕ → ℕ) → ℕ → ℕ
put_bytes a [] m = m
put_bytes a (c ∷ cs) m = put_bytes (a + 1) cs (put_byte a c m)

-- `memmove` of the kernel.
abbrev pub move : (dst src n : ℕ) → Kmem → Kmem
move dst src n k = record {
  freelist = k.freelist;
  words = put_bytes dst (get_bytes n src k.words) k.words;
}

-- The page table, or 0.
pub uvmcreate : Kmem → ℕ × Kmem
uvmcreate k =
    let (table, k') = kalloc k in if table == 0 then (0, k') else (table, clear_page table k')

-- The results of `kalloc` and `mappages` are not looked at.
pub uvminit : (table src sz : ℕ) → Kmem → Option Kmem
uvminit table src sz k =
    if leb pgsize sz
    then none
    else (let (mem, k1) = kalloc k in
        elim (mappages table 0 pgsize mem 30 (clear_page mem k1)) [
          | none ↦ none
          | some (mapped, k2) ↦ some (move mem src sz k2)
        ])

pub uvmclear : (table va : ℕ) → Kmem → Option Kmem
uvmclear table va k = elim (walk table va false k) [
  | none ↦ none
  | some (none, k') ↦ none
  | some (some pte, k') ↦
      (let word = k'.words pte in some (store pte (if flag 4 word then word - 16 else word) k'))
]

module _ (end : ℕ) where
  -- The failure of `uvmcopy` at page `i`.
  abbrev undo_copy : (table i : ℕ) → Kmem → Option (Bool × Kmem)
  undo_copy table i k = elim (uvmunmap end table 0 (i / pgsize) true k) [
    | none ↦ none
    | some k' ↦ some (false, k')
  ]

  -- The loop of `uvmcopy` with page `i` next.
  pub copy_loop : (fuel old new i sz : ℕ) → Kmem → Option (Bool × Kmem)
  copy_loop zero old new i sz k = some (true, k)
  copy_loop (suc fuel) old new i sz k = elim (ltb i sz) [
    | false ↦ some (true, k)
    | true ↦ elim (walk old i false k) [
      | none ↦ none
      | some (none, k') ↦ none
      | some (some pte, k') ↦
          (let word = k'.words pte in
            let (mem, k1) = kalloc k' in
            elim (valid word) [
              | false ↦ none
              | true ↦ elim (mem == 0) [
                | true ↦ undo_copy new i k1
                | false ↦
                    elim (mappages new i pgsize mem (pte_flags word)
                      (move mem (pte2pa word) pgsize k1)) [
                        | none ↦ none
                        | some (true, k2) ↦ copy_loop fuel old new (i + pgsize) sz k2
                        | some (false, k2) ↦ elim (kfree end mem k2) [
                          | none ↦ none
                          | some k3 ↦ undo_copy new i k3
                        ]
                      ]
              ]
            ])
    ]
  ]

  -- `false` is -1.
  pub uvmcopy : (old new sz : ℕ) → Kmem → Option (Bool × Kmem)
  unfolding copy_loop
  uvmcopy old new sz k = copy_loop (sz / pgsize + 1) old new 0 sz k

-- The loops of `copyout` and `copyin`, which differ in the sides; a round does one byte at least.
pub copyout_loop : (fuel table dstva src len : ℕ) → Kmem → Bool × Kmem
copyout_loop zero table dstva src len k = (true, k)
copyout_loop (suc fuel) table dstva src len k = elim (ltb 0 len) [
  | false ↦ (true, k)
  | true ↦
      (let va0 = pg_round_down dstva in
        let pa0 = walkaddr table va0 k in
        let n = min (pgsize - (dstva - va0)) len in
        elim (pa0 == 0) [
          | true ↦ (false, k)
          | false ↦
              copyout_loop fuel table (va0 + pgsize) (src + n) (len - n)
                (move (pa0 + (dstva - va0)) src n k)
        ])
]

pub copyout : (table dstva src len : ℕ) → Kmem → Bool × Kmem
unfolding copyout_loop
copyout table dstva src len k = copyout_loop len table dstva src len k

pub copyin_loop : (fuel table dst srcva len : ℕ) → Kmem → Bool × Kmem
copyin_loop zero table dst srcva len k = (true, k)
copyin_loop (suc fuel) table dst srcva len k = elim (ltb 0 len) [
  | false ↦ (true, k)
  | true ↦
      (let va0 = pg_round_down srcva in
        let pa0 = walkaddr table va0 k in
        let n = min (pgsize - (srcva - va0)) len in
        elim (pa0 == 0) [
          | true ↦ (false, k)
          | false ↦
              copyin_loop fuel table (dst + n) (va0 + pgsize) (len - n)
                (move dst (pa0 + (srcva - va0)) n k)
        ])
]

pub copyin : (table dst srcva len : ℕ) → Kmem → Bool × Kmem
unfolding copyin_loop
copyin table dst srcva len k = copyin_loop len table dst srcva len k

-- The inner loop of `copyinstr`: whether it came to a NUL.
pub string_loop : (n dst p : ℕ) → Kmem → Bool × Kmem
string_loop zero dst p k = (false, k)
string_loop (suc n) dst p k =
    let c = get_byte p k.words in
    let k' : Kmem = record { freelist = k.freelist; words = put_byte dst c k.words } in
    elim (c == 0) [ true ↦ (true, k') | false ↦ string_loop n (dst + 1) (p + 1) k' ]

pub copyinstr_loop : (fuel table dst srcva max : ℕ) → Kmem → Bool × Kmem
unfolding string_loop
copyinstr_loop zero table dst srcva max k = (false, k)
copyinstr_loop (suc fuel) table dst srcva max k = elim (ltb 0 max) [
  | false ↦ (false, k)
  | true ↦
      (let va0 = pg_round_down srcva in
        let pa0 = walkaddr table va0 k in
        let n = min (pgsize - (srcva - va0)) max in
        let (got_null, k') = string_loop n dst (pa0 + (srcva - va0)) k in
        elim (pa0 == 0) [
          | true ↦ (false, k)
          | false ↦ elim got_null [
            | true ↦ (true, k')
            | false ↦ copyinstr_loop fuel table (dst + n) (va0 + pgsize) (max - n) k'
          ]
        ])
]

pub copyinstr : (table dst srcva max : ℕ) → Kmem → Bool × Kmem
unfolding copyinstr_loop
copyinstr table dst srcva max k = copyinstr_loop max table dst srcva max k
