-- ===== src/Sysproc/Renaming.antt =====
-- How far `sys_rename` writes.
use xv6_learn.Common.{ℕ, ◌+◌, ◌≤◌, ◌<◌, ◌≡◌, ◌≢◌, ◌⊎◌, Bool, true, false}
use xv6_learn.Kalloc.{Kmem}
use xv6_learn.Vm.Copy.{put_byte, move, copyinstr}
use xv6_learn.Vm.Copy.Strings.{byte}
use xv6_learn.Sysproc.{maxpath}

-- The string of length `len` that stands at `name` afterwards stands at `p_name` too, with its NUL; and
-- nothing else has changed but the bytes that `argstr` may write.
pub record Renamed (name p_name : ℕ) (k k' : Kmem) : Type 0 where
  pub len : ℕ
  pub short : len < maxpath
  pub copied : (j : ℕ) → j < len → byte k' (p_name + j) ≡ byte k' (name + j)
  pub string : (j : ℕ) → j < len → byte k' (p_name + j) ≢ 0
  pub ended : byte k' (p_name + len) ≡ 0
  pub kept :
      (x : ℕ)
      → (x < name) ⊎ (name + maxpath ≤ x)
      → (x < p_name) ⊎ (p_name + len < x)
      → byte k' x ≡ byte k x

module _ (table a name p_name : ℕ) (k : Kmem)
    (apart : (name + maxpath ≤ p_name) ⊎ (p_name + maxpath ≤ name)) where
  abbrev fetched : Kmem
  fetched = (copyinstr table name a maxpath k).1

  -- Memory once the string of that length is copied with its NUL.
  abbrev named : (len : ℕ) → Kmem
  named len =
      let k2 = move p_name name len fetched in
      record { freelist = k2.freelist; words = put_byte (p_name + len) 0 k2.words }

  -- What `sys_rename` comes to: -1 with no byte changed but those at `name`, or the string copied.
  abbrev pub Outcome : Bool × Kmem → Type 0
  Outcome (false, k') = (x : ℕ) → (x < name) ⊎ (name + maxpath ≤ x) → byte k' x ≡ byte k x
  Outcome (true, k') = Renamed name p_name k k'
