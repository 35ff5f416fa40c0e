-- ===== src/Log/Absorb.antt =====
-- Absorption in `log_write`, and the pins of logged buffers: who raises a reference count, and who
-- lowers it.
use xv6_learn.Common.{
  ℕ, ◌+◌, ◌-◌, ◌%◌, ◌^◌, ◌≡◌, refl, ap, ◌∙◌, true, false, not, ◌&&◌, ◌||◌, some, List, [], ◌∷◌,
  ◌++◌, arith, ltb, ◌==◌, length, if◌then◌else◌, inl, inr, Bool-cases,
}
use xv6_learn.Log.{
  Disk, Store, Log, has, log_write, install_loop, commit, get_head, initlog, reboot, bunpin, bwrite,
  modify, write_log, write_log_loop, write_head,
}
use xv6_learn.Log.Loops.{nil_of_length}

abbrev pub IsDistinct : List ℕ → Type 0
IsDistinct [] = Unit
IsDistinct (b ∷ bs) = (has bs b ≡ false) × IsDistinct bs

abbrev pub lowered : ℕ → ℕ
lowered n = (n + 2 ^ 32 - 1) % 2 ^ 32

has-append : (bs : List ℕ) (b x : ℕ) → has (bs ++ (b ∷ [])) x ≡ (has bs x || (b == x))
has-append [] b x = ground arith
has-append (c ∷ bs) b x = ground (arith, has-append bs b x)

IsDistinct-append :
    (bs : List ℕ) (b : ℕ) → IsDistinct bs → has bs b ≡ false → IsDistinct (bs ++ (b ∷ []))
IsDistinct-append [] b h n = (refl, tt)
IsDistinct-append (c ∷ bs) b h n =
    (ground (arith, has-append bs b c), IsDistinct-append bs b h.1 (ground arith))

-- What a `log_write` that does not panic does.
pub record Wrote (b : ℕ) (l l' : Log) (st st' : Store) : Type 0 where
  pub distinct : IsDistinct l'.lh
  pub members : (x : ℕ) → has l'.lh x ≡ (has l.lh x || (b == x))
  pub pinned :
      (x : ℕ)
      → st'.refs x ≡ (if (b == x) && not (has l.lh x) then (st.refs x + 1) % 2 ^ 32 else st.refs x)
  pub data_kept : (st'.view ≡ st.view) × (st'.disk ≡ st.disk) × (st'.writes ≡ st.writes)

-- A `log_write` that does not panic adds its block to the transaction unless it is there already,
-- so that no block is logged twice; it pins the block's buffer once, when it is added, and writes
-- nothing to the disk.
pub log_write-Wrote :
    (b : ℕ) (l : Log) (st : Store) {l' : Log} {st' : Store}
    → IsDistinct l.lh
    → log_write b l st ≡ some (l', st')
    → Wrote b l l' st st'
unfolding log_write
log_write-Wrote b l st {l'} {st'} d h = elim (Bool-cases (has l.lh b)) [
  | inl there ↦ ground arith
  | inr new ↦ record {
    distinct = ground (arith, IsDistinct-append l.lh b d new);
    members = λ x. ground (arith, has-append l.lh b x);
    pinned = λ x. ground arith;
    data_kept = (ground arith, ground arith, ground arith);
  }
]

install_loop-refs :
    (bs : List ℕ) (at : ℕ) (st : Store) (x : ℕ)
    → IsDistinct bs
    → (install_loop bs at st).refs x ≡ (if has bs x then lowered (st.refs x) else st.refs x)
unfolding install_loop
install_loop-refs [] at st x h = refl
install_loop-refs (b ∷ bs) at st x h =
    ground
      (arith, install_loop-refs bs (at + 1) (bunpin b (bwrite b (modify b (st.view at) st))) x h.1)

write_log_loop-refs : (bs : List ℕ) (at : ℕ) (st : Store) → (write_log_loop bs at st).refs ≡ st.refs
unfolding write_log_loop
write_log_loop-refs [] at st = refl
write_log_loop-refs (b ∷ bs) at st =
    write_log_loop-refs bs (at + 1) (bwrite at (modify at (st.view b) st))

-- A commit lowers the count of each logged block's buffer once, which is what `log_write` had
-- raised, and no other.
pub commit-refs :
    (l : Log) (st : Store) (x : ℕ)
    → IsDistinct l.lh
    → (commit l st).1.refs x ≡ (if has l.lh x then lowered (st.refs x) else st.refs x)
unfolding commit
commit-refs l st x d = elim (Bool-cases (ltb 0 (length l.lh))) [
  | inl logged ↦ rw logged (
      install_loop-refs l.lh (l.start + 1) (write_head l (write_log l st)) x d
      ∙ ap (λ (r : ℕ → ℕ). if has l.lh x then lowered (r x) else r x)
          (write_log_loop-refs l.lh (l.start + 1) st))
  | inr idle ↦ rw (idle, nil_of_length l.lh idle)
]

-- A recovery lowers counts that nobody had raised: the buffer of each block that it installs is left
-- with a reference count of 2^32 - 1.
pub recover-refs :
    (start size : ℕ) (d : Disk) (x : ℕ)
    → IsDistinct (get_head (d start))
    → has (get_head (d start)) x ≡ true
    → (initlog start size (reboot d)).1.refs x ≡ 2 ^ 32 - 1
unfolding initlog reboot
recover-refs start size d x h there =
    install_loop-refs (get_head (d start)) (start + 1) (reboot d) x h ∙ rw there
