-- ===== src/Log/Crash.antt =====
-- A crash at any point of a commit, and the recovery after it.
pub mod Durable
use xv6_learn.Common.{
  ℕ, zero, suc, ◌+◌, ◌≤◌, ◌<◌, ◌≡◌, ◌≢◌, ◌⊎◌, refl, sym, ap, ap₂, ◌∙◌, Bool, true, false, List, [],
  ◌∷◌, ◌++◌, arith, length, update, update_self, update_ne, if◌then◌else◌, inl, inr, take,
  Bool-cases,
}
use xv6_learn.Log.{
  Block, Disk, Store, Log, get_head, commit, has, replay, initlog, reboot, put_head,
}
use xv6_learn.Log.Header.{get_head-put_head}
use xv6_learn.Log.Along.{Along, Along-append, Along-take}
use xv6_learn.Log.Loops.{
  Outside, AllOutside, Logged, Logged-below, log_writes, home_writes, replay-append,
  replay-home_writes,
}
use xv6_learn.Log.Commit.{Ready, head_block, recover_clean, recover_logged, has-Outside}

-- The home blocks after a restart from disk `d`: the first calls of the file system recover the log.
abbrev pub restart : Log → Disk → Disk
restart l d = (initlog l.start l.size (reboot d)).1.disk

-- No block of the transaction is installed: each home block is as the disk had it before.
abbrev pub IsOld : Log → Store → Disk → Type 0
IsOld l st d = (x : ℕ) → Outside l.start l.size x → d x ≡ st.disk x

-- All are: each home block of the transaction holds its buffer's data, and the others are as before.
abbrev pub IsNew : Log → Store → Disk → Type 0
IsNew l st d =
    (x : ℕ) → Outside l.start l.size x → d x ≡ (if has l.lh x then st.view x else st.disk x)

module _ (l : Log) (st : Store) (r : Ready l st) where
  Atomic : Disk → Type 0
  Atomic d = IsOld l st (restart l d) ⊎ IsNew l st (restart l d)

  -- Before the header is written.
  record Before (d : Disk) : Type 0 where
    clean : get_head (d l.start) ≡ []
    home : IsOld l st d

  -- From the write of the header to its erasure.
  record Within (d : Disk) : Type 0 where
    head : get_head (d l.start) ≡ l.lh
    log : Logged d l.lh (l.start + 1) st.view
    rest : (x : ℕ) → Outside l.start l.size x → has l.lh x ≡ false → d x ≡ st.disk x

  record After (d : Disk) : Type 0 where
    clean : get_head (d l.start) ≡ []
    home : IsNew l st d

  Before-Atomic : (d : Disk) → Before d → Atomic d
  unfolding Atomic
  Before-Atomic d b =
      inl λ x o. recover_clean l.start l.size d b.clean x (omega (arith, r.fits)) ∙ b.home x o

  After-Atomic : (d : Disk) → After d → Atomic d
  unfolding Atomic
  After-Atomic d b =
      inr λ x o. recover_clean l.start l.size d b.clean x (omega (arith, r.fits)) ∙ b.home x o

  Within-IsNew : (d : Disk) → Within d → IsNew l st (restart l d)
  Within-IsNew d w x o =
      recover_logged l.start l.size st.view l.lh d w.head r.fits r.homes w.log x
        (omega (arith, r.fits))
      ∙ elim (Bool-cases (has l.lh x)) [
        | inl there ↦ rw there
        | inr not_there ↦ rw not_there (w.rest x o not_there)
      ]

  -- The writes of `write_log` keep `Before`, and log the blocks.
  logging :
      (bs : List ℕ) (at : ℕ) (d : Disk)
      → l.start < at
      → at + length bs ≤ l.start + l.size
      → Before d
      → Along Atomic (log_writes bs at st.view) d
        × Before (replay (log_writes bs at st.view) d)
        × Logged (replay (log_writes bs at st.view) d) bs at st.view
        × ((x : ℕ) → x < at → replay (log_writes bs at st.view) d x ≡ d x)
  unfolding log_writes replay
  logging [] at d p q b = (Before-Atomic d b, b, tt, λ x h. refl)
  logging (c ∷ bs) at d p q b =
      let b1 : Before (update d at (st.view c)) = record {
        clean = ap get_head (update_ne d at (st.view c) l.start (omega arith)) ∙ b.clean;
        home = λ x o. update_ne d at (st.view c) x (omega arith) ∙ b.home x o;
      } in
      let s = logging bs (at + 1) (update d at (st.view c)) (omega arith) (omega arith) b1 in
      (
        (Before-Atomic d b, s.0),
        s.1,
        (s.3 at (omega arith) ∙ update_self d at (st.view c), s.2),
        λ x h. s.3 x (omega arith) ∙ update_ne d at (st.view c) x (omega arith),
      )

  -- The header goes to the disk.
  commit_point :
      (d : Disk)
      → Before d
      → Logged d l.lh (l.start + 1) st.view
      → Within (update d l.start (head_block l st))
  commit_point d b log = record {
    head =
        ap get_head (update_self d l.start (head_block l st))
        ∙ get_head-put_head l.lh (st.view l.start) r.words;
    log =
        Logged-below l.lh (l.start + 1) st.view d (update d l.start (head_block l st))
          (λ x p q. update_ne d l.start (head_block l st) x (omega arith)) log;
    rest = λ x o h. update_ne d l.start (head_block l st) x (omega (arith, r.fits)) ∙ b.home x o;
  }

  -- The writes of `install_trans` keep `Within`.
  installing :
      (bs : List ℕ) (d : Disk)
      → AllOutside l.start l.size bs
      → ((x : ℕ) → has bs x ≡ true → has l.lh x ≡ true)
      → Within d
      → Along Atomic (home_writes bs st.view) d × Within (replay (home_writes bs st.view) d)
  unfolding home_writes replay Atomic
  installing [] d out sub w = (inr (Within-IsNew d w), w)
  installing (c ∷ bs) d out sub w =
      let w1 : Within (update d c (st.view c)) = record {
        head = ap get_head (update_ne d c (st.view c) l.start (omega (arith, r.fits))) ∙ w.head;
        log =
            Logged-below l.lh (l.start + 1) st.view d (update d c (st.view c))
              (λ x p q. update_ne d c (st.view c) x (omega (arith, r.fits))) w.log;
        rest =
            λ x o h. update_ne d c (st.view c) x (apart x h (sub c (has_self c bs))) ∙ w.rest x o h;
      } in
      let s = installing bs (update d c (st.view c)) out.1 (λ x h. sub x (ground arith)) w1 in
      ((inr (Within-IsNew d w), s.0), s.1)
    where
      apart : (x : ℕ) → has l.lh x ≡ false → has l.lh c ≡ true → c ≢ x
      apart x h g = ground arith

      has_self : (c : ℕ) (bs : List ℕ) → has (c ∷ bs) c ≡ true
      has_self c bs = ground arith

  -- The header is erased.
  erase :
      (erased : Block) (d : Disk)
      → get_head erased ≡ []
      → Within d
      → ((x : ℕ) → has l.lh x ≡ true → d x ≡ st.view x)
      → After (update d l.start erased)
  erase erased d h w all = record {
    clean = ap get_head (update_self d l.start erased) ∙ h;
    home = λ x o.
        update_ne d l.start erased x (omega (arith, r.fits)) ∙ elim (Bool-cases (has l.lh x)) [
          | inl there ↦ rw there (all x there)
          | inr not_there ↦ rw not_there (w.rest x o not_there)
        ];
  }
