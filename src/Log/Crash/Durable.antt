-- ===== src/Log/Crash/Durable.antt =====
-- The two promises of the log: a transaction is installed as a whole or not at all, and one whose
-- commit has returned is on the disk.
use xv6_learn.Common.{
  ℕ, ◌+◌, ◌≡◌, ◌⊎◌, refl, ap, ◌∙◌, List, [], ◌∷◌, arith, length, update, inl, inr, take, Bool-cases,
  ltb, false, ltb→lt,
}
use xv6_learn.Log.{Store, Log, get_head, commit, end_commit, replay}
use xv6_learn.Log.Along.{Along, Along-append, Along-take}
use xv6_learn.Log.Loops.{
  Outside, log_writes, home_writes, replay-append, replay-home_writes, nil_of_length,
}
use xv6_learn.Log.Commit.{Ready, Committed, commit-Committed, head_block, recover_clean}
use xv6_learn.Log.Crash.{
  restart, IsOld, IsNew, Atomic, Before, After, Before-Atomic, After-Atomic, Within-IsNew, logging,
  commit_point, installing, erase,
}

module _ (l : Log) (st : Store) (r : Ready l st) where
  before : Before l st r st.disk
  before = record { clean = r.clean; home = λ x o. refl }

  -- The phases of a commit with at least one block.
  record Phases (c : Committed l st (commit l st).1) : Type 0 where
    along : Along (Atomic l st r) c.trace st.disk
    done : After l st r (commit l st).1.disk

  phases : (c : Committed l st (commit l st).1) → Phases c
  unfolding replay Atomic
  phases c =
      let v = st.view in
      let logged = log_writes l.lh (l.start + 1) v in
      let d1 = replay logged st.disk in
      let g =
        logging l st r l.lh (l.start + 1) st.disk (omega arith) (omega (arith, r.fits)) before in
      let d2 = update d1 l.start (head_block l st) in
      let w = commit_point l st r d1 g.1 g.2 in
      let home = home_writes l.lh v in
      let i = installing l st r l.lh d2 r.homes (λ x h. h) w in
      let d3 = replay home d2 in
      let a = erase l st r c.erased d3 c.empty i.1 (λ x h. replay-home_writes l.lh v d2 x ∙ rw h) in
      record {
        along = rw c.order (
            Along-append (Atomic l st r) logged _ st.disk g.0 (
              Before-Atomic l st r d1 g.1,
              Along-append (Atomic l st r) home _ d2 i.0
                  (inr (Within-IsNew l st r d3 i.1), After-Atomic l st r _ a),
            ));
        done =
            rw
              (
                c.disk,
                c.order,
                replay-append logged _ st.disk,
                replay-append home ((l.start, c.erased) ∷ []) d2,
              )
              a;
      }

commit_empty : (l : Log) (st : Store) → ltb 0 (length l.lh) ≡ false → commit l st ≡ (l, st)
unfolding commit
commit_empty l st h = rw h

emptied_by : (l : Log) (st : Store) → (commit l st).0.lh ≡ []
unfolding commit
emptied_by l st = elim (Bool-cases (ltb 0 (length l.lh))) [
  | inl logged ↦ rw logged
  | inr idle ↦ rw idle (nil_of_length l.lh idle)
]

-- Where the trace of writes begins with a commit: wherever a crash cuts off these writes, the recovery at the next start leaves every home
-- block as it was before the transaction, or every one as the transaction left it in the buffers.
pub commit-atomic :
    (l : Log) (st : Store) (k : ℕ)
    → Ready l st
    → st.writes ≡ []
    → let d = restart l (replay (take k (commit l st).1.writes) st.disk) in
      IsOld l st d ⊎ IsNew l st d
unfolding Atomic replay
commit-atomic l st k r traced = elim (Bool-cases (ltb 0 (length l.lh))) [
  | inl logged ↦
      let c = commit-Committed l st r (ltb→lt 0 (length l.lh) logged) in
      rw (c.writes, traced) (Along-take (Atomic l st r) c.trace k st.disk (phases l st r c).along)
  | inr idle ↦
      rw (commit_empty l st idle, traced)
        (Along-take (Atomic l st r) [] k st.disk (Before-Atomic l st r st.disk (before l st r)))
]

-- What holds when `commit` has returned.
pub record Durable (l : Log) (st : Store) (out : Log × Store) : Type 0 where
  pub installed : IsNew l st out.1.disk
  pub recovered : IsNew l st (restart l out.1.disk)
  pub clean : get_head (out.1.disk l.start) ≡ []
  pub emptied : out.0.lh ≡ []
  pub words : length (out.1.view l.start) ≡ length (st.view l.start)
  pub buffers : (x : ℕ) → Outside l.start l.size x → out.1.view x ≡ st.view x

-- When `commit` returns, the transaction is installed on the disk, also after a crash from then on;
-- the header on the disk and the one in memory are empty, and the buffers of the home blocks have
-- kept their data.
pub commit-Durable : (l : Log) (st : Store) → Ready l st → Durable l st (commit l st)
commit-Durable l st r = elim (Bool-cases (ltb 0 (length l.lh))) [
  | inl logged ↦
      let c = commit-Committed l st r (ltb→lt 0 (length l.lh) logged) in
      let a = (phases l st r c).done in
      record {
        installed = a.home;
        recovered = λ x o.
            recover_clean l.start l.size (commit l st).1.disk a.clean x (omega (arith, r.fits))
            ∙ a.home x o;
        clean = a.clean;
        emptied = emptied_by l st;
        words = c.words;
        buffers = c.view;
      }
  | inr idle ↦
      let e = nil_of_length l.lh idle in
      rw (commit_empty l st idle) (record {
        installed = λ x o. rw e;
        recovered =
            λ x o. recover_clean l.start l.size st.disk r.clean x (omega (arith, r.fits)) ∙ rw e;
        clean = r.clean;
        emptied = e;
        words = refl;
        buffers = λ x o. refl;
      })
]

-- `end_op` goes on after its commit with an empty log that is open to new calls.
pub log-end_commit :
    (l : Log) (st : Store) → (end_commit l st).0 ≡ record l { committing = false; lh = [] }
unfolding end_commit commit
log-end_commit l st = elim (Bool-cases (ltb 0 (length l.lh))) [
  | inl logged ↦ rw logged
  | inr idle ↦
      rw idle
        (ap (λ (q : List ℕ). record l { committing = false; lh = q }) (nil_of_length l.lh idle))
]

pub store-end_commit : (l : Log) (st : Store) → (end_commit l st).1 ≡ (commit l st).1
unfolding end_commit
store-end_commit l st = refl
