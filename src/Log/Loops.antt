-- ===== src/Log/Loops.antt =====
-- The loops of `write_log` and `install_trans`: which blocks they write, in which order, and what
-- the buffers and the disk hold afterwards.
use xv6_learn.Common.{
  ℕ, ◌+◌, ◌≤◌, ◌<◌, ◌≡◌, ◌⊎◌, refl, sym, ap, ◌∙◌, false, ◌||◌, List, [], ◌∷◌, ◌++◌, arith, length,
  append-nil, append_assoc, ltb, update, update_self, update_ne, if◌then◌else◌, ◌==◌, inl,
}
use xv6_learn.Log.{
  Block, Disk, Store, write_log_loop, install_loop, has, replay, bwrite, modify, bunpin,
}

pub nil_of_length : (bs : List ℕ) → ltb 0 (length bs) ≡ false → bs ≡ []
nil_of_length [] h = refl
nil_of_length (b ∷ bs) h = absurd (ground arith)

-- A home block, outside the `size` blocks of the log from `start` on.
abbrev pub Outside : (start size : ℕ) → ℕ → Type 0
Outside start size b = (b < start) ⊎ (start + size ≤ b)

abbrev pub AllOutside : (start size : ℕ) → List ℕ → Type 0
AllOutside start size [] = Unit
AllOutside start size (b ∷ bs) = Outside start size b × AllOutside start size bs

-- The blocks from `at` on hold the data `v` of the blocks of the list.
abbrev pub Logged : Disk → List ℕ → ℕ → (ℕ → Block) → Type 0
Logged d [] at v = Unit
Logged d (b ∷ bs) at v = (d at ≡ v b) × Logged d bs (at + 1) v

unfoldable pub log_writes : List ℕ → ℕ → (ℕ → Block) → List (ℕ × Block)
log_writes [] at v = []
log_writes (b ∷ bs) at v = (at, v b) ∷ log_writes bs (at + 1) v

unfoldable pub home_writes : List ℕ → (ℕ → Block) → List (ℕ × Block)
home_writes [] v = []
home_writes (b ∷ bs) v = (b, v b) ∷ home_writes bs v

pub replay-append : (a b : List (ℕ × Block)) (d : Disk) → replay (a ++ b) d ≡ replay b (replay a d)
unfolding replay
replay-append [] b d = refl
replay-append ((n, x) ∷ a) b d = replay-append a b (update d n x)

pub replay-home_writes :
    (bs : List ℕ) (v : ℕ → Block) (d : Disk) (x : ℕ)
    → replay (home_writes bs v) d x ≡ (if has bs x then v x else d x)
unfolding replay home_writes
replay-home_writes [] v d x = refl
replay-home_writes (b ∷ bs) v d x = ground (arith, replay-home_writes bs v (update d b (v b)) x)

pub Logged-below :
    (bs : List ℕ) (at : ℕ) (v : ℕ → Block) (d e : Disk)
    → ((x : ℕ) → at ≤ x → x < at + length bs → e x ≡ d x)
    → Logged d bs at v
    → Logged e bs at v
Logged-below [] at v d e same h = tt
Logged-below (b ∷ bs) at v d e same h = (
  same at (omega arith) (omega arith) ∙ h.0,
  Logged-below bs (at + 1) v d e (λ x p q. same x (omega arith) (omega arith)) h.1,
)

module _ (start size : ℕ) (v : ℕ → Block) where
  -- The blocks of the log lie from `start` on; `bs` is logged from `at` on.
  abbrev Room : List ℕ → ℕ → Type 0
  Room bs at = (start < at) × (at + length bs ≤ start + size)

  pub record WroteLog (bs : List ℕ) (at : ℕ) (st st' : Store) : Type 0 where
    pub writes : st'.writes ≡ st.writes ++ log_writes bs at v
    pub view : (x : ℕ) → (x < at) ⊎ (at + length bs ≤ x) → st'.view x ≡ st.view x
    pub logged : Logged st'.view bs at v
    pub disk : st'.disk ≡ replay (log_writes bs at v) st.disk

  pub write_log_loop-WroteLog :
      (bs : List ℕ) (at : ℕ) (st : Store)
      → AllOutside start size bs
      → Room bs at
      → ((x : ℕ) → Outside start size x → st.view x ≡ v x)
      → WroteLog bs at st (write_log_loop bs at st)
  unfolding write_log_loop log_writes replay
  write_log_loop-WroteLog [] at st out room home = record {
    writes = sym (append-nil st.writes);
    view = λ x h. refl;
    logged = tt;
    disk = refl;
  }
  write_log_loop-WroteLog (b ∷ bs) at st out room home =
      let st1 = bwrite at (modify at (st.view b) st) in
      let r =
        write_log_loop-WroteLog bs (at + 1) st1 out.1 (omega arith)
          (λ x o. update_ne st.view at (st.view b) x (omega arith) ∙ home x o) in
      let e = update_self st.view at (st.view b) ∙ home b out.0 in
      record {
        writes =
            r.writes
            ∙ append_assoc st.writes _ (log_writes bs (at + 1) v)
            ∙ ap (λ y. st.writes ++ ((at, y) ∷ log_writes bs (at + 1) v)) e;
        view = λ x h. r.view x (omega arith) ∙ update_ne st.view at (st.view b) x (omega arith);
        logged = (r.view at (inl (omega arith)) ∙ e, r.logged);
        disk = r.disk ∙ ap (λ y. replay (log_writes bs (at + 1) v) (update st.disk at y)) e;
      }

  pub record Installed (bs : List ℕ) (st st' : Store) : Type 0 where
    pub writes : st'.writes ≡ st.writes ++ home_writes bs v
    pub view : (x : ℕ) → st'.view x ≡ (if has bs x then v x else st.view x)
    pub disk : st'.disk ≡ replay (home_writes bs v) st.disk

  pub install_loop-Installed :
      (bs : List ℕ) (at : ℕ) (st : Store)
      → AllOutside start size bs
      → Room bs at
      → Logged st.view bs at v
      → Installed bs st (install_loop bs at st)
  unfolding install_loop home_writes replay
  install_loop-Installed [] at st out room log = record {
    writes = sym (append-nil st.writes);
    view = λ x. refl;
    disk = refl;
  }
  install_loop-Installed (b ∷ bs) at st out room log =
      let st1 = bunpin b (bwrite b (modify b (st.view at) st)) in
      let kept =
        Logged-below bs (at + 1) v st.view st1.view
          (λ x p q. update_ne st.view b (st.view at) x (omega arith)) log.1 in
      let r = install_loop-Installed bs (at + 1) st1 out.1 (omega arith) kept in
      let e = update_self st.view b (st.view at) ∙ log.0 in
      record {
        writes =
            r.writes
            ∙ append_assoc st.writes _ (home_writes bs v)
            ∙ ap (λ y. st.writes ++ ((b, y) ∷ home_writes bs v)) e;
        view = λ x. r.view x ∙ installed x bs log.0;
        disk = r.disk ∙ ap (λ y. replay (home_writes bs v) (update st.disk b y)) e;
      }
    where
      installed :
          (x : ℕ) (cs : List ℕ)
          → st.view at ≡ v b
          → (if has cs x then v x else update st.view b (st.view at) x)
            ≡ (if b == x || has cs x then v x else st.view x)
      installed x cs e = ground arith
