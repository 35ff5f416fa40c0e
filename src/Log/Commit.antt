-- ===== src/Log/Commit.antt =====
-- `commit` and `recover_from_log` by their steps: the writes of a commit in order, and what a
-- recovery makes of a disk.
use xv6_learn.Common.{
  ℕ, ◌+◌, ◌<◌, ◌≡◌, ◌≢◌, refl, sym, ap, ap₂, ◌∙◌, Bool, true, false, List, [], ◌∷◌, ◌++◌, arith,
  length, append_assoc, update, update_self, update_ne, if◌then◌else◌, lt→ltb,
}
use xv6_learn.Log.{
  Block, Disk, Store, Log, put_head, get_head, write_head, write_log, install_trans, install_loop,
  commit, has, replay, initlog, reboot,
}
use xv6_learn.Log.Header.{get_head-put_head, length-put_head}
use xv6_learn.Log.Loops.{
  Outside, AllOutside, Logged, Logged-below, log_writes, home_writes, write_log_loop-WroteLog,
  install_loop-Installed, replay-append, replay-home_writes,
}

-- What `write_head` writes.
abbrev pub head_block : Log → Store → Block
head_block l st = put_head l.lh (st.view l.start)

record WroteHead (l : Log) (st st' : Store) : Type 0 where
  writes : st'.writes ≡ st.writes ++ ((l.start, head_block l st) ∷ [])
  disk : st'.disk ≡ update st.disk l.start (head_block l st)
  at_start : st'.view l.start ≡ head_block l st
  elsewhere : (x : ℕ) → l.start ≢ x → st'.view x ≡ st.view x

write_head-WroteHead : (l : Log) (st : Store) → WroteHead l st (write_head l st)
unfolding write_head
write_head-WroteHead l st =
    let e = update_self st.view l.start (head_block l st) in
    record {
      writes = ap (λ y. st.writes ++ ((l.start, y) ∷ [])) e;
      disk = ap (λ y. update st.disk l.start y) e;
      at_start = e;
      elsewhere = λ x ne. update_ne st.view l.start (head_block l st) x ne;
    }

pub has-Outside :
    (start size : ℕ) (bs : List ℕ) → 0 < size → AllOutside start size bs → has bs start ≡ false
has-Outside start size [] p h = refl
has-Outside start size (b ∷ bs) p h = ground (arith, has-Outside start size bs p h.1)

-- The state in which `commit` starts: the number of logged blocks is below the size of the log,
-- they are home blocks, and the header on the disk is empty.
pub record Ready (l : Log) (st : Store) : Type 0 where
  pub words : length l.lh < length (st.view l.start)
  pub fits : length l.lh < l.size
  pub homes : AllOutside l.start l.size l.lh
  pub clean : get_head (st.disk l.start) ≡ []

-- What a commit of at least one block writes, and leaves in the buffers.
pub record Committed (l : Log) (st st' : Store) : Type 0 where
  pub erased : Block
  pub trace : List (ℕ × Block)
  pub writes : st'.writes ≡ st.writes ++ trace
  pub order :
      trace
      ≡ log_writes l.lh (l.start + 1) st.view
        ++ (((l.start, head_block l st) ∷ home_writes l.lh st.view) ++ ((l.start, erased) ∷ []))
  pub empty : get_head erased ≡ []
  pub view : (x : ℕ) → Outside l.start l.size x → st'.view x ≡ st.view x
  pub disk : st'.disk ≡ replay trace st.disk
  pub words : length (st'.view l.start) ≡ length (st.view l.start)

if_same {ℓ} : {A : Type ℓ} (b : Bool) {x y : A} → y ≡ x → (if b then x else y) ≡ x
if_same true h = refl
if_same false h = h

regroup {ℓ} :
    {A : Type ℓ} (s a : List A) (x : A) (b : List A) (y : A)
    → ((((s ++ a) ++ (x ∷ [])) ++ b) ++ (y ∷ [])) ≡ s ++ (a ++ ((x ∷ b) ++ (y ∷ [])))
regroup s a x b y = simp append_assoc

replay-regroup :
    (a : List (ℕ × Block)) (s : ℕ) (x : Block) (b : List (ℕ × Block)) (y : Block) (d : Disk)
    → replay (a ++ (((s, x) ∷ b) ++ ((s, y) ∷ []))) d
      ≡ update (replay b (update (replay a d) s x)) s y
unfolding replay
replay-regroup a s x b y d =
    replay-append a (((s, x) ∷ b) ++ ((s, y) ∷ [])) d
    ∙ replay-append b ((s, y) ∷ []) (update (replay a d) s x)

pub commit-Committed :
    (l : Log) (st : Store) → Ready l st → 0 < length l.lh → Committed l st (commit l st).1
unfolding commit write_log install_trans
commit-Committed l st r some_logged =
    let v = st.view in
    let st1 = write_log l st in
    let w =
      write_log_loop-WroteLog l.start l.size v l.lh (l.start + 1) st r.homes (omega (arith, r.fits))
        (λ x o. refl) in
    let st2 = write_head l st1 in
    let h = write_head-WroteHead l st1 in
    let st3 = install_trans l st2 in
    let kept =
      Logged-below l.lh (l.start + 1) v st1.view st2.view (λ x p q. h.elsewhere x (omega arith))
        w.logged in
    let i =
      install_loop-Installed l.start l.size v l.lh (l.start + 1) st2 r.homes (omega (arith, r.fits))
        kept in
    let l' = record l { lh = [] } in
    let e = write_head-WroteHead l' st3 in
    let at_start : st1.view l.start ≡ v l.start = w.view l.start (omega arith) in
    let no_home = has-Outside l.start l.size l.lh (omega (arith, r.fits)) r.homes in
    let header : st3.view l.start ≡ head_block l st1 = i.view l.start ∙ rw no_home h.at_start in
    let same_head : head_block l st1 ≡ head_block l st = ap (put_head l.lh) at_start in
    let long : length (st3.view l.start) ≡ length (v l.start) =
      ap length header ∙ length-put_head l.lh (st1.view l.start) ∙ ap length at_start in
    let logged = log_writes l.lh (l.start + 1) v in
    let installed = home_writes l.lh v in
    let written =
      e.writes
      ∙ ap (λ q. q ++ ((l.start, head_block l' st3) ∷ []))
          (i.writes
            ∙ ap (λ q. q ++ installed)
                (h.writes ∙ ap₂ (λ q y. q ++ ((l.start, y) ∷ [])) w.writes same_head))
      ∙ regroup st.writes logged (l.start, head_block l st) installed
          (l.start, head_block l' st3) in
    rw (lt→ltb 0 (length l.lh) some_logged) (record {
      erased = head_block l' st3;
      trace =
          logged
          ++ (((l.start, head_block l st) ∷ installed) ++ ((l.start, head_block l' st3) ∷ []));
      writes = written;
      order = refl;
      empty = get_head-put_head [] (st3.view l.start) (omega (arith, r.words, long));
      words = ap length e.at_start ∙ length-put_head [] (st3.view l.start) ∙ long;
      view = λ x o.
          e.elsewhere x (omega (arith, r.fits))
          ∙ i.view x
          ∙ if_same (has l.lh x)
              (h.elsewhere x (omega (arith, r.fits)) ∙ w.view x (omega (arith, r.fits)));
      disk =
          e.disk
          ∙ ap (λ q. update q l.start (head_block l' st3))
              (i.disk
                ∙ ap (replay installed) (h.disk ∙ ap₂ (λ q y. update q l.start y) w.disk same_head))
          ∙ sym (
              replay-regroup logged l.start (head_block l st) installed (head_block l' st3)
                st.disk);
    })

-- A recovery from a disk with an empty header changes no block but the header.
pub recover_clean :
    (start size : ℕ) (d : Disk)
    → get_head (d start) ≡ []
    → (x : ℕ) → start ≢ x
    → (initlog start size (reboot d)).1.disk x ≡ d x
unfolding initlog install_loop reboot
recover_clean start size d h x ne = rw h (update_ne d start _ x ne)

-- A recovery from a disk whose header lists home blocks that are logged installs them.
pub recover_logged :
    (start size : ℕ) (v : ℕ → Block) (bs : List ℕ) (d : Disk)
    → get_head (d start) ≡ bs
    → length bs < size
    → AllOutside start size bs
    → Logged d bs (start + 1) v
    → (x : ℕ) → start ≢ x
    → (initlog start size (reboot d)).1.disk x ≡ (if has bs x then v x else d x)
unfolding initlog reboot
recover_logged start size v bs d h fits homes log x ne =
    let st = reboot d in
    let i = install_loop-Installed start size v bs (start + 1) st homes (omega arith) log in
    rw h (
      update_ne (install_loop bs (start + 1) st).disk start _ x ne
      ∙ ap (λ (q : Disk). q x) i.disk
      ∙ replay-home_writes bs v d x)
