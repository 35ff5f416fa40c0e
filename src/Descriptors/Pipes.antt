-- ===== src/Descriptors/Pipes.antt =====
-- `sys_pipe` from the allocation of the two files to its return, whatever fails on the way.
use mathlib.Core.Path.{subst}
use xv6_learn.Common.{
  ℕ, zero, suc, ◌+◌, ◌%◌, ◌^◌, ◌<◌, ◌≡◌, ◌≢◌, ◌⊎◌, refl, sym, ◌∙◌, Bool, true, false, Option, none,
  some, List, [], ◌∷◌, arith, ◌==◌, get_elem?, set, get_elem?-set_ne, inl, inr, Bool-cases,
  Option-cases,
}
use xv6_learn.Files.{File, fd_pipe, FileServices, filealloc}
use xv6_learn.Files.Refs.{ref_at, ref_at-set, get_elem?-ref_at, ref_at-get_elem?}
use xv6_learn.Files.Steps.{one, Adds, filealloc-cases, fileclose-Drops}
use xv6_learn.Descriptors.{
  Args, argraw, argaddr, Ofile, PipeServices, pipe_end, change, Kernel, Result, close, close_both,
  make_pipe, with_first, pipealloc, give_up, copy_both, install, sys_pipe,
}
use xv6_learn.Descriptors.Scarce.{
  FewFiles, FewDescriptors, first-FewFiles, second-FewFiles, first-FewDescriptors,
  second-FewDescriptors,
}
use xv6_learn.Descriptors.Table.{Lowest, fdalloc-cases, set-undone, both_undone}

get_elem?-set_same :
    (fs : List File) (i : ℕ) (g : File) {f : File}
    → get_elem? fs i ≡ some f
    → get_elem? (set fs i g) i ≡ some g
get_elem?-set_same [] i g h = cc
get_elem?-set_same (f ∷ fs) zero g h = refl
get_elem?-set_same (f ∷ fs) (suc i) g h = get_elem?-set_same fs i g h

-- A file that is one end of a pipe, with one reference.
pub record IsEnd (page : ℕ) (readable writable : Bool) (i : ℕ) (fs : List File) : Type 0 where
  pub file : File
  pub at : get_elem? fs i ≡ some file
  pub kind : file.kind ≡ fd_pipe
  pub pipe : file.pipe ≡ page
  pub reads : file.readable ≡ readable
  pub writes : file.writable ≡ writable

change-IsEnd :
    (fs : List File) (i page : ℕ) (rd wr : Bool)
    → 0 < ref_at fs i
    → IsEnd page rd wr i (change i (pipe_end page rd wr) fs)
change-IsEnd fs i page rd wr h =
    let (f, at, n) = get_elem?-ref_at fs i h in
    record {
      file = pipe_end page rd wr f;
      at = rw (change, at) (get_elem?-set_same fs i (pipe_end page rd wr f) at);
      kind = refl;
      pipe = refl;
      reads = refl;
      writes = refl;
    }

change-ref_at :
    (fs : List File) (i page : ℕ) (rd wr : Bool) (k : ℕ)
    → ref_at (change i (pipe_end page rd wr) fs) k ≡ ref_at fs k
change-ref_at fs i page rd wr k = elim (Option-cases (get_elem? fs i)) [
  | inl past ↦ rw (change, past) refl
  | inr (f, at) ↦
      rw (change, at)
        (ref_at-set fs i k (pipe_end page rd wr f) at ∙ ground (arith, ref_at-get_elem? fs i at))
]

change-IsEnd_apart :
    (fs : List File) (i j page : ℕ) (h : File → File) {p : ℕ} {rd wr : Bool}
    → j ≢ i
    → IsEnd p rd wr i fs
    → IsEnd p rd wr i (change j h fs)
change-IsEnd_apart fs i j page h ne e = elim (Option-cases (get_elem? fs j)) [
  | inl past ↦ rw (change, past) e
  | inr (f, at) ↦
      rw (change, at)
        (record {
          file = e.file;
          at = get_elem?-set_ne fs (h f) ne ∙ e.at;
          kind = e.kind;
          pipe = e.pipe;
          reads = e.reads;
          writes = e.writes;
        })
]

-- Two new files, the ends of one pipe.
pub record Both (page i j : ℕ) (fs gs : List File) : Type 0 where
  pub refs : (k : ℕ) → ref_at gs k ≡ ref_at fs k + (one i k + one j k)
  pub not_null : page ≢ 0
  pub reader : IsEnd page true false i gs
  pub writer : IsEnd page false true j gs

-- The counts are as they were.
abbrev pub Same : List File → List File → Type 0
Same fs gs = (k : ℕ) → ref_at gs k ≡ ref_at fs k

module _ (v : FileServices) where
  open v use {Rest}

  abbrev Undone : List File → Option (Kernel v) → Type 0
  Undone fs none = ⊥
  Undone fs (some (gs, r)) = Same fs gs

  -- The files that were allocated are closed.
  close-undoes :
      (fs gs : List File) (r : Rest) (i : ℕ) → Adds i fs gs → Undone fs (close v i (gs, r))
  close-undoes fs gs r i a =
      let (hs, r', e, d) = fileclose-Drops v gs r i (ground (arith, a i)) in
      rw e (λ k. omega (arith, a k, d k))

  close_both-undoes :
      (fs gs : List File) (r : Rest) (i j : ℕ)
      → ((k : ℕ) → ref_at gs k ≡ ref_at fs k + (one i k + one j k))
      → Undone fs (close_both v i j (gs, r))
  close_both-undoes fs gs r i j a =
      let (hs, r', e, d) = fileclose-Drops v gs r i (ground (arith, a i)) in
      rw (close_both, close, e) (close-undoes fs hs r' j (λ k. omega (arith, a k, d k)))

  module _ (w : PipeServices v) where
    -- The kernel's state when the page of the pipe is filled, and the two copies to the user.
    abbrev pub filled : Rest → Rest
    filled r = let (page, r1) = w.kalloc r in w.init_pipe page r1

    abbrev pub first_copy : (addr fd0 : ℕ) → Rest → Bool × Rest
    first_copy addr fd0 r = w.copyout_int addr fd0 (filled r)

    abbrev pub second_copy : (addr fd0 fd1 : ℕ) → Rest → Bool × Rest
    second_copy addr fd0 fd1 r = w.copyout_int ((addr + 4) % 2 ^ 64) fd1 (first_copy addr fd0 r).1

    abbrev pub Copied : (addr fd0 fd1 : ℕ) → Rest → Rest → Type 0
    Copied addr fd0 fd1 r r' =
        ((first_copy addr fd0 r).0 ≡ true)
        × ((second_copy addr fd0 fd1 r).0 ≡ true)
        × (r' ≡ (second_copy addr fd0 fd1 r).1)

    abbrev pub NotCopied : (addr fd0 fd1 : ℕ) → Rest → Type 0
    NotCopied addr fd0 fd1 r =
        ((first_copy addr fd0 r).0 ≡ false)
        ⊎ (((first_copy addr fd0 r).0 ≡ true) × ((second_copy addr fd0 fd1 r).0 ≡ false))

    copy_both-Copied :
        (addr fd0 fd1 : ℕ) (r : Rest)
        → let out = copy_both v w addr fd0 fd1 (filled r) in
          out.0 ≡ true → Copied addr fd0 fd1 r out.1
    copy_both-Copied addr fd0 fd1 r h = elim (Bool-cases (first_copy addr fd0 r).0) [
      | inl ok ↦ (ok, rw ok at h, rw ok refl)
      | inr bad ↦ absurd (let no = rw bad at h in cc)
    ]

    copy_both-NotCopied :
        (addr fd0 fd1 : ℕ) (r : Rest)
        → (copy_both v w addr fd0 fd1 (filled r)).0 ≡ false
        → NotCopied addr fd0 fd1 r
    copy_both-NotCopied addr fd0 fd1 r h = elim (Bool-cases (first_copy addr fd0 r).0) [
      | inl ok ↦ inr (ok, rw ok at h)
      | inr bad ↦ inl bad
    ]

    -- No two files are free, or no page.
    abbrev pub Lacks : List File → Rest → Type 0
    Lacks fs r = FewFiles fs ⊎ ((w.kalloc r).0 ≡ 0)

    -- What `pipealloc` comes to.
    abbrev pub Made : List File → Rest → Option (Option (ℕ × ℕ) × Kernel v) → Type 0
    Made fs r none = ⊥
    Made fs r (some (none, (gs, r'))) = Same fs gs × Lacks fs r
    Made fs r (some (some (i, j), (gs, r'))) = Both (w.kalloc r).0 i j fs gs × (r' ≡ filled r)

    Undone-Made :
        (fs : List File) (r : Rest) (o : Option (Kernel v))
        → Lacks fs r
        → Undone fs o
        → Made fs r (elim o [ none ↦ none | some k ↦ some (none, k) ])
    Undone-Made fs r none why u = u
    Undone-Made fs r (some (gs, r')) why u = (u, why)

    make_pipe-Made :
        (fs gs hs : List File) (i j : ℕ) (r : Rest)
        → Adds i fs gs
        → ref_at gs j ≡ 0
        → Adds j gs hs
        → Made fs r (make_pipe v w i j (hs, r))
    unfolding make_pipe
    make_pipe-Made fs gs hs i j r a z b =
        let (page, r1) = w.kalloc r in
        let refs : (k : ℕ) → ref_at hs k ≡ ref_at fs k + (one i k + one j k) =
          λ k. omega (arith, a k, b k) in
        elim (Bool-cases (page == 0)) [
          | inl null ↦
              rw (make_pipe, null)
                (Undone-Made fs r _ (inr (ground arith)) (close_both-undoes fs hs r1 i j refs))
          | inr made ↦
              (let ne : j ≢ i = λ e. ground (arith, a i, z, e) in
                let hs1 = change i (pipe_end page true false) hs in
                let first = change-IsEnd hs i page true false (ground (arith, refs i)) in
                let both : Both page i j fs (change j (pipe_end page false true) hs1) = record {
                  refs = λ k.
                      change-ref_at hs1 j page false true k
                      ∙ change-ref_at hs i page true false k
                      ∙ refs k;
                  not_null = λ e. ground (arith, e, made);
                  reader = change-IsEnd_apart hs1 i j page (pipe_end page false true) ne first;
                  writer =
                      change-IsEnd hs1 j page false true
                        (ground (arith, refs j, change-ref_at hs i page true false j));
                } in
                rw (make_pipe, made) (both, refl))
        ]

    with_first-Made :
        (fs gs : List File) (i : ℕ) (r : Rest)
        → filealloc fs ≡ (some i, gs)
        → Adds i fs gs
        → Made fs r (with_first v w i (gs, r))
    unfolding with_first
    with_first-Made fs gs i r made a = elim (filealloc-cases gs) [
      | inl full ↦
          rw (with_first, full, full)
            (Undone-Made fs r _ (inl (second-FewFiles fs gs i made full))
              (close-undoes fs gs r i a))
      | inr (j, hs, e, z, b) ↦ rw (with_first, e, e) (make_pipe-Made fs gs hs i j r a z b)
    ]

    pipealloc-Made : (fs : List File) (r : Rest) → Made fs r (pipealloc v w (fs, r))
    unfolding pipealloc
    pipealloc-Made fs r = elim (filealloc-cases fs) [
      | inl full ↦ rw (pipealloc, full, full) (λ k. refl, inl (first-FewFiles fs full))
      | inr (i, gs, e, z, a) ↦ rw (pipealloc, e, e) (with_first-Made fs gs i r e a)
    ]

    -- Why `sys_pipe` may return -1: files, memory or descriptors run out, or a copy of the two
    -- lowest free descriptors fails.
    abbrev pub Reason : (addr : ℕ) → Ofile → List File → Rest → Type 0
    Reason addr t fs r =
        Lacks fs r
        ⊎ (FewDescriptors t
            ⊎ ((fd0 fd1 i : ℕ) × Lowest t fd0
                × Lowest (set t fd0 (some i)) fd1
                × NotCopied addr fd0 fd1 r))

    -- What `sys_pipe` comes to: -1 for a reason, with the descriptors and the counts as they were, or
    -- 0 with the two ends of a new pipe at the two lowest descriptors that were free, and both
    -- descriptors copied to the user.
    abbrev pub Piped : (addr : ℕ) → Ofile → List File → Rest → Result v → Type 0
    Piped addr t fs r none = ⊥
    Piped addr t fs r (some (none, (u, (gs, r')))) = (u ≡ t) × Same fs gs × Reason addr t fs r
    Piped addr t fs r (some (some c, (u, (gs, r')))) =
        (c ≡ 0)
        × ((fd0 fd1 i j : ℕ) × Lowest t fd0
            × Lowest (set t fd0 (some i)) fd1
            × (u ≡ set (set t fd0 (some i)) fd1 (some j))
            × Both (w.kalloc r).0 i j fs gs
            × Copied addr fd0 fd1 r r')

    given_up :
        (addr : ℕ) (t u : Ofile) (fs gs : List File) (r r' : Rest) (i j page : ℕ)
        → u ≡ t
        → Both page i j fs gs
        → Reason addr t fs r
        → Piped addr t fs r (give_up v w u i j (gs, r'))
    given_up addr t u fs gs r r' i j page e b why =
        go (close_both v i j (gs, r')) (close_both-undoes fs gs r' i j b.refs)
      where
        go :
            (o : Option (Kernel v))
            → Undone fs o
            → Piped addr t fs r (elim o [ none ↦ none | some k ↦ some (none, (u, k)) ])
        go none x = x
        go (some (hs, r1)) x = (e, x, why)

    install-Piped :
        (addr i j : ℕ) (t : Ofile) (fs gs : List File) (r : Rest)
        → Both (w.kalloc r).0 i j fs gs
        → Piped addr t fs r (install v w addr i j (t, (gs, filled r)))
    unfolding install
    install-Piped addr i j t fs gs r b = elim (fdalloc-cases i t) [
      | inl full ↦
          rw (install, full)
            (given_up addr t t fs gs r _ i j _ refl b (inr (inl (first-FewDescriptors i t full))))
      | inr (fd0, e, low0) ↦ elim (fdalloc-cases j (set t fd0 (some i))) [
        | inl full ↦
            rw (install, e, full)
              (given_up addr t _ fs gs r _ i j _ (set-undone t fd0 (some i) low0.0) b
                (inr (inl (second-FewDescriptors i j fd0 t full))))
        | inr (fd1, f, low1) ↦ elim (Bool-cases (copy_both v w addr fd0 fd1 (filled r)).0) [
          | inl copied ↦
              rw (install, e, f, copied)
                (
                  refl,
                  (fd0, fd1, i, j, low0, low1, refl, b, copy_both-Copied addr fd0 fd1 r copied),
                )
          | inr failed ↦
              rw (install, e, f, failed)
                (given_up addr t _ fs gs r _ i j _ (both_undone t fd0 fd1 i j low0.0 low1.0) b
                  (inr (inr (fd0, fd1, i, low0, low1, copy_both-NotCopied addr fd0 fd1 r failed))))
        ]
      ]
    ]

    -- `sys_pipe` never panics, and there are two ways that it ends. It returns -1, with the caller's
    -- descriptors and each file's reference count as before, and then fewer than two files of the
    -- table or fewer than two descriptors were free, or `kalloc` returned 0, or one of the copies of
    -- the two lowest free descriptors failed. Or it returns 0, with the two ends of a new pipe on the
    -- page of `kalloc`, one that only reads and one that only writes, at the two lowest free
    -- descriptors, one reference more to each of the two files and no other count changed, and the
    -- two descriptors copied to the user's address and 4 bytes further on, both with success.
    pub sys_pipe-Piped :
        (a : Args) (t : Ofile) (fs : List File) (r : Rest)
        → Piped a.a0 t fs r (sys_pipe v w a (t, (fs, r)))
    unfolding sys_pipe argaddr argraw
    sys_pipe-Piped a t fs r = go (pipealloc v w (fs, r)) (pipealloc-Made fs r)
      where
        go :
            (o : Option (Option (ℕ × ℕ) × Kernel v))
            → Made fs r o
            → Piped a.a0 t fs r (elim o [
              | none ↦ none
              | some (none, k1) ↦ some (none, (t, k1))
              | some (some (i, j), k1) ↦ install v w a.a0 i j (t, k1)
            ])
        go none m = m
        go (some (none, (gs, r1))) (same, why) = (refl, same, inl why)
        go (some (some (i, j), (gs, r1))) (b, e) =
            subst (λ q. Piped a.a0 t fs r (install v w a.a0 i j (t, (gs, q)))) (sym e)
              (install-Piped a.a0 i j t fs gs r b)
