-- ===== src/Files/Chunks.antt =====
-- The loop of `filewrite` on an inode: chunk after chunk, each in its own transaction.
use mathlib.Core.Path.{subst}
use xv6_learn.Common.{
  ℕ, zero, suc, ◌+◌, ◌-◌, ◌%◌, ◌^◌, ◌≤◌, ◌<◌, ◌≡◌, ◌≢◌, refl, ap, sym, ◌∙◌, true, false, Option,
  none, some, List, [], ◌∷◌, arith, ◌==◌, ltb, if◌then◌else◌, ◌⊎◌, inl, inr, Bool-cases,
  Option-cases,
}
use xv6_learn.Files.{
  File, fd_inode, FileServices, Written, panicked, stopped, max_chunk, write_chunks, filewrite,
}

abbrev pub total : List ℕ → ℕ
total [] = 0
total (s ∷ ss) = s + total ss

abbrev pub moved : File → ℕ → File
moved f k = record f { off = (f.off + k) % 2 ^ 32 }

-- The chunk from byte `i` of `n`: as large as may be, or all that is left.
abbrev pub Sized : (n i s : ℕ) → Type 0
Sized n i s = (0 < s) × (s ≤ max_chunk) × ((s ≡ max_chunk) ⊎ (i + s ≡ n))

module _ (v : FileServices) (f : File) (addr n : ℕ) where
  open v use {Rest, writei, begin_transaction, end_transaction, ilock, iunlock}

  -- The call of `writei` for `s` bytes from byte `i` of the user's on, in its transaction, and the
  -- end of the transaction.
  abbrev pub ask : (i s : ℕ) → Rest → Option ℕ × Rest
  ask i s r =
      writei f.ip ((addr + i) % 2 ^ 64) ((f.off + i) % 2 ^ 32) s (ilock f.ip (begin_transaction r))

  abbrev pub leave : Rest → Rest
  leave r = end_transaction (iunlock f.ip r)

  -- Chunks of these sizes are written from byte `i` on, one after the other and each in full.
  abbrev pub Wrote : List ℕ → (i : ℕ) → Rest → Rest → Type 0
  Wrote [] i r r' = r ≡ r'
  Wrote (s ∷ ss) i r r' =
      Sized n i s × ((r1 : Rest) × (ask i s r ≡ (some s, r1)) × Wrote ss (i + s) (leave r1) r')

  -- Then the next chunk, of `s` bytes from byte `j` on, gets the answer `c`.
  abbrev pub Answered : (i : ℕ) → Rest → (j s : ℕ) → Option ℕ → Rest → Type 0
  Answered i r j s c r2 =
      (ss : List ℕ) × (r1 : Rest) × Wrote ss i r r1
      × (i + total ss ≡ j)
      × Sized n j s
      × (ask j s r1 ≡ (c, r2))

  abbrev pub Whole : (i : ℕ) → Rest → Rest → Type 0
  Whole i r r' = (ss : List ℕ) × (i + total ss ≡ n) × Wrote ss i r r'

  abbrev pub Fails : (i : ℕ) → Rest → File → Rest → Type 0
  Fails i r f' r' =
      (j s : ℕ) × (r2 : Rest) × Answered i r j s none r2 × (f' ≡ moved f j) × (leave r2 ≡ r')

  abbrev pub Short : (i : ℕ) → Rest → Type 0
  Short i r = (j s k : ℕ) × (r2 : Rest) × Answered i r j s (some k) r2 × (k ≢ s)

  abbrev ChunksEnd : (i : ℕ) → Rest → Written → File → Rest → Type 0
  ChunksEnd i r panicked f' r' = Short i r
  ChunksEnd i r (stopped j) f' r' =
      ((j ≡ n) × (f' ≡ moved f n) × Whole i r r') ⊎ ((j ≢ n) × Fails i r f' r')

  -- A chunk that is written in front of what follows.
  chunks_step :
      (i s : ℕ) (r r1 : Rest) (w : Written) (f' : File) (r' : Rest)
      → Sized n i s
      → ask i s r ≡ (some s, r1)
      → ChunksEnd (i + s) (leave r1) w f' r'
      → ChunksEnd i r w f' r'
  chunks_step i s r r1 panicked f' r' z a (j, t, k, r2, (ss, q, h, e, u, b), ne) =
      (j, t, k, r2, (s ∷ ss, q, (z, (r1, a, h)), omega (arith, e), u, b), ne)
  chunks_step i s r r1 (stopped j) f' r' z a (inl (whole, e, (ss, t, h))) =
      inl (whole, e, (s ∷ ss, omega (arith, t), (z, (r1, a, h))))
  chunks_step i s r r1 (stopped j) f' r' z a (inr (ne, (k, t, r2, (ss, q, h, e, u, b), m, o))) =
      inr (ne, (k, t, r2, (s ∷ ss, q, (z, (r1, a, h)), omega (arith, e), u, b), m, o))

  nothing_left : (i : ℕ) (r : Rest) → i ≡ n → ChunksEnd i r (stopped i) (moved f i) r
  nothing_left i r e = inl (e, ap (moved f) e, ([], omega (arith, e), refl))

  write_chunks-ChunksEnd :
      (fuel i : ℕ) (r : Rest)
      → i ≤ n
      → n ≤ i + fuel
      → let out = write_chunks v fuel addr n i (moved f i) r in ChunksEnd i r out.0 out.1 out.2
  unfolding write_chunks
  write_chunks-ChunksEnd zero i r low enough = nothing_left i r (omega arith)
  write_chunks-ChunksEnd (suc fuel) i r low enough = elim (Bool-cases (ltb i n)) [
    | inr done ↦ rw done (nothing_left i r (ground arith))
    | inl more ↦
        (let n1 = if ltb max_chunk (n - i) then max_chunk else n - i in
          let z : Sized n i n1 = (ground arith, ground arith, ground arith) in
          let out = ask i n1 r in
          elim (Option-cases out.0) [
            | inl bad ↦
                rw (more, write_chunks, bad)
                  (inr (
                    ground arith,
                    (
                      i,
                      n1,
                      out.1,
                      ([], r, refl, omega arith, z, ap (λ c. (c, out.1)) bad),
                      refl,
                      refl,
                    ),
                  ))
            | inr (k, wrote) ↦ elim (Bool-cases (k == n1)) [
              | inl whole ↦
                  (let same : k ≡ n1 = ground arith in
                    let off : ((f.off + i) % 2 ^ 32 + k) % 2 ^ 32 ≡ (f.off + (i + k)) % 2 ^ 32 =
                      omega arith in
                    rw (more, write_chunks, wrote, whole, off, same)
                      (chunks_step i n1 r out.1 _ _ _ z
                        (ap (λ c. (c, out.1)) (wrote ∙ ap some same))
                        (write_chunks-ChunksEnd fuel (i + n1) (leave out.1) (ground arith)
                          (ground arith))))
              | inr short ↦
                  rw (more, write_chunks, wrote, short)
                    (
                      i,
                      n1,
                      k,
                      out.1,
                      ([], r, refl, omega arith, z, ap (λ c. (c, out.1)) wrote),
                      ground arith,
                    )
            ]
          ])
  ]

  -- What a `filewrite` of an inode comes to.
  abbrev pub WriteEnd : Rest → Option (Option ℕ × File × Rest) → Type 0
  WriteEnd r none = Short 0 r
  WriteEnd r (some (none, f', r')) = Fails 0 r f' r'
  WriteEnd r (some (some m, f', r')) = (m ≡ n) × (f' ≡ moved f n) × Whole 0 r r'

-- The result that `filewrite` makes of the end of the loop.
abbrev concluded :
    (v : FileServices) (n : ℕ) → Written × File × v.Rest → Option (Option ℕ × File × v.Rest)
concluded v n (panicked, f1, r1) = none
concluded v n (stopped i, f1, r1) = some (if i == n then some n else none, f1, r1)

filewrite-inode :
    (v : FileServices) (f : File) (addr n : ℕ) (r : v.Rest)
    → f.writable ≡ true
    → f.kind ≡ fd_inode
    → filewrite v f addr n r ≡ concluded v n (write_chunks v n addr n 0 f r)
unfolding filewrite
filewrite-inode v f addr n r open_to inode =
    simp (filewrite, open_to, inode) (go (write_chunks v n addr n 0 f r))
  where
    go :
        (w : Written × File × v.Rest)
        → elim w.0 [
          | panicked ↦ none
          | stopped i ↦ some (if i == n then some n else none, w.1, w.2)
        ]
          ≡ concluded v n w
    go (panicked, f1, r1) = refl
    go (stopped i, f1, r1) = refl

concluded-WriteEnd :
    (v : FileServices) (f : File) (addr n : ℕ) (r : v.Rest) (w : Written) (f1 : File) (r1 : v.Rest)
    → ChunksEnd v f addr n 0 r w f1 r1
    → WriteEnd v f addr n r (concluded v n (w, f1, r1))
concluded-WriteEnd v f addr n r panicked f1 r1 c = c
concluded-WriteEnd v f addr n r (stopped j) f1 r1 (inl (all, m, c)) =
    let yes : (j == n) ≡ true = ground arith in rw yes (refl, m, c)
concluded-WriteEnd v f addr n r (stopped j) f1 r1 (inr (ne, c)) =
    let no : (j == n) ≡ false = ground arith in rw no c

-- A `filewrite` of `n` bytes at `addr` to a writable inode file calls `writei` for one chunk after
-- the other, each in its own transaction: at most `max_chunk` bytes, fewer only for the last chunk,
-- from where the chunk before ended, in the user's bytes (modulo 2^64) and in the file (modulo
-- 2^32). It returns `n`, with the offset moved by `n`, when these calls write all the chunks in full;
-- -1, with the offset moved by what was written, when one of them fails; and it panics when one
-- writes another number of bytes than it was asked to.
pub filewrite-WriteEnd :
    (v : FileServices) (f : File) (addr n : ℕ) (r : v.Rest)
    → f.writable ≡ true
    → f.kind ≡ fd_inode
    → f.off < 2 ^ 32
    → WriteEnd v f addr n r (filewrite v f addr n r)
filewrite-WriteEnd v f addr n r open_to inode word =
    let here : moved f 0 ≡ f = ap (λ o. record f { off = o }) (omega arith) in
    let out = write_chunks v n addr n 0 f r in
    subst (WriteEnd v f addr n r) (sym (filewrite-inode v f addr n r open_to inode)) (
      concluded-WriteEnd v f addr n r out.0 out.1 out.2 (
        subst (λ g. let o = write_chunks v n addr n 0 g r in ChunksEnd v f addr n 0 r o.0 o.1 o.2)
          here (write_chunks-ChunksEnd v f addr n n 0 r (omega arith) (omega arith))))
