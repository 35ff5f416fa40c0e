-- ===== src/Fs/Alloc/Free.antt =====
-- `balloc` and `bfree` on the set of blocks that are marked.
use xv6_learn.Common.{
  ℕ, ◌+◌, ◌/◌, ◌%◌, ◌<◌, ◌≡◌, ◌≢◌, inl, inr, refl, ap, ap₂, sym, ◌∙◌, arith, Bool, true, false, not,
  ◌&&◌, ◌||◌, Option, none, some, [], ◌∷◌, ◌++◌, append_assoc, ◌==◌, update, update_self, update_ne,
  Bool-cases,
}
use xv6_learn.Fs.{Superblock, Bytes, Blocks, change, bblock, bpb}
use xv6_learn.Fs.Alloc.{bit, set_bit, clear_bit, zero_bytes, scan_blocks, balloc, bfree}
use xv6_learn.Fs.Alloc.Bitmap.{bit-set_bit, bit-clear_bit}
use xv6_learn.Fs.Alloc.Scan.{used, BlocksEnd, scan_blocks-BlocksEnd}

module _ (sb : Superblock) where
  -- The blocks of the bitmap itself are marked.
  abbrev pub MapMarked : Blocks → Type 0
  MapMarked s = (k : ℕ) → k < sb.size → used sb s (bblock sb k) ≡ true

  used-change :
      (b k : ℕ) (s : Blocks) (f : Bytes → Bytes) (marked : Bool → Bool → Bool)
      → ((j : ℕ)
          → bit (f (s.bytes (bblock sb b))) j
            ≡ marked (b % bpb == j) (bit (s.bytes (bblock sb b)) j))
      → ((c : Bool) → marked false c ≡ c)
      → used sb (change (bblock sb b) f s) k ≡ marked (b == k) (used sb s k)
  used-change b k s f marked h keep =
      let y = f (s.bytes (bblock sb b)) in
      elim (Bool-cases (bblock sb b == bblock sb k)) [
        | inl same ↦
            (let e : bblock sb b ≡ bblock sb k = ground arith in
              let t : (b % bpb == k % bpb) ≡ (b == k) = ground arith in
              let here : update s.bytes (bblock sb b) y (bblock sb k) ≡ y = ground arith in
              ap (λ (z : Bytes). bit z (k % bpb)) here
              ∙ h (k % bpb)
              ∙ ap₂ marked t (ap (λ c. bit (s.bytes c) (k % bpb)) e))
        | inr apart ↦
            (let ne : (b == k) ≡ false = ground arith in
              let there : update s.bytes (bblock sb b) y (bblock sb k) ≡ s.bytes (bblock sb k) =
                update_ne s.bytes (bblock sb b) y (bblock sb k) (ground arith) in
              ap (λ (z : Bytes). bit z (k % bpb)) there
              ∙ sym (ap (λ c. marked c (used sb s k)) ne ∙ keep (used sb s k)))
      ]

  -- What `balloc` comes to.
  abbrev pub Allocated : Blocks → Option (ℕ × Blocks) → Type 0
  Allocated s none = (k : ℕ) → k < sb.size → used sb s k ≡ true
  Allocated s (some (b, t)) =
      (b < sb.size)
      × (used sb s b ≡ false)
      × ((k : ℕ) → k < b → used sb s k ≡ true)
      × ((k : ℕ) → k < sb.size → used sb t k ≡ ((b == k) || used sb s k))
      × ((x : ℕ) → t.bytes b x ≡ 0)
      × ((c : ℕ) → c ≢ b → c ≢ bblock sb b → t.bytes c ≡ s.bytes c)
      × (t.logged ≡ s.logged ++ (bblock sb b ∷ b ∷ []))

  -- Where the blocks of the bitmap are marked in it, `balloc` hands out the first block that is not
  -- marked, marks it and no other, fills it with zeros, and logs the two blocks that it changes; it
  -- panics only when all blocks are marked.
  pub balloc-Allocated : (s : Blocks) → MapMarked s → Allocated s (balloc sb s)
  unfolding balloc
  balloc-Allocated s m =
      go (scan_blocks sb (sb.size / bpb + 1) 0 s) refl
        (scan_blocks-BlocksEnd sb (sb.size / bpb + 1) 0 s (omega arith))
    where
      go :
          (o : Option ℕ)
          → scan_blocks sb (sb.size / bpb + 1) 0 s ≡ o
          → BlocksEnd sb (sb.size / bpb + 1) 0 s o
          → Allocated s (balloc sb s)
      go none e h = rw (e, balloc) (λ k p. h k (omega arith) (omega arith) p)
      go (some b) e (low, inside, free, before) =
          let s1 = change (bblock sb b) (set_bit (b % bpb)) s in
          let no_map : (k : ℕ) → k < sb.size → b ≢ bblock sb k = λ k p q. ground (arith, m k p) in
          rw (e, balloc)
            (
              inside,
              free,
              λ k p. before k (omega arith) p,
              λ k p.
                  ap (λ (z : Bytes). bit z (k % bpb))
                    (update_ne s1.bytes b (zero_bytes (s1.bytes b)) (bblock sb k) (no_map k p))
                  ∙ used-change b k s (set_bit (b % bpb)) (λ c d. c || d)
                      (λ j. bit-set_bit (b % bpb) j (s.bytes (bblock sb b)) free) (λ c. refl),
              λ x. ap (λ (z : Bytes). z x) (update_self s1.bytes b (zero_bytes (s1.bytes b))),
              λ c p q.
                  update_ne s1.bytes b (zero_bytes (s1.bytes b)) c (λ z. p (sym z))
                  ∙ update_ne s.bytes (bblock sb b) (set_bit (b % bpb) (s.bytes (bblock sb b))) c
                      (λ z. q (sym z)),
              append_assoc s.logged (bblock sb b ∷ []) (b ∷ []),
            )

  abbrev pub Freed : ℕ → Blocks → Option Blocks → Type 0
  Freed b s none = used sb s b ≡ false
  Freed b s (some t) =
      (used sb s b ≡ true)
      × ((k : ℕ) → used sb t k ≡ (not (b == k) && used sb s k))
      × ((c : ℕ) → c ≢ bblock sb b → t.bytes c ≡ s.bytes c)

  -- `bfree` of a block that is marked clears its mark and no other, and touches no block but the
  -- one of the bitmap; of a block that is not marked it panics.
  pub bfree-Freed : (b : ℕ) (s : Blocks) → Freed b s (bfree sb b s)
  unfolding bfree
  bfree-Freed b s = elim (Bool-cases (used sb s b)) [
    | inr free ↦ rw free free
    | inl set ↦ rw set (
      set,
      λ k.
          used-change b k s (clear_bit (b % bpb)) (λ c d. not c && d)
            (λ j. bit-clear_bit (b % bpb) j (s.bytes (bblock sb b)) set) (λ c. refl),
      λ c q.
          update_ne s.bytes (bblock sb b) (clear_bit (b % bpb) (s.bytes (bblock sb b))) c
            (λ z. q (sym z)),
    )
  ]
