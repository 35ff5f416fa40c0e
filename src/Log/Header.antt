-- ===== src/Log/Header.antt =====
-- The header block: what is laid over it is read back.
use xv6_learn.Common.{
  ℕ, ◌+◌, ◌≤◌, ◌<◌, ◌≡◌, refl, ap, ap₂, ◌∙◌, List, [], ◌∷◌, arith, length, get_or, set, length-set,
  get_or-set_self, get_or-set_ne,
}
use xv6_learn.Log.{Block, put_words, get_words, put_head, get_head}

get_or-put_words :
    (bs : List ℕ) (i j : ℕ) (d : Block) → j < i → get_or (put_words bs i d) j 0 ≡ get_or d j 0
unfolding put_words
get_or-put_words [] i j d h = refl
get_or-put_words (b ∷ bs) i j d h =
    get_or-put_words bs (i + 1) j (set d i b) (omega arith)
    ∙ get_or-set_ne d {i = i} {j = j} b 0 (omega arith)

get_words-put_words :
    (bs : List ℕ) (i : ℕ) (d : Block)
    → i + length bs ≤ length d
    → get_words (length bs) i (put_words bs i d) ≡ bs
unfolding put_words get_words
get_words-put_words [] i d h = refl
get_words-put_words (b ∷ bs) i d h =
    ap₂ ◌∷◌
      (get_or-put_words bs (i + 1) i (set d i b) (omega arith)
        ∙ get_or-set_self d i b 0 (omega arith))
      (get_words-put_words bs (i + 1) (set d i b) (omega (arith, length-set d i b)))

-- A header of at most 255 numbers that is laid over a block is read back, whatever stood there.
pub get_head-put_head :
    (bs : List ℕ) (d : Block) → length bs < length d → get_head (put_head bs d) ≡ bs
unfolding put_head get_head
get_head-put_head bs d h =
    let n : get_or (put_words bs 1 (set d 0 (length bs))) 0 0 ≡ length bs =
      get_or-put_words bs 1 0 (set d 0 (length bs)) (omega arith)
      ∙ get_or-set_self d 0 (length bs) 0 (omega arith) in
    ap (λ k. get_words k 1 (put_words bs 1 (set d 0 (length bs)))) n
    ∙ get_words-put_words bs 1 (set d 0 (length bs)) (omega (arith, length-set d 0 (length bs)))

length-put_words : (bs : List ℕ) (i : ℕ) (d : Block) → length (put_words bs i d) ≡ length d
unfolding put_words
length-put_words [] i d = refl
length-put_words (b ∷ bs) i d = length-put_words bs (i + 1) (set d i b) ∙ length-set d i b

pub length-put_head : (bs : List ℕ) (d : Block) → length (put_head bs d) ≡ length d
unfolding put_head
length-put_head bs d = length-put_words bs 1 (set d 0 (length bs)) ∙ length-set d 0 (length bs)
