-- ===== src/Shell/Scanner.antt =====
-- `gettoken` and `peek` on the bytes of a command line.
use mathlib.Core.Path.{subst}
use xv6_learn.Common.{
  ℕ, ◌+◌, ◌≤◌, ◌<◌, ◌≡◌, ◌≢◌, inl, inr, refl, ap, sym, ◌∙◌, arith, true, false, List, [], ◌∷◌, ◌++◌,
  ◌==◌, length, length-append, Bool-cases,
}
use xv6_learn.Shell.{
  whitespace, symbols, operators, strchr, skip_space, ends_word, word, after_word, Token, starts_gt,
  greater_at, token_at, gettoken, peek,
}

-- All bytes of a list pass a test, and the next byte, where there is one, passes it.
pub data All (P : ℕ → Type 0) : List ℕ → Type 0 where
  no_byte : All P []
  byte : {x : ℕ} {s : List ℕ} → P x → All P s → All P (x ∷ s)

abbrev pub Next : (ℕ → Type 0) → List ℕ → Type 0
Next P [] = Unit {0}
Next P (x ∷ s) = P x

abbrev pub IsSpace : ℕ → Type 0
IsSpace x = strchr whitespace x ≡ true

abbrev pub IsOther : ℕ → Type 0
IsOther x = strchr whitespace x ≡ false

abbrev pub EndsWord : ℕ → Type 0
EndsWord x = ends_word x ≡ true

abbrev pub IsWordByte : ℕ → Type 0
IsWordByte x = ends_word x ≡ false

-- What a call that returns `ret` may take, by the bytes that follow.
pub data Lexeme : (ret : ℕ) → (text follow : List ℕ) → Type 0 where
  at_end : Lexeme 0 [] []
  operator : {x : ℕ} {follow : List ℕ} → strchr operators x ≡ true → Lexeme x (x ∷ []) follow
  greater : {follow : List ℕ} → Next (λ x. x ≢ 62) follow → Lexeme 62 (62 ∷ []) follow
  append : {follow : List ℕ} → Lexeme 43 (62 ∷ 62 ∷ []) follow
  name :
      {x : ℕ} {text follow : List ℕ}
      → All IsWordByte (x ∷ text)
      → Next EndsWord follow
      → Lexeme 97 (x ∷ text) follow

skip_space-splits :
    (s : List ℕ)
    → (ws : List ℕ) × (s ≡ ws ++ skip_space s) × All IsSpace ws × Next IsOther (skip_space s)
unfolding skip_space
skip_space-splits [] = ([], refl, no_byte, tt)
skip_space-splits (x ∷ s) = elim (Bool-cases (strchr whitespace x)) [
  | inl space ↦
      (let (ws, e, h, p) = skip_space-splits s in
        rw space (x ∷ ws, ap (λ t. x ∷ t) e, byte space h, p))
  | inr other ↦ rw other ([], refl, no_byte, other)
]

word-splits :
    (s : List ℕ)
    → (s ≡ word s ++ after_word s) × All IsWordByte (word s) × Next EndsWord (after_word s)
unfolding word after_word
word-splits [] = (refl, no_byte, tt)
word-splits (x ∷ s) = elim (Bool-cases (ends_word x)) [
  | inl over ↦ rw over (refl, no_byte, over)
  | inr more ↦ (let (e, h, p) = word-splits s in rw more (ap (λ t. x ∷ t) e, byte more h, p))
]

-- A byte that is no operator and not '>' is no symbol.
symbols-operators :
    (x : ℕ) → strchr operators x ≡ false → (x == 62) ≡ false → strchr symbols x ≡ false
unfolding strchr
symbols-operators x h k = ground arith

word-name :
    (x : ℕ) (s : List ℕ) → ends_word x ≡ false → Lexeme 97 (word (x ∷ s)) (after_word (x ∷ s))
unfolding word after_word
word-name x s h = let (e, k, p) = word-splits s in rw h (name (byte h k) p)

-- A token's text stands before what it leaves, and fits its kind.
abbrev Reads : List ℕ → Token → Type 0
Reads s t = (s ≡ t.text ++ t.left) × Lexeme t.ret t.text t.left

greater_at-Reads : (s : List ℕ) → Reads (62 ∷ s) (greater_at s)
unfolding greater_at
greater_at-Reads [] = (refl, greater tt)
greater_at-Reads (x ∷ s) = elim (Bool-cases (x == 62)) [
  | inl again ↦ (let e : x ≡ 62 = ground arith in rw again (ap (λ y. 62 ∷ y ∷ s) e, append))
  | inr other ↦ rw other (refl, greater (ground arith))
]

token_at-Reads : (s : List ℕ) → Next IsOther s → Reads s (token_at s)
unfolding token_at
token_at-Reads [] p = (refl, at_end)
token_at-Reads (x ∷ s) p = elim (Bool-cases (strchr operators x)) [
  | inl op ↦ rw op (refl, operator op)
  | inr no_op ↦ elim (Bool-cases (x == 62)) [
    | inr other ↦
        (let byte_of_word : ends_word x ≡ false = rw (p, symbols-operators x no_op other) refl in
          rw (no_op, other) ((word-splits (x ∷ s)).0, word-name x s byte_of_word))
    | inl gt ↦
        (let e : x ≡ 62 = ground arith in
          rw (no_op, gt) (subst (λ y. Reads (y ∷ s) (greater_at s)) (sym e) (greater_at-Reads s)))
  ]
]

-- What a call of `gettoken` on the bytes `s` comes to.
abbrev pub Scans : List ℕ → Token → Type 0
Scans s t =
    (ws : List ℕ) × (ts : List ℕ) × (s ≡ ws ++ (t.text ++ (ts ++ t.left)))
    × (All IsSpace ws × All IsSpace ts)
    × Next IsOther t.left
    × Lexeme t.ret t.text (ts ++ t.left)

-- `gettoken` splits the bytes that are left: it skips the space before the token and after it, and
-- what it returns says what the token is, a single operator, a '>' that no '>' follows, a '>>', or
-- a word that is not empty and as long as it can be; 0 stands for the end of the line.
pub gettoken-Scans : (s : List ℕ) → Scans s (gettoken s)
unfolding gettoken
gettoken-Scans s =
    let (ws, e, h, p) = skip_space-splits s in
    let t = token_at (skip_space s) in
    let (f, lex) = token_at-Reads (skip_space s) p in
    let (ts, g, k, q) = skip_space-splits t.left in
    (
      ws,
      ts,
      e ∙ ap (λ y. ws ++ y) (f ∙ ap (λ y. t.text ++ y) g),
      (h, k),
      q,
      subst (Lexeme t.ret t.text) g lex,
    )

Lexeme-ret : {ret : ℕ} {text follow : List ℕ} → Lexeme ret text follow → ret ≢ 0 → 1 ≤ length text
Lexeme-ret at_end h = absurd (h refl)
Lexeme-ret (operator op) h = omega arith
Lexeme-ret (greater p) h = omega arith
Lexeme-ret append h = omega arith
Lexeme-ret (name a p) h = omega arith

-- A token takes a byte, but at the end.
pub gettoken-shorter : (s : List ℕ) → (gettoken s).ret ≢ 0 → length (gettoken s).left < length s
gettoken-shorter s h =
    let (ws, ts, e, h', q, lex) = gettoken-Scans s in
    let t = gettoken s in
    let size =
      ap length e
      ∙ length-append ws (t.text ++ (ts ++ t.left))
      ∙ ap (λ n. length ws + n)
          (length-append t.text (ts ++ t.left)
            ∙ ap (λ n. length t.text + n) (length-append ts t.left)) in
    omega (arith, size, Lexeme-ret lex h)

pub gettoken_le : (s : List ℕ) → length (gettoken s).left ≤ length s
gettoken_le s =
    let (ws, ts, e, h', q, lex) = gettoken-Scans s in
    let t = gettoken s in
    let size =
      ap length e
      ∙ length-append ws (t.text ++ (ts ++ t.left))
      ∙ ap (λ n. length ws + n)
          (length-append t.text (ts ++ t.left)
            ∙ ap (λ n. length t.text + n) (length-append ts t.left)) in
    omega (arith, size)

pub skip_space_le : (s : List ℕ) → length (skip_space s) ≤ length s
skip_space_le s =
    let (ws, e, h, q) = skip_space-splits s in
    omega (arith, ap length e, length-append ws (skip_space s))

greater_at-ret : (s : List ℕ) → (greater_at s).ret ≢ 0
unfolding greater_at
greater_at-ret s = elim (Bool-cases (starts_gt s)) [
  | inl again ↦ rw again (λ e. ground arith)
  | inr other ↦ rw other (λ e. ground arith)
]

token_at-ret : (x : ℕ) (s : List ℕ) → (token_at (x ∷ s)).ret ≢ 0
unfolding token_at strchr
token_at-ret x s = elim (Bool-cases (strchr operators x)) [
  | inl op ↦ rw op (λ e. ground arith)
  | inr no_op ↦ elim (Bool-cases (x == 62)) [
    | inr other ↦ rw (no_op, other) (λ e. ground arith)
    | inl gt ↦ rw (no_op, gt) (greater_at-ret s)
  ]
]

-- What `peek` finds is a token.
pub peek-shorter : (toks s : List ℕ) → peek toks s ≡ true → length (gettoken s).left < length s
unfolding peek gettoken
peek-shorter toks s h = gettoken-shorter s (go (skip_space s) refl)
  where
    go : (s' : List ℕ) → skip_space s ≡ s' → (gettoken s).ret ≢ 0
    go [] e = cc (rw (e, peek) at h)
    go (x ∷ s') e = rw (gettoken, e) (token_at-ret x s')
