-- ===== src/Grep/Language.antt =====
-- The matcher against the strings that an expression stands for.
use xv6_learn.Common.{
  ℕ, Bool, true, false, ◌≡◌, ◌↔◌, inl, inr, refl, sym, ap, ◌∙◌, fun_ext, append_assoc, List, [],
  ◌∷◌, ◌++◌, arith, ◌==◌, if◌then◌else◌, Bool-cases,
}
use xv6_learn.Grep.{
  dollar, star, caret, is_end, match_char, matchstar, matchhere, match_from, match_re,
}
use xv6_learn.Grep.Regex.{Item, one, many, parse, AllFit, In, Starts, Occurs, Matches}

-- `matchhere` on the items of an expression.
accepts : List Item → Bool → List ℕ → Bool
accepts [] ends text = if ends then is_end text else true
accepts (one c ∷ is) ends text = match_char c (accepts is ends) text
accepts (many c ∷ is) ends text = matchstar c (accepts is ends) text

matchhere-parse : (re text : List ℕ) → matchhere re text ≡ accepts (parse re).0 (parse re).1 text
unfolding matchhere accepts parse
matchhere-parse [] text = refl
matchhere-parse (c ∷ []) text = elim (Bool-cases (c == dollar)) [
  | inl last ↦ rw last refl
  | inr plain ↦ rw (plain, matchhere) refl
]
matchhere-parse (c ∷ d ∷ re) text = elim (Bool-cases (d == star)) [
  | inl starred ↦ rw starred (ap (λ f. matchstar c f text) (fun_ext (matchhere-parse re)))
  | inr plain ↦ rw plain (ap (λ f. match_char c f text) (fun_ext (matchhere-parse (d ∷ re))))
]

matchstar-split :
    (c : ℕ) (here : List ℕ → Bool) (text : List ℕ)
    → matchstar c here text ≡ true
    → (a b : List ℕ) × (text ≡ a ++ b) × AllFit c a × (here b ≡ true)
unfolding matchstar
matchstar-split c here [] h = ([], [], refl, tt, h)
matchstar-split c here (t ∷ ts) h = elim (Bool-cases (here (t ∷ ts))) [
  | inl now ↦ ([], t ∷ ts, refl, tt, now)
  | inr later ↦
      (let (a, b, e, fit, hit) = matchstar-split c here ts (ground arith) in
        (t ∷ a, b, ap (λ q. t ∷ q) e, (ground arith, fit), hit))
]

matchstar-append :
    (c : ℕ) (here : List ℕ → Bool) (a b : List ℕ)
    → AllFit c a
    → here b ≡ true
    → matchstar c here (a ++ b) ≡ true
unfolding matchstar
matchstar-append c here [] [] fit h = h
matchstar-append c here [] (t ∷ ts) fit h = rw h refl
matchstar-append c here (t ∷ a) b fit h = ground (arith, fit.0, matchstar-append c here a b fit.1 h)

accepts-Starts :
    (is : List Item) (ends : Bool) (text : List ℕ)
    → accepts is ends text ≡ true
    → Starts is ends text
unfolding accepts
accepts-Starts [] ends [] h = record {
  found = [];
  rest = [];
  split = refl;
  member = refl;
  whole = λ _. refl;
}
accepts-Starts [] ends (t ∷ ts) h = record {
  found = [];
  rest = t ∷ ts;
  split = refl;
  member = refl;
  whole = ground arith;
}
accepts-Starts (one c ∷ is) ends [] h = cc
accepts-Starts (one c ∷ is) ends (t ∷ ts) h =
    let s = accepts-Starts is ends ts (ground arith) in
    record {
      found = t ∷ s.found;
      rest = s.rest;
      split = ap (λ q. t ∷ q) s.split;
      member = (t, s.found, refl, ground arith, s.member);
      whole = s.whole;
    }
accepts-Starts (many c ∷ is) ends text h =
    let (a, b, e, fit, hit) = matchstar-split c (accepts is ends) text h in
    let s = accepts-Starts is ends b hit in
    record {
      found = a ++ s.found;
      rest = s.rest;
      split = e ∙ ap (λ q. a ++ q) s.split ∙ sym (append_assoc a s.found s.rest);
      member = (a, s.found, refl, fit, s.member);
      whole = s.whole;
    }

accepts-append :
    (is : List Item) (ends : Bool) (s rest : List ℕ)
    → In is s
    → (ends ≡ true → rest ≡ [])
    → accepts is ends (s ++ rest) ≡ true
unfolding accepts
accepts-append [] ends s rest m w = rw m (ended ends rest w)
  where
    ended : (b : Bool) (r : List ℕ) → (b ≡ true → r ≡ []) → (if b then is_end r else true) ≡ true
    ended true r w = rw (w refl) refl
    ended false r w = refl
accepts-append (one c ∷ is) ends s rest (t, r, e, fit, m) w =
    rw e (ground (arith, fit, accepts-append is ends r rest m w))
accepts-append (many c ∷ is) ends s rest (a, r, e, fit, m) w =
    rw (e, append_assoc a r rest)
      (matchstar-append c (accepts is ends) a (r ++ rest) fit (accepts-append is ends r rest m w))

-- `matchhere` succeeds exactly when a string of the expression stands at the start of the text, and
-- is all of it where the expression ends in `$`.
pub matchhere-Starts :
    (re text : List ℕ) → (matchhere re text ≡ true) ↔ Starts (parse re).0 (parse re).1 text
matchhere-Starts re text = (
  λ h. accepts-Starts (parse re).0 (parse re).1 text (sym (matchhere-parse re text) ∙ h),
  λ s.
      matchhere-parse re text
      ∙ rw s.split (accepts-append (parse re).0 (parse re).1 s.found s.rest s.member s.whole),
)

match_from-split :
    (re text : List ℕ)
    → match_from re text ≡ true
    → (b a : List ℕ) × (text ≡ b ++ a) × (matchhere re a ≡ true)
unfolding match_from
match_from-split re [] h = ([], [], refl, h)
match_from-split re (t ∷ ts) h = elim (Bool-cases (matchhere re (t ∷ ts))) [
  | inl now ↦ ([], t ∷ ts, refl, now)
  | inr later ↦
      (let (b, a, e, hit) = match_from-split re ts (ground arith) in
        (t ∷ b, a, ap (λ q. t ∷ q) e, hit))
]

match_from-append : (re b a : List ℕ) → matchhere re a ≡ true → match_from re (b ++ a) ≡ true
unfolding match_from
match_from-append re [] [] h = h
match_from-append re [] (t ∷ ts) h = rw h refl
match_from-append re (t ∷ b) a h = ground (arith, match_from-append re b a h)

match_from-Occurs :
    (re text : List ℕ) → (match_from re text ≡ true) ↔ Occurs (parse re).0 (parse re).1 text
match_from-Occurs re text = (
  λ h.
      let (b, a, e, hit) = match_from-split re text h in
      record { before = b; after = a; cut = e; starts = (matchhere-Starts re a).0 hit },
  λ o. rw o.cut (match_from-append re o.before o.after ((matchhere-Starts re o.after).1 o.starts)),
)

-- `match` returns 1 exactly when the expression matches: at the start of the text where it begins
-- with `^`, and anywhere in the text otherwise.
pub match_re-Matches : (re text : List ℕ) → (match_re re text ≡ true) ↔ Matches re text
unfolding match_re
match_re-Matches [] text = match_from-Occurs [] text
match_re-Matches (c ∷ re) text = elim (Bool-cases (c == caret)) [
  | inl anchored ↦ rw anchored (matchhere-Starts re text)
  | inr free ↦ rw free (match_from-Occurs (c ∷ re) text)
]
