-- ===== src/Grep/Regex.antt =====
-- What an expression of grep means: the strings that it stands for.
use xv6_learn.Common.{ℕ, Bool, true, false, ◌≡◌, ◌⊎◌, List, [], ◌∷◌, ◌++◌, ◌==◌, if◌then◌else◌}
use xv6_learn.Grep.{dollar, star, dot, caret}

-- A character, or any number of them; `.` stands for every character.
pub data Item : Type 0 where
  one many : ℕ → Item

-- The items of an expression, and whether it ends in `$`.
unfoldable pub parse : List ℕ → List Item × Bool
parse [] = ([], false)
parse (c ∷ []) = if c == dollar then ([], true) else (one c ∷ [], false)
parse (c ∷ d ∷ re) =
    let (is, e) = parse re in
    let (js, f) = parse (d ∷ re) in if d == star then (many c ∷ is, e) else (one c ∷ js, f)

abbrev pub Fits : ℕ → ℕ → Type 0
Fits c t = (c ≡ dot) ⊎ (c ≡ t)

abbrev pub AllFit : ℕ → List ℕ → Type 0
AllFit c [] = Unit
AllFit c (t ∷ ts) = Fits c t × AllFit c ts

-- The strings of a list of items.
abbrev pub In : List Item → List ℕ → Type 0
In [] s = s ≡ []
In (one c ∷ is) s = (t : ℕ) × (r : List ℕ) × (s ≡ t ∷ r) × Fits c t × In is r
In (many c ∷ is) s = (a r : List ℕ) × (s ≡ a ++ r) × AllFit c a × In is r

-- A string of the items stands at the start of the text, and ends with it where it must.
pub record Starts (is : List Item) (ends : Bool) (text : List ℕ) : Type 0 where
  pub found : List ℕ
  pub rest : List ℕ
  pub split : text ≡ found ++ rest
  pub member : In is found
  pub whole : ends ≡ true → rest ≡ []

pub record Occurs (is : List Item) (ends : Bool) (text : List ℕ) : Type 0 where
  pub before : List ℕ
  pub after : List ℕ
  pub cut : text ≡ before ++ after
  pub starts : Starts is ends after

-- What `match` should decide.
abbrev pub Matches : (re text : List ℕ) → Type 0
Matches [] text = Occurs (parse []).0 (parse []).1 text
Matches (c ∷ re) text =
    if c == caret
    then Starts (parse re).0 (parse re).1 text
    else Occurs (parse (c ∷ re)).0 (parse (c ∷ re)).1 text
