-- ===== src/Template/Scan.antt =====
-- What the regular expressions of the templates are read as: a test of the text at one position,
-- and the matches of a text from the left, none of which overlaps another.
use ndc_mock.Prelude.{
  ℕ, zero, suc, Option, none, some, List, [], ◌∷◌, map, String, ◌<>◌, nat_eq, string_eq,
}
use ndc_mock.Prelude.Text.{cut_prefix}

-- A test of the text at a position: what it reads, and the text behind the match.
abbrev pub Matcher : Type 0 → Type 0
Matcher A = String → Option (A × String)

abbrev pub width : String → ℕ
width String.[] = 0
width (String.◌∷◌ c s) = suc (width s)

-- The matches, each with the text before it, and the text behind the last.
abbrev pub Hits : Type 0 → Type 0
Hits A = List (String × A) × String

module _ {A : Type 0} where
  -- One more character in front.
  unfoldable pub before_hits : String → Hits A → Hits A
  before_hits t ([], behind) = ([], t <> behind)
  before_hits t ((u, a) ∷ hs, behind) = ((t <> u, a) ∷ hs, behind)

  -- No match is empty, so that a text has no more steps than characters.
  unfoldable pub hits_from : ℕ → Matcher A → String → Hits A
  unfolding before_hits
  hits_from zero m s = ([], s)
  hits_from (suc fuel) m String.[] = ([], String.[])
  hits_from (suc fuel) m (String.◌∷◌ c s) = elim (m (String.◌∷◌ c s)) [
    | some (a, rest) ↦ let more = hits_from fuel m rest in ((String.[], a) ∷ more.0, more.1)
    | none ↦ before_hits (String.◌∷◌ c String.[]) (hits_from fuel m s)
  ]

  unfoldable pub hits : Matcher A → String → Hits A
  unfolding hits_from
  hits m s = hits_from (width s) m s

  -- `FindAll` and `Find`.
  abbrev pub found : Hits A → List A
  found (hs, behind) = map (λ h. h.1) hs

  unfoldable pub first_hit : List A → Option A
  first_hit [] = none
  first_hit (a ∷ as') = some a

  unfoldable pub fill_from : (A → String) → List (String × A) → String → String
  fill_from f [] behind = behind
  fill_from f ((t, a) ∷ hs) behind = t <> (f a <> fill_from f hs behind)

-- `ReplaceAllFunc`
unfoldable pub replace_all : {A : Type 0} → Matcher A → (A → String) → String → String
unfolding hits fill_from
replace_all m f s = let (hs, behind) = hits m s in fill_from f hs behind

-- `Index`: the text before the first occurrence of a text that is not empty, and the text from it on.
unfoldable pub split_first : String → String → Option (String × String)
unfolding cut_prefix
split_first p String.[] = none
split_first p (String.◌∷◌ c s) =
    let more = split_first p s in
    elim (cut_prefix p (String.◌∷◌ c s)) [
      | some rest ↦ some (String.[], String.◌∷◌ c s)
      | none ↦ elim more [ none ↦ none | some (t, u) ↦ some (String.◌∷◌ c t, u) ]
    ]

-- `LastIndex`: the text up to the end of the last occurrence, and the text behind it.
unfoldable pub split_last : String → String → Option (String × String)
unfolding cut_prefix
split_last p String.[] = none
split_last p (String.◌∷◌ c s) =
    let more = split_last p s in
    elim more [
      | some (t, u) ↦ some (String.◌∷◌ c t, u)
      | none ↦ elim (cut_prefix p (String.◌∷◌ c s)) [ none ↦ none | some rest ↦ some (p, rest) ]
    ]
