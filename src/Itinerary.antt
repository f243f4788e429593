-- ===== src/Itinerary.antt =====
-- Itineraries (edge/query.go): legs, the shape of an itinerary and its airports.
pub mod Numbering
pub mod Shapes
use mathlib.Core.List.{foldl}
use ndc_mock.Prelude.{
  ℕ, zero, suc, ◌≡◌, refl, Bool, true, false, ◌&&◌, Option, none, some, List, [], ◌∷◌, ◌++◌, String,
  ◌<>◌, length, if◌then◌else◌, ◌==◌, ◌!=◌, string_eq,
}
use ndc_mock.Prelude.Text.{join, itoa}

-- One origin-destination of an itinerary.
pub record Leg : Type 0 where
  pub from : String
  pub to : String
  pub date : String

-- The map `idx`, from an airport to its number.
abbrev pub Index : Type 0
Index = List (String × ℕ)

unfoldable pub has : Index → String → Bool
has [] a = false
has ((b, n) ∷ idx) a = if b == a then true else has idx a

-- `idx[a]`, which is 0 for a key that the map lacks.
unfoldable pub at : Index → String → ℕ
at [] a = 0
at ((b, n) ∷ idx) a = if b == a then n else at idx a

-- One round of the inner loop of `pattern`.
unfoldable pub number : Index → String → Index
unfolding has
number idx a = if has idx a then idx else idx ++ ((a, length idx) ∷ [])

abbrev pub number_leg : Index → Leg → Index
number_leg idx l = number (number idx l.from) l.to

pub part : Index → Leg → String
part idx l = itoa (at idx l.from) <> ("-" <> itoa (at idx l.to))

-- The outer loop of `pattern`: the parts, in order.
unfoldable pub parts : Index → List Leg → List String
unfolding number at part itoa
parts idx [] = []
parts idx (l ∷ legs) = let idx' = number_leg idx l in part idx' l ∷ parts idx' legs

-- An itinerary's shape with the airports numbered by first appearance.
unfoldable pub pattern_of : List Leg → String
unfolding parts join
pattern_of legs = join "," (parts [] legs)

unfoldable pub contains : List String → String → Bool
contains [] a = false
contains (b ∷ l) a = if b == a then true else contains l a

-- The state of the loops of `airports`: the set `seen`, and `out`.
unfoldable pub see : List String × List String → String → List String × List String
unfolding contains
see (seen, out) a = if contains seen a then (seen, out) else (a ∷ seen, out ++ (a ∷ []))

unfoldable pub see_legs : List String × List String → List Leg → List String × List String
unfolding see
see_legs s [] = s
see_legs s (l ∷ legs) = see_legs (see (see s l.from) l.to) legs

-- The distinct airports of an itinerary in order of appearance.
unfoldable pub airports : List Leg → List String
unfolding see_legs
airports legs = (see_legs ([], []) legs).1

-- An itinerary that is neither one way nor a return.
unfoldable pub multi_city : List Leg → Bool
unfolding pattern_of
multi_city legs = let p = pattern_of legs in p != "0-1" && p != "0-1,1-0"
