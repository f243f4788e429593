-- ===== src/Airline.antt =====
-- Carrier profiles (edge/airlines.go). Floating-point numbers are not the program's: they are the
-- record `Floats`.
use ndc_mock.Prelude.{
  Bool, true, false, ◌||◌, Option, none, some, List, [], ◌∷◌, String, if◌then◌else◌, ◌==◌,
  string_eq,
}
use ndc_mock.Prelude.Int.{ℤ}
use ndc_mock.Translate.Mapping.{Map, lookup}

-- `float64`, as far as a fare is converted; `round` is `int(math.Round(x))`.
pub record Floats : Type 1 where
  pub Float : Type 0
  pub of_int : ℤ → Float
  pub one : Float
  pub is_zero : Float → Bool
  pub times : Float → Float → Float
  pub over : Float → Float → Float
  pub round : Float → ℤ

module _ (F : Floats) where
  open F use {Float, of_int, one, is_zero, times, over, round}

  pub record Airline : Type 0 where
    pub code : String
    pub currency : String
    pub hubs : List String
    pub fare_scale : Float
    pub fx : Option (Map Float)

  or_one : Option Float → Float
  or_one none = one
  or_one (some x) = x

  -- The fare in the carrier's currency, if that has a rate that is not zero.
  in_currency : Airline → String → ℤ → Float → Option Float → String × ℤ
  in_currency a cur amount from none = (cur, amount)
  in_currency a cur amount from (some to) =
      if is_zero to
      then (cur, amount)
      else (a.currency, round (over (times (times (of_int amount) from) a.fare_scale) to))

  convert_with : Airline → String → ℤ → Option (Map Float) → String × ℤ
  unfolding or_one in_currency lookup
  convert_with a cur amount none = (cur, amount)
  convert_with a cur amount (some fx) =
      if a.currency == ""
      then (cur, amount)
      else in_currency a cur amount (or_one (lookup fx cur)) (lookup fx a.currency)

  unfoldable pub convert : Airline → String → ℤ → String × ℤ
  unfolding convert_with
  convert a cur amount = convert_with a cur amount a.fx

  touches : List String → String → String → Bool
  touches [] origin dest = false
  touches (h ∷ hubs) origin dest = h == origin || (h == dest || touches hubs origin dest)

  -- Whether one end of the route is a hub; a carrier without hubs serves every route.
  unfoldable pub serves : Airline → String → String → Bool
  unfolding touches
  serves a origin dest = elim (a.hubs) [ [] ↦ true | h ∷ hubs ↦ touches (h ∷ hubs) origin dest ]

  -- `get`: the profile of a code, in upper case.
  unfoldable pub get : (String → String) → Map Airline → String → Option Airline
  unfolding lookup
  get upper airlines code = if code == "" then none else lookup airlines (upper code)
