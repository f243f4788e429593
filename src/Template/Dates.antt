-- ===== src/Template/Dates.antt =====
-- `shiftDates`: every date of the reference moves with the leg that it belongs to. A time is its
-- nanoseconds. `time.Parse` and `Format` are the parameters `parse` and `format`.
pub mod Nearest
use ndc_mock.Prelude.{
  ℕ, Bool, true, false, Option, none, some, List, [], ◌∷◌, map, String, if◌then◌else◌, ◌>>=◌, ◌^◌,
  ◌-◌,
}
use ndc_mock.Prelude.Int.{ℤ, pos, negsuc, ◌+ℤ◌, ◌-ℤ◌, ltb_ℤ, sub_int}
use ndc_mock.Itinerary.{Leg}
use ndc_mock.Query.{Query}

-- `time.Sub`, which gives the nearest duration where the difference is out of range.
unfoldable pub sub_time : ℤ → ℤ → ℤ
unfolding ◌-ℤ◌
sub_time a b =
    let d = a -ℤ b in
    if ltb_ℤ (pos (2 ^ 63 - 1)) d
    then pos (2 ^ 63 - 1)
    else if ltb_ℤ d (negsuc (2 ^ 63 - 1))
    then negsuc (2 ^ 63 - 1)
    else d

-- `absDur`, where the least duration is its own negation.
unfoldable pub abs_dur : ℤ → ℤ
unfolding sub_int
abs_dur d = if ltb_ℤ d (pos 0) then sub_int (pos 0) d else d

unfoldable pub distance : ℤ → ℤ → ℤ
unfolding abs_dur sub_time
distance d ref = abs_dur (sub_time d ref)

-- One round of the loop over the reference's legs, each with its date and its shift.
unfoldable pub nearer : ℤ → ℤ × ℤ → ℤ × ℤ → ℤ × ℤ
unfolding distance
nearer d best leg = if ltb_ℤ (distance d leg.0) (distance d best.0) then leg else best

unfoldable pub nearest : ℤ → ℤ × ℤ → List (ℤ × ℤ) → ℤ × ℤ
unfolding nearer
nearest d best [] = best
nearest d best (leg ∷ legs) = nearest d (nearer d best leg) legs

-- The request's legs, of which a single trip is one.
unfoldable pub legs_or_trip : Query → List Leg
legs_or_trip q = elim (q.legs) [
  | [] ↦ record { from = q.origin; to = q.dest; date = q.dep_date } ∷ []
  | l ∷ ls ↦ l ∷ ls
]

-- The leg for the next reference leg: the last one serves all that are left.
unfoldable pub next_legs : List Leg → List Leg
next_legs [] = []
next_legs (l ∷ []) = l ∷ []
next_legs (l ∷ m ∷ ls) = m ∷ ls

module _ (parse : String → Option ℤ) (format : ℤ → String) where
  want_date : List Leg → Option ℤ
  want_date [] = none
  want_date (l ∷ ls) = parse l.date

  -- The dates of the reference's legs with their shifts; `none` if a date of the request is no date.
  unfoldable pub shifts : List ℤ → List Leg → Option (List (ℤ × ℤ))
  unfolding want_date next_legs sub_time
  shifts [] legs = some []
  shifts (ref ∷ refs) legs = do
    d ← want_date legs
    rest ← shifts refs (next_legs legs)
    some ((ref, sub_time d ref) ∷ rest)

  moved : (String) → ℤ × ℤ → List (ℤ × ℤ) → Option ℤ → String
  unfolding nearest ◌+ℤ◌
  moved s leg legs none = s
  moved s leg legs (some d) = format (d +ℤ (nearest d leg legs).1)

  unfoldable pub shift_date : ℤ × ℤ → List (ℤ × ℤ) → String → String
  unfolding moved
  shift_date leg legs s = moved s leg legs (parse s)

  -- A reference has a leg, so that the last case does not come up.
  shifted : List String → Option (List (ℤ × ℤ)) → List String
  unfolding shift_date
  shifted dates none = dates
  shifted dates (some (leg ∷ legs)) = map (shift_date leg legs) dates
  shifted dates (some []) = dates

  unfoldable pub shift_dates : List String → List ℤ → Query → List String
  unfolding shifts shifted legs_or_trip
  shift_dates dates refs q = shifted dates (shifts refs (legs_or_trip q))
