-- ===== src/Tests/Trips.antt =====
-- Requests, itineraries and limits at concrete inputs (edge/query.go, edge/config.go).
use ndc_mock.Prelude.{
  ◌≡◌, ◌↔◌, refl, true, Option, none, some, List, [], ◌∷◌, String, map, arith, if◌then◌else◌, ◌==◌,
  string_eq,
}
use ndc_mock.Prelude.Int.{ℤ, pos, ◌≤ℤ◌}
use ndc_mock.Itinerary.{Leg, airports, pattern_of, multi_city}
use ndc_mock.Itinerary.Numbering.{numbers, names, ends, names-numbers}
use ndc_mock.Itinerary.Shapes.{IsOneWay, IsReturn, pattern_of-IsReturn, multi_city_iff}
use ndc_mock.Query.{Query, AirShoppingRq, refused, parse_query}
use ndc_mock.Query.Laws.{Agrees, parse_query-Agrees}
use ndc_mock.Config.{Config, Latency, parse_delay, resolve, resolve_bounded}
use ndc_mock.Config.Bounds.{IsLatency, parse_delay-IsLatency, resolve_bounded_lem}

abbrev flight : String → String → String → Leg
flight from to date = record { from = from; to = to; date = date }

abbrev there_and_back : List Leg
there_and_back = flight "BOG" "MIA" "2026-12-01" ∷ flight "MIA" "BOG" "2026-12-09" ∷ []

abbrev round_the_world : List Leg
round_the_world =
    flight "BOG" "MIA" "2026-12-01"
    ∷ flight "MIA" "SCL" "2026-12-05"
    ∷ flight "SCL" "BOG" "2026-12-09"
    ∷ []

pattern_test :
    (pattern_of there_and_back ≡ "0-1,1-0")
    × (pattern_of round_the_world ≡ "0-1,1-2,2-0")
    × (airports round_the_world ≡ "BOG" ∷ "MIA" ∷ "SCL" ∷ [])
unfolding pattern_of airports
pattern_test = (refl, refl, refl)

names-numbers_example :
    map (names (airports round_the_world)) (numbers [] round_the_world) ≡ map ends round_the_world
names-numbers_example = names-numbers round_the_world

pattern_of-IsReturn_example : (pattern_of there_and_back ≡ "0-1,1-0") ↔ IsReturn there_and_back
pattern_of-IsReturn_example = pattern_of-IsReturn there_and_back

multi_city_iff_example :
    (multi_city round_the_world ≡ true)
    ↔ ((¬ IsOneWay round_the_world) × (¬ IsReturn round_the_world))
multi_city_iff_example = multi_city_iff round_the_world

abbrev same : String → String
same s = s

abbrev return_rq : AirShoppingRq
return_rq = record {
  country_code = "CO";
  od192 =
      record { date = "2026-12-01"; dep = "BOG"; arr = "MIA" }
      ∷ record { date = "2026-12-09"; dep = "MIA"; arr = "BOG" }
      ∷ [];
  od213 = [];
  specific = 0;
  affinity = 0;
  pax192 = "ADT" ∷ "INS" ∷ [];
  pax213 = [];
}

abbrev return_query : Query
return_query = record {
  origin = "BOG";
  dest = "MIA";
  dep_date = "2026-12-01";
  ret_date = "2026-12-09";
  legs = there_and_back;
  adt = 1;
  chd = 0;
  inf = 1;
  country = "CO";
  lang = "";
}

parse_query-Agrees_example : Agrees same return_rq return_query
unfolding parse_query pattern_of
parse_query-Agrees_example = parse_query-Agrees same return_rq return_query refl

no_pax_test :
    parse_query same (some (record return_rq { pax192 = [] }))
    ≡ refused "request carries no passengers"
unfolding parse_query
no_pax_test = refl

-- A duration that is a number of milliseconds, for two texts.
abbrev some_durations : String → Option ℤ
some_durations s =
    if s == "200ms"
    then some (pos 200000000)
    else if s == "900ms"
    then some (pos 900000000)
    else none

abbrev median : Latency → ℤ
median l = l.p50

parse_delay-IsLatency_example : IsLatency (record { p50 = pos 200000000; p95 = pos 900000000 })
unfolding parse_delay
parse_delay-IsLatency_example = parse_delay-IsLatency some_durations median "200ms ~ 900ms" refl

abbrev slow : Config
slow = record {
  default = record { offers = pos 6; delay = "200ms"; airline = "YY" };
  routes = ("BOG-MIA", record { offers = pos 0; delay = "200ms~900ms"; airline = "" }) ∷ [];
  operations = [];
}

resolve_bounded_lem_example :
    let (n, d) = resolve some_durations median slow "BOG" "MIA" "400" "" in
    let (n', d') =
      resolve_bounded some_durations median slow "BOG" "MIA" "400" "" (pos 100) (pos 5) in
    (n' ≤ℤ pos 100) × (d' ≤ℤ pos 5) × (n ≤ℤ pos 100 → n' ≡ n) × (d ≤ℤ pos 5 → d' ≡ d)
resolve_bounded_lem_example =
    resolve_bounded_lem some_durations median slow "BOG" "MIA" "400" "" (pos 100) (pos 5)
      (omega arith) (omega arith)
