-- ===== src/Template/Airports.antt =====
-- `airportsFor`: the reference airports on to the request's, position by position.
pub mod Legs
use ndc_mock.Prelude.{List, [], ◌∷◌, String}
use ndc_mock.Itinerary.{airports}
use ndc_mock.Query.{Query}

-- The loop: what the request has at a position, and the reference airport beyond its end.
unfoldable pub overlay : List String → List String → List String
overlay [] want = []
overlay (a ∷ air) [] = a ∷ overlay air []
overlay (a ∷ air) (w ∷ want) = w ∷ overlay air want

unfoldable pub or_ends : Query → List String → List String
or_ends q [] = q.origin ∷ q.dest ∷ []
or_ends q (w ∷ want) = w ∷ want

unfoldable pub airports_for : List String → Query → List String
unfolding overlay or_ends airports
airports_for air q = overlay air (or_ends q (airports q.legs))
