-- ===== src/Template/Airports/Legs.antt =====
-- The legs that come out when the airports of a reference are replaced.
use ndc_mock.Prelude.{ℕ, zero, suc, ◌≡◌, ap, ◌∙◌, some, List, [], ◌∷◌, map, String, get_elem?}
use ndc_mock.Itinerary.{Leg, airports, pattern_of}
use ndc_mock.Itinerary.Numbering.{numbers, names, ends, names-numbers}
use ndc_mock.Itinerary.Shapes.{pattern_of_inj}
use ndc_mock.Query.{Query}
use ndc_mock.Template.Airports.{overlay, or_ends, airports_for}

get_elem?-overlay :
    (air want : List String) (i : ℕ) {a w : String}
    → get_elem? air i ≡ some a
    → get_elem? want i ≡ some w
    → get_elem? (overlay air want) i ≡ some w
unfolding overlay
get_elem?-overlay [] want i h k = cc
get_elem?-overlay (b ∷ air) [] i h k = cc
get_elem?-overlay (b ∷ air) (v ∷ want) zero h k = k
get_elem?-overlay (b ∷ air) (v ∷ want) (suc i) h k = get_elem?-overlay air want i h k

-- Pairs of positions that name one itinerary in the reference and another in the request.
names-overlay :
    (air want : List String) (q : Query) (ps : List (ℕ × ℕ)) (legs more : List Leg)
    → map (names air) ps ≡ map ends legs
    → map (names want) ps ≡ map ends more
    → map (names (overlay air (or_ends q want))) ps ≡ map ends more
unfolding or_ends
names-overlay air want q [] legs more h k = k
names-overlay air want q (p ∷ ps) [] more h k = cc
names-overlay air want q (p ∷ ps) (l ∷ legs) [] h k = cc
names-overlay air [] q ((i, j) ∷ ps) (l ∷ legs) (m ∷ more) h k = cc
names-overlay air (w ∷ want) q ((i, j) ∷ ps) (l ∷ legs) (m ∷ more) h k = cc (
  get_elem?-overlay air (w ∷ want) i {a = l.from} {w = m.from} (cc) (cc),
  get_elem?-overlay air (w ∷ want) j {a = l.to} {w = m.to} (cc) (cc),
  names-overlay air (w ∷ want) q ps legs more (cc) (cc),
)

-- For a request of the reference's shape, `airportsFor` gives the airports that put the request's
-- legs in the places of the reference's: the slots of the origin and the destination of each leg
-- are filled with those of the request's leg at the same place.
pub airports_for-legs :
    (legs : List Leg) (q : Query)
    → pattern_of legs ≡ pattern_of q.legs
    → map (names (airports_for (airports legs) q)) (numbers [] legs) ≡ map ends q.legs
unfolding airports_for
airports_for-legs legs q same =
    names-overlay (airports legs) (airports q.legs) q (numbers [] legs) legs q.legs
      (names-numbers legs)
      (ap (map (names (airports q.legs))) (pattern_of_inj legs q.legs same) ∙ names-numbers q.legs)
