-- ===== src/Template/Render.antt =====
-- `render`: a response with `n` offers, for the request and the carrier. `none` is a panic.
pub mod Schedule
use ndc_mock.Prelude.{
  ℕ, zero, suc, ◌+◌, ◌-◌, ◌/◌, ◌%◌, Bool, true, false, Option, none, some, List, [], ◌∷◌, ◌++◌, map,
  String, ◌<>◌, if◌then◌else◌, ◌>>=◌, ltb, length, get_elem?,
}
use ndc_mock.Prelude.Int.{ℤ, pos, negsuc}
use ndc_mock.Query.{Query, pax_seg}
use ndc_mock.Airline.{Floats, Airline}
use ndc_mock.Offer.Ident.{Base64, OfferId}
use ndc_mock.Offer.Render.{render_id}
use ndc_mock.Template.Chunk.{Chunk}
use ndc_mock.Template.Airports.{airports_for}
use ndc_mock.Template.Dates.{shift_dates}
use ndc_mock.Template.Build.{Template, RefValues}

-- `NaturalOffers`
unfoldable pub natural_offers : Template → ℕ
natural_offers t = length t.blocks

-- The texts and values of a chunk in turn.
unfoldable pub emit_parts : (ℕ → Option String) → List String → List ℕ → Option String
emit_parts value [] slots = some ""
emit_parts value (p ∷ parts) [] = do rest ← emit_parts value parts []; some (p <> rest)
emit_parts value (p ∷ parts) (s ∷ slots) = do
  v ← value s
  rest ← emit_parts value parts slots
  some (p <> (v <> rest))

unfoldable pub emit : (ℕ → Option String) → Chunk → Option String
unfolding emit_parts
emit value c = emit_parts value c.parts c.slots

-- The loop over the offers from the `i`-th on, `m` of them: the blocks are taken in turn.
unfoldable pub schedule : List Chunk → ℕ → ℕ → Option (List (Chunk × ℕ))
schedule blocks i zero = some []
schedule blocks i (suc m) = do
  b ← get_elem? blocks (i % length blocks)
  rest ← schedule blocks (suc i) m
  some ((b, i / length blocks) ∷ rest)

unfoldable pub emit_all : (ℕ → ℕ → Option String) → List (Chunk × ℕ) → Option String
unfolding emit
emit_all value [] = some ""
emit_all value ((b, cycle) ∷ rounds) = do
  s ← emit (value cycle) b
  rest ← emit_all value rounds
  some (s <> rest)

pairs : List String → List String → List (String × String)
pairs (a ∷ as') (b ∷ bs) = (a, b) ∷ pairs as' bs
pairs _ _ = []

-- How many offers are asked for; none or fewer are the reference's own.
unfoldable pub or_natural : ℤ → Template → ℕ
unfolding natural_offers
or_natural (pos zero) t = natural_offers t
or_natural (pos (suc n)) t = suc n
or_natural (negsuc n) t = natural_offers t

module _ {F : Floats} (b64 : Base64) (parse : String → Option ℤ) (format : ℤ → String)
    (replace : List (String × String) → String → String) where
  -- The value of a slot: an airport or a date, or else an identifier.
  unfoldable pub slot_value :
      Template → List String → (String → String) → Option (Airline F) → ℕ → ℕ → Option String
  unfolding render_id
  slot_value t vals rep air cycle s = if ltb s (length vals) then get_elem? vals s else (do
    o ← get_elem? t.offers (s - length vals)
    some (render_id b64 rep t.ref.carrier air cycle o))

  unfoldable pub render_with :
      Template → List String → (String → String) → Option (Airline F) → ℕ → Option String
  unfolding slot_value emit emit_all schedule
  render_with t vals rep air n = do
    pre ← emit (slot_value t vals rep air 0) t.prefix
    rounds ← schedule t.blocks 0 n
    middle ← emit_all (slot_value t vals rep air) rounds
    suf ← emit (slot_value t vals rep air 0) t.suffix
    some (pre <> (middle <> suf))

  unfoldable pub render : Template → Query → ℤ → Option (Airline F) → Option String
  unfolding shift_dates airports_for pairs pax_seg render_with or_natural
  render t q n air =
      let dates = shift_dates parse format t.dates t.ref.leg_dates q in
      let airs = airports_for t.airports q in
      let reps = pairs t.airports airs ++ ((t.ref.pax, pax_seg q) ∷ pairs t.dates dates) in
      render_with t (airs ++ dates) (replace reps) air (or_natural n t)
