-- ===== src/Handlers/Seats.antt =====
-- Seat maps and seat prices (`seatAvailability` of edge/handlers.go).
pub mod Prices
use ndc_mock.Prelude.{
  ℕ, zero, suc, ◌+◌, ◌*◌, ◌%◌, Bool, true, false, ◌&&◌, Option, none, some, List, [], ◌∷◌, ◌++◌,
  map, String, ◌<>◌, if◌then◌else◌, ◌==◌, ◌!=◌, nat_eq, string_eq, leb, ◌>>=◌, length, get_elem?,
}
use ndc_mock.Prelude.Int.{ℤ, pos, pos_part, mul_int, quot_int}
use ndc_mock.Prelude.Text.{itoa, itoa_int}
use ndc_mock.Itinerary.{contains}
use ndc_mock.Tree.{Node, node, leaf, with_kids, kids}
use ndc_mock.Offer.{OfferInfo, build_pax, pax_ids, flight_legs, segment_id, segment_ids, or_default}
use ndc_mock.Airline.{Floats}
use ndc_mock.Order.{Service}
use ndc_mock.Http.{
  Token, Request, Response, Content, raw, Json, array, object, field, no_fields, Items, item,
  no_items, wants_json, failure, escape,
}
use ndc_mock.Build.{
  iata_ns, taxes_of, base_of, data_lists, offer, ndc_root, offer_json, price2, a_la_carte_item,
  service_definition, with_definitions,
}
use ndc_mock.Handlers.Ids.{ReqIds, scan_ids}
use ndc_mock.Offer.{first_segment}
use ndc_mock.Handlers.Answers.{Env, info_from, offer_count_for, apply_delay, ok_json, respond_ndc}

-- `seatPrice`: front rows are dearer.
unfoldable pub seat_price : OfferInfo → ℕ → ℤ
unfolding quot_int mul_int
seat_price i row =
    let base = quot_int i.amount 40 in
    if leb row 4 then mul_int base (pos 3) else if leb row 10 then mul_int base (pos 2) else base

unfoldable pub occupied : Bool → String
occupied v = if v then "O" else "F"

abbrev pub columns : List String
columns = "A" ∷ "B" ∷ "C" ∷ "D" ∷ "E" ∷ "F" ∷ []

-- The tier of a row, which names the item that prices it.
unfoldable pub tier : OfferInfo → ℕ → String
unfolding seat_price itoa_int
tier i row = "SEAT_" <> itoa_int (seat_price i row)

-- The seats of a row; `c` is the index of the column.
seats_json : OfferInfo → ℕ → ℕ → List String → Items → Items
unfolding seat_price
seats_json i row c [] more = more
seats_json i row c (s ∷ ss) more =
    item
      (object (
        field "row" (Json.nat row) (
          field "column" (Json.text s) (
            field "available" (Json.bool ((row + c) % 4 != 0)) (
              field "currency" (Json.text i.currency)
                (field "amount" (Json.int (seat_price i row)) no_fields))))))
      (seats_json i row (suc c) ss more)

unfoldable pub rows_json : OfferInfo → ℕ → ℕ → Items
unfolding seats_json
rows_json i row zero = no_items
rows_json i row (suc n) = seats_json i row 0 columns (rows_json i (suc row) n)

seat_nodes : OfferInfo → ℕ → ℕ → List String → List Node
unfolding occupied tier
seat_nodes i row c [] = []
seat_nodes i row c (s ∷ ss) =
    node "Seat" (
      leaf "ColumnID" s
      ∷ leaf "OccupationStatusCode" (occupied ((row + c) % 4 == 0))
      ∷ leaf "OfferItemRefID" (tier i row)
      ∷ [])
    ∷ seat_nodes i row (suc c) ss

seat_rows : OfferInfo → ℕ → ℕ → List Node
unfolding seat_nodes itoa
seat_rows i row zero = []
seat_rows i row (suc n) =
    node "SeatRow" (leaf "RowNumber" (itoa row) ∷ seat_nodes i row 0 columns)
    ∷ seat_rows i (suc row) n

-- The items of the tiers, each where its first row is.
tier_items : OfferInfo → String → List String → ℕ → ℕ → List Node
unfolding tier contains a_la_carte_item price2 seat_price pax_ids
tier_items i seg priced row zero = []
tier_items i seg priced row (suc n) =
    let id = tier i row in
    let again = contains priced id in
    let rest = tier_items i seg (if again then priced else id ∷ priced) (suc row) n in
    if again
    then rest
    else a_la_carte_item id "SD_SEAT" id (pax_ids i) (seg ∷ [])
        (price2 "UnitPrice" i.currency (seat_price i row))
      ∷ rest

unfoldable pub seat_map : OfferInfo → ℕ → Node
unfolding first_segment segment_ids tier_items seat_rows itoa data_lists build_pax with_definitions
    service_definition ndc_root
seat_map i rows =
    let seg = first_segment (segment_ids i) in
    let cabin = node "CabinCompartment" (
      node "CabinType" (leaf "CabinTypeCode" "Y" ∷ [])
      ∷ (map (leaf "ColumnID") columns
          ++ (leaf "FirstRowNumber" "1"
              ∷ leaf "LastRowNumber" (itoa rows)
              ∷ seat_rows i 1 rows))) in
    ndc_root "IATA_SeatAvailabilityRS" (
      node "Response" (
        node "ALaCarteOffer" (
          tier_items i seg [] 1 rows
          ++ (leaf "OfferID" ("SEATS_" <> seg) ∷ leaf "OwnerCode" i.carrier ∷ []))
        ∷ with_definitions (data_lists i (build_pax i))
            (service_definition "SD_SEAT" "SEAT" "Seat selection" i.carrier ∷ [])
        ∷ node "SeatMap" (cabin ∷ leaf "PaxSegmentRefID" seg ∷ [])
        ∷ [])
      ∷ [])
