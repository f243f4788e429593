-- ===== src/Handlers/Services.antt =====
-- The ancillaries (`synthServices` and `serviceList` of edge/handlers.go).
pub mod Laws
use ndc_mock.Prelude.{
  ℕ, zero, suc, ◌+◌, ◌*◌, ◌%◌, Bool, true, false, ◌&&◌, Option, none, some, List, [], ◌∷◌, ◌++◌,
  map, String, ◌<>◌, if◌then◌else◌, ◌==◌, ◌!=◌, nat_eq, string_eq, leb, ◌>>=◌, length, get_elem?,
}
use ndc_mock.Prelude.Int.{ℤ, pos, pos_part, mul_int, quot_int}
use ndc_mock.Prelude.Text.{itoa, itoa_int}
use ndc_mock.Itinerary.{contains}
use ndc_mock.Tree.{Node, node, leaf, with_kids, kids}
use ndc_mock.Offer.{OfferInfo, build_pax, pax_ids, flight_legs, segment_id, segment_ids, or_default}
use ndc_mock.Airline.{Floats}
use ndc_mock.Order.{Service}
use ndc_mock.Http.{
  Token, Request, Response, Content, raw, Json, array, object, field, no_fields, Items, item,
  no_items, wants_json, failure, escape,
}
use ndc_mock.Build.{
  iata_ns, taxes_of, base_of, data_lists, offer, ndc_root, offer_json, price2, a_la_carte_item,
  service_definition, with_definitions,
}
use ndc_mock.Handlers.Ids.{ReqIds, scan_ids}
use ndc_mock.Offer.{first_segment}
use ndc_mock.Handlers.Answers.{Env, info_from, offer_count_for, apply_delay, ok_json, respond_ndc}

-- `catalog`, by its index.
catalog : ℕ → String × String
catalog zero = ("BAG", "Checked bag")
catalog (suc zero) = ("SEAT", "Seat selection")
catalog (suc (suc zero)) = ("MEAL", "Meal")
catalog (suc (suc (suc zero))) = ("WIFI", "Wi-Fi")
catalog (suc (suc (suc (suc zero)))) = ("LNGE", "Lounge access")
catalog (suc (suc (suc (suc (suc zero))))) = ("PETC", "Pet in cabin")
catalog (suc (suc (suc (suc (suc (suc zero)))))) = ("SPEQ", "Sports equipment")
catalog _ = ("PRIO", "Priority boarding")

-- The ancillary of number `k` for a passenger.
unfoldable pub ancillary : OfferInfo → ℕ → String → Service
unfolding catalog itoa quot_int mul_int
ancillary i k pax =
    let (code, s) = catalog (k % 8) in
    record {
      id = "SVC_" <> (code <> ("_" <> itoa (suc k)));
      code = code;
      name = s;
      pax_id = pax;
      currency = i.currency;
      amount = mul_int (quot_int i.amount 20) (pos (1 + k % 3));
    }

-- `ids[k%len(ids)]`, which panics if there are none.
unfoldable pub pax_at : List String → ℕ → Option String
pax_at [] k = none
pax_at (p ∷ ps) k = get_elem? (p ∷ ps) (k % length (p ∷ ps))

-- The loop of `synthServices`, from `k` on, `n` rounds.
unfoldable pub services_from : OfferInfo → ℕ → ℕ → Option (List Service)
unfolding pax_at ancillary pax_ids
services_from i k zero = some []
services_from i k (suc n) = do
  p ← pax_at (pax_ids i) k
  rest ← services_from i (suc k) n
  some (ancillary i k p ∷ rest)

-- `most` is the greatest capacity of services that `make` accepts; above it, it panics.
unfoldable pub synth_services : ℕ → OfferInfo → ℕ → Option (List Service)
unfolding services_from
synth_services most i n = if leb n most then services_from i 0 n else none

service_json : Service → Json
service_json s = object (
    field "ID" (Json.text s.id) (
      field "Code" (Json.text s.code) (
        field "Name" (Json.text s.name) (
          field "PaxID" (Json.text s.pax_id) (
            field "Currency" (Json.text s.currency)
              (field "Amount" (Json.int s.amount) no_fields))))))

unfoldable pub services_json : List Service → Items
unfolding service_json
services_json [] = no_items
services_json (s ∷ ss) = item (service_json s) (services_json ss)

-- The loop over the services: a definition for each code that was not seen.
definitions : String → List String → List Service → List Node
unfolding contains service_definition
definitions owner seen [] = []
definitions owner seen (s ∷ ss) =
    let id = "SD_" <> s.code in
    let again = contains seen id in
    let rest = definitions owner (if again then seen else id ∷ seen) ss in
    if again then rest else service_definition id s.code s.name owner ∷ rest

service_item : OfferInfo → Service → Node
unfolding a_la_carte_item segment_ids price2
service_item i s =
    a_la_carte_item s.id ("SD_" <> s.code) s.id (s.pax_id ∷ []) (segment_ids i)
      (price2 "UnitPrice" s.currency s.amount)

unfoldable pub service_list_body : OfferInfo → List Service → Node
unfolding service_item definitions first_segment segment_ids data_lists build_pax with_definitions
    ndc_root
service_list_body i svcs = ndc_root "IATA_ServiceListRS" (
    node "Response" (
      node "ALaCarteOffer" (
        map (service_item i) svcs
        ++ (leaf "OfferID" ("ALC_" <> first_segment (segment_ids i))
            ∷ leaf "OwnerCode" i.carrier
            ∷ []))
      ∷ with_definitions (data_lists i (build_pax i)) (definitions i.carrier [] svcs)
      ∷ [])
    ∷ [])
