-- ===== src/Build.antt =====
-- The 19.2 documents that the handlers build as trees (edge/xmlbuild.go), and the JSON projection
-- of an offer (edge/format.go).
use ndc_mock.Prelude.{ℕ, suc, List, [], ◌∷◌, ◌++◌, map, String, ◌<>◌}
use ndc_mock.Prelude.Int.{ℤ, pos, sub_int, mul_int, quot_int}
use ndc_mock.Prelude.Text.{itoa, itoa_int}
use ndc_mock.Tree.{Node, node, leaf, with_attrs, kids, with_kids}
use ndc_mock.Offer.{OfferInfo, Passenger, FlightLeg, flight_legs, pax_ids, segment_id}
use ndc_mock.Order.{Order, Service, total, status_code}
use ndc_mock.Http.{Json, Items, object, array, field, no_fields, item, no_items}

abbrev pub iata_ns : String
iata_ns = "http://www.iata.org/IATA/2015/00/2019.2/"

-- `total * 18 / 100`
unfoldable pub taxes_of : ℤ → ℤ
unfolding mul_int quot_int
taxes_of total = quot_int (mul_int total (pos 18)) 100

unfoldable pub base_of : ℤ → ℤ
unfolding taxes_of sub_int
base_of total = sub_int total (taxes_of total)

unfoldable pub amount : String → String → ℤ → Node
unfolding itoa_int
amount s cur v =
    with_attrs (record { space = ""; local = "CurCode"; value = cur } ∷ []) (leaf s (itoa_int v))

unfoldable pub ndc_root : String → List Node → Node
ndc_root message ks =
    with_attrs (record { space = ""; local = "xmlns"; value = iata_ns <> message } ∷ [])
      (node message ks)

-- PriceType: total, base and the tax on top.
unfoldable pub price : String → String → ℤ → Node
unfolding amount base_of
price s cur total = node s (
    amount "BaseAmount" cur (base_of total)
    ∷ node "TaxSummary" (amount "TotalTaxAmount" cur (taxes_of total) ∷ [])
    ∷ amount "TotalAmount" cur total
    ∷ [])

-- Price2Type, which carries no tax breakdown.
unfoldable pub price2 : String → String → ℤ → Node
unfolding amount base_of
price2 s cur total =
    node s (amount "BaseAmount" cur (base_of total) ∷ amount "TotalAmount" cur total ∷ [])

unfoldable pub journey_id : ℕ → String
unfolding itoa
journey_id n = "PJ_" <> itoa (suc n)

pax_node : Passenger → Node
pax_node p = node "Pax" (
    node "Individual"
      (leaf "Birthdate" p.birthdate ∷ leaf "GivenName" p.given ∷ leaf "Surname" p.surname ∷ [])
    ∷ leaf "PaxID" p.id
    ∷ leaf "PTC" p.ptc
    ∷ [])

segment_node : String → FlightLeg → Node
unfolding segment_id
segment_node carrier l = node "PaxSegment" (
    node "Arrival" (leaf "AircraftScheduledDateTime" l.arr ∷ leaf "IATA_LocationCode" l.to ∷ [])
    ∷ node "Dep" (leaf "AircraftScheduledDateTime" l.dep ∷ leaf "IATA_LocationCode" l.from ∷ [])
    ∷ node "MarketingCarrierInfo"
        (leaf "CarrierDesigCode" carrier ∷ leaf "MarketingCarrierFlightNumberText" l.flight ∷ [])
    ∷ node "OperatingCarrierInfo" (leaf "CarrierDesigCode" carrier ∷ [])
    ∷ leaf "PaxSegmentID" (segment_id l)
    ∷ [])

-- The loops over the flights; `n` counts the flights before.
journeys : ℕ → List FlightLeg → List Node
unfolding journey_id segment_id
journeys n [] = []
journeys n (l ∷ ls) =
    node "PaxJourney"
      (leaf "PaxJourneyID" (journey_id n) ∷ leaf "PaxSegmentRefID" (segment_id l) ∷ [])
    ∷ journeys (suc n) ls

origin_dests : ℕ → List FlightLeg → List Node
unfolding journey_id itoa
origin_dests n [] = []
origin_dests n (l ∷ ls) =
    node "OriginDest" (
      leaf "DestCode" l.to
      ∷ leaf "OriginCode" l.from
      ∷ leaf "OriginDestID" ("OD_" <> itoa (suc n))
      ∷ leaf "PaxJourneyRefID" (journey_id n)
      ∷ [])
    ∷ origin_dests (suc n) ls

-- The passengers and one journey for each direction.
unfoldable pub data_lists : OfferInfo → List Passenger → Node
unfolding pax_node segment_node journeys origin_dests flight_legs
data_lists i pax =
    let ls = flight_legs i in
    node "DataLists" (
      node "OriginDestList" (origin_dests 0 ls)
      ∷ node "PaxJourneyList" (journeys 0 ls)
      ∷ node "PaxList" (map pax_node pax)
      ∷ node "PaxSegmentList" (map (segment_node i.carrier) ls)
      ∷ [])

journey_refs : ℕ → List FlightLeg → List Node
unfolding journey_id
journey_refs n [] = []
journey_refs n (l ∷ ls) = leaf "PaxJourneyRefID" (journey_id n) ∷ journey_refs (suc n) ls

-- The flight itself as a service: every passenger, with every journey of the trip.
unfoldable pub flight_service : OfferInfo → String → Node
unfolding journey_refs flight_legs pax_ids
flight_service i id = node "Service" (
    map (leaf "PaxRefID") (pax_ids i)
    ++ (node "ServiceAssociations" (journey_refs 0 (flight_legs i)) ∷ leaf "ServiceID" id ∷ []))

unfoldable pub offer : String → String → String → OfferInfo → Node
unfolding price price2 flight_service
offer s offer_id item_id i = node s (
    leaf "OfferID" offer_id
    ∷ node "OfferItem" (
        leaf "OfferItemID" item_id
        ∷ price2 "Price" i.currency i.amount
        ∷ flight_service i "SVC_1"
        ∷ [])
    ∷ leaf "OwnerCode" i.carrier
    ∷ price "TotalPrice" i.currency i.amount
    ∷ [])

unfoldable pub reshop_offer : String → String → OfferInfo → Node
unfolding price flight_service
reshop_offer offer_id item_id i = node "Offer" (
    node "AddOfferItem" (
      leaf "OfferItemID" item_id
      ∷ node "ReshopPrice" (node "AddPrice" (price "Price" i.currency i.amount ∷ []) ∷ [])
      ∷ flight_service i "SVC_1"
      ∷ [])
    ∷ leaf "OfferID" offer_id
    ∷ leaf "OwnerCode" i.carrier
    ∷ price "TotalPrice" i.currency i.amount
    ∷ [])

services_of : String → String → List FlightLeg → List Node
unfolding segment_id
services_of prefix p [] = []
services_of prefix p (l ∷ ls) =
    node "Service" (
      leaf "PaxRefID" p
      ∷ node "ServiceAssociations" (leaf "PaxSegmentRefID" (segment_id l) ∷ [])
      ∷ leaf "ServiceID" (prefix <> (p <> ("_" <> (l.from <> l.to))))
      ∷ [])
    ∷ services_of prefix p ls

services_loop : String → List String → List FlightLeg → List Node
unfolding services_of
services_loop prefix [] ls = []
services_loop prefix (p ∷ ps) ls = services_of prefix p ls ++ services_loop prefix ps ls

-- In an order each service is one passenger on one segment.
unfoldable pub order_services : OfferInfo → String → List Node
unfolding services_loop flight_legs pax_ids
order_services i prefix = services_loop prefix (pax_ids i) (flight_legs i)

-- An ancillary offered on its own.
unfoldable pub a_la_carte_item : String → String → String → List String → List String → Node → Node
a_la_carte_item item_id def_id svc_id pax segs unit = node "ALaCarteOfferItem" (
    node "Eligibility"
      (node "FlightAssociations" (map (leaf "PaxSegmentRefID") segs) ∷ map (leaf "PaxRefID") pax)
    ∷ leaf "OfferItemID" item_id
    ∷ node "Service" (leaf "ServiceDefinitionRefID" def_id ∷ leaf "ServiceID" svc_id ∷ [])
    ∷ unit
    ∷ [])

unfoldable pub service_definition : String → String → String → String → Node
service_definition id code s owner = node "ServiceDefinition" (
    node "Desc" (leaf "DescText" s ∷ [])
    ∷ leaf "Name" s
    ∷ leaf "OwnerCode" owner
    ∷ leaf "ServiceCode" code
    ∷ leaf "ServiceDefinitionID" id
    ∷ [])

unfoldable pub with_definitions : Node → List Node → Node
with_definitions dl [] = dl
with_definitions dl (d ∷ defs) =
    with_kids (kids dl ++ (node "ServiceDefinitionList" (d ∷ defs) ∷ [])) dl

-- One order item: the flight, or a service that was added.
order_item : OfferInfo → String → String → ℤ → String → Node
unfolding price order_services
order_item i id cur v prefix = node "OrderItem" (
    leaf "OrderItemID" id
    ∷ leaf "OwnerCode" i.carrier
    ∷ price "Price" cur v
    ∷ order_services i prefix)

service_items : Order → ℕ → List Service → List Node
unfolding order_item itoa
service_items o n [] = []
service_items o n (s ∷ ss) =
    order_item o.info (o.id <> ("-SVC-" <> itoa (suc n))) s.currency s.amount (s.id <> "_")
    ∷ service_items o (suc n) ss

unfoldable pub order_node : Order → Node
unfolding order_item service_items price total status_code
order_node o = node "Order" (
    (leaf "OrderID" o.id
      ∷ order_item o.info (o.id <> "-ITEM-1") o.info.currency o.info.amount "SVC_"
      ∷ service_items o 0 o.services)
    ++ (leaf "OwnerCode" o.info.carrier
        ∷ leaf "StatusCode" (status_code o.status)
        ∷ price "TotalPrice" o.info.currency (total o)
        ∷ []))

-- The JSON projection of an offer; a field that `omitempty` drops is the number 0.
segments_json : String → List FlightLeg → Items
segments_json carrier [] = no_items
segments_json carrier (l ∷ ls) =
    item
      (object (
        field "origin" (Json.text l.from) (
          field "destination" (Json.text l.to) (
            field "carrier" (Json.text carrier) (
              field "flightNumber" (Json.text l.flight) (
                field "departure" (Json.text l.dep)
                  (field "arrival" (Json.text l.arr) no_fields)))))))
      (segments_json carrier ls)

unfoldable pub offer_json : String → OfferInfo → Json
unfolding base_of segments_json flight_legs
offer_json id i = object (
    field "offerId" (Json.text id) (
      field "price"
        (object (
          field "currency" (Json.text i.currency) (
            field "total" (Json.int i.amount) (
              field "base" (Json.int (base_of i.amount))
                (field "taxes" (Json.int (taxes_of i.amount)) no_fields)))))
        (field "segments" (array (segments_json i.carrier (flight_legs i))) (
          field "passengers"
            (object (
              field "adt" (Json.nat i.adt)
                (field "chd" (Json.nat i.chd) (field "inf" (Json.nat i.inf) no_fields))))
            (field "roundTrip" (Json.bool i.round_trip) no_fields)))))
