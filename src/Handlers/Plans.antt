-- ===== src/Handlers/Plans.antt =====
-- Payment plans, and the XML text of the instalments (edge/handlers.go, edge/xmlbuild.go).
pub mod Interest
use ndc_mock.Prelude.{
  ℕ, zero, suc, ◌+◌, ◌*◌, ◌%◌, Bool, true, false, ◌&&◌, Option, none, some, List, [], ◌∷◌, ◌++◌,
  map, String, ◌<>◌, if◌then◌else◌, ◌==◌, ◌!=◌, nat_eq, string_eq, leb, ◌>>=◌, length, get_elem?,
}
use ndc_mock.Prelude.Int.{ℤ, pos, pos_part, mul_int, quot_int}
use ndc_mock.Prelude.Text.{itoa, itoa_int}
use ndc_mock.Itinerary.{contains}
use ndc_mock.Tree.{Node, node, leaf, with_kids, kids}
use ndc_mock.Offer.{OfferInfo, build_pax, pax_ids, flight_legs, segment_id, segment_ids, or_default}
use ndc_mock.Airline.{Floats}
use ndc_mock.Order.{Service}
use ndc_mock.Http.{
  Token, Request, Response, Content, raw, Json, array, object, field, no_fields, Items, item,
  no_items, wants_json, failure, escape,
}
use ndc_mock.Build.{
  iata_ns, taxes_of, base_of, data_lists, offer, ndc_root, offer_json, price2, a_la_carte_item,
  service_definition, with_definitions,
}
use ndc_mock.Handlers.Ids.{ReqIds, scan_ids}
use ndc_mock.Handlers.Answers.{Env, info_from, offer_count_for, apply_delay, ok_json, respond_ndc}

-- One payment plan.
pub record Plan : Type 0 where
  pub count : ℕ
  pub currency : String
  pub each : ℤ
  pub total : ℤ
  pub interest : Bool

-- `build`: beyond six instalments a plan carries interest.
unfoldable pub plan_of : OfferInfo → ℕ → Plan
unfolding quot_int mul_int
plan_of i n =
    let beyond = leb 7 n in
    let total = if beyond then quot_int (mul_int i.amount (pos 108)) 100 else i.amount in
    record {
      count = n;
      currency = i.currency;
      each = quot_int total n;
      total = total;
      interest = beyond;
    }

abbrev pub plan_sizes : List ℕ
plan_sizes = 1 ∷ 3 ∷ 6 ∷ 9 ∷ 12 ∷ []

unfoldable pub plans_json : List Plan → Items
plans_json [] = no_items
plans_json (p ∷ ps) =
    item
      (object (
        field "count" (Json.nat p.count) (
          field "currency" (Json.text p.currency) (
            field "each" (Json.int p.each) (
              field "total" (Json.int p.total)
                (field "interest" (Json.bool p.interest) no_fields))))))
      (plans_json ps)

-- `el` and `eli`.
unfoldable pub el : String → String → String
unfolding escape
el s val = "<" <> (s <> (">" <> (escape val <> ("</" <> (s <> ">")))))

priced : String → String → ℤ → String
unfolding itoa_int
priced s cur v =
    "<" <> (s <> (" CurCode=\"" <> (cur <> ("\">" <> (itoa_int v <> ("</" <> (s <> ">")))))))

-- `priceBlock`
unfoldable pub price_block : String → ℤ → String
unfolding priced taxes_of base_of
price_block cur total =
    "<Price>"
    <> (priced "TotalAmount" cur total
        <> (priced "BaseAmount" cur (base_of total)
            <> ("<TaxSummary>"
                <> (priced "TotalTaxAmount" cur (taxes_of total) <> "</TaxSummary></Price>"))))

unfoldable pub plans_text : List Plan → String
unfolding el itoa price_block priced
plans_text [] = ""
plans_text (p ∷ ps) =
    "<PaymentPlan>"
    <> (el "InstallmentQty" (itoa p.count)
        <> (price_block p.currency p.total
            <> ("<InstallmentAmount>"
                <> (priced "TotalAmount" p.currency p.each
                    <> ("</InstallmentAmount>"
                        <> (el "InterestInd" (if p.interest then "true" else "false")
                            <> ("</PaymentPlan>" <> plans_text ps)))))))

-- `envelope`
unfoldable pub envelope : String → String → String
envelope root inner =
    "<?xml version=\"1.0\" encoding=\"UTF-8\"?>"
    <> ("<"
        <> (root
            <> (" xmlns=\""
                <> (iata_ns <> (root <> ("\">" <> (inner <> ("</" <> (root <> ">")))))))))
