-- ===== src/Handlers/Shop.antt =====
-- The messages that need no order: OfferPrice, ServiceList, SeatAvailability and the instalments.
-- They leave the store alone, so that a handler is a function of the request; `none` means that a
-- translation does not end, or a panic.
use ndc_mock.Prelude.{
  ℕ, Bool, ◌*◌, false, ◌&&◌, Option, none, some, List, [], ◌∷◌, map, ◌<>◌, if◌then◌else◌, ◌==◌,
  nat_eq, string_eq, ◌>>=◌, length,
}
use ndc_mock.Prelude.Int.{ℤ, pos, pos_part, leb_ℤ, mul_int}
use ndc_mock.Tree.{node}
use ndc_mock.Offer.{build_pax, or_default}
use ndc_mock.Airline.{Floats}
use ndc_mock.Http.{
  Token, Request, Response, raw, Json, array, object, field, no_fields, wants_json, failure,
}
use ndc_mock.Build.{data_lists, offer, ndc_root, offer_json}
use ndc_mock.Handlers.Ids.{scan_ids}
use ndc_mock.Handlers.Answers.{Env, info_from, offer_count_for, apply_delay, ok_json, respond_ndc}
use ndc_mock.Handlers.Services.{synth_services, services_json, service_list_body}
use ndc_mock.Handlers.Seats.{columns, rows_json, seat_map}
use ndc_mock.Handlers.Plans.{plan_of, plan_sizes, plans_json, plans_text, envelope}

module _ {F : Floats} (E : Env F) where
  unread : Request → Option Response
  unfolding failure
  unread r = some (failure E.lower r 400 "could not read request body")

  price_in : Request → Option (List Token) → Option Response
  unfolding unread failure scan_ids info_from wants_json apply_delay offer_json respond_ndc ndc_root
      data_lists build_pax offer
  price_in r none = unread r
  price_in r (some body) =
      let ids = scan_ids body in
      let i = info_from E r ids in
      let id = or_default ids.offer_id ids.offer_item_id in
      if ids.offer_id == "" && ids.offer_item_id == ""
      then some (failure E.lower r 400 "request carries no OfferID or OfferItemID")
      else if wants_json E.lower r
      then some (
          ok_json E 200 (apply_delay E r) (
            object (
              field "pricedOffer" (offer_json id i)
                (field "repriced" (Json.bool false) no_fields))))
      else respond_ndc E r 200 (apply_delay E r) (
          ndc_root "IATA_OfferPriceRS" (
            node "Response" (
              data_lists i (build_pax i)
              ∷ offer "PricedOffer" id (or_default ids.offer_item_id "ITEM_1") i
              ∷ [])
            ∷ []))

  unfoldable pub offer_price : Request → Option Response
  unfolding price_in
  offer_price r = price_in r r.body

  services_in : Request → Option (List Token) → Option Response
  unfolding unread scan_ids info_from offer_count_for synth_services wants_json apply_delay
      services_json respond_ndc service_list_body
  services_in r none = unread r
  services_in r (some body) = do
    let i = info_from E r (scan_ids body)
    svcs ← synth_services E.services_cap i (pos_part (offer_count_for E r (pos 12)))
    if wants_json E.lower r
        then some (
            ok_json E 200 (apply_delay E r) (
              object (
                field "services" (array (services_json svcs))
                  (field "count" (Json.nat (length svcs)) no_fields))))
        else respond_ndc E r 200 (apply_delay E r) (service_list_body i svcs)

  unfoldable pub service_list : Request → Option Response
  unfolding services_in
  service_list r = services_in r r.body

  -- Whether `make` takes a capacity, of which `most` is the greatest.
  abbrev allocates : ℕ → ℤ → Bool
  allocates most n = leb_ℤ (pos 0) n && leb_ℤ n (pos most)

  seats_in : Request → Option (List Token) → Option Response
  unfolding unread scan_ids info_from offer_count_for wants_json apply_delay rows_json respond_ndc
      seat_map
  seats_in r none = unread r
  seats_in r (some body) =
      let i = info_from E r (scan_ids body) in
      let rows = pos_part (offer_count_for E r (pos 30)) in
      if wants_json E.lower r
      then (if allocates E.seats_cap (mul_int (pos rows) (pos (length columns)))
          then some (
              ok_json E 200 (apply_delay E r) (
                object (
                  field "cabin" (Json.text "Y") (
                    field "seats" (array (rows_json i 1 rows))
                      (field "count" (Json.nat (rows * length columns)) no_fields)))))
          else none)
      else respond_ndc E r 200 (apply_delay E r) (seat_map i rows)

  unfoldable pub seat_availability : Request → Option Response
  unfolding seats_in
  seat_availability r = seats_in r r.body

  plans_in : Request → Option (List Token) → Option Response
  unfolding unread scan_ids info_from plan_of wants_json apply_delay plans_json plans_text envelope
  plans_in r none = unread r
  plans_in r (some body) =
      let plans = map (plan_of (info_from E r (scan_ids body))) plan_sizes in
      if wants_json E.lower r
      then some (
          ok_json E 200 (apply_delay E r)
            (object (field "options" (array (plans_json plans)) no_fields)))
      else some (record {
        status = 200;
        headers = [];
        content = raw (
            envelope "IATA_OrderRulesRS" (
              "<Response><PaymentPlanList>"
              <> (plans_text plans <> "</PaymentPlanList></Response>")));
        slept = apply_delay E r;
      })

  unfoldable pub installments : Request → Option Response
  unfolding plans_in
  installments r = plans_in r r.body
