-- ===== src/Handlers/Answers.antt =====
-- What every handler needs of the server around it, and how it answers: the trip of a request, the
-- limits, and the document in the generation that the URL asks for.
use ndc_mock.Prelude.{
  ℕ, Option, none, some, List, [], ◌∷◌, String, ◌<>◌, if◌then◌else◌, ◌==◌, string_eq, ◌>>=◌,
}
use ndc_mock.Prelude.Int.{ℤ, pos, ltb_ℤ}
use ndc_mock.Prelude.Text.{Atoi, num, bad, range, atoi}
use ndc_mock.Tree.{Node, node}
use ndc_mock.Translate.Mapping.{Map, lookup, Mapping, MappingSet, find_mapping, usable}
use ndc_mock.Translate.Steps.{sort_below_root, rewrite}
use ndc_mock.Config.{Config, Latency, parse_delay, sample, op_delay, clamp_offers, clamp_delay}
use ndc_mock.Offer.{OfferInfo}
use ndc_mock.Offer.Ident.{Base64, describe}
use ndc_mock.Airline.{Floats, Airline, convert, get}
use ndc_mock.Order.{Order, total}
use ndc_mock.Http.{
  Request, Response, json, xml, Json, int, array, object, field, no_fields, Items, item, no_items,
  wants_json, failure, version_of, op_of,
}
use ndc_mock.Build.{data_lists, order_node, ndc_root, offer_json}
use ndc_mock.Handlers.Ids.{ReqIds}

-- How a replay against another replica ends.
pub data Reply : Type 0 where
  not_sent : Reply
  unreachable : Reply
  answered : Response → Reply

-- The flags and the loaded files, and what is not the program's: durations, the random draw, the
-- case of texts, base64, the resolver, the HTTP client, and the greatest capacities that the
-- runtime's `make` accepts for slices of offers, ancillaries and seats: above them it panics.
pub record Env (F : Floats) : Type 0 where
  pub config : Config
  pub routes : Map String
  pub airlines : Map (Airline F)
  pub versions : Map String
  pub mappings : MappingSet
  pub advertise : String
  pub peers : String
  pub max_offers : ℤ
  pub max_delay : ℤ
  pub duration : String → Option ℤ
  pub draw : Latency → ℤ
  pub lower : String → String
  pub upper : String → String
  pub b64 : Base64
  pub url64 : String → String
  pub from_url64 : String → Option String
  pub host_of : String → Option String
  pub hosts : String → Option (List String)
  pub exchange : String → Request → Reply
  pub offers_cap : ℕ
  pub services_cap : ℕ
  pub seats_cap : ℕ

module _ {F : Floats} (E : Env F) where
  -- The carrier of the request's profile, with the fare converted.
  unfoldable pub as_carrier : OfferInfo → Option (Airline F) → OfferInfo
  unfolding convert
  as_carrier i none = i
  as_carrier i (some a) =
      let (cur, v) = convert F a i.currency i.amount in
      record i { carrier = a.code; currency = cur; amount = v }

  -- `infoFrom`
  unfoldable pub info_from : Request → ReqIds → OfferInfo
  unfolding describe as_carrier get
  info_from r ids =
      let id = if ids.offer_item_id == "" then ids.offer_id else ids.offer_item_id in
      as_carrier (describe E.b64 id) (get F E.upper E.airlines (r.header "X-Mock-Airline"))

  asked_for : Atoi → ℤ → ℤ
  unfolding clamp_offers
  asked_for (num n) def = if ltb_ℤ (pos 0) n then clamp_offers n E.max_offers else def
  asked_for bad def = def
  asked_for (range n) def = def

  -- `offerCountFor`
  unfoldable pub offer_count_for : Request → ℤ → ℤ
  unfolding asked_for atoi
  offer_count_for r def = asked_for (atoi (r.header "X-Mock-Offers")) def

  -- The latency of the header, if it is one and it is positive, or else the operation's.
  delay_for : ℤ → Option Latency → ℤ
  unfolding sample
  delay_for d none = d
  delay_for d (some h) = if ltb_ℤ (pos 0) h.p50 then sample E.duration E.draw h else d

  -- `applyDelay`: how long it sleeps.
  unfoldable pub apply_delay : Request → ℤ
  unfolding op_delay op_of delay_for parse_delay clamp_delay
  apply_delay r =
      let d =
        delay_for (op_delay E.duration E.draw E.routes E.config (op_of r.path))
          (parse_delay E.duration E.draw (r.header "X-Mock-Delay")) in
      if ltb_ℤ (pos 0) d then clamp_delay d E.max_delay else pos 0

  abbrev pub ok_json : ℕ → ℤ → Json → Response
  ok_json status slept j = record { status = status; headers = []; content = json j; slept = slept }

  abbrev pub ok_xml : ℕ → ℤ → List (String × String) → Node → Response
  ok_xml status slept headers n = record {
    status = status;
    headers = headers;
    content = xml n;
    slept = slept;
  }

  unfoldable pub translated : Request → ℕ → ℤ → Node → String → Option Mapping → Option Response
  unfolding failure usable rewrite
  translated r status slept root to none =
      some (record (failure E.lower r 501 ("no translation mapping from 19.2 to " <> to)) {
        slept = slept;
      })
  translated r status slept root to (some m) =
      if usable (some m)
      then (do
        n ← rewrite E.lower E.upper m root
        some (ok_xml status slept (("X-Mock-Translated", m.from <> ("->" <> m.to)) ∷ []) n))
      else some (record (failure E.lower r 501 ("no translation mapping from 19.2 to " <> to)) {
        slept = slept;
      })

  in_version : Request → ℕ → ℤ → Node → Option String → Option Response
  unfolding sort_below_root translated find_mapping
  in_version r status slept root none = do
    n ← sort_below_root E.lower E.upper root
    some (ok_xml status slept [] n)
  in_version r status slept root (some v) =
      if v == "19.2"
      then (do n ← sort_below_root E.lower E.upper root; some (ok_xml status slept [] n))
      else translated r status slept root v (find_mapping E.mappings "19.2" v)

  -- The generation that the URL asks for; `none` is a version that is not declared.
  unfoldable pub generation : Request → Option String
  unfolding lookup version_of
  generation r = lookup E.versions (version_of r.path)

  -- `respondNDC`. `none`: the translation does not end.
  unfoldable pub respond_ndc : Request → ℕ → ℤ → Node → Option Response
  unfolding in_version generation
  respond_ndc r status slept root = in_version r status slept root (generation r)

  texts : List String → Items
  texts [] = no_items
  texts (s ∷ ss) = item (Json.text s) (texts ss)

  -- `respondOrder`
  unfoldable pub respond_order : Request → Order → String → ℕ → ℤ → Option Response
  unfolding wants_json total offer_json texts respond_ndc ndc_root data_lists order_node
  respond_order r o root status slept =
      if wants_json E.lower r
      then some (
          ok_json status slept (
            object (
              field "orderId" (Json.text o.id) (
                field "status" (Json.text o.status) (
                  field "currency" (Json.text o.info.currency) (
                    field "total" (int (total o)) (
                      field "offer" (offer_json o.id o.info)
                        (field "history" (array (texts o.history)) no_fields))))))))
      else respond_ndc r status slept
          (ndc_root root (node "Response" (data_lists o.info o.pax ∷ order_node o ∷ []) ∷ []))
