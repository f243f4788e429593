-- ===== src/Serving.antt =====
-- AirShopping (edge/main.go): a reference is picked for the request and rendered, as a document or
-- as the projection of its identifiers. `none` is a panic.
pub mod Announced
pub mod Answered
use ndc_mock.Prelude.{
  ℕ, zero, suc, ◌+◌, ◌%◌, Bool, true, false, ◌&&◌, ◌||◌, not, Option, none, some, List, [], ◌∷◌,
  ◌++◌, map, String, ◌<>◌, if◌then◌else◌, ◌==◌, ◌!=◌, nat_eq, string_eq, ◌>>=◌, ltb, leb, length,
  get_elem?,
}
use ndc_mock.Prelude.Int.{ℤ, pos, ltb_ℤ}
use ndc_mock.Prelude.Text.{cut_prefix, join, itoa}
use ndc_mock.Itinerary.{Leg, pattern_of, multi_city, contains}
use ndc_mock.Query.{Query, AirShoppingRq, Parsed, refused, parsed, parse_query}
use ndc_mock.Translate.Mapping.{Map, lookup, Mapping, is_empty}
use ndc_mock.Translate.Steps.Report.{Report, coverage}
use ndc_mock.Config.{airline_for, resolve_bounded}
use ndc_mock.Offer.{OfferInfo, set_legs, or_default}
use ndc_mock.Offer.Ident.{OfferId, describe, encode, reencode}
use ndc_mock.Airline.{Floats, Airline, convert, get}
use ndc_mock.Http.{
  Token, Request, Response, Content, raw, json, Json, array, object, field, no_fields, Items, item,
  no_items, Fields, wants_json, fault, lang_of, version_of,
}
use ndc_mock.Build.{offer_json}
use ndc_mock.Handlers.Answers.{Env}
use ndc_mock.Template.Build.{Template, sort_texts}
use ndc_mock.Template.Render.{or_natural, render}

-- The templates by key, and what AirShopping needs besides the server: `unmarshal` is
-- `xml.Unmarshal`, `parse` and `format` are those of dates, and `replace` is a replacer's `Replace`.
pub record Shop : Type 0 where
  pub templates : Map Template
  pub lang_header : String
  pub default_airline : String
  pub unmarshal : List Token → Option AirShoppingRq
  pub parse : String → Option ℤ
  pub format : ℤ → String
  pub replace : List (String × String) → String → String

-- `loadRoutes`, of a file that was read: the first route of which the handler is unknown.
unfoldable pub unknown_route : List String → Map String → Option (String × String)
unfolding contains
unknown_route handlers [] = none
unknown_route handlers ((p, h) ∷ rs) =
    let rest = unknown_route handlers rs in if contains handlers h then rest else some (p, h)

-- The names of `handlers`.
unfoldable pub handler_names : List String
handler_names =
    "airshopping" ∷ "offerprice" ∷ "ordercreate" ∷ "orderretrieve" ∷ "orderchange" ∷ "ordercancel"
    ∷ "orderreshop" ∷ "servicelist" ∷ "seatavailability" ∷ "installments" ∷ []

-- `quote` is `%q`.
module _ (quote : String → String) where
  unfoldable pub refused_route : String → Option (String × String) → Map String → Option String
  refused_route path (some (p, h)) rs =
      some (path <> (": route " <> (p <> (" names unknown handler " <> quote h))))
  refused_route path none rs = if is_empty rs then some (path <> ": no routes") else none

  -- The error of `loadRoutes`, if there is one; without one the routes of the file are those served.
  unfoldable pub load_routes : String → Map String → Option String
  unfolding refused_route unknown_route handler_names
  load_routes path rs = refused_route path (unknown_route handler_names rs) rs

unfoldable pub first_of : Option Template → Option Template → Option Template
first_of (some t) other = some t
first_of none other = other

unfoldable pub pick : Map Template → String → Query → Option Template
unfolding lookup first_of multi_city pattern_of
pick ts seg q =
    if multi_city q.legs
    then lookup ts (seg <> ("|mc:" <> pattern_of q.legs))
    else first_of (if q.ret_date != "" then lookup ts (seg <> "|rt") else none)
        (first_of (lookup ts (seg <> ("|ow:" <> q.lang))) (lookup ts (seg <> "|ow:default")))

shape_of : Option String → List String
shape_of none = []
shape_of (some shape) = shape ∷ []

shapes_in : String → Map Template → List String
unfolding shape_of cut_prefix
shapes_in seg [] = []
shapes_in seg ((k, t) ∷ ts) = shape_of (cut_prefix (seg <> "|mc:") k) ++ shapes_in seg ts

-- `mcShapes`
unfoldable pub mc_shapes : String → Map Template → List String
unfolding shapes_in sort_texts
mc_shapes seg ts = sort_texts (shapes_in seg ts)

unfoldable pub first_non_empty : List String → String
first_non_empty [] = ""
first_non_empty (s ∷ ss) = let rest = first_non_empty ss in if s != "" then s else rest

legs_items : List Leg → Items
legs_items [] = no_items
legs_items (l ∷ ls) =
    item
      (object (
        field "origin" (Json.text l.from)
          (field "destination" (Json.text l.to) (field "date" (Json.text l.date) no_fields))))
      (legs_items ls)

-- A field that is left out if it is empty.
unfoldable pub optional : String → String → Fields → Fields
optional k v fs = if v == "" then fs else field k (Json.text v) fs

unfoldable pub offer_items : List (String × OfferInfo) → Items
unfolding offer_json
offer_items [] = no_items
offer_items ((id, i) ∷ os) = item (offer_json id i) (offer_items os)

offer_currency : List (String × OfferInfo) → String
offer_currency [] = ""
offer_currency ((id, i) ∷ os) = i.currency

module _ {F : Floats} (E : Env F) where
  carried_by : Option (Airline F) → OfferInfo → OfferInfo
  unfolding convert
  carried_by none i = i
  carried_by (some a) i =
      let (cur, v) = convert F a i.currency i.amount in
      record i { carrier = a.code; currency = cur; amount = v }

  -- One offer of the projection: the identifier for the request, and what it says.
  unfoldable pub shop_offer : Query → Option (Airline F) → OfferId → String × OfferInfo
  unfolding encode describe set_legs carried_by reencode
  shop_offer q air o =
      let id = encode E.b64 o in
      let i = set_legs q.legs (describe E.b64 id) in
      let j = carried_by air (record i { adt = q.adt; chd = q.chd; inf = q.inf }) in
      (reencode E.b64 id j, j)

  -- The loop over the offers from the `k`-th on, `m` of them.
  unfoldable pub shop_offers :
      Query → Option (Airline F) → List OfferId → ℕ → ℕ → Option (List (String × OfferInfo))
  unfolding shop_offer
  shop_offers q air os k zero = some []
  shop_offers q air os k (suc m) = do
    o ← get_elem? os (k % length os)
    rest ← shop_offers q air os (suc k) m
    some (shop_offer q air o ∷ rest)

  -- The offers of the projection; above the capacity that `make` accepts it panics.
  unfoldable pub make_offers :
      Query → Option (Airline F) → List OfferId → ℕ → Option (List (String × OfferInfo))
  unfolding shop_offers
  make_offers q air os count = if leb count E.offers_cap then shop_offers q air os 0 count else none

  unfoldable pub shopping_json : Template → Query → ℕ → List (String × OfferInfo) → Json
  unfolding optional legs_items first_non_empty offer_currency offer_items
  shopping_json t q count offs = object (
      field "shoppingResponseId"
        (Json.text ("SHOP-" <> (q.origin <> (q.dest <> ("-" <> q.dep_date)))))
        (field "origin" (Json.text q.origin) (
          field "destination" (Json.text q.dest) (
            field "departureDate" (Json.text q.dep_date) (
              optional "returnDate" q.ret_date (
                field "legs" (array (legs_items q.legs)) (
                  field "currency"
                    (Json.text (first_non_empty (offer_currency offs ∷ t.ref.currency ∷ [])))
                    (field "offerCount" (Json.nat count)
                      (field "offers" (array (offer_items offs)) no_fields)))))))))

  xlate_headers : Option (Mapping × Report) → List (String × String)
  unfolding coverage itoa
  xlate_headers none = []
  xlate_headers (some (m, rep)) =
      ("X-Mock-Translated", m.from <> ("->" <> m.to))
      ∷ ("X-Mock-Translation-Coverage", itoa (coverage rep) <> "%")
      ∷ (if ltb 0 rep.unverified
          then ("X-Mock-Translation-Unverified", itoa rep.unverified) ∷ []
          else [])

  air_header : Option (Airline F) → List (String × String)
  air_header none = []
  air_header (some a) = ("X-Mock-Airline", a.code) ∷ []

  module _ (S : Shop) where
    -- The carrier: the header's, the route's, or the default.
    unfoldable pub carrier_for : Request → Query → Option (Airline F)
    unfolding get first_non_empty airline_for
    carrier_for r q = get F E.upper E.airlines (
        first_non_empty (
          r.header "X-Mock-Airline"
          ∷ airline_for E.config q.origin q.dest
          ∷ S.default_airline
          ∷ []))

    unfoldable pub headers_for : String → Template → Option (Airline F) → ℤ → List (String × String)
    unfolding xlate_headers air_header itoa or_natural
    headers_for seg t air n =
        ("X-Mock-Offers", itoa (or_natural n t))
        ∷ ("X-Mock-Version", seg)
        ∷ (xlate_headers t.xlate ++ air_header air)

    unfoldable pub answer : String → Template → Option (Airline F) → ℤ → ℤ → Content → Response
    unfolding headers_for
    answer seg t air n d c = record {
      status = 200;
      headers = headers_for seg t air n;
      content = c;
      slept = if ltb_ℤ (pos 0) d then d else pos 0;
    }

    -- The answer from the reference `t`, with `n` offers, after the latency `d`.
    unfoldable pub shop_with :
        Request → String → Query → Template → Option (Airline F) → ℤ → ℤ → Option Response
    unfolding wants_json make_offers shopping_json render or_natural answer
    shop_with r seg q t air n d =
        if wants_json E.lower r
        then (do
          offs ← make_offers q air t.offers (or_natural n t)
          some (answer seg t air n d (json (shopping_json t q (or_natural n t) offs))))
        else (do
          doc ← render E.b64 S.parse S.format S.replace t q n air
          some (answer seg t air n d (raw doc)))

    -- The offers and the latency, within the operator's ceilings.
    unfoldable pub bounds_for : Request → Query → ℤ × ℤ
    unfolding resolve_bounded
    bounds_for r q =
        resolve_bounded E.duration E.draw E.config q.origin q.dest (r.header "X-Mock-Offers")
          (r.header "X-Mock-Delay") E.max_offers E.max_delay

    unfoldable pub shop_picked : Request → String → Query → Option Template → Option Response
    unfolding shop_with carrier_for bounds_for fault multi_city pattern_of mc_shapes join
    shop_picked r seg q none =
        if multi_city q.legs
        then some (
            fault E.lower 501 (
              "no multi-city reference of this itinerary's shape is loaded: shape "
              <> (pattern_of q.legs
                  <> (", loaded " <> or_default (join " " (mc_shapes seg S.templates)) "none"))))
        else some (
            fault E.lower 501 (
              "no reference response for version "
              <> (seg <> " and no translation mapping to reach it")))
    shop_picked r seg q (some t) =
        let (n, d) = bounds_for r q in shop_with r seg q t (carrier_for r q) n d

    unfoldable pub shop_parsed : Request → Parsed → Option Response
    unfolding shop_picked pick lang_of version_of fault
    shop_parsed r (refused why) = some (fault E.lower 400 why)
    shop_parsed r (parsed q) =
        let p : Query = record q { lang = lang_of E.lower S.lang_header r } in
        shop_picked r (version_of r.path) p (pick S.templates (version_of r.path) p)

    unfoldable pub shop_body : Request → Option (List Token) → Option Response
    unfolding shop_parsed parse_query fault
    shop_body r none = some (fault E.lower 400 "could not read request body")
    shop_body r (some body) = shop_parsed r (parse_query E.upper (S.unmarshal body))

    unfoldable pub airshopping : Request → Option Response
    unfolding shop_body
    airshopping r = shop_body r r.body
