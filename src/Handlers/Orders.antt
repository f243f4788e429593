-- ===== src/Handlers/Orders.antt =====
-- The order messages: `lookup`, forwarding to the replica that owns an order, and the handlers of
-- create, retrieve, cancel, change and reshop. A handler takes the store and returns it with the
-- response; the response is `none` where a translation does not end, and where `make` panics.
pub mod Effects
pub mod Forwarding
pub mod Serving
use ndc_mock.Prelude.{
  ℕ, zero, suc, Bool, true, false, ◌&&◌, ◌||◌, Option, none, some, List, [], ◌∷◌, ◌++◌, String,
  ◌<>◌, leb, if◌then◌else◌, ◌==◌, ◌!=◌, string_eq,
}
use ndc_mock.Prelude.Int.{ℤ, pos, pos_part, add_int, mul_int}
use ndc_mock.Prelude.Text.{itoa}
use ndc_mock.Itinerary.{contains}
use ndc_mock.Tree.{Node, node, leaf}
use ndc_mock.Offer.{OfferInfo, build_pax}
use ndc_mock.Airline.{Floats}
use ndc_mock.Order.{Order, cancel, change}
use ndc_mock.Order.Store.{Entries, Store, put, get, mutate}
use ndc_mock.Http.{
  Token, Request, Response, Json, array, object, field, no_fields, Items, item, no_items,
  wants_json, failure,
}
use ndc_mock.Build.{data_lists, reshop_offer, ndc_root, offer_json}
use ndc_mock.Handlers.Ids.{ReqIds, scan_ids, Drawn, new_order_id, owner_of}
use ndc_mock.Handlers.Answers.{
  Reply, not_sent, unreachable, answered, Env, info_from, offer_count_for, apply_delay, ok_json,
  generation, respond_ndc, respond_order,
}

-- What `lookup` returns: the order, or the response that it has written.
pub data Found : Type 0 where
  here : Order → Found
  done : Response → Found

-- A generation that is declared and is not 19.2.
abbrev pub is_later : Option String → Bool
is_later none = false
is_later (some v) = v != "19.2"

module _ {F : Floats} (E : Env F) where
  unfoldable pub among : Option (List String) → String → Bool
  unfolding contains
  among none host = false
  among (some ips) host = contains ips host

  -- `isPeer`: whether the owner's host is one of the addresses of the `-peers` name.
  unfoldable pub is_peer : String → Bool
  unfolding among
  is_peer owner = elim (E.host_of owner) [
    | none ↦ false
    | some host ↦ if E.peers == "" then false else among (E.hosts E.peers) host
  ]

  -- The request as it is replayed, with the header that stops it from bouncing.
  unfoldable pub marked : Request → Request
  marked r = record r { header = λ k. if k == "X-Mock-Forwarded" then E.advertise else r.header k }

  relayed : Request → String → Reply → Response
  unfolding failure
  relayed r owner not_sent = failure E.lower r 502 ("cannot forward to owner " <> owner)
  relayed r owner unreachable =
      failure E.lower r 502
        ("owner " <> (owner <> " unreachable (a restarted replica loses its orders)"))
  relayed r owner (answered rs) = rs

  -- `forward`
  unfoldable pub forward : Request → String → Response
  unfolding marked relayed
  forward r owner = relayed r owner (E.exchange owner (marked r))

  -- Whether an order that is not here is asked of its owner.
  unfoldable pub goes_on : Request → String → Bool
  unfolding is_peer
  goes_on r owner =
      owner != "" && (owner != E.advertise && (r.header "X-Mock-Forwarded" == "" && is_peer owner))

  unfoldable pub elsewhere : Request → String → Response
  unfolding forward goes_on owner_of failure
  elsewhere r id =
      let owner = owner_of E.from_url64 id in
      if goes_on r owner
      then forward r owner
      else failure E.lower r 404
          ("unknown OrderID " <> (id <> " (the store is in-memory and entries expire)"))

  unfoldable pub outcome : Request → String → Store × Option Order → Store × Found
  unfolding elsewhere
  outcome r id (s, some o) = (s, here o)
  outcome r id (s, none) = (s, done (elsewhere r id))

  -- The identifier: the body's, or else the URL's.
  unfoldable pub wanted : Request → List Token → String
  unfolding scan_ids
  wanted r body = let id = (scan_ids body).order_id in if id == "" then r.query "orderId" else id

  unfoldable pub access : Option (Order → Order) → String → Store → Store × Option Order
  unfolding mutate get
  access none id s = (s, get id s)
  access (some fn) id s = mutate id fn s

  unfoldable pub lookup_in :
      Request → Option (Order → Order) → Store → Option (List Token) → Store × Found
  unfolding failure wanted outcome access
  lookup_in r fn s none = (s, done (failure E.lower r 400 "could not read request body"))
  lookup_in r fn s (some body) =
      let id = wanted r body in
      if id == ""
      then (s, done (failure E.lower r 400 "request carries no OrderID"))
      else outcome r id (access fn id s)

  -- `lookup`
  unfoldable pub lookup : Request → Option (Order → Order) → Store → Store × Found
  unfolding lookup_in
  lookup r fn s = lookup_in r fn s r.body

  -- The order that `orderCreate` makes of a trip at the instant `now`.
  unfoldable pub order_of : ℤ → Drawn → OfferInfo → Order
  unfolding new_order_id build_pax
  order_of now drawn i = record {
    id = new_order_id E.url64 E.advertise drawn i.carrier;
    status = "Opened";
    info = i;
    pax = build_pax i;
    services = [];
    seats = [];
    created_at = now;
    history = "Created" ∷ [];
  }

  unfoldable pub create_in :
      Entries → ℤ → Drawn → Request → Store → Option (List Token) → Store × Option Response
  unfolding failure scan_ids info_from order_of put respond_order apply_delay
  create_in visit now drawn r s none =
      (s, some (failure E.lower r 400 "could not read request body"))
  create_in visit now drawn r s (some body) =
      let ids = scan_ids body in
      if ids.offer_id == "" && ids.offer_item_id == ""
      then (s, some (failure E.lower r 400 "request carries no offer to order"))
      else (let o = order_of now drawn (info_from E r ids) in
          (put visit o s, respond_order E r o "IATA_OrderViewRS" 201 (apply_delay E r)))

  -- `orderCreate`; `visit` is the order in which `put` visits the map.
  unfoldable pub order_create : Entries → ℤ → Drawn → Request → Store → Store × Option Response
  unfolding create_in
  order_create visit now drawn r s = create_in visit now drawn r s r.body

  -- What a handler does once `lookup` has returned.
  unfoldable pub with_found : (Order → Option Response) → Store × Found → Store × Option Response
  with_found k (s, here o) = (s, k o)
  with_found k (s, done rs) = (s, some rs)

  pub view : Request → Order → Option Response
  unfolding respond_order apply_delay
  view r o = respond_order E r o "IATA_OrderViewRS" 200 (apply_delay E r)

  -- From 20.1 there is no OrderCancel message.
  pub cancelled : Request → Order → Option Response
  unfolding view wants_json generation respond_ndc ndc_root apply_delay
  cancelled r o =
      if wants_json E.lower r || is_later (generation E r)
      then view r o
      else respond_ndc E r 200 (apply_delay E r)
          (ndc_root "IATA_OrderCancelRS" (node "Response" (leaf "OrderRefID" o.id ∷ []) ∷ []))

  unfoldable pub order_retrieve : Request → Store → Store × Option Response
  unfolding lookup with_found view
  order_retrieve r s = with_found (view r) (lookup r none s)

  unfoldable pub order_cancel : Request → Store → Store × Option Response
  unfolding lookup with_found cancelled cancel
  order_cancel r s = with_found (cancelled r) (lookup r (some cancel) s)

  unfoldable pub order_change : Request → Store → Store × Option Response
  unfolding lookup with_found view change
  order_change r s = with_found (view r) (lookup r (some change) s)

  -- The alternative of number `k`.
  alternative : Order → ℕ → OfferInfo
  unfolding add_int mul_int
  alternative o k = record (o.info) { amount = add_int o.info.amount (mul_int (pos k) (pos 15000)) }

  -- The loops of `orderReshop`, from `k` on, `n` rounds.
  alternatives_json : Order → ℕ → ℕ → Items
  unfolding alternative offer_json itoa
  alternatives_json o k zero = no_items
  alternatives_json o k (suc n) =
      item (offer_json (o.id <> ("-ALT-" <> itoa (suc k))) (alternative o k))
        (alternatives_json o (suc k) n)

  alternatives : Order → ℕ → ℕ → List Node
  unfolding alternative reshop_offer itoa
  alternatives o k zero = []
  alternatives o k (suc n) =
      reshop_offer (o.id <> ("-ALT-" <> itoa (suc k))) ("ITEM-" <> itoa (suc k)) (alternative o k)
      ∷ alternatives o (suc k) n

  pub reshopped : Request → Order → Option Response
  unfolding offer_count_for apply_delay wants_json alternatives_json alternatives data_lists
      generation respond_ndc ndc_root
  reshopped r o =
      let n = pos_part (offer_count_for E r (pos 5)) in
      if wants_json E.lower r
      then (if leb n E.offers_cap
          then some (
              ok_json E 200 (apply_delay E r) (
                object (
                  field "orderId" (Json.text o.id)
                    (field "alternatives" (array (alternatives_json o 0 n)) no_fields))))
          else none)
      else respond_ndc E r 200 (apply_delay E r) (
          ndc_root "IATA_OrderReshopRS" (
            node "Response" (
              data_lists o.info o.pax
              ∷ node "ReshopResults" (node "ReshopOffers" (alternatives o 0 n) ∷ [])
              ∷ (if is_later (generation E r)
                  then node "Order" (leaf "OrderID" o.id ∷ leaf "OwnerCode" o.info.carrier ∷ [])
                    ∷ []
                  else []))
            ∷ []))

  unfoldable pub order_reshop : Request → Store → Store × Option Response
  unfolding lookup with_found reshopped
  order_reshop r s = with_found (reshopped r) (lookup r none s)
