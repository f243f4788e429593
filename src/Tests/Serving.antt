-- ===== src/Tests/Serving.antt =====
-- Order messages to a replica (edge/handlers.go).
use ndc_mock.Prelude.{
  ◌≤◌, ◌≡◌, ◌≢◌, refl, inl, false, none, some, List, [], ◌∷◌, ◌++◌, String, length, arith,
  if◌then◌else◌, ◌==◌, string_eq, eq_iff,
}
use ndc_mock.Prelude.Int.{ℤ, pos}
use ndc_mock.Airline.{Floats}
use ndc_mock.Order.{Order}
use ndc_mock.Offer.Ident.{describe}
use ndc_mock.Order.Store.{Store, new_store, find, get, reap}
use ndc_mock.Order.Store.Laws.{NodupKeys, Enumerates, Named}
use ndc_mock.Http.{Token, start, chars, Request, Response}
use ndc_mock.Handlers.Ids.{Drawn, scan_ids, owner_of, new_order_id}
use ndc_mock.Handlers.Ids.Owners.{IsDotless, owner_of-new_order_id}
use ndc_mock.Handlers.Answers.{Env, unreachable, info_from}
use ndc_mock.Handlers.Orders.{
  goes_on, wanted, order_create, order_retrieve, order_cancel, order_change, order_reshop,
}
use ndc_mock.Handlers.Orders.Effects.{
  get-order_cancel, unknown_order, reading_keeps, get-order_create,
}
use ndc_mock.Handlers.Orders.Serving.{
  created, cancelled_event, reaped, Serves, opened, served, Serves-bounded,
}
use ndc_mock.Tests.Stores.{order_at, two_orders, c_ne}

-- Whole numbers stand for the floating-point ones.
abbrev pub whole : Floats
whole = record {
  Float = ℤ;
  of_int = λ z. z;
  one = pos 1;
  is_zero = λ z. false;
  times = λ x y. x;
  over = λ x y. x;
  round = λ z. z;
}

-- A replica "a:80" whose peers resolve to the hosts "a" and "b".
abbrev pub replica : Env whole
replica = record {
  config = record {
    default = record { offers = pos 0; delay = ""; airline = "" };
    routes = [];
    operations = [];
  };
  routes = [];
  airlines = [];
  versions = [];
  mappings = [];
  advertise = "a:80";
  peers = "mock";
  max_offers = pos 100;
  max_delay = pos 5;
  duration = λ s. none;
  draw = λ l. l.p50;
  lower = λ s. s;
  upper = λ s. s;
  b64 = record { encode = λ s. s; decode = λ s. none };
  url64 = λ s. s;
  from_url64 = λ s. some s;
  host_of = λ s. if s == "b:80" then some "b" else none;
  hosts = λ s. some ("a" ∷ "b" ∷ []);
  exchange = λ s r. unreachable;
  offers_cap = 1000;
  services_cap = 1000;
  seats_cap = 6000;
}

abbrev asks : List Token → Request
asks body = record {
  path = "/ndc/v192/order/cancel";
  query = λ k. "";
  header = λ k. "";
  body = some body;
}

abbrev for_order : String → List Token
for_order id = start "OrderRefID" ∷ chars id ∷ []

abbrev for_offer : List Token
for_offer = start "OfferRefID" ∷ chars "OF1" ∷ []

b_ne : ◌≢◌ {A = String} "b" ""
b_ne e = ground (arith, eq_iff "b" "")

abbrev cancelled_b : Order
cancelled_b = record (order_at "b" 20) {
  status = "Cancelled";
  history = (order_at "b" 20).history ++ ("Cancelled" ∷ []);
}

abbrev changed_b : Order
changed_b = record (order_at "b" 20) {
  status = "Changed";
  history = (order_at "b" 20).history ++ ("Changed" ∷ []);
}

get-order_cancel_example :
    (get "b" (order_cancel replica (asks (for_order "b")) two_orders).0
      ≡ (if ◌==◌ {A = String} "b" "b" then some cancelled_b else get "b" two_orders))
    × (get "b" (order_change replica (asks (for_order "b")) two_orders).0
        ≡ (if ◌==◌ {A = String} "b" "b" then some changed_b else get "b" two_orders))
unfolding wanted get
get-order_cancel_example =
    get-order_cancel replica (asks (for_order "b")) two_orders (for_order "b") (order_at "b" 20) "b"
      refl b_ne refl

unknown_order_example :
    let r = asks (for_order "c") in
    (rs : Response) × (rs.status ≡ 404)
    × (order_retrieve replica r two_orders ≡ (two_orders, some rs))
    × (order_cancel replica r two_orders ≡ (two_orders, some rs))
    × (order_change replica r two_orders ≡ (two_orders, some rs))
    × (order_reshop replica r two_orders ≡ (two_orders, some rs))
unfolding wanted get goes_on owner_of
unknown_order_example =
    unknown_order replica (asks (for_order "c")) two_orders (for_order "c") refl c_ne refl refl

reading_keeps_example :
    ((order_retrieve replica (asks (for_order "b")) two_orders).0 ≡ two_orders)
    × ((order_reshop replica (asks (for_order "b")) two_orders).0 ≡ two_orders)
reading_keeps_example = reading_keeps replica (asks (for_order "b")) two_orders

abbrev drawn : Drawn
drawn = record { number = 42; bytes = 0 ∷ 1 ∷ 2 ∷ 3 ∷ [] }

offered : ◌≢◌ {A = String} (scan_ids for_offer).offer_id ""
unfolding scan_ids
offered e = ground (arith, eq_iff "OF1" "")

get-order_create_example :
    let ids = scan_ids for_offer in
    let offered = if ids.offer_item_id == "" then ids.offer_id else ids.offer_item_id in
    (o : Order) × (get o.id
        (order_create replica two_orders.by_id (pos 30) drawn (asks for_offer) two_orders).0
      ≡ some o)
    × (o.status ≡ "Opened")
    × (o.history ≡ "Created" ∷ [])
    × (o.created_at ≡ pos 30)
    × (o.services ≡ [])
    × (o.seats ≡ [])
    × (o.info ≡ info_from replica (asks for_offer) ids)
    × (o.info.legs ≡ (describe replica.b64 offered).legs)
get-order_create_example =
    get-order_create replica two_orders.by_id (pos 30) drawn (asks for_offer) two_orders for_offer
      refl (inl offered)

a80_ne : ◌≢◌ {A = String} "a:80" ""
a80_ne e = ground (arith, eq_iff "a:80" "")

a80-IsDotless : IsDotless "a:80"
a80-IsDotless = (
  λ e. ground (arith, eq_iff "a" "."),
  (
    λ e. ground (arith, eq_iff ":" "."),
    (λ e. ground (arith, eq_iff "8" "."), (λ e. ground (arith, eq_iff "0" "."), tt)),
  ),
)

owner_of-new_order_id_example :
    owner_of replica.from_url64 (new_order_id replica.url64 "a:80" drawn "YY") ≡ "a:80"
owner_of-new_order_id_example =
    owner_of-new_order_id replica.url64 replica.from_url64 "a:80" drawn "YY" a80_ne a80-IsDotless
      refl

abbrev empty_store : Store
empty_store = new_store (pos 5) (pos 1)

empty-Enumerates : Enumerates [] empty_store.by_id
unfolding find new_store
empty-Enumerates = record { once = tt; same = λ j. refl }

-- An order is created and cancelled, and the reaper ticks.
abbrev after_create : Store
after_create = (order_create replica [] (pos 30) drawn (asks for_offer) empty_store).0

abbrev after_cancel : Store
after_cancel = (order_cancel replica (asks (for_order "YY")) after_create).0

one_day : Serves replica empty_store (reap (pos 40) after_cancel)
one_day =
    served
      (served
        (served opened (created empty_store [] (pos 30) drawn (asks for_offer) empty-Enumerates))
        (cancelled_event after_create (asks (for_order "YY"))))
      (reaped after_cancel (pos 40))

Serves-bounded_example :
    (length (reap (pos 40) after_cancel).by_id ≤ 1)
    × NodupKeys (reap (pos 40) after_cancel).by_id
    × Named (reap (pos 40) after_cancel).by_id
Serves-bounded_example = Serves-bounded replica (pos 5) 0 one_day
