-- ===== src/Tests/Clients.antt =====
-- The client, its MCP server and the recorder on concrete inputs (client/, edge/proxy.go).
use ndc_mock.Prelude.{
  ℕ, suc, ◌^◌, ◌≡◌, refl, true, false, none, some, [], ◌∷◌, String, ◌<>◌, <>_cancel_left,
  if◌then◌else◌, ◌==◌, string_eq, arith,
}
use ndc_mock.Prelude.Int.{pos}
use ndc_mock.Prelude.Decimal.{is_digit}
use ndc_mock.Prelude.Numerals.{AllPass}
use ndc_mock.Client.{SearchParams, ok, error, validate, validate_id, check_pax}
use ndc_mock.Client.Checks.{IsRoute, IsParty, validate_lem}
use ndc_mock.Client.Transport.{Offer, Shopping, Net, Client, answered, ask, search, new_client}
use ndc_mock.Client.Capped.{IsCapped, wanted, search-IsCapped}
use ndc_mock.Client.Mcp.{Wire}
use ndc_mock.Proxy.{Disk, Proxy, capture_name, record_exchange}
use ndc_mock.Proxy.Kept.{IsKept, record_exchange-IsKept}

abbrev to_natal : SearchParams
to_natal = record {
  origin = "GRU";
  dest = "NAT";
  depart_date = "2026-09-30";
  return_date = "2026-10-07";
  adt = pos 0;
  chd = pos 0;
  inf = pos 0;
  airline = "";
  max_offers = pos 1;
  cabin = "";
}

abbrev for_one : SearchParams
for_one = record to_natal { adt = pos 1 }

valid : validate (λ s. s) (λ s. s) to_natal ≡ ok for_one
unfolding validate
valid = refl

validate_lem_example : IsRoute for_one × IsParty for_one
validate_lem_example =
    validate_lem (λ s. s) (λ s. s) to_natal for_one (omega arith) (omega arith) (omega arith) valid

-- The sum of these counts wraps around, so that it is not above nine.
abbrev crowd : SearchParams
crowd = record to_natal { adt = pos (2 ^ 62); chd = pos (2 ^ 62) }

crowd_test : check_pax crowd ≡ ok crowd
unfolding check_pax
crowd_test = refl

id_test :
    (validate_id "offer id" "" ≡ some "offer id is required")
    × (validate_id "offer id" "a<b" ≡ some "offer id contains markup characters")
    × (validate_id "offer id" "a|b" ≡ none)
unfolding validate_id
id_test = (refl, refl, refl)

abbrev fare : String → Offer
fare id = record {
  offer_id = id;
  price = record { currency = "USD"; total = pos 351; base = pos 0; taxes = pos 0 };
  segments = [];
  round_trip = true;
}

abbrev two_fares : Shopping
two_fares = record {
  shopping_response_id = "SHOP-GRUNAT-2026-09-30";
  origin = "GRU";
  destination = "NAT";
  departure_date = "2026-09-30";
  return_date = "2026-10-07";
  currency = "USD";
  offer_count = pos 2;
  offers = fare "A" ∷ fare "B" ∷ [];
  truncated = false;
}

abbrev one_fare : Shopping
one_fare = record two_fares { offers = fare "A" ∷ []; truncated = true }

-- An endpoint that counts its requests and has two fares.
abbrev endpoint : Net ℕ
endpoint = record {
  exchange = λ w out. (suc w, answered 200 "");
  decode_error = λ s. none;
  decode_shopping = λ s. ok two_fares;
  decode_order = λ s. error "no order";
  decode_any = λ s. error "no object";
  upper = λ s. s;
  quote = λ s. s;
  esc = λ s. s;
}

abbrev local : Client
local = record { base_url = "http://localhost:8090"; version = "v192"; headers = [] }

client_test : new_client "http://localhost:8090/" "" ≡ local
unfolding new_client
client_test = refl

one_found : (search endpoint local 0 to_natal).1 ≡ ok one_fare
unfolding search validate
one_found = refl

search-IsCapped_example :
    (p' : SearchParams) × (full : Shopping) × (validate (λ s. s) (λ s. s) to_natal ≡ ok p')
    × ((ask endpoint local 0 p').1 ≡ ok full)
    × IsCapped (wanted (pos 1)) full one_fare
search-IsCapped_example = search-IsCapped endpoint local 0 to_natal one_fare one_found

-- A wire on which a line is a method, and "ping" alone has an identifier.
abbrev wire : Wire
wire = record {
  decode_request = λ s.
      if s == "?"
      then none
      else some (record { id = if s == "ping" then "7" else ""; method = s; params = "" });
  decode_params = λ s. none;
}

abbrev recorder : Proxy
recorder = record { upstream = "http://up"; record_to = "caps"; auth_hdr = [] }

abbrev in_dir : String → String → String
in_dir d s = d <> ("/" <> s)

abbrev one_capture : Disk
one_capture = ("caps/airshopping-001-rs.xml", "<RS/>") ∷ []

name_test : capture_name "order/create" "<RQ/>" ≡ "order-create"
unfolding capture_name
name_test = refl

-- The first number is taken by an earlier run.
record_test :
    record_exchange in_dir recorder one_capture 0 "airshopping" "<RQ/>" "<NEW/>"
    ≡ some (
      ("caps/airshopping-002-rq.xml", "<RQ/>")
          ∷ ("caps/airshopping-002-rs.xml", "<NEW/>")
          ∷ ("caps/airshopping-001-rs.xml", "<RS/>")
          ∷ [],
      2,
    )
unfolding record_exchange
record_test = refl

numbers_stay_apart :
    (s t : String)
    → AllPass is_digit s
    → AllPass is_digit t
    → in_dir recorder.record_to (capture_name "airshopping" "<RQ/>" <> ("-" <> s))
      ≡ in_dir recorder.record_to (capture_name "airshopping" "<RQ/>" <> ("-" <> t))
    → s ≡ t
unfolding capture_name
numbers_stay_apart s t h k e = <>_cancel_left "caps/airshopping-" e

record_exchange-IsKept_example :
    (d' : Disk) × (n : ℕ) × IsKept in_dir recorder one_capture 0 "airshopping" "<RQ/>" "<NEW/>" d' n
record_exchange-IsKept_example =
    record_exchange-IsKept in_dir recorder one_capture 0 "airshopping" "<RQ/>" "<NEW/>"
      (omega arith) numbers_stay_apart
