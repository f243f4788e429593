-- ===== src/Client/Transport.antt =====
-- The operations of the client, each one exchange with the endpoint. HTTP and the JSON decoder are
-- not the program's: they are the record `Net`, whose `exchange` carries the state of the world.
use ndc_mock.Prelude.{
  ℕ, Bool, true, Option, none, some, List, [], ◌∷◌, ◌++◌, String, ◌<>◌, if◌then◌else◌, ◌!=◌,
  string_eq, leb, length, take,
}
use ndc_mock.Prelude.Int.{ℤ, pos, pos_part, ltb_ℤ, leb_ℤ}
use ndc_mock.Prelude.Text.{itoa, itoa_int}
use ndc_mock.Http.{Json}
use ndc_mock.Client.{SearchParams, Result, ok, error, validate, validate_id}
use ndc_mock.Client.Documents.{build_air_shopping, wrap_id}

pub record Price : Type 0 where
  pub currency : String
  pub total : ℤ
  pub base : ℤ
  pub taxes : ℤ

pub record Segment : Type 0 where
  pub origin : String
  pub destination : String
  pub carrier : String
  pub flight_num : String
  pub departure : String
  pub arrival : String

pub record Offer : Type 0 where
  pub offer_id : String
  pub price : Price
  pub segments : List Segment
  pub round_trip : Bool

pub record Shopping : Type 0 where
  pub shopping_response_id : String
  pub origin : String
  pub destination : String
  pub departure_date : String
  pub return_date : String
  pub currency : String
  pub offer_count : ℤ
  pub offers : List Offer
  pub truncated : Bool

pub record Order : Type 0 where
  pub order_id : String
  pub status : String
  pub currency : String
  pub total : ℤ
  pub offer : Offer
  pub history : List String

pub record Outgoing : Type 0 where
  pub url : String
  pub headers : List (String × String)
  pub body : String

-- How an exchange ends; an error is the library's text.
pub data Reply : Type 0 where
  not_built : String → Reply
  not_sent : String → Reply
  unreadable : String → Reply
  answered : ℕ → String → Reply

-- `decode_error` gives the message of an `apiError`, if the text is one.
pub record Net (W : Type 0) : Type 0 where
  pub exchange : W → Outgoing → W × Reply
  pub decode_error : String → Option String
  pub decode_shopping : String → Result Shopping
  pub decode_order : String → Result Order
  pub decode_any : String → Result Json
  pub upper : String → String
  pub quote : String → String
  pub esc : String → String

pub record Client : Type 0 where
  pub base_url : String
  pub version : String
  pub headers : List (String × String)

-- `New`
trim_slash : String → String
trim_slash String.[] = String.[]
trim_slash (String.◌∷◌ c String.[]) =
    if String.◌∷◌ c String.[] != "/" then String.◌∷◌ c String.[] else String.[]
trim_slash (String.◌∷◌ c (String.◌∷◌ d s)) = String.◌∷◌ c (trim_slash (String.◌∷◌ d s))

unfoldable pub new_client : String → String → Client
unfolding trim_slash
new_client base version = record {
  base_url = trim_slash base;
  version = if version != "" then version else "v192";
  headers = [];
}

unfoldable pub default_max_offers : ℤ
default_max_offers = pos 10

unfoldable pub limit_of : ℤ → ℤ
unfolding default_max_offers
limit_of max = if leb_ℤ max (pos 0) then default_max_offers else max

-- The end of `Search`: what is more than the limit is cut off.
unfoldable pub cap : ℤ → Shopping → Shopping
unfolding limit_of
cap max s =
    if ltb_ℤ (limit_of max) (pos (length s.offers))
    then record s { offers = take (pos_part (limit_of max)) s.offers; truncated = true }
    else s

unfoldable pub map_ok : {A B : Type 0} → (A → B) → Result A → Result B
map_ok f (ok a) = ok (f a)
map_ok f (error e) = error e

module _ {W : Type 0} (N : Net W) (c : Client) where
  open N use {exchange, decode_error, decode_shopping, decode_order, decode_any, upper, quote, esc}

  said : String → ℕ → Option String → String
  unfolding itoa
  said op status (some message) =
      if message != ""
      then op <> (": " <> message)
      else op <> (": endpoint returned " <> itoa status)
  said op status none = op <> (": endpoint returned " <> itoa status)

  decoded : {A : Type 0} → String → Result A → Result A
  decoded op (ok a) = ok a
  decoded op (error e) =
      error (op <> (": response was not the JSON projection (is -format supported?): " <> e))

  outcome : {A : Type 0} → (String → Result A) → String → Reply → Result A
  unfolding said decoded
  outcome decode op (not_built e) = error e
  outcome decode op (not_sent e) = error (op <> (": " <> e))
  outcome decode op (unreadable e) = error (op <> (": reading response: " <> e))
  outcome decode op (answered status raw) =
      if leb 400 status then error (said op status (decode_error raw)) else decoded op (decode raw)

  -- `do`. The headers are in the order in which they are set, a later one over an earlier one.
  unfoldable pub call :
      {A : Type 0}
      → W
      → String
      → String
      → List (String × String)
      → (String → Result A)
      → W × Result A
  unfolding outcome
  call w op body extra decode =
      let (w', reply) = exchange w (record {
        url = c.base_url <> ("/ndc/" <> (c.version <> ("/" <> (op <> "?format=json"))));
        headers =
            ("Content-Type", "application/xml")
            ∷ ("Accept", "application/json")
            ∷ (c.headers ++ extra);
        body = body;
      }) in
      (w', outcome decode op reply)

  -- What the endpoint answers to a search that passed.
  unfoldable pub ask : W → SearchParams → W × Result Shopping
  unfolding call build_air_shopping
  ask w p =
      call w "airshopping" (build_air_shopping esc p)
        (if p.airline != "" then ("X-Mock-Airline", p.airline) ∷ [] else []) decode_shopping

  unfoldable pub searched : W → Result SearchParams → W × Result Shopping
  unfolding ask cap map_ok
  searched w (error e) = (w, error e)
  searched w (ok p) = let (w', r) = ask w p in (w', map_ok (cap p.max_offers) r)

  -- `Search`
  unfoldable pub search : W → SearchParams → W × Result Shopping
  unfolding searched validate
  search w p = searched w (validate upper quote p)

  with_id :
      {A : Type 0}
      → W
      → String
      → (String × String × String)
      → List (String × String)
      → String
      → (String → Result A)
      → W × Result A
  unfolding call wrap_id validate_id
  with_id w op (root, elem, what) extra id decode = elim (validate_id what id) [
    | some why ↦ (w, error why)
    | none ↦ call w op (wrap_id esc root elem id) extra decode
  ]

  unfoldable pub price : W → String → W × Result Json
  unfolding with_id
  price w id = with_id w "offerprice" ("IATA_OfferPriceRQ", "OfferID", "offer id") [] id decode_any

  unfoldable pub create_order : W → String → W × Result Order
  unfolding with_id
  create_order w id =
      with_id w "ordercreate" ("IATA_OrderCreateRQ", "OfferID", "offer id") [] id decode_order

  -- `orderOp`
  unfoldable pub order_op : W → String → String → W × Result Order
  unfolding with_id
  order_op w op id = with_id w op ("IATA_OrderRetrieveRQ", "OrderID", "order id") [] id decode_order

  unfoldable pub retrieve_order : W → String → W × Result Order
  unfolding order_op
  retrieve_order w id = order_op w "orderretrieve" id

  unfoldable pub cancel_order : W → String → W × Result Order
  unfolding order_op
  cancel_order w id = order_op w "ordercancel" id

  unfoldable pub sized : W → String → String → ℤ → W × Result Json
  unfolding with_id itoa_int
  sized w op id n =
      with_id w op ("IATA_ServiceListRQ", "OfferID", "offer id")
        (if ltb_ℤ (pos 0) n then ("X-Mock-Offers", itoa_int n) ∷ [] else []) id decode_any

  unfoldable pub services : W → String → ℤ → W × Result Json
  unfolding sized
  services w id count = sized w "servicelist" id count

  unfoldable pub seats : W → String → ℤ → W × Result Json
  unfolding sized
  seats w id rows = sized w "seatavailability" id rows
