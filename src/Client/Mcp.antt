-- ===== src/Client/Mcp.antt =====
-- The MCP server over the client (client/cmd/ndc-mcp/main.go). The JSON decoders are the record
-- `Wire`. A response is written as it is: that it can be encoded is not part of the model.
pub mod Tools
pub mod Replies
use ndc_mock.Prelude.{
  Option, none, some, List, [], ◌∷◌, String, ◌<>◌, if◌then◌else◌, ◌==◌, string_eq,
}
use ndc_mock.Prelude.Int.{ℤ, pos, negsuc}
use ndc_mock.Http.{Json}
use ndc_mock.Translate.Mapping.{Map, lookup}
use ndc_mock.Client.{SearchParams, Result, ok, error}
use ndc_mock.Client.Transport.{
  Shopping, Order, Net, Client, default_max_offers, search, price, create_order, retrieve_order,
  cancel_order, services, seats,
}

-- A request; `id` is the text of the identifier, and "" where it has none.
pub record RpcRequest : Type 0 where
  pub id : String
  pub method : String
  pub params : String

-- An argument of a tool, a number as the `int` of it.
pub data Arg : Type 0 where
  text : String → Arg
  number : ℤ → Arg
  other : Arg

-- What a tool gives to be encoded.
pub data Value : Type 0 where
  shopping : Shopping → Value
  order : Order → Value
  json : Json → Value

pub data Outcome : Type 0 where
  initialized : Outcome
  tool_list : Outcome
  empty : Outcome
  content : Value → Outcome
  failed : String → Outcome
  rpc_error : ℤ → String → Outcome

pub record RpcResponse : Type 0 where
  pub id : String
  pub outcome : Outcome

pub record Wire : Type 0 where
  pub decode_request : String → Option RpcRequest
  pub decode_params : String → Option (String × Map Arg)

text_of : Option Arg → String
text_of (some (text s)) = s
text_of _ = ""

-- `str`
unfoldable pub str : Map Arg → String → String
unfolding text_of lookup
str m k = text_of (lookup m k)

number_of : ℤ → Option Arg → ℤ
number_of def (some (number n)) = n
number_of def _ = def

-- `num`
unfoldable pub num : Map Arg → String → ℤ → ℤ
unfolding number_of lookup
num m k def = number_of def (lookup m k)

unfoldable pub search_params : Map Arg → SearchParams
unfolding str num default_max_offers
search_params a = record {
  origin = str a "origin";
  dest = str a "destination";
  depart_date = str a "departureDate";
  return_date = str a "returnDate";
  adt = num a "adults" (pos 1);
  chd = num a "children" (pos 0);
  inf = num a "infants" (pos 0);
  airline = str a "airline";
  max_offers = num a "maxOffers" default_max_offers;
  cabin = "";
}

-- A failed call is content, not an error of the protocol.
unfoldable pub told : {A : Type 0} → (A → Value) → Result A → Outcome
told v (ok a) = content (v a)
told v (error e) = failed e

module _ {W : Type 0} (N : Net W) (c : Client) (D : Wire) where
  -- The `switch` over the tools.
  unfoldable pub run_tool : W → String → Map Arg → W × Outcome
  unfolding search_params str num told search price create_order retrieve_order cancel_order
      services seats
  run_tool w name a =
      if name == "ndc_search"
      then (let (w', r) = search N c w (search_params a) in (w', told shopping r))
      else if name == "ndc_price"
      then (let (w', r) = price N c w (str a "offerId") in (w', told json r))
      else if name == "ndc_order_create"
      then (let (w', r) = create_order N c w (str a "offerId") in (w', told order r))
      else if name == "ndc_order_retrieve"
      then (let (w', r) = retrieve_order N c w (str a "orderId") in (w', told order r))
      else if name == "ndc_order_cancel"
      then (let (w', r) = cancel_order N c w (str a "orderId") in (w', told order r))
      else if name == "ndc_services"
      then (let (w', r) = services N c w (str a "offerId") (num a "count" (pos 0)) in
          (w', told json r))
      else if name == "ndc_seats"
      then (let (w', r) = seats N c w (str a "offerId") (num a "rows" (pos 0)) in (w', told json r))
      else (w, rpc_error (negsuc 32601) ("unknown tool " <> name))

  call_with : W → Option (String × Map Arg) → W × Outcome
  unfolding run_tool
  call_with w none = (w, rpc_error (negsuc 32601) "invalid params")
  call_with w (some (name, a)) = run_tool w name a

  -- `callTool`
  unfoldable pub call_tool : W → RpcRequest → W × Outcome
  unfolding call_with
  call_tool w req = call_with w (D.decode_params req.params)

  unfoldable pub by_method : W → RpcRequest → W × Outcome
  unfolding call_tool
  by_method w req =
      if req.method == "initialize"
      then (w, initialized)
      else if req.method == "tools/list"
      then (w, tool_list)
      else if req.method == "tools/call"
      then call_tool w req
      else if req.method == "ping"
      then (w, empty)
      else (w, rpc_error (negsuc 32600) ("unknown method " <> req.method))

  -- A request without an identifier is a notification, which is not answered.
  unfoldable pub dispatch : W → RpcRequest → W × Option RpcResponse
  unfolding by_method
  dispatch w req =
      if req.id == ""
      then (w, none)
      else (let (w', o) = by_method w req in (w', some (record { id = req.id; outcome = o })))

  unfoldable pub parse_error : RpcResponse
  parse_error = record { id = ""; outcome = rpc_error (negsuc 32699) "parse error" }

  unfoldable pub on_request : W → Option RpcRequest → W × Option RpcResponse
  unfolding dispatch parse_error
  on_request w none = (w, some parse_error)
  on_request w (some req) = dispatch w req

  -- One round of the loop of `main`.
  unfoldable pub on_line : W → String → W × Option RpcResponse
  unfolding on_request
  on_line w line = if line == "" then (w, none) else on_request w (D.decode_request line)

  unfoldable pub written : Option RpcResponse → List RpcResponse → List RpcResponse
  written none rest = rest
  written (some r) rest = r ∷ rest

  -- The loop of `main`: what is written, in order.
  unfoldable pub serve : W → List String → W × List RpcResponse
  unfolding on_line written
  serve w [] = (w, [])
  serve w (line ∷ lines) =
      let (w₁, r) = on_line w line in let (w₂, rest) = serve w₁ lines in (w₂, written r rest)
