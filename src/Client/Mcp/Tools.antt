-- ===== src/Client/Mcp/Tools.antt =====
-- The tools that the server lists.
use ndc_mock.Prelude.{◌≡◌, refl, Bool, true, false, List, [], ◌∷◌, String, string_eq, All}
use ndc_mock.Translate.Mapping.{Map}
use ndc_mock.Client.Transport.{Net, Client}
use ndc_mock.Client.{Result, ok, error}
use ndc_mock.Client.Mcp.{Value, Wire, Arg, Outcome, rpc_error, told, run_tool}

-- The type of a property of a tool's input.
pub data Kind : Type 0 where
  string : Kind
  integer : Kind

pub record Property : Type 0 where
  pub name : String
  pub kind : Kind
  pub about : String

pub record ToolDef : Type 0 where
  pub name : String
  pub description : String
  pub properties : List Property
  pub required : List String

unfoldable pub sprop : String → String → Property
sprop name about = record { name = name; kind = string; about = about }

unfoldable pub iprop : String → String → Property
iprop name about = record { name = name; kind = integer; about = about }

search_tool : ToolDef
unfolding sprop iprop
search_tool = record {
  name = "ndc_search";
  description =
      "Search flight offers for a route and date. Returns a capped list of offers with prices and routings. Use the returned offerId with the other tools.";
  properties =
      sprop "origin" "Origin airport code, e.g. LIM"
      ∷ sprop "destination" "Destination airport code, e.g. SCL"
      ∷ sprop "departureDate" "Departure date, YYYY-MM-DD"
      ∷ sprop "returnDate" "Return date for a round trip, YYYY-MM-DD"
      ∷ iprop "adults" "Adult passengers, default 1"
      ∷ iprop "children" "Child passengers"
      ∷ iprop "infants" "Infant passengers, cannot exceed adults"
      ∷ sprop "airline" "Two-letter carrier code to present offers as"
      ∷ iprop "maxOffers" "How many offers to return, default 10"
      ∷ [];
  required = "origin" ∷ "destination" ∷ "departureDate" ∷ [];
}

one_id : String → String → String → String → ToolDef
unfolding sprop
one_id name description key about = record {
  name = name;
  description = description;
  properties = sprop key about ∷ [];
  required = key ∷ [];
}

-- `tools`
unfoldable pub tools : List ToolDef
unfolding search_tool one_id sprop iprop
tools =
    search_tool
    ∷ one_id "ndc_price" "Confirm the firm price of an offer returned by ndc_search." "offerId"
        "Offer id from ndc_search"
    ∷ one_id "ndc_order_create"
        "Create an order from a priced offer. This is the booking step and changes state; confirm with the user before calling it."
        "offerId" "Offer id to book"
    ∷ one_id "ndc_order_retrieve" "Look up an existing order and its current status." "orderId"
        "Order id from ndc_order_create"
    ∷ one_id "ndc_order_cancel"
        "Cancel an order. This changes state and is not reversible; confirm with the user before calling it."
        "orderId" "Order id to cancel"
    ∷ record {
      name = "ndc_services";
      description = "List ancillary services available for an offer, such as bags and meals.";
      properties = sprop "offerId" "Offer id" ∷ iprop "count" "How many services to return" ∷ [];
      required = "offerId" ∷ [];
    }
    ∷ record {
      name = "ndc_seats";
      description = "Return the seat map for an offer, with availability and prices.";
      properties = sprop "offerId" "Offer id" ∷ iprop "rows" "How many rows to return" ∷ [];
      required = "offerId" ∷ [];
    }
    ∷ []

-- Whether an outcome is an error of the protocol.
unfoldable pub is_rpc_error : Outcome → Bool
is_rpc_error (rpc_error n e) = true
is_rpc_error _ = false

told-fine : {A : Type 0} (v : A → Value) (r : Result A) → is_rpc_error (told v r) ≡ false
unfolding is_rpc_error told
told-fine v (ok a) = refl
told-fine v (error e) = refl

-- A tool runs: whatever its arguments, the outcome is no error of the protocol.
abbrev pub Runs : {W : Type 0} → Net W → Client → Wire → ToolDef → Type 0
Runs {W = W} N c D t = (w : W) (a : Map Arg) → is_rpc_error (run_tool N c D w t.name a).1 ≡ false

-- Every tool that the server lists is one that it runs: a call of it is answered with a content or
-- with the failure of the call, never as an unknown tool.
pub tools-Runs : {W : Type 0} (N : Net W) (c : Client) (D : Wire) → All (Runs N c D) tools
unfolding tools run_tool search_tool one_id
tools-Runs N c D = (
  λ w a. told-fine _ _,
  (
    λ w a. told-fine _ _,
    (
      λ w a. told-fine _ _,
      (
        λ w a. told-fine _ _,
        (λ w a. told-fine _ _, (λ w a. told-fine _ _, (λ w a. told-fine _ _, tt))),
      ),
    ),
  ),
)
