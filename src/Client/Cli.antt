-- ===== src/Client/Cli.antt =====
-- The command line over the client (client/cmd/ndc/main.go). The flag set, the encoder and the
-- alignment of a table are not the program's: they are the record `Terminal`.
use ndc_mock.Prelude.{
  Bool, true, ◌||◌, List, [], ◌∷◌, map, String, ◌<>◌, if◌then◌else◌, ◌==◌, ◌!=◌, string_eq, leb,
  ltb, length,
}
use ndc_mock.Prelude.Int.{pos}
use ndc_mock.Prelude.Text.{join, itoa, itoa_int}
use ndc_mock.Client.{SearchParams, Result, ok, error, byte_len}
use ndc_mock.Client.Transport.{
  Segment, Offer, Shopping, Order, Net, Client, search, price, create_order, retrieve_order,
  cancel_order, services, seats,
}
use ndc_mock.Client.Mcp.{Value, shopping, order, json}
use ndc_mock.Translate.Document.{head_from}

-- `flags` reads the flags of a search and whether one asks for JSON; `encode_json` gives the indented
-- JSON; `align` sets tabbed columns.
pub record Terminal : Type 0 where
  pub flags : List String → Result (SearchParams × Bool)
  pub encode_json : Value → String
  pub align : String → String
  pub quote : String → String

-- `truncate`, of a text whose characters are bytes.
unfoldable pub truncate : String → String
unfolding byte_len head_from
truncate s = if leb (byte_len s) 32 then s else head_from 32 0 s <> "..."

unfoldable pub routing : Segment → String
routing g = g.origin <> ("-" <> (g.destination <> (" " <> (g.carrier <> g.flight_num))))

unfoldable pub offer_row : Offer → String
unfolding itoa_int join routing truncate
offer_row o = join "" (
    o.price.currency
    ∷ " "
    ∷ itoa_int o.price.total
    ∷ "\t"
    ∷ join " / " (map routing o.segments)
    ∷ "\t"
    ∷ truncate o.offer_id
    ∷ "\n"
    ∷ [])

module _ (T : Terminal) where
  open T use {flags, encode_json, align, quote}

  -- `printShopping`
  unfoldable pub print_shopping : Shopping → String
  unfolding join itoa_int itoa offer_row
  print_shopping s = join "" (
      s.origin
      ∷ " -> "
      ∷ s.destination
      ∷ "  "
      ∷ s.departure_date
      ∷ (if s.return_date != "" then " / " <> s.return_date else "")
      ∷ "\n"
      ∷ itoa_int s.offer_count
      ∷ " offers"
      ∷ (if s.truncated then " (showing " <> (itoa (length s.offers) <> ")") else "")
      ∷ "\n\n"
      ∷ align ("PRICE\tROUTING\tOFFER ID\n" <> join "" (map offer_row s.offers))
      ∷ [])

  print_order : Order → String
  unfolding join itoa_int
  print_order o = join "" (
      "order "
      ∷ o.order_id
      ∷ "  "
      ∷ o.status
      ∷ "  "
      ∷ o.currency
      ∷ " "
      ∷ itoa_int o.total
      ∷ "\n"
      ∷ (if ltb 0 (length o.history) then "history: " <> (join " -> " o.history <> "\n") else "")
      ∷ [])

  -- `emit`
  unfoldable pub emit : Value → Bool → String
  unfolding print_order
  emit (order o) as_json = if as_json then encode_json (order o) else print_order o
  emit (shopping s) as_json = encode_json (shopping s)
  emit (json j) as_json = encode_json (json j)

  abbrev is_json_flag : String → Bool
  is_json_flag a = a == "-json" || a == "--json"

  -- The loop of `one`: the arguments that are left, and whether JSON is asked for.
  unfoldable pub strip_json : List String → Bool → List String × Bool
  strip_json [] as_json = ([], as_json)
  strip_json (a ∷ args) as_json =
      let (rest, found) = strip_json args as_json in
      if is_json_flag a then (rest, true) else (a ∷ rest, found)

  shown : {A : Type 0} → (A → Value) → Bool → Result A → Result String
  unfolding emit
  shown v as_json (ok a) = ok (emit (v a) as_json)
  shown v as_json (error e) = error e

  with_one :
      {W A : Type 0}
      → W
      → String
      → (W → String → W × Result A)
      → (A → Value)
      → List String × Bool
      → W × Result String
  unfolding shown
  with_one w usage fn v (id ∷ [], as_json) = let (w', r) = fn w id in (w', shown v as_json r)
  with_one w usage fn v (_, as_json) = (w, error ("usage: ndc " <> usage))

  unfoldable pub one :
      {W A : Type 0}
      → W
      → List String
      → Bool
      → String
      → (W → String → W × Result A)
      → (A → Value)
      → W × Result String
  unfolding with_one strip_json
  one w args as_json usage fn v = with_one w usage fn v (strip_json args as_json)

  searched : Bool → Result Shopping → Result String
  unfolding emit print_shopping
  searched as_json (error e) = error e
  searched as_json (ok s) = ok (if as_json then emit (shopping s) true else print_shopping s)

  search_with :
      {W : Type 0} → Net W → Client → W → Bool → Result (SearchParams × Bool) → W × Result String
  unfolding searched search
  search_with N c w as_json (error e) = (w, error e)
  search_with N c w as_json (ok (p, local)) =
      let (w', r) = search N c w p in (w', searched (as_json || local) r)

  -- `run`; what is printed, or the error. `main` ends without arguments.
  unfoldable pub run :
      {W : Type 0} → Net W → Client → W → String → List String → Bool → W × Result String
  unfolding search_with one price create_order retrieve_order cancel_order services seats
  run N c w verb args as_json =
      if verb == "search"
      then search_with N c w as_json (flags args)
      else if verb == "price"
      then one w args as_json "price <offer-id>" (price N c) json
      else if verb == "order"
      then one w args as_json "order <offer-id>" (create_order N c) order
      else if verb == "retrieve"
      then one w args as_json "retrieve <order-id>" (retrieve_order N c) order
      else if verb == "cancel"
      then one w args as_json "cancel <order-id>" (cancel_order N c) order
      else if verb == "services"
      then one w args as_json "services <offer-id>" (λ w id. services N c w id (pos 0)) json
      else if verb == "seats"
      then one w args as_json "seats <offer-id>" (λ w id. seats N c w id (pos 0)) json
      else (w, error ("unknown command " <> quote verb))
