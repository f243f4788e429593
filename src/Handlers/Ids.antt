-- ===== src/Handlers/Ids.antt =====
-- The identifiers that a request carries (`scanIDs` of edge/handlers.go), and those of orders
-- (edge/orders.go).
pub mod Owners
use text.Mathlib.TextLemmas.{nil≢cons}
use ndc_mock.Prelude.{
  <>_ne_left, <>_ne_right, sym, ◌≢◌, Bool-cases, inl, inr, ℕ, zero, suc, ◌-◌, ◌%◌, ◌≡◌, refl,
  nat_eq, ◌&&◌, Option, none, some, List, [], ◌∷◌, String, ◌<>◌, if◌then◌else◌, ◌==◌, ◌!=◌,
  string_eq,
}
use ndc_mock.Prelude.Text.{trim_space, itoa}
use ndc_mock.Translate.Mapping.{Map}
use ndc_mock.Http.{Token, start, chars, other}

pub record ReqIds : Type 0 where
  pub offer_id : String
  pub offer_item_id : String
  pub order_id : String
  pub shopping_id : String

-- `found[k]`, which is "" for a key that the map lacks.
unfoldable pub found_at : Map String → String → String
found_at [] k = ""
found_at ((j, v) ∷ m) k = if j == k then v else found_at m k

-- One token. A value is kept only for a name that has none, so that no key comes twice.
unfoldable pub scan_token : String × Map String → Token → String × Map String
unfolding found_at trim_space
scan_token (cur, found) (start s) = (s, found)
scan_token (cur, found) (chars t) =
    let v = trim_space t in
    if v != "" && found_at found cur == "" then (cur, (cur, v) ∷ found) else (cur, found)
scan_token (cur, found) other = (cur, found)

unfoldable pub scan_from : String × Map String → List Token → Map String
unfolding scan_token
scan_from s [] = s.1
scan_from s (t ∷ ts) = scan_from (scan_token s t) ts

-- `firstNonEmpty` of two texts.
unfoldable pub first_non_empty : String → String → String
first_non_empty s t = if s != "" then s else t

unfoldable pub ids_of : Map String → ReqIds
unfolding found_at first_non_empty
ids_of found = record {
  offer_id = first_non_empty (found_at found "OfferID") (found_at found "OfferRefID");
  offer_item_id = first_non_empty (found_at found "OfferItemID") (found_at found "OfferItemRefID");
  order_id = first_non_empty (found_at found "OrderID") (found_at found "OrderRefID");
  shopping_id =
      first_non_empty (found_at found "ShoppingResponseID")
        (found_at found "ShoppingResponseRefID");
}

unfoldable pub scan_ids : List Token → ReqIds
unfolding scan_from ids_of
scan_ids body = ids_of (scan_from ("", []) body)

-- `strings.Repeat("0", n)`
zeros : ℕ → String
zeros zero = ""
zeros (suc n) = "0" <> zeros n

width : String → ℕ
width String.[] = 0
width (String.◌∷◌ c s) = suc (width s)

unfoldable pub pad7 : ℕ → String
unfolding zeros width itoa
pad7 n = zeros (7 - width (itoa n)) <> itoa n

-- `s[i:i+1]`
char_at : String → ℕ → String
char_at String.[] i = ""
char_at (String.◌∷◌ c s) zero = String.◌∷◌ c String.[]
char_at (String.◌∷◌ c s) (suc i) = char_at s i

abbrev pub alpha : String
alpha = "ABCDEFGHIJKLMNPQRSTUVWXYZ23456789"

tail_of : List ℕ → String
unfolding char_at width
tail_of [] = ""
tail_of (b ∷ bs) = char_at alpha (b % width alpha) <> tail_of bs

-- The random bytes that `newOrderID` draws: the number of the first four, and the last four.
pub record Drawn : Type 0 where
  pub number : ℕ
  pub bytes : List ℕ

-- `url64` is the encoder of `base64.RawURLEncoding`.
unfoldable pub new_order_id : (String → String) → String → Drawn → String → String
unfolding pad7 tail_of
new_order_id url64 advertise d carrier =
    let id = carrier <> (pad7 (d.number % 10000000) <> tail_of d.bytes) in
    if advertise != "" then id <> ("." <> url64 advertise) else id

-- What stands behind the last dot, if there is a dot.
unfoldable pub behind_dot : String → Option String
behind_dot String.[] = none
behind_dot (String.◌∷◌ c s) =
    let rest = behind_dot s in
    elim rest [ some t ↦ some t | none ↦ if String.◌∷◌ c String.[] == "." then some s else none ]

unfoldable pub or_empty : Option String → String
or_empty none = ""
or_empty (some s) = s

-- `ownerOf`; `from_url64` is the decoder of `base64.RawURLEncoding`.
unfoldable pub owner_of : (String → Option String) → String → String
unfolding behind_dot or_empty
owner_of from_url64 id = elim (behind_dot id) [ none ↦ "" | some t ↦ or_empty (from_url64 t) ]

scan_test :
    (scan_ids
      (start "OrderRefID" ∷ chars " A1 " ∷ start "OrderID" ∷ chars "B2" ∷ other ∷ [])).order_id
    ≡ "B2"
unfolding scan_ids
scan_test = refl

padded_ne : (s : String) → ◌≢◌ {A = String} (zeros (7 - width s) <> s) ""
unfolding zeros width
padded_ne String.[] e = nil≢cons (sym e)
padded_ne (String.◌∷◌ c s) e =
    <>_ne_right (zeros (7 - width (String.◌∷◌ c s))) (String.◌∷◌ c s) (λ h. nil≢cons (sym h)) e

pub new_order_id_ne :
    (url64 : String → String) (advertise : String) (d : Drawn) (carrier : String)
    → ◌≢◌ {A = String} (new_order_id url64 advertise d carrier) ""
unfolding new_order_id pad7
new_order_id_ne url64 advertise d carrier =
    let number = d.number % 10000000 in
    let id_ne =
      <>_ne_right carrier _
        (<>_ne_left (pad7 number) (tail_of d.bytes) (padded_ne (itoa number))) in
    elim (Bool-cases (advertise != "")) [
      | inl several ↦ rw several (<>_ne_left _ ("." <> url64 advertise) id_ne)
      | inr alone ↦ rw alone id_ne
    ]
