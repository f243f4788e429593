-- ===== src/Offer/Render.antt =====
-- `render`: an offer identifier for the trip and the carrier that a request asks for. The replacer
-- is not the program's: it is the parameter `replace`, from the pairs of old and new texts on.
use Prim.Native.Char.{Char, code}
use ndc_mock.Prelude.{
  ℕ, Bool, true, false, ◌&&◌, ◌||◌, not, Option, none, some, map, String, ◌<>◌, if◌then◌else◌, ◌==◌,
  ◌!=◌, nat_eq, string_eq, ◌*◌, leb,
}
use ndc_mock.Prelude.Int.{ℤ, pos, add_int}
use ndc_mock.Prelude.Text.{join, itoa_int, atoi}
use ndc_mock.Prelude.Decimal.{is_digit}
use ndc_mock.Airline.{Floats, Airline, convert}
use ndc_mock.Offer.Ident.{Base64, Segment, OfferId, match_price, value_of, is_upper}

-- `[A-Z0-9]`, and the characters of a word.
abbrev pub is_code : ℕ → Bool
is_code c = is_upper c || is_digit c

abbrev pub is_word : ℕ → Bool
is_word c = is_code c || (leb b'a' c && leb c b'z') || c == b'_'

unfoldable pub starts_word : String → Bool
starts_word String.[] = false
starts_word (String.◌∷◌ c s) = is_word (code c)

-- A match of `reCarrSeg`: two characters of a code, with no character of a word on either side.
-- `inside` says whether one stands before.
unfoldable pub is_pair : Bool → Char → Char → String → Bool
unfolding starts_word
is_pair inside c d s = not inside && is_code (code c) && is_code (code d) && not (starts_word s)

unfoldable pub swapped : String → String → String → String
swapped from to m = if m == from then to else m

unfoldable pub swap_from : Bool → String → String → String → String
unfolding is_pair swapped
swap_from inside from to String.[] = String.[]
swap_from inside from to (String.◌∷◌ c String.[]) = String.◌∷◌ c String.[]
swap_from inside from to (String.◌∷◌ c (String.◌∷◌ d s)) = elim (is_pair inside c d s) [
  | true ↦ swapped from to (String.◌∷◌ c (String.◌∷◌ d String.[])) <> swap_from true from to s
  | false ↦ String.◌∷◌ c (swap_from (is_word (code c)) from to (String.◌∷◌ d s))
]

-- `swapCarrier`
unfoldable pub swap_carrier : String → String → String → String
unfolding swap_from
swap_carrier s from to = swap_from false from to s

module _ {F : Floats} where
  for_carrier : String → Option (Airline F) → String → String
  unfolding swap_carrier
  for_carrier ref none t = t
  for_carrier ref (some air) t =
      if ref != "" && air.code != ref then swap_carrier t ref air.code else t

  fare_of : Option (Airline F) → String → ℤ → String × ℤ
  unfolding convert
  fare_of none cur amt = (cur, amt)
  fare_of (some air) cur amt = convert F air cur amt

  -- A fare moves by 1000 with each cycle, and keeps its decimals.
  with_price : Option (Airline F) → ℕ → Option (String × String × String) → String → String
  unfolding fare_of value_of atoi itoa_int add_int
  with_price air cycle none t = t
  with_price air cycle (some (cur, whole, dec)) t =
      let (c, amt) = fare_of air cur (value_of (atoi whole)) in
      "PR=" <> (c <> ("/" <> (itoa_int (add_int amt (pos (cycle * 1000))) <> dec)))

  unfoldable pub render_text : String → Option (Airline F) → ℕ → String → String
  unfolding for_carrier with_price match_price
  render_text ref air cycle t =
      let u = for_carrier ref air t in with_price air cycle (match_price u) u

  module _ (b64 : Base64) (replace : String → String) where
    unfoldable pub render_segment : String → Option (Airline F) → ℕ → Segment → String
    unfolding render_text
    render_segment ref air cycle s =
        let t = render_text ref air cycle (replace s.text) in
        (if s.is_b64 then b64.encode t else t) <> s.suffix

    unfoldable pub render_id : String → Option (Airline F) → ℕ → OfferId → String
    unfolding render_segment join
    render_id ref air cycle o = join "|" (map (render_segment ref air cycle) o)
