-- ===== src/Offer/Ident.antt =====
-- Offer identifiers (edge/offerid.go) and what they say (edge/offerinfo.go). Base64 is not the
-- program's: it is the parameter `b64`.
pub mod RoundTrip
pub mod Texts
pub mod Fares
pub mod Served
pub mod Said
pub mod Carried
use ndc_mock.Prelude.{
  ℕ, Bool, true, false, ◌&&◌, ◌||◌, Option, none, some, List, [], ◌∷◌, ◌++◌, map, String, ◌<>◌,
  if◌then◌else◌, ◌==◌, ◌!=◌, nat_eq, string_eq, leb, ◌>>=◌,
}
use Prim.Native.Char.{code}
use ndc_mock.Prelude.Int.{ℤ, pos, int_eq}
use ndc_mock.Prelude.Text.{
  cut, split, join, itoa, itoa_int, Atoi, num, bad, range, atoi, cut_prefix, replace_first, exactly,
  span1, is_some,
}
use ndc_mock.Prelude.Decimal.{is_digit}
use ndc_mock.Itinerary.{Leg}
use ndc_mock.Offer.Info.{OfferInfo, blank, set_legs, apply_defaults}

-- `base64.StdEncoding`. `decode` is `none` also where the decoded bytes are no UTF-8.
pub record Base64 : Type 0 where
  pub encode : String → String
  pub decode : String → Option String

pub record Segment : Type 0 where
  pub text : String
  pub is_b64 : Bool
  pub suffix : String

abbrev pub OfferId : Type 0
OfferId = List Segment

no_controls : String → Bool
no_controls String.[] = true
no_controls (String.◌∷◌ c s) = (leb 0x20 (code c) || code c == 9) && no_controls s

unfoldable pub is_printable : String → Bool
unfolding no_controls
is_printable s = no_controls s && s != ""

-- `atoi`, which drops the error: a syntax error leaves 0.
unfoldable pub value_of : Atoi → ℤ
value_of (num n) = n
value_of bad = pos 0
value_of (range n) = n

-- A count that is read from digits.
unfoldable pub count_of : ℤ → ℕ
count_of (pos n) = n
count_of _ = 0

abbrev pub is_upper : ℕ → Bool
is_upper c = leb b'A' c && leb c b'Z'

abbrev pub is_code : ℕ → Bool
is_code c = is_upper c || is_digit c

-- `[A-Z]{3},[A-Z]{3},\d{4}-\d{2}-\d{2}`, whole.
unfoldable pub is_leg : String → Bool
unfolding exactly cut_prefix
is_leg s = is_some (do
  (_, s₁) ← exactly is_upper 3 s
  s₂ ← cut_prefix "," s₁
  (_, s₃) ← exactly is_upper 3 s₂
  s₄ ← cut_prefix "," s₃
  (_, s₅) ← exactly is_digit 4 s₄
  s₆ ← cut_prefix "-" s₅
  (_, s₇) ← exactly is_digit 2 s₆
  s₈ ← cut_prefix "-" s₇
  (_, s₉) ← exactly is_digit 2 s₈
  if s₉ == "" then some s₉ else none)

unfoldable pub all_legs : List String → Bool
unfolding is_leg
all_legs [] = true
all_legs (s ∷ ss) = is_leg s && all_legs ss

unfoldable pub first_trip : List String → Option String
unfolding all_legs split
first_trip [] = none
first_trip (f ∷ fs) = if all_legs (split b'.' f) then some f else first_trip fs

-- `reTrip` on "|" + t + "|": the first field between pipes that is a list of legs joined by dots.
unfoldable pub find_trip : String → Option String
unfolding first_trip split
find_trip t = first_trip (split b'|' t)

unfoldable pub leg_of_fields : List String → List Leg
leg_of_fields (from ∷ to ∷ date ∷ []) = record { from = from; to = to; date = date } ∷ []
leg_of_fields _ = []

unfoldable pub legs_of_parts : List String → List Leg
unfolding leg_of_fields split
legs_of_parts [] = []
legs_of_parts (p ∷ ps) = leg_of_fields (split b',' p) ++ legs_of_parts ps

-- `parseLegs` (edge/template.go).
unfoldable pub parse_legs : String → List Leg
unfolding legs_of_parts split
parse_legs trip = legs_of_parts (split b'.' trip)

-- `(\.\d+)?$`
unfoldable pub decimals : String → Option String
unfolding cut_prefix span1
decimals s = if s == "" then some "" else (do
  behind ← cut_prefix "." s
  (ds, rest) ← span1 is_digit behind
  if rest == "" then some ("." <> ds) else none)

-- `rePrice`: the currency, the digits of the whole units, and the decimals.
unfoldable pub match_price : String → Option (String × String × String)
unfolding cut_prefix exactly span1 decimals
match_price s = do
  s₁ ← cut_prefix "PR=" s
  (cur, s₂) ← exactly is_upper 3 s₁
  s₃ ← cut_prefix "/" s₂
  (whole, s₄) ← span1 is_digit s₃
  dec ← decimals s₄
  some (cur, whole, dec)

-- `reInfoPax`.
unfoldable pub match_pax : String → Option (String × String × String)
unfolding cut_prefix span1
match_pax s = do
  s₁ ← cut_prefix "PX=" s
  (adt, s₂) ← span1 is_digit s₁
  s₃ ← cut_prefix "/" s₂
  (chd, s₄) ← span1 is_digit s₃
  s₅ ← cut_prefix "/" s₄
  (inf, s₆) ← span1 is_digit s₅
  if s₆ == "" then some (adt, chd, inf) else none

abbrev is_time : ℕ → Bool
is_time c = is_digit c || c == b'T' || c == b':' || c == b'-'

-- The groups of `reInfoFlt` that are read.
pub record Flight : Type 0 where
  pub origin : String
  pub dest : String
  pub number : String
  pub carrier : String
  pub dep : String
  pub arr : String

unfoldable pub match_flight : String → Option Flight
unfolding cut_prefix exactly span1
match_flight s = do
  s₁ ← cut_prefix "IF=" s
  (origin, s₂) ← exactly is_upper 3 s₁
  s₃ ← cut_prefix "," s₂
  (dest, s₄) ← exactly is_upper 3 s₃
  s₅ ← cut_prefix "," s₄
  (number, s₆) ← span1 is_digit s₅
  s₇ ← cut_prefix "," s₆
  (carrier, s₈) ← exactly is_code 2 s₇
  s₉ ← cut_prefix "," s₈
  (_, t₁) ← exactly is_code 2 s₉
  t₂ ← cut_prefix "," t₁
  (dep, t₃) ← span1 is_time t₂
  t₄ ← cut_prefix "," t₃
  (arr, _) ← span1 is_time t₄
  some (record {
    origin = origin;
    dest = dest;
    number = number;
    carrier = carrier;
    dep = dep;
    arr = arr;
  })

-- The four tests of `describe`'s loop. `info.Legs == nil` holds until legs are set, which are
-- never none for a trip that matches.
unfoldable pub read_trip : Option String → OfferInfo → OfferInfo
unfolding parse_legs set_legs
read_trip none i = i
read_trip (some trip) i = elim (i.legs) [ [] ↦ set_legs (parse_legs trip) i | l ∷ ls ↦ i ]

unfoldable pub read_flight : Option Flight → OfferInfo → OfferInfo
read_flight none i = i
read_flight (some f) i =
    let j = record i {
      flight_num = f.number;
      carrier = f.carrier;
      dep_time = f.dep;
      arr_time = f.arr;
    } in
    if i.origin == "" then record j { origin = f.origin; dest = f.dest } else j

unfoldable pub read_price : Option (String × String × String) → OfferInfo → OfferInfo
unfolding value_of atoi
read_price none i = i
read_price (some (cur, whole, dec)) i = record i { currency = cur; amount = value_of (atoi whole) }

unfoldable pub read_pax : Option (String × String × String) → OfferInfo → OfferInfo
unfolding value_of count_of atoi
read_pax none i = i
read_pax (some (adt, chd, inf)) i = record i {
  adt = count_of (value_of (atoi adt));
  chd = count_of (value_of (atoi chd));
  inf = count_of (value_of (atoi inf));
}

unfoldable pub read_segment : OfferInfo → String → OfferInfo
unfolding read_trip read_flight read_price read_pax find_trip match_flight match_price match_pax
read_segment i t =
    read_pax (match_pax t)
      (read_price (match_price t) (read_flight (match_flight t) (read_trip (find_trip t) i)))

unfoldable pub read_segments : OfferInfo → OfferId → OfferInfo
unfolding read_segment
read_segments i [] = i
read_segments i (s ∷ segs) = read_segments (read_segment i s.text) segs

-- One segment of `reencode`.
unfoldable pub trip_of : List Leg → String
unfolding join
trip_of legs = join "." (map (λ l. l.from <> ("," <> (l.to <> ("," <> l.date)))) legs)

unfoldable pub rewrite_trip : Option String → OfferInfo → String → String
unfolding trip_of replace_first
rewrite_trip none info t = t
rewrite_trip (some trip) info t = replace_first trip (trip_of info.legs) t

unfoldable pub rewrite_price : Option (String × String × String) → OfferInfo → String → String
unfolding itoa_int
rewrite_price none info t = t
rewrite_price (some (cur, whole, dec)) info t =
    "PR=" <> (info.currency <> ("/" <> (itoa_int info.amount <> dec)))

unfoldable pub rewrite_pax : OfferInfo → String → String
unfolding cut_prefix itoa
rewrite_pax info t =
    if is_some (cut_prefix "PX=" t)
    then "PX=" <> (itoa info.adt <> ("/" <> (itoa info.chd <> ("/" <> itoa info.inf))))
    else t

unfoldable pub rewrite_text : OfferInfo → String → String
unfolding rewrite_trip rewrite_price rewrite_pax find_trip match_price
rewrite_text info t =
    let t₁ = rewrite_trip (find_trip t) info t in
    let t₂ = rewrite_price (match_price t₁) info t₁ in rewrite_pax info t₂

module _ (b64 : Base64) where
  unfoldable pub decode_text : String → Option String
  unfolding is_printable
  decode_text s = do d ← b64.decode s; if is_printable d then some d else none

  -- What is read of a text `s`, given what its part before the mark decodes to.
  unfoldable pub marked_with : String → String → Option String → Segment
  marked_with s suf (some t) = record { text = t; is_b64 = true; suffix = "~" <> suf }
  marked_with s suf none = record { text = s; is_b64 = false; suffix = "" }

  unfoldable pub marked : String → String × String × Bool → Segment
  unfolding decode_text marked_with
  marked s (b, suf, found) =
      if found
      then marked_with s suf (decode_text b)
      else record { text = s; is_b64 = false; suffix = "" }

  unfoldable pub segment_with : String → Option String → Segment
  unfolding marked cut
  segment_with s (some t) = record { text = t; is_b64 = true; suffix = "" }
  segment_with s none = marked s (cut b'~' s)

  unfoldable pub parse_segment : String → Segment
  unfolding decode_text segment_with
  parse_segment s = segment_with s (decode_text s)

  unfoldable pub parse_offer_id : String → OfferId
  unfolding parse_segment split
  parse_offer_id v = map parse_segment (split b'|' v)

  unfoldable pub encode_segment : Segment → String
  encode_segment s = if s.is_b64 then b64.encode s.text <> s.suffix else s.text

  unfoldable pub encode : OfferId → String
  unfolding encode_segment join
  encode o = join "|" (map encode_segment o)

  -- Decodes an identifier into trip data.
  unfoldable pub describe : String → OfferInfo
  unfolding parse_offer_id read_segments apply_defaults
  describe id = apply_defaults (read_segments (blank id) (parse_offer_id id))

  unfoldable pub rewrite_segment : OfferInfo → Segment → Segment
  unfolding rewrite_text
  rewrite_segment info s = record s { text = rewrite_text info s.text }

  -- Rebuilds an identifier so that it carries the values served.
  unfoldable pub reencode : String → OfferInfo → String
  unfolding parse_offer_id rewrite_segment encode
  reencode orig info = encode (map (rewrite_segment info) (parse_offer_id orig))
