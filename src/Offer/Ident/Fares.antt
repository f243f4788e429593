-- ===== src/Offer/Ident/Fares.antt =====
-- The fares and the passenger counts of an identifier (edge/offerid.go), as texts that are written
-- and read.
use Prim.Native.Char.{Char, code}
use ndc_mock.Prelude.{
  ◌≡◌, ◌≢◌, refl, ap, ◌∙◌, sym, false, none, some, List, [], ◌∷◌, String, ◌<>◌, nat_eq, string_eq,
  eq_iff, <>_nil, <>_assoc, arith,
}
use ndc_mock.Prelude.Text.{cut_prefix, span1, split, join, split_from}
use ndc_mock.Prelude.Decimal.{is_digit}
use ndc_mock.Prelude.Numerals.{AllPass, AllPass-<>, Stops, span1-<>}
use ndc_mock.Prelude.Splits.{other_than, Passes, done, one_more, exactly-<>}
use ndc_mock.Itinerary.{Leg}
use ndc_mock.Offer.Ident.{is_upper, all_legs, find_trip, decimals, match_price, match_pax, trip_of}
use ndc_mock.Offer.Ident.Texts.{
  upper-other_than, find_trip-whole, first_trip-none, IsTrip, is_trip, is_leg_of,
}

-- The decimals of a fare: none, or a point and digits.
pub data IsDecimals : String → Type 0 where
  whole_units : IsDecimals ""
  with_decimals :
      (ds : String) → AllPass is_digit ds → ◌≢◌ {A = String} ds "" → IsDecimals ("." <> ds)

-- A count: one digit or more.
abbrev pub IsDigits : String → Type 0
IsDigits s = AllPass is_digit s × ◌≢◌ {A = String} s ""

abbrev pub fare_text : String → String → String → String
fare_text cur whole dec = "PR=" <> (cur <> ("/" <> (whole <> dec)))

abbrev pub pax_text : String → String → String → String
pax_text adt chd inf = "PX=" <> (adt <> ("/" <> (chd <> ("/" <> inf))))

span1-digits_end : (s : String) → IsDigits s → span1 is_digit s ≡ some (s, "")
span1-digits_end s (h, ne) = ap (span1 is_digit) (sym (<>_nil s)) ∙ span1-<> is_digit s "" h tt ne

decimals_lem : (dec : String) → IsDecimals dec → decimals dec ≡ some dec
unfolding decimals
decimals_lem _ whole_units = refl
decimals_lem _ (with_decimals ds h ne) =
    rw (span1-digits_end ds (h, ne)) (ground (arith, eq_iff ("." <> ds) ""))

decimals-Stops : (dec : String) → IsDecimals dec → Stops is_digit dec
decimals-Stops _ whole_units = tt
decimals-Stops _ (with_decimals ds h ne) = refl

digits_pass : (s : String) → AllPass is_digit s → AllPass (other_than b'|') s
digits_pass String.[] h = tt
digits_pass (String.◌∷◌ c s) (here, h) = (ground arith, digits_pass s h)

decimals-AllPass : (dec : String) → IsDecimals dec → AllPass (other_than b'|') dec
decimals-AllPass _ whole_units = tt
decimals-AllPass _ (with_decimals ds h ne) = (refl, digits_pass ds h)

-- A fare that is written is read.
pub match_price-fare :
    (cur whole dec : String)
    → Passes is_upper 3 cur
    → IsDigits whole
    → IsDecimals dec
    → match_price (fare_text cur whole dec) ≡ some (cur, whole, dec)
unfolding match_price
match_price-fare cur whole dec hc (hw, ne) hd =
    rw
      (
        exactly-<> is_upper ("/" <> (whole <> dec)) hc,
        span1-<> is_digit whole dec hw (decimals-Stops dec hd) ne,
        decimals_lem dec hd,
      )
      refl

-- Counts that are written are read.
pub match_pax-counts :
    (adt chd inf : String)
    → IsDigits adt
    → IsDigits chd
    → IsDigits inf
    → match_pax (pax_text adt chd inf) ≡ some (adt, chd, inf)
unfolding match_pax
match_pax-counts adt chd inf (ha, na) (hc, nc) hi =
    rw
      (
        span1-<> is_digit adt ("/" <> (chd <> ("/" <> inf))) ha refl na,
        span1-<> is_digit chd ("/" <> inf) hc refl nc,
        span1-digits_end inf hi,
      )
      refl

-- A text with an equals sign in third place is no list of legs.
fare_no_legs :
    (rest : List String) → all_legs (split_from "P" (split_from "R" (split_from "=" rest))) ≡ false
unfolding all_legs split_from
fare_no_legs [] = refl
fare_no_legs (t ∷ ts) = refl

pax_no_legs :
    (rest : List String) → all_legs (split_from "P" (split_from "X" (split_from "=" rest))) ≡ false
unfolding all_legs split_from
pax_no_legs [] = refl
pax_no_legs (t ∷ ts) = refl

-- A fare is no trip.
pub find_trip-fare : (s : String) → AllPass (other_than b'|') s → find_trip ("PR=" <> s) ≡ none
unfolding split
find_trip-fare s h =
    find_trip-whole ("PR=" <> s) (refl, (refl, (refl, h)))
    ∙ first_trip-none ("PR=" <> s) (fare_no_legs (split b'.' s))

-- Counts are no trip.
pub find_trip-counts : (s : String) → AllPass (other_than b'|') s → find_trip ("PX=" <> s) ≡ none
unfolding split
find_trip-counts s h =
    find_trip-whole ("PX=" <> s) (refl, (refl, (refl, h)))
    ∙ first_trip-none ("PX=" <> s) (pax_no_legs (split b'.' s))

pub fare-AllPass :
    (cur whole dec : String)
    → Passes is_upper 3 cur
    → IsDigits whole
    → IsDecimals dec
    → AllPass (other_than b'|') (cur <> ("/" <> (whole <> dec)))
fare-AllPass cur whole dec hc (hw, ne) hd =
    AllPass-<> (other_than b'|') cur _ (upper-other_than b'|' cur refl hc) (
      refl,
      AllPass-<> (other_than b'|') whole dec (digits_pass whole hw) (decimals-AllPass dec hd),
    )

pub counts-AllPass :
    (adt chd inf : String)
    → IsDigits adt
    → IsDigits chd
    → IsDigits inf
    → AllPass (other_than b'|') (adt <> ("/" <> (chd <> ("/" <> inf))))
counts-AllPass adt chd inf (ha, _) (hc, _) (hi, _) =
    AllPass-<> (other_than b'|') adt _ (digits_pass adt ha)
      (refl, AllPass-<> (other_than b'|') chd _ (digits_pass chd hc) (refl, digits_pass inf hi))

third_char :
    (a b c : Char) {from : String} (s : String)
    → is_upper (code c) ≡ false
    → Passes is_upper 3 from
    → cut_prefix (String.◌∷◌ a (String.◌∷◌ b (String.◌∷◌ c String.[]))) (from <> s) ≡ none
unfolding cut_prefix
third_char a b c s h (one_more x hx (one_more y hy (one_more z hz done))) = ground arith

pub trip-third_char :
    (a b c : Char) (ls : List Leg)
    → is_upper (code c) ≡ false
    → IsTrip ls
    → cut_prefix (String.◌∷◌ a (String.◌∷◌ b (String.◌∷◌ c String.[]))) (trip_of ls) ≡ none
unfolding trip_of join
trip-third_char a b c _ h (is_trip l [] ((is_leg_of from to y m d hf ht hy hm hd), hs)) =
    third_char a b c _ h hf
trip-third_char a b c _ h (is_trip l (k ∷ ks) ((is_leg_of from to y m d hf ht hy hm hd), hs)) =
    ap (cut_prefix (String.◌∷◌ a (String.◌∷◌ b (String.◌∷◌ c String.[])))) (<>_assoc from _ _)
    ∙ third_char a b c _ h hf
