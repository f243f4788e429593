-- ===== src/Offer/Ident/Served.antt =====
-- What an identifier that `reencode` (edge/offerid.go) writes says to `describe`
-- (edge/offerinfo.go).
use ndc_mock.Prelude.{
  ℕ, ◌<◌, ◌^◌, ◌≡◌, ◌≢◌, refl, ap, ◌∙◌, sym, none, List, [], ◌∷◌, String, ◌<>◌, nat_eq, string_eq,
}
use text.Mathlib.TextLemmas.{nil≢cons}
use ndc_mock.Prelude.Int.{pos, int_eq}
use ndc_mock.Prelude.Text.{cut_prefix, join, itoa, itoa_int}
use ndc_mock.Prelude.Numerals.{AllPass}
use ndc_mock.Prelude.Splits.{other_than, Passes, one_more}
use ndc_mock.Itinerary.{Leg}
use ndc_mock.Offer.Info.{OfferInfo, total_pax}
use ndc_mock.Offer.Ident.{
  is_upper, find_trip, match_price, match_pax, match_flight, trip_of, rewrite_trip, rewrite_price,
  rewrite_pax, rewrite_text,
}
use ndc_mock.Offer.Ident.Texts.{IsTrip, is_trip, is_leg_of, find_trip-trip_of, replace_first-whole}
use ndc_mock.Offer.Ident.Fares.{
  IsDecimals, IsDigits, fare_text, pax_text, match_price-fare, find_trip-fare, find_trip-counts,
  fare-AllPass, trip-third_char,
}

-- What a segment of an identifier says.
pub data Piece : Type 0 where
  a_trip : List Leg → Piece
  a_fare : (currency whole dec : String) → Piece
  a_count : String → Piece
  no_value : String → Piece

abbrev pub piece_text : Piece → String
piece_text (a_trip ls) = trip_of ls
piece_text (a_fare cur whole dec) = fare_text cur whole dec
piece_text (a_count s) = "PX=" <> s
piece_text (no_value t) = t

abbrev pub IsPiece : Piece → Type 0
IsPiece (a_trip ls) = IsTrip ls
IsPiece (a_fare cur whole dec) = Passes is_upper 3 cur × IsDigits whole × IsDecimals dec
IsPiece (a_count s) = AllPass (other_than b'|') s
IsPiece (no_value t) = (find_trip t ≡ none) × (match_price t ≡ none) × (cut_prefix "PX=" t ≡ none)

-- Values that an identifier can carry.
pub record IsCarried (info : OfferInfo) : Type 0 where
  pub legs : IsTrip info.legs
  pub currency : Passes is_upper 3 info.currency
  pub whole : ℕ
  pub amount : info.amount ≡ pos whole
  pub in_range : whole < 2 ^ 63
  pub is_paid : ◌≢◌ {A = ℕ} whole 0
  pub adults : info.adt < 2 ^ 63
  pub children : info.chd < 2 ^ 63
  pub infants : info.inf < 2 ^ 63
  pub is_travelled : ◌≢◌ {A = ℕ} (total_pax info) 0

-- The text that stands for a piece once the values are served.
abbrev pub served_text : OfferInfo → Piece → String
served_text info (a_trip ls) = trip_of info.legs
served_text info (a_fare cur whole dec) = fare_text info.currency (itoa_int info.amount) dec
served_text info (a_count s) = pax_text (itoa info.adt) (itoa info.chd) (itoa info.inf)
served_text info (no_value t) = t

rewrite-steps :
    (info : OfferInfo) (t t₁ t₂ : String)
    → rewrite_trip (find_trip t) info t ≡ t₁
    → rewrite_price (match_price t₁) info t₁ ≡ t₂
    → rewrite_text info t ≡ rewrite_pax info t₂
unfolding rewrite_text
rewrite-steps info t t₁ t₂ e₁ e₂ =
    ap (λ x. rewrite_pax info (rewrite_price (match_price x) info x)) e₁ ∙ ap (rewrite_pax info) e₂

no_pax : (info : OfferInfo) (t : String) → cut_prefix "PX=" t ≡ none → rewrite_pax info t ≡ t
unfolding rewrite_pax
no_pax info t h = rw h refl

pub no_price-trip : (ls : List Leg) → IsTrip ls → match_price (trip_of ls) ≡ none
unfolding match_price
no_price-trip ls h = rw (trip-third_char "P" "R" "=" ls refl h) refl

pub no_pax-trip : (ls : List Leg) → IsTrip ls → match_pax (trip_of ls) ≡ none
unfolding match_pax
no_pax-trip ls h = rw (trip-third_char "P" "X" "=" ls refl h) refl

pub no_flight-trip : (ls : List Leg) → IsTrip ls → match_flight (trip_of ls) ≡ none
unfolding match_flight
no_flight-trip ls h = rw (trip-third_char "I" "F" "=" ls refl h) refl

trip_of-ne : (ls : List Leg) → IsTrip ls → ◌≢◌ {A = String} (trip_of ls) ""
unfolding trip_of join
trip_of-ne _ (is_trip l [] ((is_leg_of _ to y m d (one_more c hc hf) ht hy hm hd), hs)) e =
    nil≢cons (sym e)
trip_of-ne _ (is_trip l (k ∷ ks) ((is_leg_of _ to y m d (one_more c hc hf) ht hy hm hd), hs)) e =
    nil≢cons (sym e)

pub no_price-counts : (s : String) → match_price ("PX=" <> s) ≡ none
unfolding match_price
no_price-counts s = refl

-- Every piece is rewritten to what it stands for.
pub rewrite_text-served :
    (info : OfferInfo) (p : Piece)
    → IsTrip info.legs
    → IsPiece p
    → rewrite_text info (piece_text p) ≡ served_text info p
unfolding rewrite_trip rewrite_price rewrite_pax
rewrite_text-served info (a_trip ls) hl h =
    rewrite-steps info (trip_of ls) (trip_of info.legs) (trip_of info.legs)
      (ap (λ r. rewrite_trip r info (trip_of ls)) (find_trip-trip_of ls h)
        ∙ replace_first-whole (trip_of ls) (trip_of info.legs) (trip_of-ne ls h))
      (ap (λ r. rewrite_price r info (trip_of info.legs)) (no_price-trip info.legs hl))
    ∙ no_pax info (trip_of info.legs) (trip-third_char "P" "X" "=" info.legs refl hl)
rewrite_text-served info (a_fare cur whole dec) hl (hc, hw, hd) =
    let t = fare_text cur whole dec in
    rewrite-steps info t t (fare_text info.currency (itoa_int info.amount) dec)
      (ap (λ r. rewrite_trip r info t) (find_trip-fare _ (fare-AllPass cur whole dec hc hw hd)))
      (ap (λ r. rewrite_price r info t) (match_price-fare cur whole dec hc hw hd))
rewrite_text-served info (a_count s) hl h =
    rewrite-steps info ("PX=" <> s) ("PX=" <> s) ("PX=" <> s)
      (ap (λ r. rewrite_trip r info ("PX=" <> s)) (find_trip-counts s h))
      (ap (λ r. rewrite_price r info ("PX=" <> s)) (no_price-counts s))
rewrite_text-served info (no_value t) hl (ht, hp, hx) =
    rewrite-steps info t t t (ap (λ r. rewrite_trip r info t) ht)
      (ap (λ r. rewrite_price r info t) hp)
    ∙ no_pax info t hx
