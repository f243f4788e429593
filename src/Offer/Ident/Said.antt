-- ===== src/Offer/Ident/Said.antt =====
-- What `describe` (edge/offerinfo.go) reads off an identifier that `reencode` (edge/offerid.go)
-- wrote.
use ndc_mock.Prelude.{
  ℕ, ◌≡◌, refl, ◌∙◌, inl, inr, ◌⊎◌, Option, none, some, List, [], ◌∷◌, String, ◌<>◌, ◌==◌, nat_eq,
  string_eq, Bool-cases,
}
use ndc_mock.Prelude.Int.{ℤ, int_eq}
use ndc_mock.Prelude.Text.{cut_prefix, itoa, itoa_int}
use ndc_mock.Prelude.Numerals.{itoa-AllPass, itoa-ne, atoi-itoa}
use ndc_mock.Itinerary.{Leg}
use ndc_mock.Offer.Info.{OfferInfo, set_legs}
use ndc_mock.Offer.Ident.{
  find_trip, match_price, match_pax, match_flight, trip_of, parse_legs, Flight, read_trip,
  read_flight, read_price, read_pax, read_segment, value_of, count_of,
}
use ndc_mock.Offer.Ident.Texts.{find_trip-trip_of}
use ndc_mock.Offer.Ident.Fares.{
  IsDecimals, IsDigits, fare_text, pax_text, match_price-fare, match_pax-counts, find_trip-fare,
  find_trip-counts, fare-AllPass, counts-AllPass,
}
use ndc_mock.Offer.Ident.Served.{
  IsCarried, no_price-trip, no_pax-trip, no_flight-trip, no_price-counts,
}

pub read-steps :
    (i : OfferInfo) (t : String) (a : Option String) (b : Option Flight)
    (c d : Option (String × String × String))
    → find_trip t ≡ a
    → match_flight t ≡ b
    → match_price t ≡ c
    → match_pax t ≡ d
    → read_segment i t ≡ read_pax d (read_price c (read_flight b (read_trip a i)))
unfolding read_segment
read-steps i t a b c d ea eb ec ed = rw (ea, eb, ec, ed) refl

no_flight-fare : (s : String) → match_flight ("PR=" <> s) ≡ none
unfolding match_flight
no_flight-fare s = refl

no_flight-counts : (s : String) → match_flight ("PX=" <> s) ≡ none
unfolding match_flight
no_flight-counts s = refl

no_pax-fare : (s : String) → match_pax ("PR=" <> s) ≡ none
unfolding match_pax
no_pax-fare s = refl

itoa-IsDigits : (n : ℕ) → IsDigits (itoa n)
itoa-IsDigits n = (itoa-AllPass n, itoa-ne n)

module _ (info : OfferInfo) (k : IsCarried info) where
  pub read-trip :
      (i : OfferInfo) → read_segment i (trip_of info.legs) ≡ read_trip (some (trip_of info.legs)) i
  unfolding read_flight read_price read_pax
  read-trip i =
      let ls = info.legs in
      read-steps i (trip_of ls) (some (trip_of ls)) none none none (find_trip-trip_of ls k.legs)
        (no_flight-trip ls k.legs) (no_price-trip ls k.legs) (no_pax-trip ls k.legs)

  pub read-fare :
      (i : OfferInfo) (dec : String)
      → IsDecimals dec
      → read_segment i (fare_text info.currency (itoa_int info.amount) dec)
        ≡ record i { currency = info.currency; amount = info.amount }
  unfolding read_flight read_price read_pax read_trip itoa_int value_of
  read-fare i dec hd = rw (k.amount) (
      let t = fare_text info.currency (itoa k.whole) dec in
      read-steps i t none none (some (info.currency, itoa k.whole, dec)) none
        (find_trip-fare _
          (fare-AllPass info.currency (itoa k.whole) dec k.currency (itoa-IsDigits k.whole) hd))
        (no_flight-fare _)
        (match_price-fare info.currency (itoa k.whole) dec k.currency (itoa-IsDigits k.whole) hd)
        (no_pax-fare _)
      ∙ rw (atoi-itoa k.whole k.in_range) refl)

  pub read-counts :
      (i : OfferInfo)
      → read_segment i (pax_text (itoa info.adt) (itoa info.chd) (itoa info.inf))
        ≡ record i { adt = info.adt; chd = info.chd; inf = info.inf }
  unfolding read_flight read_price read_pax read_trip value_of count_of
  read-counts i =
      let t = pax_text (itoa info.adt) (itoa info.chd) (itoa info.inf) in
      read-steps i t none none none (some (itoa info.adt, itoa info.chd, itoa info.inf))
        (find_trip-counts _ (
          counts-AllPass (itoa info.adt) (itoa info.chd) (itoa info.inf) (itoa-IsDigits info.adt)
            (itoa-IsDigits info.chd) (itoa-IsDigits info.inf)))
        (no_flight-counts _) (no_price-counts _)
        (match_pax-counts (itoa info.adt) (itoa info.chd) (itoa info.inf) (itoa-IsDigits info.adt)
          (itoa-IsDigits info.chd) (itoa-IsDigits info.inf))
      ∙ rw
          (atoi-itoa info.adt k.adults, atoi-itoa info.chd k.children, atoi-itoa info.inf k.infants)
          refl

abbrev pub fare_said : OfferInfo → String × ℤ
fare_said i = (i.currency, i.amount)

abbrev pub counts_said : OfferInfo → ℕ × ℕ × ℕ
counts_said i = (i.adt, i.chd, i.inf)

pub set_legs-same :
    (ls : List Leg) (i : OfferInfo)
    → ((set_legs ls i).legs ≡ ls)
      × (fare_said (set_legs ls i) ≡ fare_said i)
      × (counts_said (set_legs ls i) ≡ counts_said i)
unfolding set_legs
set_legs-same [] i = (refl, refl, refl)
set_legs-same (l ∷ ls) i = (refl, refl, refl)

pub legs-cases : (ls : List Leg) → (ls ≡ []) ⊎ ((l : Leg) × (ms : List Leg) × (ls ≡ l ∷ ms))
legs-cases [] = inl refl
legs-cases (l ∷ ms) = inr (l, ms, refl)

pub read_trip-first :
    (t : String) (i : OfferInfo) → i.legs ≡ [] → read_trip (some t) i ≡ set_legs (parse_legs t) i
unfolding read_trip
read_trip-first t i e = rw e refl

pub read_trip-later :
    (a : Option String) (i : OfferInfo) (l : Leg) (ls : List Leg)
    → i.legs ≡ l ∷ ls
    → read_trip a i ≡ i
unfolding read_trip
read_trip-later none i l ls e = refl
read_trip-later (some t) i l ls e = rw e refl

pub read_trip-rest :
    (a : Option String) (i : OfferInfo)
    → (fare_said (read_trip a i) ≡ fare_said i) × (counts_said (read_trip a i) ≡ counts_said i)
unfolding read_trip
read_trip-rest none i = (refl, refl)
read_trip-rest (some t) i = elim (legs-cases i.legs) [
  | inl e ↦ let same = set_legs-same (parse_legs t) i in rw (read_trip-first t i e) (same.1, same.2)
  | inr (l, ls, e) ↦ rw (read_trip-later (some t) i l ls e) (refl, refl)
]

read_flight-rest :
    (b : Option Flight) (i : OfferInfo)
    → ((read_flight b i).legs ≡ i.legs)
      × (fare_said (read_flight b i) ≡ fare_said i)
      × (counts_said (read_flight b i) ≡ counts_said i)
unfolding read_flight
read_flight-rest none i = (refl, refl, refl)
read_flight-rest (some f) i = elim (Bool-cases (i.origin == "")) [
  | inl e ↦ rw e (refl, refl, refl)
  | inr e ↦ rw e (refl, refl, refl)
]

-- A text that says nothing of the three.
pub read-nothing :
    (i : OfferInfo) (t : String)
    → find_trip t ≡ none
    → match_price t ≡ none
    → match_pax t ≡ none
    → ((read_segment i t).legs ≡ i.legs)
      × (fare_said (read_segment i t) ≡ fare_said i)
      × (counts_said (read_segment i t) ≡ counts_said i)
unfolding read_trip read_price read_pax
read-nothing i t ht hp hx =
    rw (read-steps i t none (match_flight t) none none ht refl hp hx)
      (read_flight-rest (match_flight t) i)

pub no_pax-plain : (t : String) → cut_prefix "PX=" t ≡ none → match_pax t ≡ none
unfolding match_pax
no_pax-plain t h = rw h refl
