-- ===== src/Tests/Offers.antt =====
-- Offer identifiers that carry what was served, at concrete inputs (edge/offerid.go,
-- edge/offerinfo.go).
use ndc_mock.Prelude.{
  ◌≡◌, refl, sym, none, some, List, [], ◌∷◌, map, String, ◌<>◌, if◌then◌else◌, All, arith,
}
use text.Mathlib.TextLemmas.{nil≢cons}
use ndc_mock.Prelude.Int.{pos}
use ndc_mock.Prelude.Text.{cut, cut_prefix}
use ndc_mock.Prelude.Splits.{done, one_more, all_pass-AllPass, other_than}
use ndc_mock.Prelude.Decimal.{is_digit}
use ndc_mock.Itinerary.{Leg}
use ndc_mock.Offer.Info.{OfferInfo, blank, total_pax}
use ndc_mock.Offer.Ident.{
  Base64, find_trip, match_price, trip_of, decode_text, parse_offer_id, rewrite_segment, describe,
  reencode,
}
use ndc_mock.Offer.Ident.RoundTrip.{IsReadable, coded, coded_mark, plain, without_mark}
use ndc_mock.Offer.Ident.Texts.{IsLeg, is_leg_of, is_trip}
use ndc_mock.Offer.Ident.Fares.{with_decimals}
use ndc_mock.Offer.Ident.Served.{
  Piece, a_trip, a_fare, a_count, no_value, piece_text, IsPiece, IsCarried,
}
use ndc_mock.Offer.Ident.Said.{counts_said}
use ndc_mock.Offer.Ident.Carried.{describe-reencode}

-- A base64 that puts a letter in front of a text.
abbrev letter_b64 : Base64
letter_b64 = record {
  encode = λ s. "Q" <> s;
  decode = λ s.
      if (cut b'~' s).2 then none else elim (cut_prefix "Q" s) [ none ↦ none | some t ↦ some t ];
}

abbrev asked : String
asked = "GRU,NAT,2026-09-30|QPR=USD/351.50|QPX=1/0/0~0|X1"

abbrev out_leg : Leg
out_leg = record { from = "BOG"; to = "MIA"; date = "2026-12-01" }

abbrev home_leg : Leg
home_leg = record { from = "MIA"; to = "BOG"; date = "2026-12-09" }

abbrev served : OfferInfo
served = record (blank "") {
  legs = out_leg ∷ home_leg ∷ [];
  currency = "COP";
  amount = pos 1200000;
  adt = 2;
  chd = 1;
}

-- What the reader makes of the rewritten identifier.
reencode_test :
    reencode letter_b64 asked served
    ≡ "BOG,MIA,2026-12-01.MIA,BOG,2026-12-09|QPR=COP/1200000.50|QPX=2/1/0~0|X1"
unfolding reencode
reencode_test = refl

abbrev said : List Piece
said =
    a_trip (record { from = "GRU"; to = "NAT"; date = "2026-09-30" } ∷ [])
    ∷ a_fare "USD" "351" ".50"
    ∷ a_count "1/0/0"
    ∷ no_value "X1"
    ∷ []

asked-IsLeg : IsLeg (record { from = "GRU"; to = "NAT"; date = "2026-09-30" })
asked-IsLeg =
    is_leg_of "GRU" "NAT" "2026" "09" "30"
      (one_more "G" refl (one_more "R" refl (one_more "U" refl done)))
      (one_more "N" refl (one_more "A" refl (one_more "T" refl done)))
      (one_more "2" refl (one_more "0" refl (one_more "2" refl (one_more "6" refl done))))
      (one_more "0" refl (one_more "9" refl done)) (one_more "3" refl (one_more "0" refl done))

out_leg-IsLeg : IsLeg out_leg
out_leg-IsLeg =
    is_leg_of "BOG" "MIA" "2026" "12" "01"
      (one_more "B" refl (one_more "O" refl (one_more "G" refl done)))
      (one_more "M" refl (one_more "I" refl (one_more "A" refl done)))
      (one_more "2" refl (one_more "0" refl (one_more "2" refl (one_more "6" refl done))))
      (one_more "1" refl (one_more "2" refl done)) (one_more "0" refl (one_more "1" refl done))

home_leg-IsLeg : IsLeg home_leg
home_leg-IsLeg =
    is_leg_of "MIA" "BOG" "2026" "12" "09"
      (one_more "M" refl (one_more "I" refl (one_more "A" refl done)))
      (one_more "B" refl (one_more "O" refl (one_more "G" refl done)))
      (one_more "2" refl (one_more "0" refl (one_more "2" refl (one_more "6" refl done))))
      (one_more "1" refl (one_more "2" refl done)) (one_more "0" refl (one_more "9" refl done))

served-IsCarried : IsCarried served
unfolding total_pax
served-IsCarried = record {
  legs = is_trip out_leg (home_leg ∷ []) (out_leg-IsLeg, (home_leg-IsLeg, tt));
  currency = one_more "C" refl (one_more "O" refl (one_more "P" refl done));
  whole = 1200000;
  amount = refl;
  in_range = omega arith;
  is_paid = omega arith;
  adults = omega arith;
  children = omega arith;
  infants = omega arith;
  is_travelled = omega arith;
}

said-IsPiece : All IsPiece said
unfolding find_trip match_price cut_prefix
said-IsPiece = (
  is_trip (record { from = "GRU"; to = "NAT"; date = "2026-09-30" }) [] (asked-IsLeg, tt),
  (
    (
      one_more "U" refl (one_more "S" refl (one_more "D" refl done)),
      (all_pass-AllPass is_digit "351" refl, λ e. nil≢cons (sym e)),
      with_decimals "50" (all_pass-AllPass is_digit "50" refl) (λ e. nil≢cons (sym e)),
    ),
    (all_pass-AllPass (other_than b'|') "1/0/0" refl, ((refl, refl, refl), tt)),
  ),
)

asked_reads : map (λ s. s.text) (parse_offer_id letter_b64 asked) ≡ map piece_text said
unfolding parse_offer_id trip_of cut_prefix
asked_reads = refl

served_id-IsReadable :
    All
      (IsReadable letter_b64)
      (map (rewrite_segment letter_b64 served) (parse_offer_id letter_b64 asked))
unfolding rewrite_segment parse_offer_id decode_text cut cut_prefix
served_id-IsReadable = (
  plain "BOG,MIA,2026-12-01.MIA,BOG,2026-12-09"
      (all_pass-AllPass (other_than b'|') "BOG,MIA,2026-12-01.MIA,BOG,2026-12-09" refl) refl
      (without_mark
        (all_pass-AllPass (other_than b'~') "BOG,MIA,2026-12-01.MIA,BOG,2026-12-09" refl)),
  (
    coded "PR=COP/1200000.50" (all_pass-AllPass (other_than b'|') "QPR=COP/1200000.50" refl) refl,
    (
      coded_mark "PX=2/1/0" "0" (all_pass-AllPass (other_than b'|') "QPX=2/1/0~0" refl)
          (all_pass-AllPass (other_than b'~') "QPX=2/1/0" refl) refl refl,
      (
        plain "X1" (all_pass-AllPass (other_than b'|') "X1" refl) refl
            (without_mark (all_pass-AllPass (other_than b'~') "X1" refl)),
        tt,
      ),
    ),
  ),
)

describe-reencode_example :
    let d = describe letter_b64 (reencode letter_b64 asked served) in
    (d.legs ≡ served.legs)
    × (d.currency ≡ served.currency)
    × (d.amount ≡ served.amount)
    × (counts_said d ≡ counts_said served)
describe-reencode_example =
    describe-reencode letter_b64 asked served said served-IsCarried asked_reads said-IsPiece
      served_id-IsReadable refl refl refl
