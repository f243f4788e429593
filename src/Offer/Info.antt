-- ===== src/Offer/Info.antt =====
-- `offerInfo`, its defaults, and the flights and passengers that are read off it.
pub mod Defaults
use ndc_mock.Prelude.{
  ℕ, zero, suc, ◌+◌, ◌%◌, ◌^◌, Bool, false, ◌&&◌, List, [], ◌∷◌, ◌++◌, String, ◌<>◌, if◌then◌else◌,
  ◌==◌, ◌!=◌, nat_eq, string_eq,
}
use ndc_mock.Prelude.Int.{ℤ, pos, add_int, int_eq}
use ndc_mock.Prelude.Text.{cut, itoa, itoa_int, num, bad, range, atoi}
use ndc_mock.Itinerary.{Leg, pattern_of}

-- A passenger count is read from digits or counted up from zero, so it is not negative.
pub record OfferInfo : Type 0 where
  pub origin : String
  pub dest : String
  pub dep_date : String
  pub ret_date : String
  pub round_trip : Bool
  pub legs : List Leg
  pub carrier : String
  pub flight_num : String
  pub dep_time : String
  pub arr_time : String
  pub currency : String
  pub amount : ℤ
  pub adt : ℕ
  pub chd : ℕ
  pub inf : ℕ
  pub raw : String

-- `offerInfo{Raw: id}`
abbrev pub blank : String → OfferInfo
blank id = record {
  origin = "";
  dest = "";
  dep_date = "";
  ret_date = "";
  round_trip = false;
  legs = [];
  carrier = "";
  flight_num = "";
  dep_time = "";
  arr_time = "";
  currency = "";
  amount = pos 0;
  adt = 0;
  chd = 0;
  inf = 0;
  raw = id;
}

-- `legs[1].Date`, which is read only of a return.
second_date : List Leg → String
second_date (l ∷ m ∷ legs) = m.date
second_date _ = ""

unfoldable pub set_legs : List Leg → OfferInfo → OfferInfo
unfolding second_date pattern_of
set_legs [] i = record i { legs = [] }
set_legs (l ∷ legs) i =
    let back = pattern_of (l ∷ legs) == "0-1,1-0" in
    record i {
      legs = l ∷ legs;
      origin = l.from;
      dest = l.to;
      dep_date = l.date;
      round_trip = back;
      ret_date = if back then second_date (l ∷ legs) else "";
    }

abbrev pub or_default : String → String → String
or_default s def = if s == "" then def else s

unfoldable pub total_pax : OfferInfo → ℕ
total_pax i = (i.adt + i.chd + i.inf) % 2 ^ 64

default_route : OfferInfo → OfferInfo
default_route i = if i.origin == "" then record i { origin = "AAA"; dest = "BBB" } else i

default_texts : OfferInfo → OfferInfo
default_texts i =
    let dep = or_default i.dep_date "2026-01-01" in
    record i {
      dep_date = dep;
      carrier = or_default i.carrier "XX";
      flight_num = or_default i.flight_num "1000";
      dep_time = or_default i.dep_time (dep <> "T08:00:00");
      arr_time = or_default i.arr_time (dep <> "T12:00:00");
      currency = or_default i.currency "USD";
    }

default_numbers : OfferInfo → OfferInfo
unfolding total_pax
default_numbers i = record i {
  amount = if i.amount == pos 0 then pos 100000 else i.amount;
  adt = if total_pax i == 0 then 1 else i.adt;
}

leg_of : String → String → String → Leg
leg_of from to date = record { from = from; to = to; date = date }

default_legs : OfferInfo → List Leg → List Leg
unfolding leg_of
default_legs i (l ∷ legs) = l ∷ legs
default_legs i [] =
    leg_of i.origin i.dest i.dep_date
    ∷ (if i.round_trip && i.ret_date != "" then leg_of i.dest i.origin i.ret_date ∷ [] else [])

-- Fills in what an identifier did not carry, in the order of the source.
unfoldable pub apply_defaults : OfferInfo → OfferInfo
unfolding default_route default_texts default_numbers default_legs
apply_defaults i =
    let j = default_numbers (default_texts (default_route i)) in
    record j { legs = default_legs j j.legs }

-- The names from `k + 1` on, `n` of them.
unfoldable pub numbered : String → ℕ → ℕ → List String
unfolding itoa
numbered prefix k zero = []
numbered prefix k (suc n) = (prefix <> itoa (suc k)) ∷ numbered prefix (suc k) n

-- The passenger identifiers, in the order in which the response declares them.
unfoldable pub pax_ids : OfferInfo → List String
unfolding numbered
pax_ids i = numbered "ADT_" 0 i.adt ++ (numbered "CHD_" 0 i.chd ++ numbered "INF_" 0 i.inf)

unfoldable pub ptc_of : String → String
unfolding cut
ptc_of pax_id = (cut b'_' pax_id).0

pub record Passenger : Type 0 where
  pub id : String
  pub ptc : String
  pub given : String
  pub surname : String
  pub birthdate : String

unfoldable pub birthdate_for : String → String
birthdate_for ptc =
    if ptc == "CHD" then "2018-05-10" else if ptc == "INF" then "2025-03-02" else "1990-01-15"

-- The loop of `buildPax`; `n` counts the passengers before.
build_pax_from : ℕ → List String → List Passenger
unfolding ptc_of birthdate_for itoa
build_pax_from n [] = []
build_pax_from n (id ∷ ids) =
    record {
      id = id;
      ptc = ptc_of id;
      given = "TEST";
      surname = "PASSENGER" <> itoa (suc n);
      birthdate = birthdate_for (ptc_of id);
    }
    ∷ build_pax_from (suc n) ids

-- The passenger list that an order carries, with synthetic names.
unfoldable pub build_pax : OfferInfo → List Passenger
unfolding build_pax_from pax_ids
build_pax i = build_pax_from 0 (pax_ids i)

pub record FlightLeg : Type 0 where
  pub from : String
  pub to : String
  pub dep : String
  pub arr : String
  pub flight : String

unfoldable pub bump_flight : String → String
unfolding atoi itoa_int add_int
bump_flight f = elim (atoi f) [ num n ↦ itoa_int (add_int n (pos 1)) | bad ↦ f | range n ↦ f ]

-- The loop of `legs` over the legs after the first.
later_legs : String → List Leg → List FlightLeg
unfolding bump_flight
later_legs flight [] = []
later_legs flight (l ∷ legs) =
    let next = bump_flight flight in
    record {
      from = l.from;
      to = l.to;
      dep = l.date <> "T10:00:00";
      arr = l.date <> "T14:00:00";
      flight = next;
    }
    ∷ later_legs next legs

-- `i.Legs[min(1, len(i.Legs)):]`
rest_of : List Leg → List Leg
rest_of [] = []
rest_of (l ∷ legs) = legs

-- One flight for each leg of the itinerary: the first as the identifier describes it, the others
-- on their own dates with the next flight numbers.
unfoldable pub flight_legs : OfferInfo → List FlightLeg
unfolding later_legs rest_of
flight_legs i =
    record {
      from = i.origin;
      to = i.dest;
      dep = i.dep_time;
      arr = i.arr_time;
      flight = i.flight_num;
    }
    ∷ later_legs i.flight_num (rest_of i.legs)

unfoldable pub segment_id : FlightLeg → String
segment_id l = "SEG_" <> (l.from <> ("_" <> (l.to <> ("_" <> l.flight))))

unfoldable pub segment_ids_of : List FlightLeg → List String
unfolding segment_id
segment_ids_of [] = []
segment_ids_of (l ∷ ls) = segment_id l ∷ segment_ids_of ls

unfoldable pub segment_ids : OfferInfo → List String
unfolding segment_ids_of flight_legs
segment_ids i = segment_ids_of (flight_legs i)

-- `info.segmentIDs()[0]`; there is always a first flight.
unfoldable pub first_segment : List String → String
first_segment [] = ""
first_segment (s ∷ ss) = s
