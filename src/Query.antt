-- ===== src/Query.antt =====
-- What the mock needs of an AirShoppingRQ (edge/query.go). `xml.Unmarshal` is not the program's:
-- the request comes decoded, and `none` is one that is not readable.
pub mod Laws
use ndc_mock.Prelude.{
  ℕ, zero, suc, ◌+◌, ◌≡◌, refl, Bool, true, false, ◌&&◌, ◌||◌, not, Option, none, some, List, [],
  ◌∷◌, ◌++◌, String, ◌<>◌, if◌then◌else◌, ◌==◌, ◌!=◌, nat_eq, string_eq,
}
use ndc_mock.Prelude.Text.{itoa}
use ndc_mock.Itinerary.{Leg, pattern_of}

pub record Query : Type 0 where
  pub origin : String
  pub dest : String
  pub dep_date : String
  pub ret_date : String
  pub legs : List Leg
  pub adt : ℕ
  pub chd : ℕ
  pub inf : ℕ
  pub country : String
  pub lang : String

pub record OriginDest : Type 0 where
  pub date : String
  pub dep : String
  pub arr : String

-- `airShoppingRQ`: the fields that are used. Of `specific` and `affinity` only the numbers count.
pub record AirShoppingRq : Type 0 where
  pub country_code : String
  pub od192 : List OriginDest
  pub od213 : List OriginDest
  pub specific : ℕ
  pub affinity : ℕ
  pub pax192 : List String
  pub pax213 : List String

pub data Parsed : Type 0 where
  refused : String → Parsed
  parsed : Query → Parsed

unfoldable pub ret_or : Query → String → String
ret_or q d = if q.ret_date != "" then q.ret_date else d

unfoldable pub pax_seg : Query → String
unfolding itoa
pax_seg q = "PX=" <> (itoa q.adt <> ("/" <> (itoa q.chd <> ("/" <> itoa q.inf))))

pub record Counts : Type 0 where
  pub adt : ℕ
  pub chd : ℕ
  pub inf : ℕ

abbrev pub nobody : Counts
nobody = record { adt = 0; chd = 0; inf = 0 }

-- `upper` is `strings.ToUpper`.
module _ (upper : String → String) where
  unfoldable pub leg_of : OriginDest → Leg
  leg_of o = record { from = upper o.dep; to = upper o.arr; date = o.date }

  unfoldable pub legs_of : List OriginDest → List Leg
  unfolding leg_of
  legs_of [] = []
  legs_of (o ∷ od) = leg_of o ∷ legs_of od

  -- One case of the `switch` over the passenger type.
  unfoldable pub add_pax : Counts → String → Counts
  add_pax c ptc =
      let p = upper ptc in
      if p == "ADT"
      then record c { adt = suc c.adt }
      else if p == "CHD"
      then record c { chd = suc c.chd }
      else if p == "INF" || p == "INS"
      then record c { inf = suc c.inf }
      else record c { adt = suc c.adt }

  unfoldable pub count_pax : Counts → List String → Counts
  unfolding add_pax
  count_pax c [] = c
  count_pax c (p ∷ ps) = count_pax (add_pax c p) ps

  second_date : List OriginDest → String
  second_date (o ∷ p ∷ od) = p.date
  second_date _ = ""

  -- The query, once there is an origin-destination.
  unfoldable pub query_of : String → OriginDest → List OriginDest → List String → Query
  unfolding legs_of count_pax second_date
  query_of country o od pax =
      let legs = legs_of (o ∷ od) in
      let c = count_pax nobody pax in
      record {
        origin = upper o.dep;
        dest = upper o.arr;
        dep_date = o.date;
        ret_date = if pattern_of legs == "0-1,1-0" then second_date (o ∷ od) else "";
        legs = legs;
        adt = c.adt;
        chd = c.chd;
        inf = c.inf;
        country = country;
        lang = "";
      }

  -- The last two tests of `parseQuery`.
  checked : Query → Parsed
  checked q =
      if q.origin == "" || q.dest == "" || q.dep_date == ""
      then refused "missing origin, destination or departure date"
      else if q.adt + q.chd + q.inf == 0
      then refused "request carries no passengers"
      else parsed q

  with_criteria : String → List OriginDest → List String → Parsed
  unfolding checked query_of
  with_criteria country [] pax = refused "request carries no OriginDestCriteria"
  with_criteria country (o ∷ od) pax = checked (query_of country o od pax)

  unfoldable pub parse_query : Option AirShoppingRq → Parsed
  unfolding with_criteria
  parse_query none = refused "unreadable AirShoppingRQ"
  parse_query (some rq) =
      if rq.specific != 0 || rq.affinity != 0
      then refused
          "only FlightRequestOriginDestinationsCriteria is supported, not specific or affinity shopping"
      else with_criteria rq.country_code (rq.od192 ++ rq.od213) (rq.pax192 ++ rq.pax213)
