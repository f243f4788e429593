-- ===== src/Config.antt =====
-- Route profiles, latency and the operator's ceilings (edge/config.go). A `time.Duration` is its
-- nanoseconds. `time.ParseDuration` and the drawing of a log-normal are not the program's: they are
-- the parameters `duration` and `draw`.
pub mod Bounds
use ndc_mock.Prelude.{
  ℕ, suc, ◌≡◌, refl, Bool, true, false, ◌&&◌, ◌||◌, not, Option, none, some, List, [], ◌∷◌, String,
  ◌<>◌, if◌then◌else◌, ◌==◌, ◌!=◌, string_eq, ◌>>=◌,
}
use ndc_mock.Prelude.Int.{ℤ, pos, ltb_ℤ, leb_ℤ, int_eq}
use ndc_mock.Prelude.Text.{cut, trim_space, Atoi, num, bad, range, atoi}
use ndc_mock.Translate.Mapping.{Map, lookup}

pub record Profile : Type 0 where
  pub offers : ℤ
  pub delay : String
  pub airline : String

pub record Config : Type 0 where
  pub default : Profile
  pub routes : Map Profile
  pub operations : Map String

pub record Latency : Type 0 where
  pub p50 : ℤ
  pub p95 : ℤ

abbrev pub no_latency : Latency
no_latency = record { p50 = pos 0; p95 = pos 0 }

-- A requested offer count, bounded.
unfoldable pub clamp_offers : ℤ → ℤ → ℤ
clamp_offers n max = if ltb_ℤ (pos 0) max && ltb_ℤ max n then max else n

unfoldable pub clamp_delay : ℤ → ℤ → ℤ
clamp_delay d max = if ltb_ℤ (pos 0) max && ltb_ℤ max d then max else d

overlay : Profile → Option Profile → Profile
overlay p none = p
overlay p (some r) = record {
  offers = if r.offers != pos 0 then r.offers else p.offers;
  delay = if r.delay != "" then r.delay else p.delay;
  airline = if r.airline != "" then r.airline else p.airline;
}

-- The default profile, with what the route's own profile sets.
unfoldable pub merged : Config → String → String → Profile
unfolding overlay lookup
merged c origin dest = overlay c.default (lookup c.routes (origin <> ("-" <> dest)))

unfoldable pub airline_for : Config → String → String → String
unfolding merged
airline_for c origin dest = (merged c origin dest).airline

module _ (duration : String → Option ℤ) (draw : Latency → ℤ) where
  range_of : ℤ → Option ℤ → Option Latency
  range_of p50 none = none
  range_of p50 (some p95) =
      if leb_ℤ p50 (pos 0) || ltb_ℤ p95 p50 then none else some (record { p50 = p50; p95 = p95 })

  delay_of : String × String × Bool → Option Latency
  unfolding range_of trim_space
  delay_of (lo, hi, ranged) = do
    p50 ← duration (trim_space lo)
    if ranged
        then range_of p50 (duration (trim_space hi))
        else some (record { p50 = p50; p95 = p50 })

  -- `parseDelay`; `none` is an error.
  unfoldable pub parse_delay : String → Option Latency
  unfolding delay_of cut trim_space
  parse_delay s = let t = trim_space s in if t == "" then some no_latency else delay_of (cut b'~' t)

  unfoldable pub sample : Latency → ℤ
  sample l = if leb_ℤ l.p95 l.p50 then l.p50 else draw l

  -- The latency that is used where the error is ignored.
  abbrev pub or_none : Option Latency → Latency
  or_none none = no_latency
  or_none (some l) = l

  -- A header's latency, if it is one and it is positive.
  unfoldable pub chosen_delay : Option Latency → Latency → Latency
  chosen_delay none l = l
  chosen_delay (some h) l = if ltb_ℤ (pos 0) h.p50 then h else l

  unfoldable pub chosen_offers : Atoi → ℤ → ℤ
  chosen_offers (num n) offers = if ltb_ℤ (pos 0) n then n else offers
  chosen_offers bad offers = offers
  chosen_offers (range n) offers = offers

  -- Offer count and latency: headers before the route's profile before the default.
  unfoldable pub resolve : Config → String → String → String → String → ℤ × ℤ
  unfolding merged chosen_offers chosen_delay parse_delay sample atoi
  resolve c origin dest hdr_offers hdr_delay =
      let p = merged c origin dest in
      (
        chosen_offers (atoi hdr_offers) p.offers,
        sample (chosen_delay (parse_delay hdr_delay) (or_none (parse_delay p.delay))),
      )

  unfoldable pub resolve_bounded : Config → String → String → String → String → ℤ → ℤ → ℤ × ℤ
  unfolding resolve clamp_offers clamp_delay
  resolve_bounded c origin dest hdr_offers hdr_delay max_n max_d =
      let (n, d) = resolve c origin dest hdr_offers hdr_delay in
      (clamp_offers n max_n, clamp_delay d max_d)

  by_handler : Map String → Option String → Option String
  unfolding lookup
  by_handler operations none = lookup operations ""
  by_handler operations (some h) = lookup operations h

  op_value : Option String → Option String → String
  op_value (some v) other = v
  op_value none (some v) = v
  op_value none none = ""

  -- `routes` maps the paths of the operations to their handlers.
  unfoldable pub op_delay : Map String → Config → String → ℤ
  unfolding op_value by_handler lookup parse_delay sample
  op_delay routes c op =
      let v = op_value (lookup c.operations op) (by_handler c.operations (lookup routes op)) in
      sample (or_none (parse_delay v))

  all_parse : List String → Bool
  unfolding parse_delay
  all_parse [] = true
  all_parse (d ∷ ds) =
      let rest = all_parse ds in elim (parse_delay d) [ none ↦ false | some l ↦ rest ]

  route_delays : Map Profile → List String
  route_delays [] = []
  route_delays ((k, p) ∷ m) = p.delay ∷ route_delays m

  op_delays : Map String → List String
  op_delays [] = []
  op_delays ((k, d) ∷ m) = d ∷ op_delays m

  -- What `loadConfig` accepts, of a file that was read: every latency parses.
  unfoldable pub accepts : Config → Bool
  unfolding all_parse route_delays op_delays
  accepts c =
      all_parse (route_delays c.routes)
      && all_parse (c.default.delay ∷ [])
      && all_parse (op_delays c.operations)
