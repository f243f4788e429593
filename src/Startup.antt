-- ===== src/Startup.antt =====
-- What the program reads before it serves: `loadVersions` (edge/versions.go), `loadAirlines`
-- (edge/airlines.go), `loadConfig` (edge/config.go), `loadMappings` (edge/translate.go), and the
-- start of `main` (edge/main.go). Files and the JSON decoder are the record `Reads`; a map is a list
-- in the order in which a loop visits it, which the source leaves open.
pub mod Run
pub mod Routes
pub mod Accepted
pub mod Ready
use ndc_mock.Prelude.{
  ℕ, Bool, true, false, ◌||◌, Option, none, some, List, [], ◌∷◌, map, String, ◌<>◌, if◌then◌else◌,
  ◌==◌, string_eq,
}
use ndc_mock.Prelude.Int.{ℤ}
use ndc_mock.Prelude.Text.{split}
use ndc_mock.Itinerary.{contains}
use ndc_mock.Translate.Mapping.{Map, lookup, Mapping, MappingSet, is_empty, usable}
use ndc_mock.Config.{Profile, Config, Latency, parse_delay}
use ndc_mock.Airline.{Floats, Airline}
use ndc_mock.Template.Load.{set}
use ndc_mock.Template.Build.{sort_texts}
use ndc_mock.Serving.{load_routes}
use ndc_mock.Order.Store.{Store, new_store}
use ndc_mock.Proxy.{Proxy, new_proxy}

-- A value, or the text of an error.
pub data Result {ℓ} (A : Type ℓ) : Type ℓ where
  ok : A → Result A
  err : String → Result A

infixl 5 ◌>>=◌
abbrev pub ◌>>=◌ {ℓ κ} : {A : Type ℓ} {B : Type κ} → Result A → (A → Result B) → Result B
ok a >>= f = f a
err e >>= f = err e

-- `version`.
pub record VersionFile : Type 0 where
  pub iata : String
  pub namespace : String
  pub offer_elem : String
  pub id_elems : List String
  pub stubs_dir : String
  pub path_segment : String

-- What `json.Unmarshal` leaves in an `airline` and an `airlineSet`.
pub record AirlineFile (F : Floats) : Type 0 where
  pub currency : String
  pub hubs : List String
  pub fare_scale : F.Float

pub record AirlineSet (F : Floats) : Type 0 where
  pub airlines : Map (AirlineFile F)
  pub fx_to_usd : Option (Map F.Float)

-- `os.ReadFile`, `filepath.Glob` below a directory and `json.Unmarshal` for each kind of file, with
-- the words of their errors; `quote` is `%q`.
pub record Reads (F : Floats) : Type 0 where
  pub read : String → Result String
  pub json_files : String → Result (List String)
  pub versions_of : String → Result (Map VersionFile)
  pub airlines_of : String → Result (AirlineSet F)
  pub config_of : String → Result Config
  pub mapping_of : String → Result Mapping
  pub routes_of : String → Result (Map String)
  pub quote : String → String

-- `fmt.Errorf("%s: %w", path, err)`
unfoldable pub in_file : {A : Type 0} → String → Result A → Result A
in_file path (ok a) = ok a
in_file path (err e) = err (path <> (": " <> e))

-- What the loop of `loadVersions` sets.
unfoldable pub complete : String → VersionFile → VersionFile
complete seg v = record v {
  path_segment = seg;
  offer_elem = if v.offer_elem == "" then "Offer" else v.offer_elem;
}

-- The loop of `loadVersions`.
unfoldable pub check_versions : String → Map VersionFile → Result (Map VersionFile)
unfolding complete
check_versions path [] = ok []
check_versions path ((seg, v) ∷ vs) =
    let rest = check_versions path vs in
    if is_empty v.id_elems
    then err (path <> (": version " <> (seg <> " declares no idElements")))
    else (rest >>= (λ more. ok ((seg, complete seg v) ∷ more)))

unfoldable pub some_versions : String → Map VersionFile → Result (Map VersionFile)
unfolding check_versions
some_versions path [] = err (path <> ": no versions declared")
some_versions path (v ∷ vs) = check_versions path (v ∷ vs)

-- The structural transforms by name: `structural`.
unfoldable pub transforms : List String
transforms =
    "dated-segments" ∷ "tz-into-datetime" ∷ "weight-unit" ∷ "unpriced-penalties" ∷ "seat-row-number"
    ∷ "definition-owner" ∷ []

module _ {F : Floats} (D : Reads F) where
  unfoldable pub load_version_file : String → Result (Map VersionFile)
  unfolding in_file some_versions
  load_version_file path = do
    b ← D.read path
    vs ← in_file path (D.versions_of b)
    some_versions path vs

  -- The loop of `loadAirlines`.
  unfoldable pub carriers : Option (Map F.Float) → Map (AirlineFile F) → Map (Airline F)
  carriers fx [] = []
  carriers fx ((code, a) ∷ as') =
      (
        code,
        record {
          code = code;
          currency = a.currency;
          hubs = a.hubs;
          fare_scale = if F.is_zero a.fare_scale then F.one else a.fare_scale;
          fx = fx;
        },
      )
      ∷ carriers fx as'

  unfoldable pub load_airlines : String → Result (Map (Airline F))
  unfolding in_file carriers
  load_airlines path = if path == "" then ok [] else (do
    b ← D.read path
    s ← in_file path (D.airlines_of b)
    ok (carriers s.fx_to_usd s.airlines))

  -- The first transform that is none of `structural`.
  unfoldable pub unknown_transform : List String → Option String
  unfolding contains transforms
  unknown_transform [] = none
  unknown_transform (s ∷ ss) =
      let rest = unknown_transform ss in if contains transforms s then rest else some s

  unfoldable pub refused_transform : String → Mapping → Option String → Result Mapping
  refused_transform f m none = ok m
  refused_transform f m (some s) = err (f <> (": unknown structural transform " <> D.quote s))

  -- The tests of `loadMappings` on one file.
  unfoldable pub check_mapping : String → Mapping → Result Mapping
  unfolding refused_transform unknown_transform
  check_mapping f m =
      if m.from == "" || m.to == ""
      then err (f <> ": mapping declares no from/to")
      else refused_transform f m (unknown_transform m.structural)

  unfoldable pub load_mapping : String → Result Mapping
  unfolding in_file check_mapping
  load_mapping f = do b ← D.read f; m ← in_file f (D.mapping_of b); check_mapping f m

  -- The loop of `loadMappings`: a later file of the same pair replaces an earlier one.
  unfoldable pub load_files : List String → MappingSet → Result MappingSet
  unfolding load_mapping set
  load_files [] ms = ok ms
  load_files (f ∷ fl) ms = do
    m ← load_mapping f
    load_files fl (set (m.from <> ("->" <> m.to)) m ms)

  unfoldable pub load_mappings : String → Result MappingSet
  unfolding load_files
  load_mappings dir =
      if dir == "" then ok [] else (do entries ← D.json_files dir; load_files entries [])

  unfoldable pub refused_routes : Map String → Option String → Result (Map String)
  refused_routes rs none = ok rs
  refused_routes rs (some why) = err why

  -- `loadRoutes`: the routes of the file, if its handlers are known.
  unfoldable pub load_route_file : String → Result (Map String)
  unfolding in_file refused_routes load_routes
  load_route_file path = do
    b ← D.read path
    rs ← in_file path (D.routes_of b)
    refused_routes rs (load_routes D.quote path rs)

  module _ (duration : String → Option ℤ) (draw : Latency → ℤ) (why : String → String) where
    -- One test of `loadConfig`; `why` words the error of a latency.
    unfoldable pub delay_check : String → String → Option Latency → Result (Unit {0})
    delay_check path s (some l) = ok tt
    delay_check path s none = err (path <> (": " <> (s <> (": " <> why s))))

    check_routes : String → Map Profile → Result (Unit {0})
    unfolding delay_check parse_delay
    check_routes path [] = ok tt
    check_routes path ((k, p) ∷ m) = do
      _ ← delay_check path ("route " <> k) (parse_delay duration draw p.delay)
      check_routes path m

    check_operations : String → Map String → Result (Unit {0})
    unfolding delay_check parse_delay
    check_operations path [] = ok tt
    check_operations path ((op, d) ∷ m) = do
      _ ← delay_check path ("operation " <> op) (parse_delay duration draw d)
      check_operations path m

    unfoldable pub check_config : String → Config → Result Config
    unfolding check_routes check_operations delay_check parse_delay
    check_config path c = do
      _ ← check_routes path c.routes
      _ ← delay_check path "default" (parse_delay duration draw c.default.delay)
      _ ← check_operations path c.operations
      ok c

    unfoldable pub load_config : String → Result Config
    unfolding in_file check_config
    load_config path =
        if path == ""
        then ok (record {
          default = record { offers = ℤ.pos 0; delay = ""; airline = "" };
          routes = [];
          operations = [];
        })
        else (do b ← D.read path; c ← in_file path (D.config_of b); check_config path c)
