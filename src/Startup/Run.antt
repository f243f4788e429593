-- ===== src/Startup/Run.antt =====
-- The start of `main`, and what it registers: `registerRoutes` (edge/main.go). Flags are parsed, and
-- the server runs, in the library.
use ndc_mock.Prelude.{
  Bool, true, false, Option, none, some, List, [], ◌∷◌, ◌++◌, String, ◌<>◌, if◌then◌else◌, ◌==◌,
  ◌!=◌, length, string_eq,
}
use ndc_mock.Prelude.Int.{ℤ}
use ndc_mock.Prelude.Text.{split}
use ndc_mock.Tree.Parse.{RawToken}
use ndc_mock.Translate.Mapping.{Map, lookup, MappingSet, usable}
use ndc_mock.Config.{Config, Latency}
use ndc_mock.Offer.Ident.{Base64}
use ndc_mock.Airline.{Floats, Airline}
use ndc_mock.Http.{Json, object, field, no_fields}
use ndc_mock.Order.Store.{Store, new_store, size}
use ndc_mock.Proxy.{Proxy, new_proxy}
use ndc_mock.Template.Build.{Template, sort_texts}
use ndc_mock.Template.Load.{Files, Served, load_templates}
use ndc_mock.Startup.{
  Result, ok, err, ◌>>=◌, VersionFile, Reads, load_version_file, load_airlines, load_config,
  load_mappings, load_route_file,
}

-- The flags that decide what is served.
pub record Flags : Type 0 where
  pub stubs : String
  pub config : String
  pub versions : String
  pub airlines : String
  pub translations : String
  pub operations : String
  pub flat_version : String
  pub delay : String
  pub offers : ℤ
  pub order_ttl : ℤ
  pub order_max : ℤ
  pub upstream : String
  pub record_to : String
  pub forward_headers : String

-- The variable `routes`, before a file replaces it.
unfoldable pub default_routes : Map String
default_routes =
    ("airshopping", "airshopping")
    ∷ ("offerprice", "offerprice")
    ∷ ("ordercreate", "ordercreate")
    ∷ ("orderretrieve", "orderretrieve")
    ∷ ("orderchange", "orderchange")
    ∷ ("ordercancel", "ordercancel")
    ∷ ("orderreshop", "orderreshop")
    ∷ ("servicelist", "servicelist")
    ∷ ("seatavailability", "seatavailability")
    ∷ []

-- `orDefault`, `orDash` and `orNone`.
unfoldable pub or_default : String → String → String
or_default s def = if s == "" then def else s

unfoldable pub or_dash : String → String
or_dash s = if s == "" then "0s (uncalibrated)" else if s == "0s" then "0s (uncalibrated)" else s

unfoldable pub or_none : String → String
or_none s = if s == "" then "(reference)" else s

unfoldable pub keys : {A : Type 0} → Map A → List String
keys [] = []
keys ((k, a) ∷ m) = k ∷ keys m

-- `pairs`
unfoldable pub pairs : MappingSet → List String
unfolding keys sort_texts
pairs ms = sort_texts (keys ms)

status_of : Bool → String
status_of true = "ready"
status_of false = "EMPTY - records that this generation has no source yet; requests for it will 501"

-- The loop of `main` over the pairs: what it logs.
unfoldable pub statuses : MappingSet → List String → List String
unfolding status_of usable lookup
statuses ms [] = []
statuses ms (p ∷ ps) =
    ("translation " <> (p <> (": " <> status_of (usable (lookup ms p))))) ∷ statuses ms ps

-- What `main` sets before it listens.
pub record Settings (F : Floats) : Type 0 where
  pub versions : Map VersionFile
  pub airlines : Map (Airline F)
  pub config : Config
  pub mappings : MappingSet
  pub routes : Map String

pub record Started (F : Floats) : Type 0 where
  pub settings : Settings F
  pub logged : List String
  pub store : Store
  pub proxy : Option Proxy
  pub templates : Map Template

-- How the start ends: the program listens, it stops with a message, or it panics.
pub data Start (F : Floats) : Type 0 where
  listening : Started F → Start F
  fatal : String → Start F
  panicked : Start F

-- The versions as `loadTemplates` uses them.
unfoldable pub served_of : Map VersionFile → List Served
served_of [] = []
served_of ((seg, v) ∷ vs) =
    record {
      seg = seg;
      stubs_dir = v.stubs_dir;
      version = record { iata = v.iata; offer_elem = v.offer_elem; id_elems = v.id_elems };
    }
    ∷ served_of vs

module _ {F : Floats} (D : Reads F) (duration : String → Option ℤ) (draw : Latency → ℤ)
    (why : String → String) where
  unfoldable pub with_default : Flags → Config → Config
  with_default fl c =
      if fl.config == ""
      then record c { default = record { offers = fl.offers; delay = fl.delay; airline = "" } }
      else c

  unfoldable pub routes_for : String → Result (Map String)
  unfolding load_route_file default_routes
  routes_for path = if path != "" then load_route_file D path else ok default_routes

  -- The files that `main` reads, in its order.
  unfoldable pub settings_for : Flags → Result (Settings F)
  unfolding or_default load_version_file load_airlines load_config load_mappings routes_for
      with_default
  settings_for fl = do
    vs ← load_version_file D (or_default fl.versions "../versions.json")
    airs ← load_airlines D (or_default fl.airlines "../airlines.json")
    c ← load_config D duration draw why fl.config
    ms ← load_mappings D (or_default fl.translations "../translations")
    rs ← routes_for fl.operations
    ok (record {
      versions = vs;
      airlines = airs;
      config = with_default fl c;
      mappings = ms;
      routes = rs;
    })

  module _ (fs : Files) (b64 : Base64) (parse : String → Option ℤ)
      (replace : List (String × String) → String → String)
      (tokens_of : String → List RawToken × Bool) (escape_text lower upper : String → String) where
    unfoldable pub with_templates : Flags → Settings F → Option (Option (Map Template)) → Start F
    unfolding statuses pairs new_store new_proxy split
    with_templates fl s none = panicked
    with_templates fl s (some none) =
        fatal "no reference response loaded for any version; nothing to serve"
    with_templates fl s (some (some ts)) = listening (record {
      settings = s;
      logged = statuses s.mappings (pairs s.mappings);
      store = new_store fl.order_ttl fl.order_max;
      proxy = new_proxy fl.upstream fl.record_to (split b',' fl.forward_headers);
      templates = ts;
    })

    unfoldable pub with_settings : Flags → Result (Settings F) → Start F
    unfolding with_templates load_templates served_of
    with_settings fl (err e) = fatal e
    with_settings fl (ok s) = with_templates fl s (
        load_templates fs b64 parse replace tokens_of escape_text lower upper s.mappings fl.stubs
          fl.flat_version (served_of s.versions))

    unfoldable pub start : Flags → Start F
    unfolding with_settings settings_for
    start fl =
        if fl.stubs == ""
        then fatal "missing -stubs: point it at a directory of reference responses"
        else with_settings fl (settings_for fl)

-- What a path is registered for.
pub data Target : Type 0 where
  token : Target
  health : Target
  stats : Target
  -- A handler below the proxy, with the path that the proxy is told.
  operation : String → String → Target

unfoldable pub operations_at : String → Map String → List (String × Target)
operations_at base [] = []
operations_at base ((path, h) ∷ rs) = (base <> path, operation path h) ∷ operations_at base rs

unfoldable pub operations_of : Map VersionFile → Map String → List (String × Target)
unfolding operations_at
operations_of [] rs = []
operations_of ((seg, v) ∷ vs) rs = operations_at ("/ndc/" <> (seg <> "/")) rs ++ operations_of vs rs

-- `registerRoutes`: the paths, in the order in which they are registered.
unfoldable pub register_routes : String → Map VersionFile → Map String → List (String × Target)
unfolding operations_of
register_routes token_path vs rs =
    (token_path, token)
    ∷ ("/__health", health)
    ∷ (operations_of vs rs ++ (("/__stats", stats) ∷ []))

-- The answer of /__stats.
unfoldable pub stats_json : Store → Map VersionFile → Map Template → Json
unfolding size
stats_json s vs ts = object (
    field "ordersHeld" (Json.nat (size s)) (
      field "versions" (Json.nat (length vs)) (field "templates" (Json.nat (length ts)) no_fields)))
