-- ===== src/Tests/Starting.antt =====
-- A program that is started, and what it registers (edge/main.go).
use ndc_mock.Prelude.{◌≡◌, refl, Bool, true, false, none, some, [], ◌∷◌, String, All, string_eq}
use ndc_mock.Prelude.Int.{pos}
use ndc_mock.Translate.Mapping.{Map}
use ndc_mock.Startup.{ok, err, VersionFile, Reads}
use ndc_mock.Startup.Run.{keys, Flags, Start, listening, fatal, panicked, register_routes, start}
use ndc_mock.Startup.Routes.{IsRead, register_routes-IsRead}
use ndc_mock.Startup.Ready.{IsReady, start-IsReady}
use ndc_mock.Tests.Serving.{whole, replica}
use ndc_mock.Tests.Loading.{files, no_tokens}

abbrev v192 : VersionFile
v192 = record {
  iata = "19.2";
  namespace = "urn:old";
  offer_elem = "";
  id_elems = "OfferID" ∷ [];
  stubs_dir = "v192";
  path_segment = "";
}

abbrev reads : Reads whole
reads = record {
  read = λ path. ok path;
  json_files = λ dir. ok [];
  versions_of = λ b. ok (("v192", v192) ∷ []);
  airlines_of = λ b. ok (record {
    airlines = ("XX", record { currency = "USD"; hubs = []; fare_scale = pos 0 }) ∷ [];
    fx_to_usd = none;
  });
  config_of = λ b. err "no file";
  mapping_of = λ b. err "no file";
  routes_of = λ b. ok [];
  quote = λ s. s;
}

abbrev flags : Flags
flags = record {
  stubs = "stubs";
  config = "";
  versions = "";
  airlines = "";
  translations = "";
  operations = "";
  flat_version = "";
  delay = "0s";
  offers = pos 0;
  order_ttl = pos 3600;
  order_max = pos 50000;
  upstream = "";
  record_to = "";
  forward_headers = "Authorization";
}

abbrev started : Start whole
started =
    start reads (λ s. none) (λ l. l.p50) (λ s. s) files replica.b64 (λ s. some (pos 0))
      (λ reps s. s) no_tokens (λ s. s) replica.lower replica.upper flags

abbrev is_listening : Start whole → Bool
is_listening (listening st) = true
is_listening (fatal e) = false
is_listening panicked = false

listening_test : is_listening started ≡ true
unfolding start
listening_test = refl

start-IsReady_example : IsReady flags started
start-IsReady_example =
    start-IsReady reads (λ s. none) (λ l. l.p50) (λ s. s) files replica.b64 (λ s. some (pos 0))
      (λ reps s. s) no_tokens (λ s. s) replica.lower replica.upper flags refl

abbrev paths : Map String
paths = ("order/cancel", "ordercancel") ∷ ("airshopping", "airshopping") ∷ []

register_routes-IsRead_example :
    All (IsRead (("v192", v192) ∷ [])) (register_routes "/oauth/token" (("v192", v192) ∷ []) paths)
unfolding keys
register_routes-IsRead_example =
    register_routes-IsRead "/oauth/token" (("v192", v192) ∷ []) paths
      ((refl, (refl, (refl, (refl, tt)))), tt)
