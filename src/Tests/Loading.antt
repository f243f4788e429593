-- ===== src/Tests/Loading.antt =====
-- A reference that is loaded, and a request that is answered from it (edge/main.go).
use mathlib.Core.Path.{subst}
use ndc_mock.Prelude.{
  ℕ, ◌≤◌, ◌&&◌, leb, length, arith, inl, inr, Bool-cases, ◌≡◌, refl, false, Option, none, some,
  List, [], ◌∷◌, Bool, true, String, ◌<>◌, if◌then◌else◌, ◌==◌, string_eq,
}
use ndc_mock.Prelude.Int.{pos}
use ndc_mock.Tree.Parse.{RawToken}
use ndc_mock.Translate.Mapping.{Map, lookup}
use ndc_mock.Http.{Request, Response, wants_json}
use ndc_mock.Template.Build.{Template}
use ndc_mock.Template.Load.{Files, Served, load_templates}
use ndc_mock.Serving.{Shop, airshopping}
use ndc_mock.Serving.Answered.{Answers, airshopping-Answers}
use ndc_mock.Tests.Serving.{replica}
use ndc_mock.Query.{AirShoppingRq}

abbrev captured : String
captured = "<R><Offer><OfferID>GRU,NAT,2026-09-30|PX=1/0/0</OfferID></Offer></R>"

abbrev pub files : Files
files = record {
  read = λ p. if p == "stubs/v192/default/air-shopping-rs.xml" then some captured else none;
  exists = λ p. p == "stubs/v192";
  glob = λ p. [];
  join_path = λ parts. joined parts;
}
  where
    joined : List String → String
    joined [] = ""
    joined (p ∷ []) = p
    joined (p ∷ q ∷ ps) = p <> ("/" <> joined (q ∷ ps))

abbrev served_version : Served
served_version = record {
  seg = "v192";
  stubs_dir = "v192";
  version = record { iata = "19.2"; offer_elem = "Offer"; id_elems = "OfferID" ∷ [] };
}

abbrev pub no_tokens : String → List RawToken × Bool
no_tokens s = ([], false)

abbrev loads : Option (Option (Map Template))
loads =
    load_templates files replica.b64 (λ s. some (pos 0)) (λ reps s. s) no_tokens (λ s. s)
      replica.lower replica.upper [] "stubs" "" (served_version ∷ [])

abbrev loaded : Option (Option (Map Template)) → Map Template
loaded none = []
loaded (some none) = []
loaded (some (some ts)) = ts

abbrev one_way_rq : AirShoppingRq
one_way_rq = record {
  country_code = "CO";
  od192 = record { date = "2026-12-01"; dep = "BOG"; arr = "MIA" } ∷ [];
  od213 = [];
  specific = 0;
  affinity = 0;
  pax192 = "ADT" ∷ [];
  pax213 = [];
}

abbrev asks_offers : Request
asks_offers = record {
  path = "/ndc/v192/airshopping";
  query = λ k. "json";
  header = λ k. "";
  body = some [];
}

json_wanted : wants_json replica.lower asks_offers ≡ true
unfolding wants_json
json_wanted = refl

abbrev started : Shop
started = record {
  templates = loaded loads;
  lang_header = "Accept-Language";
  default_airline = "";
  unmarshal = λ body. some one_way_rq;
  parse = λ s. some (pos 0);
  format = λ d. "";
  replace = λ reps s. s;
}

loaded_test : loads ≡ some (some started.templates)
unfolding load_templates
loaded_test = refl

abbrev few : Map Template → Bool
few [] = true
few ((j, t) ∷ ts) = leb (length t.blocks) 1000 && few ts

lookup-few :
    (ts : Map Template) (k : String) (t : Template)
    → few ts ≡ true
    → lookup ts k ≡ some t
    → length t.blocks ≤ 1000
unfolding lookup
lookup-few [] k t hs h = absurd (cc)
lookup-few ((j, u) ∷ ts) k t hs h = elim (Bool-cases (j == k)) [
  | inl e ↦
      let found : some u ≡ some t = rw e at h in
      let same : u ≡ t = cc in
      let here : length u.blocks ≤ 1000 = ground arith in
      subst (λ (x : Template). length x.blocks ≤ 1000) same here
  | inr e ↦ let rest : few ts ≡ true = ground arith in lookup-few ts k t rest (rw e at h)
]

few_test : few started.templates ≡ true
unfolding load_templates
few_test = refl

few_blocks :
    (k : String) (t : Template) → lookup started.templates k ≡ some t → length t.blocks ≤ 1000
few_blocks k t h = lookup-few started.templates k t few_test h

airshopping-Answers_example : Answers (airshopping replica started asks_offers)
airshopping-Answers_example =
    airshopping-Answers replica started asks_offers files no_tokens (λ s. s) [] "stubs" ""
      (served_version ∷ []) loaded_test json_wanted (omega arith) (omega arith) few_blocks

abbrev status_of : Option Response → ℕ
status_of none = 0
status_of (some res) = res.status

offered_test : status_of (airshopping replica started asks_offers) ≡ 200
unfolding airshopping load_templates
offered_test = refl
