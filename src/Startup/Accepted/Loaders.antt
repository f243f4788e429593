-- ===== src/Startup/Accepted/Loaders.antt =====
-- What `main` (edge/main.go) accepts of its files, loader by loader, and of all of them.
use ndc_mock.Prelude.{
  ◌≡◌, ◌≢◌, refl, true, false, Option, none, some, List, [], ◌∷◌, String, ◌<>◌, ◌==◌, string_eq,
  All, Bool-cases, Option-cases, inl, inr, str_eq-cases,
}
use ndc_mock.Prelude.Int.{ℤ}
use ndc_mock.Itinerary.{contains}
use ndc_mock.Translate.Mapping.{Map, Mapping, MappingSet, is_empty}
use ndc_mock.Config.{Config, Latency}
use ndc_mock.Airline.{Floats, Airline}
use ndc_mock.Template.Load.{set}
use ndc_mock.Serving.{handler_names, unknown_route, refused_route, load_routes}
use ndc_mock.Startup.{
  Result, ok, err, ◌>>=◌, VersionFile, AirlineFile, Reads, in_file, some_versions, transforms,
  load_version_file, carriers, load_airlines, unknown_transform, refused_transform, check_mapping,
  load_mapping, load_files, load_mappings, refused_routes, load_route_file, load_config,
}
use ndc_mock.Startup.Run.{Flags, or_default, routes_for, with_default, settings_for}
use ndc_mock.Startup.Accepted.{
  Accepts, Accepts-bind, Anything, IsMapping, IsRoute, IsCarrier, IsUsable, Versions,
  some_versions-Versions, unknown_route-none, default_routes-All, set-All,
}

module _ {F : Floats} (D : Reads F) where
  load_version_file-Versions : (path : String) → Accepts Versions (load_version_file D path)
  unfolding load_version_file
  load_version_file-Versions path =
      Accepts-bind (λ b. Unit {0}) Versions (D.read path)
        (λ b. in_file path (D.versions_of b) >>= some_versions path) (Anything (D.read path))
        (λ b h.
          Accepts-bind (λ vs. Unit {0}) Versions (in_file path (D.versions_of b))
            (some_versions path) (Anything (in_file path (D.versions_of b)))
            (λ vs k. some_versions-Versions path vs))

  unknown_transform-none :
      (ss : List String)
      → unknown_transform D ss ≡ none
      → All (λ s. contains transforms s ≡ true) ss
  unfolding unknown_transform
  unknown_transform-none [] h = tt
  unknown_transform-none (s ∷ ss) h = elim (Bool-cases (contains transforms s)) [
    | inl e ↦ (e, unknown_transform-none ss (rw e at h))
    | inr e ↦ absurd (some_none s (rw e at h))
  ]
    where
      some_none : (x : String) → ◌≢◌ {A = Option String} (some x) none
      some_none x e = cc

  -- A mapping that passes the tests of its file.
  abbrev Checked : Mapping → Type 0
  Checked m = IsMapping (m.from <> ("->" <> m.to), m)

  check_mapping-Checked : (f : String) (m : Mapping) → Accepts Checked (check_mapping D f m)
  unfolding check_mapping refused_transform
  check_mapping-Checked f m = elim (str_eq-cases m.from "") [
    | inl (e, same) ↦ rw (check_mapping, e) tt
    | inr (e, from_ne) ↦ elim (str_eq-cases m.to "") [
      | inl (e', same) ↦ rw (check_mapping, e, e') tt
      | inr (e', to_ne) ↦ elim (Option-cases (unknown_transform D m.structural)) [
        | inl u ↦
            rw (check_mapping, e, e', u)
              (refl, from_ne, to_ne, unknown_transform-none m.structural u)
        | inr (s, u) ↦ rw (check_mapping, e, e', u) tt
      ]
    ]
  ]

  load_mapping-Checked : (f : String) → Accepts Checked (load_mapping D f)
  unfolding load_mapping
  load_mapping-Checked f =
      Accepts-bind (λ b. Unit {0}) Checked (D.read f)
        (λ b. in_file f (D.mapping_of b) >>= check_mapping D f) (Anything (D.read f))
        (λ b h.
          Accepts-bind (λ m. Unit {0}) Checked (in_file f (D.mapping_of b)) (check_mapping D f)
            (Anything (in_file f (D.mapping_of b))) (λ m k. check_mapping-Checked f m))

  load_files-All :
      (files : List String) (ms : MappingSet)
      → All IsMapping ms
      → Accepts (All IsMapping) (load_files D files ms)
  unfolding load_files
  load_files-All [] ms hs = hs
  load_files-All (f ∷ fl) ms hs =
      Accepts-bind Checked (All IsMapping) (load_mapping D f)
        (λ m. load_files D fl (set (m.from <> ("->" <> m.to)) m ms)) (load_mapping-Checked f)
        (λ m h.
          load_files-All fl (set (m.from <> ("->" <> m.to)) m ms)
            (set-All (m.from <> ("->" <> m.to)) m ms h hs))

  load_mappings-All : (dir : String) → Accepts (All IsMapping) (load_mappings D dir)
  unfolding load_mappings
  load_mappings-All dir = elim (Bool-cases (dir == "")) [
    | inl e ↦ rw (load_mappings, e) tt
    | inr e ↦
        rw (load_mappings, e)
          (Accepts-bind (λ fl. Unit {0}) (All IsMapping) (D.json_files dir)
            (λ fl. load_files D fl []) (Anything (D.json_files dir))
            (λ fl h. load_files-All fl [] tt))
  ]

  checked_routes-All :
      (path : String) (rs : Map String)
      → Accepts (All IsRoute) (refused_routes D rs (load_routes D.quote path rs))
  unfolding refused_routes load_routes refused_route
  checked_routes-All path rs = elim (Option-cases (unknown_route handler_names rs)) [
    | inl e ↦ elim (Bool-cases (is_empty rs)) [
      | inl n ↦ rw (load_routes, e, n) tt
      | inr n ↦ rw (load_routes, e, n) (unknown_route-none rs e)
    ]
    | inr ((p, h), e) ↦ rw (load_routes, e) tt
  ]

  load_route_file-All : (path : String) → Accepts (All IsRoute) (load_route_file D path)
  unfolding load_route_file
  load_route_file-All path =
      Accepts-bind (λ b. Unit {0}) (All IsRoute) (D.read path)
        (λ b.
          in_file path (D.routes_of b)
          >>= (λ rs. refused_routes D rs (load_routes D.quote path rs)))
        (Anything (D.read path))
        (λ b h.
          Accepts-bind (λ rs. Unit {0}) (All IsRoute) (in_file path (D.routes_of b))
            (λ rs. refused_routes D rs (load_routes D.quote path rs))
            (Anything (in_file path (D.routes_of b))) (λ rs k. checked_routes-All path rs))

  module _ (one_ne : F.is_zero F.one ≡ false) where
    carriers-All :
        (fx : Option (Map F.Float)) (as' : Map (AirlineFile F))
        → All (IsCarrier F) (carriers D fx as')
    unfolding carriers
    carriers-All fx [] = tt
    carriers-All fx ((code, a) ∷ as') = elim (Bool-cases (F.is_zero a.fare_scale)) [
      | inl e ↦ rw e ((refl, one_ne), carriers-All fx as')
      | inr e ↦ rw e ((refl, e), carriers-All fx as')
    ]

    load_airlines-All : (path : String) → Accepts (All (IsCarrier F)) (load_airlines D path)
    unfolding load_airlines
    load_airlines-All path = elim (Bool-cases (path == "")) [
      | inl e ↦ rw (load_airlines, e) tt
      | inr e ↦
          rw (load_airlines, e)
            (Accepts-bind (λ b. Unit {0}) (All (IsCarrier F)) (D.read path)
              (λ b.
                in_file path (D.airlines_of b) >>= (λ s. ok (carriers D s.fx_to_usd s.airlines)))
              (Anything (D.read path))
              (λ b h.
                Accepts-bind (λ s. Unit {0}) (All (IsCarrier F)) (in_file path (D.airlines_of b))
                  (λ s. ok (carriers D s.fx_to_usd s.airlines))
                  (Anything (in_file path (D.airlines_of b)))
                  (λ s k. carriers-All s.fx_to_usd s.airlines)))
    ]

routes_for-All :
    {F : Floats} (D : Reads F) (duration : String → Option ℤ) (draw : Latency → ℤ)
    (why : String → String) (path : String)
    → Accepts (All IsRoute) (routes_for D duration draw why path)
unfolding routes_for
routes_for-All D duration draw why path = elim (Bool-cases (path == "")) [
  | inl e ↦ rw (routes_for, e) default_routes-All
  | inr e ↦ rw (routes_for, e) (load_route_file-All D path)
]

-- The settings of five results, each of which is accepted.
settings-IsUsable :
    {F : Floats} (D : Reads F) (duration : String → Option ℤ) (draw : Latency → ℤ)
    (why : String → String) (fl : Flags) (vs : Result (Map VersionFile))
    (airs : Result (Map (Airline F))) (c : Result Config) (ms : Result MappingSet)
    (rs : Result (Map String))
    → Accepts Versions vs
    → Accepts (All (IsCarrier F)) airs
    → Accepts (All IsMapping) ms
    → Accepts (All IsRoute) rs
    → Accepts (IsUsable {F = F}) (
        vs >>= (λ v. airs >>= (λ a. c >>= (λ k. ms >>= (λ m. rs >>= (λ r. ok (record {
          versions = v;
          airlines = a;
          config = with_default D duration draw why fl k;
          mappings = m;
          routes = r;
        })))))))
settings-IsUsable D duration draw why fl (err e) airs c ms rs hv ha hm hr = tt
settings-IsUsable D duration draw why fl (ok v) (err e) c ms rs hv ha hm hr = tt
settings-IsUsable D duration draw why fl (ok v) (ok a) (err e) ms rs hv ha hm hr = tt
settings-IsUsable D duration draw why fl (ok v) (ok a) (ok k) (err e) rs hv ha hm hr = tt
settings-IsUsable D duration draw why fl (ok v) (ok a) (ok k) (ok m) (err e) hv ha hm hr = tt
settings-IsUsable D duration draw why fl (ok v) (ok a) (ok k) (ok m) (ok r) hv ha hm hr = record {
  versions = hv.1;
  some_version = hv.0;
  airlines = ha;
  mappings = hm;
  routes = hr;
}

-- The settings that are read, if there are any, can be served from.
pub settings_for-Accepts :
    {F : Floats} (D : Reads F) (duration : String → Option ℤ) (draw : Latency → ℤ)
    (why : String → String) (fl : Flags)
    → F.is_zero F.one ≡ false
    → Accepts (IsUsable {F = F}) (settings_for D duration draw why fl)
unfolding settings_for
settings_for-Accepts D duration draw why fl one_ne =
    settings-IsUsable D duration draw why fl
      (load_version_file D (or_default fl.versions "../versions.json"))
      (load_airlines D (or_default fl.airlines "../airlines.json"))
      (load_config D duration draw why fl.config)
      (load_mappings D (or_default fl.translations "../translations"))
      (routes_for D duration draw why fl.operations)
      (load_version_file-Versions D (or_default fl.versions "../versions.json"))
      (load_airlines-All D one_ne (or_default fl.airlines "../airlines.json"))
      (load_mappings-All D (or_default fl.translations "../translations"))
      (routes_for-All D duration draw why fl.operations)
