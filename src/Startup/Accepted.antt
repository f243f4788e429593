-- ===== src/Startup/Accepted.antt =====
-- What is accepted of the files that `main` reads (edge/main.go).
pub mod Loaders
use ndc_mock.Prelude.{
  ◌≡◌, ◌≢◌, refl, true, false, Option, none, some, List, [], ◌∷◌, String, ◌<>◌, ◌==◌, string_eq,
  All, Bool-cases, Option-cases, inl, inr, str_eq-cases, eq_iff, arith,
}
use ndc_mock.Prelude.Int.{ℤ}
use ndc_mock.Itinerary.{contains}
use ndc_mock.Translate.Mapping.{Map, Mapping, MappingSet, is_empty}
use ndc_mock.Config.{Config, Latency}
use ndc_mock.Airline.{Floats, Airline}
use ndc_mock.Template.Load.{set}
use ndc_mock.Serving.{handler_names, unknown_route, refused_route, load_routes}
use ndc_mock.Startup.{
  Result, ok, err, ◌>>=◌, VersionFile, AirlineFile, Reads, complete, in_file, check_versions,
  some_versions, transforms, load_version_file, carriers, load_airlines, unknown_transform,
  refused_transform, check_mapping, load_mapping, load_files, load_mappings, refused_routes,
  load_route_file, load_config,
}
use ndc_mock.Startup.Run.{
  Flags, Settings, default_routes, or_default, routes_for, with_default, settings_for,
}

-- The value, if there is one, satisfies `P`.
abbrev pub Accepts {ℓ κ} : {A : Type ℓ} → (A → Type κ) → Result A → Type κ
Accepts P (ok a) = P a
Accepts P (err e) = Unit

pub Accepts-bind {ℓ κ μ ν} :
    {A : Type ℓ} {B : Type κ} (P : A → Type μ) (Q : B → Type ν) (o : Result A) (f : A → Result B)
    → Accepts P o
    → ((a : A) → P a → Accepts Q (f a))
    → Accepts Q (o >>= f)
Accepts-bind P Q (ok a) f h k = k a h
Accepts-bind P Q (err e) f h k = tt

-- Nothing is known of a file.
pub Anything {ℓ} : {A : Type ℓ} (o : Result A) → Accepts (λ (a : A). Unit {0}) o
Anything (ok a) = tt
Anything (err e) = tt

-- A version names the element of its offers and an element for its identifiers.
abbrev pub IsVersion : String × VersionFile → Type 0
IsVersion (seg, v) = (v.path_segment ≡ seg) × ◌≢◌ {A = String} v.offer_elem "" × (v.id_elems ≢ [])

-- A mapping says from which generation to which, and names transforms that there are.
abbrev pub IsMapping : String × Mapping → Type 0
IsMapping (pair, m) =
    (pair ≡ m.from <> ("->" <> m.to))
    × ◌≢◌ {A = String} m.from ""
    × ◌≢◌ {A = String} m.to ""
    × All (λ s. contains transforms s ≡ true) m.structural

abbrev pub IsRoute : String × String → Type 0
IsRoute (path, h) = contains handler_names h ≡ true

-- A carrier stands under its code, and scales fares by a factor that is not zero.
abbrev pub IsCarrier : (F : Floats) → String × Airline F → Type 0
IsCarrier F (code, a) = (a.code ≡ code) × (F.is_zero a.fare_scale ≡ false)

pub record IsUsable {F : Floats} (s : Settings F) : Type 0 where
  pub versions : All IsVersion s.versions
  pub some_version : s.versions ≢ []
  pub airlines : All (IsCarrier F) s.airlines
  pub mappings : All IsMapping s.mappings
  pub routes : All IsRoute s.routes

offer_ne : ◌≢◌ {A = String} "Offer" ""
offer_ne e = ground (arith, eq_iff "Offer" "")

complete-IsVersion :
    (seg : String) (v : VersionFile) → v.id_elems ≢ [] → IsVersion (seg, complete seg v)
unfolding complete
complete-IsVersion seg v h = elim (str_eq-cases v.offer_elem "") [
  | inl (e, same) ↦ rw e (refl, offer_ne, h)
  | inr (e, differs) ↦ rw e (refl, differs, h)
]

is_empty-ne : {A : Type 0} (l : List A) → is_empty l ≡ false → l ≢ []
is_empty-ne [] h = absurd (cc)
is_empty-ne (a ∷ l) h = λ e. cc

-- A list that is not empty, each entry of which is a version.
abbrev pub Versions : Map VersionFile → Type 0
Versions vs = (vs ≢ []) × All IsVersion vs

check_versions-All :
    (path : String) (vs : Map VersionFile) → Accepts (All IsVersion) (check_versions path vs)
unfolding check_versions
check_versions-All path [] = tt
check_versions-All path ((seg, v) ∷ vs) = elim (Bool-cases (is_empty v.id_elems)) [
  | inl e ↦ rw (check_versions, e) tt
  | inr e ↦
      rw (check_versions, e)
        (Accepts-bind (All IsVersion) (All IsVersion) (check_versions path vs)
          (λ more. ok ((seg, complete seg v) ∷ more)) (check_versions-All path vs)
          (λ more hs. (complete-IsVersion seg v (is_empty-ne v.id_elems e), hs)))
]

check_versions-ne :
    (path : String) (e : String × VersionFile) (vs : Map VersionFile)
    → Accepts (λ l. l ≢ []) (check_versions path (e ∷ vs))
unfolding check_versions
check_versions-ne path (seg, v) vs = elim (Bool-cases (is_empty v.id_elems)) [
  | inl e ↦ rw (check_versions, e) tt
  | inr e ↦
      rw (check_versions, e)
        (Accepts-bind (λ (l : Map VersionFile). Unit {0}) (λ (l : Map VersionFile). l ≢ [])
          (check_versions path vs) (λ more. ok ((seg, complete seg v) ∷ more))
          (Anything (check_versions path vs)) (λ more hs. cons-ne (seg, complete seg v) more))
]
  where
    cons-ne :
        (x : String × VersionFile) (l : Map VersionFile) → ◌≢◌ {A = Map VersionFile} (x ∷ l) []
    cons-ne x l e = cc

Accepts-both {ℓ κ μ} :
    {A : Type ℓ} (P : A → Type κ) (Q : A → Type μ) (o : Result A)
    → Accepts P o
    → Accepts Q o
    → Accepts (λ a. P a × Q a) o
Accepts-both P Q (ok a) p q = (p, q)
Accepts-both P Q (err e) p q = tt

pub some_versions-Versions :
    (path : String) (vs : Map VersionFile) → Accepts Versions (some_versions path vs)
unfolding some_versions
some_versions-Versions path [] = tt
some_versions-Versions path (v ∷ vs) =
    Accepts-both (λ l. l ≢ []) (All IsVersion) (check_versions path (v ∷ vs))
      (check_versions-ne path v vs) (check_versions-All path (v ∷ vs))

pub unknown_route-none : (rs : Map String) → unknown_route handler_names rs ≡ none → All IsRoute rs
unfolding unknown_route
unknown_route-none [] h = tt
unknown_route-none ((p, k) ∷ rs) h = elim (Bool-cases (contains handler_names k)) [
  | inl e ↦ (e, unknown_route-none rs (rw e at h))
  | inr e ↦ absurd (some_none (p, k) (rw e at h))
]
  where
    some_none : (x : String × String) → ◌≢◌ {A = Option (String × String)} (some x) none
    some_none x e = cc

pub default_routes-All : All IsRoute default_routes
unfolding default_routes handler_names contains
default_routes-All = (refl, (refl, (refl, (refl, (refl, (refl, (refl, (refl, (refl, tt)))))))))

pub set-All :
    (k : String) (m : Mapping) (ms : MappingSet)
    → IsMapping (k, m)
    → All IsMapping ms
    → All IsMapping (set k m ms)
unfolding set
set-All k m [] h hs = (h, tt)
set-All k m ((j, n) ∷ ms) h (here, hs) = elim (Bool-cases (j == k)) [
  | inl e ↦ rw e (h, hs)
  | inr e ↦ rw e (here, set-All k m ms h hs)
]
