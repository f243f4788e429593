-- ===== src/Startup/Routes.antt =====
-- What is registered (edge/main.go) is what the handlers read off a path (edge/handlers.go).
use ndc_mock.Prelude.{
  ◌≡◌, refl, ap, ◌∙◌, Bool, true, List, [], ◌∷◌, String, ◌<>◌, <>_assoc, ◌==◌, string_eq, All,
  All-append, Bool-cases, inl, inr, str_eq_self,
}
use ndc_mock.Prelude.Numerals.{AllPass}
use ndc_mock.Prelude.Splits.{other_than, cut-sep, split-sep}
use ndc_mock.Itinerary.{contains}
use ndc_mock.Http.{version_of, op_of}
use ndc_mock.Translate.Mapping.{Map}
use ndc_mock.Startup.{VersionFile}
use ndc_mock.Startup.Run.{
  keys, Target, token, health, stats, operation, operations_at, operations_of, register_routes,
}

-- A path that is registered for an operation is read as the operation's, of a version that is there.
abbrev pub IsRead : Map VersionFile → String × Target → Type 0
IsRead vs (p, operation path h) = (op_of p ≡ path) × (contains (keys vs) (version_of p) ≡ true)
IsRead vs (p, token) = Unit {0}
IsRead vs (p, health) = Unit {0}
IsRead vs (p, stats) = Unit {0}

-- The segments of the versions have no slash.
abbrev pub NoSlash : Map VersionFile → Type 0
NoSlash vs = All (AllPass (other_than b'/')) (keys vs)

version_of-path :
    (seg path : String)
    → AllPass (other_than b'/') seg
    → version_of ("/ndc/" <> (seg <> ("/" <> path))) ≡ seg
unfolding version_of
version_of-path seg path h = rw (split-sep "/" seg path h) refl

op_of-path :
    (seg path : String)
    → AllPass (other_than b'/') seg
    → op_of ("/ndc/" <> (seg <> ("/" <> path))) ≡ path
unfolding op_of
op_of-path seg path h = ap (λ (r : String × String × Bool). r.1) (cut-sep "/" seg path h)

contains-first : (a : String) (l : List String) → contains (a ∷ l) a ≡ true
unfolding contains
contains-first a l = rw (str_eq_self a) refl

contains-later : (a b : String) (l : List String) → contains l a ≡ true → contains (b ∷ l) a ≡ true
unfolding contains
contains-later a b l h = elim (Bool-cases (b == a)) [ inl e ↦ rw e refl | inr e ↦ rw e h ]

operations_at-IsRead :
    (all : Map VersionFile) (seg : String) (rs : Map String)
    → AllPass (other_than b'/') seg
    → contains (keys all) seg ≡ true
    → All (IsRead all) (operations_at ("/ndc/" <> (seg <> "/")) rs)
unfolding operations_at
operations_at-IsRead all seg [] h k = tt
operations_at-IsRead all seg ((path, target) ∷ rs) h k = (
  (
    ap op_of (ap (λ s. "/ndc/" <> s) (<>_assoc seg "/" path)) ∙ op_of-path seg path h,
    ap (contains (keys all)) (
          ap version_of (ap (λ s. "/ndc/" <> s) (<>_assoc seg "/" path))
          ∙ version_of-path seg path h)
        ∙ k,
  ),
  operations_at-IsRead all seg rs h k,
)

operations_of-IsRead :
    (all vs : Map VersionFile) (rs : Map String)
    → NoSlash vs
    → All (λ seg. contains (keys all) seg ≡ true) (keys vs)
    → All (IsRead all) (operations_of vs rs)
unfolding operations_of keys
operations_of-IsRead all [] rs hs ks = tt
operations_of-IsRead all ((seg, v) ∷ vs) rs (h, hs) (k, ks) =
    All-append (IsRead all) (operations_at ("/ndc/" <> (seg <> "/")) rs) (operations_of vs rs)
      (operations_at-IsRead all seg rs h k) (operations_of-IsRead all vs rs hs ks)

All-later :
    (b : String) (l m : List String)
    → All (λ a. contains l a ≡ true) m
    → All (λ a. contains (b ∷ l) a ≡ true) m
All-later b l [] hs = tt
All-later b l (a ∷ m) (h, hs) = (contains-later a b l h, All-later b l m hs)

All-contained : (l : List String) → All (λ a. contains l a ≡ true) l
All-contained [] = tt
All-contained (a ∷ l) = (contains-first a l, All-later a l l (All-contained l))

-- Where no version's segment has a slash, every path that is registered for an operation is read by
-- the handlers as that operation, whatever slashes it has, of one of the versions.
pub register_routes-IsRead :
    (token_path : String) (vs : Map VersionFile) (rs : Map String)
    → NoSlash vs
    → All (IsRead vs) (register_routes token_path vs rs)
unfolding register_routes
register_routes-IsRead token_path vs rs hs = (
  tt,
  (
    tt,
    All-append (IsRead vs) (operations_of vs rs) (("/__stats", stats) ∷ [])
        (operations_of-IsRead vs vs rs hs (All-contained (keys vs))) (tt, tt),
  ),
)
