-- ===== src/Template/Load.antt =====
-- `loadTemplates` (edge/main.go) and `uniqueLegIDs` (edge/template.go). The files are the record
-- `Files`. A map is iterated in the order of a list; the source leaves that order open. A reference
-- that gives no template, or no translation, is passed over; `none` is a panic of `newTemplate`, or
-- a translation that panics or does not end.
pub mod Servable
use ndc_mock.Prelude.{
  ℕ, suc, Bool, true, false, Option, none, some, List, [], ◌∷◌, String, ◌<>◌, if◌then◌else◌, ◌==◌,
  nat_eq, string_eq, ◌>>=◌,
}
use ndc_mock.Prelude.Int.{ℤ}
use ndc_mock.Prelude.Text.{itoa, cut, cut_prefix, span1}
use ndc_mock.Tree.Parse.{RawToken}
use ndc_mock.Itinerary.{contains}
use ndc_mock.Translate.Mapping.{Map, Mapping, MappingSet, find_mapping, usable, is_empty}
use ndc_mock.Translate.Document.{translate}
use ndc_mock.Translate.Steps.Report.{Report}
use ndc_mock.Offer.Ident.{Base64}
use ndc_mock.Template.Scan.{Matcher, hits}
use ndc_mock.Template.Build.{Version, Template, Built, built, failed, panics}
use ndc_mock.Template.Build.Slices.{new_template}

-- `reLegID`
unfoldable pub leg_id_at : Matcher String
unfolding cut_prefix span1
leg_id_at s = do
  s₁ ← cut_prefix "<DatedOperatingLegID>" s
  (id, s₂) ← span1 (λ c. if c == b'<' then false else true) s₁
  rest ← cut_prefix "</DatedOperatingLegID>" s₂
  some (id, rest)

-- `seen[id]`, and `seen[id]++`.
unfoldable pub times_seen : List (String × ℕ) → String → ℕ
times_seen [] id = 0
times_seen ((j, n) ∷ seen) id = if j == id then n else times_seen seen id

unfoldable pub see_id : List (String × ℕ) → String → List (String × ℕ)
see_id [] id = (id, 1) ∷ []
see_id ((j, n) ∷ seen) id =
    let rest = see_id seen id in if j == id then (j, suc n) ∷ seen else (j, n) ∷ rest

-- The replacement of the matches, and how many were renamed.
unfoldable pub rename_from : List (String × ℕ) → List (String × String) → String → String × ℕ
unfolding times_seen see_id itoa
rename_from seen [] behind = (behind, 0)
rename_from seen ((t, id) ∷ hs) behind =
    let now = see_id seen id in
    let n = times_seen now id in
    let (rest, renamed) = rename_from now hs behind in
    let name = if n == 1 then id else id <> ("_" <> itoa n) in
    (
      t <> ("<DatedOperatingLegID>" <> (name <> ("</DatedOperatingLegID>" <> rest))),
      if n == 1 then renamed else suc renamed,
    )

unfoldable pub unique_leg_ids : String → String × ℕ
unfolding hits leg_id_at rename_from
unique_leg_ids raw = let (hs, behind) = hits leg_id_at raw in rename_from [] hs behind

pub record Files : Type 0 where
  pub read : String → Option String
  pub exists : String → Bool
  pub glob : String → List String
  pub join_path : List String → String

-- A version with the directory of its files.
pub record Served : Type 0 where
  pub seg : String
  pub stubs_dir : String
  pub version : Version

-- The templates by key, and the bytes of the references that are native.
abbrev pub Loaded : Type 0
Loaded = Map Template × Map String

-- `m[k] = v`
unfoldable pub set : {A : Type 0} → String → A → Map A → Map A
set k v [] = (k, v) ∷ []
set k v ((j, u) ∷ m) = let rest = set k v m in if j == k then (k, v) ∷ m else (j, u) ∷ rest

segments_of : Map String → List String
unfolding cut contains
segments_of [] = []
segments_of ((k, raw) ∷ raws) =
    let rest = segments_of raws in
    let seg = (cut b'|' k).0 in if contains rest seg then rest else seg ∷ rest

iata_of : List Served → String → String
iata_of [] seg = ""
iata_of (v ∷ vs) seg = if v.seg == seg then v.version.iata else iata_of vs seg

-- The first native version from which a usable mapping leads to the generation `to`.
unfoldable pub source_for :
    MappingSet → List Served → List String → String → Option (String × Mapping)
unfolding iata_of find_mapping usable
source_for ms vs [] to = none
source_for ms vs (seg ∷ segs) to =
    let later = source_for ms vs segs to in
    elim (find_mapping ms (iata_of vs seg) to) [
      | none ↦ later
      | some m ↦ if usable (some m) then some (seg, m) else later
    ]

module _ (fs : Files) (b64 : Base64) (parse : String → Option ℤ)
    (replace : List (String × String) → String → String) where
  unfoldable pub add_built : String → String → Loaded → Built → Option Loaded
  unfolding set
  add_built key raw (ts, raws) (built t) = some (set key t ts, set key raw raws)
  add_built key raw l (failed why) = some l
  add_built key raw l panics = none

  -- The function `load`. The bytes that are kept are the reference as it was captured.
  unfoldable pub load : String → String → Version → Loaded → Option Loaded
  unfolding add_built unique_leg_ids new_template
  load key path v l = elim (fs.read path) [
    | none ↦ some l
    | some raw ↦ add_built key raw l (new_template b64 parse replace (unique_leg_ids raw).0 v)
  ]

  unfoldable pub load_langs : String → String → Version → List String → Loaded → Option Loaded
  unfolding load
  load_langs seg dir v [] l = some l
  load_langs seg dir v (lang ∷ langs) l = do
    l' ← load (seg <> ("|ow:" <> lang)) (fs.join_path (dir ∷ lang ∷ "air-shopping-rs.xml" ∷ [])) v l
    load_langs seg dir v langs l'

  unfoldable pub load_shape : String → String → Version → Loaded → Built → Option Loaded
  unfolding load
  load_shape seg f v l (built t) =
      if is_empty t.legs then some l else load (seg <> ("|mc:" <> t.shape)) f v l
  load_shape seg f v l (failed why) = some l
  load_shape seg f v l panics = none

  unfoldable pub load_cities : String → Version → List String → Loaded → Option Loaded
  unfolding load_shape new_template
  load_cities seg v [] l = some l
  load_cities seg v (f ∷ fl) l = elim (fs.read f) [
    | none ↦ load_cities seg v fl l
    | some raw ↦ (do
      l' ← load_shape seg f v l (new_template b64 parse replace raw v)
      load_cities seg v fl l')
  ]

  unfoldable pub load_dir : Served → String → Loaded → Option Loaded
  unfolding load_langs load load_cities
  load_dir s dir l = do
    l₁ ← load_langs s.seg dir s.version ("default" ∷ "en" ∷ "es" ∷ "pt" ∷ []) l
    l₂ ← load (s.seg <> "|rt") (fs.join_path (dir ∷ "air-shopping-rt-rs.xml" ∷ [])) s.version l₁
    load_cities s.seg s.version (fs.glob (fs.join_path (dir ∷ "air-shopping-mc*.xml" ∷ []))) l₂

  -- One version: its own directory, or the flat one if it is named for it.
  unfoldable pub load_version : String → String → Served → Loaded → Option Loaded
  unfolding load_dir
  load_version stubs flat s l =
      let dir = fs.join_path (stubs ∷ s.stubs_dir ∷ []) in
      if fs.exists dir
      then load_dir s dir l
      else if s.seg == flat
      then load_dir s stubs l
      else some l

  unfoldable pub load_versions : String → String → List Served → Loaded → Option Loaded
  unfolding load_version
  load_versions stubs flat [] l = some l
  load_versions stubs flat (s ∷ ss) l = do
    l' ← load_version stubs flat s l
    load_versions stubs flat ss l'

  module _ (tokens_of : String → List RawToken × Bool)
      (escape_text lower upper : String → String) where
    unfoldable pub add_translated :
        String → Mapping → Map Template → Report → Built → Option (Map Template)
    unfolding set
    add_translated target m ts rep (built t) =
        some (set target (record t { xlate = some (m, rep) }) ts)
    add_translated target m ts rep (failed why) = some ts
    add_translated target m ts rep panics = none

    -- A document that cannot be parsed is passed over.
    unfoldable pub add_parsed :
        String → Mapping → Version → Map Template → Option (String × Report) → Option (Map Template)
    unfolding add_translated new_template
    add_parsed target m v ts none = some ts
    add_parsed target m v ts (some (doc, rep)) =
        add_translated target m ts rep (new_template b64 parse replace doc v)

    unfoldable pub translate_one :
        String → Mapping → Version → String → Map Template → Option (Map Template)
    unfolding add_parsed translate
    translate_one target m v raw ts = do
      parsed ← translate tokens_of escape_text lower upper m raw
      add_parsed target m v ts parsed

    -- The references of the version `from`, translated for `s`.
    unfoldable pub translate_raws :
        String → Mapping → Served → Map String → Map Template → Option (Map Template)
    unfolding cut_prefix translate_one
    translate_raws from m s [] ts = some ts
    translate_raws from m s ((key, raw) ∷ raws) ts = elim (cut_prefix (from <> "|") key) [
      | none ↦ translate_raws from m s raws ts
      | some rest ↦ (do
        ts' ← translate_one (s.seg <> ("|" <> rest)) m s.version raw ts
        translate_raws from m s raws ts')
    ]

    unfoldable pub translate_from :
        Served → Map String → Map Template → Option (String × Mapping) → Option (Map Template)
    unfolding translate_raws
    translate_from s raws ts none = some ts
    translate_from s raws ts (some (from, m)) = translate_raws from m s raws ts

    -- A version without a reference of its own is built from one that has some.
    unfoldable pub translate_versions :
        MappingSet → List Served → List Served → Map String → Map Template → Option (Map Template)
    unfolding contains segments_of source_for translate_from
    translate_versions ms all [] raws ts = some ts
    translate_versions ms all (s ∷ ss) raws ts =
        if contains (segments_of raws) s.seg then translate_versions ms all ss raws ts else (do
          ts' ← translate_from s raws ts (source_for ms all (segments_of raws) s.version.iata)
          translate_versions ms all ss raws ts')

    -- What is served; a program that has no reference at all ends.
    unfoldable pub load_templates :
        MappingSet → String → String → List Served → Option (Option (Map Template))
    unfolding load_versions translate_versions
    load_templates ms stubs flat vs = do
      (ts, raws) ← load_versions stubs flat vs ([], [])
      all ← translate_versions ms vs vs raws ts
      some (if is_empty raws then none else some all)
