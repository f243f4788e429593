-- ===== src/Template/Load/Servable.antt =====
-- What `loadTemplates` (edge/main.go) loads can be served.
use ndc_mock.Prelude.{
  Bool, Option, none, some, List, [], ◌∷◌, String, ◌<>◌, inl, inr, if◌then◌else◌, ◌==◌, ◌>>=◌,
  string_eq, Bool-cases, Option-cases, Yields, Yields-bind,
}
use ndc_mock.Prelude.Int.{ℤ}
use ndc_mock.Prelude.Text.{cut_prefix}
use ndc_mock.Tree.Parse.{RawToken}
use ndc_mock.Itinerary.{contains}
use ndc_mock.Translate.Mapping.{Map, lookup, Mapping, MappingSet, is_empty}
use ndc_mock.Translate.Document.{translate}
use ndc_mock.Translate.Steps.Report.{Report}
use ndc_mock.Offer.Ident.{Base64}
use ndc_mock.Template.Build.{Version, Template, Built, built, failed, panics}
use ndc_mock.Template.Build.Slices.{new_template}
use ndc_mock.Template.Build.Servable.{IsServable, BuildsServable, new_template-BuildsServable}
use ndc_mock.Template.Load.{
  Files, Served, Loaded, unique_leg_ids, set, segments_of, source_for, add_built, load, load_langs,
  load_shape, load_cities, load_dir, load_version, load_versions, add_translated, add_parsed,
  translate_one, translate_raws, translate_from, translate_versions, load_templates,
}

-- Every template of the map can be served.
abbrev pub AllServable : Map Template → Type 0
AllServable [] = Unit {0}
AllServable ((k, t) ∷ ts) = IsServable t × AllServable ts

set-AllServable :
    (k : String) (t : Template) (ts : Map Template)
    → IsServable t
    → AllServable ts
    → AllServable (set k t ts)
unfolding set
set-AllServable k t [] h hs = (h, tt)
set-AllServable k t ((j, u) ∷ ts) h (here, hs) = elim (Bool-cases (j == k)) [
  | inl e ↦ rw e (h, hs)
  | inr e ↦ rw e (here, set-AllServable k t ts h hs)
]

-- What a lookup finds can be served.
pub lookup-IsServable :
    (ts : Map Template) (k : String) → AllServable ts → Yields IsServable (lookup ts k)
unfolding lookup
lookup-IsServable [] k hs = tt
lookup-IsServable ((j, t) ∷ ts) k (here, hs) = elim (Bool-cases (j == k)) [
  | inl e ↦ rw e here
  | inr e ↦ rw e (lookup-IsServable ts k hs)
]

abbrev LoadedServable : Loaded → Type 0
LoadedServable l = AllServable l.0

module _ (fs : Files) (b64 : Base64) (parse : String → Option ℤ)
    (replace : List (String × String) → String → String) where
  abbrev Keeps : Option Loaded → Type 0
  Keeps = Yields LoadedServable

  add_built-Keeps :
      (key raw : String) (l : Loaded) (b : Built)
      → LoadedServable l
      → BuildsServable b
      → Keeps (add_built fs b64 parse replace key raw l b)
  unfolding add_built
  add_built-Keeps key raw l (built t) hs h = set-AllServable key t l.0 h hs
  add_built-Keeps key raw l (failed why) hs h = hs
  add_built-Keeps key raw l panics hs h = tt

  load-Keeps :
      (key path : String) (v : Version) (l : Loaded)
      → LoadedServable l
      → Keeps (load fs b64 parse replace key path v l)
  unfolding load
  load-Keeps key path v l hs = elim (Option-cases (fs.read path)) [
    | inl e ↦ rw (load, e) hs
    | inr (raw, e) ↦
        rw (load, e)
          (add_built-Keeps key raw l (new_template b64 parse replace (unique_leg_ids raw).0 v) hs
            (new_template-BuildsServable b64 parse replace (unique_leg_ids raw).0 v))
  ]

  load_langs-Keeps :
      (seg dir : String) (v : Version) (langs : List String) (l : Loaded)
      → LoadedServable l
      → Keeps (load_langs fs b64 parse replace seg dir v langs l)
  unfolding load_langs
  load_langs-Keeps seg dir v [] l hs = hs
  load_langs-Keeps seg dir v (lang ∷ langs) l hs =
      Yields-bind LoadedServable LoadedServable _ _ (load-Keeps _ _ v l hs)
        (load_langs-Keeps seg dir v langs)

  load_shape-Keeps :
      (seg f : String) (v : Version) (l : Loaded) (b : Built)
      → LoadedServable l
      → Keeps (load_shape fs b64 parse replace seg f v l b)
  unfolding load_shape
  load_shape-Keeps seg f v l (built t) hs = elim (Bool-cases (is_empty t.legs)) [
    | inl e ↦ rw e hs
    | inr e ↦ rw e (load-Keeps _ f v l hs)
  ]
  load_shape-Keeps seg f v l (failed why) hs = hs
  load_shape-Keeps seg f v l panics hs = tt

  load_cities-Keeps :
      (seg : String) (v : Version) (files : List String) (l : Loaded)
      → LoadedServable l
      → Keeps (load_cities fs b64 parse replace seg v files l)
  unfolding load_cities
  load_cities-Keeps seg v [] l hs = hs
  load_cities-Keeps seg v (f ∷ fl) l hs = elim (Option-cases (fs.read f)) [
    | inl e ↦ rw (load_cities, e) (load_cities-Keeps seg v fl l hs)
    | inr (raw, e) ↦
        rw (load_cities, e)
          (Yields-bind LoadedServable LoadedServable _ _
            (load_shape-Keeps seg f v l (new_template b64 parse replace raw v) hs)
            (load_cities-Keeps seg v fl))
  ]

  load_dir-Keeps :
      (s : Served) (dir : String) (l : Loaded)
      → LoadedServable l
      → Keeps (load_dir fs b64 parse replace s dir l)
  unfolding load_dir
  load_dir-Keeps s dir l hs =
      let langs = "default" ∷ "en" ∷ "es" ∷ "pt" ∷ [] in
      let back = fs.join_path (dir ∷ "air-shopping-rt-rs.xml" ∷ []) in
      let files = fs.glob (fs.join_path (dir ∷ "air-shopping-mc*.xml" ∷ [])) in
      let cities : Loaded → Option Loaded =
        λ l₂. load_cities fs b64 parse replace s.seg s.version files l₂ in
      Yields-bind LoadedServable LoadedServable
        (load_langs fs b64 parse replace s.seg dir s.version langs l)
        (λ l₁. load fs b64 parse replace (s.seg <> "|rt") back s.version l₁ >>= cities)
        (load_langs-Keeps s.seg dir s.version langs l hs)
        (λ l₁ hs₁.
          Yields-bind LoadedServable LoadedServable
            (load fs b64 parse replace (s.seg <> "|rt") back s.version l₁) cities
            (load-Keeps (s.seg <> "|rt") back s.version l₁ hs₁)
            (load_cities-Keeps s.seg s.version files))

  load_version-Keeps :
      (stubs flat : String) (s : Served) (l : Loaded)
      → LoadedServable l
      → Keeps (load_version fs b64 parse replace stubs flat s l)
  unfolding load_version
  load_version-Keeps stubs flat s l hs =
      elim (Bool-cases (fs.exists (fs.join_path (stubs ∷ s.stubs_dir ∷ [])))) [
        | inl e ↦ rw e (load_dir-Keeps s _ l hs)
        | inr e ↦ elim (Bool-cases (s.seg == flat)) [
          | inl g ↦ rw (e, g) (load_dir-Keeps s stubs l hs)
          | inr g ↦ rw (e, g) hs
        ]
      ]

  load_versions-Keeps :
      (stubs flat : String) (vs : List Served) (l : Loaded)
      → LoadedServable l
      → Keeps (load_versions fs b64 parse replace stubs flat vs l)
  unfolding load_versions
  load_versions-Keeps stubs flat [] l hs = hs
  load_versions-Keeps stubs flat (s ∷ ss) l hs =
      Yields-bind LoadedServable LoadedServable _ _ (load_version-Keeps stubs flat s l hs)
        (load_versions-Keeps stubs flat ss)

  module _ (tokens_of : String → List RawToken × Bool)
      (escape_text lower upper : String → String) where
    add_translated-Keeps :
        (target : String) (m : Mapping) (ts : Map Template) (rep : Report) (b : Built)
        → AllServable ts
        → BuildsServable b
        → Yields AllServable (
            add_translated fs b64 parse replace tokens_of escape_text lower upper target m ts rep b)
    unfolding add_translated
    add_translated-Keeps target m ts rep (built t) hs h =
        set-AllServable target (record t { xlate = some (m, rep) }) ts
          (record { offers = h.offers; blocks = h.blocks; legs = h.legs }) hs
    add_translated-Keeps target m ts rep (failed why) hs h = hs
    add_translated-Keeps target m ts rep panics hs h = tt

    add_parsed-Keeps :
        (target : String) (m : Mapping) (v : Version) (ts : Map Template)
        (doc : Option (String × Report))
        → AllServable ts
        → Yields AllServable
            (add_parsed fs b64 parse replace tokens_of escape_text lower upper target m v ts doc)
    unfolding add_parsed
    add_parsed-Keeps target m v ts none hs = hs
    add_parsed-Keeps target m v ts (some (doc, rep)) hs =
        add_translated-Keeps target m ts rep (new_template b64 parse replace doc v) hs
          (new_template-BuildsServable b64 parse replace doc v)

    translate_one-Keeps :
        (target : String) (m : Mapping) (v : Version) (raw : String) (ts : Map Template)
        → AllServable ts
        → Yields AllServable
            (translate_one fs b64 parse replace tokens_of escape_text lower upper target m v raw ts)
    unfolding translate_one
    translate_one-Keeps target m v raw ts hs =
        elim (Option-cases (translate tokens_of escape_text lower upper m raw)) [
          | inl e ↦ rw (translate_one, e) tt
          | inr (doc, e) ↦ rw (translate_one, e) (add_parsed-Keeps target m v ts doc hs)
        ]

    translate_raws-Keeps :
        (from : String) (m : Mapping) (s : Served) (raws : Map String) (ts : Map Template)
        → AllServable ts
        → Yields AllServable
            (translate_raws fs b64 parse replace tokens_of escape_text lower upper from m s raws ts)
    unfolding translate_raws
    translate_raws-Keeps from m s [] ts hs = hs
    translate_raws-Keeps from m s ((key, raw) ∷ raws) ts hs =
        elim (Option-cases (cut_prefix (from <> "|") key)) [
          | inl e ↦ rw (translate_raws, e) (translate_raws-Keeps from m s raws ts hs)
          | inr (rest, e) ↦
              rw (translate_raws, e)
                (Yields-bind AllServable AllServable
                  (translate_one fs b64 parse replace tokens_of escape_text lower upper
                    (s.seg <> ("|" <> rest)) m s.version raw ts)
                  (translate_raws fs b64 parse replace tokens_of escape_text lower upper from m s
                    raws)
                  (translate_one-Keeps (s.seg <> ("|" <> rest)) m s.version raw ts hs)
                  (translate_raws-Keeps from m s raws))
        ]

    translate_from-Keeps :
        (s : Served) (raws : Map String) (ts : Map Template) (src : Option (String × Mapping))
        → AllServable ts
        → Yields AllServable
            (translate_from fs b64 parse replace tokens_of escape_text lower upper s raws ts src)
    unfolding translate_from
    translate_from-Keeps s raws ts none hs = hs
    translate_from-Keeps s raws ts (some (from, m)) hs = translate_raws-Keeps from m s raws ts hs

    translate_versions-Keeps :
        (ms : MappingSet) (all ss : List Served) (raws : Map String) (ts : Map Template)
        → AllServable ts
        → Yields AllServable (
            translate_versions fs b64 parse replace tokens_of escape_text lower upper ms all ss raws
              ts)
    unfolding translate_versions
    translate_versions-Keeps ms all [] raws ts hs = hs
    translate_versions-Keeps ms all (s ∷ ss) raws ts hs =
        elim (Bool-cases (contains (segments_of raws) s.seg)) [
          | inl e ↦ rw (translate_versions, e) (translate_versions-Keeps ms all ss raws ts hs)
          | inr e ↦
              rw (translate_versions, e)
                (Yields-bind AllServable AllServable
                  (translate_from fs b64 parse replace tokens_of escape_text lower upper s raws ts
                    (source_for ms all (segments_of raws) s.version.iata))
                  (translate_versions fs b64 parse replace tokens_of escape_text lower upper ms all
                    ss raws)
                  (translate_from-Keeps s raws ts
                    (source_for ms all (segments_of raws) s.version.iata) hs)
                  (translate_versions-Keeps ms all ss raws))
        ]

    -- Every template that is loaded can be served: it has identifiers, blocks and legs.
    pub load_templates-AllServable :
        (ms : MappingSet) (stubs flat : String) (vs : List Served)
        → Yields
            (Yields AllServable)
            (load_templates fs b64 parse replace tokens_of escape_text lower upper ms stubs flat vs)
    unfolding load_templates
    load_templates-AllServable ms stubs flat vs =
        Yields-bind LoadedServable (Yields AllServable)
          (load_versions fs b64 parse replace stubs flat vs ([], []))
          (λ l.
            translate_versions fs b64 parse replace tokens_of escape_text lower upper ms vs vs l.1
              l.0
            >>= (λ all. some (if is_empty l.1 then none else some all)))
          (load_versions-Keeps stubs flat vs ([], []) tt)
          (λ l hs.
            Yields-bind AllServable (Yields AllServable)
              (translate_versions fs b64 parse replace tokens_of escape_text lower upper ms vs vs
                l.1 l.0)
              (λ all. some (if is_empty l.1 then none else some all))
              (translate_versions-Keeps ms vs vs l.1 l.0 hs)
              (λ all hall. elim (Bool-cases (is_empty l.1)) [
                | inl e ↦ rw e tt
                | inr e ↦ rw e hall
              ]))
