-- ===== src/Template/Build/Servable.antt =====
-- What every template that `newTemplate` (edge/template.go) builds has.
use ndc_mock.Prelude.{◌≢◌, Option, none, some, List, [], ◌∷◌, map, String}
use ndc_mock.Prelude.Int.{ℤ}
use ndc_mock.Itinerary.{Leg, airports}
use ndc_mock.Offer.Ident.{Base64, OfferId, parse_offer_id}
use ndc_mock.Template.Scan.{hits, found}
use ndc_mock.Template.Chunk.{new_chunk}
use ndc_mock.Template.Build.{
  Version, RefValues, Template, Built, built, failed, panics, uniq_sorted, date_at, read_refs,
  parse_all, id_elem, mark_ids,
}
use ndc_mock.Template.Build.Slices.{
  Zones, no_blocks, out_of_order, zones, sliced, slice, no_offers, template_of, marked_doc,
  with_dates, with_legs, with_offers, new_template,
}

-- A template that a request can be answered from: it has identifiers, blocks and legs.
pub record IsServable (t : Template) : Type 0 where
  pub offers : t.offers ≢ []
  pub blocks : t.blocks ≢ []
  pub legs : t.legs ≢ []

-- What a build gives is servable, if it gives a template.
abbrev pub BuildsServable : Built → Type 0
BuildsServable (built t) = IsServable t
BuildsServable (failed why) = Unit {0}
BuildsServable panics = Unit {0}

cons-ne : {A : Type 0} (a : A) (l : List A) → ◌≢◌ {A = List A} (a ∷ l) []
cons-ne a l e = cc

sliced-BuildsServable :
    (elem : String) (t : String → List String → String → Template) (z : Zones)
    → ((pre : String) (b : String) (bs : List String) (suffix : String)
        → IsServable (t pre (b ∷ bs) suffix))
    → BuildsServable (sliced elem t z)
unfolding sliced
sliced-BuildsServable elem t no_blocks h = tt
sliced-BuildsServable elem t out_of_order h = tt
sliced-BuildsServable elem t (zones pre [] suffix) h = tt
sliced-BuildsServable elem t (zones pre (b ∷ bs) suffix) h = h pre b bs suffix

no_offers-BuildsServable : (es : List String) → BuildsServable (no_offers es)
unfolding no_offers
no_offers-BuildsServable [] = tt
no_offers-BuildsServable (e ∷ es) = tt

module _ (b64 : Base64) (parse : String → Option ℤ)
    (replace : List (String × String) → String → String) where
  with_dates-BuildsServable :
      (ver : Version) (o : OfferId) (os : List OfferId) (doc : String) (l : Leg) (ls : List Leg)
      (r : RefValues) (dates : Option (List ℤ))
      → BuildsServable (with_dates b64 parse replace ver (o ∷ os) doc (l ∷ ls, r) dates)
  unfolding with_dates template_of
  with_dates-BuildsServable ver o os doc l ls r none = tt
  with_dates-BuildsServable ver o os doc l ls r (some ds) =
      let dates = uniq_sorted (found (hits date_at doc)) in
      sliced-BuildsServable ver.offer_elem (template_of ver (o ∷ os) dates (l ∷ ls, r) ds)
        (slice ver.offer_elem (marked_doc b64 parse replace dates (airports (l ∷ ls)) doc))
        (λ pre b bs suffix. record {
          offers = cons-ne o os;
          blocks = cons-ne (new_chunk b) (map new_chunk bs);
          legs = cons-ne l ls;
        })

  with_legs-BuildsServable :
      (ver : Version) (o : OfferId) (os : List OfferId) (doc : String) (legs : List Leg)
      (r : RefValues)
      → BuildsServable (with_legs b64 parse replace ver (o ∷ os) doc (legs, r))
  unfolding with_legs
  with_legs-BuildsServable ver o os doc [] r = tt
  with_legs-BuildsServable ver o os doc (l ∷ ls) r =
      with_dates-BuildsServable ver o os doc l ls r (parse_all parse (l ∷ ls))

  with_offers-BuildsServable :
      (ver : Version) (os : List OfferId) (doc : String)
      → BuildsServable (with_offers b64 parse replace ver os doc)
  unfolding with_offers
  with_offers-BuildsServable ver [] doc = no_offers-BuildsServable ver.id_elems
  with_offers-BuildsServable ver (o ∷ os) doc =
      let refs =
        read_refs ([], record { leg_dates = []; pax = ""; carrier = ""; currency = "" }) o in
      with_legs-BuildsServable ver o os doc refs.0 refs.1

  -- A template that is built can be served.
  pub new_template-BuildsServable :
      (raw : String) (ver : Version) → BuildsServable (new_template b64 parse replace raw ver)
  unfolding new_template
  new_template-BuildsServable raw ver =
      let (hs, behind) = hits (id_elem ver.id_elems) raw in
      with_offers-BuildsServable ver (map (λ h. parse_offer_id b64 h.1.1) hs) (mark_ids 0 hs behind)
