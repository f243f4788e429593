-- ===== src/Template/Build/Slices.antt =====
-- The response in three zones, and the last steps of `newTemplate`. Of an error that the library
-- words, only the program's words are kept.
use ndc_mock.Prelude.{
  ℕ, zero, suc, ◌+◌, Option, none, some, List, [], ◌∷◌, map, String, ◌<>◌, if◌then◌else◌, ◌>>=◌,
  ltb, length,
}
use ndc_mock.Prelude.Int.{ℤ}
use ndc_mock.Prelude.Text.{cut_prefix}
use ndc_mock.Itinerary.{Leg, airports, pattern_of}
use ndc_mock.Offer.Ident.{Base64, OfferId, parse_offer_id}
use ndc_mock.Template.Scan.{Matcher, hits, found, split_first, split_last, width}
use ndc_mock.Template.Chunk.{new_chunk, renumber}
use ndc_mock.Template.Build.{
  Version, RefValues, Template, Built, built, failed, panics, id_elem, mark_ids, date_at, read_refs,
  uniq_sorted, marks, parse_all,
}

-- A text as it is written.
unfoldable pub literal : String → Matcher (Unit {0})
unfolding cut_prefix
literal p s = do rest ← cut_prefix p s; some (tt, rest)

-- The loop over the middle: a block ends behind each closing tag.
unfoldable pub blocks_in : String → List (String × Unit {0}) → List String
blocks_in close [] = []
blocks_in close ((t, u) ∷ hs) = (t <> close) ∷ blocks_in close hs

unfoldable pub drop_width : ℕ → String → String
drop_width zero s = s
drop_width (suc n) String.[] = String.[]
drop_width (suc n) (String.◌∷◌ c s) = drop_width n s

-- The three zones: before the first offer, its blocks, and behind the last. A document whose last
-- closing tag ends before the first opening tag is not sliced: the bounds of the slice are wrong.
pub data Zones : Type 0 where
  no_blocks : Zones
  out_of_order : Zones
  zones : String → List String → String → Zones

unfoldable pub zones_between : String → Option (String × String) → Option (String × String) → Zones
unfolding blocks_in drop_width hits literal
zones_between close (some (pre, rest)) (some (upto, suffix)) =
    if ltb (width upto) (width pre)
    then out_of_order
    else zones pre (blocks_in close (hits (literal close) (drop_width (width pre) upto)).0) suffix
zones_between close _ _ = no_blocks

unfoldable pub slice : String → String → Zones
unfolding zones_between split_first split_last
slice elem doc =
    let close = "</" <> (elem <> ">") in
    zones_between close (split_first ("<" <> (elem <> ">")) doc) (split_last close doc)

unfoldable pub sliced : String → (String → List String → String → Template) → Zones → Built
sliced elem t no_blocks = failed ("no <" <> (elem <> "> blocks in the reference response"))
sliced elem t out_of_order = panics
sliced elem t (zones pre [] suffix) = failed ("could not slice the <" <> (elem <> "> blocks"))
sliced elem t (zones pre (b ∷ bs) suffix) = built (t pre (b ∷ bs) suffix)

unfoldable pub no_offers : List String → Built
no_offers [] = panics
no_offers (e ∷ es) = failed ("reference response carries no " <> (e <> " element"))

-- The template of the three zones.
unfoldable pub template_of :
    Version
    → List OfferId
    → List String
    → List Leg × RefValues
    → List ℤ
    → String
    → List String
    → String
    → Template
unfolding airports pattern_of new_chunk
template_of ver offers dates (legs, r) leg_dates pre bs suffix = record {
  prefix = new_chunk pre;
  suffix = new_chunk suffix;
  blocks = map new_chunk bs;
  offers = offers;
  dates = dates;
  ref = record r { leg_dates = leg_dates };
  ver = ver;
  legs = legs;
  airports = airports legs;
  shape = pattern_of legs;
  xlate = none;
}

-- `parse` and `replace` are `time.Parse` and the `Replace` of a replacer.
module _ (b64 : Base64) (parse : String → Option ℤ)
    (replace : List (String × String) → String → String) where
  -- The document with a mark for every identifier, date and airport.
  unfoldable pub marked_doc : List String → List String → String → String
  unfolding marks renumber
  marked_doc dates air doc =
      let doc₁ = replace (marks "" 0 air) (replace (marks "d" 0 dates) doc) in
      let doc₂ = renumber "d" (λ i. length air + i) doc₁ in
      renumber "o" (λ i. length air + length dates + i) doc₂

  unfoldable pub with_dates :
      Version → List OfferId → String → List Leg × RefValues → Option (List ℤ) → Built
  unfolding hits date_at uniq_sorted marked_doc sliced slice airports template_of
  with_dates ver offers doc (legs, r) none = failed "reference leg date"
  with_dates ver offers doc (legs, r) (some leg_dates) =
      let dates = uniq_sorted (found (hits date_at doc)) in
      sliced ver.offer_elem (template_of ver offers dates (legs, r) leg_dates)
        (slice ver.offer_elem (marked_doc dates (airports legs) doc))

  unfoldable pub with_legs : Version → List OfferId → String → List Leg × RefValues → Built
  unfolding with_dates parse_all
  with_legs ver offers doc ([], r) =
      failed "could not derive the reference itinerary from the first identifier"
  with_legs ver offers doc (l ∷ ls, r) =
      with_dates ver offers doc (l ∷ ls, r) (parse_all parse (l ∷ ls))

  unfoldable pub with_offers : Version → List OfferId → String → Built
  unfolding with_legs read_refs no_offers
  with_offers ver [] doc = no_offers ver.id_elems
  with_offers ver (o ∷ os) doc =
      with_legs ver (o ∷ os) doc
        (read_refs ([], record { leg_dates = []; pax = ""; carrier = ""; currency = "" }) o)

  unfoldable pub new_template : String → Version → Built
  unfolding with_offers parse_offer_id hits id_elem mark_ids
  new_template raw ver =
      let (hs, behind) = hits (id_elem ver.id_elems) raw in
      with_offers ver (map (λ h. parse_offer_id b64 h.1.1) hs) (mark_ids 0 hs behind)
