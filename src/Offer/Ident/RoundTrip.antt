-- ===== src/Offer/Ident/RoundTrip.antt =====
-- Identifiers that are written and read again.
use ndc_mock.Prelude.{
  ◌≡◌, refl, ap, ◌∙◌, true, false, Option, none, some, [], ◌∷◌, map, String, ◌<>◌, nat_eq,
  string_eq, All, <>_nil,
}
use ndc_mock.Prelude.Text.{cut}
use ndc_mock.Prelude.Numerals.{AllPass}
use ndc_mock.Prelude.Splits.{other_than, cut-whole, cut-sep, split-join}
use ndc_mock.Offer.Ident.{
  Base64, Segment, OfferId, decode_text, marked_with, marked, segment_with, parse_segment,
  parse_offer_id, encode_segment, encode,
}

-- A segment that a reader tells from the others: its text is written in base64, with a mark behind
-- it or not, or it is a plain text that does not read as base64.
pub data IsPlain (b64 : Base64) (s : String) : Type 0 where
  without_mark : AllPass (other_than b'~') s → IsPlain b64 s
  with_mark :
      (t u : String)
      → s ≡ t <> ("~" <> u)
      → AllPass (other_than b'~') t
      → decode_text b64 t ≡ none
      → IsPlain b64 s

pub data IsReadable (b64 : Base64) : Segment → Type 0 where
  coded :
      (t : String)
      → AllPass (other_than b'|') (b64.encode t)
      → decode_text b64 (b64.encode t) ≡ some t
      → IsReadable b64 (record { text = t; is_b64 = true; suffix = "" })
  coded_mark :
      (t u : String)
      → AllPass (other_than b'|') (b64.encode t <> ("~" <> u))
      → AllPass (other_than b'~') (b64.encode t)
      → decode_text b64 (b64.encode t) ≡ some t
      → decode_text b64 (b64.encode t <> ("~" <> u)) ≡ none
      → IsReadable b64 (record { text = t; is_b64 = true; suffix = "~" <> u })
  plain :
      (t : String)
      → AllPass (other_than b'|') t
      → decode_text b64 t ≡ none
      → IsPlain b64 t
      → IsReadable b64 (record { text = t; is_b64 = false; suffix = "" })

module _ (b64 : Base64) where
  encoded-AllPass :
      (s : Segment) → IsReadable b64 s → AllPass (other_than b'|') (encode_segment b64 s)
  unfolding encode_segment
  encoded-AllPass _ (coded t h d) = rw (<>_nil (b64.encode t)) h
  encoded-AllPass _ (coded_mark t u h k d e) = h
  encoded-AllPass _ (plain t h d p) = h

  with_some :
      (s t : String) → segment_with b64 s (some t) ≡ record { text = t; is_b64 = true; suffix = "" }
  unfolding segment_with
  with_some s t = refl

  with_none : (s : String) → segment_with b64 s none ≡ marked b64 s (cut b'~' s)
  unfolding segment_with
  with_none s = refl

  no_mark :
      (t : String) → marked b64 t (t, "", false) ≡ record { text = t; is_b64 = false; suffix = "" }
  unfolding marked
  no_mark t = refl

  at_mark :
      (s v u : String) (r : Option String)
      → decode_text b64 v ≡ r
      → marked b64 s (v, u, true) ≡ marked_with b64 s u r
  unfolding marked
  at_mark s v u r d = ap (marked_with b64 s u) d

  segment-coded :
      (s t : String)
      → decode_text b64 s ≡ some t
      → parse_segment b64 s ≡ record { text = t; is_b64 = true; suffix = "" }
  unfolding parse_segment
  segment-coded s t d = ap (segment_with b64 s) d ∙ with_some s t

  segment-uncoded :
      (s : String) → decode_text b64 s ≡ none → parse_segment b64 s ≡ marked b64 s (cut b'~' s)
  unfolding parse_segment
  segment-uncoded s d = ap (segment_with b64 s) d ∙ with_none s

  plain-segment :
      (t : String)
      → decode_text b64 t ≡ none
      → IsPlain b64 t
      → parse_segment b64 t ≡ record { text = t; is_b64 = false; suffix = "" }
  unfolding marked_with
  plain-segment t d (without_mark h) =
      segment-uncoded t d ∙ (ap (marked b64 t) (cut-whole b'~' t h) ∙ no_mark t)
  plain-segment t d (with_mark v u e h k) =
      segment-uncoded t d
      ∙ (ap (marked b64 t) (ap (cut b'~') e ∙ cut-sep "~" v u h) ∙ at_mark t v u none k)

  parse-encode_segment :
      (s : Segment) → IsReadable b64 s → parse_segment b64 (encode_segment b64 s) ≡ s
  unfolding encode_segment marked_with
  parse-encode_segment _ (coded t h d) =
      rw (<>_nil (b64.encode t)) (segment-coded (b64.encode t) t d)
  parse-encode_segment _ (coded_mark t u h k d e) =
      let s = b64.encode t <> ("~" <> u) in
      segment-uncoded s e
      ∙ (ap (marked b64 s) (cut-sep "~" (b64.encode t) u k) ∙ at_mark s (b64.encode t) u (some t) d)
  parse-encode_segment _ (plain t h d p) = plain-segment t d p

  encoded-All :
      (o : OfferId)
      → All (IsReadable b64) o
      → All (AllPass (other_than b'|')) (map (encode_segment b64) o)
  encoded-All [] h = tt
  encoded-All (s ∷ o) (here, h) = (encoded-AllPass s here, encoded-All o h)

  map-parse-encode :
      (o : OfferId)
      → All (IsReadable b64) o
      → map (parse_segment b64) (map (encode_segment b64) o) ≡ o
  map-parse-encode [] h = refl
  map-parse-encode (s ∷ o) (here, h) = rw (parse-encode_segment s here, map-parse-encode o h)

  -- An identifier of one segment or more, each of which a reader tells from the others, is written
  -- so that it is read back as it was: texts, encodings and marks.
  pub parse_offer_id-encode :
      (s : Segment) (o : OfferId)
      → All (IsReadable b64) (s ∷ o)
      → parse_offer_id b64 (encode b64 (s ∷ o)) ≡ s ∷ o
  unfolding parse_offer_id encode
  parse_offer_id-encode s o h =
      ap (map (parse_segment b64))
        (split-join "|" (encode_segment b64 s) (map (encode_segment b64) o) (encoded-All (s ∷ o) h))
      ∙ map-parse-encode (s ∷ o) h
