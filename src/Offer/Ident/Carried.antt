-- ===== src/Offer/Ident/Carried.antt =====
-- An identifier carries the values that were served: `reencode` (edge/offerid.go) and `describe`
-- (edge/offerinfo.go) agree.
use ndc_mock.Prelude.{
  ℕ, suc, ◌≡◌, ◌≢◌, refl, ap, ◌∙◌, sym, inl, inr, Bool, true, false, some, List, [], ◌∷◌, map, ◌||◌,
  String, nat_eq, string_eq, All,
}
use ndc_mock.Prelude.Int.{ℤ, int_eq}
use ndc_mock.Itinerary.{Leg}
use ndc_mock.Offer.Info.{OfferInfo, blank, apply_defaults, total_pax}
use ndc_mock.Offer.Info.Defaults.{
  legs-defaults, currency-defaults, amount-defaults, pax-defaults, total_pax-counts,
}
use ndc_mock.Prelude.Splits.{Passes, one_more}
use ndc_mock.Prelude.Text.{split, split-ne}
use text.Mathlib.TextLemmas.{nil≢cons}
use ndc_mock.Offer.Ident.{
  Base64, OfferId, trip_of, parse_legs, read_trip, read_segment, read_segments, rewrite_text,
  rewrite_segment, parse_segment, parse_offer_id, encode, describe, reencode,
}
use ndc_mock.Offer.Ident.Texts.{IsTrip, is_trip, parse_legs-trip_of}
use ndc_mock.Offer.Ident.RoundTrip.{IsReadable, parse_offer_id-encode}
use ndc_mock.Offer.Ident.Served.{
  Piece, a_trip, a_fare, a_count, no_value, piece_text, IsPiece, IsCarried, served_text,
  rewrite_text-served,
}
use ndc_mock.Offer.Ident.Said.{
  fare_said, counts_said, set_legs-same, legs-cases, read_trip-first, read_trip-later,
  read_trip-rest, read-nothing, no_pax-plain, read-trip, read-fare, read-counts,
}

abbrev pub is_trip_piece : Piece → Bool
is_trip_piece (a_trip ls) = true
is_trip_piece _ = false

abbrev pub is_fare_piece : Piece → Bool
is_fare_piece (a_fare cur whole dec) = true
is_fare_piece _ = false

abbrev pub is_count_piece : Piece → Bool
is_count_piece (a_count s) = true
is_count_piece _ = false

-- Whether one of the pieces passes, or `b` holds before them.
abbrev pub any_from : (Piece → Bool) → Bool → List Piece → Bool
any_from f b [] = b
any_from f b (p ∷ ps) = any_from f (f p || b) ps

-- What is known of the description while the segments are read.
abbrev LegsSaid : OfferInfo → Bool → OfferInfo → Type 0
LegsSaid info true i = i.legs ≡ info.legs
LegsSaid info false i = i.legs ≡ []

abbrev FareSaid : OfferInfo → Bool → OfferInfo → Type 0
FareSaid info true i = fare_said i ≡ fare_said info
FareSaid info false i = Unit {0}

abbrev CountsSaid : OfferInfo → Bool → OfferInfo → Type 0
CountsSaid info true i = counts_said i ≡ counts_said info
CountsSaid info false i = Unit {0}

abbrev Said : OfferInfo → Bool → Bool → Bool → OfferInfo → Type 0
Said info legs fare counts i =
    LegsSaid info legs i × FareSaid info fare i × CountsSaid info counts i

legs-kept :
    (info i j : OfferInfo) (b : Bool) → j.legs ≡ i.legs → LegsSaid info b i → LegsSaid info b j
legs-kept info i j true e h = e ∙ h
legs-kept info i j false e h = e ∙ h

fare-kept :
    (info i j : OfferInfo) (b : Bool)
    → fare_said j ≡ fare_said i
    → FareSaid info b i
    → FareSaid info b j
fare-kept info i j true e h = e ∙ h
fare-kept info i j false e h = tt

counts-kept :
    (info i j : OfferInfo) (b : Bool)
    → counts_said j ≡ counts_said i
    → CountsSaid info b i
    → CountsSaid info b j
counts-kept info i j true e h = e ∙ h
counts-kept info i j false e h = tt

IsTrip-ne : (ls : List Leg) → IsTrip ls → ls ≢ []
IsTrip-ne _ (is_trip l ls h) e = cc

legs-carried :
    (info i : OfferInfo) (b : Bool)
    → IsTrip info.legs
    → LegsSaid info b i
    → (read_trip (some (trip_of info.legs)) i).legs ≡ info.legs
legs-carried info i true k h = elim (legs-cases info.legs) [
  | inl e ↦ absurd (IsTrip-ne info.legs k e)
  | inr (l, ls, e) ↦
      ap (λ j. j.legs) (read_trip-later (some (trip_of info.legs)) i l ls (h ∙ e)) ∙ h
]
legs-carried info i false k h =
    ap (λ j. j.legs) (read_trip-first (trip_of info.legs) i h)
    ∙ (set_legs-same (parse_legs (trip_of info.legs)) i).0
    ∙ parse_legs-trip_of info.legs k

abbrev first_text : List String → String
first_text [] = ""
first_text (s ∷ ss) = s

abbrev later_texts : List String → List String
later_texts [] = []
later_texts (s ∷ ss) = ss

module _ (b64 : Base64) (info : OfferInfo) (k : IsCarried info) where
  -- Each piece that is served is read as what was served, and leaves the rest.
  read-served :
      (p : Piece) (legs fare counts : Bool) (i : OfferInfo)
      → IsPiece p
      → Said info legs fare counts i
      → Said info
          (is_trip_piece p || legs)
          (is_fare_piece p || fare)
          (is_count_piece p || counts)
          (read_segment i (served_text info p))
  read-served (a_trip ls) legs fare counts i h (hl, hf, hc) =
      let t = trip_of info.legs in
      rw (read-trip info k i) (
        (
          legs-carried info i legs k.legs hl,
          fare-kept info i (read_trip (some t) i) fare (read_trip-rest (some t) i).0 hf,
          counts-kept info i (read_trip (some t) i) counts (read_trip-rest (some t) i).1 hc,
        ))
  read-served (a_fare cur whole dec) legs fare counts i (_, _, hd) (hl, hf, hc) =
      let j : OfferInfo = record i { currency = info.currency; amount = info.amount } in
      rw (read-fare info k i dec hd)
        ((legs-kept info i j legs refl hl, refl, counts-kept info i j counts refl hc))
  read-served (a_count s) legs fare counts i h (hl, hf, hc) =
      let j : OfferInfo = record i { adt = info.adt; chd = info.chd; inf = info.inf } in
      rw (read-counts info k i)
        ((legs-kept info i j legs refl hl, fare-kept info i j fare refl hf, refl))
  read-served (no_value t) legs fare counts i (ht, hp, hx) (hl, hf, hc) =
      let j = read_segment i t in
      let same = read-nothing i t ht hp (no_pax-plain t hx) in
      (
        legs-kept info i j legs same.0 hl,
        fare-kept info i j fare same.1 hf,
        counts-kept info i j counts same.2 hc,
      )

  read-All :
      (o : OfferId) (ps : List Piece) (legs fare counts : Bool) (i : OfferInfo)
      → map (λ s. s.text) o ≡ map piece_text ps
      → All IsPiece ps
      → Said info legs fare counts i
      → Said info
          (any_from is_trip_piece legs ps)
          (any_from is_fare_piece fare ps)
          (any_from is_count_piece counts ps)
          (read_segments i (map (rewrite_segment b64 info) o))
  unfolding read_segments rewrite_segment
  read-All [] [] legs fare counts i e hs h = h
  read-All [] (p ∷ ps) legs fare counts i e hs h = absurd (cc)
  read-All (s ∷ o) [] legs fare counts i e hs h = absurd (cc)
  read-All (s ∷ o) (p ∷ ps) legs fare counts i e (here, hs) h =
      let same : rewrite_text info s.text ≡ served_text info p =
        ap (rewrite_text info) (ap first_text e) ∙ rewrite_text-served info p k.legs here in
      rw same (
        read-All o ps (is_trip_piece p || legs) (is_fare_piece p || fare)
          (is_count_piece p || counts) (read_segment i (served_text info p)) (ap later_texts e) hs
          (read-served p legs fare counts i here h))

  legs-read : (i : OfferInfo) → i.legs ≡ info.legs → (apply_defaults i).legs ≡ info.legs
  legs-read i h = elim (legs-cases info.legs) [
    | inl e ↦ absurd (IsTrip-ne info.legs k.legs e)
    | inr (l, ls, e) ↦ legs-defaults i l ls (h ∙ e) ∙ sym e
  ]

  currency-ne : ◌≢◌ {A = String} info.currency ""
  currency-ne = Passes-ne k.currency
    where
      Passes-ne : {p : ℕ → Bool} {n : ℕ} {s : String} → Passes p (suc n) s → ◌≢◌ {A = String} s ""
      Passes-ne (one_more c here h) e = nil≢cons (sym e)

  -- The trip, the fare and the counts that a description has all three of are no defaults.
  defaults-kept :
      (i : OfferInfo)
      → Said info true true true i
      → ((apply_defaults i).legs ≡ info.legs)
        × ((apply_defaults i).currency ≡ info.currency)
        × ((apply_defaults i).amount ≡ info.amount)
        × (counts_said (apply_defaults i) ≡ counts_said info)
  defaults-kept i (hl, hf, hc) =
      let currency : i.currency ≡ info.currency = ap (λ (f : String × ℤ). f.0) hf in
      let amount : i.amount ≡ info.amount = ap (λ (f : String × ℤ). f.1) hf in
      let total : total_pax i ≡ total_pax info =
        total_pax-counts i info (ap (λ (c : ℕ × ℕ × ℕ). c.0) hc) (ap (λ (c : ℕ × ℕ × ℕ). c.1) hc)
          (ap (λ (c : ℕ × ℕ × ℕ). c.2) hc) in
      let pax = pax-defaults i (λ e. k.is_travelled (sym total ∙ e)) in
      (
        legs-read i hl,
        currency-defaults i (λ e. currency-ne (sym currency ∙ e)) ∙ currency,
        amount-defaults i k.whole (amount ∙ k.amount) k.is_paid ∙ sym k.amount,
        rw (pax.0, pax.1, pax.2) hc,
      )

map-ne {ℓ κ} : {A : Type ℓ} {B : Type κ} (f : A → B) (l : List A) → l ≢ [] → map f l ≢ []
map-ne f [] h = absurd (h refl)
map-ne f (a ∷ l) h = λ e. cc

module _ (b64 : Base64) where
  parse_offer_id-ne : (v : String) → parse_offer_id b64 v ≢ []
  unfolding parse_offer_id
  parse_offer_id-ne v = map-ne (parse_segment b64) (split b'|' v) (split-ne b'|' v)

  parse-encode :
      (o : OfferId) → o ≢ [] → All (IsReadable b64) o → parse_offer_id b64 (encode b64 o) ≡ o
  parse-encode [] ne h = absurd (ne refl)
  parse-encode (s ∷ o) ne h = parse_offer_id-encode b64 s o h

  parse-reencode :
      (orig : String) (info : OfferInfo)
      → All (IsReadable b64) (map (rewrite_segment b64 info) (parse_offer_id b64 orig))
      → parse_offer_id b64 (reencode b64 orig info)
        ≡ map (rewrite_segment b64 info) (parse_offer_id b64 orig)
  unfolding reencode
  parse-reencode orig info h =
      parse-encode (map (rewrite_segment b64 info) (parse_offer_id b64 orig))
        (map-ne (rewrite_segment b64 info) (parse_offer_id b64 orig) (parse_offer_id-ne orig)) h

  describe_lem :
      (id : String)
      → describe b64 id ≡ apply_defaults (read_segments (blank id) (parse_offer_id b64 id))
  unfolding describe
  describe_lem id = refl

-- An identifier of a trip, a fare and a count of passengers, and of any other segments, is rewritten
-- for values that an identifier can carry; where the rewritten segments can be told apart, the
-- identifier describes these values: the legs, the currency, the amount and the passengers.
pub describe-reencode :
    (b64 : Base64) (orig : String) (info : OfferInfo) (ps : List Piece)
    → IsCarried info
    → map (λ s. s.text) (parse_offer_id b64 orig) ≡ map piece_text ps
    → All IsPiece ps
    → All (IsReadable b64) (map (rewrite_segment b64 info) (parse_offer_id b64 orig))
    → any_from is_trip_piece false ps ≡ true
    → any_from is_fare_piece false ps ≡ true
    → any_from is_count_piece false ps ≡ true
    → let said = describe b64 (reencode b64 orig info) in
      (said.legs ≡ info.legs)
      × (said.currency ≡ info.currency)
      × (said.amount ≡ info.amount)
      × (counts_said said ≡ counts_said info)
describe-reencode b64 orig info ps k e hs hr trip fare count =
    let id = reencode b64 orig info in
    let start : Said info false false false (blank id) = (refl, tt, tt) in
    rw (describe_lem b64 id, parse-reencode b64 orig info hr)
      (defaults-kept b64 info k _ (
        rw (trip, fare, count) at
          (read-All b64 info k (parse_offer_id b64 orig) ps false false false (blank id) e hs
            start)))
