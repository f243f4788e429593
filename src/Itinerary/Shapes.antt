-- ===== src/Itinerary/Shapes.antt =====
-- The printed shape, read back as numbers, and the kinds of trip.
use ndc_mock.Prelude.{
  ℕ, ◌≡◌, ◌≢◌, refl, sym, ap, ◌∙◌, ◌↔◌, true, List, [], ◌∷◌, map, string_eq, String, ◌<>◌, <>_assoc,
  <>_nil, arith, eq_iff,
}
use text.Mathlib.TextLemmas.{nil≢cons}
use ndc_mock.Prelude.Text.{join, itoa}
use ndc_mock.Prelude.Decimal.{read_nat, NoDigit, read_nat-itoa_stop}
use ndc_mock.Itinerary.{Leg, Index, has, at, number, number_leg, parts, pattern_of, multi_city}
use ndc_mock.Itinerary.Numbering.{numbers}

pair_text : ℕ × ℕ → String
pair_text (i, j) = itoa i <> ("-" <> itoa j)

-- What stands behind the first part.
tail_text : List (ℕ × ℕ) → String
tail_text [] = ""
tail_text (p ∷ ps) = "," <> (pair_text p <> tail_text ps)

shape_text : List (ℕ × ℕ) → String
shape_text [] = ""
shape_text (p ∷ ps) = pair_text p <> tail_text ps

join-pair_text : (ps : List (ℕ × ℕ)) → join "," (map pair_text ps) ≡ shape_text ps
unfolding join shape_text tail_text
join-pair_text [] = refl
join-pair_text (p ∷ []) = sym (<>_nil (pair_text p))
join-pair_text (p ∷ q ∷ ps) =
    ap (λ (t : String). pair_text p <> ("," <> t)) (join-pair_text (q ∷ ps))

parts-numbers : (idx : Index) (legs : List Leg) → parts idx legs ≡ map pair_text (numbers idx legs)
unfolding parts numbers pair_text
parts-numbers idx [] = refl
parts-numbers idx (l ∷ legs) = cc (parts-numbers (number_leg idx l) legs)

pattern_of-shape_text : (legs : List Leg) → pattern_of legs ≡ shape_text (numbers [] legs)
unfolding pattern_of
pattern_of-shape_text legs = rw parts-numbers (join-pair_text (numbers [] legs))

itoa_cancel :
    (m n : ℕ) (r s : String) → NoDigit r → NoDigit s → itoa m <> r ≡ itoa n <> s → (m ≡ n) × (r ≡ s)
itoa_cancel m n r s hr hs e =
    let same : read_nat 0 (itoa m <> r) ≡ read_nat 0 (itoa n <> s) = ap (read_nat 0) e in
    (
      cc (read_nat-itoa_stop m r hr, read_nat-itoa_stop n s hs),
      cc (read_nat-itoa_stop m r hr, read_nat-itoa_stop n s hs),
    )

pair_text_cancel :
    (p q : ℕ × ℕ) (r s : String)
    → NoDigit r
    → NoDigit s
    → pair_text p <> r ≡ pair_text q <> s
    → (p ≡ q) × (r ≡ s)
unfolding pair_text
pair_text_cancel (i, j) (k, l) r s hr hs e =
    let regrouped : itoa i <> ("-" <> (itoa j <> r)) ≡ itoa k <> ("-" <> (itoa l <> s)) =
      sym (<>_assoc (itoa i) ("-" <> itoa j) r) ∙ e ∙ <>_assoc (itoa k) ("-" <> itoa l) s in
    let (first, rest) = itoa_cancel i k _ _ refl refl regrouped in
    let behind : itoa j <> r ≡ itoa l <> s = cc in
    let (second, end) = itoa_cancel j l r s hr hs behind in (cc, end)

tail_text-NoDigit : (ps : List (ℕ × ℕ)) → NoDigit (tail_text ps)
unfolding tail_text
tail_text-NoDigit [] = tt
tail_text-NoDigit (p ∷ ps) = refl

tail_text_inj : (ps qs : List (ℕ × ℕ)) → tail_text ps ≡ tail_text qs → ps ≡ qs
unfolding tail_text
tail_text_inj [] [] e = refl
tail_text_inj [] (q ∷ qs) e = cc
tail_text_inj (p ∷ ps) [] e = cc
tail_text_inj (p ∷ ps) (q ∷ qs) e =
    let behind : pair_text p <> tail_text ps ≡ pair_text q <> tail_text qs = cc in
    let (first, rest) =
      pair_text_cancel p q _ _ (tail_text-NoDigit ps) (tail_text-NoDigit qs) behind in
    cc (tail_text_inj ps qs rest)

-- A printed pair is not empty.
pair_text_ne : (p : ℕ × ℕ) (r : String) → "" ≢ pair_text p <> r
unfolding pair_text read_nat
pair_text_ne (i, j) r e =
    let read : read_nat 0 "" ≡ read_nat 0 (itoa i <> ("-" <> (itoa j <> r))) =
      ap (read_nat 0) (e ∙ <>_assoc (itoa i) ("-" <> itoa j) r) in
    let rest : "" ≡ "-" <> (itoa j <> r) =
      ap (λ p. p.1) (read ∙ read_nat-itoa_stop i ("-" <> (itoa j <> r)) refl) in
    absurd (nil≢cons rest)

shape_text_inj : (ps qs : List (ℕ × ℕ)) → shape_text ps ≡ shape_text qs → ps ≡ qs
unfolding shape_text
shape_text_inj [] [] e = refl
shape_text_inj [] (q ∷ qs) e = absurd (pair_text_ne q _ e)
shape_text_inj (p ∷ ps) [] e = absurd (pair_text_ne p _ (sym e))
shape_text_inj (p ∷ ps) (q ∷ qs) e =
    let (first, rest) = pair_text_cancel p q _ _ (tail_text-NoDigit ps) (tail_text-NoDigit qs) e in
    cc (tail_text_inj ps qs rest)

pub pattern_of_inj :
    (legs more : List Leg) → pattern_of legs ≡ pattern_of more → numbers [] legs ≡ numbers [] more
pattern_of_inj legs more e =
    shape_text_inj _ _ (sym (pattern_of-shape_text legs) ∙ e ∙ pattern_of-shape_text more)

-- The legs `from` to `to` and back.
abbrev pub IsReturn : List Leg → Type 0
IsReturn (l ∷ m ∷ []) = (l.from ≢ l.to) × (m.from ≡ l.to) × (m.to ≡ l.from)
IsReturn _ = ⊥

abbrev pub IsOneWay : List Leg → Type 0
IsOneWay (l ∷ []) = l.from ≢ l.to
IsOneWay _ = ⊥

pattern_of-numbers :
    (legs : List Leg) (ps : List (ℕ × ℕ))
    → (pattern_of legs ≡ shape_text ps) ↔ (numbers [] legs ≡ ps)
pattern_of-numbers legs ps = (
  λ e. shape_text_inj _ _ (sym (pattern_of-shape_text legs) ∙ e),
  λ e. pattern_of-shape_text legs ∙ ap shape_text e,
)

abbrev one_way : List (ℕ × ℕ)
one_way = (0, 1) ∷ []

abbrev round_trip : List (ℕ × ℕ)
round_trip = (0, 1) ∷ (1, 0) ∷ []

numbers-one_way : (legs : List Leg) → (numbers [] legs ≡ one_way) ↔ IsOneWay legs
unfolding numbers number has at
numbers-one_way [] = ground arith
numbers-one_way (l ∷ []) =
    ground (arith, eq_iff l.from l.to, eq_iff l.from l.from, eq_iff l.to l.to)
numbers-one_way (l ∷ m ∷ legs) = (λ e. cc, λ h. elim h [ ])

numbers-round_trip : (legs : List Leg) → (numbers [] legs ≡ round_trip) ↔ IsReturn legs
unfolding numbers number has at
numbers-round_trip [] = ground arith
numbers-round_trip (l ∷ []) = (λ e. cc, λ h. elim h [ ])
numbers-round_trip (l ∷ m ∷ []) = ground (
  arith,
  eq_iff l.from l.to,
  eq_iff l.from l.from,
  eq_iff l.to l.to,
  eq_iff l.from m.from,
  eq_iff l.to m.from,
  eq_iff l.from m.to,
  eq_iff l.to m.to,
  eq_iff m.from m.from,
  eq_iff m.to m.to,
  eq_iff m.from m.to,
)
numbers-round_trip (l ∷ m ∷ n ∷ legs) = (λ e. cc, λ h. elim h [ ])

-- The shape is "0-1" exactly for a single leg between two different airports.
pub pattern_of-IsOneWay : (legs : List Leg) → (pattern_of legs ≡ "0-1") ↔ IsOneWay legs
unfolding shape_text tail_text pair_text itoa
pattern_of-IsOneWay legs = (
  λ e. (numbers-one_way legs).0 ((pattern_of-numbers legs one_way).0 e),
  λ h. (pattern_of-numbers legs one_way).1 ((numbers-one_way legs).1 h),
)

-- The shape is "0-1,1-0" exactly for a leg between two different airports and the leg back.
pub pattern_of-IsReturn : (legs : List Leg) → (pattern_of legs ≡ "0-1,1-0") ↔ IsReturn legs
unfolding shape_text tail_text pair_text itoa
pattern_of-IsReturn legs = (
  λ e. (numbers-round_trip legs).0 ((pattern_of-numbers legs round_trip).0 e),
  λ h. (pattern_of-numbers legs round_trip).1 ((numbers-round_trip legs).1 h),
)

-- An itinerary is multi-city exactly if it is neither a single leg between two airports nor such
-- a leg with the leg back.
pub multi_city_iff :
    (legs : List Leg) → (multi_city legs ≡ true) ↔ ((¬ IsOneWay legs) × (¬ IsReturn legs))
unfolding multi_city
multi_city_iff legs = ground (
  arith,
  eq_iff (pattern_of legs) "0-1",
  eq_iff (pattern_of legs) "0-1,1-0",
  pattern_of-IsOneWay legs,
  pattern_of-IsReturn legs,
)
