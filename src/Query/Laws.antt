-- ===== src/Query/Laws.antt =====
-- What a query that was accepted says of its request.
use mathlib.Core.Path.{subst}
use ndc_mock.Prelude.{
  ℕ, suc, ◌+◌, ◌<◌, ◌≡◌, ◌≢◌, refl, ◌∙◌, sym, inl, inr, ◌||◌, Bool, some, List, [], ◌∷◌, ◌++◌,
  String, ◌==◌, ◌!=◌, if◌then◌else◌, keep_if, str_eq-cases, nat_eq, string_eq, length, arith,
  eq_iff, Bool-cases,
}
use ndc_mock.Itinerary.{Leg, pattern_of}
use ndc_mock.Itinerary.Shapes.{IsReturn, pattern_of-IsReturn}
use ndc_mock.Query.{
  Query, OriginDest, AirShoppingRq, parsed, Counts, nobody, leg_of, legs_of, add_pax, count_pax,
  second_date, query_of, checked, with_criteria, parse_query,
}

abbrev travellers : Counts → ℕ
travellers c = c.adt + c.chd + c.inf

abbrev pub Begins : List Leg → String → String → String → Type 0
Begins [] origin dest date = ⊥
Begins (l ∷ legs) origin dest date = (l.from ≡ origin) × (l.to ≡ dest) × (l.date ≡ date)

abbrev pub back_date : List Leg → String
back_date (l ∷ m ∷ legs) = m.date
back_date _ = ""

-- The legs are the origin-destinations in order, with their codes in upper case and their dates.
abbrev pub LegsAgree : (String → String) → List OriginDest → List Leg → Type 0
LegsAgree upper [] [] = Unit {0}
LegsAgree upper [] (l ∷ legs) = ⊥
LegsAgree upper (o ∷ od) [] = ⊥
LegsAgree upper (o ∷ od) (l ∷ legs) =
    (l.from ≡ upper o.dep) × (l.to ≡ upper o.arr) × (l.date ≡ o.date) × LegsAgree upper od legs

-- The types of passengers that count as children and as infants.
abbrev pub is_child : String → Bool
is_child ptc = ptc == "CHD"

abbrev pub is_infant : String → Bool
is_infant ptc = ptc == "INF" || ptc == "INS"

-- The query agrees with the request that it was read from.
pub record Agrees (upper : String → String) (rq : AirShoppingRq) (q : Query) : Type 0 where
  pub plain : (rq.specific ≡ 0) × (rq.affinity ≡ 0)
  pub legs : LegsAgree upper (rq.od192 ++ rq.od213) q.legs
  pub first : Begins q.legs q.origin q.dest q.dep_date
  pub named : (q.origin ≢ "") × (q.dest ≢ "") × (q.dep_date ≢ "")
  pub return : IsReturn q.legs → q.ret_date ≡ back_date q.legs
  pub no_return : ¬ IsReturn q.legs → q.ret_date ≡ ""
  pub children : q.chd ≡ length (keep_if (λ p. is_child (upper p)) (rq.pax192 ++ rq.pax213))
  pub infants : q.inf ≡ length (keep_if (λ p. is_infant (upper p)) (rq.pax192 ++ rq.pax213))
  pub everyone : q.adt + q.chd + q.inf ≡ length (rq.pax192 ++ rq.pax213)
  pub someone : 0 < q.adt + q.chd + q.inf

module _ (upper : String → String) where
  travellers-add_pax :
      (c : Counts) (p : String) → travellers (add_pax upper c p) ≡ suc (travellers c)
  unfolding add_pax
  travellers-add_pax c p = ground arith

  travellers-count_pax :
      (c : Counts) (ps : List String) → travellers (count_pax upper c ps) ≡ travellers c + length ps
  unfolding count_pax
  travellers-count_pax c [] = omega arith
  travellers-count_pax c (p ∷ ps) =
      omega (arith, travellers-count_pax (add_pax upper c p) ps, travellers-add_pax c p)

  add_pax-kinds :
      (c : Counts) (p : String)
      → ((add_pax upper c p).chd ≡ (if is_child (upper p) then suc c.chd else c.chd))
        × ((add_pax upper c p).inf ≡ (if is_infant (upper p) then suc c.inf else c.inf))
  unfolding add_pax
  add_pax-kinds c p = elim (str_eq-cases (upper p) "ADT") [
    | inl (same, adult) ↦ rw adult (refl, refl)
    | inr (other, _) ↦ elim (str_eq-cases (upper p) "CHD") [
      | inl (same, child) ↦ rw child (refl, refl)
      | inr (no_child, _) ↦ rw (other, no_child) (ground arith, ground arith)
    ]
  ]

  count_pax-kinds :
      (c : Counts) (ps : List String)
      → ((count_pax upper c ps).chd ≡ c.chd + length (keep_if (λ p. is_child (upper p)) ps))
        × ((count_pax upper c ps).inf ≡ c.inf + length (keep_if (λ p. is_infant (upper p)) ps))
  unfolding count_pax
  count_pax-kinds c [] = (omega arith, omega arith)
  count_pax-kinds c (p ∷ ps) =
      let (chd, inf) = add_pax-kinds c p in
      let (chd', inf') = count_pax-kinds (add_pax upper c p) ps in
      (ground (arith, chd, chd'), ground (arith, inf, inf'))

  legs_of-LegsAgree : (od : List OriginDest) → LegsAgree upper od (legs_of upper od)
  unfolding legs_of leg_of
  legs_of-LegsAgree [] = tt
  legs_of-LegsAgree (o ∷ od) = (refl, refl, refl, legs_of-LegsAgree od)

  second_date-back : (od : List OriginDest) → second_date upper od ≡ back_date (legs_of upper od)
  unfolding second_date legs_of leg_of
  second_date-back [] = refl
  second_date-back (o ∷ []) = refl
  second_date-back (o ∷ p ∷ od) = refl

  checked-parsed :
      (r q : Query)
      → checked upper r ≡ parsed q
      → (r ≡ q) × (r.origin ≢ "") × (r.dest ≢ "") × (r.dep_date ≢ "") × (0 < r.adt + r.chd + r.inf)
  unfolding checked
  checked-parsed r q h = ground (arith, eq_iff r.origin "", eq_iff r.dest "", eq_iff r.dep_date "")

  query_of-ret_date :
      (country : String) (o : OriginDest) (od : List OriginDest) (pax : List String)
      → let q = query_of upper country o od pax in
        (IsReturn q.legs → q.ret_date ≡ back_date q.legs) × (¬ IsReturn q.legs → q.ret_date ≡ "")
  unfolding query_of
  query_of-ret_date country o od pax =
      let legs = legs_of upper (o ∷ od) in
      let back = pattern_of-IsReturn legs in
      (
        λ r. rw (back.1 r) (second_date-back (o ∷ od)),
        λ n. ground (arith, eq_iff (pattern_of legs) "0-1,1-0", back),
      )

  legs_of-Begins :
      (country : String) (o : OriginDest) (od : List OriginDest) (pax : List String)
      → let q = query_of upper country o od pax in
        (q.legs ≡ legs_of upper (o ∷ od))
        × Begins q.legs q.origin q.dest q.dep_date
        × (q.adt + q.chd + q.inf ≡ length pax)
        × (q.chd ≡ length (keep_if (λ p. is_child (upper p)) pax))
        × (q.inf ≡ length (keep_if (λ p. is_infant (upper p)) pax))
  unfolding query_of legs_of leg_of
  legs_of-Begins country o od pax =
      let (chd, inf) = count_pax-kinds nobody pax in
      (
        refl,
        (refl, refl, refl),
        travellers-count_pax nobody pax ∙ omega arith,
        chd ∙ omega arith,
        inf ∙ omega arith,
      )

  with_criteria-Agrees :
      (rq : AirShoppingRq) (od : List OriginDest) (q : Query)
      → rq.od192 ++ rq.od213 ≡ od
      → (rq.specific ≡ 0) × (rq.affinity ≡ 0)
      → with_criteria upper rq.country_code od (rq.pax192 ++ rq.pax213) ≡ parsed q
      → Agrees upper rq q
  unfolding with_criteria
  with_criteria-Agrees rq [] q e plain h = cc
  with_criteria-Agrees rq (o ∷ od) q e plain h =
      let pax = rq.pax192 ++ rq.pax213 in
      let r = query_of upper rq.country_code o od pax in
      let (same, origin, dest, date, someone) = checked-parsed r q h in
      let (legs, first, everyone, children, infants) = legs_of-Begins rq.country_code o od pax in
      let (return, no_return) = query_of-ret_date rq.country_code o od pax in
      rw (← same) (record {
        plain = plain;
        legs = rw e (subst (LegsAgree upper (o ∷ od)) (sym legs) (legs_of-LegsAgree (o ∷ od)));
        first = first;
        named = (origin, dest, date);
        return = return;
        no_return = no_return;
        children = children;
        infants = infants;
        everyone = everyone;
        someone = someone;
      })

  -- An accepted query agrees with its request: its legs are the request's in order, the 19.2 ones
  -- first, the single-trip fields are those of the first leg and none is empty, a return date is set
  -- exactly for a return, every passenger is counted once, the "CHD" ones as children, the "INF" and
  -- "INS" ones as infants and all others as adults, and there is at least one. The request has no
  -- specific or affinity shopping.
  pub parse_query-Agrees :
      (rq : AirShoppingRq) (q : Query) → parse_query upper (some rq) ≡ parsed q → Agrees upper rq q
  unfolding parse_query
  parse_query-Agrees rq q h = elim (Bool-cases (rq.specific != 0 || rq.affinity != 0)) [
    | inl other ↦ absurd (ground arith)
    | inr plain ↦ with_criteria-Agrees rq _ q refl (ground arith, ground arith) (rw plain at h)
  ]
