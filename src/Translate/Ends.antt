-- ===== src/Translate/Ends.antt =====
-- The walks of `translateTree` (edge/translate.go) end: a step may make an element deeper only where
-- its rank counts for more.
pub mod Whole
pub mod Removed
pub mod Clean
use Prim.Native.Nat.{max}
use ndc_mock.Prelude.{
  ℕ, suc, ◌+◌, ◌≤◌, ◌<◌, ◌≡◌, ◌≢◌, refl, ap, ◌∙◌, sym, Bool, true, false, not, ◌&&◌, ◌||◌, Option,
  none, some, List, [], ◌∷◌, ◌++◌, map, String, arith, if◌then◌else◌, ◌==◌, ◌!=◌, string_eq,
  keep_if, All, str_eq_ne, str_eq_self, str_eq-cases, eq_iff, Bool-cases, Option-cases, inl, inr,
}
use ndc_mock.Prelude.Text.{trim_space}
use ndc_mock.Tree.{
  Attr, Node, elem, to_list, name, attrs, text, kids, with_kids, with_attrs, with_text, leaf,
  add_kid, child, child_text, remove_kids,
}
use ndc_mock.Tree.Lists.{
  kids-with_kids, weight, depth, weight-heaviest, weight-of_list, heaviest, heaviest-append,
  heaviest-keep_if, All-heaviest,
}
use ndc_mock.Tree.Walk.{Falls, walk, walk-total, walk_with, walk_with-total}
use ndc_mock.Tree.Sort.{insert, sort, key, before}
use ndc_mock.Translate.Mapping.{Map, lookup}
use ndc_mock.Translate.Penalties.{
  find_owner, own_definition, number_seat, number_row, drop_unpriced, unpriced, stays,
  drop_references, is_none,
}
use ndc_mock.Translate.Units.{zone_into_text, take_zone, take_unit, take_units, unit_of}
use ndc_mock.Translate.Steps.{coded, recode, drop_in, sort_kids}

-- The rank of what is above the children.
abbrev more : String → ℕ → Node → ℕ
more s extra n = if name n == s then extra else 0

pub Falls-heaviest :
    (s : String) (extra : ℕ) (n : Node) (ks : List Node)
    → heaviest s extra ks ≤ heaviest s extra (kids n) + more s extra n
    → All (λ k. weight s extra k < weight s extra n) ks
Falls-heaviest s extra n ks h = rw (weight-heaviest s extra n) (All-heaviest s extra _ ks h)

-- What does not make the children heavier falls.
Falls-kept :
    (n : Node) (ks : List Node)
    → heaviest "" 0 ks ≤ heaviest "" 0 (kids n)
    → All (λ k. depth k < depth n) ks
Falls-kept n ks h = Falls-heaviest "" 0 n ks (ground arith)

-- A walk with the fuel that the steps give it.
pub walk-ends :
    (rank : Node → ℕ) (f : Node → Node)
    → Falls rank f
    → (root : Node) → (m : Node) × (walk (suc (rank root)) f root ≡ some m)
walk-ends rank f falls root = walk-total rank f falls (suc (rank root)) root (omega arith)

pub zone_into_text-Falls : Falls depth zone_into_text
unfolding zone_into_text
zone_into_text-Falls (elem s al ks t) = elim (Bool-cases (s == "AircraftScheduledDateTime")) [
  | inl e ↦ rw e (Falls-kept (elem s al ks t) (kids (elem s al ks t)) (omega arith))
  | inr e ↦ rw e (Falls-kept (elem s al ks t) (kids (elem s al ks t)) (omega arith))
]

kids-coded : (codes : Map String) (n : Node) → kids (coded codes n) ≡ kids n
unfolding coded
kids-coded codes (elem s al ks t) = elim (Option-cases (lookup codes (trim_space t))) [
  | inl e ↦ rw (coded, e) refl
  | inr (v, e) ↦ rw (coded, e) refl
]

pub recode-Falls : (values : Map (Map String)) → Falls depth (recode values)
unfolding recode
recode-Falls values n = elim (Option-cases (lookup values (name n))) [
  | inl e ↦ rw (recode, e) (Falls-kept n (kids n) (omega arith))
  | inr (codes, e) ↦ rw (recode, e, kids-coded codes n) (Falls-kept n (kids n) (omega arith))
]

pub drop_in-Falls : (parent child : String) → Falls depth (drop_in parent child)
unfolding drop_in remove_kids
drop_in-Falls parent child n = falls (parent == "" || name n == parent)
  where
    falls :
        (b : Bool)
        → All
            (λ k. depth k < depth n)
            (kids (if b then with_kids (remove_kids (kids n) child) n else n))
    falls true = rw (kids-with_kids (remove_kids (kids n) child) n) (
        Falls-kept n (remove_kids (kids n) child)
          (heaviest-keep_if "" 0 (λ k. name k != child) (kids n)))
    falls false = Falls-kept n (kids n) (omega arith)

heaviest-insert :
    (lower : String → String) (n : Node) (ms : List Node)
    → heaviest "" 0 (insert lower n ms) ≡ max (depth n) (heaviest "" 0 ms)
unfolding insert
heaviest-insert lower n [] = refl
heaviest-insert lower n (m ∷ ms) = elim (Bool-cases (before (key lower m) (key lower n))) [
  | inl e ↦ rw e (omega (arith, heaviest-insert lower n ms))
  | inr e ↦ rw e refl
]

heaviest-sort :
    (lower : String → String) (ns : List Node) → heaviest "" 0 (sort lower ns) ≡ heaviest "" 0 ns
unfolding sort
heaviest-sort lower [] = refl
heaviest-sort lower (n ∷ ns) =
    heaviest-insert lower n (sort lower ns) ∙ ap (max (depth n)) (heaviest-sort lower ns)

pub sort_kids-Falls : (lower upper : String → String) → Falls depth (sort_kids lower upper)
unfolding sort_kids
sort_kids-Falls lower upper n =
    rw (kids-with_kids (sort lower (kids n)) n)
      (Falls-kept n (sort lower (kids n)) (omega (arith, heaviest-sort lower (kids n))))

pub drop_references-Falls : (gone : List String) → Falls depth (drop_references gone)
unfolding drop_references
drop_references-Falls gone n =
    rw (kids-with_kids (keep_if (stays gone) (kids n)) n)
      (Falls-kept n (keep_if (stays gone) (kids n)) (heaviest-keep_if "" 0 (stays gone) (kids n)))

pub find_owner-Falls :
    (owner : String) (n : Node) → All (λ k. depth k < depth n) (kids (find_owner owner n).1)
unfolding find_owner
find_owner-Falls owner n = elim (Bool-cases (owner == "" && name n == "Offer")) [
  | inl e ↦ rw (find_owner, e) (Falls-kept n (kids n) (omega arith))
  | inr e ↦ rw (find_owner, e) (Falls-kept n (kids n) (omega arith))
]

pub drop_unpriced-Falls :
    (gone : List String) (n : Node) → All (λ k. depth k < depth n) (kids (drop_unpriced gone n).1)
unfolding drop_unpriced
drop_unpriced-Falls gone n = elim (Bool-cases (name n == "PenaltyList")) [
  | inl e ↦
      rw (drop_unpriced, e, kids-with_kids (keep_if (λ p. not (unpriced p)) (kids n)) n)
        (Falls-kept n (keep_if (λ p. not (unpriced p)) (kids n))
          (heaviest-keep_if "" 0 (λ p. not (unpriced p)) (kids n)))
  | inr e ↦ rw (drop_unpriced, e) (Falls-kept n (kids n) (omega arith))
]

-- A leaf that is added to the children of an element whose name counts for more.
leaf-weight : (s : String) (extra : ℕ) (s' t : String) → s' ≢ s → weight s extra (leaf s' t) ≡ 1
leaf-weight s extra s' t ne =
    weight-of_list s extra s' [] [] t ∙ rw (str_eq_ne s' s ne) (omega arith)

add_kid-Falls :
    (s s' t : String) (n : Node) (ks : List Node)
    → s' ≢ s
    → name n ≡ s
    → heaviest s 1 ks ≤ heaviest s 1 (kids n)
    → All (λ k. weight s 1 k < weight s 1 n) (ks ++ (leaf s' t ∷ []))
add_kid-Falls s s' t n ks ne e h = Falls-heaviest s 1 n (ks ++ (leaf s' t ∷ [])) (
    rw (heaviest-append s 1 ks (leaf s' t ∷ []), leaf-weight s 1 s' t ne, e, str_eq_self s)
      (omega (arith, h)))

Falls-same :
    (s : String) (extra : ℕ) (n : Node) → All (λ k. weight s extra k < weight s extra n) (kids n)
Falls-same s extra n = Falls-heaviest s extra n (kids n) (omega arith)

owner_ne : ◌≢◌ {A = String} "OwnerCode" "ServiceDefinition"
owner_ne e = ground (arith, eq_iff "OwnerCode" "ServiceDefinition")

pub own_definition-Falls :
    (owner : String) → Falls (weight "ServiceDefinition" 1) (own_definition owner)
unfolding own_definition
own_definition-Falls owner n = elim (str_eq-cases (name n) "ServiceDefinition") [
  | inl (e, same) ↦ elim (Bool-cases (is_none (child n "OwnerCode"))) [
    | inl h ↦
        rw (own_definition, e, h, kids-with_kids (kids n ++ (leaf "OwnerCode" owner ∷ [])) n)
          (add_kid-Falls "ServiceDefinition" "OwnerCode" owner n (kids n) owner_ne same
            (omega arith))
    | inr h ↦ rw (own_definition, e, h) (Falls-same "ServiceDefinition" 1 n)
  ]
  | inr (e, differs) ↦ rw (own_definition, e) (Falls-same "ServiceDefinition" 1 n)
]

number_seat-weight :
    (row : String) (k : Node) → weight "SeatRow" 1 (number_seat row k) ≤ 1 + weight "SeatRow" 1 k
unfolding number_seat
number_seat-weight row (elem s al ks t) = elim (Bool-cases (s == "Seat")) [
  | inl e ↦ elim (Bool-cases (is_none (child (elem s al ks t) "RowNumber") && row != "")) [
    | inl h ↦
        rw
          (
            number_seat,
            e,
            h,
            weight-of_list "SeatRow" 1 s al (to_list ks ++ (leaf "RowNumber" row ∷ [])) t,
            heaviest-append "SeatRow" 1 (to_list ks) (leaf "RowNumber" row ∷ []),
            leaf-weight "SeatRow" 1 "RowNumber" row row_ne,
            weight-heaviest "SeatRow" 1 (elem s al ks t),
          )
          (omega arith)
    | inr h ↦ rw (number_seat, e, h) (omega arith)
  ]
  | inr e ↦ rw (number_seat, e) (omega arith)
]
  where
    row_ne : ◌≢◌ {A = String} "RowNumber" "SeatRow"
    row_ne e = ground (arith, eq_iff "RowNumber" "SeatRow")

heaviest-number_seat :
    (row : String) (ks : List Node)
    → heaviest "SeatRow" 1 (map (number_seat row) ks) ≤ 1 + heaviest "SeatRow" 1 ks
heaviest-number_seat row [] = omega arith
heaviest-number_seat row (k ∷ ks) =
    omega (arith, number_seat-weight row k, heaviest-number_seat row ks)

pub number_row-Falls : Falls (weight "SeatRow" 1) number_row
unfolding number_row
number_row-Falls n = elim (Bool-cases (name n == "SeatRow")) [
  | inl e ↦
      rw (number_row, e, kids-with_kids (map (number_seat (child_text n "RowNumber")) (kids n)) n)
        (Falls-heaviest "SeatRow" 1 n (map (number_seat (child_text n "RowNumber")) (kids n))
          (rw e (omega (arith, heaviest-number_seat (child_text n "RowNumber") (kids n)))))
  | inr e ↦ rw (number_row, e) (Falls-same "SeatRow" 1 n)
]

weight-with_attrs :
    (s : String) (extra : ℕ) (al : List Attr) (n : Node)
    → weight s extra (with_attrs al n) ≡ weight s extra n
unfolding weight
weight-with_attrs s extra al (elem s' al' ks t) = refl

heaviest-take_units :
    (upper : String → String) (unit : String) (ks : List Node)
    → heaviest "WeightAllowance" 1 (take_units upper unit ks).1 ≡ heaviest "WeightAllowance" 1 ks
unfolding take_units
heaviest-take_units upper unit [] = refl
heaviest-take_units upper unit (k ∷ ks) =
    let (unit', al) = take_unit upper unit (attrs k) in
    rw (weight-with_attrs "WeightAllowance" 1 al k, heaviest-take_units upper unit' ks) refl

unit_ne : ◌≢◌ {A = String} "WeightUnitOfMeasurement" "WeightAllowance"
unit_ne e = ground (arith, eq_iff "WeightUnitOfMeasurement" "WeightAllowance")

pub unit_of-Falls : (upper : String → String) → Falls (weight "WeightAllowance" 1) (unit_of upper)
unfolding unit_of
unit_of-Falls upper n = elim (str_eq-cases (name n) "WeightAllowance") [
  | inl (e, same) ↦
      rw (unit_of, e)
        (unit_falls (take_units upper "" (kids n)).0 (take_units upper "" (kids n)).1
          (heaviest-take_units upper "" (kids n)) same)
  | inr (e, differs) ↦ rw (unit_of, e) (Falls-same "WeightAllowance" 1 n)
]
  where
    unit_falls :
        (unit : String) (ks : List Node)
        → heaviest "WeightAllowance" 1 ks ≡ heaviest "WeightAllowance" 1 (kids n)
        → name n ≡ "WeightAllowance"
        → All
            (λ k. weight "WeightAllowance" 1 k < weight "WeightAllowance" 1 n)
            (kids (
              if unit != "" && is_none (child (with_kids ks n) "WeightUnitOfMeasurement")
              then add_kid (leaf "WeightUnitOfMeasurement" unit) (with_kids ks n)
              else with_kids ks n))
    unit_falls unit ks h same =
        elim (Bool-cases
          (unit != "" && is_none (child (with_kids ks n) "WeightUnitOfMeasurement"))) [
            | inl c ↦
                rw
                  (
                    c,
                    kids-with_kids
                        (kids (with_kids ks n) ++ (leaf "WeightUnitOfMeasurement" unit ∷ []))
                        (with_kids ks n),
                    kids-with_kids ks n,
                  )
                  (add_kid-Falls "WeightAllowance" "WeightUnitOfMeasurement" unit n ks unit_ne same
                    (omega (arith, h)))
            | inr c ↦
                rw (c, kids-with_kids ks n)
                  (Falls-heaviest "WeightAllowance" 1 n ks (omega (arith, h)))
          ]
