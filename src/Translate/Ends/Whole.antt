-- ===== src/Translate/Ends/Whole.antt =====
-- `translateTree` (edge/translate.go) ends.
use ndc_mock.Prelude.{
  suc, ◌<◌, ◌≡◌, ◌≢◌, refl, Bool, true, false, Option, some, List, [], ◌∷◌, String, arith, length,
  if◌then◌else◌, ◌==◌, string_eq, ◌⊎◌, All, Bool-cases, inl, inr,
}
use ndc_mock.Prelude.Text.{cut, split}
use ndc_mock.Tree.{Node, kids, with_kids}
use ndc_mock.Tree.Lists.{weight, depth, weight-heaviest, All-heaviest}
use ndc_mock.Tree.Walk.{walk, walk-total, walk_each-total, walk_with-total}
use ndc_mock.Tree.Wrap.Ends.{walk-wrap_in, walk-wrap_each_in}
use ndc_mock.Translate.Mapping.{Mapping}
use ndc_mock.Tree.Hoist.{hoist}
use ndc_mock.Translate.Penalties.{
  find_owner, own_definition, drop_unpriced, references_without, definition_owner, seat_row_number,
  unpriced_penalties,
}
use ndc_mock.Translate.Units.{tz_into_date_time, weight_unit}
use ndc_mock.Translate.Steps.{
  each_of, recode, hoist_entry, wrap_entry, wrap_each_entry, drop_entry, relabel, sort_kids,
  sort_below_root, structural, rewrite,
}
use ndc_mock.Translate.Ends.{
  walk-ends, zone_into_text-Falls, recode-Falls, drop_in-Falls, sort_kids-Falls,
  drop_references-Falls, find_owner-Falls, drop_unpriced-Falls, own_definition-Falls,
  number_row-Falls, unit_of-Falls,
}

-- A step that gives a tree.
abbrev pub Gives : Option Node → Type 0
Gives o = (m : Node) × (o ≡ some m)

-- The transforms that walk the tree and cannot panic: all but dated-segments.
pub data IsWalk : String → Type 0 where
  zones : IsWalk "tz-into-datetime"
  units : IsWalk "weight-unit"
  penalties : IsWalk "unpriced-penalties"
  rows : IsWalk "seat-row-number"
  owners : IsWalk "definition-owner"

pub references_without-ends :
    (gone : List String) (root : Node) → Gives (references_without gone root)
unfolding references_without
references_without-ends [] root = (root, refl)
references_without-ends (g ∷ gone) root = walk-ends depth _ (drop_references-Falls (g ∷ gone)) root

penalties-end : (root : Node) → Gives (unpriced_penalties root)
unfolding unpriced_penalties
penalties-end root =
    let ((gone, root'), e) =
      walk_with-total depth drop_unpriced drop_unpriced-Falls (suc (depth root)) [] root
        (omega arith) in
    let (m, f) = references_without-ends gone root' in (m, rw e f)

owners-end : (root : Node) → Gives (definition_owner root)
unfolding definition_owner
owners-end root =
    let ((owner, root'), e) =
      walk_with-total depth find_owner find_owner-Falls (suc (depth root)) "" root (omega arith) in
    elim (Bool-cases (owner == "")) [
      | inl h ↦ (root, rw (e, h) refl)
      | inr h ↦
          let (m, f) =
            walk-ends (weight "ServiceDefinition" 1) (own_definition owner)
              (own_definition-Falls owner) root in
          (m, rw (e, h) f)
    ]

-- Each of these transforms ends, whatever the tree.
pub structural-ends :
    (lower upper : String → String) (s : String) (root : Node)
    → IsWalk s
    → Gives (structural lower upper s root)
unfolding structural tz_into_date_time weight_unit seat_row_number
structural-ends lower upper _ root zones = walk-ends depth _ zone_into_text-Falls root
structural-ends lower upper _ root units =
    walk-ends (weight "WeightAllowance" 1) _ (unit_of-Falls upper) root
structural-ends lower upper _ root penalties = penalties-end root
structural-ends lower upper _ root rows = walk-ends (weight "SeatRow" 1) _ number_row-Falls root
structural-ends lower upper _ root owners = owners-end root

each_of-ends :
    {A : Type 0} (P : A → Type 0) (f : A → Node → Option Node)
    → ((a : A) (n : Node) → P a → Gives (f a n))
    → (l : List A) → All P l
    → (n : Node) → Gives (each_of f l n)
unfolding each_of
each_of-ends P f h [] hs n = (n, refl)
each_of-ends P f h (a ∷ l) (here, hs) n =
    let (m, e) = h a n here in let (o, g) = each_of-ends P f h l hs m in (o, rw e g)

-- A wrapper of which no element is named like the parent that it is for.
abbrev pub IsWrap : String × String → Type 0
IsWrap (k, wrapper) = All (λ s. ◌≢◌ {A = String} s (cut b'/' k).0) (split b'/' wrapper)

abbrev pub IsWrapEach : String × String → Type 0
IsWrapEach (k, wrapper) = ◌≢◌ {A = String} wrapper (cut b'/' k).0

wrap_entry-ends : (p : String × String) (n : Node) → IsWrap p → Gives (wrap_entry p n)
unfolding wrap_entry
wrap_entry-ends (k, wrapper) n h =
    walk-wrap_in (cut b'/' k).0 (cut b'/' k).1 wrapper n h
      (suc (weight (cut b'/' k).0 (length (split b'/' wrapper)) n)) (omega arith)

wrap_each_entry-ends : (p : String × String) (n : Node) → IsWrapEach p → Gives (wrap_each_entry p n)
unfolding wrap_each_entry
wrap_each_entry-ends (k, wrapper) n h =
    walk-wrap_each_in (cut b'/' k).0 (cut b'/' k).1 wrapper n h (suc (weight (cut b'/' k).0 1 n))
      (omega arith)

drop_entry-ends : (d : String) (n : Node) → Unit {0} → Gives (drop_entry d n)
unfolding drop_entry
drop_entry-ends d n h = elim (Bool-cases (cut b'/' d).2) [
  | inl e ↦ rw e (walk-ends depth _ (drop_in-Falls (cut b'/' d).0 (cut b'/' d).1) n)
  | inr e ↦ rw e (walk-ends depth _ (drop_in-Falls "" d) n)
]

hoist_entry-ends : (p : String × String) (n : Node) → Unit {0} → Gives (hoist_entry p n)
unfolding hoist_entry
hoist_entry-ends (k, ancestor) n h = (hoist (cut b'/' k).0 (cut b'/' k).1 ancestor n, refl)

All-any : {A : Type 0} (l : List A) → All (λ a. Unit {0}) l
All-any [] = tt
All-any (a ∷ l) = (tt, All-any l)

sort_below_root-ends :
    (lower upper : String → String) (root : Node) → Gives (sort_below_root lower upper root)
unfolding sort_below_root
sort_below_root-ends lower upper root =
    let (ks, e) =
      walk_each-total (walk (suc (depth root)) (sort_kids lower upper))
        (λ k. depth k < suc (depth root)) (kids root)
        (λ k h.
          walk-total depth (sort_kids lower upper) (sort_kids-Falls lower upper) (suc (depth root))
            k h)
        (All-heaviest "" 0 (depth root) (kids root) (omega (arith, weight-heaviest "" 0 root))) in
    (with_kids ks root, rw e refl)

sorted-ends :
    (lower upper : String → String) (b : Bool) (n : Node)
    → Gives (if b then sort_below_root lower upper n else some n)
sorted-ends lower upper true n = sort_below_root-ends lower upper n
sorted-ends lower upper false n = (n, refl)

-- `translateTree` ends with a tree, whatever the tree that it is given, if the mapping wraps no
-- children in an element named like their parent, and if its structural transforms are those that
-- walk the tree, which all but dated-segments are, or end on this tree.
pub rewrite-ends :
    (lower upper : String → String) (m : Mapping) (root : Node)
    → All IsWalk m.structural ⊎ Gives (each_of (structural lower upper) m.structural root)
    → All IsWrap m.wrap
    → All IsWrapEach m.wrap_each
    → Gives (rewrite lower upper m root)
unfolding rewrite
rewrite-ends lower upper m root shapes wraps encloses =
    let (shaped, e₁) : Gives (each_of (structural lower upper) m.structural root) = elim shapes [
      | inl h ↦
          each_of-ends IsWalk (structural lower upper) (λ s n k. structural-ends lower upper s n k)
            m.structural h root
      | inr h ↦ h
    ] in
    let (coded, e₂) = walk-ends depth (recode m.values) (recode-Falls m.values) shaped in
    let (hoisted, e₃) =
      each_of-ends (λ p. Unit {0}) hoist_entry hoist_entry-ends m.hoist (All-any m.hoist) coded in
    let (wrapped, e₄) = each_of-ends IsWrap wrap_entry wrap_entry-ends m.wrap wraps hoisted in
    let (enclosed, e₅) =
      each_of-ends IsWrapEach wrap_each_entry wrap_each_entry-ends m.wrap_each encloses wrapped in
    let (dropped, e₆) =
      each_of-ends (λ d. Unit {0}) drop_entry drop_entry-ends m.drop (All-any m.drop) enclosed in
    let (new, e₇) = sorted-ends lower upper m.sort_children (relabel lower upper m dropped) in
    (new, rw (e₁, e₂, e₃, e₄, e₅, e₆) e₇)
