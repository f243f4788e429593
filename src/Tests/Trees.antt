-- ===== src/Tests/Trees.antt =====
-- The steps of a translation on small trees (edge/translate.go).
use ndc_mock.Translate.Steps.Report.{report, fresh, names, coverage, report-IsCounted}
use ndc_mock.Translate.Listed.{listed}
use ndc_mock.Prelude.{
  ◌≤◌, not, keep_if, ◌≡◌, ◌≢◌, refl, some, List, [], ◌∷◌, String, length, take, arith, eq_iff,
}
use ndc_mock.Tree.{Node, leaf, node}
use ndc_mock.Tree.Wrap.{wrap_kids, wrapped, wrap_kids-wrapped}
use ndc_mock.Translate.Mapping.{Map}
use ndc_mock.Translate.Rename.{new_name}
use ndc_mock.Translate.Rename.Longest.{IsLongest, new_name-IsLongest}

abbrev pax_list : List Node
pax_list = leaf "Pax" "1" ∷ leaf "Other" "" ∷ leaf "Pax" "2" ∷ []

wrap_kids-wrapped_example :
    wrap_kids "Pax" ("DataLists" ∷ "PaxList" ∷ []) pax_list
    ≡ wrapped "Pax" ("DataLists" ∷ "PaxList" ∷ []) pax_list
wrap_kids-wrapped_example = wrap_kids-wrapped "Pax" ("DataLists" ∷ "PaxList" ∷ []) pax_list

wrap_test :
    wrap_kids "Pax" ("PaxList" ∷ []) pax_list
    ≡ node "PaxList" (leaf "Pax" "1" ∷ leaf "Pax" "2" ∷ []) ∷ leaf "Other" "" ∷ []
unfolding wrap_kids
wrap_test = refl

differs : ◌≢◌ {A = String} "PaxList" "Response"
differs e = ground (arith, eq_iff "PaxList" "Response")

abbrev two_keys : Map String
two_keys = ("Pax/ID", "PaxID") ∷ ("ID", "Identifier") ∷ []

new_name-IsLongest_example :
    let path : List String = "ID" ∷ "Pax" ∷ "Response" ∷ [] in
    IsLongest two_keys path (new_name two_keys path)
new_name-IsLongest_example = new_name-IsLongest two_keys ("ID" ∷ "Pax" ∷ "Response" ∷ [])

new_name_test : new_name two_keys ("ID" ∷ "Pax" ∷ "Response" ∷ []) ≡ some "PaxID"
unfolding new_name
new_name_test = refl

abbrev small_tree : Node
small_tree = node "Pax" (leaf "PaxID" "1" ∷ leaf "PaxID" "2" ∷ leaf "Extra" "" ∷ [])

report-IsCounted_example :
    let r = report ("Pax" ∷ "PaxID" ∷ []) small_tree in
    let ns = fresh [] (names small_tree) in
    (r.covered ≡ length (keep_if (listed ("Pax" ∷ "PaxID" ∷ [])) ns))
    × (r.unverified ≡ length (keep_if (λ s. not (listed ("Pax" ∷ "PaxID" ∷ []) s)) ns))
    × (r.samples ≡ take 12 (keep_if (λ s. not (listed ("Pax" ∷ "PaxID" ∷ []) s)) ns))
    × (coverage r ≤ 100)
report-IsCounted_example = report-IsCounted ("Pax" ∷ "PaxID" ∷ []) small_tree

report_test :
    ((report ("Pax" ∷ "PaxID" ∷ []) small_tree).covered ≡ 2)
    × ((report ("Pax" ∷ "PaxID" ∷ []) small_tree).samples ≡ "Extra" ∷ [])
unfolding report
report_test = (refl, refl)
