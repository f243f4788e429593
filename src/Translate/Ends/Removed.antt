-- ===== src/Translate/Ends/Removed.antt =====
-- The penalties that `unpricedPenalties` (edge/translate.go) takes away, read off the tree.
use ndc_mock.Prelude.{
  refl, ap, ◌≡◌, Bool, true, false, not, ◌&&◌, List, [], ◌∷◌, ◌++◌, String, if◌then◌else◌, ◌==◌,
  string_eq, Bool-cases, inl, inr,
}
use ndc_mock.Prelude.Text.{trim_space}
use ndc_mock.Tree.{Node, Kids, elem, no_kids, kid, to_list, trimmed, first_named, child, child_text}
use ndc_mock.Translate.Penalties.{is_none, unpriced, penalty_ids}

-- Whether one of the elements is a price, and the text of the first penalty identifier.
unfoldable pub priced : Kids → Bool
priced no_kids = false
priced (kid (elem s al ks t) rest) = if s == "Price" then true else priced rest

unfoldable pub id_text : Kids → String
id_text no_kids = ""
id_text (kid (elem s al ks t) rest) = if s == "PenaltyID" then trim_space t else id_text rest

-- Whether an element is a penalty without an amount, and the identifiers of those of a list.
unfoldable pub free : Node → Bool
unfolding priced
free (elem s al ks t) = s == "Penalty" && not (priced ks)

unfoldable pub free_id : Node → String
unfolding id_text
free_id (elem s al ks t) = id_text ks

unfoldable pub free_ids : Kids → List String
unfolding free free_id
free_ids no_kids = []
free_ids (kid k ks) = let rest = free_ids ks in if free k then free_id k ∷ rest else rest

-- The identifiers of the penalties without an amount in the penalty lists, in the order of the
-- document; what such a penalty holds goes with it.
unfoldable mutual
  unfolding free free_ids

  pub removed : Node → List String
  removed (elem s al ks t) =
      (if s == "PenaltyList" then free_ids ks else []) ++ removed_below (s == "PenaltyList") ks

  pub removed_below : Bool → Kids → List String
  removed_below listed no_kids = []
  removed_below listed (kid k ks) =
      let here = removed k in
      let rest = removed_below listed ks in if listed && free k then rest else here ++ rest

priced-child : (ks : Kids) → is_none (first_named "Price" (to_list ks)) ≡ not (priced ks)
unfolding first_named priced
priced-child no_kids = refl
priced-child (kid (elem s al ks t) rest) = elim (Bool-cases (s == "Price")) [
  | inl e ↦ rw e refl
  | inr e ↦ rw e (priced-child rest)
]

id_text-child : (ks : Kids) → trimmed (first_named "PenaltyID" (to_list ks)) ≡ id_text ks
unfolding first_named trimmed id_text
id_text-child no_kids = refl
id_text-child (kid (elem s al ks t) rest) = elim (Bool-cases (s == "PenaltyID")) [
  | inl e ↦ rw e refl
  | inr e ↦ rw e (id_text-child rest)
]

pub unpriced-free : (k : Node) → unpriced k ≡ free k
unfolding child free
unpriced-free (elem s al ks t) = ap (λ b. s == "Penalty" && b) (priced-child ks)

child_text-free_id : (k : Node) → child_text k "PenaltyID" ≡ free_id k
unfolding child_text child free_id
child_text-free_id (elem s al ks t) = id_text-child ks

pub penalty_ids-free_ids : (ks : Kids) → penalty_ids (to_list ks) ≡ free_ids ks
unfolding penalty_ids free_ids
penalty_ids-free_ids no_kids = refl
penalty_ids-free_ids (kid k ks) = elim (Bool-cases (free k)) [
  | inl e ↦ rw (unpriced-free k, e, child_text-free_id k, penalty_ids-free_ids ks) refl
  | inr e ↦ rw (unpriced-free k, e, penalty_ids-free_ids ks) refl
]
