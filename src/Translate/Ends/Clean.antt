-- ===== src/Translate/Ends/Clean.antt =====
-- What `unpricedPenalties` (edge/translate.go) leaves.
use ndc_mock.Prelude.{
  ◌≡◌, refl, Bool, false, ◌&&◌, Option, none, some, List, [], ◌∷◌, ◌++◌, String, ◌==◌, string_eq,
  Bool-cases, inl, inr,
}
use ndc_mock.Prelude.Text.{trim_space}
use ndc_mock.Tree.{Node, Kids, elem, no_kids, kid, name, text}
use ndc_mock.Translate.Listed.{listed}
use ndc_mock.Translate.Ends.Removed.{removed}

-- Whether an element refers to one of the penalties.
abbrev pub refers : List String → Node → Bool
refers gone k = name k == "PenaltyRefID" && listed gone (trim_space (text k))

-- No element of the tree has a child that refers to one of the penalties.
mutual
  pub IsClean : List String → Node → Type 0
  IsClean gone (elem s al ks t) = AreClean gone ks

  pub AreClean : List String → Kids → Type 0
  AreClean gone no_kids = Unit {0}
  AreClean gone (kid k ks) = (refers gone k ≡ false) × IsClean gone k × AreClean gone ks

abbrev or_else : {A : Type 0} → A → Option A → A
or_else a none = a
or_else a (some b) = b

-- What a walk makes of a child: the name and the text stay.
abbrev Walked : List String → Node → Node → Type 0
Walked gone k m = (name m ≡ name k) × (text m ≡ text k) × IsClean gone m

abbrev removed_each : List Node → List String
removed_each [] = []
removed_each (k ∷ ks) = removed k ++ removed_each ks

abbrev first_of : {A B : Type 0} → A → Option (A × B) → A
first_of a none = a
first_of a (some (x, b)) = x

no_reference : (k : Node) → refers [] k ≡ false
unfolding listed
no_reference k = elim (Bool-cases (name k == "PenaltyRefID")) [
  | inl e ↦ rw e refl
  | inr e ↦ rw e refl
]

mutual
  unfolding IsClean AreClean

  nothing-IsClean : (n : Node) → IsClean [] n
  nothing-IsClean (elem s al ks t) = nothing-AreClean ks

  nothing-AreClean : (ks : Kids) → AreClean [] ks
  nothing-AreClean no_kids = tt
  nothing-AreClean (kid k ks) = (no_reference k, nothing-IsClean k, nothing-AreClean ks)
