-- ===== src/Translate/Penalties.antt =====
-- The structural transforms `definition-owner`, `seat-row-number` and `unpriced-penalties`.
use ndc_mock.Prelude.{
  suc, Bool, true, false, ◌&&◌, not, Option, none, some, List, [], ◌∷◌, ◌++◌, map, String,
  if◌then◌else◌, ◌==◌, ◌!=◌, string_eq, keep_if, ◌>>=◌,
}
use ndc_mock.Prelude.Text.{trim_space}
use ndc_mock.Tree.{Node, name, text, kids, with_kids, leaf, add_kid, child, child_text}
use ndc_mock.Tree.Lists.{weight, depth}
use ndc_mock.Tree.Walk.{walk, walk_with}

abbrev pub is_none {ℓ} : {A : Type ℓ} → Option A → Bool
is_none none = true
is_none (some a) = false

-- The first walk of `definitionOwner`, over the variable `owner`.
unfoldable pub find_owner : String → Node → String × Node
unfolding child_text
find_owner owner n =
    if owner == "" && name n == "Offer" then (child_text n "OwnerCode", n) else (owner, n)

unfoldable pub own_definition : String → Node → Node
unfolding child
own_definition owner n =
    if name n == "ServiceDefinition" && is_none (child n "OwnerCode")
    then add_kid (leaf "OwnerCode" owner) n
    else n

-- Gives every service definition an OwnerCode. The fuel of each walk is above the depth that it
-- meets.
unfoldable pub definition_owner : Node → Option Node
unfolding walk walk_with find_owner own_definition weight
definition_owner root = do
  (owner, _) ← walk_with (suc (depth root)) find_owner "" root
  if owner == ""
      then some root
      else walk (suc (weight "ServiceDefinition" 1 root)) (own_definition owner) root

unfoldable pub number_seat : String → Node → Node
unfolding child
number_seat row seat =
    if name seat == "Seat"
    then (if is_none (child seat "RowNumber") && row != ""
        then add_kid (leaf "RowNumber" row) seat
        else seat)
    else seat

unfoldable pub number_row : Node → Node
unfolding number_seat child_text
number_row n =
    if name n != "SeatRow"
    then n
    else with_kids (map (number_seat (child_text n "RowNumber")) (kids n)) n

-- Repeats each row's number on its seats.
unfoldable pub seat_row_number : Node → Option Node
unfolding walk number_row weight
seat_row_number root = walk (suc (weight "SeatRow" 1 root)) number_row root

unfoldable pub contains : List String → String → Bool
contains [] a = false
contains (b ∷ l) a = if b == a then true else contains l a

-- A penalty that carries no amount.
abbrev pub unpriced : Node → Bool
unpriced p = name p == "Penalty" && is_none (child p "Price")

unfoldable pub penalty_ids : List Node → List String
unfolding child_text child
penalty_ids [] = []
penalty_ids (p ∷ ps) =
    let rest = penalty_ids ps in if unpriced p then child_text p "PenaltyID" ∷ rest else rest

-- The first walk of `unpricedPenalties`, over the set `gone`.
unfoldable pub drop_unpriced : List String → Node → List String × Node
unfolding penalty_ids child
drop_unpriced gone n =
    if name n != "PenaltyList"
    then (gone, n)
    else (gone ++ penalty_ids (kids n), with_kids (keep_if (λ p. not (unpriced p)) (kids n)) n)

abbrev no_nodes : List Node → Bool
no_nodes [] = true
no_nodes (k ∷ ks) = false

-- What the second walk keeps: no reference to a penalty that is gone, and no empty list.
unfoldable pub stays : List String → Node → Bool
unfolding contains trim_space
stays gone k =
    if name k == "PenaltyRefID" && contains gone (trim_space (text k))
    then false
    else not (name k == "PenaltyList" && no_nodes (kids k))

unfoldable pub drop_references : List String → Node → Node
unfolding stays
drop_references gone n = with_kids (keep_if (stays gone) (kids n)) n

unfoldable pub references_without : List String → Node → Option Node
unfolding walk drop_references weight
references_without [] root = some root
references_without (g ∷ gone) root = walk (suc (depth root)) (drop_references (g ∷ gone)) root

-- Removes penalties that carry no amount, with every reference to them.
unfoldable pub unpriced_penalties : Node → Option Node
unfolding walk_with drop_unpriced references_without weight
unpriced_penalties root = do
  (gone, root') ← walk_with (suc (depth root)) drop_unpriced [] root
  references_without gone root'
