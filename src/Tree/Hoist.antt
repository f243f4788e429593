-- ===== src/Tree/Hoist.antt =====
-- `hoist`. An element hands the children that it gives up to its parent, which passes them on until
-- they reach the nearest ancestor of the wanted name.
use ndc_mock.Prelude.{
  Bool, false, ◌&&◌, ◌||◌, List, [], ◌∷◌, ◌++◌, String, if◌then◌else◌, ◌==◌, string_eq,
}
use ndc_mock.Prelude.Text.{trim_space}
use ndc_mock.Tree.{Node, Kids, elem, no_kids, kid, of_list, text, kids_named, remove_kids}

-- `dup`: whether one of the elements holds the text of `k`.
unfoldable pub holds : List Node → Node → Bool
unfolding trim_space
holds [] k = false
holds (t ∷ ts) k = holds ts k || trim_space (text t) == trim_space (text k)

-- The loop over the children that move: each joins the target unless its value is there.
unfoldable pub receive : String → List Node → List Node → List Node
unfolding holds kids_named
receive child target [] = target
receive child target (k ∷ ks) =
    receive child
      (if holds (kids_named (elem "" [] (of_list target) "") child) k
        then target
        else target ++ (k ∷ []))
      ks

-- What one element keeps as its children, and the elements that are on their way up.
pub record Lift : Type 0 where
  pub stay : List Node
  pub rise : List Node

module _ (parent child ancestor : String) where
  -- An element named `ancestor` receives what rises from below.
  unfoldable pub settle : String → List Node → List Node → Lift
  unfolding receive
  settle s ks up =
      if s == ancestor
      then record { stay = receive child ks up; rise = [] }
      else record { stay = ks; rise = up }

  -- An element named `parent` below an ancestor gives its children up.
  unfoldable pub give_up : Bool → String → Lift → Lift
  unfolding kids_named remove_kids
  give_up below s l =
      if s == parent && below
      then record {
        stay = remove_kids l.stay child;
        rise = l.rise ++ kids_named (elem "" [] (of_list l.stay) "") child;
      }
      else l

  -- `below` says whether an element above is named `ancestor`.
  mutual
    unfolding settle give_up

    hoist_node : Bool → Node → Node × List Node
    hoist_node below (elem s al ks t) =
        let (ks', up) = hoist_kids (below || s == ancestor) ks in
        let l = give_up below s (settle s ks' up) in (elem s al (of_list l.stay) t, l.rise)

    hoist_kids : Bool → Kids → List Node × List Node
    hoist_kids below no_kids = ([], [])
    hoist_kids below (kid k ks) =
        let (k', up) = hoist_node below k in
        let (ks', more) = hoist_kids below ks in (k' ∷ ks', up ++ more)

  unfoldable pub hoist : Node → Node
  unfolding hoist_node
  hoist n = (hoist_node false n).0
