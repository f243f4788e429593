-- ===== src/Tree/Sort.antt =====
-- `sortBelowRoot`. `sort.SliceStable` is a stable sort: insertion behind the elements that are not
-- greater.
use ndc_mock.Prelude.{Bool, List, [], ◌∷◌, String, if◌then◌else◌}
use text.Mathlib.Text.{is_lt}
use Prim.Native.String.{compare}
use ndc_mock.Tree.{Node, name, local_name}

-- Go's `<` on strings.
abbrev pub before : String → String → Bool
before s t = is_lt (compare s t)

-- `lower` is `strings.ToLower`.
module _ (lower : String → String) where
  abbrev pub key : Node → String
  key n = lower (local_name (name n))

  unfoldable pub insert : Node → List Node → List Node
  insert n [] = n ∷ []
  insert n (m ∷ ms) = if before (key m) (key n) then m ∷ insert n ms else n ∷ m ∷ ms

  -- A stable sort by `key`, from the last element on.
  unfoldable pub sort : List Node → List Node
  unfolding insert
  sort [] = []
  sort (n ∷ ns) = insert n (sort ns)
