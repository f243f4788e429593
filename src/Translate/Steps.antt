-- ===== src/Translate/Steps.antt =====
-- `translateTree`: the steps, in the order of the source, and the report. `none` means that a walk
-- does not end, or a panic.
pub mod Report
use Prim.Native.Nat.{min}
use Prim.Native.String.{compare}
use ndc_mock.Prelude.{
  ℕ, zero, suc, ◌+◌, ◌≡◌, refl, Bool, true, false, ◌&&◌, ◌||◌, not, Option, none, some, List, [],
  ◌∷◌, ◌++◌, map, String, ◌<>◌, if◌then◌else◌, ◌==◌, ◌!=◌, string_eq, ◌>>=◌, length,
}
use ndc_mock.Prelude.Text.{trim_space, cut, split}
use ndc_mock.Tree.{
  Attr, Node, Kids, elem, no_kids, kid, to_list, of_list, name, attrs, text, kids, with_kids,
  with_name, with_attrs, with_text, remove_kids, local_name,
}
use ndc_mock.Tree.Lists.{weight, depth}
use ndc_mock.Tree.Walk.{walk, walk_each}
use ndc_mock.Tree.Wrap.{wrap_in, wrap_each_in}
use ndc_mock.Tree.Hoist.{hoist}
use ndc_mock.Tree.Sort.{before, sort}
use ndc_mock.Translate.Mapping.{Map, lookup, Mapping, MessageLayout}
use ndc_mock.Translate.Rename.{rename_node}
use ndc_mock.Translate.Penalties.{definition_owner, seat_row_number, unpriced_penalties}
use ndc_mock.Translate.Units.{tz_into_date_time, weight_unit}
use ndc_mock.Translate.Segments.{dated_segments}

-- A loop over a map or a list, each round of which rewrites the tree.
unfoldable pub each_of {ℓ} : {A : Type ℓ} → (A → Node → Option Node) → List A → Node → Option Node
each_of f [] n = some n
each_of f (a ∷ as') n = do m ← f a n; each_of f as' m

-- The value that a code list gives to a text.
unfoldable pub coded : Map String → Node → Node
unfolding lookup trim_space
coded codes n = elim (lookup codes (trim_space (text n))) [ none ↦ n | some v ↦ with_text v n ]

unfoldable pub recode : Map (Map String) → Node → Node
unfolding lookup coded
recode values n = elim (lookup values (name n)) [ none ↦ n | some codes ↦ coded codes n ]

unfoldable pub hoist_entry : String × String → Node → Option Node
unfolding cut hoist
hoist_entry (k, ancestor) root =
    let (parent, child, _) = cut b'/' k in some (hoist parent child ancestor root)

unfoldable pub wrap_entry : String × String → Node → Option Node
unfolding cut walk wrap_in split weight
wrap_entry (k, wrapper) root =
    let (parent, child, _) = cut b'/' k in
    walk (suc (weight parent (length (split b'/' wrapper)) root)) (wrap_in parent child wrapper)
      root

unfoldable pub wrap_each_entry : String × String → Node → Option Node
unfolding cut walk wrap_each_in weight
wrap_each_entry (k, wrapper) root =
    let (parent, child, _) = cut b'/' k in
    walk (suc (weight parent 1 root)) (wrap_each_in parent child wrapper) root

unfoldable pub drop_in : String → String → Node → Node
unfolding remove_kids
drop_in parent child n =
    if parent == "" || name n == parent then with_kids (remove_kids (kids n) child) n else n

unfoldable pub drop_entry : String → Node → Option Node
unfolding cut walk drop_in weight
drop_entry d root =
    let (parent, child, scoped) = cut b'/' d in
    walk (suc (depth root)) (if scoped then drop_in parent child else drop_in "" d) root

-- A declaration of a namespace.
unfoldable pub is_xmlns : Attr → Bool
is_xmlns a = a.space == "xmlns" || (a.space == "" && a.local == "xmlns")

rename_namespace : Map String → Attr → Attr
unfolding is_xmlns lookup
rename_namespace m a = elim (lookup m a.value) [
  | none ↦ a
  | some to ↦ if is_xmlns a then record a { value = to } else a
]

other_attrs : List Attr → List Attr
unfolding is_xmlns
other_attrs [] = []
other_attrs (a ∷ al) = let rest = other_attrs al in if is_xmlns a then rest else a ∷ rest

abbrev xmlns : String → String → String → Attr
xmlns space local value = record { space = space; local = local; value = value }

in_message : Node → Node
unfolding local_name
in_message n = with_name ("m:" <> local_name (name n)) n

-- The namespace split of 21.3 and later.
unfoldable pub lay_out : Option MessageLayout → Node → Node
unfolding in_message other_attrs
lay_out none root = root
lay_out (some l) root =
    with_attrs
      (other_attrs (attrs root) ++ (xmlns "" "xmlns" l.types ∷ xmlns "xmlns" "m" l.message ∷ []))
      (with_kids (map in_message (kids root)) (in_message root))

-- `sort.Strings`, on the keys of a map with their values.
insert_prefix : String × String → Map String → Map String
insert_prefix p [] = p ∷ []
insert_prefix (k, v) ((j, w) ∷ m) =
    if before j k then (j, w) ∷ insert_prefix (k, v) m else (k, v) ∷ (j, w) ∷ m

unfoldable pub sort_prefixes : Map String → Map String
unfolding insert_prefix
sort_prefixes [] = []
sort_prefixes (p ∷ m) = insert_prefix p (sort_prefixes m)

declarations : Map String → List Attr
declarations [] = []
declarations ((p, v) ∷ m) = xmlns "xmlns" p v ∷ declarations m

-- `lower` is `strings.ToLower`, `upper` is `strings.ToUpper`.
module _ (lower upper : String → String) where
  -- The transforms by name; `loadMappings` refuses a name that is not among them.
  unfoldable pub structural : String → Node → Option Node
  unfolding dated_segments tz_into_date_time weight_unit unpriced_penalties seat_row_number
      definition_owner
  structural s root =
      if s == "dated-segments"
      then dated_segments root
      else if s == "tz-into-datetime"
      then tz_into_date_time root
      else if s == "weight-unit"
      then weight_unit upper root
      else if s == "unpriced-penalties"
      then unpriced_penalties root
      else if s == "seat-row-number"
      then seat_row_number root
      else if s == "definition-owner"
      then definition_owner root
      else none

  unfoldable pub sort_kids : Node → Node
  unfolding sort
  sort_kids n = with_kids (sort lower (kids n)) n

  unfoldable pub sort_below_root : Node → Option Node
  unfolding walk walk_each sort_kids weight
  sort_below_root root = do
    ks ← walk_each (walk (suc (depth root)) sort_kids) (kids root)
    some (with_kids ks root)

  -- The steps of `translateTree` between the walks: the names, the namespaces, the layout of the
  -- message and its declarations.
  unfoldable pub relabel : Mapping → Node → Node
  unfolding rename_node rename_namespace lay_out sort_prefixes declarations
  relabel m root =
      let renamed = rename_node m.rename [] root in
      let spaced = with_attrs (map (rename_namespace m.namespaces) (attrs renamed)) renamed in
      let laid = lay_out m.message_layout spaced in
      with_attrs (attrs laid ++ declarations (sort_prefixes m.declare)) laid

  -- What `translateTree` does to the tree.
  unfoldable pub rewrite : Mapping → Node → Option Node
  unfolding each_of structural walk recode hoist_entry wrap_entry wrap_each_entry drop_entry relabel
      sort_below_root weight
  rewrite m root = do
    shaped ← each_of structural m.structural root
    coded ← walk (suc (depth shaped)) (recode m.values) shaped
    hoisted ← each_of hoist_entry m.hoist coded
    wrapped ← each_of wrap_entry m.wrap hoisted
    enclosed ← each_of wrap_each_entry m.wrap_each wrapped
    dropped ← each_of drop_entry m.drop enclosed
    let named = relabel m dropped
    if m.sort_children then sort_below_root named else some named
