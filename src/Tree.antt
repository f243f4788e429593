-- ===== src/Tree.antt =====
-- The element tree of edge/translate.go. An element holds either children or text. The source
-- shares no element between two places of a tree, so an element is a value here and a change in
-- place is a new value.
pub mod Lists
pub mod Walk
pub mod Parse
pub mod Print
pub mod Hoist
pub mod Wrap
pub mod Sort
use ndc_mock.Prelude.{
  Bool, true, false, Option, none, some, List, [], ◌∷◌, ◌++◌, String, ◌<>◌, if◌then◌else◌, ◌==◌,
  ◌!=◌, string_eq, keep_if,
}
use ndc_mock.Prelude.Text.{cut, trim_space}

-- `xml.Attr` with its `xml.Name`.
pub record Attr : Type 0 where
  pub space : String
  pub local : String
  pub value : String

-- `xnode`: the name as written, the attributes, the children and the text.
mutual
  pub data Node : Type 0 where
    elem : String → List Attr → Kids → String → Node

  pub data Kids : Type 0 where
    no_kids : Kids
    kid : Node → Kids → Kids

abbrev pub to_list : Kids → List Node
to_list no_kids = []
to_list (kid n ks) = n ∷ to_list ks

abbrev pub of_list : List Node → Kids
of_list [] = no_kids
of_list (n ∷ ns) = kid n (of_list ns)

abbrev pub name : Node → String
name (elem s attrs ks text) = s

abbrev pub attrs : Node → List Attr
attrs (elem s al ks t) = al

abbrev pub kids : Node → List Node
kids (elem s al ks text) = to_list ks

abbrev pub text : Node → String
text (elem s al ks t) = t

abbrev pub with_name : String → Node → Node
with_name s' (elem s al ks t) = elem s' al ks t

abbrev pub with_attrs : List Attr → Node → Node
with_attrs al' (elem s al ks t) = elem s al' ks t

abbrev pub with_kids : List Node → Node → Node
with_kids ns (elem s al ks t) = elem s al (of_list ns) t

abbrev pub with_text : String → Node → Node
with_text t' (elem s al ks t) = elem s al ks t'

abbrev pub leaf : String → String → Node
leaf s t = elem s [] no_kids t

-- `node`, of edge/xmlbuild.go.
abbrev pub node : String → List Node → Node
node s ns = elem s [] (of_list ns) ""

abbrev pub add_kid : Node → Node → Node
add_kid k n = with_kids (kids n ++ (k ∷ [])) n

unfoldable pub first_named : String → List Node → Option Node
first_named s [] = none
first_named s (k ∷ ks) = if name k == s then some k else first_named s ks

unfoldable pub child : Node → String → Option Node
unfolding first_named
child n s = first_named s (kids n)

unfoldable pub trimmed : Option Node → String
trimmed none = ""
trimmed (some c) = trim_space (text c)

unfoldable pub child_text : Node → String → String
unfolding trimmed child trim_space
child_text n s = trimmed (child n s)

unfoldable pub kids_named : Node → String → List Node
kids_named n s = keep_if (λ k. name k == s) (kids n)

unfoldable pub remove_kids : List Node → String → List Node
remove_kids ks s = keep_if (λ k. name k != s) ks

behind_prefix : String → String × String × Bool → String
behind_prefix s (before, after, found) = if found then after else s

-- `local`: the name behind the prefix.
unfoldable pub local_name : String → String
unfolding behind_prefix cut
local_name s = behind_prefix s (cut b':' s)

-- `qname`.
unfoldable pub qname : String → String → String
qname space local = if space != "" then space <> (":" <> local) else local
