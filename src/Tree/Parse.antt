-- ===== src/Tree/Parse.antt =====
-- `parseTree`: a tree from the raw tokens of an XML decoder. The source hangs an element into its
-- parent when it begins; here it is hung in when it ends, or when the tokens end, which gives the
-- same tree.
pub mod RoundTrip
use ndc_mock.Prelude.{
  Bool, true, false, Option, none, some, List, [], ◌∷◌, ◌++◌, String, ◌<>◌, if◌then◌else◌, ◌>>=◌,
}
use ndc_mock.Tree.{Attr, Node, elem, of_list, qname}

-- A raw token: a name is its prefix and the local part.
pub data RawToken : Type 0 where
  begins : String → String → List Attr → RawToken
  ends : String → String → RawToken
  chars : String → RawToken
  other : RawToken

-- An element that has begun.
pub record Open : Type 0 where
  pub name : String
  pub attrs : List Attr
  pub kids : List Node
  pub text : String

-- The variables of the loop: `stack`, the innermost element first, and `root`.
pub record Reading : Type 0 where
  pub stack : List Open
  pub root : Option Node

unfoldable pub close : Open → Node
close o = elem o.name o.attrs (of_list o.kids) o.text

-- The innermost element ends: it is the last child of the next one, or the root.
unfoldable pub shut : Open → List Open → Option Node → Reading
unfolding close
shut o [] root = record { stack = []; root = some (close o) }
shut o (p ∷ st) root = record {
  stack = record p { kids = p.kids ++ (close o ∷ []) } ∷ st;
  root = root;
}

unfoldable pub opened : String → List Attr → Open
opened s al = record { name = s; attrs = al; kids = []; text = "" }

-- One token; `none` is an end without a beginning.
unfoldable pub read_token : Reading → RawToken → Option Reading
unfolding shut opened qname
read_token r (begins space local al) =
    some (record r { stack = opened (qname space local) al ∷ r.stack })
read_token r (ends space local) = elim (r.stack) [ [] ↦ none | o ∷ st ↦ some (shut o st r.root) ]
read_token r (chars t) = elim (r.stack) [
  | [] ↦ some r
  | o ∷ st ↦ some (record r { stack = record o { text = o.text <> t } ∷ st })
]
read_token r other = some r

-- What the elements that have not ended come to.
unfoldable pub root_of : List Open → Option Node → Option Node
unfolding close
root_of [] root = root
root_of (o ∷ []) root = some (close o)
root_of (o ∷ p ∷ st) root = root_of (record p { kids = p.kids ++ (close o ∷ []) } ∷ st) root

unfoldable pub read_tokens : Reading → List RawToken → Option Reading
unfolding read_token
read_tokens r [] = some r
read_tokens r (t ∷ ts) = do s ← read_token r t; read_tokens s ts

-- `parseTree` on the tokens of a document; `whole` says that they end with the document and not
-- with an error. `none` is an error.
unfoldable pub parse_tree : List RawToken → Bool → Option Node
unfolding read_tokens root_of
parse_tree ts whole = do
  r ← read_tokens (record { stack = []; root = none }) ts
  if whole then root_of r.stack r.root else none
