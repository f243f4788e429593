-- ===== src/Tree/Wrap.antt =====
-- `wrap`, and the replacement of each child by a wrapper around it.
pub mod Ends
use Prim.Native.Nat.{max}
use mathlib.Core.List.{append-nil, append_assoc}
use ndc_mock.Prelude.{
  ℕ, zero, suc, ◌+◌, ◌≤◌, ◌<◌, ◌≡◌, ◌≢◌, refl, ap, ◌∙◌, sym, Bool, true, false, List, [], ◌∷◌, ◌++◌,
  map, String, arith, if◌then◌else◌, ◌==◌, ◌!=◌, string_eq, keep_if, length, All, Bool-cases, inl,
  inr, eq_iff, str_eq_ne,
}
use ndc_mock.Prelude.Text.{split, split-ne}
use ndc_mock.Tree.{
  Attr, Node, Kids, elem, no_kids, kid, to_list, of_list, name, kids, with_kids, node, kids_named,
  remove_kids,
}
use ndc_mock.Tree.Lists.{
  kids-with_kids, weight, weight-heaviest, weight-of_list, heaviest, heaviest-append,
  heaviest-keep_if, All-heaviest,
}
use ndc_mock.Tree.Walk.{Falls, walk, walk-total}

-- The wrapper elements, the outermost first, around the children.
unfoldable pub nest : List String → List Node → Node
nest [] ks = node "" ks
nest (s ∷ []) ks = node s ks
nest (s ∷ t ∷ names) ks = node s (nest (t ∷ names) ks ∷ [])

-- The variables of the loop of `wrap`: what `out` holds before and behind the wrapper, whether
-- there is a wrapper yet, and what it gathers.
record Wrapping : Type 0 where
  before : List Node
  started : Bool
  gathered : List Node
  behind : List Node

wrap_step : String → Wrapping → Node → Wrapping
wrap_step child w k =
    if name k != child
    then (if w.started
        then record w { behind = w.behind ++ (k ∷ []) }
        else record w { before = w.before ++ (k ∷ []) })
    else record w { started = true; gathered = w.gathered ++ (k ∷ []) }

wrap_loop : String → Wrapping → List Node → Wrapping
unfolding wrap_step
wrap_loop child w [] = w
wrap_loop child w (k ∷ ks) = wrap_loop child (wrap_step child w k) ks

wrap_out : List String → Wrapping → List Node
unfolding nest
wrap_out names w = if w.started then w.before ++ (nest names w.gathered ∷ w.behind) else w.before

abbrev unwrapped : Wrapping
unwrapped = record { before = []; started = false; gathered = []; behind = [] }

unfoldable pub wrap_kids : String → List String → List Node → List Node
unfolding wrap_loop wrap_out
wrap_kids child names ks = wrap_out names (wrap_loop child unwrapped ks)

unfoldable pub wrap : String → String → Node → Node
unfolding wrap_kids split
wrap child wrapper n = with_kids (wrap_kids child (split b'/' wrapper) (kids n)) n

-- The function of the walk for a wrapper of the mapping.
unfoldable pub wrap_in : String → String → String → Node → Node
unfolding wrap
wrap_in parent child wrapper n = if name n == parent then wrap child wrapper n else n

unfoldable pub enclose : String → String → Node → Node
enclose child wrapper c = if name c == child then node wrapper (c ∷ []) else c

-- The function of the walk for `WrapEach`.
unfoldable pub wrap_each_in : String → String → String → Node → Node
unfolding enclose
wrap_each_in parent child wrapper n =
    if name n != parent then n else with_kids (map (enclose child wrapper) (kids n)) n

wrap_loop-started :
    (child : String) (w : Wrapping) (ks : List Node)
    → w.started ≡ true
    → wrap_loop child w ks ≡ record {
      before = w.before;
      started = true;
      gathered = w.gathered ++ keep_if (λ k. name k == child) ks;
      behind = w.behind ++ keep_if (λ k. name k != child) ks;
    }
unfolding wrap_loop
wrap_loop-started child w [] h = rw (append-nil, append-nil, ← h)
wrap_loop-started child w (k ∷ ks) h = elim (Bool-cases (name k == child)) [
  | inl same ↦
      rw (same, wrap_step)
        (wrap_loop-started child (record w { started = true; gathered = w.gathered ++ (k ∷ []) }) ks
            refl
          ∙ rw append_assoc)
  | inr differs ↦
      rw (differs, wrap_step, h)
        (wrap_loop-started child (record w { started = true; behind = w.behind ++ (k ∷ []) }) ks
            refl
          ∙ rw append_assoc)
]

-- The children after `wrap`: all named `child` stand in one wrapper, in their order, where the
-- first of them stood, and the others keep their order.
unfoldable pub wrapped : String → List String → List Node → List Node
wrapped child names [] = []
wrapped child names (k ∷ ks) =
    if name k == child
    then nest names (k ∷ keep_if (λ j. name j == child) ks) ∷ keep_if (λ j. name j != child) ks
    else k ∷ wrapped child names ks

wrap_loop-wrapped :
    (child : String) (names : List String) (b ks : List Node)
    → wrap_out names
        (wrap_loop child (record { before = b; started = false; gathered = []; behind = [] }) ks)
      ≡ b ++ wrapped child names ks
unfolding wrap_loop wrap_out wrapped
wrap_loop-wrapped child names b [] = rw append-nil
wrap_loop-wrapped child names b (k ∷ ks) = elim (Bool-cases (name k == child)) [
  | inl same ↦ rw (
    same,
    wrap_out,
    wrap_loop,
    wrap_step,
    wrap_loop-started child (record { before = b; started = true; gathered = k ∷ []; behind = [] })
        ks refl,
  )
  | inr differs ↦
      rw (differs, wrap_out, wrap_loop, wrap_step)
        (wrap_loop-wrapped child names (b ++ (k ∷ [])) ks ∙ rw append_assoc)
]

-- The loop of `wrap` gathers every child of the name into one wrapper, in their order, where the
-- first of them stood, and keeps the order of the others; without such a child nothing changes.
pub wrap_kids-wrapped :
    (child : String) (names : List String) (ks : List Node)
    → wrap_kids child names ks ≡ wrapped child names ks
unfolding wrap_kids
wrap_kids-wrapped child names ks = wrap_loop-wrapped child names [] ks
