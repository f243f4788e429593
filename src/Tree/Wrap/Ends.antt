-- ===== src/Tree/Wrap/Ends.antt =====
-- How deep the wrappers make a tree.
use ndc_mock.Prelude.{
  some, ℕ, ◌+◌, ◌≤◌, ◌<◌, ◌≡◌, ◌≢◌, refl, ◌∙◌, List, [], ◌∷◌, map, String, arith, ◌==◌, ◌!=◌,
  string_eq, keep_if, length, All, Bool-cases, inl, inr, str_eq_ne,
}
use ndc_mock.Prelude.Text.{split, split-ne}
use ndc_mock.Tree.{Node, name, kids, node}
use ndc_mock.Tree.Lists.{
  kids-with_kids, weight, weight-heaviest, weight-of_list, heaviest, heaviest-keep_if, All-heaviest,
}
use ndc_mock.Tree.Walk.{Falls, walk, walk-total}
use ndc_mock.Tree.Wrap.{nest, wrapped, wrap, wrap_kids-wrapped, wrap_in, enclose, wrap_each_in}

-- A wrapper's names, none of which is the parent's, are as deep as there are names.
weight-nest :
    (parent : String) (extra : ℕ) (names : List String) (ks : List Node)
    → names ≢ []
    → All (λ s. s ≢ parent) names
    → weight parent extra (nest names ks) ≡ length names + heaviest parent extra ks
unfolding nest
weight-nest parent extra [] ks ne all = absurd (ne refl)
weight-nest parent extra (s ∷ []) ks ne (p, all) =
    weight-of_list parent extra s [] ks "" ∙ rw (str_eq_ne s parent p) (omega arith)
weight-nest parent extra (s ∷ t ∷ names) ks ne (p, all) =
    weight-of_list parent extra s [] (nest (t ∷ names) ks ∷ []) ""
    ∙ rw (str_eq_ne s parent p)
        (omega (arith, weight-nest parent extra (t ∷ names) ks (λ e. cc) all))

heaviest-wrapped :
    (parent child : String) (names : List String) (ks : List Node)
    → names ≢ []
    → All (λ s. s ≢ parent) names
    → heaviest parent (length names) (wrapped child names ks)
      ≤ length names + heaviest parent (length names) ks
unfolding wrapped
heaviest-wrapped parent child names [] ne all = omega arith
heaviest-wrapped parent child names (k ∷ ks) ne all =
    let extra = length names in
    ground (
      arith,
      weight-nest parent extra names (k ∷ keep_if (λ j. name j == child) ks) ne all,
      heaviest-keep_if parent extra (λ j. name j == child) ks,
      heaviest-keep_if parent extra (λ j. name j != child) ks,
      heaviest-wrapped parent child names ks ne all,
    )

wrap_in-Falls :
    (parent child wrapper : String)
    → split b'/' wrapper ≢ []
    → All (λ s. s ≢ parent) (split b'/' wrapper)
    → Falls (weight parent (length (split b'/' wrapper))) (wrap_in parent child wrapper)
unfolding wrap_in wrap
wrap_in-Falls parent child wrapper ne all n =
    let names = split b'/' wrapper in
    elim (Bool-cases (name n == parent)) [
      | inl same ↦
          rw
            (same, kids-with_kids, wrap_kids-wrapped, weight-heaviest parent (length names) n, same)
            (All-heaviest parent (length names) _ (wrapped child names (kids n))
              (omega (arith, heaviest-wrapped parent child names (kids n) ne all)))
      | inr differs ↦
          rw (differs, weight-heaviest parent (length names) n, differs)
            (All-heaviest parent (length names) _ (kids n) (omega arith))
    ]

-- The walk that wraps the children of `parent` ends if no wrapper element is named `parent`.
pub walk-wrap_in :
    (parent child wrapper : String) (n : Node)
    → All (λ s. s ≢ parent) (split b'/' wrapper)
    → (fuel : ℕ) → weight parent (length (split b'/' wrapper)) n < fuel
    → (m : Node) × (walk fuel (wrap_in parent child wrapper) n ≡ some m)
walk-wrap_in parent child wrapper n all fuel h =
    walk-total _ (wrap_in parent child wrapper)
      (wrap_in-Falls parent child wrapper (split-ne b'/' wrapper) all) fuel n h

heaviest-enclose :
    (parent child wrapper : String) (ks : List Node)
    → wrapper ≢ parent
    → heaviest parent 1 (map (enclose child wrapper) ks) ≤ 1 + heaviest parent 1 ks
unfolding enclose
heaviest-enclose parent child wrapper [] ne = omega arith
heaviest-enclose parent child wrapper (k ∷ ks) ne =
    let lifted : weight parent 1 (node wrapper (k ∷ [])) ≡ 1 + heaviest parent 1 (k ∷ []) =
      weight-of_list parent 1 wrapper [] (k ∷ []) ""
      ∙ rw (str_eq_ne wrapper parent ne) (omega arith) in
    ground (arith, heaviest-enclose parent child wrapper ks ne)

wrap_each_in-Falls :
    (parent child wrapper : String)
    → wrapper ≢ parent
    → Falls (weight parent 1) (wrap_each_in parent child wrapper)
unfolding wrap_each_in
wrap_each_in-Falls parent child wrapper ne n = elim (Bool-cases (name n == parent)) [
  | inl same ↦
      rw (same, kids-with_kids, weight-heaviest parent 1 n, same)
        (All-heaviest parent 1 _ (map (enclose child wrapper) (kids n))
          (omega (arith, heaviest-enclose parent child wrapper (kids n) ne)))
  | inr differs ↦
      rw (differs, weight-heaviest parent 1 n, differs)
        (All-heaviest parent 1 _ (kids n) (omega arith))
]

-- The walk of `WrapEach` ends if the wrapper is not named `parent`.
pub walk-wrap_each_in :
    (parent child wrapper : String) (n : Node)
    → wrapper ≢ parent
    → (fuel : ℕ) → weight parent 1 n < fuel
    → (m : Node) × (walk fuel (wrap_each_in parent child wrapper) n ≡ some m)
walk-wrap_each_in parent child wrapper n ne fuel h =
    walk-total _ (wrap_each_in parent child wrapper) (wrap_each_in-Falls parent child wrapper ne)
      fuel n h
