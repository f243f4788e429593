-- ===== src/Tree/Lists.antt =====
-- Laws of the accessors, and the depth of a tree.
use Prim.Native.Nat.{max}
use ndc_mock.Prelude.{
  ℕ, suc, ◌+◌, ◌≤◌, ◌<◌, ◌≡◌, refl, ap, Bool, List, [], ◌∷◌, ◌++◌, String, arith, if◌then◌else◌,
  ◌==◌, string_eq, All, keep_if,
}
use ndc_mock.Tree.{Attr, Node, Kids, elem, no_kids, kid, to_list, of_list, kids, with_kids, name}

pub to_list-of_list : (ns : List Node) → to_list (of_list ns) ≡ ns
to_list-of_list [] = refl
to_list-of_list (n ∷ ns) = ap (◌∷◌ n) (to_list-of_list ns)

pub of_list-to_list : (ks : Kids) → of_list (to_list ks) ≡ ks
of_list-to_list no_kids = refl
of_list-to_list (kid n ks) = ap (kid n) (of_list-to_list ks)

pub kids-with_kids : (ns : List Node) (n : Node) → kids (with_kids ns n) ≡ ns
kids-with_kids ns (elem s al ks t) = to_list-of_list ns

-- How deep a tree is, where an element named `s` counts `extra` levels more.
unfoldable mutual
  pub weight : String → ℕ → Node → ℕ
  weight s extra (elem s' al ks t) = suc (weight_kids s extra ks + (if s' == s then extra else 0))

  pub weight_kids : String → ℕ → Kids → ℕ
  weight_kids s extra no_kids = 0
  weight_kids s extra (kid n ks) = max (weight s extra n) (weight_kids s extra ks)

-- The depth of a tree.
abbrev pub depth : Node → ℕ
depth = weight "" 0

-- The greatest weight in a list.
abbrev pub heaviest : String → ℕ → List Node → ℕ
heaviest s extra [] = 0
heaviest s extra (n ∷ ns) = max (weight s extra n) (heaviest s extra ns)

pub weight_kids-heaviest :
    (s : String) (extra : ℕ) (ks : Kids) → weight_kids s extra ks ≡ heaviest s extra (to_list ks)
unfolding weight
weight_kids-heaviest s extra no_kids = refl
weight_kids-heaviest s extra (kid n ks) = cc (weight_kids-heaviest s extra ks)

pub weight-heaviest :
    (s : String) (extra : ℕ) (n : Node)
    → weight s extra n ≡ suc (heaviest s extra (kids n) + (if name n == s then extra else 0))
unfolding weight
weight-heaviest s extra (elem s' al ks t) = cc (weight_kids-heaviest s extra ks)

pub weight-of_list :
    (s : String) (extra : ℕ) (s' : String) (al : List Attr) (ns : List Node) (t : String)
    → weight s extra (elem s' al (of_list ns) t)
      ≡ suc (heaviest s extra ns + (if s' == s then extra else 0))
unfolding weight
weight-of_list s extra s' al ns t =
    cc (weight_kids-heaviest s extra (of_list ns), to_list-of_list ns)

-- Every element of a list is at most as heavy as the heaviest.
pub All-heaviest :
    (s : String) (extra b : ℕ) (ns : List Node)
    → heaviest s extra ns ≤ b
    → All (λ n. weight s extra n < suc b) ns
All-heaviest s extra b [] h = tt
All-heaviest s extra b (n ∷ ns) h = (omega arith, All-heaviest s extra b ns (omega arith))

pub heaviest-append :
    (s : String) (extra : ℕ) (ms ns : List Node)
    → heaviest s extra (ms ++ ns) ≡ max (heaviest s extra ms) (heaviest s extra ns)
heaviest-append s extra [] ns = omega arith
heaviest-append s extra (m ∷ ms) ns = omega (arith, heaviest-append s extra ms ns)

pub heaviest-keep_if :
    (s : String) (extra : ℕ) (p : Node → Bool) (ns : List Node)
    → heaviest s extra (keep_if p ns) ≤ heaviest s extra ns
heaviest-keep_if s extra p [] = omega arith
heaviest-keep_if s extra p (n ∷ ns) = ground (arith, heaviest-keep_if s extra p ns)
