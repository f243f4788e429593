-- ===== src/Translate/Rename.antt =====
-- The renames of `translateTree`: the longest key that is a suffix of an element's path of original
-- names gives the new name.
pub mod Longest
use Prim.Native.Nat.{max, min}
use ndc_mock.Prelude.{
  ℕ, zero, suc, ◌≤◌, ◌<◌, ◌≡◌, refl, Option, none, some, List, [], ◌∷◌, String, length, take, arith,
  Option-cases, inl, inr,
}
use native.Mathlib.Decide.{dec_le}
use ndc_mock.Prelude.Text.{join, split}
use ndc_mock.Tree.{Node, Kids, elem, no_kids, kid}
use ndc_mock.Translate.Mapping.{Map, lookup}

-- The greatest number of names in a key, and at least 1. `strings.Count(k, "/") + 1` is the number
-- of fields of `k`.
unfoldable pub longest : Map String → ℕ
unfolding split
longest [] = 1
longest ((k, v) ∷ m) = max (length (split b'/' k)) (longest m)

-- The path of an element is kept with its own name first.
unfoldable pub outward : List String → List String → List String
outward [] acc = acc
outward (s ∷ path) acc = outward path (s ∷ acc)

-- The last `k` names of the path, joined.
unfoldable pub suffix : List String → ℕ → String
unfolding outward join
suffix path k = join "/" (outward (take k path) [])

-- The loop over `k`, downwards; the first key that is found wins.
unfoldable pub renamed_from : Map String → List String → ℕ → Option String
unfolding lookup suffix
renamed_from m path zero = none
renamed_from m path (suc k) = elim (lookup m (suffix path (suc k))) [
  | some to ↦ some to
  | none ↦ renamed_from m path k
]

unfoldable pub new_name : Map String → List String → Option String
unfolding renamed_from longest
new_name m path = renamed_from m path (min (longest m) (length path))

or_name : Option String → String → String
or_name none s = s
or_name (some to) s = to

module _ (m : Map String) where
  -- `mark`, and the loop over `renames`: every decision is taken from the original names.
  unfoldable mutual
    unfolding new_name or_name

    pub rename_node : List String → Node → Node
    rename_node path (elem s al ks t) =
        elem (or_name (new_name m (s ∷ path)) s) al (rename_kids (s ∷ path) ks) t

    pub rename_kids : List String → Kids → Kids
    rename_kids path no_kids = no_kids
    rename_kids path (kid k ks) = kid (rename_node path k) (rename_kids path ks)
