-- ===== src/Tree/Walk.antt =====
-- `walk`: the function is called on an element before its children, and on the children that the
-- call leaves. A walk recurs on fuel, which bounds how deep it goes; `none` means that the fuel ran
-- out.
use ndc_mock.Prelude.{
  ℕ, zero, suc, ◌<◌, ◌≡◌, refl, Option, none, some, List, [], ◌∷◌, arith, ◌>>=◌, All,
}
use ndc_mock.Tree.{Node, kids, with_kids}

-- The calls on the children, from the first.
unfoldable pub walk_each : (Node → Option Node) → List Node → Option (List Node)
walk_each go [] = some []
walk_each go (k ∷ ks) = do k' ← go k; ks' ← walk_each go ks; some (k' ∷ ks')

unfoldable pub walk : ℕ → (Node → Node) → Node → Option Node
unfolding walk_each
walk zero f n = none
walk (suc fuel) f n = do ks ← walk_each (walk fuel f) (kids (f n)); some (with_kids ks (f n))

-- The calls of a walk go down along `rank`.
abbrev pub Falls : (Node → ℕ) → (Node → Node) → Type 0
Falls rank f = (n : Node) → All (λ k. rank k < rank n) (kids (f n))

pub walk_each-total :
    (go : Node → Option Node) (P : Node → Type 0) (ks : List Node)
    → ((k : Node) → P k → (m : Node) × (go k ≡ some m))
    → All P ks
    → (ms : List Node) × (walk_each go ks ≡ some ms)
unfolding walk_each
walk_each-total go P [] h all = ([], refl)
walk_each-total go P (k ∷ ks) h (p, all) =
    let (m, e) = h k p in let (ms, es) = walk_each-total go P ks h all in (m ∷ ms, rw (e, es))

All-lt :
    (rank : Node → ℕ) (n fuel : ℕ) (ks : List Node)
    → n < suc fuel
    → All (λ k. rank k < n) ks
    → All (λ k. rank k < fuel) ks
All-lt rank n fuel [] h all = tt
All-lt rank n fuel (k ∷ ks) h (p, all) = (omega arith, All-lt rank n fuel ks h all)

-- A walk ends with any fuel above the rank of its element.
pub walk-total :
    (rank : Node → ℕ) (f : Node → Node)
    → Falls rank f
    → (fuel : ℕ) (n : Node) → rank n < fuel
    → (m : Node) × (walk fuel f n ≡ some m)
unfolding walk
walk-total rank f falls zero n h = elim h [ ]
walk-total rank f falls (suc fuel) n h =
    let (ms, e) =
      walk_each-total (walk fuel f) (λ k. rank k < fuel) (kids (f n)) (walk-total rank f falls fuel)
        (All-lt rank (rank n) fuel (kids (f n)) h (falls n)) in
    (with_kids ms (f n), rw e)

-- A walk whose function also changes variables around it, `s`.
module _ {S : Type 0} where
  unfoldable pub walk_each_with :
      (S → Node → Option (S × Node)) → S → List Node → Option (S × List Node)
  walk_each_with go s [] = some (s, [])
  walk_each_with go s (k ∷ ks) = do
    (t, k') ← go s k
    (u, ks') ← walk_each_with go t ks
    some (u, k' ∷ ks')

  unfoldable pub walk_with : ℕ → (S → Node → S × Node) → S → Node → Option (S × Node)
  unfolding walk_each_with
  walk_with zero f s n = none
  walk_with (suc fuel) f s n = do
    (u, ks) ← walk_each_with (walk_with fuel f) (f s n).0 (kids (f s n).1)
    some (u, with_kids ks (f s n).1)

-- The same of a walk with variables.
module _ {S : Type 0} where
  walk_each_with-total :
      (go : S → Node → Option (S × Node)) (P : Node → Type 0) (ks : List Node)
      → ((s : S) (k : Node) → P k → (m : S × Node) × (go s k ≡ some m))
      → All P ks
      → (s : S) → (ms : S × List Node) × (walk_each_with go s ks ≡ some ms)
  unfolding walk_each_with
  walk_each_with-total go P [] h all s = ((s, []), refl)
  walk_each_with-total go P (k ∷ ks) h (p, all) s =
      let ((t, m), e) = h s k p in
      let ((u, ms), es) = walk_each_with-total go P ks h all t in ((u, m ∷ ms), rw (e, es) refl)

  pub walk_with-total :
      (rank : Node → ℕ) (f : S → Node → S × Node)
      → ((s : S) (n : Node) → All (λ k. rank k < rank n) (kids (f s n).1))
      → (fuel : ℕ) (s : S) (n : Node) → rank n < fuel
      → (m : S × Node) × (walk_with fuel f s n ≡ some m)
  unfolding walk_with
  walk_with-total rank f falls zero s n h = elim h [ ]
  walk_with-total rank f falls (suc fuel) s n h =
      let ((u, ms), e) =
        walk_each_with-total (walk_with fuel f) (λ k. rank k < fuel) (kids (f s n).1)
          (walk_with-total rank f falls fuel)
          (All-lt rank (rank n) fuel (kids (f s n).1) h (falls s n)) (f s n).0 in
      ((u, with_kids ms (f s n).1), rw e refl)
