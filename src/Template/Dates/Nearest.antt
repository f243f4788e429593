-- ===== src/Template/Dates/Nearest.antt =====
-- The leg that a date of the reference belongs to.
use ndc_mock.Prelude.{
  ◌≡◌, refl, ap, inl, inr, true, false, List, [], ◌∷◌, ◌++◌, All, Bool-cases, arith,
}
use ndc_mock.Prelude.Int.{ℤ, ◌≤ℤ◌, ◌<ℤ◌, ltb_ℤ}
use ndc_mock.Template.Dates.{distance, nearer, nearest}

-- The leg is one of the list, every leg before it is farther from the date, and none behind it is
-- nearer.
pub record IsFirstNearest (d : ℤ) (leg : ℤ × ℤ) (legs : List (ℤ × ℤ)) : Type 0 where
  pub front : List (ℤ × ℤ)
  pub back : List (ℤ × ℤ)
  pub stands : legs ≡ front ++ (leg ∷ back)
  pub farther : All (λ l. distance d leg.0 <ℤ distance d l.0) front
  pub no_nearer : All (λ l. distance d leg.0 ≤ℤ distance d l.0) back

ltb_ℤ→lt : (a b : ℤ) → ltb_ℤ a b ≡ true → a <ℤ b
ltb_ℤ→lt a b h = ground arith

ltb_ℤ→ge : (a b : ℤ) → ltb_ℤ a b ≡ false → b ≤ℤ a
ltb_ℤ→ge a b h = ground arith

le-lt_trans : (a b c : ℤ) → a ≤ℤ b → b <ℤ c → a <ℤ c
le-lt_trans a b c h k = omega arith

lt-le_trans : (a b c : ℤ) → a <ℤ b → b ≤ℤ c → a <ℤ c
lt-le_trans a b c h k = omega arith

lt-le_weak : (a b : ℤ) → a <ℤ b → a ≤ℤ b
lt-le_weak a b h = omega arith

le_trans_ℤ : (a b c : ℤ) → a ≤ℤ b → b ≤ℤ c → a ≤ℤ c
le_trans_ℤ a b c h k = omega arith

nearest-closer :
    (d : ℤ) (best leg : ℤ × ℤ) (legs : List (ℤ × ℤ))
    → ltb_ℤ (distance d leg.0) (distance d best.0) ≡ true
    → nearest d best (leg ∷ legs) ≡ nearest d leg legs
unfolding nearest
nearest-closer d best leg legs h = ap (λ b. nearest d b legs) (rw (h, nearer))

nearest-farther :
    (d : ℤ) (best leg : ℤ × ℤ) (legs : List (ℤ × ℤ))
    → ltb_ℤ (distance d leg.0) (distance d best.0) ≡ false
    → nearest d best (leg ∷ legs) ≡ nearest d best legs
unfolding nearest
nearest-farther d best leg legs h = ap (λ b. nearest d b legs) (rw (h, nearer))

nearest-nil : (d : ℤ) (best : ℤ × ℤ) → nearest d best [] ≡ best
unfolding nearest
nearest-nil d best = refl

nearest-le :
    (d : ℤ) (best : ℤ × ℤ) (legs : List (ℤ × ℤ))
    → distance d (nearest d best legs).0 ≤ℤ distance d best.0
nearest-le d best [] = rw (nearest-nil d best) (omega arith)
nearest-le d best (leg ∷ legs) = elim (Bool-cases (ltb_ℤ (distance d leg.0) (distance d best.0))) [
  | inl closer ↦ rw (nearest-closer d best leg legs closer) (
      le_trans_ℤ (distance d (nearest d leg legs).0) (distance d leg.0) (distance d best.0)
        (nearest-le d leg legs)
        (lt-le_weak (distance d leg.0) (distance d best.0)
          (ltb_ℤ→lt (distance d leg.0) (distance d best.0) closer)))
  | inr farther ↦ rw (nearest-farther d best leg legs farther) (nearest-le d best legs)
]

-- One more leg, which is not nearer than the first.
module _ (d : ℤ) (leg best l : ℤ × ℤ) (legs : List (ℤ × ℤ))
    (le : distance d best.0 ≤ℤ distance d l.0) where
  skip_leg :
      (front back : List (ℤ × ℤ))
      → best ∷ legs ≡ front ++ (leg ∷ back)
      → All (λ l. distance d leg.0 <ℤ distance d l.0) front
      → All (λ l. distance d leg.0 ≤ℤ distance d l.0) back
      → IsFirstNearest d leg (best ∷ l ∷ legs)
  skip_leg [] back e farther near =
      let same : best ≡ leg = cc in
      record {
        front = [];
        back = l ∷ back;
        stands = cc;
        farther = tt;
        no_nearer = (rw (← same) le, near);
      }
  skip_leg (b ∷ front) back e (bn, farther) near =
      let same : best ≡ b = cc in
      record {
        front = b ∷ l ∷ front;
        back = back;
        stands = cc;
        farther = (
          bn,
          (
            lt-le_trans (distance d leg.0) (distance d b.0) (distance d l.0) bn (rw (← same) le),
            farther,
          ),
        );
        no_nearer = near;
      }

-- A date of the reference moves with the first of the legs whose reference dates are nearest to it.
pub nearest-IsFirstNearest :
    (d : ℤ) (best : ℤ × ℤ) (legs : List (ℤ × ℤ))
    → IsFirstNearest d (nearest d best legs) (best ∷ legs)
nearest-IsFirstNearest d best [] =
    rw (nearest-nil d best)
      (record { front = []; back = []; stands = refl; farther = tt; no_nearer = tt })
nearest-IsFirstNearest d best (leg ∷ legs) =
    elim (Bool-cases (ltb_ℤ (distance d leg.0) (distance d best.0))) [
      | inl closer ↦
          let n = nearest-IsFirstNearest d leg legs in
          rw (nearest-closer d best leg legs closer) (record {
            front = best ∷ n.front;
            back = n.back;
            stands = ap (λ (l : List (ℤ × ℤ)). best ∷ l) n.stands;
            farther = (
              le-lt_trans (distance d (nearest d leg legs).0) (distance d leg.0) (distance d best.0)
                  (nearest-le d leg legs) (ltb_ℤ→lt (distance d leg.0) (distance d best.0) closer),
              n.farther,
            );
            no_nearer = n.no_nearer;
          })
      | inr farther ↦
          let n = nearest-IsFirstNearest d best legs in
          rw (nearest-farther d best leg legs farther) (
            skip_leg d (nearest d best legs) best leg legs
              (ltb_ℤ→ge (distance d leg.0) (distance d best.0) farther) n.front n.back n.stands
              n.farther n.no_nearer)
    ]
