-- ===== src/Order/Store/Oldest.antt =====
-- The loop of `put` that looks for the oldest entry.

use ndc_mock.Prelude.{
  ◌≡◌, ◌≢◌, refl, ap, ◌⊎◌, inl, inr, none, some, [], ◌∷◌, String, string_eq, Bool-cases, arith,
  eq_iff, str_eq-cases, All,
}
use ndc_mock.Prelude.Int.{ℤ, ◌≤ℤ◌, ltb_ℤ, pos_part, neg_part}
use ndc_mock.Order.{Order}
use ndc_mock.Order.Store.{Entries, find, older, oldest_from, oldest_id}
use ndc_mock.Order.Store.Laws.{NodupKeys}

-- What the loop of `put` holds after a list of entries.
record IsOldest (best r : String × ℤ) (es : Entries) : Type 0 where
  before : r.1 ≤ℤ best.1
  chosen : (r ≡ best) ⊎ ((e : Order) × (find r.0 es ≡ some e) × (r.1 ≡ e.created_at))
  least : (j : String) (p : Order) → find j es ≡ some p → r.1 ≤ℤ p.created_at

find_skip :
    (i v : String) (p e : Order) (m : Entries)
    → find i m ≡ none
    → find v m ≡ some e
    → find v ((i, p) ∷ m) ≡ some e
unfolding find
find_skip i v p e m fresh h = elim (str_eq-cases i v) [
  | inl (same, path) ↦ absurd (ground (arith, ap (λ (k : String). find k m) path))
  | inr (differs, _) ↦ rw differs h
]

find_split :
    (i j : String) (p q : Order) (m : Entries)
    → find j ((i, p) ∷ m) ≡ some q
    → ((i ≡ j) × (p ≡ q)) ⊎ (find j m ≡ some q)
unfolding find
find_split i j p q m h = ground (arith, eq_iff i j)

le_created : (z : ℤ) (p q : Order) → p ≡ q → z ≤ℤ p.created_at → z ≤ℤ q.created_at
le_created z p q e h = rw e at h

module _ (best r : String × ℤ) (i : String) (p : Order) (m : Entries)
    (fresh : find i m ≡ none) where
  take_new : p.created_at ≤ℤ best.1 → IsOldest (i, p.created_at) r m → IsOldest best r ((i, p) ∷ m)
  unfolding find
  take_new le g = record {
    before = omega (arith, g.before);
    chosen = inr (elim g.chosen [
      | inl e ↦ (p, ground (arith, eq_iff i i), ap (λ x. x.1) e)
      | inr (e, found, c) ↦ (e, find_skip i r.0 p e m fresh found, c)
    ]);
    least = λ j q found. elim (find_split i j p q m found) [
      | inl (_, same) ↦ le_created r.1 p q same g.before
      | inr later ↦ g.least j q later
    ];
  }

  keep_old : best.1 ≤ℤ p.created_at → IsOldest best r m → IsOldest best r ((i, p) ∷ m)
  unfolding find
  keep_old le g = record {
    before = g.before;
    chosen = elim g.chosen [
      | inl e ↦ inl e
      | inr (e, found, c) ↦ inr (e, find_skip i r.0 p e m fresh found, c)
    ];
    least = λ j q found. elim (find_split i j p q m found) [
      | inl (_, same) ↦ le_created r.1 p q same (omega (arith, g.before))
      | inr later ↦ g.least j q later
    ];
  }

older-cases :
    (best : String × ℤ) (i : String) (p : Order)
    → best.0 ≢ ""
    → ((older best (i, p) ≡ (i, p.created_at)) × (p.created_at ≤ℤ best.1))
      ⊎ ((older best (i, p) ≡ best) × (best.1 ≤ℤ p.created_at))
unfolding older
older-cases best i p ne = elim (Bool-cases (ltb_ℤ p.created_at best.1)) [
  | inl newer ↦ inl (ground (arith, eq_iff best.0 ""), ground arith)
  | inr not_newer ↦ inr (ground (arith, eq_iff best.0 ""), ground arith)
]

oldest_from-IsOldest :
    (best : String × ℤ) (es : Entries)
    → NodupKeys es
    → best.0 ≢ ""
    → All (λ (e : String × Order). e.0 ≢ "") es
    → IsOldest best (oldest_from best es) es
unfolding oldest_from find
oldest_from-IsOldest best [] h ne all = record {
  before = omega arith;
  chosen = inl refl;
  least = λ j p e. cc;
}
oldest_from-IsOldest best ((i, p) ∷ m) (fresh, h) ne (ni, all) = elim (older-cases best i p ne) [
  | inl (new, le) ↦
      rw new (take_new best _ i p m fresh le (oldest_from-IsOldest (i, p.created_at) m h ni all))
  | inr (old, le) ↦ rw old (keep_old best _ i p m fresh le (oldest_from-IsOldest best m h ne all))
]

-- The loop of `put` ends at an entry that no other entry is older than.
pub oldest_id-least :
    (visit : Entries)
    → NodupKeys visit
    → All (λ (e : String × Order). e.0 ≢ "") visit
    → visit ≢ []
    → (e : Order) × (find (oldest_id visit) visit ≡ some e)
      × ((j : String) (p : Order) → find j visit ≡ some p → e.created_at ≤ℤ p.created_at)
unfolding oldest_id find oldest_from older
oldest_id-least [] h all ne = absurd (ne refl)
oldest_id-least ((i, p) ∷ m) (fresh, h) (ni, all) ne =
    let g : IsOldest (i, p.created_at) (oldest_from (i, p.created_at) m) ((i, p) ∷ m) =
      take_new (i, p.created_at) _ i p m fresh (omega arith)
        (oldest_from-IsOldest (i, p.created_at) m h ni all) in
    elim g.chosen [
      | inl e ↦ (
        p,
        ground (arith, eq_iff i i),
        λ j q f. omega (arith, g.least j q f, ap (λ x. pos_part x.1) e, ap (λ x. neg_part x.1) e),
      )
      | inr (e, found, c) ↦
          (e, found, λ j q f. omega (arith, g.least j q f, ap pos_part c, ap neg_part c))
    ]
