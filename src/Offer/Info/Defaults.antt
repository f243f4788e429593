-- ===== src/Offer/Info/Defaults.antt =====
-- What `applyDefaults` (edge/offerinfo.go) leaves as an identifier said it.
use ndc_mock.Prelude.{
  ℕ, ◌≡◌, ◌≢◌, refl, inl, inr, List, ◌∷◌, String, ◌==◌, nat_eq, string_eq, eq_iff, Bool-cases,
  arith,
}
use ndc_mock.Prelude.Int.{pos, int_eq}
use ndc_mock.Itinerary.{Leg}
use ndc_mock.Offer.Info.{OfferInfo, apply_defaults, total_pax}

-- Legs are kept.
pub legs-defaults :
    (i : OfferInfo) (l : Leg) (ls : List Leg) → i.legs ≡ l ∷ ls → (apply_defaults i).legs ≡ l ∷ ls
unfolding apply_defaults
legs-defaults i l ls e = elim (Bool-cases (i.origin == "")) [
  | inl o ↦ rw (o, e) refl
  | inr o ↦ rw (o, e) refl
]

-- A currency is kept.
pub currency-defaults :
    (i : OfferInfo) → ◌≢◌ {A = String} i.currency "" → (apply_defaults i).currency ≡ i.currency
unfolding apply_defaults
currency-defaults i ne = elim (Bool-cases (i.origin == "")) [
  | inl o ↦ rw o (ground (arith, eq_iff i.currency ""))
  | inr o ↦ rw o (ground (arith, eq_iff i.currency ""))
]

-- An amount that is not zero is kept.
pub amount-defaults :
    (i : OfferInfo) (n : ℕ) → i.amount ≡ pos n → ◌≢◌ {A = ℕ} n 0 → (apply_defaults i).amount ≡ pos n
unfolding apply_defaults
amount-defaults i n e ne = elim (Bool-cases (i.origin == "")) [
  | inl o ↦ rw (o, e) (ground arith)
  | inr o ↦ rw (o, e) (ground arith)
]

-- Passengers are kept where there are any.
pub pax-defaults :
    (i : OfferInfo)
    → ◌≢◌ {A = ℕ} (total_pax i) 0
    → ((apply_defaults i).adt ≡ i.adt)
      × ((apply_defaults i).chd ≡ i.chd)
      × ((apply_defaults i).inf ≡ i.inf)
unfolding apply_defaults total_pax
pax-defaults i ne = elim (Bool-cases (i.origin == "")) [
  | inl o ↦ rw o (ground arith, refl, refl)
  | inr o ↦ rw o (ground arith, refl, refl)
]

pub total_pax-counts :
    (i j : OfferInfo) → i.adt ≡ j.adt → i.chd ≡ j.chd → i.inf ≡ j.inf → total_pax i ≡ total_pax j
unfolding total_pax
total_pax-counts i j a c n = rw (a, c, n) refl
