-- ===== src/Handlers/Services/Laws.antt =====
-- The ancillaries that are made for a trip.
use ndc_mock.Prelude.{
  ℕ, zero, suc, ◌≡◌, ◌≢◌, refl, some, List, [], ◌∷◌, String, length, get_elem?, ◌%◌, ◌<◌, arith, ap,
  leb, true, ◌≤◌, ◌+◌, sym, ◌∙◌,
}
use ndc_mock.Offer.{OfferInfo, pax_ids}
use ndc_mock.Order.{Service}
use ndc_mock.Handlers.Services.{pax_at, ancillary, services_from, synth_services}

get_elem?-some :
    (ps : List String) (k : ℕ) → k < length ps → (p : String) × (get_elem? ps k ≡ some p)
get_elem?-some [] k h = elim h [ ]
get_elem?-some (p ∷ ps) zero h = (p, refl)
get_elem?-some (p ∷ ps) (suc k) h = get_elem?-some ps k (omega arith)

pax_at-some : (ps : List String) (k : ℕ) → ps ≢ [] → (p : String) × (pax_at ps k ≡ some p)
unfolding pax_at
pax_at-some [] k ne = absurd (ne refl)
pax_at-some (p ∷ ps) k ne = get_elem?-some (p ∷ ps) (k % length (p ∷ ps)) (omega arith)

pax_at-index : (ps : List String) (k : ℕ) → ps ≢ [] → pax_at ps k ≡ get_elem? ps (k % length ps)
unfolding pax_at
pax_at-index [] k ne = absurd (ne refl)
pax_at-index (p ∷ ps) k ne = refl

-- The service of number `k` goes to the passenger of that number, counted round.
abbrev pub IsFor : OfferInfo → ℕ → Service → Type 0
IsFor i k s = get_elem? (pax_ids i) (k % length (pax_ids i)) ≡ some s.pax_id

-- The services from number `k` on, in order.
abbrev pub InTurn : OfferInfo → ℕ → List Service → Type 0
InTurn i k svcs =
    (j : ℕ) → j < length svcs → (s : Service) × (get_elem? svcs j ≡ some s) × IsFor i (k + j) s

InTurn-cons :
    (i : OfferInfo) (k : ℕ) (s : Service) (svcs : List Service)
    → IsFor i k s
    → InTurn i (suc k) svcs
    → InTurn i k (s ∷ svcs)
InTurn-cons i k s svcs here turns zero h =
    let same : k + zero ≡ k = omega arith in (s, refl, rw same here)
InTurn-cons i k s svcs here turns (suc j) h =
    let same : k + suc j ≡ suc k + j = omega arith in
    let (t, found, there) = turns j (omega (arith, h)) in (t, found, rw same there)

services_from-InTurn :
    (i : OfferInfo) (k n : ℕ)
    → pax_ids i ≢ []
    → (svcs : List Service) × (services_from i k n ≡ some svcs)
      × (length svcs ≡ n)
      × InTurn i k svcs
unfolding services_from
services_from-InTurn i k zero ne = ([], refl, refl, λ j h. absurd (omega (arith, h)))
services_from-InTurn i k (suc n) ne =
    let (p, here) = pax_at-some (pax_ids i) k ne in
    let (svcs, made, count, turns) = services_from-InTurn i (suc k) n ne in
    (
      ancillary i k p ∷ svcs,
      rw (here, made),
      ap suc count,
      InTurn-cons i k (ancillary i k p) svcs (sym (pax_at-index (pax_ids i) k ne) ∙ here) turns,
    )

-- For a trip with a passenger, as many ancillaries are made as are asked for, without a panic where
-- `make` accepts that many, and they go to the passengers in turn: the one of number `j` to the
-- passenger of number `j` modulo their count.
pub synth_services-InTurn :
    (most : ℕ) (i : OfferInfo) (n : ℕ)
    → pax_ids i ≢ []
    → n ≤ most
    → (svcs : List Service) × (synth_services most i n ≡ some svcs)
      × (length svcs ≡ n)
      × ((j : ℕ)
          → j < n
          → (s : Service) × (get_elem? svcs j ≡ some s)
            × (get_elem? (pax_ids i) (j % length (pax_ids i)) ≡ some s.pax_id))
unfolding synth_services
synth_services-InTurn most i n ne fits =
    let (svcs, made, count, turns) = services_from-InTurn i 0 n ne in
    let accepted : leb n most ≡ true = ground arith in
    (
      svcs,
      rw accepted made,
      count,
      λ j h.
          let (s, found, here) = turns j (omega (arith, count, h)) in
          let same : 0 + j ≡ j = omega arith in (s, found, rw same at here),
    )
