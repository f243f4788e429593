-- ===== src/Tests/Fares.antt =====
-- Fares, seats, ancillaries and payment plans of one trip (edge/handlers.go, edge/xmlbuild.go).
use ndc_mock.Prelude.{
  ℕ, ◌+◌, ◌*◌, ◌/◌, ◌≤◌, ◌≡◌, ◌≢◌, refl, some, List, [], length, get_elem?, ◌%◌, ◌<◌, arith,
}
use ndc_mock.Prelude.Int.{pos, ◌≤ℤ◌}
use ndc_mock.Offer.{pax_ids}
use ndc_mock.Order.{Service}
use ndc_mock.Build.{base_of, taxes_of}
use ndc_mock.Handlers.Seats.{seat_price}
use ndc_mock.Handlers.Seats.Prices.{seat_price-falls, base_of-taxes_of}
use ndc_mock.Handlers.Plans.{plan_of}
use ndc_mock.Handlers.Plans.Interest.{plan_of-total}
use ndc_mock.Handlers.Services.{synth_services}
use ndc_mock.Handlers.Services.Laws.{synth_services-InTurn}
use ndc_mock.Tests.Stores.{no_info}

seat_price-falls_example : seat_price no_info 7 ≤ℤ seat_price no_info 3
seat_price-falls_example = seat_price-falls no_info 40000 3 7 refl (omega arith) (omega arith)

seat_price_test : seat_price no_info 3 ≡ pos 3000
unfolding seat_price
seat_price_test = refl

base_of-taxes_of_example :
    (b : ℕ) × (t : ℕ) × (base_of (pos 40000) ≡ pos b)
    × (taxes_of (pos 40000) ≡ pos t)
    × (b + t ≡ 40000)
    × (t * 100 ≤ 40000 * 18)
base_of-taxes_of_example = base_of-taxes_of 40000 (omega arith)

plan_of-total_example :
    (t : ℕ) × (e : ℕ) × ((plan_of no_info 9).total ≡ pos t)
    × ((plan_of no_info 9).each ≡ pos e)
    × (e * 9 ≤ t)
    × (t < e * 9 + 9)
    × (9 ≤ 6 → t ≡ 40000)
    × (6 < 9 → t ≡ 40000 * 108 / 100)
plan_of-total_example = plan_of-total no_info 40000 8 refl (omega arith)

no_info_pax : pax_ids no_info ≢ []
unfolding pax_ids
no_info_pax e = cc

synth_services-InTurn_example :
    (svcs : List Service) × (synth_services 10 no_info 3 ≡ some svcs)
    × (length svcs ≡ 3)
    × ((j : ℕ)
        → j < 3
        → (s : Service) × (get_elem? svcs j ≡ some s)
          × (get_elem? (pax_ids no_info) (j % length (pax_ids no_info)) ≡ some s.pax_id))
synth_services-InTurn_example = synth_services-InTurn 10 no_info 3 no_info_pax (omega arith)
