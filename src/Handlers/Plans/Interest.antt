-- ===== src/Handlers/Plans/Interest.antt =====
-- Payment plans against the fare.
use ndc_mock.Prelude.{
  ℕ, suc, ◌+◌, ◌*◌, ◌/◌, ◌^◌, ◌≤◌, ◌<◌, ◌≡◌, refl, Bool-cases, leb, inl, inr, arith,
}
use ndc_mock.Prelude.Int.{pos, quot_int, mul_int-pos}
use ndc_mock.Offer.{OfferInfo}
use ndc_mock.Handlers.Plans.{plan_of}

-- Of a fare that is not negative, and small enough for its 108 hundredfold to be an `int`, a plan
-- of one instalment or more asks for no more than its total, and falls short of it by less than one
-- for each instalment; up to six instalments the total is the fare, beyond them it is the fare with
-- eight per cent on top, rounded down.
pub plan_of-total :
    (i : OfferInfo) (n k : ℕ)
    → i.amount ≡ pos n
    → n * 108 < 2 ^ 63
    → (t : ℕ) × (e : ℕ) × ((plan_of i (suc k)).total ≡ pos t)
      × ((plan_of i (suc k)).each ≡ pos e)
      × (e * suc k ≤ t)
      × (t < e * suc k + suc k)
      × (suc k ≤ 6 → t ≡ n)
      × (6 < suc k → t ≡ n * 108 / 100)
unfolding plan_of quot_int
plan_of-total i n k e h = elim (Bool-cases (leb 7 (suc k))) [
  | inl beyond ↦
      rw (beyond, e, mul_int-pos n 108 h)
        (
          n * 108 / 100,
          n * 108 / 100 / suc k,
          refl,
          refl,
          omega arith,
          omega arith,
          λ few. absurd (ground arith),
          λ many. refl,
        )
  | inr within ↦
      rw (within, e)
        (
          n,
          n / suc k,
          refl,
          refl,
          omega arith,
          omega arith,
          λ few. refl,
          λ many. absurd (ground arith),
        )
]
