-- ===== src/Handlers/Seats/Prices.antt =====
-- Seat prices against the fare, and the base and taxes of a total (edge/xmlbuild.go).
use ndc_mock.Prelude.{
  ◌-◌, ℕ, ◌+◌, ◌*◌, ◌/◌, ◌^◌, ◌≤◌, ◌<◌, ◌≡◌, ap, arith, Bool-cases, leb, if◌then◌else◌, inl, inr,
}
use ndc_mock.Prelude.Int.{mul_int-pos, sub_int-pos, pos, ◌≤ℤ◌, quot_int}
use ndc_mock.Offer.{OfferInfo}
use ndc_mock.Build.{taxes_of, base_of}
use ndc_mock.Handlers.Seats.{seat_price}

-- How many times the base a row costs.
factor : ℕ → ℕ
factor row = if leb row 4 then 3 else if leb row 10 then 2 else 1

factor-falls : (row row' : ℕ) → row ≤ row' → factor row' ≤ factor row
unfolding factor
factor-falls row row' le = ground arith

seat_price-factor :
    (i : OfferInfo) (n row : ℕ)
    → i.amount ≡ pos n
    → n < 2 ^ 63
    → seat_price i row ≡ pos (n / 40 * factor row)
unfolding seat_price factor
seat_price-factor i n row e h = elim (Bool-cases (leb row 4)) [
  | inl front ↦ rw (front, e) (mul_int-pos (n / 40) 3 (omega arith))
  | inr behind ↦ elim (Bool-cases (leb row 10)) [
    | inl middle ↦ rw (behind, middle, e) (mul_int-pos (n / 40) 2 (omega arith))
    | inr back ↦ rw (behind, back, e) (let same : n / 40 ≡ n / 40 * 1 = omega arith in ap pos same)
  ]
]

-- For a fare that is not negative a seat is never dearer than one in a row further to the front.
pub seat_price-falls :
    (i : OfferInfo) (n row row' : ℕ)
    → i.amount ≡ pos n
    → n < 2 ^ 63
    → row ≤ row'
    → seat_price i row' ≤ℤ seat_price i row
seat_price-falls i n row row' e h le =
    rw (seat_price-factor i n row e h, seat_price-factor i n row' e h)
      (grind (arith, factor-falls row row' le))

taxes_of-pos : (n : ℕ) → n * 18 < 2 ^ 63 → taxes_of (pos n) ≡ pos (n * 18 / 100)
unfolding taxes_of quot_int
taxes_of-pos n h = rw (mul_int-pos n 18 h)

-- Of a total that is not negative, and small enough for its 18 hundredfold to be an `int`, the base
-- and the taxes are not negative and add up to the total, and the taxes are at most 18 per cent.
pub base_of-taxes_of :
    (n : ℕ)
    → n * 18 < 2 ^ 63
    → (b : ℕ) × (t : ℕ) × (base_of (pos n) ≡ pos b)
      × (taxes_of (pos n) ≡ pos t)
      × (b + t ≡ n)
      × (t * 100 ≤ n * 18)
unfolding base_of
base_of-taxes_of n h = (
  n - n * 18 / 100,
  n * 18 / 100,
  rw (taxes_of-pos n h) (sub_int-pos n (n * 18 / 100) (omega arith) (omega arith)),
  taxes_of-pos n h,
  omega arith,
  omega arith,
)
