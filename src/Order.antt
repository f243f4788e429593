-- ===== src/Order.antt =====
-- Orders and the store that holds them (edge/orders.go). The map `byID` is an association list
-- with distinct keys. Go visits a map in an order of its own choice, so `put` takes the order in
-- which its loop visits the entries as an argument. The mutex makes each operation one step;
-- values are copied where the source clones them.
pub mod Store
use ndc_mock.Prelude.{
  ℕ, zero, suc, Bool, true, false, List, [], ◌∷◌, ◌++◌, String, if◌then◌else◌, ◌==◌, string_eq,
}
use ndc_mock.Prelude.Int.{ℤ, pos, add_int}
use ndc_mock.Offer.{OfferInfo, Passenger}

pub record Service : Type 0 where
  pub id : String
  pub code : String
  pub name : String
  pub pax_id : String
  pub currency : String
  pub amount : ℤ

pub record Seat : Type 0 where
  pub pax_id : String
  pub row : ℤ
  pub column : String
  pub currency : String
  pub amount : ℤ

pub record Order : Type 0 where
  pub id : String
  pub status : String
  pub info : OfferInfo
  pub pax : List Passenger
  pub services : List Service
  pub seats : List Seat
  pub created_at : ℤ
  pub history : List String

-- The loops of `total`.
unfoldable pub add_services : ℤ → List Service → ℤ
unfolding add_int
add_services t [] = t
add_services t (s ∷ ss) = add_services (add_int t s.amount) ss

unfoldable pub add_seats : ℤ → List Seat → ℤ
unfolding add_int
add_seats t [] = t
add_seats t (s ∷ ss) = add_seats (add_int t s.amount) ss

unfoldable pub total : Order → ℤ
unfolding add_services add_seats
total o = add_seats (add_services o.info.amount o.services) o.seats

-- The changes of state that the handlers apply (edge/handlers.go).
unfoldable pub cancel : Order → Order
cancel o = record o { status = "Cancelled"; history = o.history ++ ("Cancelled" ∷ []) }

unfoldable pub change : Order → Order
change o = record o { status = "Changed"; history = o.history ++ ("Changed" ∷ []) }

-- The store's states as the 19.2 order status code list has them (edge/xmlbuild.go).
unfoldable pub status_code : String → String
status_code s =
    if s == "Opened"
    then "OPENED"
    else if s == "Changed"
    then "OPENED"
    else if s == "Cancelled"
    then "CLOSED"
    else ""
