-- ===== src/Tests/Stores.antt =====
-- The order store at work on three orders (edge/orders.go).
use ndc_mock.Prelude.{
  ℕ, ◌≤◌, ◌≡◌, ◌≢◌, refl, false, none, some, [], ◌∷◌, String, length, arith, if◌then◌else◌, ◌==◌,
  string_eq, eq_iff,
}
use ndc_mock.Prelude.Int.{pos, ◌≤ℤ◌, ◌-ℤ◌}
use ndc_mock.Offer.{OfferInfo}
use ndc_mock.Order.{Order, cancel}
use ndc_mock.Order.Store.{Store, new_store, find, put, get, mutate, reap}
use ndc_mock.Order.Store.Laws.{NodupKeys, Enumerates, Named, survivor}
use ndc_mock.Order.Store.Effects.{put-evicts, get-mutate, get-reap}
use ndc_mock.Order.Store.Refines.{puts, mutates, reaps, Reached, view, Runs-Refines}
use ndc_mock.Order.Store.Runs.{
  IsValid, put_step, mutate_step, reap_step, Runs, start, next, Runs-bounded,
}

abbrev pub no_info : OfferInfo
no_info = record {
  origin = "BOG";
  dest = "MIA";
  dep_date = "2026-12-01";
  ret_date = "";
  round_trip = false;
  legs = [];
  carrier = "YY";
  flight_num = "4827";
  dep_time = "";
  arr_time = "";
  currency = "USD";
  amount = pos 40000;
  adt = 1;
  chd = 0;
  inf = 0;
  raw = "";
}

abbrev pub order_at : String → ℕ → Order
order_at id n = record {
  id = id;
  status = "Opened";
  info = no_info;
  pax = [];
  services = [];
  seats = [];
  created_at = pos n;
  history = "Opened" ∷ [];
}

-- Two orders, the younger one first, in a store for two.
abbrev pub two_orders : Store
two_orders = record {
  by_id = ("b", order_at "b" 20) ∷ ("a", order_at "a" 10) ∷ [];
  ttl = pos 5;
  max_len = pos 2;
}

a_ne : ◌≢◌ {A = String} "a" ""
a_ne e = ground (arith, eq_iff "a" "")

b_ne : ◌≢◌ {A = String} "b" ""
b_ne e = ground (arith, eq_iff "b" "")

pub c_ne : ◌≢◌ {A = String} "c" ""
c_ne e = ground (arith, eq_iff "c" "")

two_orders-Enumerates : Enumerates two_orders.by_id two_orders.by_id
unfolding find
two_orders-Enumerates = record { once = (refl, (refl, tt)); same = λ j. refl }

two_orders-IsValid : IsValid two_orders
unfolding find
two_orders-IsValid = record {
  distinct = (refl, (refl, tt));
  named = (b_ne, refl, (a_ne, refl, tt));
  bounded = omega arith;
}

abbrev one_order : Store
one_order = record { by_id = ("a", order_at "a" 10) ∷ []; ttl = pos 5; max_len = pos 2 }

put-evicts_example :
    (v : String) × (e : Order) × (get v two_orders ≡ some e)
    × ((j : String) (p : Order) → get j two_orders ≡ some p → e.created_at ≤ℤ p.created_at)
    × ((j : String)
        → get j (put two_orders.by_id (order_at "c" 30) two_orders) ≡ (
            if "c" == j then some (order_at "c" 30) else if v == j then none else get j two_orders))
put-evicts_example =
    put-evicts two_orders.by_id (order_at "c" 30) two_orders two_orders-Enumerates
      two_orders-IsValid.distinct two_orders-IsValid.named (omega arith) (λ e. cc)

put_full_test :
    (put two_orders.by_id (order_at "c" 30) two_orders).by_id
    ≡ ("b", order_at "b" 20) ∷ ("c", order_at "c" 30) ∷ []
unfolding put
put_full_test = refl

get-mutate_example :
    ((mutate "a" cancel two_orders).1 ≡ some (cancel (order_at "a" 10)))
    × (get "b" (mutate "a" cancel two_orders).0 ≡ (
        if ◌==◌ {A = String} "a" "b" then some (cancel (order_at "a" 10)) else get "b" two_orders))
unfolding get
get-mutate_example = get-mutate "a" cancel two_orders (order_at "a" 10) "b" refl

get-reap_example :
    get "a" (reap (pos 17) two_orders) ≡ survivor (pos 17 -ℤ pos 5) (get "a" two_orders)
get-reap_example = get-reap (pos 17) two_orders "a" two_orders-IsValid.distinct

abbrev empty_store : Store
empty_store = new_store (pos 5) (pos 1)

empty-Enumerates : Enumerates [] empty_store.by_id
unfolding find new_store
empty-Enumerates = record { once = tt; same = λ j. refl }

-- An order is put into a new store for one and cancelled, and the reaper ticks.
day : Runs empty_store (reap (pos 40) (mutate "c" cancel (put [] (order_at "c" 30) empty_store)).0)
unfolding cancel
day =
    next
      (next (next start (put_step empty_store [] (order_at "c" 30) empty-Enumerates c_ne))
        (mutate_step (put [] (order_at "c" 30) empty_store) "c" cancel (λ o. refl)))
      (reap_step (mutate "c" cancel (put [] (order_at "c" 30) empty_store)).0 (pos 40))

Runs-bounded_example :
    let t = reap (pos 40) (mutate "c" cancel (put [] (order_at "c" 30) empty_store)).0 in
    (length t.by_id ≤ 1) × NodupKeys t.by_id × Named t.by_id
Runs-bounded_example = Runs-bounded (pos 5) 0 day

Runs-Refines_example :
    Reached
      (pos 5)
      (reaps (pos 40) ∷ mutates "c" cancel ∷ puts (order_at "c" 30) ∷ [])
      (view (reap (pos 40) (mutate "c" cancel (put [] (order_at "c" 30) empty_store)).0))
unfolding day
Runs-Refines_example = Runs-Refines (pos 5) 0 day
