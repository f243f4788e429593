-- ===== src/Order/Store.antt =====
-- `orderStore` and its operations.
pub mod Laws
pub mod Oldest
pub mod Effects
pub mod Runs
pub mod Refines
use ndc_mock.Prelude.{
  ℕ, zero, suc, ◌≡◌, ◌≢◌, refl, Bool, true, false, ◌||◌, not, Option, none, some, List, [], ◌∷◌,
  ◌++◌, map, String, length, if◌then◌else◌, ◌==◌, string_eq,
}
use ndc_mock.Prelude.Int.{ℤ, pos, ◌-ℤ◌, ltb_ℤ, leb_ℤ}
use ndc_mock.Order.{Order}

abbrev pub Entries : Type 0
Entries = List (String × Order)

pub record Store : Type 0 where
  pub by_id : Entries
  pub ttl : ℤ
  pub max_len : ℤ

unfoldable pub new_store : ℤ → ℤ → Store
new_store ttl max = record { by_id = []; ttl = ttl; max_len = max }

-- `byID[id]`, `byID[id] = o` and `delete(byID, id)`.
unfoldable pub find : String → Entries → Option Order
find id [] = none
find id ((k, o) ∷ m) = if k == id then some o else find id m

unfoldable pub assign : String → Order → Entries → Entries
assign id o [] = (id, o) ∷ []
assign id o ((k, p) ∷ m) = if k == id then (id, o) ∷ m else (k, p) ∷ assign id o m

unfoldable pub remove : String → Entries → Entries
remove id [] = []
remove id ((k, o) ∷ m) = if k == id then m else (k, o) ∷ remove id m

-- One round of the loop of `put`, over `oldestID` and `oldest`.
older : String × ℤ → String × Order → String × ℤ
older (oldest_id, oldest) (id, e) =
    if oldest_id == "" || ltb_ℤ e.created_at oldest then (id, e.created_at) else (oldest_id, oldest)

unfoldable pub oldest_from : String × ℤ → Entries → String × ℤ
unfolding older
oldest_from best [] = best
oldest_from best (e ∷ es) = oldest_from (older best e) es

-- The entry that goes when the store is full; `visit` holds the entries as the loop meets them.
unfoldable pub oldest_id : Entries → String
unfolding oldest_from
oldest_id visit = (oldest_from ("", pos 0) visit).0

-- `put`. The loop runs only when the store is full.
unfoldable pub put : Entries → Order → Store → Store
unfolding oldest_id remove assign
put visit o s =
    let kept =
      if leb_ℤ s.max_len (pos (length s.by_id))
      then remove (oldest_id visit) s.by_id
      else s.by_id in
    record s { by_id = assign o.id o kept }

-- `get`, which returns a copy.
unfoldable pub get : String → Store → Option Order
unfolding find
get id s = find id s.by_id

store_back : String → (Order → Order) → Store → Option Order → Store × Option Order
unfolding assign
store_back id fn s none = (s, none)
store_back id fn s (some o) = (record s { by_id = assign id (fn o) s.by_id }, some (fn o))

-- `mutate`: applies `fn` to the order in place and returns a copy of the result.
unfoldable pub mutate : String → (Order → Order) → Store → Store × Option Order
unfolding store_back find
mutate id fn s = store_back id fn s (find id s.by_id)

unfoldable pub drop_before : ℤ → Entries → Entries
drop_before cut [] = []
drop_before cut ((k, o) ∷ m) =
    let rest = drop_before cut m in if ltb_ℤ o.created_at cut then rest else (k, o) ∷ rest

-- One tick of `reap` at the instant `now`.
unfoldable pub reap : ℤ → Store → Store
unfolding drop_before ◌-ℤ◌
reap now s = record s { by_id = drop_before (now -ℤ s.ttl) s.by_id }

unfoldable pub size : Store → ℕ
size s = length s.by_id
