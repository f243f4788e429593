-- ===== src/Order/Store/Effects.antt =====
-- What each operation changes, read through `get`.
use ndc_mock.Prelude.{
  ◌≡◌, ◌≢◌, refl, sym, ◌∙◌, inl, inr, none, some, [], ◌∷◌, String, length, if◌then◌else◌, ◌==◌,
  string_eq, Bool-cases, arith, eq_iff, str_eq-cases, str_eq_self, All,
}
use ndc_mock.Prelude.Int.{ℤ, pos, ◌-ℤ◌, ◌≤ℤ◌, leb_ℤ}
use ndc_mock.Order.{Order}
use ndc_mock.Order.Store.{
  Entries, Store, find, remove, oldest_id, put, get, mutate, store_back, reap,
}
use ndc_mock.Order.Store.Laws.{
  NodupKeys, Enumerates, Named, survivor, find-assign, find-remove, find-drop_before,
}
use ndc_mock.Order.Store.Oldest.{oldest_id-least}

abbrev pub IsFull : Store → Type 0
IsFull s = s.max_len ≤ℤ pos (length s.by_id)

find-empty_key : (m : Entries) → Named m → find "" m ≡ none
unfolding find
find-empty_key [] n = refl
find-empty_key ((k, o) ∷ m) (ne, _, n) = ground (arith, eq_iff k "", find-empty_key m n)

keys-ne : (m : Entries) → find "" m ≡ none → All (λ (e : String × Order). e.0 ≢ "") m
unfolding find
keys-ne [] h = tt
keys-ne ((k, o) ∷ m) h = elim (str_eq-cases k "") [
  | inl (same, _) ↦ absurd (ground arith)
  | inr (differs, ne) ↦ (ne, keys-ne m (rw differs at h))
]

some-ne_none : (m : Entries) → m ≢ [] → (k : String) × (o : Order) × (find k m ≡ some o)
unfolding find
some-ne_none [] ne = absurd (ne refl)
some-ne_none ((k, o) ∷ m) ne = (k, o, ground (arith, eq_iff k k))

visit-ne : (visit m : Entries) → Enumerates visit m → m ≢ [] → visit ≢ []
unfolding find
visit-ne [] m n ne = let (k, o, found) = some-ne_none m ne in absurd (ground (arith, n.same k))
visit-ne (e ∷ visit) m n ne = λ h. cc

-- `put` below the limit adds or replaces one order and keeps every other.
pub get-put_room :
    (visit : Entries) (o : Order) (s : Store) (j : String)
    → ¬ IsFull s
    → get j (put visit o s) ≡ (if o.id == j then some o else get j s)
unfolding get put
get-put_room visit o s j room = elim (Bool-cases (leb_ℤ s.max_len (pos (length s.by_id)))) [
  | inl full ↦ absurd (room (ground arith))
  | inr not_full ↦ rw not_full (find-assign j o.id o s.by_id)
]

-- The order that was put is found under its identifier.
pub get-put_self : (visit : Entries) (o : Order) (s : Store) → get o.id (put visit o s) ≡ some o
unfolding get put
get-put_self visit o s = rw (find-assign o.id o.id o _, str_eq_self o.id)

get-put_full :
    (visit : Entries) (o : Order) (s : Store) (j : String)
    → NodupKeys s.by_id
    → IsFull s
    → get j (put visit o s)
      ≡ (if o.id == j then some o else if oldest_id visit == j then none else get j s)
unfolding get put
get-put_full visit o s j h full = elim (Bool-cases (leb_ℤ s.max_len (pos (length s.by_id)))) [
  | inl t ↦ rw (
    t,
    find-assign j o.id o (remove (oldest_id visit) s.by_id),
    find-remove j (oldest_id visit) s.by_id h,
  )
  | inr f ↦ absurd (ground arith)
]

pub oldest_id-found :
    (visit m : Entries)
    → Enumerates visit m
    → Named m
    → m ≢ []
    → (e : Order) × (find (oldest_id visit) m ≡ some e)
      × ((j : String) (p : Order) → find j m ≡ some p → e.created_at ≤ℤ p.created_at)
oldest_id-found visit m n named ne =
    let (e, found, least) =
      oldest_id-least visit n.once (keys-ne visit (n.same "" ∙ find-empty_key m named))
        (visit-ne visit m n ne) in
    (e, sym (n.same (oldest_id visit)) ∙ found, λ j p f. least j p (n.same j ∙ f))

-- `put` into a full store drops one order that no other is older than, stores the new one, and
-- keeps every other. It holds whatever the order in which the loop visits the entries.
pub put-evicts :
    (visit : Entries) (o : Order) (s : Store)
    → Enumerates visit s.by_id
    → NodupKeys s.by_id
    → Named s.by_id
    → IsFull s
    → s.by_id ≢ []
    → (v : String) × (e : Order) × (get v s ≡ some e)
      × ((j : String) (p : Order) → get j s ≡ some p → e.created_at ≤ℤ p.created_at)
      × ((j : String)
          → get j (put visit o s)
            ≡ (if o.id == j then some o else if v == j then none else get j s))
unfolding get
put-evicts visit o s n h named full ne =
    let (e, found, least) = oldest_id-found visit s.by_id n named ne in
    (oldest_id visit, e, found, least, λ j. get-put_full visit o s j h full)

-- `mutate` applies the change to the order that it names, and to no other.
pub get-mutate :
    (id : String) (fn : Order → Order) (s : Store) (o : Order) (j : String)
    → get id s ≡ some o
    → ((mutate id fn s).1 ≡ some (fn o))
      × (get j (mutate id fn s).0 ≡ (if id == j then some (fn o) else get j s))
unfolding get mutate store_back
get-mutate id fn s o j h = rw h (refl, find-assign j id (fn o) s.by_id)

-- `mutate` of an unknown identifier reports it and leaves the store alone.
pub mutate_unknown :
    (id : String) (fn : Order → Order) (s : Store) → get id s ≡ none → mutate id fn s ≡ (s, none)
unfolding get mutate store_back
mutate_unknown id fn s h = rw h

-- After a tick of `reap` exactly the orders created before `now - ttl` are gone.
pub get-reap :
    (now : ℤ) (s : Store) (j : String)
    → NodupKeys s.by_id
    → get j (reap now s) ≡ survivor (now -ℤ s.ttl) (get j s)
unfolding get reap
get-reap now s j h = find-drop_before (now -ℤ s.ttl) j s.by_id h
