-- ===== src/Order/Store/Laws.antt =====
-- What can be read from the store after each operation.

use ndc_mock.Prelude.{
  ◌≡◌, ◌≢◌, refl, ◌∙◌, inl, inr, Option, none, some, [], ◌∷◌, String, if◌then◌else◌, ◌==◌,
  string_eq, Bool-cases, arith, eq_iff, str_eq-cases,
}
use ndc_mock.Prelude.Int.{ℤ, ltb_ℤ}
use ndc_mock.Order.{Order}
use ndc_mock.Order.Store.{Entries, find, assign, remove, drop_before}

-- No key is listed twice.
abbrev pub NodupKeys : Entries → Type 0
NodupKeys [] = Unit {0}
NodupKeys ((k, o) ∷ m) = (find k m ≡ none) × NodupKeys m

pub find-assign :
    (j k : String) (o : Order) (m : Entries)
    → find j (assign k o m) ≡ (if k == j then some o else find j m)
unfolding find assign
find-assign j k o [] = refl
find-assign j k o ((i, p) ∷ m) =
    ground (arith, eq_iff k j, eq_iff i k, eq_iff i j, find-assign j k o m)

pub find-remove :
    (j k : String) (m : Entries)
    → NodupKeys m
    → find j (remove k m) ≡ (if k == j then none else find j m)
unfolding find remove
find-remove j k [] h = ground arith
find-remove j k ((i, p) ∷ m) (fresh, h) =
    ground (arith, eq_iff k j, eq_iff i k, eq_iff i j, find-remove j k m h)

pub assign-NodupKeys :
    (k : String) (o : Order) (m : Entries) → NodupKeys m → NodupKeys (assign k o m)
unfolding assign find
assign-NodupKeys k o [] h = (refl, tt)
assign-NodupKeys k o ((i, p) ∷ m) (fresh, h) = elim (str_eq-cases i k) [
  | inl (same, path) ↦ rw (same, ← path) (fresh, h)
  | inr (differs, other) ↦
      rw differs (ground (arith, find-assign i k o m, eq_iff k i), assign-NodupKeys k o m h)
]

pub remove-NodupKeys : (k : String) (m : Entries) → NodupKeys m → NodupKeys (remove k m)
unfolding remove find
remove-NodupKeys k [] h = tt
remove-NodupKeys k ((i, p) ∷ m) (fresh, h) = elim (str_eq-cases i k) [
  | inl (same, path) ↦ rw same h
  | inr (differs, other) ↦
      rw differs (ground (arith, find-remove i k m h, eq_iff k i), remove-NodupKeys k m h)
]

-- What `reap` leaves of an order that was found.
abbrev pub survivor : ℤ → Option Order → Option Order
survivor cut none = none
survivor cut (some o) = if ltb_ℤ o.created_at cut then none else some o

pub find-drop_before :
    (cut : ℤ) (j : String) (m : Entries)
    → NodupKeys m
    → find j (drop_before cut m) ≡ survivor cut (find j m)
unfolding find drop_before
find-drop_before cut j [] h = refl
find-drop_before cut j ((i, p) ∷ m) (fresh, h) =
    let ih = find-drop_before cut j m h in
    elim (str_eq-cases i j) [
      | inl (same, path) ↦
          let gone : find j m ≡ none = rw (← path) fresh in
          elim (Bool-cases (ltb_ℤ p.created_at cut)) [
            | inl old ↦ rw (old, same, survivor, old) (ih ∙ rw gone)
            | inr young ↦ rw (young, same, survivor, young)
          ]
      | inr (differs, _) ↦ elim (Bool-cases (ltb_ℤ p.created_at cut)) [
        | inl old ↦ rw (old, differs) ih
        | inr young ↦ rw (young, differs) ih
      ]
    ]

pub drop_before-NodupKeys : (cut : ℤ) (m : Entries) → NodupKeys m → NodupKeys (drop_before cut m)
unfolding drop_before
drop_before-NodupKeys cut [] h = tt
drop_before-NodupKeys cut ((i, p) ∷ m) (fresh, h) = elim (Bool-cases (ltb_ℤ p.created_at cut)) [
  | inl old ↦ rw old (drop_before-NodupKeys cut m h)
  | inr young ↦
      rw young (rw (find-drop_before cut i m h, fresh) refl, drop_before-NodupKeys cut m h)
]

-- `visit` lists the entries of the map `m`, each once, in any order.
pub record Enumerates (visit m : Entries) : Type 0 where
  pub once : NodupKeys visit
  pub same : (j : String) → find j visit ≡ find j m

abbrev pub Named : Entries → Type 0
Named [] = Unit {0}
Named ((k, o) ∷ m) = (k ≢ "") × (o.id ≡ k) × Named m
