-- ===== src/Order/Store/Runs.antt =====
-- The invariant of the store, and its runs: any interleaving of the operations, one at a time.
use Prim.Native.Nat.{max}
use ndc_mock.Prelude.{
  ℕ, suc, ◌≤◌, ◌≡◌, ◌≢◌, refl, sym, ap, ◌∙◌, ◌⊎◌, inl, inr, some, [], ◌∷◌, String, length,
  string_eq, Bool-cases, Option-cases, arith, str_eq-cases,
}
use ndc_mock.Prelude.Int.{ℤ, pos, ◌-ℤ◌, ltb_ℤ, leb_ℤ, pos_part}
use ndc_mock.Order.{Order}
use ndc_mock.Order.Store.{
  Entries, Store, new_store, find, assign, remove, oldest_id, put, mutate, store_back, drop_before,
  reap,
}
use ndc_mock.Order.Store.Laws.{
  NodupKeys, Enumerates, Named, assign-NodupKeys, remove-NodupKeys, drop_before-NodupKeys,
}
use ndc_mock.Order.Store.Effects.{oldest_id-found}

-- Keys are distinct, each is the identifier of its order, and the store is within its limit, or
-- holds the one order that was put last where the limit is not positive.
pub record IsValid (s : Store) : Type 0 where
  pub distinct : NodupKeys s.by_id
  pub named : Named s.by_id
  pub bounded : length s.by_id ≤ max 1 (pos_part s.max_len)

length-assign-le : (k : String) (o : Order) (m : Entries) → length (assign k o m) ≤ suc (length m)
unfolding assign
length-assign-le k o [] = omega arith
length-assign-le k o ((i, p) ∷ m) = ground (arith, length-assign-le k o m)

length-assign_found :
    (k : String) (o p : Order) (m : Entries) → find k m ≡ some p → length (assign k o m) ≡ length m
unfolding assign find
length-assign_found k o p [] h = cc
length-assign_found k o p ((i, q) ∷ m) h = ground (arith, length-assign_found k o p m)

length-remove :
    (k : String) (p : Order) (m : Entries)
    → find k m ≡ some p
    → suc (length (remove k m)) ≡ length m
unfolding remove find
length-remove k p [] h = cc
length-remove k p ((i, q) ∷ m) h = ground (arith, length-remove k p m)

length-drop_before : (cut : ℤ) (m : Entries) → length (drop_before cut m) ≤ length m
unfolding drop_before
length-drop_before cut [] = omega arith
length-drop_before cut ((i, q) ∷ m) = ground (arith, length-drop_before cut m)

assign-Named :
    (k : String) (o : Order) (m : Entries) → k ≢ "" → o.id ≡ k → Named m → Named (assign k o m)
unfolding assign
assign-Named k o [] ne e n = (ne, e, tt)
assign-Named k o ((i, p) ∷ m) ne e (ni, ei, n) = elim (str_eq-cases i k) [
  | inl (same, _) ↦ rw same (ne, e, n)
  | inr (differs, _) ↦ rw differs (ni, ei, assign-Named k o m ne e n)
]

remove-Named : (k : String) (m : Entries) → Named m → Named (remove k m)
unfolding remove
remove-Named k [] n = tt
remove-Named k ((i, p) ∷ m) (ni, ei, n) = elim (str_eq-cases i k) [
  | inl (same, _) ↦ rw same n
  | inr (differs, _) ↦ rw differs (ni, ei, remove-Named k m n)
]

drop_before-Named : (cut : ℤ) (m : Entries) → Named m → Named (drop_before cut m)
unfolding drop_before
drop_before-Named cut [] n = tt
drop_before-Named cut ((i, p) ∷ m) (ni, ei, n) = elim (Bool-cases (ltb_ℤ p.created_at cut)) [
  | inl old ↦ rw old (drop_before-Named cut m n)
  | inr young ↦ rw young (ni, ei, drop_before-Named cut m n)
]

find-Named :
    (k : String) (o : Order) (m : Entries) → Named m → find k m ≡ some o → (k ≢ "") × (o.id ≡ k)
unfolding find
find-Named k o [] n h = cc
find-Named k o ((i, p) ∷ m) (ni, ei, n) h = elim (str_eq-cases i k) [
  | inl (same, path) ↦
      let here : p ≡ o = ground arith in
      (λ e. ni (path ∙ e), ap (λ (q : Order). q.id) (sym here) ∙ ei ∙ path)
  | inr (differs, _) ↦ find-Named k o m n (rw differs at h)
]

List-cases : (m : Entries) → (m ≡ []) ⊎ (m ≢ [])
List-cases [] = inl refl
List-cases (e ∷ m) = inr (λ h. cc)

length-put_full :
    (visit : Entries) (o : Order) (s : Store)
    → Enumerates visit s.by_id
    → IsValid s
    → length (assign o.id o (remove (oldest_id visit) s.by_id)) ≤ max 1 (pos_part s.max_len)
unfolding remove
length-put_full visit o s n v = elim (List-cases s.by_id) [
  | inl empty ↦ rw empty (omega (arith, length-assign-le o.id o []))
  | inr ne ↦
      let (e, found, _) = oldest_id-found visit s.by_id n v.named ne in
      omega (
        arith,
        v.bounded,
        length-assign-le o.id o (remove (oldest_id visit) s.by_id),
        length-remove (oldest_id visit) e s.by_id found,
      )
]

-- `put` keeps the invariant, whatever the order in which its loop visits the entries.
pub put-IsValid :
    (visit : Entries) (o : Order) (s : Store)
    → Enumerates visit s.by_id
    → o.id ≢ ""
    → IsValid s
    → IsValid (put visit o s)
unfolding put
put-IsValid visit o s n ne v = elim (Bool-cases (leb_ℤ s.max_len (pos (length s.by_id)))) [
  | inl full ↦ rw full (record {
    distinct = assign-NodupKeys o.id o _ (remove-NodupKeys (oldest_id visit) s.by_id v.distinct);
    named = assign-Named o.id o _ ne refl (remove-Named (oldest_id visit) s.by_id v.named);
    bounded = length-put_full visit o s n v;
  })
  | inr room ↦ rw room (record {
    distinct = assign-NodupKeys o.id o s.by_id v.distinct;
    named = assign-Named o.id o s.by_id ne refl v.named;
    bounded = ground (arith, length-assign-le o.id o s.by_id);
  })
]

pub mutate-IsValid :
    (id : String) (fn : Order → Order) (s : Store)
    → ((o : Order) → (fn o).id ≡ o.id)
    → IsValid s
    → IsValid (mutate id fn s).0
unfolding mutate store_back
mutate-IsValid id fn s keeps v = elim (Option-cases (find id s.by_id)) [
  | inl missing ↦ rw (missing, store_back) v
  | inr (o, found) ↦
      let (ne, named) = find-Named id o s.by_id v.named found in
      rw (found, store_back)
        (record {
          distinct = assign-NodupKeys id (fn o) s.by_id v.distinct;
          named = assign-Named id (fn o) s.by_id ne (keeps o ∙ named) v.named;
          bounded = omega (arith, v.bounded, length-assign_found id (fn o) o s.by_id found);
        })
]

pub reap-IsValid : (now : ℤ) (s : Store) → IsValid s → IsValid (reap now s)
unfolding reap
reap-IsValid now s v = record {
  distinct = drop_before-NodupKeys (now -ℤ s.ttl) s.by_id v.distinct;
  named = drop_before-Named (now -ℤ s.ttl) s.by_id v.named;
  bounded = omega (arith, v.bounded, length-drop_before (now -ℤ s.ttl) s.by_id);
}

-- The operations that change the store; the mutex makes each one step.
pub data Step : Store → Store → Type 0 where
  put_step :
      (s : Store) (visit : Entries) (o : Order)
      → Enumerates visit s.by_id
      → o.id ≢ ""
      → Step s (put visit o s)
  mutate_step :
      (s : Store) (id : String) (fn : Order → Order)
      → ((o : Order) → (fn o).id ≡ o.id)
      → Step s (mutate id fn s).0
  reap_step : (s : Store) (now : ℤ) → Step s (reap now s)

pub data Runs (s : Store) : Store → Type 0 where
  start : Runs s s
  next : {t u : Store} → Runs s t → Step t u → Runs s u

pub Step-IsValid : {s t : Store} → Step s t → IsValid s → IsValid t
Step-IsValid (put_step s visit o n ne) v = put-IsValid visit o s n ne v
Step-IsValid (mutate_step s id fn keeps) v = mutate-IsValid id fn s keeps v
Step-IsValid (reap_step s now) v = reap-IsValid now s v

pub Step-max_len : {s t : Store} → Step s t → t.max_len ≡ s.max_len
unfolding put mutate reap store_back
Step-max_len (put_step s visit o n ne) = refl
Step-max_len (mutate_step s id fn keeps) = elim (Option-cases (find id s.by_id)) [
  | inl missing ↦ rw (missing, store_back)
  | inr (o, found) ↦ rw (found, store_back)
]
Step-max_len (reap_step s now) = refl

Runs-IsValid : {s t : Store} → IsValid s → Runs s t → IsValid t × (t.max_len ≡ s.max_len)
Runs-IsValid v start = (v, refl)
Runs-IsValid v (next r st) =
    let (w, same) = Runs-IsValid v r in (Step-IsValid st w, Step-max_len st ∙ same)

-- Whatever operations run on a new store with a positive limit, in any order, the store never holds
-- more orders than the limit, no identifier twice, and each order under its own identifier.
pub Runs-bounded :
    (ttl : ℤ) (n : ℕ) {t : Store}
    → Runs (new_store ttl (pos (suc n))) t
    → (length t.by_id ≤ suc n) × NodupKeys t.by_id × Named t.by_id
unfolding new_store
Runs-bounded ttl n r =
    let (v, same) = Runs-IsValid (record { distinct = tt; named = tt; bounded = omega arith }) r in
    (omega (arith, v.bounded, ap pos_part same), v.distinct, v.named)
