-- ===== src/Order/Store/Refines.antt =====
-- What the store promises, as changes to a function from identifiers to orders, and that its
-- operations keep to it.
use ndc_mock.Prelude.{
  ℕ, suc, ◌≡◌, ◌≢◌, refl, ap, ◌∙◌, inl, inr, Option, none, some, List, [], ◌∷◌, String, length,
  if◌then◌else◌, ◌==◌, string_eq, Bool-cases, Option-cases, arith,
}
use ndc_mock.Prelude.Int.{ℤ, pos, ◌-ℤ◌, ◌≤ℤ◌, leb_ℤ}
use ndc_mock.Order.{Order}
use ndc_mock.Order.Store.{Entries, Store, new_store, find, put, get, mutate, store_back, reap}
use ndc_mock.Order.Store.Laws.{Enumerates, survivor}
use ndc_mock.Order.Store.Effects.{
  IsFull, get-put_room, put-evicts, get-mutate, mutate_unknown, get-reap,
}
use ndc_mock.Order.Store.Runs.{
  IsValid, Step, put_step, mutate_step, reap_step, Runs, start, next, Step-IsValid, Step-max_len,
}

-- The abstract store: which order is found under an identifier. Neither the order of the entries
-- nor their number is seen.
abbrev pub View : Type 0
View = String → Option Order

unfoldable pub view : Store → View
view s = λ j. get j s

-- No order of a view was created before `e`.
abbrev pub IsOldestIn : View → Order → Type 0
IsOldestIn v e = (j : String) (p : Order) → v j ≡ some p → e.created_at ≤ℤ p.created_at

-- What was asked of the store: an order is put, the order of an identifier is changed by a
-- function, or the orders that have expired at an instant go.
pub data Op : Type 0 where
  puts : Order → Op
  mutates : String → (Order → Order) → Op
  reaps : ℤ → Op

-- What a view has under `j` once `o` is put.
abbrev pub with_order : Order → View → String → Option Order
with_order o v j = if o.id == j then some o else v j

-- What one operation makes of a view, where orders live for `ttl`.
pub data Change (ttl : ℤ) : Op → View → View → Type 0 where
  adds :
      {v v' : View} (o : Order)
      → ((j : String) → v' j ≡ with_order o v j)
      → Change ttl (puts o) v v'
  evicts :
      {v v' : View} (o e : Order) (k : String)
      → v k ≡ some e
      → IsOldestIn v e
      → ((j : String) → v' j ≡ with_order o (λ i. if k == i then none else v i) j)
      → Change ttl (puts o) v v'
  stays :
      {v v' : View} (id : String) (fn : Order → Order)
      → v id ≡ none
      → ((j : String) → v' j ≡ v j)
      → Change ttl (mutates id fn) v v'
  alters :
      {v v' : View} (id : String) (fn : Order → Order) (o : Order)
      → v id ≡ some o
      → ((j : String) → v' j ≡ (if id == j then some (fn o) else v j))
      → Change ttl (mutates id fn) v v'
  expires :
      {v v' : View} (now : ℤ)
      → ((j : String) → v' j ≡ survivor (now -ℤ ttl) (v j))
      → Change ttl (reaps now) v v'

-- The views that come about from the empty one by a list of operations, the last one first.
pub data Reached (ttl : ℤ) : List Op → View → Type 0 where
  nothing : {v : View} → ((j : String) → v j ≡ none) → Reached ttl [] v
  more :
      {ops : List Op} {op : Op} {v v' : View}
      → Reached ttl ops v
      → Change ttl op v v'
      → Reached ttl (op ∷ ops) v'

-- The operations of a run, the last one first.
abbrev pub step_op : {s t : Store} → Step s t → Op
step_op (put_step s visit o once ne) = puts o
step_op (mutate_step s id fn keeps) = mutates id fn
step_op (reap_step s now) = reaps now

abbrev pub run_ops : {s t : Store} → Runs s t → List Op
run_ops start = []
run_ops (next r st) = step_op st ∷ run_ops r

full-ne : (s : Store) (n : ℕ) → s.max_len ≡ pos (suc n) → IsFull s → s.by_id ≢ []
full-ne s n limit full e = absurd (never n (rw (limit, e) at full))
  where
    never : (n : ℕ) → ¬ (pos (suc n) ≤ℤ pos 0)
    never n h = omega (arith, h)

module _ (ttl : ℤ) where
  put-Change :
      (s : Store) (visit : Entries) (o : Order) (n : ℕ)
      → Enumerates visit s.by_id
      → IsValid s
      → s.max_len ≡ pos (suc n)
      → Change ttl (puts o) (view s) (view (put visit o s))
  unfolding view
  put-Change s visit o n once v limit = elim (Bool-cases (leb_ℤ s.max_len (pos (length s.by_id)))) [
    | inl full ↦
        let is_full : IsFull s = ground arith in
        let (k, e, found, least, after) =
          put-evicts visit o s once v.distinct v.named is_full (full-ne s n limit is_full) in
        evicts o e k found least after
    | inr room ↦ adds o (λ j. get-put_room visit o s j (λ full. absurd (ground arith)))
  ]

  mutate-Change :
      (s : Store) (id : String) (fn : Order → Order)
      → Change ttl (mutates id fn) (view s) (view (mutate id fn s).0)
  unfolding view
  mutate-Change s id fn = elim (Option-cases (get id s)) [
    | inl missing ↦ stays id fn missing (λ j. ap (λ r. get j r.0) (mutate_unknown id fn s missing))
    | inr (o, found) ↦ alters id fn o found (λ j. (get-mutate id fn s o j found).1)
  ]

  Step-Change :
      {s t : Store} (n : ℕ)
      → IsValid s
      → s.max_len ≡ pos (suc n)
      → s.ttl ≡ ttl
      → (st : Step s t) → Change ttl (step_op st) (view s) (view t)
  unfolding view
  Step-Change n v limit lives (put_step s visit o once ne) = put-Change s visit o n once v limit
  Step-Change n v limit lives (mutate_step s id fn keeps) = mutate-Change s id fn
  Step-Change n v limit lives (reap_step s now) =
      expires now (λ j. get-reap now s j v.distinct ∙ ap (λ x. survivor (now -ℤ x) (get j s)) lives)

  Step-ttl : {s t : Store} → Step s t → t.ttl ≡ s.ttl
  unfolding put mutate reap store_back
  Step-ttl (put_step s visit o once ne) = refl
  Step-ttl (mutate_step s id fn keeps) = elim (Option-cases (find id s.by_id)) [
    | inl missing ↦ rw (missing, store_back)
    | inr (o, found) ↦ rw (found, store_back)
  ]
  Step-ttl (reap_step s now) = refl

  Runs-Reached :
      {s t : Store} (n : ℕ)
      → IsValid s
      → s.max_len ≡ pos (suc n)
      → s.ttl ≡ ttl
      → Reached ttl [] (view s)
      → (r : Runs s t)
      → Reached ttl (run_ops r) (view t) × IsValid t × (t.max_len ≡ pos (suc n)) × (t.ttl ≡ ttl)
  Runs-Reached n v limit lives empty start = (empty, v, limit, lives)
  Runs-Reached n v limit lives empty (next r st) =
      let (there, w, same, kept) = Runs-Reached n v limit lives empty r in
      (
        more there (Step-Change n w same kept st),
        Step-IsValid st w,
        Step-max_len st ∙ same,
        Step-ttl st ∙ kept,
      )

-- Whatever operations run on a new store with a positive limit, what can be read of it is what its
-- operations, in their order, make of the empty view: one that puts an order stores it, and at most
-- takes away one order that no other is older than; one that changes the order of an identifier
-- replaces exactly that order by the function's result, and does nothing where there is none; one
-- that reaps at an instant takes away the orders created more than the time to live before it; and
-- every other identifier keeps its order.
pub Runs-Refines :
    (ttl : ℤ) (n : ℕ) {t : Store}
    → (r : Runs (new_store ttl (pos (suc n))) t) → Reached ttl (run_ops r) (view t)
unfolding new_store view get find
Runs-Refines ttl n r =
    let (there, _, _, _) =
      Runs-Reached ttl n (record { distinct = tt; named = tt; bounded = omega arith }) refl refl
        (nothing (λ j. refl)) r in
    there
