-- ===== src/Handlers/Orders/Serving.antt =====
-- A replica at work: any sequence of order messages and ticks of the reaper.
use ndc_mock.Prelude.{
  ℕ, suc, ◌≤◌, ◌≡◌, refl, ◌⊎◌, inl, inr, ◌&&◌, Option, none, some, List, length, ◌==◌, string_eq,
  Bool-cases,
}
use ndc_mock.Prelude.Int.{ℤ, pos}
use ndc_mock.Airline.{Floats}
use ndc_mock.Order.{Order, cancel, change}
use ndc_mock.Order.Store.{Entries, Store, new_store, reap}
use ndc_mock.Order.Store.Laws.{NodupKeys, Enumerates, Named}
use ndc_mock.Order.Store.Runs.{
  Step, put_step, mutate_step, reap_step, Runs, start, next, Runs-bounded,
}
use ndc_mock.Http.{Token, Request}
use ndc_mock.Handlers.Ids.{Drawn, scan_ids, new_order_id_ne}
use ndc_mock.Handlers.Answers.{Env, info_from}
use ndc_mock.Handlers.Orders.{
  access, wanted, lookup, order_of, create_in, order_create, order_retrieve, order_cancel,
  order_change, order_reshop, view, cancelled,
}
use ndc_mock.Handlers.Orders.Effects.{lookup-store, with_found-store, reading_keeps}

-- One event: a request for one of the order messages, or a tick of the reaper.
pub data Event {F : Floats} (E : Env F) : Store → Store → Type 0 where
  created :
      (s : Store) (visit : Entries) (now : ℤ) (d : Drawn) (r : Request)
      → Enumerates visit s.by_id
      → Event E s (order_create E visit now d r s).0
  retrieved : (s : Store) (r : Request) → Event E s (order_retrieve E r s).0
  cancelled_event : (s : Store) (r : Request) → Event E s (order_cancel E r s).0
  changed : (s : Store) (r : Request) → Event E s (order_change E r s).0
  reshopped_event : (s : Store) (r : Request) → Event E s (order_reshop E r s).0
  reaped : (s : Store) (now : ℤ) → Event E s (reap now s)

pub data Serves {F : Floats} (E : Env F) (s : Store) : Store → Type 0 where
  opened : Serves E s s
  served : {t u : Store} → Serves E s t → Event E t u → Serves E s u

-- A store that is the same, or one step on.
abbrev AtMostStep : Store → Store → Type 0
AtMostStep s t = (t ≡ s) ⊎ Step s t

Runs-AtMostStep : {u s t : Store} → Runs u s → AtMostStep s t → Runs u t
Runs-AtMostStep r (inl same) = rw same r
Runs-AtMostStep r (inr st) = next r st

module _ {F : Floats} (E : Env F) where
  lookup-AtMostStep :
      (r : Request) (fn : Order → Order) (s : Store)
      → ((o : Order) → (fn o).id ≡ o.id)
      → AtMostStep s (lookup E r (some fn) s).0
  unfolding access
  lookup-AtMostStep r fn s keeps = elim (lookup-store E r (some fn) s) [
    | inl same ↦ inl same
    | inr (body, read, moved) ↦ inr (rw moved (mutate_step s (wanted E r body) fn keeps))
  ]

  create-AtMostStep :
      (visit : Entries) (now : ℤ) (d : Drawn) (r : Request) (s : Store) (body : Option (List Token))
      → Enumerates visit s.by_id
      → AtMostStep s (create_in E visit now d r s body).0
  unfolding create_in order_of
  create-AtMostStep visit now d r s none n = inl refl
  create-AtMostStep visit now d r s (some body) n =
      elim (Bool-cases ((scan_ids body).offer_id == "" && (scan_ids body).offer_item_id == "")) [
        | inl no_offer ↦ inl (rw no_offer)
        | inr offered ↦ inr (
            rw offered (
              put_step s visit (order_of E now d (info_from E r (scan_ids body))) n
                (new_order_id_ne E.url64 E.advertise d _)))
      ]

  Event-AtMostStep : {s t : Store} → Event E s t → AtMostStep s t
  unfolding order_create order_cancel order_change cancel change
  Event-AtMostStep (created s visit now d r n) = create-AtMostStep visit now d r s r.body n
  Event-AtMostStep (retrieved s r) = inl (reading_keeps E r s).0
  Event-AtMostStep (cancelled_event s r) =
      rw (with_found-store E (cancelled E r) (lookup E r (some cancel) s))
        (lookup-AtMostStep r cancel s (λ o. refl))
  Event-AtMostStep (changed s r) =
      rw (with_found-store E (view E r) (lookup E r (some change) s))
        (lookup-AtMostStep r change s (λ o. refl))
  Event-AtMostStep (reshopped_event s r) = inl (reading_keeps E r s).1
  Event-AtMostStep (reaped s now) = inr (reap_step s now)

  Serves-Runs : {s t : Store} → Serves E s t → Runs s t
  Serves-Runs opened = start
  Serves-Runs (served r e) = Runs-AtMostStep (Serves-Runs r) (Event-AtMostStep e)

  -- Whatever order messages a replica with a positive limit receives from its start on, in any
  -- order and with the reaper between them, its store never holds more orders than the limit, no
  -- identifier twice, and each order under its own identifier.
  pub Serves-bounded :
      (ttl : ℤ) (n : ℕ) {t : Store}
      → Serves E (new_store ttl (pos (suc n))) t
      → (length t.by_id ≤ suc n) × NodupKeys t.by_id × Named t.by_id
  Serves-bounded ttl n day = Runs-bounded ttl n (Serves-Runs day)
