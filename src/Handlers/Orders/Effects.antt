-- ===== src/Handlers/Orders/Effects.antt =====
-- What the order messages do to the store, and how they answer.
use ndc_mock.Prelude.{
  ℕ, ◌≡◌, ◌≢◌, refl, ap, ◌∙◌, ◌⊎◌, inl, inr, false, ◌&&◌, Option, none, some, List, [], ◌∷◌, ◌++◌,
  String, if◌then◌else◌, ◌==◌, string_eq, Bool-cases, Option-cases, arith, eq_iff, str_eq-cases,
  str_eq_ne,
}
use ndc_mock.Prelude.Int.{ℤ}
use ndc_mock.Airline.{Floats, Airline}
use ndc_mock.Offer.{OfferInfo}
use ndc_mock.Offer.Ident.{describe}
use ndc_mock.Order.{Order, cancel, change}
use ndc_mock.Order.Store.{Entries, Store, get, mutate}
use ndc_mock.Order.Store.Effects.{get-mutate, mutate_unknown, get-put_self}
use ndc_mock.Http.{Token, Request, Response, wants_json, failure, fault}
use ndc_mock.Handlers.Ids.{ReqIds, Drawn, scan_ids, owner_of}
use ndc_mock.Handlers.Answers.{Env, as_carrier, info_from}
use ndc_mock.Handlers.Orders.{
  Found, here, done, goes_on, elsewhere, outcome, wanted, access, lookup_in, lookup, order_of,
  create_in, order_create, with_found, order_retrieve, order_cancel, order_change, order_reshop,
  view, cancelled, reshopped,
}

failure-status :
    (lower : String → String) (r : Request) (code : ℕ) (msg : String)
    → (failure lower r code msg).status ≡ code
unfolding failure fault
failure-status lower r code msg = elim (Bool-cases (wants_json lower r)) [
  | inl as_json ↦ rw as_json
  | inr as_xml ↦ rw as_xml
]

module _ {F : Floats} (E : Env F) where
  -- `lookup` when the body names an order.
  lookup-named :
      (r : Request) (fn : Option (Order → Order)) (s : Store) (body : List Token)
      → r.body ≡ some body
      → wanted E r body ≢ ""
      → lookup E r fn s ≡ outcome E r (wanted E r body) (access E fn (wanted E r body) s)
  unfolding lookup lookup_in
  lookup-named r fn s body read ne =
      ap (lookup_in E r fn s) read ∙ rw (str_eq_ne (wanted E r body) "" ne)

  -- `lookup` of an order that is here, with a change, and of one that is not.
  lookup-found :
      (r : Request) (fn : Order → Order) (s : Store) (body : List Token) (o : Order)
      → r.body ≡ some body
      → wanted E r body ≢ ""
      → get (wanted E r body) s ≡ some o
      → lookup E r (some fn) s ≡ ((mutate (wanted E r body) fn s).0, here (fn o))
  unfolding outcome access
  lookup-found r fn s body o read ne found =
      lookup-named r (some fn) s body read ne
      ∙ ap (λ x. outcome E r (wanted E r body) ((mutate (wanted E r body) fn s).0, x))
          (get-mutate (wanted E r body) fn s o "" found).0

  access-missing :
      (fn : Option (Order → Order)) (id : String) (s : Store)
      → get id s ≡ none
      → access E fn id s ≡ (s, none)
  unfolding access
  access-missing none id s missing = ap (λ x. (s, x)) missing
  access-missing (some fn) id s missing = mutate_unknown id fn s missing

  lookup-missing :
      (r : Request) (fn : Option (Order → Order)) (s : Store) (body : List Token)
      → r.body ≡ some body
      → wanted E r body ≢ ""
      → get (wanted E r body) s ≡ none
      → lookup E r fn s ≡ (s, done (elsewhere E r (wanted E r body)))
  unfolding outcome
  lookup-missing r fn s body read ne missing =
      lookup-named r fn s body read ne
      ∙ ap (outcome E r (wanted E r body)) (access-missing fn (wanted E r body) s missing)

  with_lookup-missing :
      (k : Order → Option Response) (r : Request) (fn : Option (Order → Order)) (s : Store)
      (body : List Token)
      → r.body ≡ some body
      → wanted E r body ≢ ""
      → get (wanted E r body) s ≡ none
      → with_found E k (lookup E r fn s) ≡ (s, some (elsewhere E r (wanted E r body)))
  unfolding with_found
  with_lookup-missing k r fn s body read ne missing =
      ap (with_found E k) (lookup-missing r fn s body read ne missing)

  pub elsewhere-status :
      (r : Request) (id : String)
      → goes_on E r (owner_of E.from_url64 id) ≡ false
      → (elsewhere E r id).status ≡ 404
  unfolding elsewhere
  elsewhere-status r id stays = rw stays (failure-status E.lower r 404 _)

  -- An order that is cancelled through a request has the status "Cancelled" in the store and that
  -- entry at the end of its history, one that is changed has "Changed" there, and nothing else of it
  -- and no other order changes.
  pub get-order_cancel :
      (r : Request) (s : Store) (body : List Token) (o : Order) (j : String)
      → r.body ≡ some body
      → wanted E r body ≢ ""
      → get (wanted E r body) s ≡ some o
      → let off : Order = record o {
        status = "Cancelled";
        history = o.history ++ ("Cancelled" ∷ []);
      } in
        let new : Order = record o {
          status = "Changed";
          history = o.history ++ ("Changed" ∷ []);
        } in
        (get j (order_cancel E r s).0 ≡ (if wanted E r body == j then some off else get j s))
        × (get j (order_change E r s).0 ≡ (if wanted E r body == j then some new else get j s))
  unfolding order_cancel order_change outcome access with_found cancel change
  get-order_cancel r s body o j read ne found =
      let id = wanted E r body in
      (
        ap (λ x. get j (with_found E (cancelled E r) x).0)
              (lookup-found r cancel s body o read ne found)
            ∙ (get-mutate id cancel s o j found).1,
        ap (λ x. get j (with_found E (view E r) x).0) (lookup-found r change s body o read ne found)
            ∙ (get-mutate id change s o j found).1,
      )

  -- An unknown order that is not asked of another replica is answered with 404 by every order
  -- message but create, and the store stays as it is.
  pub unknown_order :
      (r : Request) (s : Store) (body : List Token)
      → r.body ≡ some body
      → wanted E r body ≢ ""
      → get (wanted E r body) s ≡ none
      → goes_on E r (owner_of E.from_url64 (wanted E r body)) ≡ false
      → (rs : Response) × (rs.status ≡ 404)
        × (order_retrieve E r s ≡ (s, some rs))
        × (order_cancel E r s ≡ (s, some rs))
        × (order_change E r s ≡ (s, some rs))
        × (order_reshop E r s ≡ (s, some rs))
  unfolding order_retrieve order_cancel order_change order_reshop outcome access with_found
  unknown_order r s body read ne missing stays = (
    elsewhere E r (wanted E r body),
    elsewhere-status r (wanted E r body) stays,
    with_lookup-missing (view E r) r none s body read ne missing,
    with_lookup-missing (cancelled E r) r (some cancel) s body read ne missing,
    with_lookup-missing (view E r) r (some change) s body read ne missing,
    with_lookup-missing (reshopped E r) r none s body read ne missing,
  )

  outcome-store :
      (r : Request) (id : String) (x : Store × Option Order) → (outcome E r id x).0 ≡ x.0
  unfolding outcome
  outcome-store r id (s, some o) = refl
  outcome-store r id (s, none) = refl

  -- `lookup` changes the store only through its function.
  pub lookup-store :
      (r : Request) (fn : Option (Order → Order)) (s : Store)
      → ((lookup E r fn s).0 ≡ s)
        ⊎ ((body : List Token) × (r.body ≡ some body)
            × ((lookup E r fn s).0 ≡ (access E fn (wanted E r body) s).0))
  unfolding lookup lookup_in
  lookup-store r fn s = elim (Option-cases r.body) [
    | inl unread ↦ inl (ap (λ b. (lookup_in E r fn s b).0) unread)
    | inr (body, read) ↦ elim (str_eq-cases (wanted E r body) "") [
      | inl (blank, _) ↦ inl (ap (λ b. (lookup_in E r fn s b).0) read ∙ rw blank)
      | inr (named, ne) ↦ inr (
        body,
        read,
        ap (λ x. x.0) (lookup-named r fn s body read ne) ∙ outcome-store r (wanted E r body) _,
      )
    ]
  ]

  pub with_found-store :
      (k : Order → Option Response) (x : Store × Found) → (with_found E k x).0 ≡ x.0
  unfolding with_found
  with_found-store k (s, here o) = refl
  with_found-store k (s, done rs) = refl

  lookup-reads : (r : Request) (s : Store) → (lookup E r none s).0 ≡ s
  unfolding access
  lookup-reads r s = elim (lookup-store r none s) [
    | inl same ↦ same
    | inr (body, read, same) ↦ same
  ]

  -- Retrieving and reshopping leave the store as it is, whatever the request.
  pub reading_keeps :
      (r : Request) (s : Store) → ((order_retrieve E r s).0 ≡ s) × ((order_reshop E r s).0 ≡ s)
  unfolding order_retrieve order_reshop
  reading_keeps r s = (
    with_found-store (view E r) (lookup E r none s) ∙ lookup-reads r s,
    with_found-store (reshopped E r) (lookup E r none s) ∙ lookup-reads r s,
  )

  as_carrier-legs : (i : OfferInfo) (a : Option (Airline F)) → (as_carrier E i a).legs ≡ i.legs
  unfolding as_carrier
  as_carrier-legs i none = refl
  as_carrier-legs i (some a) = refl

  info_from-legs :
      (r : Request) (ids : ReqIds)
      → let offered = if ids.offer_item_id == "" then ids.offer_id else ids.offer_item_id in
        (info_from E r ids).legs ≡ (describe E.b64 offered).legs
  unfolding info_from
  info_from-legs r ids = as_carrier-legs _ _

  -- An order that is created for an offer is in the store under its identifier: it is opened at the
  -- instant of the request, with a history of one entry, without ancillaries or seats, with the trip
  -- of the request, and with the legs that the identifier of the item, or else of the offer, tells.
  pub get-order_create :
      (visit : Entries) (now : ℤ) (d : Drawn) (r : Request) (s : Store) (body : List Token)
      → r.body ≡ some body
      → ((scan_ids body).offer_id ≢ "") ⊎ ((scan_ids body).offer_item_id ≢ "")
      → let ids = scan_ids body in
        let offered = if ids.offer_item_id == "" then ids.offer_id else ids.offer_item_id in
        (o : Order) × (get o.id (order_create E visit now d r s).0 ≡ some o)
        × (o.status ≡ "Opened")
        × (o.history ≡ "Created" ∷ [])
        × (o.created_at ≡ now)
        × (o.services ≡ [])
        × (o.seats ≡ [])
        × (o.info ≡ info_from E r ids)
        × (o.info.legs ≡ (describe E.b64 offered).legs)
  unfolding order_create create_in order_of
  get-order_create visit now d r s body read offered =
      let o = order_of E now d (info_from E r (scan_ids body)) in
      let some_offer : ((scan_ids body).offer_id == "" && (scan_ids body).offer_item_id == "")
          ≡ false =
        ground (
          arith,
          eq_iff ((scan_ids body).offer_id) "",
          eq_iff ((scan_ids body).offer_item_id) "",
        ) in
      (
        o,
        ap (λ b. get o.id (create_in E visit now d r s b).0) read
            ∙ rw some_offer (get-put_self visit o s),
        refl,
        refl,
        refl,
        refl,
        refl,
        refl,
        info_from-legs r (scan_ids body),
      )
