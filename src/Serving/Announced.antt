-- ===== src/Serving/Announced.antt =====
-- The projection of AirShopping: how many offers it announces, and how many it carries.
use native.Mathlib.Nat.{mod-lt}
use ndc_mock.Prelude.{
  ℕ, zero, suc, ◌+◌, ◌%◌, ◌<◌, ◌≤◌, ◌≡◌, ◌≢◌, refl, ap, true, Option, none, some, List, [], ◌∷◌,
  map, String, length, get_elem?, arith, if◌then◌else◌, ◌==◌, string_eq, inl, inr, Bool-cases, leb,
}
use ndc_mock.Prelude.Int.{ℤ, pos, negsuc}
use ndc_mock.Prelude.Text.{itoa}
use ndc_mock.Query.{Query}
use ndc_mock.Offer.{OfferInfo}
use ndc_mock.Offer.Ident.{OfferId}
use ndc_mock.Airline.{Floats, Airline}
use ndc_mock.Http.{
  Request, Response, json, wants_json, Json, array, object, Items, no_items, item, Fields,
  no_fields, field,
}
use ndc_mock.Build.{offer_json}
use ndc_mock.Handlers.Answers.{Env}
use ndc_mock.Template.Build.{Template}
use ndc_mock.Template.Render.{natural_offers, or_natural}
use ndc_mock.Serving.{
  Shop, optional, offer_items, shop_offer, shop_offers, make_offers, shopping_json, headers_for,
  answer, shop_with,
}
use ndc_mock.Translate.Mapping.{lookup}

get_elem-found :
    {A : Type 0} (l : List A) (i : ℕ) → i < length l → (a : A) × (get_elem? l i ≡ some a)
get_elem-found [] i h = absurd (omega (arith, h))
get_elem-found (a ∷ l) zero h = (a, refl)
get_elem-found (a ∷ l) (suc i) h = get_elem-found l i (omega (arith, h))

length-ne : {A : Type 0} (l : List A) → l ≢ [] → zero < length l
length-ne [] ne = absurd (ne refl)
length-ne (a ∷ l) ne = omega arith

module _ {F : Floats} (E : Env F) (q : Query) (air : Option (Airline F)) (os : List OfferId) where
  -- Offer `j` of a list that begins with number `k` is made of the identifier of that number.
  abbrev pub InTurn : ℕ → List (String × OfferInfo) → Type 0
  InTurn k offs =
      (j : ℕ)
      → j < length offs
      → (o : OfferId) × (get_elem? os ((k + j) % length os) ≡ some o)
        × (get_elem? offs j ≡ some (shop_offer E q air o))

  InTurn-cons :
      (k : ℕ) (o : OfferId) (offs : List (String × OfferInfo))
      → get_elem? os (k % length os) ≡ some o
      → InTurn (suc k) offs
      → InTurn k (shop_offer E q air o ∷ offs)
  InTurn-cons k o offs found turns zero h =
      let same : k + zero ≡ k = omega arith in (o, rw same found, refl)
  InTurn-cons k o offs found turns (suc j) h =
      let same : k + suc j ≡ suc k + j = omega arith in
      let (p, there, made) = turns j (omega (arith, h)) in (p, rw same there, made)

  module _ (ne : os ≢ []) where
    shop_offers-found :
        (k m : ℕ)
        → (offs : List (String × OfferInfo)) × (shop_offers E q air os k m ≡ some offs)
          × (length offs ≡ m)
          × InTurn k offs
    unfolding shop_offers
    shop_offers-found k zero = ([], refl, refl, λ j h. absurd (omega (arith, h)))
    shop_offers-found k (suc m) =
        let (o, found) = get_elem-found os (k % length os) (mod-lt k (length-ne os ne)) in
        let (rest, later, len, turns) = shop_offers-found (suc k) m in
        (
          shop_offer E q air o ∷ rest,
          rw (found, later) refl,
          ap suc len,
          InTurn-cons k o rest found turns,
        )

-- How many offers are announced: as many as are asked for, or as many as the reference has blocks
-- where no positive number is.
unfoldable pub announced : ℤ → Template → ℕ
announced (pos zero) t = length t.blocks
announced (pos (suc m)) t = suc m
announced (negsuc m) t = length t.blocks

or_natural-announced : (n : ℤ) (t : Template) → or_natural n t ≡ announced n t
unfolding or_natural natural_offers announced
or_natural-announced (pos zero) t = refl
or_natural-announced (pos (suc m)) t = refl
or_natural-announced (negsuc m) t = refl

-- A reader of documents: the value of a field, and the identifiers of a list of offers.
unfoldable pub value_of : String → Fields → Option Json
value_of k no_fields = none
value_of k (field j v fs) = if j == k then some v else value_of k fs

unfoldable pub member : String → Json → Option Json
unfolding value_of
member k (object fs) = value_of k fs
member k _ = none

unfoldable pub ids_in : Items → List (Option Json)
unfolding member
ids_in no_items = []
ids_in (item v vs) = member "offerId" v ∷ ids_in vs

unfoldable pub offer_ids : Option Json → List (Option Json)
unfolding ids_in
offer_ids (some (array vs)) = ids_in vs
offer_ids _ = []

-- A response to a request for the projection that announces `offs`: its header and its count give
-- their number, its list has their identifiers in order, and each is made of an identifier of the
-- reference in turn.
pub record IsAnnounced {F : Floats} (E : Env F) (q : Query) (t : Template)
    (air : Option (Airline F)) (res : Response) (offs : List (String × OfferInfo)) : Type 0 where
  pub status : res.status ≡ 200
  pub doc : Json
  pub content : res.content ≡ json doc
  pub header : lookup res.headers "X-Mock-Offers" ≡ some (itoa (length offs))
  pub count : member "offerCount" doc ≡ some (Json.nat (length offs))
  pub listed : offer_ids (member "offers" doc) ≡ map (λ o. some (Json.text o.0)) offs
  pub turns : InTurn E q air t.offers 0 offs

ids_in-offer_items :
    (offs : List (String × OfferInfo))
    → ids_in (offer_items offs) ≡ map (λ o. some (Json.text o.0)) offs
unfolding ids_in offer_items member value_of offer_json
ids_in-offer_items [] = refl
ids_in-offer_items ((id, i) ∷ offs) = ap (λ l. some (Json.text id) ∷ l) (ids_in-offer_items offs)

module _ {F : Floats} (E : Env F) (t : Template) (q : Query) (count : ℕ)
    (offs : List (String × OfferInfo)) where
  member-shopping_json :
      (member "offerCount" (shopping_json E t q count offs) ≡ some (Json.nat count))
      × (member "offers" (shopping_json E t q count offs) ≡ some (array (offer_items offs)))
  unfolding member value_of shopping_json optional
  member-shopping_json = elim (Bool-cases (q.ret_date == "")) [
    | inl one_way ↦ rw (shopping_json, one_way) (refl, refl)
    | inr back ↦ rw (shopping_json, back) (refl, refl)
  ]

-- A request for the projection is answered, from any reference that has an identifier and for a
-- number of offers that `make` accepts: the header, the count and the list of offers agree, their
-- number is the number that was asked for, or that of the reference's blocks where none was, and
-- the identifiers of the reference are taken in turn.
pub shop_with-IsAnnounced :
    {F : Floats} (E : Env F) (S : Shop) (r : Request) (seg : String) (q : Query) (t : Template)
    (air : Option (Airline F)) (n d : ℤ)
    → wants_json E.lower r ≡ true
    → t.offers ≢ []
    → announced n t ≤ E.offers_cap
    → (res : Response) × (offs : List (String × OfferInfo)) × (shop_with E S r seg q t air n d
        ≡ some res)
      × (length offs ≡ announced n t)
      × IsAnnounced E q t air res offs
unfolding shop_with make_offers answer headers_for lookup offer_ids
shop_with-IsAnnounced E S r seg q t air n d j ne fits =
    let (offs, found, len, turns) = shop_offers-found E q air t.offers ne 0 (announced n t) in
    let doc = shopping_json E t q (announced n t) offs in
    let (count, offers) = member-shopping_json E t q (announced n t) offs in
    let accepted : leb (announced n t) E.offers_cap ≡ true = ground arith in
    let same = or_natural-announced n t in
    (
      answer E S seg t air n d (json doc),
      offs,
      rw (j, same, accepted, found) refl,
      len,
      record {
        status = refl;
        doc = doc;
        content = refl;
        header = rw (same, len) refl;
        count = rw len count;
        listed = rw offers (ids_in-offer_items offs);
        turns = turns;
      },
    )
