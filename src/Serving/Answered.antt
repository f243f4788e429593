-- ===== src/Serving/Answered.antt =====
-- A server that has started answers (edge/main.go): what was loaded is enough for the projection.
use ndc_mock.Prelude.{
  ℕ, zero, suc, ◌≤◌, arith, length, ◌≡◌, refl, ◌⊎◌, Bool, true, false, Option, none, some, List,
  String, ◌<>◌, inl, inr, if◌then◌else◌, ◌!=◌, string_eq, Bool-cases, Yields, Yields-some,
}
use ndc_mock.Prelude.Int.{ℤ, pos, negsuc, ◌≤ℤ◌, ◌<ℤ◌}
use ndc_mock.Tree.Parse.{RawToken}
use ndc_mock.Itinerary.{pattern_of, multi_city}
use ndc_mock.Config.{resolve_bounded}
use ndc_mock.Config.Bounds.{clamp_offers-le}
use ndc_mock.Query.{Query, Parsed, refused, parsed, parse_query}
use ndc_mock.Translate.Mapping.{Map, lookup, MappingSet}
use ndc_mock.Airline.{Floats, Airline}
use ndc_mock.Http.{Token, Request, Response, wants_json, fault, lang_of, version_of}
use ndc_mock.Handlers.Answers.{Env}
use ndc_mock.Template.Build.{Template}
use ndc_mock.Template.Build.Servable.{IsServable}
use ndc_mock.Template.Load.{Files, Served, load_templates}
use ndc_mock.Template.Load.Servable.{AllServable, lookup-IsServable, load_templates-AllServable}
use ndc_mock.Prelude.Text.{join}
use ndc_mock.Offer.Info.{or_default}
use ndc_mock.Serving.{
  Shop, mc_shapes, first_of, pick, carrier_for, bounds_for, shop_with, shop_picked, shop_parsed,
  shop_body, airshopping,
}
use ndc_mock.Serving.Announced.{announced, shop_with-IsAnnounced}

module _ (P : Template → Type 0) where
  first_of-Yields : (t u : Option Template) → Yields P t → Yields P u → Yields P (first_of t u)
  unfolding first_of
  first_of-Yields (some t) u ht hu = ht
  first_of-Yields none u ht hu = hu

  back-Yields :
      (ts : Map Template) (seg : String) (b : Bool)
      → ((k : String) → Yields P (lookup ts k))
      → Yields P (if b then lookup ts (seg <> "|rt") else none)
  back-Yields ts seg true hs = hs (seg <> "|rt")
  back-Yields ts seg false hs = tt

  -- What every reference has, the one that is picked has.
  pick-Yields :
      (ts : Map Template) (seg : String) (q : Query)
      → ((k : String) → Yields P (lookup ts k))
      → Yields P (pick ts seg q)
  unfolding pick
  pick-Yields ts seg q hs = elim (Bool-cases (multi_city q.legs)) [
    | inl e ↦ rw (pick, e) (hs (seg <> ("|mc:" <> pattern_of q.legs)))
    | inr e ↦
        rw (pick, e)
          (first_of-Yields (if q.ret_date != "" then lookup ts (seg <> "|rt") else none)
            (first_of (lookup ts (seg <> ("|ow:" <> q.lang))) (lookup ts (seg <> "|ow:default")))
            (back-Yields ts seg (q.ret_date != "") hs)
            (first_of-Yields (lookup ts (seg <> ("|ow:" <> q.lang)))
              (lookup ts (seg <> "|ow:default")) (hs (seg <> ("|ow:" <> q.lang)))
              (hs (seg <> "|ow:default"))))
  ]

-- A reference whose offers can be served, where `make` accepts `most` of them.
abbrev Fits : ℕ → Template → Type 0
Fits most t = IsServable t × (length t.blocks ≤ most)

Yields-both :
    (most : ℕ) (o : Option Template)
    → Yields IsServable o
    → ((t : Template) → o ≡ some t → length t.blocks ≤ most)
    → Yields (Fits most) o
Yields-both most none h small = tt
Yields-both most (some t) h small = (h, small t refl)

-- A count within a positive ceiling that `make` accepts.
announced-le :
    (n max : ℤ) (t : Template) (most : ℕ)
    → n ≤ℤ max
    → max ≤ℤ pos most
    → length t.blocks ≤ most
    → announced n t ≤ most
unfolding announced
announced-le (pos zero) max t most le fits small = small
announced-le (pos (suc n)) max t most le fits small = omega (arith, le, fits)
announced-le (negsuc n) max t most le fits small = small

-- A response of one of the three kinds of AirShopping: an answer, a request that is refused, or one
-- that no reference serves.
abbrev pub IsAnswer : Response → Type 0
IsAnswer res = (res.status ≡ 200) ⊎ (res.status ≡ 400) ⊎ (res.status ≡ 501)

-- The response, which is one of the three.
abbrev pub Answers : Option Response → Type 0
Answers o = (res : Response) × (o ≡ some res) × IsAnswer res

module _ {F : Floats} (E : Env F) (S : Shop) (r : Request) (j : wants_json E.lower r ≡ true) where
  fault-Answers : (msg : String) → Answers (some (fault E.lower 501 msg))
  unfolding fault
  fault-Answers msg = (fault E.lower 501 msg, refl, inr (inr refl))

  refused-Answers : (msg : String) → Answers (some (fault E.lower 400 msg))
  unfolding fault
  refused-Answers msg = (fault E.lower 400 msg, refl, inr (inl refl))

  with-Answers :
      (seg : String) (q : Query) (t : Template) (air : Option (Airline F)) (n d : ℤ)
      → IsServable t
      → announced n t ≤ E.offers_cap
      → Answers (shop_with E S r seg q t air n d)
  with-Answers seg q t air n d h fits =
      let (res, _, served, _, k) = shop_with-IsAnnounced E S r seg q t air n d j h.offers fits in
      (res, served, inl k.status)

  bounds_for-le : (q : Query) → pos 0 <ℤ E.max_offers → (bounds_for E S r q).0 ≤ℤ E.max_offers
  unfolding bounds_for resolve_bounded
  bounds_for-le q h = clamp_offers-le _ E.max_offers h

  picked-Answers :
      (seg : String) (q : Query) (t : Option Template)
      → pos 0 <ℤ E.max_offers
      → E.max_offers ≤ℤ pos E.offers_cap
      → Yields (Fits E.offers_cap) t
      → Answers (shop_picked E S r seg q t)
  unfolding shop_picked
  picked-Answers seg q none limited accepted h = elim (Bool-cases (multi_city q.legs)) [
    | inl e ↦
        rw (shop_picked, e)
          (fault-Answers (
            "no multi-city reference of this itinerary's shape is loaded: shape "
            <> (pattern_of q.legs
                <> (", loaded " <> or_default (join " " (mc_shapes seg S.templates)) "none"))))
    | inr e ↦
        rw (shop_picked, e)
          (fault-Answers (
            "no reference response for version "
            <> (seg <> " and no translation mapping to reach it")))
  ]
  picked-Answers seg q (some t) limited accepted (h, small) =
      let (n, d) = bounds_for E S r q in
      with-Answers seg q t (carrier_for E S r q) n d h
        (announced-le n E.max_offers t E.offers_cap (bounds_for-le q limited) accepted small)

  airshopping-body : airshopping E S r ≡ shop_body E S r r.body
  unfolding airshopping
  airshopping-body = refl

  module _ (limited : pos 0 <ℤ E.max_offers) (accepted : E.max_offers ≤ℤ pos E.offers_cap)
      (hs : (k : String) → Yields (Fits E.offers_cap) (lookup S.templates k)) where
    parsed-Answers : (p : Parsed) → Answers (shop_parsed E S r p)
    unfolding shop_parsed
    parsed-Answers (refused why) = refused-Answers why
    parsed-Answers (parsed q) =
        let p : Query = record q { lang = lang_of E.lower S.lang_header r } in
        picked-Answers (version_of r.path) p (pick S.templates (version_of r.path) p) limited
          accepted (pick-Yields (Fits E.offers_cap) S.templates (version_of r.path) p hs)

    body-Answers : (body : Option (List Token)) → Answers (shop_body E S r body)
    unfolding shop_body
    body-Answers none = refused-Answers "could not read request body"
    body-Answers (some body) = parsed-Answers (parse_query E.upper (S.unmarshal body))

-- A server whose references were loaded without a panic answers every AirShopping request that asks
-- for the projection, whatever its body: with offers, with a refusal or with the fault for what no
-- reference serves. No request makes it panic, where the ceiling on offers is positive and `make`
-- accepts as many offers as the ceiling and as the blocks of each reference.
pub airshopping-Answers :
    {F : Floats} (E : Env F) (S : Shop) (r : Request) (fs : Files)
    (tokens_of : String → List RawToken × Bool) (escape_text : String → String) (ms : MappingSet)
    (stubs flat : String) (vs : List Served)
    → load_templates fs E.b64 S.parse S.replace tokens_of escape_text E.lower E.upper ms stubs flat
        vs
      ≡ some (some S.templates)
    → wants_json E.lower r ≡ true
    → pos 0 <ℤ E.max_offers
    → E.max_offers ≤ℤ pos E.offers_cap
    → ((k : String) (t : Template) → lookup S.templates k ≡ some t → length t.blocks ≤ E.offers_cap)
    → Answers (airshopping E S r)
airshopping-Answers E S r fs tokens_of escape_text ms stubs flat vs loaded j limited accepted
      small =
    let hs : AllServable S.templates =
      Yields-some (Yields AllServable)
        (load_templates fs E.b64 S.parse S.replace tokens_of escape_text E.lower E.upper ms stubs
          flat vs)
        (some S.templates)
        (load_templates-AllServable fs E.b64 S.parse S.replace tokens_of escape_text E.lower E.upper
          ms stubs flat vs)
        loaded in
    let fit : (k : String) → Yields (Fits E.offers_cap) (lookup S.templates k) = λ k.
      Yields-both E.offers_cap (lookup S.templates k) (lookup-IsServable S.templates k hs)
        (small k) in
    rw (airshopping-body E S r j) (body-Answers E S r j limited accepted fit r.body)
