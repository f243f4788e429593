-- ===== src/Offer/Ident/Texts.antt =====
-- The texts that `describe` (edge/offerinfo.go) reads and `reencode` (edge/offerid.go) writes:
-- trips, fares and passenger counts.
use ndc_mock.Prelude.{
  ℕ, ◌≡◌, ◌≢◌, refl, ap, ◌∙◌, sym, Bool, true, false, none, some, List, [], ◌∷◌, map, String, ◌<>◌,
  if◌then◌else◌, ◌==◌, nat_eq, string_eq, All, <>_nil, arith,
}
use ndc_mock.Prelude.Text.{cut_prefix, exactly, split, join, replace_first}
use ndc_mock.Prelude.Decimal.{is_digit}
use ndc_mock.Prelude.Numerals.{AllPass, AllPass-<>}
use ndc_mock.Prelude.Splits.{
  other_than, AllPass-weaken, split-whole, split-sep, split-join, Passes, exactly-<>,
  Passes-AllPass, cut_prefix-<>,
}
use ndc_mock.Itinerary.{Leg}
use ndc_mock.Offer.Ident.{
  is_upper, is_leg, all_legs, first_trip, find_trip, leg_of_fields, legs_of_parts, parse_legs,
  trip_of,
}

-- A leg as a trip's text has it: two airports of three capital letters and a date of digits.
pub data IsLeg : Leg → Type 0 where
  is_leg_of :
      (from to y m d : String)
      → Passes is_upper 3 from
      → Passes is_upper 3 to
      → Passes is_digit 4 y
      → Passes is_digit 2 m
      → Passes is_digit 2 d
      → IsLeg (record { from = from; to = to; date = y <> ("-" <> (m <> ("-" <> d))) })

-- An itinerary of one such leg or more.
pub data IsTrip : List Leg → Type 0 where
  is_trip : (l : Leg) (ls : List Leg) → All IsLeg (l ∷ ls) → IsTrip (l ∷ ls)

abbrev pub leg_text : Leg → String
leg_text l = l.from <> ("," <> (l.to <> ("," <> l.date)))

exactly-whole : (p : ℕ → Bool) {n : ℕ} {s : String} → Passes p n s → exactly p n s ≡ some (s, "")
exactly-whole p {s = s} h = ap (exactly p _) (sym (<>_nil s)) ∙ exactly-<> p "" h

is_leg-leg_text : (l : Leg) → IsLeg l → is_leg (leg_text l) ≡ true
unfolding is_leg
is_leg-leg_text _ (is_leg_of from to y m d hf ht hy hm hd) =
    rw
      (
        exactly-<> is_upper ("," <> (to <> ("," <> (y <> ("-" <> (m <> ("-" <> d))))))) hf,
        exactly-<> is_upper ("," <> (y <> ("-" <> (m <> ("-" <> d))))) ht,
        exactly-<> is_digit ("-" <> (m <> ("-" <> d))) hy,
        exactly-<> is_digit ("-" <> d) hm,
        exactly-whole is_digit hd,
      )
      refl

-- The separators of an identifier: none is a digit or a capital letter.
abbrev pub is_sep : ℕ → Bool
is_sep c = if c == b'|' then true else if c == b'.' then true else c == b','

upper_other : (c x : ℕ) → is_sep c ≡ true → is_upper x ≡ true → other_than c x ≡ true
upper_other c x h k = ground arith

digit_other : (c x : ℕ) → is_sep c ≡ true → is_digit x ≡ true → other_than c x ≡ true
digit_other c x h k = ground arith

pub upper-other_than :
    (c : ℕ) {n : ℕ} (s : String) → is_sep c ≡ true → Passes is_upper n s → AllPass (other_than c) s
upper-other_than c s h k =
    AllPass-weaken is_upper (other_than c) s (λ x. upper_other c x h) (Passes-AllPass is_upper k)

pub digit-other_than :
    (c : ℕ) {n : ℕ} (s : String) → is_sep c ≡ true → Passes is_digit n s → AllPass (other_than c) s
digit-other_than c s h k =
    AllPass-weaken is_digit (other_than c) s (λ x. digit_other c x h) (Passes-AllPass is_digit k)

leg_text-AllPass :
    (c : ℕ) (l : Leg)
    → is_sep c ≡ true
    → other_than c b',' ≡ true
    → other_than c b'-' ≡ true
    → IsLeg l
    → AllPass (other_than c) (leg_text l)
leg_text-AllPass c _ h comma dash (is_leg_of from to y m d hf ht hy hm hd) =
    let p = other_than c in
    AllPass-<> p from _ (upper-other_than c from h hf) (
      comma,
      AllPass-<> p to _ (upper-other_than c to h ht) (
        comma,
        AllPass-<> p y _ (digit-other_than c y h hy)
            (dash, AllPass-<> p m _ (digit-other_than c m h hm) (dash, digit-other_than c d h hd)),
      ),
    )

leg_texts-All :
    (c : ℕ) (ls : List Leg)
    → is_sep c ≡ true
    → other_than c b',' ≡ true
    → other_than c b'-' ≡ true
    → All IsLeg ls
    → All (AllPass (other_than c)) (map leg_text ls)
leg_texts-All c [] h comma dash hs = tt
leg_texts-All c (l ∷ ls) h comma dash (here, hs) =
    (leg_text-AllPass c l h comma dash here, leg_texts-All c ls h comma dash hs)

join-AllPass :
    (p : ℕ → Bool) (sep : String) (ss : List String)
    → AllPass p sep
    → All (AllPass p) ss
    → AllPass p (join sep ss)
unfolding join
join-AllPass p sep [] k h = tt
join-AllPass p sep (s ∷ []) k (h, _) = h
join-AllPass p sep (s ∷ t ∷ ss) k (h, hs) =
    AllPass-<> p s _ h (AllPass-<> p sep _ k (join-AllPass p sep (t ∷ ss) k hs))

pub replace_first-whole : (t new : String) → ◌≢◌ {A = String} t "" → replace_first t new t ≡ new
unfolding replace_first
replace_first-whole String.[] new h = absurd (h refl)
replace_first-whole (String.◌∷◌ c s) new h =
    rw
      (
        replace_first,
        ap (cut_prefix (String.◌∷◌ c s)) (sym (<>_nil (String.◌∷◌ c s)))
            ∙ cut_prefix-<> (String.◌∷◌ c s) "",
      )
      (<>_nil new)

all_legs-leg_texts : (ls : List Leg) → All IsLeg ls → all_legs (map leg_text ls) ≡ true
unfolding all_legs
all_legs-leg_texts [] hs = refl
all_legs-leg_texts (l ∷ ls) (h, hs) = rw (is_leg-leg_text l h, all_legs-leg_texts ls hs) refl

split-trip_of :
    (l : Leg) (ls : List Leg)
    → All IsLeg (l ∷ ls)
    → split b'.' (trip_of (l ∷ ls)) ≡ map leg_text (l ∷ ls)
unfolding trip_of
split-trip_of l ls h =
    split-join "." (leg_text l) (map leg_text ls) (leg_texts-All b'.' (l ∷ ls) refl refl refl h)

first_trip-whole : (t : String) → all_legs (split b'.' t) ≡ true → first_trip (t ∷ []) ≡ some t
unfolding first_trip
first_trip-whole t h = rw h refl

pub first_trip-none : (t : String) → all_legs (split b'.' t) ≡ false → first_trip (t ∷ []) ≡ none
unfolding first_trip
first_trip-none t h = rw h refl

pub find_trip-whole : (t : String) → AllPass (other_than b'|') t → find_trip t ≡ first_trip (t ∷ [])
unfolding find_trip
find_trip-whole t h = ap first_trip (split-whole b'|' t h)

-- A trip that is written is found.
pub find_trip-trip_of : (ls : List Leg) → IsTrip ls → find_trip (trip_of ls) ≡ some (trip_of ls)
unfolding trip_of
find_trip-trip_of _ (is_trip l ls h) =
    find_trip-whole (trip_of (l ∷ ls)) (
      join-AllPass (other_than b'|') "." (map leg_text (l ∷ ls)) (refl, tt)
        (leg_texts-All b'|' (l ∷ ls) refl refl refl h))
    ∙ first_trip-whole (trip_of (l ∷ ls))
        (ap all_legs (split-trip_of l ls h) ∙ all_legs-leg_texts (l ∷ ls) h)

split-leg_text : (l : Leg) → IsLeg l → split b',' (leg_text l) ≡ l.from ∷ l.to ∷ l.date ∷ []
split-leg_text _ (is_leg_of from to y m d hf ht hy hm hd) =
    let date = y <> ("-" <> (m <> ("-" <> d))) in
    let p = other_than b',' in
    split-sep "," from (to <> ("," <> date)) (upper-other_than b',' from refl hf)
    ∙ ap (λ r. from ∷ r)
        (split-sep "," to date (upper-other_than b',' to refl ht)
          ∙ ap (λ r. to ∷ r)
              (split-whole b',' date (
                AllPass-<> p y _ (digit-other_than b',' y refl hy) (
                  refl,
                  AllPass-<> p m _ (digit-other_than b',' m refl hm)
                      (refl, digit-other_than b',' d refl hd),
                ))))

legs_of_parts-leg_texts : (ls : List Leg) → All IsLeg ls → legs_of_parts (map leg_text ls) ≡ ls
unfolding legs_of_parts leg_of_fields
legs_of_parts-leg_texts [] hs = refl
legs_of_parts-leg_texts (l ∷ ls) (h, hs) =
    rw (split-leg_text l h, legs_of_parts-leg_texts ls hs) refl

-- A trip that is written reads as its legs.
pub parse_legs-trip_of : (ls : List Leg) → IsTrip ls → parse_legs (trip_of ls) ≡ ls
unfolding parse_legs
parse_legs-trip_of _ (is_trip l ls h) =
    ap legs_of_parts (split-trip_of l ls h) ∙ legs_of_parts-leg_texts (l ∷ ls) h
