-- ===== src/Client/Checks.antt =====
-- What a search that passes `validate` is like.
use ndc_mock.Prelude.{
  ℕ, ◌+◌, ◌^◌, ◌≤◌, ◌<◌, ◌≡◌, ◌≢◌, refl, ◌⊎◌, inl, inr, Bool, true, false, ◌&&◌, ◌||◌, not, Option,
  none, some, String, if◌then◌else◌, ◌==◌, ◌!=◌, string_eq, Bool-cases, arith, eq_iff,
}
use ndc_mock.Prelude.Int.{ℤ, pos, negsuc, ltb_ℤ, ◌+ℤ◌, ◌<ℤ◌, add_int, wrap, signed, int_eq}
use ndc_mock.Tree.Sort.{before}
use ndc_mock.Client.{
  SearchParams, Result, ok, error, is_airport, is_date, is_carrier, has_negative, with_adult,
  total_of, check_pax, in_upper, wrong_text, pax_unless, validate,
}

-- Which texts of a search pass.
pub record IsRoute (p : SearchParams) : Type 0 where
  pub origin : is_airport p.origin ≡ true
  pub dest : is_airport p.dest ≡ true
  pub differ : p.origin ≢ p.dest
  pub depart : is_date p.depart_date ≡ true
  pub return :
      (p.return_date ≡ "")
      ⊎ ((is_date p.return_date ≡ true) × (before p.return_date p.depart_date ≡ false))
  pub carrier : (p.airline ≡ "") ⊎ (is_carrier p.airline ≡ true)

-- A party: one to nine passengers, with an adult for each infant.
pub record IsParty (p : SearchParams) : Type 0 where
  pub adults : ℕ
  pub children : ℕ
  pub infants : ℕ
  pub counts : (p.adt ≡ pos adults) × (p.chd ≡ pos children) × (p.inf ≡ pos infants)
  pub some_one : 1 ≤ adults + children + infants
  pub at_most : adults + children + infants ≤ 9
  pub on_laps : infants ≤ adults

-- A count whose sums stay far from the bounds of an integer.
abbrev pub IsSmall : ℤ → Type 0
IsSmall n = n <ℤ pos (2 ^ 61)

passed :
    (b : Bool) (why : String) (r : Option String)
    → (if b then some why else r) ≡ none
    → (b ≡ false) × (r ≡ none)
passed true why r h = absurd (cc)
passed false why r h = (refl, h)

holds : (b : Bool) → not b ≡ false → b ≡ true
holds true h = refl
holds false h = absurd (cc)

either : (a b : Bool) → a && not b ≡ false → (a ≡ false) ⊎ (b ≡ true)
either true true h = inr refl
either true false h = absurd (cc)
either false b h = inl refl

empty_text : (s : String) → s != "" ≡ false → s ≡ ""
empty_text s h = ground (arith, eq_iff s "")

both :
    (t a b : Bool) → t && not a ≡ false → t && b ≡ false → (t ≡ false) ⊎ ((a ≡ true) × (b ≡ false))
both true true b h k = inr (refl, k)
both true false b h k = absurd (cc)
both false a b h k = inl refl

back :
    (p : SearchParams)
    → p.return_date != "" && not (is_date p.return_date) ≡ false
    → p.return_date != "" && before p.return_date p.depart_date ≡ false
    → (p.return_date ≡ "")
      ⊎ ((is_date p.return_date ≡ true) × (before p.return_date p.depart_date ≡ false))
back p h k =
    elim (both (p.return_date != "") (is_date p.return_date) (before p.return_date p.depart_date) h
      k) [ inl none_given ↦ inl (empty_text p.return_date none_given) | inr fits ↦ inr fits ]

-- What is left of a check that was passed.
pub passed_ok :
    (b : Bool) (why : String) (r : Result SearchParams) (p : SearchParams)
    → (if b then error why else r) ≡ ok p
    → (b ≡ false) × (r ≡ ok p)
passed_ok true why r p h = absurd (cc)
passed_ok false why r p h = (refl, h)

small : (n : ℕ) → IsSmall (pos n) → n < 2 ^ 61
small n h = omega (arith, h)

total-exact :
    (a c i : ℕ)
    → a < 2 ^ 61
    → c < 2 ^ 61
    → i < 2 ^ 61
    → add_int (add_int (pos a) (pos c)) (pos i) ≡ pos (a + c + i)
unfolding add_int wrap signed ◌+ℤ◌
total-exact a c i h k l = ground arith

natural : (z : ℤ) → ltb_ℤ z (pos 0) ≡ false → (n : ℕ) × (z ≡ pos n)
natural (pos n) h = (n, refl)
natural (negsuc n) h = absurd (ground arith)

none_of : (a b c : Bool) → a || b || c ≡ false → (a ≡ false) × (b ≡ false) × (c ≡ false)
none_of true b c h = absurd (cc)
none_of false true c h = absurd (cc)
none_of false false c h = (refl, refl, h)

with_adult-IsRoute : (p : SearchParams) → IsRoute p → IsRoute (with_adult p)
unfolding with_adult
with_adult-IsRoute p r = elim (Bool-cases (p.adt == pos 0 && p.chd == pos 0 && p.inf == pos 0)) [
  | inl empty ↦ rw empty (record {
    origin = r.origin;
    dest = r.dest;
    differ = r.differ;
    depart = r.depart;
    return = r.return;
    carrier = r.carrier;
  })
  | inr some_one ↦ rw some_one r
]

total_of-exact :
    (p : SearchParams) (a c i : ℕ)
    → (p.adt ≡ pos a) × (p.chd ≡ pos c) × (p.inf ≡ pos i)
    → IsSmall p.adt
    → IsSmall p.chd
    → IsSmall p.inf
    → total_of p ≡ pos (a + c + i)
unfolding total_of
total_of-exact p a c i (ea, ec, ei) sa sc si =
    rw (ea, ec, ei)
      (total-exact a c i (small a (rw ea at sa)) (small c (rw ec at sc)) (small i (rw ei at si)))

below_ten : (n : ℕ) → ltb_ℤ (pos 9) (pos n) ≡ false → n ≤ 9
below_ten n h = ground arith

not_above : (a i : ℕ) → ltb_ℤ (pos a) (pos i) ≡ false → i ≤ a
not_above a i h = ground arith

not_empty :
    (a c i : ℕ)
    → (◌==◌ {A = ℤ} (pos a) (pos 0))
        && (◌==◌ {A = ℤ} (pos c) (pos 0))
        && (◌==◌ {A = ℤ} (pos i) (pos 0))
      ≡ false
    → 1 ≤ a + c + i
not_empty a c i h = ground arith

counts-IsParty :
    (p : SearchParams) (a c i : ℕ)
    → p.adt ≡ pos a
    → p.chd ≡ pos c
    → p.inf ≡ pos i
    → IsSmall p.adt
    → IsSmall p.chd
    → IsSmall p.inf
    → p.adt == pos 0 && p.chd == pos 0 && p.inf == pos 0 ≡ false
    → ltb_ℤ (pos 9) (total_of p) ≡ false
    → ltb_ℤ p.adt p.inf ≡ false
    → IsParty p
counts-IsParty p a c i ea ec ei sa sc si one big laps =
    let total = total_of-exact p a c i (ea, ec, ei) sa sc si in
    record {
      adults = a;
      children = c;
      infants = i;
      counts = (ea, ec, ei);
      some_one = not_empty a c i (rw (ea, ec, ei) at one);
      at_most = below_ten (a + c + i) (rw total at big);
      on_laps = not_above a i (rw (ea, ei) at laps);
    }

pub ok_inj : (p p' : SearchParams) → ◌≡◌ {A = Result SearchParams} (ok p) (ok p') → p ≡ p'
ok_inj p p' h = cc

check_pax-IsParty :
    (p p' : SearchParams)
    → IsSmall p.adt
    → IsSmall p.chd
    → IsSmall p.inf
    → p.adt == pos 0 && p.chd == pos 0 && p.inf == pos 0 ≡ false
    → check_pax p ≡ ok p'
    → (p ≡ p') × IsParty p
unfolding check_pax
check_pax-IsParty p p' sa sc si one h =
    let (neg, h₁) = passed_ok (has_negative p) _ _ p' h in
    let (big, h₂) = passed_ok (ltb_ℤ (pos 9) (total_of p)) _ _ p' h₁ in
    let (laps, h₃) = passed_ok (ltb_ℤ p.adt p.inf) _ _ p' h₂ in
    let (na, nc, ni) =
      none_of (ltb_ℤ p.adt (pos 0)) (ltb_ℤ p.chd (pos 0)) (ltb_ℤ p.inf (pos 0)) neg in
    let (a, ea) = natural p.adt na in
    let (c, ec) = natural p.chd nc in
    let (i, ei) = natural p.inf ni in
    (ok_inj p p' h₃, counts-IsParty p a c i ea ec ei sa sc si one big laps)

-- A search for nobody has become one for an adult.
with_adult-some :
    (p : SearchParams)
    → (with_adult p).adt == pos 0 && (with_adult p).chd == pos 0 && (with_adult p).inf == pos 0
      ≡ false
unfolding with_adult
with_adult-some p = elim (Bool-cases (p.adt == pos 0 && p.chd == pos 0 && p.inf == pos 0)) [
  | inl empty ↦ rw empty refl
  | inr some_one ↦ rw some_one some_one
]

with_adult-IsSmall :
    (p : SearchParams)
    → IsSmall p.adt
    → IsSmall p.chd
    → IsSmall p.inf
    → IsSmall (with_adult p).adt × IsSmall (with_adult p).chd × IsSmall (with_adult p).inf
unfolding with_adult
with_adult-IsSmall p a c i =
    elim (Bool-cases (p.adt == pos 0 && p.chd == pos 0 && p.inf == pos 0)) [
      | inl empty ↦ rw empty (omega arith, c, i)
      | inr some_one ↦ rw some_one (a, c, i)
    ]

module _ (upper quote : String → String) where
  wrong_text-IsRoute : (p : SearchParams) → wrong_text upper quote p ≡ none → IsRoute p
  unfolding wrong_text
  wrong_text-IsRoute p h =
      let (c₁, h₁) = passed (not (is_airport p.origin)) _ _ h in
      let (c₂, h₂) = passed (not (is_airport p.dest)) _ _ h₁ in
      let (c₃, h₃) = passed (p.origin == p.dest) _ _ h₂ in
      let (c₄, h₄) = passed (not (is_date p.depart_date)) _ _ h₃ in
      let (c₅, h₅) = passed (p.return_date != "" && not (is_date p.return_date)) _ _ h₄ in
      let (c₆, h₆) = passed (p.return_date != "" && before p.return_date p.depart_date) _ _ h₅ in
      let (c₇, h₇) = passed (p.airline != "" && not (is_carrier p.airline)) _ _ h₆ in
      record {
        origin = holds (is_airport p.origin) c₁;
        dest = holds (is_airport p.dest) c₂;
        differ = λ e. ground (arith, eq_iff p.origin p.dest);
        depart = holds (is_date p.depart_date) c₄;
        return = back p c₅ c₆;
        carrier = elim (either (p.airline != "") (is_carrier p.airline) c₇) [
          | inl none_given ↦ inl (empty_text p.airline none_given)
          | inr fits ↦ inr fits
        ];
      }

  pub pax_unless-ok :
      (w : Option String) (p p' : SearchParams)
      → pax_unless upper quote w p ≡ ok p'
      → (w ≡ none) × (check_pax (with_adult p) ≡ ok p')
  unfolding pax_unless
  pax_unless-ok none p p' h = (refl, h)
  pax_unless-ok (some why) p p' h = absurd (cc)

  -- A search that passes goes from one airport to another, not back before it leaves, for one to
  -- nine passengers with an adult for each infant; as long as the counts are below 2^61, so that
  -- their sum does not wrap around.
  pub validate_lem :
      (p p' : SearchParams)
      → IsSmall p.adt
      → IsSmall p.chd
      → IsSmall p.inf
      → validate upper quote p ≡ ok p'
      → IsRoute p' × IsParty p'
  unfolding validate in_upper
  validate_lem p p' a c i h =
      let u = in_upper upper quote p in
      let (right, checked) = pax_unless-ok (wrong_text upper quote u) u p' h in
      let (a', c', i') = with_adult-IsSmall u a c i in
      let (same, party) =
        check_pax-IsParty (with_adult u) p' a' c' i' (with_adult-some u) checked in
      let both : IsRoute (with_adult u) × IsParty (with_adult u) =
        (with_adult-IsRoute u (wrong_text-IsRoute u right), party) in
      rw same at both
