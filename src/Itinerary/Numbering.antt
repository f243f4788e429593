-- ===== src/Itinerary/Numbering.antt =====
-- The numbers that `pattern` gives to the airports, and their positions in `airports`.
use mathlib.Core.List.{map-append}
use ndc_mock.Prelude.{
  ℕ, zero, suc, ◌+◌, ◌≡◌, refl, ap, ◌∙◌, inl, inr, true, false, Option, some, List, [], ◌∷◌, ◌++◌,
  map, String, length, get_elem?, if◌then◌else◌, ◌==◌, string_eq, Bool-cases, arith, eq_iff,
  str_eq-cases, str_eq_self,
}
use ndc_mock.Itinerary.{Leg, Index, has, at, number, number_leg, contains, see, see_legs, airports}

-- The pairs of numbers that `pattern` prints.
unfoldable pub numbers : Index → List Leg → List (ℕ × ℕ)
numbers idx [] = []
numbers idx (l ∷ legs) =
    let idx' = number_leg idx l in (at idx' l.from, at idx' l.to) ∷ numbers idx' legs

abbrev keys : Index → List String
keys = map (λ e. e.0)

-- The numbers in the index count up from `k`.
abbrev Counts : ℕ → Index → Type 0
Counts k [] = Unit {0}
Counts k ((a, n) ∷ idx) = (n ≡ k) × Counts (suc k) idx

Counts-snoc :
    (k : ℕ) (idx : Index) (a : String) → Counts k idx → Counts k (idx ++ ((a, k + length idx) ∷ []))
Counts-snoc k [] a h = (omega arith, tt)
Counts-snoc k ((b, n) ∷ idx) a (e, h) = (
  e,
  (let same : suc k + length idx ≡ k + suc (length idx) = omega arith in
      rw same at (Counts-snoc (suc k) idx a h)),
)

number-Counts : (idx : Index) (a : String) → Counts 0 idx → Counts 0 (number idx a)
unfolding number
number-Counts idx a h = elim (Bool-cases (has idx a)) [
  | inl old ↦ rw old h
  | inr new ↦
      rw new
        (let same : 0 + length idx ≡ length idx = omega arith in rw same at (Counts-snoc 0 idx a h))
]

has-snoc : (idx : Index) (a : String) (n : ℕ) → has (idx ++ ((a, n) ∷ [])) a ≡ true
unfolding has
has-snoc [] a n = rw (str_eq_self a)
has-snoc ((b, m) ∷ idx) a n = ground (arith, has-snoc idx a n)

has-append : (idx more : Index) (b : String) → has idx b ≡ true → has (idx ++ more) b ≡ true
unfolding has
has-append [] more b h = cc
has-append ((c, m) ∷ idx) more b h = ground (arith, has-append idx more b)

at-append : (idx more : Index) (b : String) → has idx b ≡ true → at (idx ++ more) b ≡ at idx b
unfolding has at
at-append [] more b h = cc
at-append ((c, m) ∷ idx) more b h = ground (arith, at-append idx more b)

has-number_self : (idx : Index) (a : String) → has (number idx a) a ≡ true
unfolding number
has-number_self idx a = ground (arith, has-snoc idx a (length idx))

has-number : (idx : Index) (a b : String) → has idx b ≡ true → has (number idx a) b ≡ true
unfolding number
has-number idx a b h = ground (arith, has-append idx ((a, length idx) ∷ []) b)

at-number : (idx : Index) (a b : String) → has idx b ≡ true → at (number idx a) b ≡ at idx b
unfolding number
at-number idx a b h = ground (arith, at-append idx ((a, length idx) ∷ []) b)

-- A numbered airport stands at its number.
get_elem?-at_from :
    (k : ℕ) (idx : Index) (a : String)
    → Counts k idx
    → has idx a ≡ true
    → (i : ℕ) × (at idx a ≡ k + i) × (get_elem? (keys idx) i ≡ some a)
unfolding has at
get_elem?-at_from k [] a c h = cc
get_elem?-at_from k ((b, n) ∷ idx) a (e, c) h = elim (str_eq-cases b a) [
  | inl (same, path) ↦ (0, rw same (omega arith), ap some path)
  | inr (differs, _) ↦
      let (i, found, stands) = get_elem?-at_from (suc k) idx a c (rw differs at h) in
      (suc i, rw differs (omega arith), stands)
]

get_elem?-at :
    (idx : Index) (a : String)
    → Counts 0 idx
    → has idx a ≡ true
    → get_elem? (keys idx) (at idx a) ≡ some a
get_elem?-at idx a c h =
    let (i, found, stands) = get_elem?-at_from 0 idx a c h in
    let same : at idx a ≡ i = omega arith in rw same stands

get_elem?-append :
    (l m : List String) (i : ℕ) (a : String)
    → get_elem? l i ≡ some a
    → get_elem? (l ++ m) i ≡ some a
get_elem?-append [] m i a h = cc
get_elem?-append (b ∷ l) m zero a h = h
get_elem?-append (b ∷ l) m (suc i) a h = get_elem?-append l m i a h

get_elem?-number :
    (idx : Index) (b : String) (i : ℕ) (a : String)
    → get_elem? (keys idx) i ≡ some a
    → get_elem? (keys (number idx b)) i ≡ some a
unfolding number
get_elem?-number idx b i a h = elim (Bool-cases (has idx b)) [
  | inl old ↦ rw old h
  | inr new ↦ rw (new, map-append) (get_elem?-append (keys idx) (b ∷ []) i a h)
]

-- The index after all legs.
unfoldable final : Index → List Leg → Index
final idx [] = idx
final idx (l ∷ legs) = final (number_leg idx l) legs

get_elem?-final :
    (idx : Index) (legs : List Leg) (i : ℕ) (a : String)
    → get_elem? (keys idx) i ≡ some a
    → get_elem? (keys (final idx legs)) i ≡ some a
unfolding final
get_elem?-final idx [] i a h = h
get_elem?-final idx (l ∷ legs) i a h =
    get_elem?-final (number_leg idx l) legs i a
      (get_elem?-number (number idx l.from) l.to i a (get_elem?-number idx l.from i a h))

-- The names that two numbers stand for in a list of airports.
abbrev pub names : List String → ℕ × ℕ → Option String × Option String
names air (i, j) = (get_elem? air i, get_elem? air j)

abbrev pub ends : Leg → Option String × Option String
ends l = (some l.from, some l.to)

names-final :
    (idx : Index) (legs : List Leg)
    → Counts 0 idx
    → map (names (keys (final idx legs))) (numbers idx legs) ≡ map ends legs
unfolding numbers final
names-final idx [] c = refl
names-final idx (l ∷ legs) c =
    let idx₁ = number idx l.from in
    let idx₂ = number idx₁ l.to in
    let c₁ : Counts 0 idx₁ = number-Counts idx l.from c in
    let c₂ : Counts 0 idx₂ = number-Counts idx₁ l.to c₁ in
    let from : get_elem? (keys idx₂) (at idx₂ l.from) ≡ some l.from =
      get_elem?-at idx₂ l.from c₂ (has-number idx₁ l.to l.from (has-number_self idx l.from)) in
    let to : get_elem? (keys idx₂) (at idx₂ l.to) ≡ some l.to =
      get_elem?-at idx₂ l.to c₂ (has-number_self idx₁ l.to) in
    cc (
      get_elem?-final idx₂ legs (at idx₂ l.from) l.from from,
      get_elem?-final idx₂ legs (at idx₂ l.to) l.to to,
      names-final idx₂ legs c₂,
    )

-- The loops of `airports` and of `pattern` see the same airports.
record Agrees (s : List String × List String) (idx : Index) : Type 0 where
  same : (a : String) → contains s.0 a ≡ has idx a
  listed : s.1 ≡ keys idx

has-snoc_iff :
    (idx : Index) (a b : String) (n : ℕ)
    → has idx a ≡ false
    → has (idx ++ ((a, n) ∷ [])) b ≡ (if a == b then true else has idx b)
unfolding has
has-snoc_iff [] a b n h = refl
has-snoc_iff ((c, m) ∷ idx) a b n h =
    ground (arith, has-snoc_iff idx a b n, eq_iff a b, eq_iff c b, eq_iff c a)

see-Agrees :
    (s : List String × List String) (idx : Index) (a : String)
    → Agrees s idx
    → Agrees (see s a) (number idx a)
unfolding see number contains
see-Agrees (seen, out) idx a g = elim (Bool-cases (has idx a)) [
  | inl old ↦ rw (old, g.same a ∙ old) g
  | inr new ↦
      rw (new, g.same a ∙ new)
        (record {
          same = λ b. rw (has-snoc_iff idx a b (length idx) new, g.same b);
          listed = rw (map-append, g.listed);
        })
]

see_legs-keys :
    (s : List String × List String) (idx : Index) (legs : List Leg)
    → Agrees s idx
    → (see_legs s legs).1 ≡ keys (final idx legs)
unfolding see_legs final
see_legs-keys s idx [] g = g.listed
see_legs-keys s idx (l ∷ legs) g =
    see_legs-keys (see (see s l.from) l.to) (number_leg idx l) legs
      (see-Agrees (see s l.from) (number idx l.from) l.to (see-Agrees s idx l.from g))

airports-keys : (legs : List Leg) → airports legs ≡ keys (final [] legs)
unfolding airports contains has
airports-keys legs = see_legs-keys ([], []) [] legs (record { same = λ a. refl; listed = refl })

-- The numbers of the shape, read as positions in the list of airports, give back the origin and
-- the destination of every leg, in order.
pub names-numbers :
    (legs : List Leg) → map (names (airports legs)) (numbers [] legs) ≡ map ends legs
names-numbers legs = rw airports-keys (names-final [] legs tt)
