-- ===== src/Prelude/Text.antt =====
-- The functions of Go's `strings` and `strconv` that the program calls.
use Prim.Native.Char.{Char, code}
use ndc_mock.Prelude.Int.{ℤ, pos, negsuc}
use ndc_mock.Prelude.{
  ◌≢◌, Bool-cases, inl, inr, ◌*◌, ◌^◌, ℕ, zero, suc, ◌+◌, ◌-◌, ◌/◌, ◌%◌, ◌≡◌, refl, Bool, true,
  false, ◌&&◌, ◌||◌, Option, none, some, List, [], ◌∷◌, String, ◌<>◌, ltb, leb, if◌then◌else◌, ◌==◌,
  nat_eq, string_eq,
}

abbrev pub is_char : ℕ → Char → Bool
is_char c x = code x == c

-- `strings.Cut(s, c)` at a single character: what stands before the first `c`, what stands after
-- it, and whether there is one.
unfoldable pub cut : ℕ → String → String × String × Bool
cut c String.[] = (String.[], String.[], false)
cut c (String.◌∷◌ x s) =
    let (before, after, found) = cut c s in
    if is_char c x then (String.[], s, true) else (String.◌∷◌ x before, after, found)

-- `strings.Split(s, c)`.
unfoldable pub split_from : String → List String → List String
split_from s [] = s ∷ []
split_from s (t ∷ ts) = (s <> t) ∷ ts

split_from-ne : (s : String) (ts : List String) → split_from s ts ≢ []
unfolding split_from
split_from-ne s [] e = cc
split_from-ne s (t ∷ ts) e = cc

unfoldable pub split : ℕ → String → List String
unfolding split_from
split c String.[] = String.[] ∷ []
split c (String.◌∷◌ x s) =
    let rest = split c s in
    if is_char c x then String.[] ∷ rest else split_from (String.◌∷◌ x String.[]) rest

pub split-ne : (c : ℕ) (s : String) → split c s ≢ []
unfolding split
split-ne c String.[] = λ e. cc
split-ne c (String.◌∷◌ x s) = elim (Bool-cases (is_char c x)) [
  | inl same ↦ rw same (λ e. cc)
  | inr differs ↦ rw differs (split_from-ne (String.◌∷◌ x String.[]) (split c s))
]

-- `strings.Join`.
unfoldable pub join : String → List String → String
join sep [] = String.[]
join sep (s ∷ []) = s
join sep (s ∷ t ∷ ts) = s <> (sep <> join sep (t ∷ ts))

-- The white space of `unicode.IsSpace`.
unfoldable pub is_space : ℕ → Bool
is_space c =
    (leb 9 c && leb c 13)
    || c == 32
    || c == 0x85
    || c == 0xa0
    || c == 0x1680
    || (leb 0x2000 c && leb c 0x200a)
    || c == 0x2028
    || c == 0x2029
    || c == 0x202f
    || c == 0x205f
    || c == 0x3000

unfoldable pub trim_left : String → String
unfolding is_space
trim_left String.[] = String.[]
trim_left (String.◌∷◌ x s) =
    let rest = trim_left s in if is_space (code x) then rest else String.◌∷◌ x s

unfoldable pub trim_right : String → String
unfolding is_space
trim_right String.[] = String.[]
trim_right (String.◌∷◌ x s) =
    let rest = trim_right s in
    if is_space (code x) && rest == "" then String.[] else String.◌∷◌ x rest

-- `strings.TrimSpace`.
unfoldable pub trim_space : String → String
unfolding trim_left trim_right
trim_space s = trim_right (trim_left s)

unfoldable pub digit : ℕ → String
digit zero = "0"
digit (suc zero) = "1"
digit (suc (suc zero)) = "2"
digit (suc (suc (suc zero))) = "3"
digit (suc (suc (suc (suc zero)))) = "4"
digit (suc (suc (suc (suc (suc zero))))) = "5"
digit (suc (suc (suc (suc (suc (suc zero)))))) = "6"
digit (suc (suc (suc (suc (suc (suc (suc zero))))))) = "7"
digit (suc (suc (suc (suc (suc (suc (suc (suc zero)))))))) = "8"
digit _ = "9"

-- The decimal digits of a number, on fuel; a number has no more digits than its value plus one.
unfoldable pub digits : ℕ → ℕ → String
unfolding digit
digits zero n = ""
digits (suc fuel) n =
    let front = digits fuel (n / 10) in if ltb n 10 then digit n else front <> digit (n % 10)

-- `strconv.Itoa` of a number that is not negative.
unfoldable pub itoa : ℕ → String
unfolding digits
itoa n = digits (suc n) n

-- `strconv.Itoa`.
unfoldable pub itoa_int : ℤ → String
unfolding itoa
itoa_int (pos n) = itoa n
itoa_int (negsuc n) = "-" <> itoa (suc n)

-- What `strconv.Atoi` returns: a number, a syntax error, or a range error with the nearest number.
pub data Atoi : Type 0 where
  num : ℤ → Atoi
  bad : Atoi
  range : ℤ → Atoi

-- The value of a text of digits.
unfoldable pub all_digits : ℕ → String → Option ℕ
all_digits acc String.[] = some acc
all_digits acc (String.◌∷◌ c s) =
    let rest = all_digits (acc * 10 + (code c - b'0')) s in
    if leb b'0' (code c) && leb (code c) b'9' then rest else none

unfoldable pub magnitude : String → Option ℕ
unfolding all_digits
magnitude String.[] = none
magnitude (String.◌∷◌ c s) = all_digits 0 (String.◌∷◌ c s)

unfoldable pub above : Option ℕ → Atoi
above none = bad
above (some n) = if ltb n (2 ^ 63) then num (pos n) else range (pos (2 ^ 63 - 1))

below : Option ℕ → Atoi
below none = bad
below (some zero) = num (pos 0)
below (some (suc n)) = if ltb n (2 ^ 63) then num (negsuc n) else range (negsuc (2 ^ 63 - 1))

-- `strconv.Atoi`, of which a sign may stand before the digits.
unfoldable pub atoi : String → Atoi
unfolding magnitude above below
atoi String.[] = bad
atoi (String.◌∷◌ c s) =
    if code c == b'-'
    then below (magnitude s)
    else if code c == b'+'
    then above (magnitude s)
    else above (magnitude (String.◌∷◌ c s))

-- `strings.CutPrefix`.
unfoldable pub cut_prefix : String → String → Option String
cut_prefix String.[] s = some s
cut_prefix (String.◌∷◌ c p) String.[] = none
cut_prefix (String.◌∷◌ c p) (String.◌∷◌ d s) =
    let rest = cut_prefix p s in if is_char (code c) d then rest else none

abbrev pub is_some {ℓ} : {A : Type ℓ} → Option A → Bool
is_some none = false
is_some (some a) = true

-- `strings.Contains`.
unfoldable pub contains_text : String → String → Bool
unfolding cut_prefix
contains_text String.[] p = is_some (cut_prefix p String.[])
contains_text (String.◌∷◌ c s) p = is_some (cut_prefix p (String.◌∷◌ c s)) || contains_text s p

-- `strings.Replace(s, old, new, 1)` for a text `old` that is not empty.
unfoldable pub replace_first : String → String → String → String
unfolding cut_prefix
replace_first old new String.[] = String.[]
replace_first old new (String.◌∷◌ c s) =
    let rest = replace_first old new s in
    elim (cut_prefix old (String.◌∷◌ c s)) [
      | some behind ↦ new <> behind
      | none ↦ String.◌∷◌ c rest
    ]

-- The characters at the front that pass a test, and the rest.
unfoldable pub span : (ℕ → Bool) → String → String × String
span p String.[] = (String.[], String.[])
span p (String.◌∷◌ c s) =
    let (front, rest) = span p s in
    if p (code c) then (String.◌∷◌ c front, rest) else (String.[], String.◌∷◌ c s)

-- Exactly `n` characters that pass a test, and the rest.
unfoldable pub exactly : (ℕ → Bool) → ℕ → String → Option (String × String)
exactly p zero s = some (String.[], s)
exactly p (suc n) String.[] = none
exactly p (suc n) (String.◌∷◌ c s) =
    let more = exactly p n s in
    if p (code c)
    then elim more [ none ↦ none | some (front, rest) ↦ some (String.◌∷◌ c front, rest) ]
    else none

-- One character or more, as many as pass.
unfoldable pub span1 : (ℕ → Bool) → String → Option (String × String)
unfolding span
span1 p s = let (front, rest) = span p s in if front == "" then none else some (front, rest)

cut_test : cut b':' "m:Root:x" ≡ ("m", "Root:x", true)
unfolding cut
cut_test = refl

split_test : split b'/' "a/bc//d" ≡ "a" ∷ "bc" ∷ "" ∷ "d" ∷ []
unfolding split
split_test = refl

trim_test : trim_space "  a b \n" ≡ "a b"
unfolding trim_space
trim_test = refl

itoa_test : (itoa 0 ≡ "0") × (itoa 1037 ≡ "1037")
unfolding itoa
itoa_test = (refl, refl)

join_test : join "," ("a" ∷ "b" ∷ "c" ∷ []) ≡ "a,b,c"
unfolding join
join_test = refl

atoi_test : (atoi "-12" ≡ num (negsuc 11)) × (atoi "7" ≡ num (pos 7)) × (atoi "7x" ≡ bad)
unfolding atoi
atoi_test = (refl, refl, refl)
