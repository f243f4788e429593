-- ===== src/Translate/Rename/Longest.antt =====
-- The rename that `translateTree` finds for an element is that of the longest key.
use Prim.Native.Nat.{min}
use native.Mathlib.Decide.{dec_le}
use Prim.Native.Char.{Char}
use ndc_mock.Prelude.{
  ℕ, zero, suc, ◌+◌, ◌≤◌, ◌<◌, ◌≡◌, ◌≢◌, refl, ap, sym, ◌∙◌, Option, none, some, List, [], ◌∷◌,
  String, ◌<>◌, <>_assoc, Bool, true, false, nat_eq, string_eq, if◌then◌else◌, length, take, arith,
  Bool-cases, Option-cases, str_eq-cases, inl, inr,
}
use ndc_mock.Prelude.Text.{is_char, join, split, split_from, split-ne}
use ndc_mock.Translate.Mapping.{Map, lookup}
use ndc_mock.Translate.Rename.{longest, outward, suffix, renamed_from, new_name}

-- What the loop finds, in terms of the texts that it builds, from `n` names on.
abbrev IsFound : Map String → List String → ℕ → Option String → Type 0
IsFound m path n none = (j : ℕ) → 0 < j → j ≤ n → lookup m (suffix path j) ≡ none
IsFound m path n (some to) =
    (k : ℕ) × (0 < k)
    × (k ≤ n)
    × (lookup m (suffix path k) ≡ some to)
    × ((j : ℕ) → k < j → j ≤ n → lookup m (suffix path j) ≡ none)

-- No match at one length more.
IsFound-suc :
    (m : Map String) (path : List String) (n : ℕ) (r : Option String)
    → lookup m (suffix path (suc n)) ≡ none
    → IsFound m path n r
    → IsFound m path (suc n) r
IsFound-suc m path n none missing h = λ j pos le. none_at j (dec_le j n) pos le
  where
    none_at : (j : ℕ) → Dec (j ≤ n) → 0 < j → j ≤ suc n → lookup m (suffix path j) ≡ none
    none_at j (yes small) pos le = h j pos small
    none_at j (no big) pos le = let same : j ≡ suc n = omega arith in rw same missing
IsFound-suc m path n (some to) missing (k, pos, le, found, above) =
    (k, pos, omega arith, found, λ j lt le'. none_at j (dec_le j n) lt le')
  where
    none_at : (j : ℕ) → Dec (j ≤ n) → k < j → j ≤ suc n → lookup m (suffix path j) ≡ none
    none_at j (yes small) lt le' = above j lt small
    none_at j (no big) lt le' = let same : j ≡ suc n = omega arith in rw same missing

renamed_from-missing :
    (m : Map String) (path : List String) (n : ℕ)
    → lookup m (suffix path (suc n)) ≡ none
    → renamed_from m path (suc n) ≡ renamed_from m path n
unfolding renamed_from
renamed_from-missing m path n h = rw (h, renamed_from)

renamed_from-found :
    (m : Map String) (path : List String) (n : ℕ) (to : String)
    → lookup m (suffix path (suc n)) ≡ some to
    → renamed_from m path (suc n) ≡ some to
unfolding renamed_from
renamed_from-found m path n to h = rw (h, renamed_from)

renamed_from-zero : (m : Map String) (path : List String) → renamed_from m path zero ≡ none
unfolding renamed_from
renamed_from-zero m path = refl

renamed_from-IsFound :
    (m : Map String) (path : List String) (n : ℕ) → IsFound m path n (renamed_from m path n)
renamed_from-IsFound m path zero = rw (renamed_from-zero m path) (λ j pos le. absurd (omega arith))
renamed_from-IsFound m path (suc n) = elim (Option-cases (lookup m (suffix path (suc n)))) [
  | inl missing ↦
      rw (renamed_from-missing m path n missing)
        (IsFound-suc m path n _ missing (renamed_from-IsFound m path n))
  | inr (to, found) ↦
      rw (renamed_from-found m path n to found)
        (suc n, omega arith, omega arith, found, λ j lt le. absurd (omega arith))
]

-- The names of a path, the innermost first, as a key has them: the outermost first, with a slash
-- between two.
unfoldable pub path_of : List String → String
path_of [] = ""
path_of (s ∷ []) = s
path_of (s ∷ t ∷ ps) = path_of (t ∷ ps) <> ("/" <> s)

join-outward :
    (s : String) (ss : List String) (a : String) (acc : List String)
    → join "/" (outward (s ∷ ss) (a ∷ acc)) ≡ path_of (s ∷ ss) <> ("/" <> join "/" (a ∷ acc))
unfolding join outward path_of
join-outward s [] a acc = refl
join-outward s (t ∷ ps) a acc =
    join-outward t ps s (a ∷ acc)
    ∙ sym (<>_assoc (path_of (t ∷ ps)) ("/" <> s) ("/" <> join "/" (a ∷ acc)))

suffix-path_of : (ss : List String) → join "/" (outward ss []) ≡ path_of ss
unfolding join outward path_of
suffix-path_of [] = refl
suffix-path_of (s ∷ []) = refl
suffix-path_of (s ∷ t ∷ ps) = join-outward t ps s []

-- How many fields a text has.
abbrev fields : String → ℕ
fields s = length (split b'/' s)

length-split_from : (s : String) (ts : List String) → ts ≢ [] → length (split_from s ts) ≡ length ts
unfolding split_from
length-split_from s [] ne = absurd (ne refl)
length-split_from s (t ∷ ts) ne = refl

fields-char :
    (x : Char) (s : String)
    → fields (String.◌∷◌ x s) ≡ (if is_char b'/' x then suc (fields s) else fields s)
unfolding split
fields-char x s = elim (Bool-cases (is_char b'/' x)) [
  | inl sep ↦ rw sep refl
  | inr other ↦ rw other (length-split_from _ (split b'/' s) (split-ne b'/' s))
]

-- One character more on both sides.
fields-more :
    (x : Char) (s u : String) (n : ℕ)
    → fields u ≡ fields s + n
    → fields (String.◌∷◌ x u) ≡ fields (String.◌∷◌ x s) + n
fields-more x s u n h =
    fields-char x u ∙ counted (is_char b'/' x) h ∙ ap (λ f. f + n) (sym (fields-char x s))
  where
    counted :
        (b : Bool)
        → fields u ≡ fields s + n
        → (if b then suc (fields u) else fields u) ≡ (if b then suc (fields s) else fields s) + n
    counted true h = omega (arith, h)
    counted false h = h

fields-slash : (s t : String) → fields (s <> ("/" <> t)) ≡ fields s + fields t
unfolding split
fields-slash String.[] t = omega arith
fields-slash (String.◌∷◌ x s) t = fields-more x s (s <> ("/" <> t)) (fields t) (fields-slash s t)

fields-pos : (s : String) → 1 ≤ fields s
fields-pos s = at_least (split b'/' s) (split-ne b'/' s)
  where
    at_least : (l : List String) → l ≢ [] → 1 ≤ length l
    at_least [] ne = absurd (ne refl)
    at_least (t ∷ l) ne = omega arith

fields-path_of : (ss : List String) → length ss ≤ fields (path_of ss)
unfolding path_of
fields-path_of [] = omega arith
fields-path_of (s ∷ []) = fields-pos s
fields-path_of (s ∷ t ∷ ps) =
    omega (arith, fields-slash (path_of (t ∷ ps)) s, fields-path_of (t ∷ ps), fields-pos s)

-- A key that is found has no more names than the longest.
lookup-fields : (m : Map String) (k to : String) → lookup m k ≡ some to → fields k ≤ longest m
unfolding lookup longest
lookup-fields [] k to h = absurd (cc)
lookup-fields ((j, v) ∷ m) k to h = elim (str_eq-cases j k) [
  | inl (same, path) ↦ rw (← path) (omega arith)
  | inr (differs, _) ↦ omega (arith, lookup-fields m k to (rw differs at h))
]

length-take_le : (n : ℕ) (xs : List String) → n ≤ length xs → length (take n xs) ≡ n
length-take_le zero xs h = refl
length-take_le (suc n) [] h = absurd (omega (arith, h))
length-take_le (suc n) (x ∷ xs) h = ap suc (length-take_le n xs (omega (arith, h)))

suffix-key : (path : List String) (k : ℕ) → suffix path k ≡ path_of (take k path)
unfolding suffix
suffix-key path k = suffix-path_of (take k path)

module _ (m : Map String) (path : List String) where
  -- No key is the last `j` names of the path.
  abbrev pub IsMissing : ℕ → Type 0
  IsMissing j = lookup m (path_of (take j path)) ≡ none

  -- The key of the most names that is a suffix of the path has the rename; without one no key, of
  -- however many names, is a suffix.
  abbrev pub IsLongest : Option String → Type 0
  IsLongest none = (j : ℕ) → 0 < j → j ≤ length path → IsMissing j
  IsLongest (some to) =
      (k : ℕ) × (0 < k)
      × (k ≤ length path)
      × (lookup m (path_of (take k path)) ≡ some to)
      × ((j : ℕ) → k < j → j ≤ length path → IsMissing j)

  -- Beyond the longest key nothing is found.
  beyond-IsMissing : (j : ℕ) → longest m < j → j ≤ length path → IsMissing j
  beyond-IsMissing j lt le = elim (Option-cases (lookup m (path_of (take j path)))) [
    | inl missing ↦ missing
    | inr (to, found) ↦ absurd (
        omega (
          arith,
          lookup-fields m (path_of (take j path)) to found,
          fields-path_of (take j path),
          length-take_le j path le,
          lt,
        ))
  ]

  at-IsMissing :
      (j : ℕ)
      → Dec (j ≤ longest m)
      → j ≤ length path
      → (j ≤ min (longest m) (length path) → lookup m (suffix path j) ≡ none)
      → IsMissing j
  at-IsMissing j (yes small) le h = rw (suffix-key path j) at (h (omega (arith, small, le)))
  at-IsMissing j (no big) le h = beyond-IsMissing j (omega arith) le

  found-IsLongest :
      (r : Option String) → IsFound m path (min (longest m) (length path)) r → IsLongest r
  found-IsLongest none h =
      λ j some_name le. at-IsMissing j (dec_le j (longest m)) le (λ small. h j some_name small)
  found-IsLongest (some to) (k, some_name, le, found, above) = (
    k,
    some_name,
    omega (arith, le),
    rw (suffix-key path k) at found,
    λ j lt within. at-IsMissing j (dec_le j (longest m)) within (λ small. above j lt small),
  )

  -- The new name of an element is that of the key of the most names that is a suffix of its path,
  -- where names are parted by slashes; it has none exactly if no key is a suffix.
  pub new_name-IsLongest : IsLongest (new_name m path)
  unfolding new_name
  new_name-IsLongest =
      found-IsLongest _ (renamed_from-IsFound m path (min (longest m) (length path)))
