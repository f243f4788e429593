-- ===== src/Template/Chunk/RoundTrip.antt =====
-- A chunk as a text with markers, cut again.
use Prim.Native.Char.{Char, code}
use ndc_mock.Prelude.{
  ℕ, zero, suc, ◌+◌, ◌^◌, ◌<◌, ◌≤◌, ◌≡◌, refl, ◌∙◌, sym, ap, true, some, none, List, [], ◌∷◌, ◌++◌,
  map, String, ◌<>◌, <>_nil, <>_assoc, arith, ◌!=◌, nat_eq, All,
}
use ndc_mock.Prelude.Text.{itoa, cut_prefix}
use ndc_mock.Prelude.Decimal.{is_digit}
use ndc_mock.Prelude.Numerals.{AllPass, itoa-AllPass, itoa-ne, span1-<>, atoi-itoa}
use ndc_mock.Template.Scan.{Hits, width, before_hits, hits_from, hits}
use ndc_mock.Template.Chunk.{nul, lettered, marker, scanned, chunk_of, new_chunk, mark}

-- A text without the character 0.
abbrev pub NulFree : String → Type 0
NulFree = AllPass (λ c. c != 0)

-- The parts before the slots, with the slots as markers, and the last part.
unfoldable pub spelled : List (String × ℕ) → String → String
unfolding mark
spelled [] behind = behind
spelled ((t, n) ∷ hs) behind = t <> (mark "" n <> spelled hs behind)

marker-mark : (n : ℕ) (rest : String) → n < 2 ^ 63 → marker (mark "" n <> rest) ≡ some (n, rest)
unfolding marker lettered mark cut_prefix scanned
marker-mark n rest lt = rw (
  <>_assoc (itoa n) nul rest,
  span1-<> is_digit (itoa n) (nul <> rest) (itoa-AllPass n) refl (itoa-ne n),
  atoi-itoa n lt,
)

width-<> : (s t : String) → width (s <> t) ≡ width s + width t
width-<> String.[] t = omega arith
width-<> (String.◌∷◌ c s) t = omega (arith, width-<> s t)

marker-other : (c : Char) (s : String) → (code c != 0) ≡ true → marker (String.◌∷◌ c s) ≡ none
unfolding marker lettered cut_prefix
marker-other c s h = ground arith

before_hits-nil : (x : Hits ℕ) → before_hits "" x ≡ x
unfolding before_hits
before_hits-nil ([], behind) = refl
before_hits-nil ((t, n) ∷ hs, behind) = refl

before_hits-before_hits :
    (s t : String) (x : Hits ℕ) → before_hits s (before_hits t x) ≡ before_hits (s <> t) x
unfolding before_hits
before_hits-before_hits s t ([], behind) = rw (<>_assoc s t behind)
before_hits-before_hits s t ((u, n) ∷ hs, behind) = rw (<>_assoc s t u)

hits_from_miss :
    (fuel : ℕ) (c : Char) (s : String)
    → marker (String.◌∷◌ c s) ≡ none
    → hits_from (suc fuel) marker (String.◌∷◌ c s)
      ≡ before_hits (String.◌∷◌ c String.[]) (hits_from fuel marker s)
unfolding hits_from
hits_from_miss fuel c s h = rw (h, hits_from)

hits_from_hit :
    (fuel : ℕ) (c : Char) (s : String) (n : ℕ) (rest : String)
    → marker (String.◌∷◌ c s) ≡ some (n, rest)
    → hits_from (suc fuel) marker (String.◌∷◌ c s)
      ≡ ((("", n) ∷ (hits_from fuel marker rest).0), (hits_from fuel marker rest).1)
unfolding hits_from
hits_from_hit fuel c s n rest h = rw (h, hits_from)

hits_from-nil : (fuel : ℕ) → hits_from fuel marker "" ≡ ([], "")
unfolding hits_from
hits_from-nil zero = refl
hits_from-nil (suc fuel) = refl

hits_from-mark :
    (fuel n : ℕ) (s : String) {hs : List (String × ℕ)} {behind : String}
    → n < 2 ^ 63
    → width (mark "" n <> s) ≤ fuel
    → ((f : ℕ) → width s ≤ f → hits_from f marker s ≡ (hs, behind))
    → hits_from fuel marker (mark "" n <> s) ≡ (("", n) ∷ hs, behind)
unfolding mark
hits_from-mark zero n s lt fits after = absurd (omega arith)
hits_from-mark (suc fuel) n s {hs} {behind} lt fits after =
    let e = after fuel (omega (arith, width-<> (itoa n <> nul) s)) in
    hits_from_hit fuel _ _ n s (marker-mark n s lt) ∙ ap (λ (x : Hits ℕ). ((("", n) ∷ x.0), x.1)) e

-- The characters before a marker are no matches.
hits_from-text :
    (fuel : ℕ) (t rest : String)
    → NulFree t
    → width (t <> rest) ≤ fuel
    → (left : ℕ) × (width rest ≤ left)
      × (hits_from fuel marker (t <> rest) ≡ before_hits t (hits_from left marker rest))
hits_from-text fuel String.[] rest h fits =
    (fuel, fits, sym (before_hits-nil (hits_from fuel marker rest)))
hits_from-text zero (String.◌∷◌ c t) rest h fits = absurd (omega arith)
hits_from-text (suc fuel) (String.◌∷◌ c t) rest (here, h) fits =
    let (left, enough, same) = hits_from-text fuel t rest h (omega arith) in
    (
      left,
      enough,
      hits_from_miss fuel c (t <> rest) (marker-other c (t <> rest) here)
          ∙ ap (before_hits (String.◌∷◌ c String.[])) same
          ∙ before_hits-before_hits (String.◌∷◌ c String.[]) t (hits_from left marker rest),
    )

hits_from-spelled :
    (fuel : ℕ) (hs : List (String × ℕ)) (behind : String)
    → All (λ h. NulFree h.0 × (h.1 < 2 ^ 63)) hs
    → NulFree behind
    → width (spelled hs behind) ≤ fuel
    → hits_from fuel marker (spelled hs behind) ≡ (hs, behind)
unfolding spelled before_hits
hits_from-spelled fuel [] behind hn bn fits =
    let (left, enough, same) = hits_from-text fuel behind "" bn (rw (<>_nil behind) fits) in
    ap (hits_from fuel marker) (sym (<>_nil behind))
    ∙ same
    ∙ ap (before_hits behind) (hits_from-nil left)
    ∙ ap (λ (u : String). ([], u)) (<>_nil behind)
hits_from-spelled fuel ((t, n) ∷ hs) behind ((tn, small), hn) bn fits =
    let (left, enough, same) = hits_from-text fuel t (mark "" n <> spelled hs behind) tn fits in
    same
    ∙ ap (before_hits t) (
        hits_from-mark left n (spelled hs behind) small enough
          (λ f fits'. hits_from-spelled f hs behind hn bn fits'))
    ∙ ap (λ (u : String). (((u, n) ∷ hs), behind)) (<>_nil t)

-- A text of parts without the character 0 and of markers of slots, with numbers below 2 ^ 63, between
-- them is cut into these parts and slots.
pub new_chunk-spelled :
    (hs : List (String × ℕ)) (behind : String)
    → All (λ h. NulFree h.0 × (h.1 < 2 ^ 63)) hs
    → NulFree behind
    → new_chunk (spelled hs behind)
      ≡ record { parts = map (λ h. h.0) hs ++ (behind ∷ []); slots = map (λ h. h.1) hs }
unfolding new_chunk hits chunk_of
new_chunk-spelled hs behind hn bn =
    ap chunk_of (hits_from-spelled (width (spelled hs behind)) hs behind hn bn (omega arith))
