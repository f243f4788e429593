-- ===== src/Prelude/Splits.antt =====
-- Texts that are taken apart at a character that they do not hold.
use Prim.Native.Char.{Char, code}
use ndc_mock.Prelude.{
  ℕ, zero, suc, ◌≡◌, ◌≢◌, refl, ap, ◌∙◌, inl, inr, Bool, true, false, ◌&&◌, some, List, [], ◌∷◌,
  String, ◌<>◌, if◌then◌else◌, ◌==◌, nat_eq, Bool-cases, All, arith,
}
use ndc_mock.Prelude.Text.{cut, split, split_from, join, exactly, cut_prefix}
use ndc_mock.Prelude.Numerals.{AllPass}

-- A character other than `c`.
abbrev pub other_than : ℕ → ℕ → Bool
other_than c x = if x == c then false else true

differs_from : (c x : ℕ) → other_than c x ≡ true → x == c ≡ false
differs_from c x h = elim (Bool-cases (x == c)) [
  | inl same ↦ absurd (false_ne (rw same at h))
  | inr differs ↦ differs
]
  where
    false_ne : ◌≢◌ {A = Bool} false true
    false_ne e = cc

pub AllPass-weaken :
    (p q : ℕ → Bool) (s : String) → ((c : ℕ) → p c ≡ true → q c ≡ true) → AllPass p s → AllPass q s
AllPass-weaken p q String.[] w h = tt
AllPass-weaken p q (String.◌∷◌ c s) w (here, h) = (w (code c) here, AllPass-weaken p q s w h)

-- A text without the separator, up to its end or up to a separator.
pub cut-whole : (c : ℕ) (s : String) → AllPass (other_than c) s → cut c s ≡ (s, "", false)
unfolding cut
cut-whole c String.[] h = refl
cut-whole c (String.◌∷◌ x s) (here, h) = rw (differs_from c (code x) here, cut-whole c s h)

same_code : (x : Char) → code x == code x ≡ true
same_code x = ground arith

pub cut-sep :
    (x : Char) (s t : String)
    → AllPass (other_than (code x)) s
    → cut (code x) (s <> String.◌∷◌ x t) ≡ (s, t, true)
unfolding cut
cut-sep x String.[] t h = rw (same_code x)
cut-sep x (String.◌∷◌ y s) t (here, h) = rw (differs_from (code x) (code y) here, cut-sep x s t h)

pub split-whole : (c : ℕ) (s : String) → AllPass (other_than c) s → split c s ≡ s ∷ []
unfolding split split_from
split-whole c String.[] h = refl
split-whole c (String.◌∷◌ x s) (here, h) = rw (differs_from c (code x) here, split-whole c s h)

pub split-sep :
    (x : Char) (s t : String)
    → AllPass (other_than (code x)) s
    → split (code x) (s <> String.◌∷◌ x t) ≡ s ∷ split (code x) t
unfolding split split_from
split-sep x String.[] t h = rw (same_code x)
split-sep x (String.◌∷◌ y s) t (here, h) =
    rw (differs_from (code x) (code y) here, split-sep x s t h)

-- What is joined at a character that no part holds is taken apart into the parts.
pub split-join :
    (x : Char) (s : String) (ss : List String)
    → All (AllPass (other_than (code x))) (s ∷ ss)
    → split (code x) (join (String.◌∷◌ x String.[]) (s ∷ ss)) ≡ s ∷ ss
unfolding join
split-join x s [] (h, _) = split-whole (code x) s h
split-join x s (t ∷ ss) (h, hs) =
    split-sep x s (join (String.◌∷◌ x String.[]) (t ∷ ss)) h
    ∙ ap (λ l. s ∷ l) (split-join x t ss hs)

-- `n` characters that pass.
pub data Passes (p : ℕ → Bool) : ℕ → String → Type 0 where
  done : Passes p zero String.[]
  one_more :
      {n : ℕ} {s : String} (c : Char)
      → p (code c) ≡ true
      → Passes p n s
      → Passes p (suc n) (String.◌∷◌ c s)

pub exactly-<> :
    (p : ℕ → Bool) {n : ℕ} {s : String} (t : String)
    → Passes p n s
    → exactly p n (s <> t) ≡ some (s, t)
unfolding exactly
exactly-<> p t done = refl
exactly-<> p t (one_more c here h) = rw (here, exactly-<> p t h)

pub Passes-AllPass : (p : ℕ → Bool) {n : ℕ} {s : String} → Passes p n s → AllPass p s
Passes-AllPass p done = tt
Passes-AllPass p (one_more c here h) = (here, Passes-AllPass p h)

pub cut_prefix-<> : (p s : String) → cut_prefix p (p <> s) ≡ some s
unfolding cut_prefix
cut_prefix-<> String.[] s = refl
cut_prefix-<> (String.◌∷◌ c p) s = rw (same_code c, cut_prefix-<> p s)

-- Whether every character passes.
abbrev pub all_pass : (ℕ → Bool) → String → Bool
all_pass p String.[] = true
all_pass p (String.◌∷◌ c s) = p (code c) && all_pass p s

pub all_pass-AllPass : (p : ℕ → Bool) (s : String) → all_pass p s ≡ true → AllPass p s
all_pass-AllPass p String.[] h = tt
all_pass-AllPass p (String.◌∷◌ c s) h = (ground arith, all_pass-AllPass p s (ground arith))
