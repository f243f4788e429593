-- ===== src/Prelude/Numerals.antt =====
-- Printed numbers as texts of digits, and `Atoi` on them.
use Prim.Native.Char.{code}
use ndc_mock.Prelude.{
  ℕ, zero, suc, ◌+◌, ◌-◌, ◌*◌, ◌/◌, ◌%◌, ◌^◌, ◌<◌, ◌≡◌, ◌≢◌, refl, ◌∙◌, sym, ap, inl, inr, Bool,
  true, false, some, String, ◌<>◌, <>_nil, <>_ne_right, arith, ltb, Bool-cases, nat_eq, string_eq,
  eq_iff,
}
use text.Mathlib.TextLemmas.{nil≢cons}
use ndc_mock.Prelude.Int.{pos}
use ndc_mock.Prelude.Text.{
  digit, digits, itoa, num, atoi, all_digits, magnitude, above, span, span1,
}
use ndc_mock.Prelude.Decimal.{is_digit, read_nat, read_nat-itoa_stop}

-- Every character passes a test.
abbrev pub AllPass : (ℕ → Bool) → String → Type 0
AllPass p String.[] = Unit {0}
AllPass p (String.◌∷◌ c s) = (p (code c) ≡ true) × AllPass p s

-- A text that does not begin with a character that passes.
abbrev pub Stops : (ℕ → Bool) → String → Type 0
Stops p String.[] = Unit {0}
Stops p (String.◌∷◌ c s) = p (code c) ≡ false

pub AllPass-<> : (p : ℕ → Bool) (s t : String) → AllPass p s → AllPass p t → AllPass p (s <> t)
AllPass-<> p String.[] t h k = k
AllPass-<> p (String.◌∷◌ c s) t (here, h) k = (here, AllPass-<> p s t h k)

-- What `span` takes off is the text that passes, up to where it stops.
pub span-<> : (p : ℕ → Bool) (s t : String) → AllPass p s → Stops p t → span p (s <> t) ≡ (s, t)
unfolding span
span-<> p String.[] String.[] h k = refl
span-<> p String.[] (String.◌∷◌ c t) h k = rw k
span-<> p (String.◌∷◌ c s) t (here, h) k = rw (here, span-<> p s t h k)

pub span1-<> :
    (p : ℕ → Bool) (s t : String)
    → AllPass p s
    → Stops p t
    → ◌≢◌ {A = String} s ""
    → span1 p (s <> t) ≡ some (s, t)
unfolding span1
span1-<> p s t h k ne = rw (span-<> p s t h k) (ground (arith, eq_iff s ""))

digit-AllPass : (d : ℕ) → AllPass is_digit (digit d)
unfolding digit
digit-AllPass zero = (refl, tt)
digit-AllPass (suc zero) = (refl, tt)
digit-AllPass (suc (suc zero)) = (refl, tt)
digit-AllPass (suc (suc (suc zero))) = (refl, tt)
digit-AllPass (suc (suc (suc (suc zero)))) = (refl, tt)
digit-AllPass (suc (suc (suc (suc (suc zero))))) = (refl, tt)
digit-AllPass (suc (suc (suc (suc (suc (suc zero)))))) = (refl, tt)
digit-AllPass (suc (suc (suc (suc (suc (suc (suc zero))))))) = (refl, tt)
digit-AllPass (suc (suc (suc (suc (suc (suc (suc (suc zero)))))))) = (refl, tt)
digit-AllPass (suc (suc (suc (suc (suc (suc (suc (suc (suc d))))))))) = (refl, tt)

digits-AllPass : (fuel n : ℕ) → AllPass is_digit (digits fuel n)
unfolding digits
digits-AllPass zero n = tt
digits-AllPass (suc fuel) n = elim (Bool-cases (ltb n 10)) [
  | inl small ↦ rw small (digit-AllPass n)
  | inr big ↦ rw big (
      AllPass-<> is_digit (digits fuel (n / 10)) (digit (n % 10)) (digits-AllPass fuel (n / 10))
        (digit-AllPass (n % 10)))
]

pub itoa-AllPass : (n : ℕ) → AllPass is_digit (itoa n)
unfolding itoa
itoa-AllPass n = digits-AllPass (suc n) n

digit-ne : (d : ℕ) → ◌≢◌ {A = String} (digit d) ""
unfolding digit
digit-ne zero e = nil≢cons (sym e)
digit-ne (suc zero) e = nil≢cons (sym e)
digit-ne (suc (suc zero)) e = nil≢cons (sym e)
digit-ne (suc (suc (suc zero))) e = nil≢cons (sym e)
digit-ne (suc (suc (suc (suc zero)))) e = nil≢cons (sym e)
digit-ne (suc (suc (suc (suc (suc zero))))) e = nil≢cons (sym e)
digit-ne (suc (suc (suc (suc (suc (suc zero)))))) e = nil≢cons (sym e)
digit-ne (suc (suc (suc (suc (suc (suc (suc zero))))))) e = nil≢cons (sym e)
digit-ne (suc (suc (suc (suc (suc (suc (suc (suc zero)))))))) e = nil≢cons (sym e)
digit-ne (suc (suc (suc (suc (suc (suc (suc (suc (suc d))))))))) e = nil≢cons (sym e)

pub itoa-ne : (n : ℕ) → ◌≢◌ {A = String} (itoa n) ""
unfolding itoa digits
itoa-ne n = elim (Bool-cases (ltb n 10)) [
  | inl small ↦ rw small (digit-ne n)
  | inr big ↦ rw big (<>_ne_right (digits n (n / 10)) (digit (n % 10)) (digit-ne (n % 10)))
]

all_digits-read_nat :
    (acc : ℕ) (s : String) → AllPass is_digit s → all_digits acc s ≡ some (read_nat acc s).0
unfolding all_digits read_nat
all_digits-read_nat acc String.[] h = refl
all_digits-read_nat acc (String.◌∷◌ c s) (here, h) =
    ground (arith, all_digits-read_nat (acc * 10 + (code c - b'0')) s h)

atoi-digits :
    (s : String) (n : ℕ)
    → AllPass is_digit s
    → ◌≢◌ {A = String} s ""
    → all_digits 0 s ≡ some n
    → n < 2 ^ 63
    → atoi s ≡ num (pos n)
unfolding atoi magnitude above
atoi-digits String.[] n h ne e lt = absurd (ne refl)
atoi-digits (String.◌∷◌ c s) n (here, h) ne e lt = ground arith

-- `Atoi` reads a printed number back.
pub atoi-itoa : (n : ℕ) → n < 2 ^ 63 → atoi (itoa n) ≡ num (pos n)
atoi-itoa n lt =
    atoi-digits (itoa n) n (itoa-AllPass n) (itoa-ne n)
      (all_digits-read_nat 0 (itoa n) (itoa-AllPass n)
        ∙ ap (λ t. some (read_nat 0 t).0) (sym (<>_nil (itoa n)))
        ∙ ap (λ r. some r.0) (read_nat-itoa_stop n "" tt))
      lt
