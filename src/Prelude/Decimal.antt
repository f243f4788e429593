-- ===== src/Prelude/Decimal.antt =====
-- Decimal numbers read back: the reader stands for what a decimal text denotes.
use Prim.Native.Char.{code}
use ndc_mock.Prelude.{
  ℕ, zero, suc, ◌+◌, ◌-◌, ◌*◌, ◌/◌, ◌%◌, ◌<◌, ◌≡◌, refl, ◌∙◌, ap, inl, inr, Bool, false, ◌&&◌,
  String, ◌<>◌, <>_assoc, arith, ltb, leb, if◌then◌else◌, Bool-cases,
}
use ndc_mock.Prelude.Text.{digit, digits, itoa}

abbrev pub is_digit : ℕ → Bool
is_digit c = leb b'0' c && leb c b'9'

-- The number at the front of a text, after the digits in `acc`, and what stands behind it.
unfoldable pub read_nat : ℕ → String → ℕ × String
read_nat acc String.[] = (acc, String.[])
read_nat acc (String.◌∷◌ c s) =
    let rest = read_nat (acc * 10 + (code c - b'0')) s in
    if is_digit (code c) then rest else (acc, String.◌∷◌ c s)

read_nat-digit :
    (acc d : ℕ) (rest : String)
    → d < 10
    → read_nat acc (digit d <> rest) ≡ read_nat (acc * 10 + d) rest
unfolding read_nat digit
read_nat-digit acc zero rest h = refl
read_nat-digit acc (suc zero) rest h = refl
read_nat-digit acc (suc (suc zero)) rest h = refl
read_nat-digit acc (suc (suc (suc zero))) rest h = refl
read_nat-digit acc (suc (suc (suc (suc zero)))) rest h = refl
read_nat-digit acc (suc (suc (suc (suc (suc zero))))) rest h = refl
read_nat-digit acc (suc (suc (suc (suc (suc (suc zero)))))) rest h = refl
read_nat-digit acc (suc (suc (suc (suc (suc (suc (suc zero))))))) rest h = refl
read_nat-digit acc (suc (suc (suc (suc (suc (suc (suc (suc zero)))))))) rest h = refl
read_nat-digit acc (suc (suc (suc (suc (suc (suc (suc (suc (suc zero))))))))) rest h = refl
read_nat-digit acc (suc (suc (suc (suc (suc (suc (suc (suc (suc (suc n)))))))))) rest h =
    absurd (omega arith)

read_nat-digits :
    (fuel n : ℕ) (rest : String) → n < fuel → read_nat 0 (digits fuel n <> rest) ≡ read_nat n rest
unfolding digits
read_nat-digits zero n rest h = absurd (omega arith)
read_nat-digits (suc fuel) n rest h = elim (Bool-cases (ltb n 10)) [
  | inl small ↦
      rw small
        (read_nat-digit 0 n rest (ground arith) ∙ ap (λ (m : ℕ). read_nat m rest) (omega arith))
  | inr big ↦
      rw (big, <>_assoc (digits fuel (n / 10)) (digit (n % 10)) rest)
        (read_nat-digits fuel (n / 10) _ (ground arith)
          ∙ read_nat-digit (n / 10) (n % 10) rest (omega arith)
          ∙ ap (λ (m : ℕ). read_nat m rest) (omega arith))
]

-- Reading continues behind a printed number with that number.
pub read_nat-itoa : (n : ℕ) (rest : String) → read_nat 0 (itoa n <> rest) ≡ read_nat n rest
unfolding itoa
read_nat-itoa n rest = read_nat-digits (suc n) n rest (omega arith)

-- A text that does not begin with a digit.
abbrev pub NoDigit : String → Type 0
NoDigit String.[] = Unit {0}
NoDigit (String.◌∷◌ c s) = is_digit (code c) ≡ false

pub read_nat_stop : (acc : ℕ) (rest : String) → NoDigit rest → read_nat acc rest ≡ (acc, rest)
unfolding read_nat
read_nat_stop acc String.[] h = refl
read_nat_stop acc (String.◌∷◌ c s) h = rw h

-- Reading a printed number gives the number back, and leaves the rest.
pub read_nat-itoa_stop :
    (n : ℕ) (rest : String) → NoDigit rest → read_nat 0 (itoa n <> rest) ≡ (n, rest)
read_nat-itoa_stop n rest h = read_nat-itoa n rest ∙ read_nat_stop n rest h
