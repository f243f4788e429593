-- ===== src/Proxy/Files.antt =====
-- The numbers in the names of captures, and a disk without a file.
use ndc_mock.Prelude.{
  ℕ, ◌+◌, ◌<◌, ◌≤◌, ◌≡◌, ◌≢◌, refl, sym, ap, ◌∙◌, inl, inr, true, [], ◌∷◌, String, ◌<>◌, <>_nil,
  if◌then◌else◌, ◌==◌, string_eq, Bool-cases, str_eq-cases, arith, length, ltb,
}
use ndc_mock.Prelude.Text.{itoa}
use ndc_mock.Prelude.Decimal.{is_digit, read_nat, read_nat-itoa_stop}
use ndc_mock.Prelude.Numerals.{AllPass, itoa-AllPass}
use ndc_mock.Template.Scan.{width}
use ndc_mock.Proxy.{Disk, zeros, padded, is_there}

width-<> : (s t : String) → width (s <> t) ≡ width s + width t
width-<> String.[] t = omega arith
width-<> (String.◌∷◌ c s) t = omega (arith, width-<> s t)

cons_tail : (s t : String) (c d : _) → String.◌∷◌ c s ≡ String.◌∷◌ d t → s ≡ t
cons_tail s t c d e = cc

pub cancel_right : (s t u : String) → s <> u ≡ t <> u → s ≡ t
cancel_right String.[] String.[] u e = refl
cancel_right String.[] (String.◌∷◌ c t) u e = absurd (omega (arith, ap width e, width-<> t u))
cancel_right (String.◌∷◌ c s) String.[] u e = absurd (omega (arith, ap width e, width-<> s u))
cancel_right (String.◌∷◌ c s) (String.◌∷◌ d t) u e =
    let rest : s ≡ t = cancel_right s t u (cc) in cc

read-zeros : (n : ℕ) (s : String) → read_nat 0 (zeros n s) ≡ read_nat 0 s
unfolding zeros read_nat
read-zeros n s = elim (Bool-cases (ltb n 10)) [
  | inl one ↦ rw one refl
  | inr more ↦ elim (Bool-cases (ltb n 100)) [
    | inl two ↦ rw (more, two) refl
    | inr three ↦ rw (more, three) refl
  ]
]

zeros-AllPass : (n : ℕ) (s : String) → AllPass is_digit s → AllPass is_digit (zeros n s)
unfolding zeros
zeros-AllPass n s h = elim (Bool-cases (ltb n 10)) [
  | inl one ↦ rw one (refl, (refl, h))
  | inr more ↦ elim (Bool-cases (ltb n 100)) [
    | inl two ↦ rw (more, two) (refl, h)
    | inr three ↦ rw (more, three) h
  ]
]

padded-zeros : (n : ℕ) → padded n ≡ zeros n (itoa n)
unfolding padded
padded-zeros n = refl

read-padded : (n : ℕ) → read_nat 0 (padded n) ≡ (n, "")
read-padded n =
    let digits : read_nat 0 (itoa n) ≡ (n, "") =
      rw (<>_nil (itoa n)) at (read_nat-itoa_stop n "" tt) in
    rw (padded-zeros n) (read-zeros n (itoa n) ∙ digits)

pub padded-AllPass : (n : ℕ) → AllPass is_digit (padded n)
padded-AllPass n = rw (padded-zeros n) (zeros-AllPass n (itoa n) (itoa-AllPass n))

pub padded-inj : (m n : ℕ) → padded m ≡ padded n → m ≡ n
padded-inj m n e = ap (λ r. r.0) (sym (read-padded m) ∙ (ap (λ s. read_nat 0 s) e ∙ read-padded n))

-- The files of the other paths.
pub erase : String → Disk → Disk
erase p [] = []
erase p ((k, v) ∷ d) = let rest = erase p d in if k == p then rest else (k, v) ∷ rest

length-erase_le : (p : String) (d : Disk) → length (erase p d) ≤ length d
unfolding erase
length-erase_le p [] = omega arith
length-erase_le p ((k, v) ∷ d) = ground (arith, length-erase_le p d)

is_there-cons :
    (k v q : String) (d : Disk) → is_there ((k, v) ∷ d) q ≡ (if k == q then true else is_there d q)
unfolding is_there
is_there-cons k v q d = refl

is_there-nil : (q : String) → is_there [] q ≢ true
unfolding is_there
is_there-nil q e = cc

pub length-erase : (p : String) (d : Disk) → is_there d p ≡ true → length (erase p d) < length d
unfolding erase
length-erase p [] h = absurd (is_there-nil p h)
length-erase p ((k, v) ∷ d) h = elim (Bool-cases (k == p)) [
  | inl same ↦ rw same (omega (arith, length-erase_le p d))
  | inr differs ↦
      rw differs (omega (arith, length-erase p d (rw (is_there-cons k v p d, differs) at h)))
]

pub is_there-erase : (p q : String) (d : Disk) → p ≢ q → is_there (erase p d) q ≡ is_there d q
unfolding erase
is_there-erase p q [] ne = refl
is_there-erase p q ((k, v) ∷ d) ne = elim (str_eq-cases k p) [
  | inl (same, e) ↦ elim (str_eq-cases k q) [
    | inl (also, f) ↦ absurd (ne (sym e ∙ f))
    | inr (other, f) ↦ rw (same, is_there-cons k v q d, other) (is_there-erase p q d ne)
  ]
  | inr (differs, e) ↦
      rw (differs, is_there-cons k v q (erase p d), is_there-cons k v q d, is_there-erase p q d ne)
        refl
]
