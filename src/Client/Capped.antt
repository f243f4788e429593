-- ===== src/Client/Capped.antt =====
-- The offers that `Search` returns, of those that the endpoint sent.
use mathlib.Core.List.{append-nil}
use ndc_mock.Prelude.{
  ℕ, zero, suc, ◌≤◌, ◌≡◌, ◌≢◌, refl, sym, ap, ◌∙◌, inl, inr, true, false, ◌&&◌, List, [], ◌∷◌, ◌++◌,
  String, ◌==◌, Bool-cases, arith, length, take,
}
use ndc_mock.Prelude.Int.{ℤ, pos, negsuc, ltb_ℤ, pos_part, int_eq}
use ndc_mock.Client.{
  SearchParams, Result, ok, error, has_negative, total_of, with_adult, in_upper, wrong_text,
  check_pax, validate,
}
use ndc_mock.Client.Checks.{passed_ok, ok_inj, pax_unless-ok}
use ndc_mock.Client.Transport.{
  Offer, Shopping, Net, Client, default_max_offers, limit_of, cap, map_ok, ask, searched, search,
}

-- How many offers are asked for: ten where the number is not positive.
unfoldable pub wanted : ℤ → ℕ
wanted (pos zero) = 10
wanted (pos (suc n)) = suc n
wanted (negsuc n) = 10

unfoldable pub drop {ℓ} : {A : Type ℓ} → ℕ → List A → List A
drop zero xs = xs
drop (suc n) [] = []
drop (suc n) (x ∷ xs) = drop n xs

-- The answer `s` holds the first offers of the answer `full` that was sent, as many as are wanted at
-- most, and says so if some are left out.
pub record IsCapped (n : ℕ) (full s : Shopping) : Type 0 where
  pub dropped : List Offer
  pub first : full.offers ≡ s.offers ++ dropped
  pub bounded : length s.offers ≤ n
  pub tight : dropped ≢ [] → length s.offers ≡ n
  pub flagged : dropped ≢ [] → s.truncated ≡ true
  pub left_alone : dropped ≡ [] → s ≡ full

take-drop : {A : Type 0} (n : ℕ) (xs : List A) → xs ≡ take n xs ++ drop n xs
unfolding drop
take-drop zero xs = refl
take-drop (suc n) [] = refl
take-drop (suc n) (x ∷ xs) = ap (λ l. x ∷ l) (take-drop n xs)

length-take_le : {A : Type 0} (n : ℕ) (xs : List A) → n ≤ length xs → length (take n xs) ≡ n
length-take_le zero xs h = refl
length-take_le (suc n) [] h = absurd (omega (arith, h))
length-take_le (suc n) (x ∷ xs) h = ap suc (length-take_le n xs (omega (arith, h)))

drop-ne : {A : Type 0} (n : ℕ) (xs : List A) → suc n ≤ length xs → drop n xs ≢ []
unfolding drop
drop-ne zero [] h = absurd (omega (arith, h))
drop-ne zero (x ∷ xs) h = λ e. cc
drop-ne (suc n) [] h = absurd (omega (arith, h))
drop-ne (suc n) (x ∷ xs) h = drop-ne n xs (omega (arith, h))

limit-pos : (max : ℤ) → limit_of max ≡ pos (wanted max)
unfolding limit_of default_max_offers wanted
limit-pos (pos zero) = refl
limit-pos (pos (suc n)) = ground arith
limit-pos (negsuc n) = ground arith

longer : (n m : ℕ) → ltb_ℤ (pos n) (pos m) ≡ true → suc n ≤ m
longer n m h = ground arith

no_longer : (n m : ℕ) → ltb_ℤ (pos n) (pos m) ≡ false → m ≤ n
no_longer n m h = ground arith

cap-IsCapped : (max : ℤ) (full : Shopping) → IsCapped (wanted max) full (cap max full)
unfolding cap
cap-IsCapped max full = elim (Bool-cases (ltb_ℤ (limit_of max) (pos (length full.offers)))) [
  | inl more ↦
      let count : pos_part (limit_of max) ≡ wanted max = ap pos_part (limit-pos max) in
      let lt = longer (wanted max) (length full.offers) (rw (limit-pos max) at more) in
      let len = length-take_le (wanted max) full.offers (omega (arith, lt)) in
      rw (more, count)
        (record {
          dropped = drop (wanted max) full.offers;
          first = take-drop (wanted max) full.offers;
          bounded = omega (arith, len);
          tight = λ ne. len;
          flagged = λ ne. refl;
          left_alone = λ e. absurd (drop-ne (wanted max) full.offers lt e);
        })
  | inr fits ↦
      let le = no_longer (wanted max) (length full.offers) (rw (limit-pos max) at fits) in
      rw fits (record {
        dropped = [];
        first = sym (append-nil full.offers);
        bounded = le;
        tight = λ ne. absurd (ne refl);
        flagged = λ ne. absurd (ne refl);
        left_alone = λ e. refl;
      })
]

check_pax-same : (p p' : SearchParams) → check_pax p ≡ ok p' → p ≡ p'
unfolding check_pax
check_pax-same p p' h =
    let (_, h₁) = passed_ok (has_negative p) _ _ p' h in
    let (_, h₂) = passed_ok (ltb_ℤ (pos 9) (total_of p)) _ _ p' h₁ in
    let (_, h₃) = passed_ok (ltb_ℤ p.adt p.inf) _ _ p' h₂ in ok_inj p p' h₃

with_adult-max : (p : SearchParams) → (with_adult p).max_offers ≡ p.max_offers
unfolding with_adult
with_adult-max p = elim (Bool-cases (p.adt == pos 0 && p.chd == pos 0 && p.inf == pos 0)) [
  | inl empty ↦ rw empty refl
  | inr some_one ↦ rw some_one refl
]

validate-max :
    (upper quote : String → String) (p p' : SearchParams)
    → validate upper quote p ≡ ok p'
    → p'.max_offers ≡ p.max_offers
unfolding validate in_upper
validate-max upper quote p p' h =
    let u = in_upper upper quote p in
    let (_, checked) = pax_unless-ok upper quote (wrong_text upper quote u) u p' h in
    let same = check_pax-same (with_adult u) p' checked in
    ap (λ x. x.max_offers) (sym same) ∙ with_adult-max u

module _ {W : Type 0} (N : Net W) (c : Client) where
  mapped-IsCapped :
      (max : ℤ) (r : Result Shopping) (s : Shopping)
      → map_ok (cap max) r ≡ ok s
      → (full : Shopping) × (r ≡ ok full) × IsCapped (wanted max) full s
  unfolding map_ok
  mapped-IsCapped max (ok full) s h =
      let same : cap max full ≡ s = cc in (full, refl, rw same at (cap-IsCapped max full))
  mapped-IsCapped max (error e) s h = absurd (cc)

  searched-IsCapped :
      (w : W) (r : Result SearchParams) (s : Shopping) (max : ℤ)
      → ((p : SearchParams) → r ≡ ok p → p.max_offers ≡ max)
      → (searched N c w r).1 ≡ ok s
      → (p : SearchParams) × (full : Shopping) × (r ≡ ok p)
        × ((ask N c w p).1 ≡ ok full)
        × IsCapped (wanted max) full s
  unfolding searched
  searched-IsCapped w (error e) s max same h = absurd (cc)
  searched-IsCapped w (ok p) s max same h =
      let (full, sent, capped) = mapped-IsCapped max (ask N c w p).1 s (rw (same p refl) at h) in
      (p, full, refl, sent, capped)

  -- A search that succeeds has passed the checks, and it returns the first of the offers that the
  -- endpoint answered with: all of them, or as many as are wanted (ten, where no positive number is
  -- given), flagged as truncated.
  pub search-IsCapped :
      (w : W) (p : SearchParams) (s : Shopping)
      → (search N c w p).1 ≡ ok s
      → (p' : SearchParams) × (full : Shopping) × (validate N.upper N.quote p ≡ ok p')
        × ((ask N c w p').1 ≡ ok full)
        × IsCapped (wanted p.max_offers) full s
  unfolding search
  search-IsCapped w p s h =
      searched-IsCapped w (validate N.upper N.quote p) s p.max_offers
        (λ p' e. validate-max N.upper N.quote p p' e) h
