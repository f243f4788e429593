-- ===== src/Translate/Steps/Report.antt =====
-- `report`: how many distinct names of the translated tree the mapping accounts for.
use mathlib.Core.List.{append-nil, append_assoc}
use native.Mathlib.Nat.{div-le_of_le-mul}
use ndc_mock.Prelude.{
  ◌∙◌, true, false, ◌/◌, ◌≤◌, ◌≡◌, refl, not, keep_if, arith, Bool-cases, inl, inr, ap, sym, zero,
  suc, Bool, take, ℕ, ◌+◌, ◌*◌, ◌/◌, List, [], ◌∷◌, ◌++◌, String, if◌then◌else◌, ◌==◌, nat_eq, ltb,
  length,
}
use ndc_mock.Tree.{Node, Kids, elem, no_kids, kid, local_name}
use ndc_mock.Translate.Penalties.{contains}
use ndc_mock.Translate.Listed.{listed, contains-listed}

pub record Report : Type 0 where
  pub covered : ℕ
  pub unverified : ℕ
  pub samples : List String

-- The names of a tree in the order of a walk.
unfoldable mutual
  unfolding local_name

  pub names : Node → List String
  names (elem s al ks t) = local_name s ∷ names_of ks

  pub names_of : Kids → List String
  names_of no_kids = []
  names_of (kid k ks) = names k ++ names_of ks

-- One call of the walk's function, with the names that were seen.
count : List String → String → Report → Report
unfolding contains
count cov s r = if contains cov s then record r { covered = r.covered + 1 } else record r {
  unverified = r.unverified + 1;
  samples = if ltb (length r.samples) 12 then r.samples ++ (s ∷ []) else r.samples;
}

unfoldable pub report_from : List String → List String → Report → List String → Report
unfolding count contains
report_from cov seen r [] = r
report_from cov seen r (s ∷ ss) =
    let again = contains seen s in
    report_from cov (if again then seen else s ∷ seen) (if again then r else count cov s r) ss

unfoldable pub report : List String → Node → Report
unfolding report_from names
report cov root =
    report_from cov [] (record { covered = 0; unverified = 0; samples = [] }) (names root)

-- The share of the distinct names that the mapping accounts for.
unfoldable pub coverage : Report → ℕ
coverage r =
    let total = r.covered + r.unverified in if total == 0 then 100 else r.covered * 100 / total

-- The names that the walk meets for the first time, in order.
unfoldable pub fresh : List String → List String → List String
unfolding listed
fresh seen [] = []
fresh seen (s ∷ ss) =
    let rest = fresh (if listed seen s then seen else s ∷ seen) ss in
    if listed seen s then rest else s ∷ rest

-- How a report stands to one after the names `ns`, none of which comes twice.
abbrev pub IsCounted : List String → List String → Report → Report → Type 0
IsCounted cov ns r r' =
    (r'.covered ≡ r.covered + length (keep_if (listed cov) ns))
    × (r'.unverified ≡ r.unverified + length (keep_if (λ s. not (listed cov s)) ns))
    × ((us : List String)
        → r.samples ≡ take 12 us
        → r'.samples ≡ take 12 (us ++ keep_if (λ s. not (listed cov s)) ns))

take-nil : (n : ℕ) → take {A = String} n [] ≡ []
take-nil zero = refl
take-nil (suc n) = refl

-- Taking from a list that is one longer.
take-last :
    (n : ℕ) (us : List String) (s : String)
    → (if ltb (length (take n us)) n then take n us ++ (s ∷ []) else take n us)
      ≡ take n (us ++ (s ∷ []))
take-last zero us s = refl
take-last (suc n) [] s =
    let room : ltb 0 (suc n) ≡ true = ground arith in rw (room, take-nil n) refl
take-last (suc n) (u ∷ us) s =
    let same : ltb (suc (length (take n us))) (suc n) ≡ ltb (length (take n us)) n = ground arith in
    elim (Bool-cases (ltb (length (take n us)) n)) [
      | inl room ↦ rw (same, room) (ap (λ l. u ∷ l) (rw room at (take-last n us s)))
      | inr full ↦ rw (same, full) (ap (λ l. u ∷ l) (rw full at (take-last n us s)))
    ]

count-samples :
    (cov : List String) (s : String) (r : Report)
    → contains cov s ≡ false
    → (count cov s r).samples
      ≡ (if ltb (length r.samples) 12 then r.samples ++ (s ∷ []) else r.samples)
unfolding count
count-samples cov s r unknown = rw unknown refl

count-IsCounted :
    (cov : List String) (s : String) (r : Report) → IsCounted cov (s ∷ []) r (count cov s r)
unfolding count
count-IsCounted cov s r = elim (Bool-cases (listed cov s)) [
  | inl known ↦
      rw (contains-listed cov s, known)
        (omega arith, omega arith, λ us h. h ∙ ap (take 12) (sym (append-nil us)))
  | inr unknown ↦
      rw (contains-listed cov s, unknown)
        (omega arith, omega arith, λ us h. rw h (take-last 12 us s))
]

report_from-again :
    (cov seen : List String) (r : Report) (s : String) (ss : List String)
    → listed seen s ≡ true
    → (report_from cov seen r (s ∷ ss) ≡ report_from cov seen r ss)
      × (fresh seen (s ∷ ss) ≡ fresh seen ss)
unfolding report_from fresh
report_from-again cov seen r s ss h = (rw (contains-listed seen s, h, report_from), rw (h, fresh))

report_from-new :
    (cov seen : List String) (r : Report) (s : String) (ss : List String)
    → listed seen s ≡ false
    → (report_from cov seen r (s ∷ ss) ≡ report_from cov (s ∷ seen) (count cov s r) ss)
      × (fresh seen (s ∷ ss) ≡ s ∷ fresh (s ∷ seen) ss)
unfolding report_from fresh
report_from-new cov seen r s ss h = (rw (contains-listed seen s, h, report_from), rw (h, fresh))

keep_if-cons :
    (p : String → Bool) (s : String) (ns : List String)
    → keep_if p (s ∷ ns) ≡ keep_if p (s ∷ []) ++ keep_if p ns
keep_if-cons p s ns = elim (Bool-cases (p s)) [ inl e ↦ rw e refl | inr e ↦ rw e refl ]

IsCounted-trans :
    (cov : List String) (s : String) (ns : List String) (r t u : Report)
    → IsCounted cov (s ∷ []) r t
    → IsCounted cov ns t u
    → IsCounted cov (s ∷ ns) r u
IsCounted-trans cov s ns r t u (c, v, e) (c', v', e') =
    let p : String → Bool = λ x. not (listed cov x) in
    (
      ground arith,
      ground arith,
      λ us h.
          e' (us ++ keep_if p (s ∷ [])) (e us h)
          ∙ ap (take 12) (
              append_assoc us (keep_if p (s ∷ [])) (keep_if p ns)
              ∙ ap (λ l. us ++ l) (sym (keep_if-cons p s ns))),
    )

report_from-empty :
    (cov seen : List String) (r : Report) → (report_from cov seen r [] ≡ r) × (fresh seen [] ≡ [])
unfolding report_from fresh
report_from-empty cov seen r = (refl, refl)

report_from-IsCounted :
    (cov seen : List String) (r : Report) (ss : List String)
    → IsCounted cov (fresh seen ss) r (report_from cov seen r ss)
report_from-IsCounted cov seen r [] =
    let (same, none_new) = report_from-empty cov seen r in
    rw (same, none_new) (omega arith, omega arith, λ us h. h ∙ ap (take 12) (sym (append-nil us)))
report_from-IsCounted cov seen r (s ∷ ss) = elim (Bool-cases (listed seen s)) [
  | inl again ↦
      let (same, old) = report_from-again cov seen r s ss again in
      rw (same, old) (report_from-IsCounted cov seen r ss)
  | inr new ↦
      let (same, more) = report_from-new cov seen r s ss new in
      rw (same, more)
        (IsCounted-trans cov s (fresh (s ∷ seen) ss) r (count cov s r) _ (count-IsCounted cov s r)
          (report_from-IsCounted cov (s ∷ seen) (count cov s r) ss))
]

coverage-le : (r : Report) → coverage r ≤ 100
unfolding coverage
coverage-le r = elim (Bool-cases (r.covered + r.unverified == 0)) [
  | inl nothing ↦ rw nothing (omega arith)
  | inr something ↦ rw something (div-le_of_le-mul (r.covered + r.unverified) (omega arith))
]

-- A report counts each distinct name of the tree once, as covered if the mapping accounts for it
-- and as unverified otherwise, its samples are the first twelve of the unverified names in the order
-- of the walk, and its coverage is at most 100.
pub report-IsCounted :
    (cov : List String) (root : Node)
    → let r = report cov root in
      let ns = fresh [] (names root) in
      (r.covered ≡ length (keep_if (listed cov) ns))
      × (r.unverified ≡ length (keep_if (λ s. not (listed cov s)) ns))
      × (r.samples ≡ take 12 (keep_if (λ s. not (listed cov s)) ns))
      × (coverage r ≤ 100)
unfolding report
report-IsCounted cov root =
    let (c, u, e) =
      report_from-IsCounted cov [] (record { covered = 0; unverified = 0; samples = [] })
        (names root) in
    (c ∙ omega arith, u ∙ omega arith, e [] refl, coverage-le (report cov root))
