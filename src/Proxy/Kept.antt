-- ===== src/Proxy/Kept.antt =====
-- What `record` leaves on disk.
use native.Mathlib.Nat.{mod-eq_of_lt}
use ndc_mock.Prelude.{
  ℕ, zero, suc, ◌+◌, ◌^◌, ◌<◌, ◌≡◌, ◌≢◌, refl, sym, ◌∙◌, inl, inr, Bool, true, false, some, String,
  ◌<>◌, <>_cancel_left, string_eq, Bool-cases, str_eq-cases, str_eq_self, eq_iff, arith, length,
}
use ndc_mock.Prelude.Decimal.{is_digit}
use ndc_mock.Prelude.Numerals.{AllPass}
use ndc_mock.Translate.Mapping.{lookup}
use ndc_mock.Proxy.{
  Disk, Proxy, padded, base_path, is_there, free_from, stored, stored_at, capture_name,
  record_exchange,
}
use ndc_mock.Proxy.Files.{
  cancel_right, padded-AllPass, padded-inj, erase, length-erase, is_there-erase,
}

free_from-zero :
    (join_path : String → String → String) (dir name : String) (d e : Disk) (seq : ℕ)
    → free_from join_path zero d dir name seq ≡ free_from join_path zero e dir name seq
unfolding free_from
free_from-zero join_path dir name d e seq = refl

-- `join_path` keeps apart the names of two captures of one operation and route.
module _ (join_path : String → String → String) (dir name : String)
    (joins : (s t : String)
      → AllPass is_digit s
      → AllPass is_digit t
      → join_path dir (name <> ("-" <> s)) ≡ join_path dir (name <> ("-" <> t))
      → s ≡ t) where
  abbrev response_at : ℕ → String
  response_at n = base_path join_path dir name n <> "-rs.xml"

  response_at-inj : (m n : ℕ) → response_at m ≡ response_at n → m ≡ n
  unfolding base_path
  response_at-inj m n e = padded-inj m n (
      joins (padded m) (padded n) (padded-AllPass m) (padded-AllPass n) (
        cancel_right (base_path join_path dir name m) (base_path join_path dir name n) "-rs.xml" e))

  free_from-there :
      (fuel : ℕ) (d : Disk) (seq : ℕ)
      → suc seq < 2 ^ 64
      → is_there d (response_at (suc seq)) ≡ true
      → free_from join_path (suc fuel) d dir name seq
        ≡ free_from join_path fuel d dir name (suc seq)
  unfolding free_from
  free_from-there fuel d seq lt h = rw (mod-eq_of_lt lt, h) refl

  free_from-here :
      (fuel : ℕ) (d : Disk) (seq : ℕ)
      → suc seq < 2 ^ 64
      → is_there d (response_at (suc seq)) ≡ false
      → free_from join_path (suc fuel) d dir name seq ≡ some (suc seq)
  unfolding free_from
  free_from-here fuel d seq lt h = rw (mod-eq_of_lt lt, h) refl

  -- Two disks that agree on the numbers to come.
  free_from-same :
      (fuel : ℕ) (d e : Disk) (seq : ℕ)
      → seq + fuel < 2 ^ 64
      → ((n : ℕ) → seq < n → is_there d (response_at n) ≡ is_there e (response_at n))
      → free_from join_path fuel d dir name seq ≡ free_from join_path fuel e dir name seq
  free_from-same zero d e seq lt same = free_from-zero join_path dir name d e seq
  free_from-same (suc fuel) d e seq lt same =
      let here = same (suc seq) (omega arith) in
      let l : suc seq < 2 ^ 64 = omega (arith, lt) in
      elim (Bool-cases (is_there e (response_at (suc seq)))) [
        | inl taken ↦
            free_from-there fuel d seq l (here ∙ taken)
            ∙ (free_from-same fuel d e (suc seq) (omega (arith, lt))
                  (λ n h. same n (omega (arith, h)))
                ∙ sym (free_from-there fuel e seq l taken))
        | inr free ↦
            free_from-here fuel d seq l (here ∙ free) ∙ sym (free_from-here fuel e seq l free)
      ]

  -- With more fuel than files the loop ends, at a number whose response is not on disk.
  free_from-found :
      (fuel : ℕ) (d : Disk) (seq : ℕ)
      → length d < fuel
      → seq + fuel < 2 ^ 64
      → (n : ℕ) × (free_from join_path fuel d dir name seq ≡ some n)
        × (seq < n)
        × (is_there d (response_at n) ≡ false)
  free_from-found zero d seq le lt = absurd (omega (arith, le))
  free_from-found (suc fuel) d seq le lt =
      let l : suc seq < 2 ^ 64 = omega (arith, lt) in
      let p = response_at (suc seq) in
      elim (Bool-cases (is_there d p)) [
        | inr free ↦ (suc seq, free_from-here fuel d seq l free, omega arith, free)
        | inl taken ↦
            let apart : (n : ℕ)
                → suc seq < n
                → is_there (erase p d) (response_at n) ≡ is_there d (response_at n) =
              λ n h.
                is_there-erase p (response_at n) d
                  (λ e. absurd (omega (arith, h, response_at-inj (suc seq) n e))) in
            let (n, found, above, free) =
              free_from-found fuel (erase p d) (suc seq) (omega (arith, le, length-erase p d taken))
                (omega (arith, lt)) in
            let same = free_from-same fuel (erase p d) d (suc seq) (omega (arith, lt)) apart in
            (
              n,
              free_from-there fuel d seq l taken ∙ (sym same ∙ found),
              omega (arith, above),
              sym (apart n above) ∙ free,
            )
      ]

clash : {b : Bool} → b ≡ false → b ≢ true
clash f t = absurd (cc)

record_exchange-some :
    (join_path : String → String → String) (p : Proxy) (d : Disk) (seq : ℕ) (op rq rs : String)
    (n : ℕ)
    → free_from join_path (suc (length d)) d p.record_to (capture_name op rq) seq ≡ some n
    → record_exchange join_path p d seq op rq rs
      ≡ some (stored join_path d p.record_to (capture_name op rq) rq rs n, n)
unfolding record_exchange stored_at
record_exchange-some join_path p d seq op rq rs n found = rw found refl

suffixes_differ : (s : String) → s <> "-rq.xml" ≢ s <> "-rs.xml"
suffixes_differ s e = absurd (ground (arith, eq_iff "-rq.xml" "-rs.xml", <>_cancel_left s e))

module _ (join_path : String → String → String) (d : Disk) (dir name rq rs : String) (n : ℕ) where
  stored-response :
      lookup (stored join_path d dir name rq rs n) (base_path join_path dir name n <> "-rs.xml")
      ≡ some rs
  unfolding stored lookup
  stored-response =
      let base = base_path join_path dir name n in
      elim (str_eq-cases (base <> "-rq.xml") (base <> "-rs.xml")) [
        | inl (same, e) ↦ absurd (suffixes_differ base e)
        | inr (differs, e) ↦ rw (differs, str_eq_self (base <> "-rs.xml")) refl
      ]

  stored-kept :
      (path : String)
      → is_there d (base_path join_path dir name n <> "-rs.xml") ≡ false
      → is_there d path ≡ true
      → path ≢ base_path join_path dir name n <> "-rq.xml"
      → lookup (stored join_path d dir name rq rs n) path ≡ lookup d path
  unfolding stored lookup
  stored-kept path free there ne =
      let base = base_path join_path dir name n in
      elim (str_eq-cases (base <> "-rq.xml") path) [
        | inl (same, e) ↦ absurd (ne (sym e))
        | inr (differs, e) ↦ elim (str_eq-cases (base <> "-rs.xml") path) [
          | inl (also, f) ↦ absurd (clash (rw f at free) there)
          | inr (other, f) ↦ rw (differs, other) refl
        ]
      ]

-- What `record` has done: the response is in a file that was not there, and every file keeps its
-- content, but for the request that belongs to that response.
pub record IsKept (join_path : String → String → String) (p : Proxy) (d : Disk) (seq : ℕ)
    (op rq rs : String) (d' : Disk) (n : ℕ) : Type 0 where
  pub records : record_exchange join_path p d seq op rq rs ≡ some (d', n)
  pub later : seq < n
  pub fresh :
      is_there d (base_path join_path p.record_to (capture_name op rq) n <> "-rs.xml") ≡ false
  pub response :
      lookup d' (base_path join_path p.record_to (capture_name op rq) n <> "-rs.xml") ≡ some rs
  pub kept :
      (path : String)
      → is_there d path ≡ true
      → path ≢ base_path join_path p.record_to (capture_name op rq) n <> "-rq.xml"
      → lookup d' path ≡ lookup d path

-- The recorder ends, and it overwrites no response: it takes the next number of the process whose
-- response is not on disk. It needs that the counter does not wrap around, and that `filepath.Join`
-- keeps apart names that differ in their numbers.
pub record_exchange-IsKept :
    (join_path : String → String → String) (p : Proxy) (d : Disk) (seq : ℕ) (op rq rs : String)
    → seq + suc (length d) < 2 ^ 64
    → ((s t : String)
        → AllPass is_digit s
        → AllPass is_digit t
        → join_path p.record_to (capture_name op rq <> ("-" <> s))
          ≡ join_path p.record_to (capture_name op rq <> ("-" <> t))
        → s ≡ t)
    → (d' : Disk) × (n : ℕ) × IsKept join_path p d seq op rq rs d' n
record_exchange-IsKept join_path p d seq op rq rs lt joins =
    let name = capture_name op rq in
    let (n, found, above, free) =
      free_from-found join_path p.record_to name joins (suc (length d)) d seq (omega arith) lt in
    (
      stored join_path d p.record_to name rq rs n,
      n,
      record {
        records = record_exchange-some join_path p d seq op rq rs n found;
        later = above;
        fresh = free;
        response = stored-response join_path d p.record_to name rq rs n;
        kept = λ path there ne. stored-kept join_path d p.record_to name rq rs n path free there ne;
      },
    )
