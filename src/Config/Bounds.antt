-- ===== src/Config/Bounds.antt =====
-- Latencies that parse, and the ceilings.
use ndc_mock.Prelude.{
  ◌≡◌, ◌⊎◌, inl, inr, Bool, Option, none, some, String, ◌==◌, string_eq, arith, Bool-cases,
  Option-cases,
}
use ndc_mock.Prelude.Int.{ℤ, pos, ◌≤ℤ◌, ◌<ℤ◌}
use ndc_mock.Prelude.Text.{cut, trim_space}
use ndc_mock.Config.{
  Config, Latency, clamp_offers, clamp_delay, parse_delay, delay_of, range_of, resolve,
  resolve_bounded,
}

pub clamp_offers-le : (n max : ℤ) → pos 0 <ℤ max → clamp_offers n max ≤ℤ max
unfolding clamp_offers
clamp_offers-le n max h = ground arith

clamp_delay-le : (d max : ℤ) → pos 0 <ℤ max → clamp_delay d max ≤ℤ max
unfolding clamp_delay
clamp_delay-le d max h = ground arith

-- Within its ceiling a value is what `resolve` chose.
clamp_offers_keep : (n max : ℤ) → n ≤ℤ max → clamp_offers n max ≡ n
unfolding clamp_offers
clamp_offers_keep n max h = ground arith

clamp_delay_keep : (d max : ℤ) → d ≤ℤ max → clamp_delay d max ≡ d
unfolding clamp_delay
clamp_delay_keep d max h = ground arith

-- A latency is fixed, or has a positive median that is at most its 95th percentile.
abbrev pub IsLatency : Latency → Type 0
IsLatency l = (l.p50 ≡ l.p95) ⊎ ((pos 0 <ℤ l.p50) × (l.p50 ≤ℤ l.p95))

module _ (duration : String → Option ℤ) (draw : Latency → ℤ) where
  -- With positive ceilings neither the offer count nor the delay of a request passes its ceiling,
  -- whatever its headers and the configuration say, and what is within a ceiling is not changed.
  pub resolve_bounded_lem :
      (c : Config) (origin dest hdr_offers hdr_delay : String) (max_n max_d : ℤ)
      → pos 0 <ℤ max_n
      → pos 0 <ℤ max_d
      → let (n, d) = resolve duration draw c origin dest hdr_offers hdr_delay in
        let (n', d') =
          resolve_bounded duration draw c origin dest hdr_offers hdr_delay max_n max_d in
        (n' ≤ℤ max_n) × (d' ≤ℤ max_d) × (n ≤ℤ max_n → n' ≡ n) × (d ≤ℤ max_d → d' ≡ d)
  unfolding resolve_bounded
  resolve_bounded_lem c origin dest hdr_offers hdr_delay max_n max_d hn hd =
      let (n, d) = resolve duration draw c origin dest hdr_offers hdr_delay in
      (
        clamp_offers-le n max_n hn,
        clamp_delay-le d max_d hd,
        clamp_offers_keep n max_n,
        clamp_delay_keep d max_d,
      )

  range_of-ordered :
      (p50 : ℤ) (hi : Option ℤ) {l : Latency}
      → range_of duration draw p50 hi ≡ some l
      → (pos 0 <ℤ l.p50) × (l.p50 ≤ℤ l.p95)
  unfolding range_of
  range_of-ordered p50 none h = cc
  range_of-ordered p50 (some p95) h = ground arith

  delay_of-ordered :
      (parts : String × String × Bool) {l : Latency}
      → delay_of duration draw parts ≡ some l
      → IsLatency l
  unfolding delay_of
  delay_of-ordered (lo, hi, ranged) {l} h = elim (Option-cases (duration (trim_space lo))) [
    | inl bad ↦ ground arith
    | inr (p50, ok) ↦ elim (Bool-cases ranged) [
      | inl range ↦
          inr (range_of-ordered p50 (duration (trim_space hi)) (rw (ok, delay_of, range) at h))
      | inr fixed ↦ inl (ground arith)
    ]
  ]

  -- Every latency that parses is fixed, or has a positive median that is at most its 95th percentile.
  pub parse_delay-IsLatency :
      (s : String) {l : Latency} → parse_delay duration draw s ≡ some l → IsLatency l
  unfolding parse_delay
  parse_delay-IsLatency s {l} h = elim (Bool-cases (trim_space s == "")) [
    | inl blank ↦ inl (ground arith)
    | inr text ↦ delay_of-ordered (cut b'~' (trim_space s)) (rw text at h)
  ]
