-- ===== src/Startup/Ready.antt =====
-- A program that listens can serve (edge/main.go).
use ndc_mock.Prelude.{
  ◌≡◌, refl, Bool, false, Option, none, some, List, String, ◌==◌, string_eq, Bool-cases, inl, inr,
  Yields,
}
use ndc_mock.Prelude.Int.{ℤ}
use ndc_mock.Tree.Parse.{RawToken}
use ndc_mock.Translate.Mapping.{Map}
use ndc_mock.Config.{Latency}
use ndc_mock.Offer.Ident.{Base64}
use ndc_mock.Airline.{Floats}
use ndc_mock.Order.Store.{new_store}
use ndc_mock.Template.Build.{Template}
use ndc_mock.Template.Load.{Files, load_templates}
use ndc_mock.Template.Load.Servable.{AllServable, load_templates-AllServable}
use ndc_mock.Startup.{Result, ok, err, Reads}
use ndc_mock.Startup.Run.{
  Flags, Settings, Started, Start, listening, fatal, panicked, served_of, settings_for,
  with_templates, with_settings, start,
}
use ndc_mock.Startup.Accepted.{IsUsable, Accepts}
use ndc_mock.Startup.Accepted.Loaders.{settings_for-Accepts}

-- What a program that listens has.
pub record CanServe {F : Floats} (fl : Flags) (st : Started F) : Type 0 where
  pub settings : IsUsable st.settings
  pub templates : AllServable st.templates
  pub store : st.store ≡ new_store fl.order_ttl fl.order_max

-- Of a start: that the program can serve, if it listens.
abbrev pub IsReady : {F : Floats} → Flags → Start F → Type 0
IsReady fl (listening st) = CanServe fl st
IsReady fl (fatal e) = Unit {0}
IsReady fl panicked = Unit {0}

module _ {F : Floats} (D : Reads F) (duration : String → Option ℤ) (draw : Latency → ℤ)
    (why : String → String) (fs : Files) (b64 : Base64) (parse : String → Option ℤ)
    (replace : List (String × String) → String → String) (tokens_of : String → List RawToken × Bool)
    (escape_text lower upper : String → String) where
  with_templates-IsReady :
      (fl : Flags) (s : Settings F) (ts : Option (Option (Map Template)))
      → IsUsable s
      → Yields (Yields AllServable) ts
      → IsReady fl (
          with_templates D duration draw why fs b64 parse replace tokens_of escape_text lower upper
            fl s ts)
  unfolding with_templates
  with_templates-IsReady fl s none h hs = tt
  with_templates-IsReady fl s (some none) h hs = tt
  with_templates-IsReady fl s (some (some ts)) h hs = record {
    settings = h;
    templates = hs;
    store = refl;
  }

  with_settings-IsReady :
      (fl : Flags) (r : Result (Settings F))
      → Accepts (IsUsable {F = F}) r
      → IsReady fl (
          with_settings D duration draw why fs b64 parse replace tokens_of escape_text lower upper
            fl r)
  unfolding with_settings
  with_settings-IsReady fl (err e) h = tt
  with_settings-IsReady fl (ok s) h =
      with_templates-IsReady fl s
        (load_templates fs b64 parse replace tokens_of escape_text lower upper s.mappings fl.stubs
          fl.flat_version (served_of s.versions))
        h
        (load_templates-AllServable fs b64 parse replace tokens_of escape_text lower upper
          s.mappings fl.stubs fl.flat_version (served_of s.versions))

-- A program that listens, whatever its flags and files, can serve, if a scale of one is not zero:
-- it has at least one version, each with the elements of its offers and of its identifiers; carriers
-- under their codes with a scale that is not zero; mappings under their pair with both generations
-- and only transforms that there are; routes only to handlers that there are; only references with
-- identifiers, blocks and legs; and an empty store with the limits of the flags.
pub start-IsReady :
    {F : Floats} (D : Reads F) (duration : String → Option ℤ) (draw : Latency → ℤ)
    (why : String → String) (fs : Files) (b64 : Base64) (parse : String → Option ℤ)
    (replace : List (String × String) → String → String) (tokens_of : String → List RawToken × Bool)
    (escape_text lower upper : String → String) (fl : Flags)
    → F.is_zero F.one ≡ false
    → IsReady fl
        (start D duration draw why fs b64 parse replace tokens_of escape_text lower upper fl)
unfolding start
start-IsReady D duration draw why fs b64 parse replace tokens_of escape_text lower upper fl one_ne =
    elim (Bool-cases (fl.stubs == "")) [
      | inl e ↦ rw (start, e) tt
      | inr e ↦
          rw (start, e)
            (with_settings-IsReady D duration draw why fs b64 parse replace tokens_of escape_text
              lower upper fl (settings_for D duration draw why fl)
              (settings_for-Accepts D duration draw why fl one_ne))
    ]
