-- ===== src/Client.antt =====
-- The client of an endpoint (client/ndc/client.go): what it checks before a request goes out.
pub mod Transport
pub mod Documents
pub mod Checks
pub mod Capped
pub mod Mcp
pub mod Cli
pub mod Main
use Prim.Native.Char.{code}
use ndc_mock.Prelude.{
  ℕ, ◌+◌, Bool, true, false, ◌&&◌, ◌||◌, not, Option, none, some, List, [], ◌∷◌, String, ◌<>◌,
  if◌then◌else◌, ◌==◌, ◌!=◌, nat_eq, string_eq, ◌>>=◌, ltb,
}
use ndc_mock.Prelude.Int.{ℤ, pos, ltb_ℤ, add_int, int_eq}
use ndc_mock.Prelude.Text.{exactly, cut_prefix, is_some, itoa, itoa_int}
use ndc_mock.Prelude.Decimal.{is_digit}
use ndc_mock.Tree.Sort.{before}
use ndc_mock.Offer.Ident.{is_upper}
use ndc_mock.Offer.Render.{is_code}
use ndc_mock.Translate.Document.{utf8_len}

pub record SearchParams : Type 0 where
  pub origin : String
  pub dest : String
  pub depart_date : String
  pub return_date : String
  pub adt : ℤ
  pub chd : ℤ
  pub inf : ℤ
  pub airline : String
  pub max_offers : ℤ
  pub cabin : String

-- A value or an error.
pub data Result {ℓ} (A : Type ℓ) : Type ℓ where
  ok : A → Result A
  error : String → Result A

-- The whole text: `n` characters that pass.
unfoldable pub whole : (ℕ → Bool) → ℕ → String → Bool
unfolding exactly
whole p n s = is_some (do (t, rest) ← exactly p n s; if rest == "" then some t else none)

-- `reDate`
unfoldable pub is_date : String → Bool
unfolding exactly cut_prefix whole
is_date s = is_some (do
  (y, s₁) ← exactly is_digit 4 s
  s₂ ← cut_prefix "-" s₁
  (m, s₃) ← exactly is_digit 2 s₂
  s₄ ← cut_prefix "-" s₃
  if whole is_digit 2 s₄ then some s₄ else none)

abbrev pub is_airport : String → Bool
is_airport s = whole is_upper 3 s

abbrev pub is_carrier : String → Bool
is_carrier s = whole is_code 2 s

unfoldable pub byte_len : String → ℕ
unfolding utf8_len
byte_len String.[] = 0
byte_len (String.◌∷◌ c s) = utf8_len (code c) + byte_len s

abbrev is_markup : ℕ → Bool
is_markup c = c == b'<' || c == b'>' || c == b'&' || c == b'"' || c == 39

unfoldable pub has_markup : String → Bool
has_markup String.[] = false
has_markup (String.◌∷◌ c s) = is_markup (code c) || has_markup s

-- `validateID`; `none` is no error.
unfoldable pub validate_id : String → String → Option String
unfolding byte_len has_markup itoa
validate_id kind v =
    if v == ""
    then some (kind <> " is required")
    else if ltb 4096 (byte_len v)
    then some (kind <> (" is implausibly long (" <> (itoa (byte_len v) <> " characters)")))
    else if has_markup v
    then some (kind <> " contains markup characters")
    else none

-- A search for nobody is one for an adult.
unfoldable pub with_adult : SearchParams → SearchParams
with_adult p =
    if p.adt == pos 0 && p.chd == pos 0 && p.inf == pos 0 then record p { adt = pos 1 } else p

unfoldable pub total_of : SearchParams → ℤ
unfolding add_int
total_of p = add_int (add_int p.adt p.chd) p.inf

abbrev pub has_negative : SearchParams → Bool
has_negative p = ltb_ℤ p.adt (pos 0) || ltb_ℤ p.chd (pos 0) || ltb_ℤ p.inf (pos 0)

unfoldable pub check_pax : SearchParams → Result SearchParams
unfolding total_of itoa_int
check_pax p =
    if has_negative p
    then error "passenger counts cannot be negative"
    else if ltb_ℤ (pos 9) (total_of p)
    then error (itoa_int (total_of p) <> " passengers exceeds the usual limit of 9")
    else if ltb_ℤ p.adt p.inf
    then error (itoa_int p.inf <> (" infants need at least as many adults, got " <> itoa_int p.adt))
    else ok p

-- `upper` is `strings.ToUpper`, and `quote` is `%q`.
module _ (upper quote : String → String) where
  unfoldable pub in_upper : SearchParams → SearchParams
  in_upper p = record p { origin = upper p.origin; dest = upper p.dest; airline = upper p.airline }

  -- The `switch` over the texts, in order.
  unfoldable pub wrong_text : SearchParams → Option String
  unfolding whole is_date
  wrong_text p =
      if not (is_airport p.origin)
      then some ("origin " <> (quote p.origin <> " is not a three-letter airport code"))
      else if not (is_airport p.dest)
      then some ("destination " <> (quote p.dest <> " is not a three-letter airport code"))
      else if p.origin == p.dest
      then some ("origin and destination are both " <> p.origin)
      else if not (is_date p.depart_date)
      then some ("departure date " <> (quote p.depart_date <> " is not YYYY-MM-DD"))
      else if p.return_date != "" && not (is_date p.return_date)
      then some ("return date " <> (quote p.return_date <> " is not YYYY-MM-DD"))
      else if p.return_date != "" && before p.return_date p.depart_date
      then some ("return date " <> (p.return_date <> (" precedes departure " <> p.depart_date)))
      else if p.airline != "" && not (is_carrier p.airline)
      then some ("carrier " <> (quote p.airline <> " is not a two-character code"))
      else none

  unfoldable pub pax_unless : Option String → SearchParams → Result SearchParams
  unfolding check_pax with_adult
  pax_unless (some why) p = error why
  pax_unless none p = check_pax (with_adult p)

  unfoldable pub validate : SearchParams → Result SearchParams
  unfolding in_upper wrong_text pax_unless
  validate p = pax_unless (wrong_text (in_upper p)) (in_upper p)
