-- ===== src/Translate/Units.antt =====
-- The structural transforms `tz-into-datetime` and `weight-unit`.
use Prim.Native.Char.{code}
use ndc_mock.Prelude.{
  suc, ◌≡◌, refl, Bool, true, false, ◌&&◌, ◌||◌, not, Option, none, some, List, [], ◌∷◌, String,
  ◌<>◌, if◌then◌else◌, ◌==◌, ◌!=◌, nat_eq, string_eq,
}
use ndc_mock.Prelude.Text.{trim_space}
use ndc_mock.Prelude.Decimal.{is_digit}
use ndc_mock.Tree.{
  Attr, Node, name, attrs, text, kids, with_kids, with_attrs, with_text, leaf, add_kid, child,
}
use ndc_mock.Tree.Lists.{weight, depth}
use ndc_mock.Tree.Walk.{walk}
use ndc_mock.Translate.Mapping.{Map, lookup}
use ndc_mock.Translate.Penalties.{is_none}

-- `^(Z|[+-]\d{2}:\d{2})$`, on one text.
whole_offset : String → Bool
whole_offset (String.◌∷◌ z String.[]) = code z == b'Z'
whole_offset
      (String.◌∷◌ s
        (String.◌∷◌ a (String.◌∷◌ b (String.◌∷◌ c (String.◌∷◌ d (String.◌∷◌ e String.[])))))) =
    (code s == b'+' || code s == b'-')
    && is_digit (code a)
    && is_digit (code b)
    && code c == b':'
    && is_digit (code d)
    && is_digit (code e)
whole_offset _ = false

-- `reOffset.MatchString`: the pattern matches at the end.
unfoldable pub has_offset : String → Bool
unfolding whole_offset
has_offset String.[] = whole_offset String.[]
has_offset (String.◌∷◌ c s) = whole_offset (String.◌∷◌ c s) || has_offset s

fold_zone : String → String → String
unfolding has_offset trim_space
fold_zone t value =
    let v = trim_space t in
    if not (has_offset v) && has_offset ("T" <> value) then v <> value else t

-- The loop over the attributes: the first TimeZoneCode is folded into the text and removed.
unfoldable pub take_zone : List Attr → String → List Attr × String
unfolding fold_zone
take_zone [] t = ([], t)
take_zone (a ∷ al) t =
    let (al', t') = take_zone al t in
    if a.local != "TimeZoneCode" then (a ∷ al', t') else (al, fold_zone t a.value)

unfoldable pub zone_into_text : Node → Node
unfolding take_zone
zone_into_text n =
    if name n != "AircraftScheduledDateTime"
    then n
    else let (al, t) = take_zone (attrs n) (text n) in with_text t (with_attrs al n)

-- Folds the 19.2 TimeZoneCode attribute into the value.
unfoldable pub tz_into_date_time : Node → Option Node
unfolding walk zone_into_text weight
tz_into_date_time root = walk (suc (depth root)) zone_into_text root

abbrev codes : Map String
codes =
    ("KG", "KGM")
    ∷ ("KGS", "KGM")
    ∷ ("KGM", "KGM")
    ∷ ("KILO", "KGM")
    ∷ ("KILOS", "KGM")
    ∷ ("KILOGRAM", "KGM")
    ∷ ("KILOGRAMS", "KGM")
    ∷ ("LB", "LBR")
    ∷ ("LBS", "LBR")
    ∷ ("LBR", "LBR")
    ∷ ("POUND", "LBR")
    ∷ ("POUNDS", "LBR")
    ∷ []

or_empty : Option String → String
or_empty none = ""
or_empty (some s) = s

-- `upper` is `strings.ToUpper`.
module _ (upper : String → String) where
  -- The inner loop, over the attributes of one child; `unit` is the unit so far.
  unfoldable pub take_unit : String → List Attr → String × List Attr
  unfolding lookup or_empty
  take_unit unit [] = (unit, [])
  take_unit unit (a ∷ al) =
      let is_unit = a.local == "UnitCode" in
      let unit' = if is_unit && unit == "" then or_empty (lookup codes (upper a.value)) else unit in
      let (unit'', al') = take_unit unit' al in (unit'', (if is_unit then al' else a ∷ al'))

  unfoldable pub take_units : String → List Node → String × List Node
  unfolding take_unit
  take_units unit [] = (unit, [])
  take_units unit (k ∷ ks) =
      let (unit', al) = take_unit unit (attrs k) in
      let (unit'', ks') = take_units unit' ks in (unit'', with_attrs al k ∷ ks')

  unfoldable pub unit_of : Node → Node
  unfolding take_units child
  unit_of n =
      if name n != "WeightAllowance"
      then n
      else let (unit, ks) = take_units "" (kids n) in
        let n' = with_kids ks n in
        if unit != "" && is_none (child n' "WeightUnitOfMeasurement")
        then add_kid (leaf "WeightUnitOfMeasurement" unit) n'
        else n'

  -- Moves the unit off each weight measure into an element of its own.
  unfoldable pub weight_unit : Node → Option Node
  unfolding walk unit_of weight
  weight_unit root = walk (suc (weight "WeightAllowance" 1 root)) unit_of root

offset_test :
    (has_offset "2026-10-01T10:00:00Z" ≡ true)
    × (has_offset "10:00:00-03:00" ≡ true)
    × (has_offset "2026-10-01T10:00:00" ≡ false)
unfolding has_offset
offset_test = (refl, refl, refl)
