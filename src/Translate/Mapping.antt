-- ===== src/Translate/Mapping.antt =====
-- `mapping`, and the set of mappings.
use ndc_mock.Prelude.{
  Bool, true, false, ◌||◌, not, Option, none, some, List, [], ◌∷◌, ◌++◌, String, ◌<>◌,
  if◌then◌else◌, ◌==◌, string_eq,
}
use ndc_mock.Prelude.Text.{split}
use ndc_mock.Tree.{local_name}

abbrev pub Map : Type 0 → Type 0
Map A = List (String × A)

module _ {A : Type 0} where
  unfoldable pub lookup : Map A → String → Option A
  lookup [] k = none
  lookup ((j, v) ∷ m) k = if j == k then some v else lookup m k

  abbrev pub is_empty : List A → Bool
  is_empty [] = true
  is_empty (x ∷ xs) = false

pub record MessageLayout : Type 0 where
  pub message : String
  pub types : String

pub record Mapping : Type 0 where
  pub from : String
  pub to : String
  pub namespaces : Map String
  pub declare : Map String
  pub message_layout : Option MessageLayout
  pub rename : Map String
  pub drop : List String
  pub wrap : Map String
  pub wrap_each : Map String
  pub hoist : Map String
  pub values : Map (Map String)
  pub structural : List String
  pub sort_children : Bool
  pub identical : List String
  pub notes : List String

-- The mappings by pair, "19.2->24.1".
abbrev pub MappingSet : Type 0
MappingSet = Map Mapping

-- `find`; the set that is nil is the empty one.
unfoldable pub find_mapping : MappingSet → String → String → Option Mapping
unfolding lookup
find_mapping ms from to = lookup ms (from <> ("->" <> to))

has_layout : Option MessageLayout → Bool
has_layout none = false
has_layout (some l) = true

-- Whether a mapping can change anything; `none` is the nil mapping.
unfoldable pub usable : Option Mapping → Bool
unfolding has_layout
usable none = false
usable (some m) =
    not (is_empty m.namespaces)
    || not (is_empty m.rename)
    || not (is_empty m.drop)
    || not (is_empty m.declare)
    || not (is_empty m.wrap)
    || not (is_empty m.wrap_each)
    || not (is_empty m.hoist)
    || not (is_empty m.structural)
    || has_layout m.message_layout

-- `lastSeg`: what stands behind the last slash.
last_of : String → List String → String
last_of s [] = s
last_of s (t ∷ ts) = last_of t ts

unfoldable pub last_seg : String → String
unfolding last_of split
last_seg s = last_of s (split b'/' s)

-- `structuralNames`.
structural_names : String → List String
structural_names s =
    if s == "dated-segments"
    then "PaxSegment" ∷ "MarketingCarrierInfo" ∷ "OperatingCarrierInfo" ∷ "CabinType"
      ∷ "DatedOperatingLeg" ∷ "CabinTypeAssociationChoice" ∷ "SegmentCabinType"
      ∷ "DatedMarketingSegmentRefId" ∷ "DatedMarketingSegmentList" ∷ "DatedMarketingSegment"
      ∷ "DatedMarketingSegmentId" ∷ "DatedOperatingSegmentList" ∷ "DatedOperatingSegment"
      ∷ "DatedOperatingSegmentId" ∷ "DatedOperatingSegmentRefId" ∷ "DatedOperatingLegList"
      ∷ "DatedOperatingLegRefID" ∷ "DatedOperatingLegID" ∷ []
    else if s == "weight-unit"
    then "WeightUnitOfMeasurement" ∷ []
    else []

-- The names that `loadMappings` marks as covered, one list for each of its loops.
covered_rename : Map String → List String
unfolding last_seg local_name
covered_rename [] = []
covered_rename ((k, v) ∷ m) = last_seg k ∷ local_name v ∷ covered_rename m

covered_keys : {A : Type 0} → Map A → List String
unfolding last_seg
covered_keys [] = []
covered_keys ((k, v) ∷ m) = last_seg k ∷ covered_keys m

covered_drop : List String → List String
unfolding last_seg
covered_drop [] = []
covered_drop (k ∷ ks) = last_seg k ∷ covered_drop ks

covered_wrap : Map String → List String
unfolding last_seg split
covered_wrap [] = []
covered_wrap ((k, v) ∷ m) = last_seg k ∷ (split b'/' v ++ covered_wrap m)

covered_wrap_each : Map String → List String
unfolding last_seg
covered_wrap_each [] = []
covered_wrap_each ((k, v) ∷ m) = last_seg k ∷ v ∷ covered_wrap_each m

covered_structural : List String → List String
unfolding structural_names
covered_structural [] = []
covered_structural (s ∷ ss) = structural_names s ++ covered_structural ss

unfoldable pub covered : Mapping → List String
unfolding covered_rename covered_keys covered_drop covered_wrap covered_wrap_each covered_structural
covered m =
    covered_rename m.rename
    ++ (covered_drop m.drop
        ++ (covered_wrap m.wrap
            ++ (covered_wrap_each m.wrap_each
                ++ (covered_keys m.hoist ++ (covered_structural m.structural ++ m.identical)))))
