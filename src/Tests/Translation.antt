-- ===== src/Tests/Translation.antt =====
-- The inputs of edge/translate_test.go.
use ndc_mock.Prelude.{
  ◌≡◌, ◌≢◌, refl, inl, true, false, none, some, [], ◌∷◌, String, All, eq_iff, arith,
}
use ndc_mock.Prelude.Text.{cut, split}
use ndc_mock.Translate.Penalties.{unpriced_penalties}
use ndc_mock.Translate.Ends.Whole.{zones, penalties, owners, IsWrap, rewrite-ends}
use ndc_mock.Tree.{Attr, Node, leaf, node, with_attrs}
use ndc_mock.Translate.Mapping.{Mapping}
use ndc_mock.Translate.Steps.{rewrite}

abbrev same : String → String
same s = s

abbrev empty_mapping : Mapping
empty_mapping = record {
  from = "19.2";
  to = "99.9";
  namespaces = [];
  declare = [];
  message_layout = none;
  rename = [];
  drop = [];
  wrap = [];
  wrap_each = [];
  hoist = [];
  values = [];
  structural = [];
  sort_children = false;
  identical = [];
  notes = [];
}

-- TestHoist
fare_detail : Node
fare_detail = node "FareDetail" (
    leaf "PenaltyRefID" "A"
    ∷ node "FareComponent" (
        node "FareRule"
          (leaf "PenaltyRefID" "A" ∷ leaf "PenaltyRefID" "B" ∷ leaf "RuleCode" "X" ∷ [])
        ∷ [])
    ∷ [])

hoist_test :
    rewrite same same
      (record empty_mapping { hoist = ("FareRule/PenaltyRefID", "FareDetail") ∷ [] })
      fare_detail
    ≡ some (
        node "FareDetail" (
          leaf "PenaltyRefID" "A"
          ∷ node "FareComponent" (node "FareRule" (leaf "RuleCode" "X" ∷ []) ∷ [])
          ∷ leaf "PenaltyRefID" "B"
          ∷ []))
unfolding rewrite fare_detail
hoist_test = refl

-- TestScopedRenameWrapSortValues
abbrev scoped : Mapping
scoped = record empty_mapping {
  namespaces = ("urn:old", "urn:types") ∷ [];
  declare = ("m", "urn:msg") ∷ [];
  rename =
      ("R", "m:R")
      ∷ ("R/Response", "m:Response")
      ∷ ("Offer/BaggageAllowance", "BaggageAssociations")
      ∷ ("Price", "FareAmount")
      ∷ [];
  drop = "Penalty/AppCode" ∷ [];
  wrap = ("Assoc/PaxSegmentRefID", "PaxSegmentReferences") ∷ [];
  values = ("Code", ("SELL_AMOUNT", "Filed") ∷ []) ∷ [];
  sort_children = true;
}

abbrev xmlns : String → String → String → Attr
xmlns space local value = record { space = space; local = local; value = value }

scoped_input : Node
scoped_input = with_attrs (xmlns "" "xmlns" "urn:old" ∷ []) (
    node "R" (
      node "Response" (
        node "Offer" (
          leaf "Zeta" "1"
          ∷ node "BaggageAllowance"
              (node "Assoc" (leaf "PaxSegmentRefID" "a" ∷ leaf "PaxSegmentRefID" "b" ∷ []) ∷ [])
          ∷ leaf "Code" "SELL_AMOUNT"
          ∷ [])
        ∷ node "DataLists" (
            node "BaggageAllowance" (leaf "X" "1" ∷ [])
            ∷ node "Penalty" (leaf "AppCode" "1" ∷ [])
            ∷ leaf "PriceClass" "p"
            ∷ leaf "Price" "9"
            ∷ [])
        ∷ [])
      ∷ []))

scoped_test :
    rewrite same same scoped scoped_input
    ≡ some (
        with_attrs (xmlns "" "xmlns" "urn:types" ∷ xmlns "xmlns" "m" "urn:msg" ∷ []) (
          node "m:R" (
            node "m:Response" (
              node "DataLists" (
                node "BaggageAllowance" (leaf "X" "1" ∷ [])
                ∷ leaf "FareAmount" "9"
                ∷ node "Penalty" []
                ∷ leaf "PriceClass" "p"
                ∷ [])
              ∷ node "Offer" (
                  node "BaggageAssociations" (
                    node "Assoc" (
                      node "PaxSegmentReferences"
                        (leaf "PaxSegmentRefID" "a" ∷ leaf "PaxSegmentRefID" "b" ∷ [])
                      ∷ [])
                    ∷ [])
                  ∷ leaf "Code" "Filed"
                  ∷ leaf "Zeta" "1"
                  ∷ [])
              ∷ [])
            ∷ [])))
unfolding rewrite scoped_input
scoped_test = refl

-- TestDatedSegments
abbrev at_airport : String → String → Node
at_airport end code = node end (leaf "IATA_LocationCode" code ∷ [])

segments_input : Node
segments_input = node "R" (
    node "DataLists" (
      node "PaxSegmentList" (
        node "PaxSegment" (
          at_airport "Arrival" "NAT"
          ∷ node "CabinType" (leaf "CabinTypeCode" "Y" ∷ [])
          ∷ node "DatedOperatingLeg" (at_airport "Arrival" "NAT" ∷ node "Dep" [] ∷ [])
          ∷ at_airport "Dep" "GRU"
          ∷ leaf "Duration" "PT3H"
          ∷ node "MarketingCarrierInfo"
              (leaf "CarrierDesigCode" "XX" ∷ leaf "MarketingCarrierFlightNumberText" "3438" ∷ [])
          ∷ node "OperatingCarrierInfo" (leaf "CarrierDesigCode" "YY" ∷ [])
          ∷ leaf "PaxSegmentID" "S1"
          ∷ [])
        ∷ [])
      ∷ [])
    ∷ [])

segments_output : Node
segments_output = node "R" (
    node "DataLists" (
      node "DatedMarketingSegmentList" (
        node "DatedMarketingSegment" (
          at_airport "Arrival" "NAT"
          ∷ leaf "CarrierDesigCode" "XX"
          ∷ leaf "DatedMarketingSegmentId" "DMS_S1"
          ∷ leaf "DatedOperatingSegmentRefId" "DOS_S1"
          ∷ at_airport "Dep" "GRU"
          ∷ leaf "MarketingCarrierFlightNumberText" "3438"
          ∷ [])
        ∷ [])
      ∷ node "DatedOperatingLegList" (
          node "DatedOperatingLeg" (
            at_airport "Arrival" "NAT"
            ∷ leaf "DatedOperatingLegID" "LEG_S1_1"
            ∷ at_airport "Dep" "GRU"
            ∷ [])
          ∷ [])
      ∷ node "DatedOperatingSegmentList" (
          node "DatedOperatingSegment" (
            leaf "CarrierDesigCode" "YY"
            ∷ leaf "DatedOperatingLegRefID" "LEG_S1_1"
            ∷ leaf "DatedOperatingSegmentId" "DOS_S1"
            ∷ leaf "Duration" "PT3H"
            ∷ [])
          ∷ [])
      ∷ node "PaxSegmentList" (
          node "PaxSegment" (
            node "CabinTypeAssociationChoice"
              (node "SegmentCabinType" (leaf "CabinTypeCode" "Y" ∷ []) ∷ [])
            ∷ leaf "DatedMarketingSegmentRefId" "DMS_S1"
            ∷ leaf "PaxSegmentID" "S1"
            ∷ [])
          ∷ [])
      ∷ [])
    ∷ [])

segments_test :
    rewrite same same
      (record empty_mapping { structural = "dated-segments" ∷ []; sort_children = true })
      segments_input
    ≡ some segments_output
unfolding rewrite segments_input segments_output
segments_test = refl

abbrev walking : Mapping
walking = record scoped {
  structural = "tz-into-datetime" ∷ "unpriced-penalties" ∷ "definition-owner" ∷ [];
}

not_assoc : ◌≢◌ {A = String} "PaxSegmentReferences" "Assoc"
not_assoc e = ground (arith, eq_iff "PaxSegmentReferences" "Assoc")

walking-IsWrap : All IsWrap walking.wrap
unfolding cut split
walking-IsWrap = ((not_assoc, tt), tt)

rewrite-ends_example : (m : Node) × (rewrite same same walking scoped_input ≡ some m)
rewrite-ends_example =
    rewrite-ends same same walking scoped_input (inl (zones, (penalties, (owners, tt))))
      walking-IsWrap tt

-- A penalty without an amount, one with an amount, and references to both.
abbrev penalties_input : Node
penalties_input = node "R" (
    node "PenaltyList" (
      node "Penalty" (leaf "PenaltyID" "P1" ∷ [])
      ∷ node "Penalty" (leaf "PenaltyID" "P2" ∷ node "Price" [] ∷ [])
      ∷ [])
    ∷ node "FareDetail" (leaf "PenaltyRefID" "P1" ∷ leaf "PenaltyRefID" "P2" ∷ [])
    ∷ [])

penalties_test :
    unpriced_penalties penalties_input
    ≡ some (
        node "R" (
          node "PenaltyList" (node "Penalty" (leaf "PenaltyID" "P2" ∷ node "Price" [] ∷ []) ∷ [])
          ∷ node "FareDetail" (leaf "PenaltyRefID" "P2" ∷ [])
          ∷ []))
unfolding unpriced_penalties
penalties_test = refl
