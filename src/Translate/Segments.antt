-- ===== src/Translate/Segments.antt =====
-- The structural transform `dated-segments`, which reshapes 19.2 PaxSegments into the 21.3 model.
-- `none` is a panic: the source reads the MarketingCarrierInfo of each segment, and the same walk
-- goes on into its Arrival and Dep, whether they are there or not.
use ndc_mock.Prelude.{
  ℕ, zero, suc, ◌&&◌, Option, none, some, List, [], ◌∷◌, ◌++◌, map, String, ◌<>◌, if◌then◌else◌,
  ◌==◌, ◌!=◌, string_eq, ◌>>=◌,
}
use ndc_mock.Prelude.Text.{itoa}
use ndc_mock.Tree.{
  Node, name, kids, with_kids, with_name, node, leaf, add_kid, child, child_text, kids_named,
  remove_kids,
}
use ndc_mock.Tree.Lists.{weight}
use ndc_mock.Tree.Walk.{walk_each}
use ndc_mock.Translate.Penalties.{is_none, contains}

-- A walk whose function may fail.
unfoldable pub walk_try : ℕ → (Node → Option Node) → Node → Option Node
unfolding walk_each
walk_try zero f n = none
walk_try (suc fuel) f n = do
  m ← f n
  ks ← walk_each (walk_try fuel f) (kids m)
  some (with_kids ks m)

-- The first child of the name, changed in place.
unfoldable pub update_first : String → (Node → Node) → List Node → List Node
update_first s f [] = []
update_first s f (k ∷ ks) = if name k == s then f k ∷ ks else k ∷ update_first s f ks

locate : String → Node → Node
unfolding child
locate code p =
    if is_none (child p "IATA_LocationCode") && code != ""
    then add_kid (leaf "IATA_LocationCode" code) p
    else p

unfoldable pub fill_location : String → Node → Node → Node
unfolding locate update_first child child_text
fill_location end from leg =
    let fill = locate (child_text from "IATA_LocationCode") in
    if is_none (child leg end)
    then add_kid (fill (node end [])) leg
    else with_kids (update_first end fill (kids leg)) leg

-- A leaf, if it has a text.
abbrev leaf_if : String → String → List Node
leaf_if s v = if v != "" then leaf s v ∷ [] else []

-- A child that is moved, if there is one.
moved : Option Node → List Node
moved none = []
moved (some c) = c ∷ []

text_of : Option Node → String → String
unfolding child_text
text_of none s = ""
text_of (some n) s = child_text n s

child_of : Option Node → String → Option Node
unfolding child
child_of none s = none
child_of (some n) s = child n s

unfoldable pub marketing_segment : String → Node → Node → Node → Node → Node
unfolding moved child_text child
marketing_segment id mkt arr dep ps = node "DatedMarketingSegment" (
    (arr ∷ leaf "CarrierDesigCode" (child_text mkt "CarrierDesigCode") ∷ [])
    ++ (leaf_if "CarrierName" (child_text mkt "CarrierName")
        ++ ((leaf "DatedMarketingSegmentId" ("DMS_" <> id)
              ∷ leaf "DatedOperatingSegmentRefId" ("DOS_" <> id)
              ∷ dep
              ∷ leaf "MarketingCarrierFlightNumberText"
                  (child_text mkt "MarketingCarrierFlightNumberText")
              ∷ [])
            ++ (leaf_if "OperationalSuffixText" (child_text mkt "OperationalSuffixText")
                ++ moved (child ps "TicketlessInd")))))

-- The lists that the loops fill, and the legs that were listed.
pub record Lists : Type 0 where
  pub marketing : List Node
  pub operating : List Node
  pub legs : List Node
  pub seen : List String

-- The loop over the legs of one segment: the leg identifiers that the operating segment names are
-- collected beside the list of legs.
legs_loop : String → Node → Node → ℕ → List Node → Lists → List String → Lists × List String
unfolding child_text contains fill_location remove_kids itoa
legs_loop id arr dep n [] l refs = (l, refs)
legs_loop id arr dep n (leg ∷ rest) l refs =
    let given = child_text leg "DatedOperatingLegID" in
    let leg_id = if given == "" then "LEG_" <> (id <> ("_" <> itoa (suc n))) else given in
    let named = if given == "" then add_kid (leaf "DatedOperatingLegID" leg_id) leg else leg in
    let filled = fill_location "Arrival" arr (fill_location "Dep" dep named) in
    let done = with_kids (remove_kids (kids filled) "OnGroundDuration") filled in
    let l' =
      if contains l.seen leg_id
      then l
      else record l { seen = leg_id ∷ l.seen; legs = l.legs ++ (done ∷ []) } in
    legs_loop id arr dep (suc n) rest l' (refs ++ (leg_id ∷ []))

unfoldable pub operating_segment : String → String → List String → Option Node → Node → Node
unfolding moved child child_of
operating_segment id carrier refs opr ps = node "DatedOperatingSegment" (
    (leaf "CarrierDesigCode" carrier ∷ map (leaf "DatedOperatingLegRefID") refs)
    ++ ((leaf "DatedOperatingSegmentId" ("DOS_" <> id) ∷ [])
        ++ (moved (child_of opr "DisclosureRefID")
            ++ (moved (child ps "Duration")
                ++ (moved (child_of opr "OperatingCarrierFlightNumberText")
                    ++ (moved (child_of opr "OperationalSuffixText")
                        ++ (moved (child ps "SecureFlightInd")
                            ++ moved (child ps "SegmentTypeCode"))))))))

cabin : Option Node → List Node
cabin none = []
cabin (some c) = node "CabinTypeAssociationChoice" (with_name "SegmentCabinType" c ∷ []) ∷ []

-- What PaxSegment keeps.
unfoldable pub kept : String → Node → Node → List Node
unfolding cabin moved child child_text
kept id mkt ps =
    let own = child ps "MarketingCarrierRBD_Code" in
    let code = child_text mkt "RBD_Code" in
    let rbd = if is_none own then leaf_if "MarketingCarrierRBD_Code" code else moved own in
    cabin (child ps "CabinType")
    ++ ((leaf "DatedMarketingSegmentRefId" ("DMS_" <> id) ∷ [])
        ++ (rbd ++ (moved (child ps "OperatingCarrierRBD_Code") ++ (leaf "PaxSegmentID" id ∷ []))))

-- One round of the loop over the segments.
unfoldable pub segment_step : Lists → Node → Option (Lists × Node)
unfolding marketing_segment legs_loop operating_segment kept child child_text kids_named text_of
segment_step l ps = do
  mkt ← child ps "MarketingCarrierInfo"
  arr ← child ps "Arrival"
  dep ← child ps "Dep"
  let id = child_text ps "PaxSegmentID"
  let opr = child ps "OperatingCarrierInfo"
  let own = text_of opr "CarrierDesigCode"
  let carrier = if own != "" then own else child_text mkt "CarrierDesigCode"
  let (l', refs) = legs_loop id arr dep 0 (kids_named ps "DatedOperatingLeg") l []
  some (
    record l' {
      marketing = l'.marketing ++ (marketing_segment id mkt arr dep ps ∷ []);
      operating = l'.operating ++ (operating_segment id carrier refs opr ps ∷ []);
    },
    with_kids (kept id mkt ps) ps,
  )

unfoldable pub segments_loop : Lists → List Node → Option (Lists × List Node)
unfolding segment_step
segments_loop l [] = some (l, [])
segments_loop l (ps ∷ rest) = do
  (l', ps') ← segment_step l ps
  (l'', rest') ← segments_loop l' rest
  some (l'', ps' ∷ rest')

list_if : String → List Node → List Node
list_if s [] = []
list_if s (k ∷ ks) = node s (k ∷ ks) ∷ []

no_lists : Lists
no_lists = record { marketing = []; operating = []; legs = []; seen = [] }

reshape_list : Node → Option Node → Option Node
unfolding segments_loop list_if no_lists update_first
reshape_list dl none = some dl
reshape_list dl (some psl) = do
  (l, segments) ← segments_loop no_lists (kids psl)
  some (
      with_kids
        (update_first "PaxSegmentList" (with_kids segments) (kids dl)
          ++ (list_if "DatedMarketingSegmentList" l.marketing
              ++ (list_if "DatedOperatingSegmentList" l.operating
                  ++ list_if "DatedOperatingLegList" l.legs)))
        dl)

unfoldable pub reshape : Node → Option Node
unfolding reshape_list child
reshape dl = if name dl != "DataLists" then some dl else reshape_list dl (child dl "PaxSegmentList")

-- The new lists make a DataLists element at most a few levels deeper; the fuel allows for eight.
unfoldable pub dated_segments : Node → Option Node
unfolding walk_try reshape weight
dated_segments root = walk_try (suc (weight "DataLists" 8 root)) reshape root
