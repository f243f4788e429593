-- ===== src/Tests/Templates.antt =====
-- Reference responses, identifiers and documents (edge/template.go, edge/offerid.go,
-- edge/translate.go, edge/main.go).
use ndc_mock.Prelude.{
  ◌≡◌, ◌≢◌, refl, arith, length, true, false, none, some, List, [], ◌∷◌, map, String, ◌<>◌,
  if◌then◌else◌,
}
use ndc_mock.Prelude.Int.{pos}
use ndc_mock.Prelude.Text.{cut, cut_prefix}
use ndc_mock.Tree.{Node, node, leaf, qname}
use ndc_mock.Tree.Parse.{parse_tree}
use ndc_mock.Tree.Parse.RoundTrip.{tokens, parse_tree-tokens}
use ndc_mock.Itinerary.{Leg, airports, pattern_of}
use ndc_mock.Itinerary.Numbering.{names, numbers, ends}
use ndc_mock.Query.{Query}
use ndc_mock.Offer.Ident.{Base64, OfferId, parse_offer_id, encode, decode_text}
use ndc_mock.Offer.Ident.RoundTrip.{coded, coded_mark, plain, without_mark, parse_offer_id-encode}
use ndc_mock.Offer.Render.{swap_carrier}
use ndc_mock.Template.Chunk.{Chunk}
use ndc_mock.Template.Airports.{airports_for}
use ndc_mock.Template.Airports.Legs.{airports_for-legs}
use ndc_mock.Template.Build.{Template, id_elem, mark_ids, uniq_sorted}
use ndc_mock.Template.Build.Slices.{zones, slice}
use ndc_mock.Template.Scan.{hits}
use ndc_mock.Template.Render.{schedule}
use ndc_mock.Template.Render.Schedule.{cycles, schedule_lem}
use ndc_mock.Template.Load.{unique_leg_ids}
use ndc_mock.Http.{Request, Response, wants_json}
use ndc_mock.Serving.{Shop, shop_with}
use ndc_mock.Serving.Announced.{announced, IsAnnounced, shop_with-IsAnnounced}
use ndc_mock.Offer.{OfferInfo}
use ndc_mock.Tests.Serving.{replica}

-- A name is its part before the colon and the rest.
abbrev taken_apart : String → String × String
taken_apart s = ("", s)

whole_name : (s : String) → qname (taken_apart s).0 (taken_apart s).1 ≡ s
unfolding qname
whole_name s = refl

abbrev small_tree : Node
small_tree = node "Response" (leaf "Offer" "A" ∷ leaf "Offer" "B" ∷ [])

parse_tree-tokens_example : parse_tree (tokens taken_apart small_tree) true ≡ some small_tree
parse_tree-tokens_example = parse_tree-tokens taken_apart whole_name small_tree

swap_test :
    (swap_carrier "IF=LI,PUBLIC,LI_9,LI" "LI" "XX" ≡ "IF=XX,PUBLIC,LI_9,XX")
    × (swap_carrier "LIXX LI" "LI" "AB" ≡ "LIXX AB")
unfolding swap_carrier
swap_test = (refl, refl)

unique_test :
    (unique_leg_ids
      "<DatedOperatingLegID>A</DatedOperatingLegID><DatedOperatingLegID>A</DatedOperatingLegID>").1
    ≡ 1
unfolding unique_leg_ids
unique_test = refl

-- A new name may be one that the document has: here the second and the third come out alike.
clash_test :
    unique_leg_ids
      "<DatedOperatingLegID>A</DatedOperatingLegID><DatedOperatingLegID>A</DatedOperatingLegID><DatedOperatingLegID>A_2</DatedOperatingLegID>"
    ≡ (
      "<DatedOperatingLegID>A</DatedOperatingLegID><DatedOperatingLegID>A_2</DatedOperatingLegID><DatedOperatingLegID>A_2</DatedOperatingLegID>",
      1,
    )
unfolding unique_leg_ids
clash_test = refl

slice_test :
    slice "Offer" "<R><Offer>1</Offer> <Offer>2</Offer></R>"
    ≡ zones "<R>" ("<Offer>1</Offer>" ∷ " <Offer>2</Offer>" ∷ []) "</R>"
unfolding slice
slice_test = refl

uniq_test : uniq_sorted ("b" ∷ "a" ∷ "b" ∷ []) ≡ "a" ∷ "b" ∷ []
unfolding uniq_sorted
uniq_test = refl

ids_test :
    (let (hs, behind) = hits (id_elem ("OfferID" ∷ [])) "<R><OfferID>x|y</OfferID></R>" in
      mark_ids 0 hs behind)
    ≡ "<R><OfferID>\0o0\0</OfferID></R>"
unfolding hits id_elem mark_ids
ids_test = refl

abbrev text_only : String → Chunk
text_only s = record { parts = s ∷ []; slots = [] }

schedule_lem_example :
    schedule (text_only "A" ∷ text_only "B" ∷ []) 0 3
    ≡ some ((text_only "A", 0) ∷ (text_only "B", 0) ∷ (text_only "A", 1) ∷ [])
unfolding cycles
schedule_lem_example = schedule_lem (text_only "A" ∷ []) (text_only "B" ∷ []) 1

abbrev leg : String → String → String → Leg
leg from to date = record { from = from; to = to; date = date }

abbrev there_and_back : String → String → List Leg
there_and_back a b = leg a b "2026-09-30" ∷ leg b a "2026-10-07" ∷ []

abbrev to_lima : Query
to_lima = record {
  origin = "SCL";
  dest = "LIM";
  dep_date = "2026-09-30";
  ret_date = "2026-10-07";
  legs = there_and_back "SCL" "LIM";
  adt = 1;
  chd = 0;
  inf = 0;
  country = "CL";
  lang = "";
}

same_shape : pattern_of (there_and_back "GRU" "NAT") ≡ pattern_of to_lima.legs
unfolding pattern_of
same_shape = refl

airports_for-legs_example :
    map
      (names (airports_for (airports (there_and_back "GRU" "NAT")) to_lima))
      (numbers [] (there_and_back "GRU" "NAT"))
    ≡ map ends (there_and_back "SCL" "LIM")
airports_for-legs_example = airports_for-legs (there_and_back "GRU" "NAT") to_lima same_shape

-- A base64 that puts a letter in front of a text.
abbrev letter_b64 : Base64
letter_b64 = record {
  encode = λ s. "Q" <> s;
  decode = λ s.
      if (cut b'~' s).2 then none else elim (cut_prefix "Q" s) [ none ↦ none | some t ↦ some t ];
}

abbrev marked_id : OfferId
marked_id =
    record { text = "X1"; is_b64 = false; suffix = "" }
    ∷ record { text = "PR=USD/351"; is_b64 = true; suffix = "" }
    ∷ record { text = "PX=1/0/0"; is_b64 = true; suffix = "~0" }
    ∷ []

parse_offer_id-encode_example : parse_offer_id letter_b64 (encode letter_b64 marked_id) ≡ marked_id
unfolding decode_text cut cut_prefix
parse_offer_id-encode_example =
    parse_offer_id-encode letter_b64 (record { text = "X1"; is_b64 = false; suffix = "" })
      (record { text = "PR=USD/351"; is_b64 = true; suffix = "" }
        ∷ record { text = "PX=1/0/0"; is_b64 = true; suffix = "~0" }
        ∷ [])
      (
        plain "X1" (refl, (refl, tt)) refl (without_mark (refl, (refl, tt))),
        (
          coded "PR=USD/351"
              (
                refl,
                (refl, (refl, (refl, (refl, (refl, (refl, (refl, (refl, (refl, (refl, tt)))))))))),
              )
              refl,
          (
            coded_mark "PX=1/0/0" "0"
                (
                  refl,
                  (
                    refl,
                    (refl, (refl, (refl, (refl, (refl, (refl, (refl, (refl, (refl, tt))))))))),
                  ),
                )
                (refl, (refl, (refl, (refl, (refl, (refl, (refl, (refl, (refl, tt))))))))) refl
                refl,
            tt,
          ),
        ),
      )

abbrev reference : Template
reference = record {
  prefix = text_only "<R>";
  suffix = text_only "</R>";
  blocks = text_only "<Offer>1</Offer>" ∷ [];
  offers = marked_id ∷ [];
  dates = [];
  ref = record { leg_dates = pos 0 ∷ []; pax = "PX=1/0/0"; carrier = "XX"; currency = "USD" };
  ver = record { iata = "19.2"; offer_elem = "Offer"; id_elems = "OfferID" ∷ [] };
  legs = there_and_back "GRU" "NAT";
  airports = "GRU" ∷ "NAT" ∷ [];
  shape = "0-1,1-0";
  xlate = none;
}

abbrev shop : Shop
shop = record {
  templates = ("v192|rt", reference) ∷ [];
  lang_header = "Accept-Language";
  default_airline = "";
  unmarshal = λ body. none;
  parse = λ s. none;
  format = λ d. "";
  replace = λ reps s. s;
}

abbrev asks_json : Request
asks_json = record {
  path = "/ndc/v192/airshopping";
  query = λ k. "json";
  header = λ k. "";
  body = none;
}

json_wanted : wants_json replica.lower asks_json ≡ true
unfolding wants_json
json_wanted = refl

offers_ne : reference.offers ≢ []
offers_ne e = cc

shop_with-IsAnnounced_example :
    (res : Response) × (offs : List (String × OfferInfo)) × (shop_with replica shop asks_json "v192"
        to_lima reference none
        (pos 4)
        (pos 0)
      ≡ some res)
    × (length offs ≡ announced (pos 4) reference)
    × IsAnnounced replica to_lima reference none res offs
unfolding announced
shop_with-IsAnnounced_example =
    shop_with-IsAnnounced replica shop asks_json "v192" to_lima reference none (pos 4) (pos 0)
      json_wanted offers_ne (omega arith)
