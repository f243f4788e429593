-- ===== src/Template/Build.antt =====
-- `newTemplate`: a reference response is sliced at every point that varies.
pub mod Slices
pub mod Servable
use ndc_mock.Prelude.{
  ℕ, suc, ◌+◌, Bool, true, false, Option, none, some, List, [], ◌∷◌, ◌++◌, map, String, ◌<>◌,
  if◌then◌else◌, ◌==◌, nat_eq, string_eq, ◌>>=◌, ltb, length,
}
use ndc_mock.Prelude.Int.{ℤ, pos}
use ndc_mock.Prelude.Text.{cut_prefix, exactly, span1}
use ndc_mock.Prelude.Decimal.{is_digit}
use ndc_mock.Itinerary.{Leg, airports, pattern_of, contains}
use ndc_mock.Tree.Sort.{before}
use ndc_mock.Translate.Mapping.{Mapping}
use ndc_mock.Translate.Steps.Report.{Report}
use ndc_mock.Offer.Ident.{
  Base64, Segment, OfferId, parse_offer_id, parse_legs, find_trip, match_price, is_upper,
}
use ndc_mock.Offer.Render.{is_code}
use ndc_mock.Template.Scan.{Matcher, Hits, hits, found, first_hit, split_first, split_last, width}
use ndc_mock.Template.Chunk.{Chunk, new_chunk, mark, renumber}

-- `version`, as far as a template needs it.
pub record Version : Type 0 where
  pub iata : String
  pub offer_elem : String
  pub id_elems : List String

pub record RefValues : Type 0 where
  pub leg_dates : List ℤ
  pub pax : String
  pub carrier : String
  pub currency : String

pub record Template : Type 0 where
  pub prefix : Chunk
  pub suffix : Chunk
  pub blocks : List Chunk
  pub offers : List OfferId
  pub dates : List String
  pub ref : RefValues
  pub ver : Version
  pub legs : List Leg
  pub airports : List String
  pub shape : String
  pub xlate : Option (Mapping × Report)

-- `newTemplate` returns a template or an error, or it panics.
pub data Built : Type 0 where
  built : Template → Built
  failed : String → Built
  panics : Built

-- One name of the alternatives, up to the bracket that closes the tag.
tag_end : List String → String → Option (String × String)
unfolding cut_prefix
tag_end [] s = none
tag_end (e ∷ es) s =
    let others = tag_end es s in
    elim (cut_prefix (e <> ">") s) [ some rest ↦ some (e, rest) | none ↦ others ]

-- An element of one of the names: its name, its text, and the name that closes it.
unfoldable pub id_elem : List String → Matcher (String × String × String)
unfolding tag_end cut_prefix span1
id_elem es s = do
  s₁ ← cut_prefix "<" s
  (e, s₂) ← tag_end es s₁
  (text, s₃) ← span1 (λ c. if c == b'<' then false else true) s₂
  s₄ ← cut_prefix "</" s₃
  (f, rest) ← tag_end es s₄
  some ((e, text, f), rest)

-- The document with every identifier replaced by the mark of its number, from `k` on.
unfoldable pub mark_ids : ℕ → List (String × (String × String × String)) → String → String
unfolding mark
mark_ids k [] behind = behind
mark_ids k ((t, (e, text, f)) ∷ hs) behind =
    t
    <> ("<" <> (e <> (">" <> (mark "o" k <> ("</" <> (f <> (">" <> mark_ids (suc k) hs behind)))))))

-- `reDate`
unfoldable pub date_at : Matcher String
unfolding exactly cut_prefix
date_at s = do
  (y, s₁) ← exactly is_digit 4 s
  s₂ ← cut_prefix "-" s₁
  (m, s₃) ← exactly is_digit 2 s₂
  s₄ ← cut_prefix "-" s₃
  (d, rest) ← exactly is_digit 2 s₄
  some (y <> ("-" <> (m <> ("-" <> d))), rest)

-- `rePax`
unfoldable pub pax_mix_at : Matcher String
unfolding cut_prefix span1
pax_mix_at s = do
  s₁ ← cut_prefix "PX=" s
  (adt, s₂) ← span1 is_digit s₁
  s₃ ← cut_prefix "/" s₂
  (chd, s₄) ← span1 is_digit s₃
  s₅ ← cut_prefix "/" s₄
  (inf, rest) ← span1 is_digit s₅
  some ("PX=" <> (adt <> ("/" <> (chd <> ("/" <> inf)))), rest)

-- `reFlight`, of which the carrier is read.
unfoldable pub flight_at : Matcher String
unfolding cut_prefix exactly span1
flight_at s = do
  s₁ ← cut_prefix "IF=" s
  (_, s₂) ← exactly is_upper 3 s₁
  s₃ ← cut_prefix "," s₂
  (_, s₄) ← exactly is_upper 3 s₃
  s₅ ← cut_prefix "," s₄
  (_, s₆) ← span1 is_digit s₅
  s₇ ← cut_prefix "," s₆
  (carrier, s₈) ← exactly is_code 2 s₇
  rest ← cut_prefix "," s₈
  some (carrier, rest)

keep : String → Option String → String
keep old none = old
keep old (some new) = new

legs_once : List Leg → Option String → List Leg
unfolding parse_legs
legs_once [] none = []
legs_once [] (some trip) = parse_legs trip
legs_once (l ∷ ls) trip = l ∷ ls

currency_of : String → Option (String × String × String) → String
currency_of old none = old
currency_of old (some (cur, whole, dec)) = cur

-- The loop over the segments of the first identifier.
unfoldable pub read_refs : List Leg × RefValues → OfferId → List Leg × RefValues
unfolding legs_once keep currency_of find_trip hits first_hit pax_mix_at flight_at match_price
read_refs (legs, r) [] = (legs, r)
read_refs (legs, r) (s ∷ segs) =
    read_refs
      (
        legs_once legs (find_trip s.text),
        record r {
          pax = keep r.pax (first_hit (found (hits pax_mix_at s.text)));
          carrier = keep r.carrier (first_hit (found (hits flight_at s.text)));
          currency = currency_of r.currency (match_price s.text);
        },
      )
      segs

distinct_from : List String → List String → List String
unfolding contains
distinct_from seen [] = []
distinct_from seen (s ∷ ss) =
    let new = distinct_from (s ∷ seen) ss in
    let old = distinct_from seen ss in if contains seen s then old else s ∷ new

insert_text : String → List String → List String
insert_text s [] = s ∷ []
insert_text s (t ∷ ts) = let rest = insert_text s ts in if before t s then t ∷ rest else s ∷ t ∷ ts

unfoldable pub sort_texts : List String → List String
unfolding insert_text
sort_texts [] = []
sort_texts (s ∷ ss) = insert_text s (sort_texts ss)

-- `uniqSorted`; `sort.Strings` of distinct texts has one result.
unfoldable pub uniq_sorted : List String → List String
unfolding distinct_from sort_texts
uniq_sorted ss = sort_texts (distinct_from [] ss)

-- The pairs of a replacer, each text with the mark of its number.
unfoldable pub marks : String → ℕ → List String → List (String × String)
unfolding mark
marks letter k [] = []
marks letter k (s ∷ ss) = (s, mark letter k) ∷ marks letter (suc k) ss

unfoldable pub parse_all : (String → Option ℤ) → List Leg → Option (List ℤ)
parse_all parse [] = some []
parse_all parse (l ∷ ls) = do d ← parse l.date; ds ← parse_all parse ls; some (d ∷ ds)
