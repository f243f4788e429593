-- ===== src/Template/Chunk.antt =====
-- `chunk`: a span of the response, cut at every point that varies.
pub mod RoundTrip
use ndc_mock.Prelude.{ℕ, Option, none, some, List, [], ◌∷◌, ◌++◌, map, String, ◌<>◌, ◌>>=◌}
use ndc_mock.Prelude.Int.{ℤ, pos}
use ndc_mock.Prelude.Text.{Atoi, num, bad, range, atoi, itoa, cut_prefix, span1}
use ndc_mock.Prelude.Decimal.{is_digit}
use ndc_mock.Template.Scan.{Matcher, Hits, hits, replace_all}

pub record Chunk : Type 0 where
  pub parts : List String
  pub slots : List ℕ

-- The character 0, which stands around the number of a slot.
abbrev pub nul : String
nul = "\0"

-- `Sscanf` with `%d` at a text of digits.
unfoldable pub scanned : Atoi → ℕ
scanned (num (pos n)) = n
scanned _ = 0

-- A number between two characters 0, behind a letter or not.
unfoldable pub lettered : String → Matcher ℕ
unfolding cut_prefix span1 scanned atoi
lettered letter s = do
  s₁ ← cut_prefix nul s
  s₂ ← cut_prefix letter s₁
  (ds, s₃) ← span1 is_digit s₂
  rest ← cut_prefix nul s₃
  some (scanned (atoi ds), rest)

-- `reMarker`
unfoldable pub marker : Matcher ℕ
unfolding lettered
marker = lettered ""

unfoldable pub chunk_of : Hits ℕ → Chunk
chunk_of (hs, behind) = record {
  parts = map (λ h. h.0) hs ++ (behind ∷ []);
  slots = map (λ h. h.1) hs;
}

-- `newChunk`
unfoldable pub new_chunk : String → Chunk
unfolding hits marker chunk_of
new_chunk doc = chunk_of (hits marker doc)

unfoldable pub mark : String → ℕ → String
unfolding itoa
mark letter n = nul <> (letter <> (itoa n <> nul))

-- `renumber`
unfoldable pub renumber : String → (ℕ → ℕ) → String → String
unfolding replace_all lettered mark
renumber letter to doc = replace_all (lettered letter) (λ n. mark "" (to n)) doc
