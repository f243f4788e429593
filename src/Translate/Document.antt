-- ===== src/Translate/Document.antt =====
-- `translate`: a whole document from one generation to another.
use Prim.Native.Char.{code}
use ndc_mock.Prelude.{
  ℕ, ◌+◌, Bool, ◌||◌, Option, none, some, List, String, ltb, leb, if◌then◌else◌, ◌>>=◌,
}
use ndc_mock.Prelude.Text.{contains_text}
use ndc_mock.Tree.Parse.{RawToken, parse_tree}
use ndc_mock.Tree.Print.{serialize_as}
use ndc_mock.Translate.Mapping.{Mapping, covered}
use ndc_mock.Translate.Steps.{rewrite}
use ndc_mock.Translate.Steps.Report.{Report, report}

-- How many bytes a character takes in UTF-8.
unfoldable pub utf8_len : ℕ → ℕ
utf8_len c = if ltb c 0x80 then 1 else if ltb c 0x800 then 2 else if ltb c 0x10000 then 3 else 4

-- The characters of which all bytes are among the first `n`, where `k` bytes stand before.
unfoldable pub head_from : ℕ → ℕ → String → String
unfolding utf8_len
head_from n k String.[] = String.[]
head_from n k (String.◌∷◌ c s) =
    let rest = head_from n (k + utf8_len (code c)) s in
    if leb (k + utf8_len (code c)) n then String.◌∷◌ c rest else String.[]

-- Whether the source is indented, by its first 4096 bytes.
unfoldable pub is_indented : String → Bool
unfolding head_from contains_text
is_indented doc =
    let head = head_from 4096 0 doc in contains_text head ">\n" || contains_text head ">\r\n"

-- `tokens_of` is the decoder: the raw tokens, and whether they end with the document.
module _ (tokens_of : String → List RawToken × Bool)
    (escape_text lower upper : String → String) where
  -- `none`: a step panics or does not end. `some none`: an error of the decoder or of `parseTree`.
  unfoldable pub translate : Mapping → String → Option (Option (String × Report))
  unfolding parse_tree rewrite report serialize_as is_indented covered
  translate m doc = elim (parse_tree (tokens_of doc).0 (tokens_of doc).1) [
    | none ↦ some none
    | some root ↦ (do
      new ← rewrite lower upper m root
      some (some (serialize_as escape_text (is_indented doc) new, report (covered m) new)))
  ]
