-- ===== src/Http.antt =====
-- Requests and responses as the handlers see them (edge/format.go, edge/main.go).
use Prim.Native.Char.{code}
use ndc_mock.Prelude.{
  ℕ, Bool, Option, none, some, List, [], ◌∷◌, String, ◌<>◌, if◌then◌else◌, ◌==◌, ◌!=◌, nat_eq,
  string_eq,
}
use ndc_mock.Prelude.Int.{ℤ, pos}
use ndc_mock.Prelude.Text.{cut, split, cut_prefix, contains_text, itoa, trim_space}
use ndc_mock.Tree.{Node}

-- The tokens of an XML decoder that the program tells apart.
pub data Token : Type 0 where
  start : String → Token
  chars : String → Token
  other : Token

-- A request: `query` and `header` give "" for what is not set. The body is `none` if it cannot be
-- read; it holds the decoder's tokens up to the first error.
pub record Request : Type 0 where
  pub path : String
  pub query : String → String
  pub header : String → String
  pub body : Option (List Token)

-- What is encoded as JSON.
mutual
  pub data Json : Type 0 where
    text : String → Json
    int : ℤ → Json
    nat : ℕ → Json
    bool : Bool → Json
    array : Items → Json
    object : Fields → Json

  pub data Items : Type 0 where
    no_items : Items
    item : Json → Items → Items

  pub data Fields : Type 0 where
    no_fields : Fields
    field : String → Json → Fields → Fields

pub data Content : Type 0 where
  json : Json → Content
  xml : Node → Content
  raw : String → Content

-- A response: the status, the headers that the handler sets besides the content type, the content,
-- and how long the handler slept.
pub record Response : Type 0 where
  pub status : ℕ
  pub headers : List (String × String)
  pub content : Content
  pub slept : ℤ

escape_char : ℕ → String → String
escape_char c keep =
    if c == b'&'
    then "&amp;"
    else if c == b'<'
    then "&lt;"
    else if c == b'>'
    then "&gt;"
    else if c == b'"'
    then "&quot;"
    else keep

-- `escape`: each of the four characters becomes its entity.
unfoldable pub escape : String → String
unfolding escape_char
escape String.[] = String.[]
escape (String.◌∷◌ c s) = escape_char (code c) (String.◌∷◌ c String.[]) <> escape s

-- `lower` is `strings.ToLower`.
module _ (lower : String → String) where
  -- `formatOf`, whether the answer is JSON.
  unfoldable pub wants_json : Request → Bool
  unfolding contains_text
  wants_json r =
      let f = lower (r.query "format") in
      if f != "" then f == "json" else contains_text (lower (r.header "Accept")) "application/json"

  -- `fault`
  unfoldable pub fault : ℕ → String → Response
  unfolding escape itoa
  fault status msg = record {
    status = status;
    headers = [];
    content = raw (
        "<?xml version=\"1.0\" encoding=\"UTF-8\"?>"
        <> ("<IATA_AirShoppingRS xmlns=\"http://www.iata.org/IATA/2015/00/2019.2/IATA_AirShoppingRS\">"
            <> ("<Error><Code>"
                <> (itoa status
                    <> ("</Code><DescText>ndc-mock: "
                        <> (escape msg
                            <> "</DescText><OwnerName>NDC_MOCK</OwnerName></Error></IATA_AirShoppingRS>"))))));
    slept = pos 0;
  }

  -- `failure`: in whichever format the caller asked for.
  unfoldable pub failure : Request → ℕ → String → Response
  unfolding wants_json fault
  failure r status msg =
      if wants_json r
      then record {
        status = status;
        headers = [];
        content = json (
            object (
              field "code" (nat status) (
                field "message" (text ("ndc-mock: " <> msg))
                  (field "owner" (text "NDC_MOCK") no_fields))));
        slept = pos 0;
      }
      else fault status msg

  -- `langOf`; `lang_header` is the configured header.
  unfoldable pub lang_of : String → Request → String
  unfolding cut trim_space
  lang_of lang_header r =
      let v = r.header lang_header in
      let w = if v == "" then r.header "Accept-Language" else v in
      lower (trim_space (cut b'-' (cut b',' w).0).0)

-- The path without its leading slash.
unfoldable pub unrooted : String → String
unfolding cut_prefix
unrooted path = elim (cut_prefix "/" path) [ some rest ↦ rest | none ↦ path ]

unfoldable pub second : List String → String
second (a ∷ b ∷ rest) = b
second _ = ""

-- `versionOf`: the version segment of /ndc/<version>/<operation>.
unfoldable pub version_of : String → String
unfolding unrooted second split
version_of path = second (split b'/' (unrooted path))

-- `opOf`: the operation, with its own slashes.
unfoldable pub op_of : String → String
unfolding unrooted cut
op_of path = (cut b'/' (cut b'/' (unrooted path)).1).1
