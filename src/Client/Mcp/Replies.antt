-- ===== src/Client/Mcp/Replies.antt =====
-- Which lines the server answers, and in which order.
use ndc_mock.Prelude.{
  Option, none, some, List, [], ◌∷◌, ◌++◌, map, String, if◌then◌else◌, ◌==◌, string_eq,
}
use ndc_mock.Client.Transport.{Client}
use ndc_mock.Client.Mcp.{RpcRequest, RpcResponse, Wire}

-- The identifier that a line is to be answered with, if it is to be answered: an unreadable one with
-- none, a request with its own, a notification not at all.
unfoldable pub answer_to : Option RpcRequest → List String
answer_to none = "" ∷ []
answer_to (some req) = if req.id == "" then [] else req.id ∷ []

unfoldable pub due : Wire → List String → List String
unfolding answer_to
due D [] = []
due D (line ∷ lines) = (if line == "" then [] else answer_to (D.decode_request line)) ++ due D lines

unfoldable pub ids : List RpcResponse → List String
ids rs = map (λ r. r.id) rs
