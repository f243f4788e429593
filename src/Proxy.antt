-- ===== src/Proxy.antt =====
-- Proxy and record mode (edge/proxy.go). The disk is the files that it holds, by path. The HTTP
-- client is the parameter `forward`.
pub mod Files
pub mod Kept
use ndc_mock.Prelude.{
  ℕ, zero, suc, ◌+◌, ◌%◌, ◌^◌, Bool, true, false, ◌&&◌, ◌||◌, not, Option, none, some, List, [],
  ◌∷◌, ◌++◌, String, ◌<>◌, if◌then◌else◌, ◌==◌, ◌!=◌, nat_eq, string_eq, ◌>>=◌, ltb, length,
}
use ndc_mock.Prelude.Text.{itoa, split, join, cut_prefix, exactly}
use ndc_mock.Translate.Mapping.{Map, lookup}
use ndc_mock.Offer.Ident.{is_upper}
use ndc_mock.Offer.{or_default}
use ndc_mock.Template.Scan.{Matcher, Hits, hits, found, first_hit, split_first}

abbrev pub Disk : Type 0
Disk = Map String

pub record Proxy : Type 0 where
  pub upstream : String
  pub record_to : String
  pub auth_hdr : List String

-- The code that a location carries behind an opening tag: the first one that is well-formed.
code_at : Matcher String
unfolding cut_prefix exactly
code_at s = do
  s₁ ← cut_prefix "<IATA_LocationCode>" s
  (c, s₂) ← exactly is_upper 3 s₁
  rest ← cut_prefix "</IATA_LocationCode>" s₂
  some (c, rest)

code_behind : Option (String × String) → Option String
unfolding hits first_hit code_at
code_behind none = none
code_behind (some (before, rest)) = first_hit (found (hits code_at rest))

-- `reRoute` and `reDest`: the first code behind the first tag of the criteria.
unfoldable pub find_code : String → String → Option String
unfolding code_behind split_first
find_code tag rq = code_behind (split_first tag rq)

route_suffix : Option String → Option String → String
route_suffix (some o) (some d) = "-" <> (o <> ("-" <> d))
route_suffix _ _ = ""

-- The name of a capture: the operation, and the route that the request carries.
unfoldable pub capture_name : String → String → String
unfolding route_suffix find_code join split
capture_name op rq =
    join "-" (split b'/' op)
    <> route_suffix (find_code "<OriginDepCriteria>" rq) (find_code "<DestArrivalCriteria>" rq)

-- `%03d`
unfoldable pub zeros : ℕ → String → String
zeros n s = if ltb n 10 then "00" <> s else if ltb n 100 then "0" <> s else s

unfoldable pub padded : ℕ → String
unfolding itoa zeros
padded n = zeros n (itoa n)

unfoldable pub is_there : Disk → String → Bool
is_there [] path = false
is_there ((k, text) ∷ disk) path = if k == path then true else is_there disk path

-- `join_path` is `filepath.Join`.
module _ (join_path : String → String → String) where
  unfoldable pub base_path : String → String → ℕ → String
  unfolding padded
  base_path dir name n = join_path dir (name <> ("-" <> padded n))

  -- The loop of `record` over the counter: the first number whose response is not on disk yet. The
  -- loop has no bound of its own, so it is on fuel.
  unfoldable pub free_from : ℕ → Disk → String → String → ℕ → Option ℕ
  unfolding is_there base_path
  free_from zero disk dir name seq = none
  free_from (suc fuel) disk dir name seq =
      let n = suc seq % 2 ^ 64 in
      let next = free_from fuel disk dir name n in
      if is_there disk (base_path dir name n <> "-rs.xml") then next else some n

  unfoldable pub stored : Disk → String → String → String → String → ℕ → Disk
  unfolding base_path
  stored disk dir name rq rs n =
      let base = base_path dir name n in (base <> "-rq.xml", rq) ∷ (base <> "-rs.xml", rs) ∷ disk

  stored_at : Disk → String → String → String → String → Option ℕ → Option (Disk × ℕ)
  unfolding stored
  stored_at disk dir name rq rs none = none
  stored_at disk dir name rq rs (some n) = some (stored disk dir name rq rs n, n)

  -- `record`: the disk and the counter after it. A file that is written replaces the one of its
  -- path; that a write fails is not part of the model. A disk has no more responses than files.
  unfoldable pub record_exchange : Proxy → Disk → ℕ → String → String → String → Option (Disk × ℕ)
  unfolding stored_at free_from capture_name
  record_exchange p disk seq op rq rs =
      let name = capture_name op rq in
      stored_at disk p.record_to name rq rs
        (free_from (suc (length disk)) disk p.record_to name seq)

-- A response to forward, and what the handler does with it.
pub record Incoming : Type 0 where
  pub method : String
  pub path : String
  pub raw_query : String
  pub header : String → String
  pub body : String

pub record Upstream : Type 0 where
  pub method : String
  pub url : String
  pub headers : List (String × String)
  pub body : String

pub record Answer : Type 0 where
  pub status : ℕ
  pub headers : List (String × String)
  pub body : String

copied : List String → (String → String) → List (String × String)
copied [] header = []
copied (h ∷ hs) header =
    let rest = copied hs header in if header h != "" then (h, header h) ∷ rest else rest

-- What is sent upstream; a header that is set twice has the later value.
unfoldable pub outgoing : Proxy → Incoming → Upstream
unfolding copied
outgoing p r = record {
  method = r.method;
  url = p.upstream <> (r.path <> (if r.raw_query != "" then "?" <> r.raw_query else ""));
  headers =
      copied p.auth_hdr r.header
      ++ (("Content-Type", or_default (r.header "Content-Type") "application/xml") ∷ []);
  body = r.body;
}

-- The headers but for one name, in any case.
without : (String → String) → String → List (String × String) → List (String × String)
without lower name [] = []
without lower name ((k, v) ∷ hs) =
    let rest = without lower name hs in if lower k == name then rest else (k, v) ∷ rest

trim_slash : String → String
trim_slash String.[] = String.[]
trim_slash (String.◌∷◌ c String.[]) =
    if String.◌∷◌ c String.[] == "/" then String.[] else String.◌∷◌ c String.[]
trim_slash (String.◌∷◌ c (String.◌∷◌ d s)) = String.◌∷◌ c (trim_slash (String.◌∷◌ d s))

-- `newProxyMode`
unfoldable pub new_proxy : String → String → List String → Option Proxy
unfolding trim_slash
new_proxy upstream record_to names =
    if upstream == ""
    then none
    else some (record { upstream = trim_slash upstream; record_to = record_to; auth_hdr = names })

-- How a request is answered: by the handler, by the handler in the place of the provider, by the
-- provider, or not, since its body cannot be read.
pub data Mode (A : Type 0) : Type 0 where
  synthetic : A → Mode A
  fallback : A → Mode A
  relayed : Answer → Mode A
  unread : Mode A

-- `forward` gives `none` where the request cannot be built or sent, or its answer not be read.
module _ (join_path : String → String → String) (lower : String → String)
    (forward : Upstream → Option Answer) where
  recorded : Proxy → Disk → ℕ → String → String → Answer → Option (Disk × ℕ)
  unfolding record_exchange
  recorded p disk seq op body a =
      if p.record_to != "" && a.status == 200
      then record_exchange join_path p disk seq op body a.body
      else some (disk, seq)

  passed_on : Answer → Answer
  unfolding without
  passed_on a = record a {
    headers =
        without lower "x-mock-mode" (without lower "content-length" a.headers)
        ++ (("X-Mock-Mode", "proxy") ∷ []);
  }

  handle_answer :
      Proxy → Disk → ℕ → String → String → Option Answer → Option (Disk × ℕ × Option Answer)
  unfolding recorded passed_on
  handle_answer p disk seq op body none = some (disk, seq, none)
  handle_answer p disk seq op body (some a) = do
    (disk', seq') ← recorded p disk seq op body a
    some (disk', seq', some (passed_on a))

  -- `handle`: the disk and the counter after it, and the answer; without one the caller falls back.
  unfoldable pub handle : Proxy → Disk → ℕ → Incoming → String → Option (Disk × ℕ × Option Answer)
  unfolding handle_answer outgoing
  handle p disk seq r op = handle_answer p disk seq op r.body (forward (outgoing p r))

  or_fallback : {A : Type 0} → A → Option Answer → Mode A
  or_fallback own none = fallback own
  or_fallback own (some a) = relayed a

  -- `withProxy` (edge/main.go); `body` is `none` where it cannot be read, and `own` is what the
  -- handler answers.
  unfoldable pub with_proxy :
      {A : Type 0}
      → Option Proxy
      → Disk
      → ℕ
      → Incoming
      → Option String
      → String
      → A
      → Option (Disk × ℕ × Mode A)
  unfolding handle or_fallback
  with_proxy none disk seq r body op own = some (disk, seq, synthetic own)
  with_proxy (some p) disk seq r none op own = some (disk, seq, unread)
  with_proxy (some p) disk seq r (some text) op own = do
    (disk', seq', a) ← handle p disk seq (record r { body = text }) op
    some (disk', seq', or_fallback own a)
