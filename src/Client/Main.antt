-- ===== src/Client/Main.antt =====
-- How the two programs over the client start and end (client/cmd/ndc/main.go,
-- client/cmd/ndc-mcp/main.go). The flags are parsed, and a request is timed, by the library.
use ndc_mock.Prelude.{ℕ, Bool, List, [], ◌∷◌, ◌++◌, String, ◌<>◌, if◌then◌else◌, ◌!=◌, string_eq}
use ndc_mock.Prelude.Text.{join}
use ndc_mock.Client.{Result, ok, error}
use ndc_mock.Client.Transport.{Net, Client, new_client}
use ndc_mock.Client.Cli.{Terminal, run}
use ndc_mock.Client.Mcp.{Wire, RpcResponse, serve}

-- The environment: a variable that is not set is empty.
abbrev pub Environment : Type 0
Environment = String → String

unfoldable pub env_or : Environment → String → String → String
env_or env k def = if env k != "" then env k else def

-- The flags that both programs have, as they were parsed.
pub record Endpoint : Type 0 where
  pub url : String
  pub version : String

-- What the flags are where they are not given.
unfoldable pub default_endpoint : Environment → Endpoint
unfolding env_or
default_endpoint env = record {
  url = env_or env "NDC_URL" "http://localhost:8090";
  version = env_or env "NDC_VERSION" "v192";
}

-- A header, if its variable is set.
header_if : String → String → List (String × String)
header_if k v = if v != "" then (k, v) ∷ [] else []

-- The credentials of the environment.
unfoldable pub credentials : Environment → List (String × String)
unfolding header_if
credentials env =
    header_if "Authorization" (env "NDC_AUTH") ++ header_if "X-Api-Key" (env "NDC_API_KEY")

-- The client that a program drives.
unfoldable pub client_for : Environment → Endpoint → Client
unfolding new_client credentials
client_for env e = record (new_client e.url e.version) { headers = credentials env }

-- `usage`
unfoldable pub usage : String
unfolding join
usage = join "" (
    "ndc - drive an NDC endpoint from the terminal\n" ∷ "\n" ∷ "usage: ndc [flags] <command>\n"
    ∷ "\n" ∷ "commands:\n"
    ∷ "  search -from LIM -to SCL -depart 2026-09-30 [-return ...] [-airline IB] [-max 10]\n"
    ∷ "  price <offer-id>\n" ∷ "  order <offer-id>\n" ∷ "  retrieve <order-id>\n"
    ∷ "  cancel <order-id>\n" ∷ "  services <offer-id>\n" ∷ "  seats <offer-id>\n" ∷ "\n"
    ∷ "flags:\n" ∷ "  -url        NDC endpoint (default http://localhost:8090, or $NDC_URL)\n"
    ∷ "  -version    NDC version segment (default v192, or $NDC_VERSION)\n"
    ∷ "  -json       print raw JSON instead of a summary\n" ∷ "  -timeout    request timeout\n"
    ∷ "\n" ∷ "credentials, when the endpoint needs them, come from the environment:\n"
    ∷ "  NDC_AUTH      sent as Authorization\n" ∷ "  NDC_API_KEY   sent as X-Api-Key\n" ∷ [])

-- How the command line ends: its status, and what it wrote to its output and for errors.
pub record Exit : Type 0 where
  pub code : ℕ
  pub out : String
  pub errors : String

exit_with : Result String → Exit
exit_with (ok s) = record { code = 0; out = s; errors = "" }
exit_with (error e) = record { code = 1; out = ""; errors = "error: " <> (e <> "\n") }

-- `main` of the command line.
unfoldable pub ndc :
    {W : Type 0} → Terminal → Net W → Environment → Endpoint → W → List String → Bool → W × Exit
unfolding usage run client_for exit_with
ndc T N env e w [] as_json = (w, record { code = 2; out = ""; errors = usage })
ndc T N env e w (verb ∷ args) as_json =
    let (w', r) = run T N (client_for env e) w verb args as_json in (w', exit_with r)

-- `main` of the MCP server: what it writes for the lines that it reads.
unfoldable pub ndc_mcp :
    {W : Type 0} → Wire → Net W → Environment → Endpoint → W → List String → W × List RpcResponse
unfolding serve client_for
ndc_mcp D N env e w lines = serve N (client_for env e) D w lines
