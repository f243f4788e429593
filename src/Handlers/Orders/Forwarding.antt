-- ===== src/Handlers/Orders/Forwarding.antt =====
-- Requests that are replayed at the replica that owns an order.
use ndc_mock.Prelude.{◌≡◌, ◌≢◌, some, List, ◌∷◌, ◌++◌, String, string_eq}
use ndc_mock.Airline.{Floats}
use ndc_mock.Handlers.Answers.{Env}

-- One of the addresses of a list.
abbrev pub IsAmong : String → List String → Type 0
IsAmong host ips = (before : List String) × (after : List String) × (ips ≡ before ++ (host ∷ after))

-- The resolver gives the owner's host as one of the addresses of the name of the peers.
abbrev pub IsPeer : {F : Floats} → Env F → String → Type 0
IsPeer E owner =
    (host : String) × (ips : List String) × (E.host_of owner ≡ some host)
    × (E.peers ≢ "")
    × (E.hosts E.peers ≡ some ips)
    × IsAmong host ips
