-- ===== src/Lib.antt =====
-- ndc-mock: a mock of an IATA NDC provider. The edge (edge/) answers AirShopping from reference
-- responses, and every later message from the offer identifier that the request carries and from
-- a store of orders in memory; it builds its answers in 19.2 shape and translates them to the
-- generation that the URL asks for.
--
-- Which file models which part:
--   Prelude         shared helpers. Prelude.Int has the 64-bit `int`, with its wrap-around, and
--                   Prelude.Text what the code uses of `strings` and `strconv`.
--   Itinerary       `leg`, `pattern`, `airports` and `multiCity` (edge/query.go). Numbering relates
--                   the two loops that count airports, Shapes reads the printed shape back.
--   Query           `parseQuery` (edge/query.go); Query.Laws has its contract.
--   Offer           Info: `offerInfo` with its defaults, passengers and flights (edge/offerinfo.go,
--                   edge/xmlbuild.go). Ident: `parseOfferID`, `describe`, `encode` and `reencode`
--                   (edge/offerid.go, edge/offerinfo.go), with the theory of what one that is
--                   rewritten says. Render: `render` and `swapCarrier`.
--   Order           `order`, its total and its changes of state. Order.Store: `orderStore`
--                   (edge/orders.go); Laws, Oldest, Effects, Runs and Refines are its
--                   theory.
--   Tree            `xnode` and its operations (edge/translate.go); Parse and Print are
--                   `parseTree` and `write`.
--   Translate       `translateTree` (edge/translate.go): the mapping, the renames, the structural
--                   transforms, and in Steps the whole sequence with its report; Ends is about its
--                   walks. Document: `translate`.
--   Config          profiles, latencies and ceilings (edge/config.go).
--   Airline         fares and hubs of a carrier (edge/airlines.go).
--   Http            requests, responses and what is read from a path or a header (edge/format.go,
--                   edge/main.go, edge/handlers.go).
--   Build           the documents that the handlers build (edge/xmlbuild.go, edge/format.go).
--   Handlers        the messages after AirShopping (edge/handlers.go): Ids reads and makes
--                   identifiers, Answers has the server around a handler and its answers, Orders
--                   the order messages over the store with the forwarding between replicas
--                   (edge/orders.go), Services, Seats, Plans and Shop the messages that keep no
--                   state.
--   Template        the reference responses (edge/template.go): Build slices one, with Chunk for its
--                   spans, Airports and Dates carry a request over to it, Render writes the response,
--                   and Load is `loadTemplates` (edge/main.go).
--   Serving         AirShopping: `pick`, `airshopping` and the tests of `loadRoutes` (edge/main.go).
--   Startup         what the edge reads before it serves (edge/versions.go, edge/airlines.go,
--                   edge/config.go, edge/translate.go); Run is the start of `main` and
--                   `registerRoutes` (edge/main.go), Accepted, Ready and Routes are its theory.
--   Proxy           proxy and record mode (edge/proxy.go, and `withProxy` of edge/main.go).
--   Client          the client (client/ndc/client.go): its checks, Documents, Transport with the
--                   operations; Mcp is the server over it (client/cmd/ndc-mcp/main.go), Cli the
--                   command line (client/cmd/ndc/main.go), Main how both start and end.
--   Tests           runs of the definitions on concrete inputs.
--
-- How the code is read:
--   A Go map is an association list, and a loop over one takes the entries in the order of the
--   list: `put` has the order of its loop as an argument of its own, and the steps of
--   `translateTree` take the entries of a mapping in any order that the list gives. A mutex
--   makes an operation one step. Times and durations are integers of nanoseconds. A count that
--   the code only increments is a natural number.
--   `walk` calls its function before it goes to the children, so that a function that adds
--   elements may keep it going; the model gives it fuel, and `none` means that the fuel ran out.
--   The fuel of a wrap, and of a transform that adds elements, is one more than the weight of the
--   tree, which counts the levels that can still be added, since a walk goes down by one level with
--   each call; of any other walk, whose function adds no level, it is one more than the depth.
--   Code outside the repository is a parameter: the upper and lower case of texts, base64, the
--   parsing of durations, the random draw, floating point, the XML decoder's tokens, the files and
--   what the JSON decoder makes of them.
--   `make` panics above a capacity that depends on the machine: the capacities for slices of offers,
--   ancillaries and seats are fields of `Env`, and a list that a header can make longer is `none`
--   beyond them. Other slices are no longer than what is in memory already.
--   A regular expression is a test of the text at a position, and its matches are found from the
--   left (Template.Scan). A text is its characters: bytes that are no UTF-8 are not modelled.
--   The loop of `record` has the files on disk and one more as its fuel, since every round but the
--   last meets one of them. The client carries the state of the world through its exchanges.
--
-- Not modelled: the parsing of flags, the bytes of files and of JSON, sockets and the server,
-- timeouts, the panic of `http.HandleFunc` on a pattern that is invalid or registered twice, the
-- end of a proxy that cannot make its directory, the log lines of templates, the pool of buffers,
-- and the drawing and parsing that are parameters.
pub mod Prelude
pub mod Itinerary
pub mod Offer
pub mod Http
pub mod Order
pub mod Tree
pub mod Translate
pub mod Tests
pub mod Config
pub mod Query
pub mod Airline
pub mod Build
pub mod Handlers
pub mod Template
pub mod Serving
pub mod Client
pub mod Proxy
pub mod Startup
