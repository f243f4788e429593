-- ===== src/Client/Documents.antt =====
-- The request documents of the client. `esc` is `xml.EscapeText`.
use ndc_mock.Prelude.{ℕ, zero, suc, [], ◌∷◌, String, ◌<>◌, if◌then◌else◌, ◌!=◌, string_eq}
use ndc_mock.Prelude.Int.{ℤ, pos_part}
use ndc_mock.Prelude.Text.{join, itoa}
use ndc_mock.Client.{SearchParams}

abbrev xml_head : String
xml_head = "<?xml version=\"1.0\" encoding=\"UTF-8\"?>"

-- The passengers from the `i`-th on, `n` of them.
unfoldable pub pax_from : String → ℕ → ℕ → String
unfolding itoa
pax_from ptc i zero = ""
pax_from ptc i (suc n) =
    "<Pax><PaxID>"
    <> (ptc
        <> ("_"
            <> (itoa i
                <> ("</PaxID><PTC>" <> (ptc <> ("</PTC></Pax>" <> pax_from ptc (suc i) n))))))

unfoldable pub pax_block : String → ℤ → String
unfolding pax_from
pax_block ptc n = pax_from ptc 1 (pos_part n)

module _ (esc : String → String) where
  unfoldable pub wrap_id : String → String → String → String
  unfolding join
  wrap_id root elem id = join "" (
      xml_head
      ∷ "<"
      ∷ root
      ∷ "><Request><"
      ∷ elem
      ∷ ">"
      ∷ esc id
      ∷ "</"
      ∷ elem
      ∷ "></Request></"
      ∷ root
      ∷ ">"
      ∷ [])

  unfoldable pub leg : String → String → String → String
  unfolding join
  leg from to date = join "" (
      "<OriginDestCriteria><DestArrivalCriteria><IATA_LocationCode>"
      ∷ esc to
      ∷ "</IATA_LocationCode></DestArrivalCriteria>"
      ∷ "<OriginDepCriteria><Date>"
      ∷ esc date
      ∷ "</Date><IATA_LocationCode>"
      ∷ esc from
      ∷ "</IATA_LocationCode></OriginDepCriteria></OriginDestCriteria>"
      ∷ [])

  unfoldable pub build_air_shopping : SearchParams → String
  unfolding join leg pax_block
  build_air_shopping p = join "" (
      xml_head
      ∷ "<IATA_AirShoppingRQ xmlns=\"http://www.iata.org/IATA/2015/00/2019.2/IATA_AirShoppingRQ\">"
      ∷ "<MessageDoc><RefVersionNumber>1.0</RefVersionNumber></MessageDoc>"
      ∷ "<Party><Participant><Aggregator><AggregatorID>88888888</AggregatorID><Name>Aggregator</Name></Aggregator></Participant>"
      ∷ "<Sender><TravelAgency><AgencyID>00000000-0000-0000-0000-000000000000</AgencyID>"
      ∷ "<IATA_Number>00000000</IATA_Number><Name>Agency</Name>"
      ∷ "<TravelAgent><TravelAgentID>agent@example.com</TravelAgentID></TravelAgent></TravelAgency></Sender></Party>"
      ∷ "<POS><City><IATA_LocationCode>"
      ∷ esc p.origin
      ∷ "</IATA_LocationCode></City>"
      ∷ "<Country><CountryCode>US</CountryCode></Country><RequestTime>2018-10-12T07:38:00</RequestTime></POS>"
      ∷ "<Request><FlightCriteria>"
      ∷ leg p.origin p.dest p.depart_date
      ∷ (if p.return_date != "" then leg p.dest p.origin p.return_date else "")
      ∷ "</FlightCriteria><Paxs>"
      ∷ pax_block "ADT" p.adt
      ∷ pax_block "CHD" p.chd
      ∷ pax_block "INF" p.inf
      ∷ "</Paxs><ShoppingCriteria><CabinTypeCriteria><CabinTypeCode>"
      ∷ esc p.cabin
      ∷ "</CabinTypeCode></CabinTypeCriteria>"
      ∷ "<ConnectionCriteria><ConnectionPrefID>CONN_1</ConnectionPrefID><MaximumConnectionQty>1</MaximumConnectionQty><StationCriteria/></ConnectionCriteria>"
      ∷ "</ShoppingCriteria></Request></IATA_AirShoppingRQ>"
      ∷ [])
