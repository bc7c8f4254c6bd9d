-- ===== src/Ingest/Sample.antt =====
-- A document of one quarter, for the tests of the parts that parse one.
use gridlens.Prelude.{
  ◌≡◌, refl, String, false, none, some, [], ◌∷◌, ok, err, fold_ok, str_eq, if◌then◌else◌,
}
use gridlens.Prelude.Int.{pos}
use gridlens.Exceptions.{value_error}
use gridlens.Timeaxis.{Zone, period_count, position_time}
use gridlens.Timeaxis.Duration.{ascii_digit, parse_resolution}
use gridlens.Contracts.Records.{aware, finite, generation}
use gridlens.Ingest.Xml.{Element, element, nil, cons, Readers, local_name, instant}
use gridlens.Ingest.Document.{Document}
use gridlens.Ingest.Parse.{
  parse_generation, document_child, parse_series, series_child, parse_periods, name_zone,
  header_get, psr_child, parse_period, period_child, interval_child, point_child, parse_point,
  add_point, build_period, has_position, range, observe, sort_positions, insert_sorted,
}

abbrev leaf : String → String → Element
leaf tag text = element tag (some text) nil

abbrev quarter : Element
quarter = element "Period" none (
    cons (leaf "resolution" "PT15M") (
      cons
        (element "timeInterval" none
          (cons (leaf "start" "2026-01-01T00:00Z") (cons (leaf "end" "2026-01-01T00:15Z") nil)))
        (cons
          (element "Point" none (cons (leaf "position" "1") (cons (leaf "quantity" "40125") nil)))
          nil)))

abbrev series : Element
series = element "TimeSeries" none (
    cons (leaf "inBiddingZone_Domain.mRID" "10YFR-RTE------C") (
      cons (leaf "quantity_Measure_Unit.name" "MAW")
        (cons (element "MktPSRType" none (cons (leaf "psrType" "B14") nil)) (cons quarter nil))))

abbrev market_document : Element
market_document = element "{urn}GL_MarketDocument" none (
    cons (leaf "mRID" "m1") (
      cons (leaf "revisionNumber" "1")
        (cons (leaf "createdDateTime" "2026-01-02T00:00Z") (cons series nil))))

abbrev pub readers : Readers
readers = record {
  digit = ascii_digit;
  strip = λ s. s;
  read_int = λ s. if str_eq s "1" then some (pos 1) else none;
  read_decimal = λ s. if str_eq s "40125" then some (finite false 40125 (pos 0)) else none;
  read_moment = λ s.
      if str_eq s "2026-01-01T00:00Z"
      then some (aware 864000000000 (pos 0))
      else if str_eq s "2026-01-01T00:15Z"
      then some (aware 864900000000 (pos 0))
      else if str_eq s "2026-01-02T00:00Z"
      then some (aware 950400000000 (pos 0))
      else none;
  fromstring = λ s.
      if str_eq s "<GL_MarketDocument/>"
      then ok market_document
      else err (value_error "not well formed");
}

abbrev pub parsed : Document
parsed = record {
  mrid = "m1";
  revision_number = pos 1;
  document_type = "";
  process_type = "";
  created_at = 950400000000;
  series =
      (record {
        zone = "10YFR-RTE------C";
        production_type = "B14";
        direction = generation;
        unit = "MAW";
        resolution = 900000000;
        interval_start = 864000000000;
        interval_end = 864900000000;
        observations =
            (record {
              valid_time = 864000000000;
              position = pos 1;
              quantity = finite false 40125 (pos 0);
            })
            ∷ [];
        missing_positions = [];
      })
      ∷ [];
}

pub document-parsed : parse_generation readers "<GL_MarketDocument/>" ≡ ok parsed
unfolding parse_generation document_child parse_series series_child parse_periods name_zone
    header_get psr_child parse_period period_child interval_child point_child parse_point add_point
    build_period has_position range observe sort_positions insert_sorted period_count position_time
    parse_resolution instant local_name fold_ok
document-parsed = refl

abbrev pub utc_zone : Zone
utc_zone = record { utcoffset = λ r fold. pos 0; fromutc = λ u. u }
