-- ===== src/Ingest/Parse/Tests.antt =====
-- A Period of two quarters of which the second is missing, parsed.
use gridlens.Prelude.{
  ℕ, ◌≡◌, refl, String, false, none, some, [], ◌∷◌, ok, err, fold_ok, str_eq, if◌then◌else◌,
}
use gridlens.Prelude.Int.{pos}
use gridlens.Exceptions.{value_error}
use gridlens.Contracts.Records.{aware, generation, finite}
use gridlens.Ingest.Xml.{Element, element, nil, cons, Readers, children, local_name, instant}
use gridlens.Ingest.Document.{GenerationSeries}
use gridlens.Timeaxis.Duration.{ascii_digit, parse_resolution}
use gridlens.Timeaxis.{period_count, position_time}
use gridlens.Ingest.Parse.{
  PeriodParts, no_parts, parse_period, period_child, interval_child, point_child, parse_point,
  add_point, build_period, has_position, range, observe, sort_positions, insert_sorted,
}
use gridlens.Ingest.Parse.Counting.{Distinct}
use gridlens.Ingest.Parse.Grid.{OverGrid}
use gridlens.Ingest.Parse.Periods.{parse_period-OverGrid}

abbrev leaf : String → String → Element
leaf tag text = element tag (some text) nil

abbrev quarters : Element
quarters = element "{urn}Period" none (
    cons (leaf "{urn}resolution" "PT15M") (
      cons
        (element "{urn}timeInterval" none (
          cons (leaf "{urn}start" "2026-01-01T00:00Z")
            (cons (leaf "{urn}end" "2026-01-01T00:30Z") nil)))
        (cons
          (element "{urn}Point" none
            (cons (leaf "{urn}position" "1") (cons (leaf "{urn}quantity" "40125") nil)))
          nil)))

abbrev readers : Readers
readers = record {
  digit = ascii_digit;
  strip = λ s. s;
  read_int = λ s. if str_eq s "1" then some (pos 1) else none;
  read_decimal = λ s. if str_eq s "40125" then some (finite false 40125 (pos 0)) else none;
  read_moment = λ s.
      if str_eq s "2026-01-01T00:00Z"
      then some (aware 864000000000 (pos 0))
      else if str_eq s "2026-01-01T00:30Z"
      then some (aware 865800000000 (pos 0))
      else none;
  fromstring = λ s. err (value_error "not read here");
}

abbrev parsed : GenerationSeries
parsed = record {
  zone = "10YFR-RTE------C";
  production_type = "B14";
  direction = generation;
  unit = "MAW";
  resolution = 900000000;
  interval_start = 864000000000;
  interval_end = 865800000000;
  observations =
      (record {
        valid_time = 864000000000;
        position = pos 1;
        quantity = finite false 40125 (pos 0);
      })
      ∷ [];
  missing_positions = 2 ∷ [];
}

quarters-parsed :
    parse_period readers quarters "10YFR-RTE------C" "B14" generation "MAW" ≡ ok parsed
unfolding parse_period period_child interval_child point_child parse_point add_point build_period
    has_position range observe sort_positions insert_sorted period_count position_time
    parse_resolution instant local_name fold_ok
quarters-parsed = refl

parse_period-OverGrid_example :
    (n : ℕ) × (parts : PeriodParts) × (fold_ok (period_child readers) no_parts (children quarters)
      ≡ ok parts)
    × Distinct parts.quantities
    × OverGrid n parts.quantities parsed
parse_period-OverGrid_example =
    parse_period-OverGrid readers quarters "10YFR-RTE------C" "B14" generation "MAW" parsed
      quarters-parsed
