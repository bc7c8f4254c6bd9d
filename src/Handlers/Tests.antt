-- ===== src/Handlers/Tests.antt =====
-- A firing of the ingest handler that is delivered twice.
use gridlens.Prelude.{◌≡◌, refl, true, none, some, [], ◌∷◌, ok, fold_ok, arith}
use gridlens.Prelude.Int.{pos}
use gridlens.Timeaxis.{settlement_day, assert_unambiguous, period_count, position_time}
use gridlens.Timeaxis.Duration.{parse_resolution}
use gridlens.Contracts.Reference.{zone_of_value, type_of_value}
use gridlens.Contracts.Records.{
  fields, field_errors, consistent, source_of, direction_of, unit_of, minutes_of, must_be_utc,
  optional_utc, plausible_quantity, validate,
}
use gridlens.Contracts.Gate.{
  build_record, canonical_unit, candidate_of, sort_out, gate_observations, add_gap, gate_series,
  apply_gate,
}
use gridlens.Contracts.Quarantine.{quarantine_write}
use gridlens.Ingest.Sample.{readers, parsed, document-parsed, utc_zone}
use gridlens.Ingest.Xml.{local_name, instant}
use gridlens.Ingest.Parse.{
  parse_generation, document_child, parse_series, series_child, parse_periods, name_zone,
  header_get, psr_child, parse_period, period_child, interval_child, point_child, parse_point,
  add_point, build_period, has_position, range, observe, sort_positions, insert_sorted,
}
use gridlens.Lake.Query.{Execution, wait_for, poll, check_state}
use gridlens.Lake.Bronze.{
  Row, Lake, merge, merge_batch, finish_merge, check_batch, require_utc, batch_rows, is_inserted,
  matched, changed, latest, later_of, same_version, same_period,
}
use gridlens.Lake.Backfill.{parse_known_at}
use gridlens.Lake.Staging.{staged_row, staged_lines, write}
use gridlens.Handlers.{
  Event, Outside, loaded, gate_and_quarantine, merged, load_staged, load, ingest,
}
use gridlens.Handlers.Retry.{ingest_retry}

abbrev named : Event
named = record {
  valid_date = some "2026-01-01";
  known_at = "2026-01-02T00:00Z";
  start_date = none;
  end_date = none;
  refetch_days = none;
}

abbrev succeeded : Execution
succeeded = record { state = "SUCCEEDED"; reason = none; scanned = some 4096; millis = some 900 }

-- The first delivery, and the second one a microsecond later under a batch id of its own.
abbrev first : Outside
first = record {
  fetched = ok ("<GL_MarketDocument/>", 950400000007);
  put_raw = ok tt;
  put_quarantine = λ o. ok tt;
  refused_key = "seen_date=2026-01-02/00.jsonl";
  put_batch = ok tt;
  batch_id = "b1";
  answers = λ n. succeeded;
  fuel = 3;
}

abbrev later : Outside
later = record first { fetched = ok ("<GL_MarketDocument/>", 950400000008); batch_id = "b2" }

abbrev nuclear : Row
nuclear = record {
  source = "entsoe";
  source_document_id = some "m1";
  zone = "10YFR-RTE------C";
  production_type = "B14";
  direction = "generation";
  unit = "MW";
  resolution_minutes = 15;
  valid_time = 864000000000;
  known_at = 950400000000;
  source_updated_at = none;
  quantity = pos 40125000;
}

abbrev empty_lake : Lake
empty_lake = record { staging = []; table = [] }

abbrev lake1 : Lake
lake1 = record { staging = ("b1", nuclear) ∷ []; table = nuclear ∷ [] }

abbrev lake2 : Lake
lake2 = record { staging = ("b1", nuclear) ∷ ("b2", nuclear) ∷ []; table = nuclear ∷ [] }

window-bounds : settlement_day 10 utc_zone ≡ ok (864000000000, 950400000000)
unfolding settlement_day assert_unambiguous
window-bounds = refl

first-run :
    ingest readers (λ c. true) first utc_zone 10 named empty_lake
    ≡ some (ok (loaded 1 0 0 "b1" 1 4096), lake1)
unfolding ingest settlement_day assert_unambiguous gate_and_quarantine parse_known_at apply_gate
    gate_series gate_observations sort_out build_record canonical_unit candidate_of add_gap validate
    fields field_errors consistent source_of direction_of unit_of minutes_of must_be_utc
    optional_utc plausible_quantity zone_of_value type_of_value quarantine_write load write
    staged_lines staged_row load_staged merged merge_batch check_batch require_utc wait_for poll
    check_state finish_merge batch_rows merge is_inserted matched changed latest later_of
    same_version same_period parse_generation document_child parse_series series_child parse_periods
    name_zone header_get psr_child parse_period period_child interval_child point_child parse_point
    add_point build_period has_position range observe sort_positions insert_sorted period_count
    position_time parse_resolution instant local_name fold_ok
first-run = refl

later-run :
    ingest readers (λ c. true) later utc_zone 10 named lake1
    ≡ some (ok (loaded 1 0 0 "b2" 1 4096), lake2)
unfolding ingest settlement_day assert_unambiguous gate_and_quarantine parse_known_at apply_gate
    gate_series gate_observations sort_out build_record canonical_unit candidate_of add_gap validate
    fields field_errors consistent source_of direction_of unit_of minutes_of must_be_utc
    optional_utc plausible_quantity zone_of_value type_of_value quarantine_write load write
    staged_lines staged_row load_staged merged merge_batch check_batch require_utc wait_for poll
    check_state finish_merge batch_rows merge is_inserted matched changed latest later_of
    same_version same_period parse_generation document_child parse_series series_child parse_periods
    name_zone header_get psr_child parse_period period_child interval_child point_child parse_point
    add_point build_period has_position range observe sort_positions insert_sorted period_count
    position_time parse_resolution instant local_name fold_ok
later-run = refl

none_yet : batch_rows "b1" empty_lake.staging ≡ []
unfolding batch_rows
none_yet = refl

other_batch : batch_rows "b2" lake1.staging ≡ []
unfolding batch_rows
other_batch = refl

ingest_retry_example : lake2.table ≡ lake1.table
ingest_retry_example =
    ingest_retry readers (λ c. true) first later utc_zone 10 named 864000000000 950400000000
      "<GL_MarketDocument/>" parsed 950400000007 950400000008 empty_lake lake1 lake2
      (loaded 1 0 0 "b1" 1 4096) (loaded 1 0 0 "b2" 1 4096) window-bounds refl document-parsed
      (((omega arith, omega arith), tt), tt) refl refl none_yet other_batch first-run later-run
