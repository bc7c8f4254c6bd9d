-- ===== src/Stream/Tests.antt =====
-- A message written and read back, and a poll of one quarter.
use gridlens.Prelude.{
  ℕ, suc, inl, inr, ◌≡◌, arith, refl, false, Option, none, some, List, [], ◌∷◌, Result, ok, err,
  fold_ok,
}
use gridlens.Prelude.Int.{pos, negsuc, ◌≤ℤ◌}
use gridlens.Exceptions.{Exception, value_error}
use gridlens.Timeaxis.{settlement_day, assert_unambiguous, period_count, position_time}
use gridlens.Timeaxis.Duration.{parse_resolution}
use gridlens.Contracts.Reference.{BiddingZone, ProductionType, zone_of_value, type_of_value}
use gridlens.Contracts.Records.{
  GenerationRecord, entsoe, generation, megawatt, finite, special, fields, field_errors, consistent,
  source_of, direction_of, unit_of, minutes_of, must_be_utc, optional_utc, plausible_quantity,
  validate,
}
use gridlens.Contracts.Gate.{
  build_record, canonical_unit, candidate_of, sort_out, gate_observations, add_gap, gate_series,
  apply_gate,
}
use gridlens.Ingest.Sample.{readers, utc_zone}
use gridlens.Ingest.Xml.{local_name, instant}
use gridlens.Ingest.Parse.{
  parse_generation, document_child, parse_series, series_child, parse_periods, name_zone,
  header_get, psr_child, parse_period, period_child, interval_child, point_child, parse_point,
  add_point, build_period, has_position, range, observe, sort_positions, insert_sorted,
}
use gridlens.Stream.{
  days_to_poll, observation, Broker, PollSummary, publish_records, publish_refusals, publish,
  gate_fetched, unanswered, poll_day, poll_days, poll_once,
}
use gridlens.Stream.Published.{poll_once_publishes}
use gridlens.Stream.Learned.{
  recorded, Learned, EachDay, answered_of, all_messages, all_accepted, all_refused,
}
use gridlens.Contracts.Records.Contract.{IsContract}
use gridlens.Lake.Staging.{staged_row}
use gridlens.Stream.Service.{AvroRecord, to_avro}
use gridlens.Stream.Figures.{avro_of, to_avro-staged_row}
use gridlens.Stream.Wire.{encode, decode, decode-encode}

-- A broker that counts what it takes, and a source with one document.
abbrev counting : Broker ℕ
counting = record {
  fetch = λ start end w. (ok ("<GL_MarketDocument/>", 950400000007), w);
  produce = λ m w. (ok tt, suc w);
  poll = λ w. w;
  flush = λ w. (0, w);
  refused = λ w. 0;
}

abbrev nuclear : GenerationRecord
nuclear = record {
  source = entsoe;
  source_document_id = some "m1";
  zone = BiddingZone.fr;
  production_type = ProductionType.nuclear;
  direction = generation;
  unit = megawatt;
  resolution_minutes = 15;
  valid_time = 864000000000;
  known_at = 950400000000;
  source_updated_at = none;
  quantity_mw = finite false 40125 (pos 0);
}

abbrev one_published : PollSummary
one_published = record {
  published = 1;
  quarantined = 0;
  empty_days = [];
  days = (record { day = 10; records = 1; gaps = 0 }) ∷ [];
}

-- ten in the morning of the day
polled :
    poll_once readers (recorded counting) utc_zone 900000000000 (0, [])
    ≡ (ok one_published, (1, observation nuclear ∷ []))
unfolding poll_once poll_days poll_day unanswered gate_fetched publish publish_refusals
    publish_records days_to_poll recorded settlement_day assert_unambiguous apply_gate gate_series
    gate_observations sort_out build_record canonical_unit candidate_of add_gap validate fields
    field_errors consistent source_of direction_of unit_of minutes_of must_be_utc optional_utc
    plausible_quantity zone_of_value type_of_value parse_generation document_child parse_series
    series_child parse_periods name_zone header_get psr_child parse_period period_child
    interval_child point_child parse_point add_point build_period has_position range observe
    sort_positions insert_sorted period_count position_time parse_resolution instant local_name
    fold_ok
polled = refl

poll_once_publishes_example :
    (outcomes : List (Option Learned)) × EachDay readers counting utc_zone
      (days_to_poll utc_zone 900000000000)
      outcomes
    × (observation nuclear ∷ [] ≡ all_messages (answered_of outcomes))
    × (one_published.published ≡ all_accepted (answered_of outcomes))
    × (one_published.quarantined ≡ all_refused (answered_of outcomes))
    × (counting.refused 1 ≡ 0)
poll_once_publishes_example =
    poll_once_publishes readers counting utc_zone 900000000000 0 1 one_published
      (observation nuclear ∷ []) polled

nuclear-IsContract : IsContract nuclear
nuclear-IsContract = record {
  minutes_positive = omega arith;
  minutes_in_day = omega arith;
  on_boundary = refl;
  realised = omega arith;
  plausible = (inl refl, inr (omega arith));
}

to_avro-staged_row_example :
    (to_avro nuclear ≡ ok (avro_of false (staged_row nuclear)))
    × (pos 0 ≤ℤ (staged_row nuclear).quantity)
    × ((staged_row nuclear).quantity ≤ℤ pos 150000000)
to_avro-staged_row_example = to_avro-staged_row nuclear nuclear-IsContract

-- A writer that keeps the coefficient, and a reader that knows the rest.
abbrev write_one : AvroRecord → List ℕ
write_one a = elim a.quantity_mw [ special ↦ [] | finite sign c e ↦ c ∷ [] ]

abbrev read_one : List ℕ → Result Exception AvroRecord
read_one (c ∷ []) =
    ok (record (avro_of false (staged_row nuclear)) { quantity_mw = finite false c (negsuc 2) })
read_one _ = err (value_error "not one number")

decode-encode_example :
    (payload : List ℕ) × (encode write_one nuclear 70000 ≡ ok payload)
    × (decode read_one payload ≡ ok (70000, avro_of false (staged_row nuclear)))
decode-encode_example =
    decode-encode write_one read_one nuclear 70000 nuclear-IsContract (omega arith) refl
