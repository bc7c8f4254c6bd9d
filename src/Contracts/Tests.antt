-- ===== src/Contracts/Tests.antt =====
-- Runs and witnesses of the contract and the gate.
use gridlens.Prelude.{
  ◌+◌, ◌≡◌, ◌↔◌, refl, false, none, some, List, [], ◌∷◌, length, All, ok, err, arith, fold_ok,
}
use gridlens.Prelude.Int.{pos, negsuc}
use gridlens.Timeaxis.{position_time}
use gridlens.Contracts.Reference.{BiddingZone, ProductionType, zone_of_value, type_of_value}
use gridlens.Contracts.Records.{
  finite, Moment, aware, entsoe, generation, megawatt, Candidate, GenerationRecord, FieldError,
  source_of, direction_of, unit_of, minutes_of, must_be_utc, optional_utc, plausible_quantity,
  consistent, fields, field_errors, validate,
}
use gridlens.Contracts.Records.Contract.{IsContract, spell, validate_exact}
use gridlens.Ingest.Document.{GenerationSeries, Document}
use gridlens.Contracts.Gate.{
  GateResult, accepted, build_record, canonical_unit, candidate_of, sort_out, gate_observations,
  add_gap, gate_series, apply_gate, no_result,
}
use gridlens.Contracts.Gate.Conservation.{rows_of, gaps_of, apply_gate_conserves}
use gridlens.Contracts.Gate.Provenance.{InWindow, FromDocument, apply_gate-FromDocument}
use gridlens.Contracts.Gate.Acceptance.{apply_gate_accepts}

-- 00:15 on a day, learned the next
abbrev nuclear_quarter : GenerationRecord
nuclear_quarter = record {
  source = entsoe;
  source_document_id = some "m1";
  zone = BiddingZone.fr;
  production_type = ProductionType.nuclear;
  direction = generation;
  unit = megawatt;
  resolution_minutes = 15;
  valid_time = 864900000000;
  known_at = 950400000000;
  source_updated_at = none;
  quantity_mw = finite false 40125 (negsuc 0);
}

validate_exact_example :
    (validate (spell nuclear_quarter) ≡ ok nuclear_quarter)
    ↔ ((spell nuclear_quarter ≡ spell nuclear_quarter) × IsContract nuclear_quarter)
validate_exact_example = validate_exact (spell nuclear_quarter) nuclear_quarter

-- A kilowatt figure labelled as megawatts, in a unit that is not known.
abbrev kilowatts : Candidate
kilowatts = record {
  source = "entsoe";
  source_document_id = some "m1";
  zone = "10YFR-RTE------C";
  production_type = "B14";
  direction = "generation";
  unit = "KWT";
  resolution_minutes = 15;
  valid_time = aware 864900000000 (pos 0);
  known_at = aware 950400000000 (pos 0);
  source_updated_at = none;
  quantity_mw = finite false 40000000 (pos 0);
}

abbrev kilowatt_errors : List FieldError
kilowatt_errors =
    (record { loc = "unit"; msg = "literal_error" })
    ∷ (record { loc = "quantity_mw"; msg = "beyond anything a zone produces" })
    ∷ []

kilowatts_refused : validate kilowatts ≡ err kilowatt_errors
unfolding validate fields field_errors consistent source_of direction_of unit_of minutes_of
    must_be_utc optional_utc plausible_quantity zone_of_value type_of_value
kilowatts_refused = refl

-- Two quarters, of which the second is missing, and a series in half minutes.
abbrev two_quarters : GenerationSeries
two_quarters = record {
  zone = "10YFR-RTE------C";
  production_type = "B14";
  direction = generation;
  unit = "MAW";
  resolution = 900000000;
  interval_start = 864000000000;
  interval_end = 865800000000;
  observations =
      (record {
        valid_time = 864000000000;
        position = pos 1;
        quantity = finite false 40125 (negsuc 0);
      })
      ∷ [];
  missing_positions = 2 ∷ [];
}

abbrev half_minutes : GenerationSeries
half_minutes = record two_quarters { resolution = 30000000; missing_positions = [] }

abbrev mixed : Document
mixed = record {
  mrid = "m1";
  revision_number = pos 1;
  document_type = "A75";
  process_type = "A16";
  created_at = 950400000000;
  series = two_quarters ∷ half_minutes ∷ [];
}

abbrev learned : Moment
learned = aware 950400000000 (pos 0)

apply_gate_accepts_example :
    (g : GateResult) × (apply_gate mixed learned ≡ ok g) × All IsContract g.records
apply_gate_accepts_example = apply_gate_accepts mixed learned ((omega arith, tt), (tt, tt))

-- What the gate makes of the document: one record, the series in half minutes, and the second quarter.
abbrev gated : GateResult
unfolding apply_gate
gated = elim (apply_gate mixed learned) [ ok g ↦ g | err e ↦ no_result ]

mixed-gated : apply_gate mixed learned ≡ ok gated
unfolding apply_gate gate_series gate_observations sort_out build_record canonical_unit candidate_of
    add_gap validate fields field_errors consistent source_of direction_of unit_of minutes_of
    must_be_utc optional_utc plausible_quantity zone_of_value type_of_value position_time fold_ok
mixed-gated = refl

apply_gate_conserves_example :
    (accepted gated + length gated.violations ≡ rows_of mixed.series)
    × (gated.gaps ≡ gaps_of mixed.series)
apply_gate_conserves_example = apply_gate_conserves mixed learned gated mixed-gated

mixed-InWindow : All (InWindow 864000000000 865800000000) mixed.series
mixed-InWindow = (((omega arith, omega arith), tt), (((omega arith, omega arith), tt), tt))

apply_gate-FromDocument_example :
    All (FromDocument mixed learned 864000000000 865800000000) gated.records
apply_gate-FromDocument_example =
    apply_gate-FromDocument mixed learned 864000000000 865800000000 gated mixed-InWindow mixed-gated
