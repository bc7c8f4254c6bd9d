-- ===== src/Contracts/Gate.antt =====
-- src/gridlens/contracts/gate.py: records that the contract accepts, violations that are kept, and
-- the gaps of the source. The payload of a violation holds what was refused; that it is rendered as
-- text by `_jsonable` is left out.
pub mod Conservation
pub mod Acceptance
pub mod Provenance
use gridlens.Prelude.{
  ℕ, ◌+◌, ◌/◌, ◌%◌, String, Bool, not, List, [], ◌∷◌, ◌++◌, Option, none, some, Result, ok, err,
  ◌>>=◌, length, str_eq, ◌==◌, if◌then◌else◌, fold_ok,
}
use gridlens.Prelude.Int.{pos}
use gridlens.Exceptions.{Exception}
use gridlens.Timeaxis.{second_us, position_time}
use gridlens.Contracts.Records.{
  Moment, aware, Direction, generation, consumption, Candidate, GenerationRecord, FieldError,
  validate,
}
use gridlens.Ingest.Document.{Observation, GenerationSeries, Document}

-- What a violation keeps of the refused input: a candidate, a series of a document, or the name of
-- a production type of RTE's.
pub data Payload : Type 0 where
  candidate : Candidate → Payload
  series : String → GenerationSeries → Payload
  rte_type : String → Payload

pub data Reason : Type 0 where
  contract : List FieldError → Reason
  sub_minute_resolution unknown_production_type mixed_resolution : Reason

pub record Violation : Type 0 where
  pub reason : Reason
  pub payload : Payload

pub record Gap : Type 0 where
  pub zone : String
  pub production_type : String
  pub direction : Direction
  pub valid_time : ℕ
  pub position : ℕ

pub record GateResult : Type 0 where
  pub records : List GenerationRecord
  pub violations : List Violation
  pub gaps : List Gap

-- `GateResult.accepted`
abbrev pub accepted : GateResult → ℕ
accepted g = length g.records

abbrev pub no_result : GateResult
no_result = record { records = []; violations = []; gaps = [] }

abbrev pub contract_violation : Candidate → List FieldError → Violation
contract_violation c es = record { reason = contract es; payload = candidate c }

-- `build_record`, as the record or the violation
unfoldable pub build_record : Candidate → Result Violation GenerationRecord
build_record c = elim (validate c) [ ok r ↦ ok r | err es ↦ err (contract_violation c es) ]

-- `UNITS.get(unit, unit)`
unfoldable pub canonical_unit : String → String
canonical_unit unit = if str_eq unit "MAW" then "MW" else unit

abbrev pub direction_name : Direction → String
direction_name generation = "generation"
direction_name consumption = "consumption"

unfoldable pub candidate_of : Document → GenerationSeries → ℕ → Moment → Observation → Candidate
candidate_of d s resolution_minutes known_at o = record {
  source = "entsoe";
  source_document_id = some d.mrid;
  zone = s.zone;
  production_type = s.production_type;
  direction = direction_name s.direction;
  unit = canonical_unit s.unit;
  resolution_minutes = resolution_minutes;
  valid_time = aware o.valid_time (pos 0);
  known_at = known_at;
  source_updated_at = none;
  quantity_mw = o.quantity;
}

-- `records.append(built)` or `violations.append(built)`
unfoldable pub sort_out : GateResult → Result Violation GenerationRecord → GateResult
sort_out g (ok r) = record g { records = g.records ++ r ∷ [] }
sort_out g (err v) = record g { violations = g.violations ++ v ∷ [] }

unfoldable pub gate_observations :
    Document → GenerationSeries → ℕ → Moment → GateResult → List Observation → GateResult
gate_observations d s minutes known_at g [] = g
gate_observations d s minutes known_at g (o ∷ rest) =
    gate_observations d s minutes known_at
      (sort_out g (build_record (candidate_of d s minutes known_at o))) rest

unfoldable pub add_gap : GenerationSeries → GateResult → ℕ → Result Exception GateResult
add_gap s g p = do
  t ← position_time s.interval_start s.resolution (pos p)
  ok (record g {
    gaps =
        g.gaps
        ++ (record {
          zone = s.zone;
          production_type = s.production_type;
          direction = s.direction;
          valid_time = t;
          position = p;
        })
          ∷ [];
  })

-- `_gate_series`, with `divmod(int(series.resolution.total_seconds()), 60)` written out
unfoldable pub gate_series :
    Document → Moment → GateResult → GenerationSeries → Result Exception GateResult
gate_series d known_at g s =
    let seconds = s.resolution / second_us in
    if not (seconds % 60 == 0)
    then ok (record g {
      violations =
          g.violations
          ++ (record { reason = sub_minute_resolution; payload = series d.mrid s }) ∷ [];
    })
    else fold_ok (add_gap s) (gate_observations d s (seconds / 60) known_at g s.observations)
        s.missing_positions

unfoldable pub apply_gate : Document → Moment → Result Exception GateResult
apply_gate d known_at = fold_ok (gate_series d known_at) no_result d.series
