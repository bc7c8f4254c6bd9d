-- ===== src/Ingest/Document.antt =====
-- The dataclasses of src/gridlens/ingest/entsoe_parse.py. Times are UTC instants, a resolution is a
-- number of microseconds.
use gridlens.Prelude.{ℕ, ◌+◌, String, List, length}
use gridlens.Prelude.Int.{ℤ}
use gridlens.Contracts.Records.{Decimal, Direction}

pub record Observation : Type 0 where
  pub valid_time : ℕ
  pub position : ℤ
  pub quantity : Decimal

pub record GenerationSeries : Type 0 where
  pub zone : String
  pub production_type : String
  pub direction : Direction
  pub unit : String
  pub resolution : ℕ
  pub interval_start : ℕ
  pub interval_end : ℕ
  pub observations : List Observation
  pub missing_positions : List ℕ

-- `GenerationSeries.expected_positions`
unfoldable pub expected_positions : GenerationSeries → ℕ
expected_positions s = length s.observations + length s.missing_positions

pub record Document : Type 0 where
  pub mrid : String
  pub revision_number : ℤ
  pub document_type : String
  pub process_type : String
  pub created_at : ℕ
  pub series : List GenerationSeries
