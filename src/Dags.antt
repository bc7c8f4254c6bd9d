-- ===== src/Dags.antt =====
-- dags/: what the tasks of the three DAGs compute and when they fail. Airflow's scheduling, the lambda's
-- answer, and the texts of dates and times are parameters.
pub mod Refetch
pub mod Audit
mod Tests
use gridlens.Prelude.{
  ℕ, ◌+◌, ◌-◌, ◌/◌, ◌%◌, String, Bool, true, false, Option, none, some, List, [], ◌∷◌, map, Result,
  ok, err, ◌>>=◌, ◌>>◌, raise_if, or_raise, not, if◌then◌else◌,
}
use gridlens.Exceptions.{Exception, airflow_failure, airflow_skip, runtime_error, value_error}
use gridlens.Timeaxis.{Zone, day_us, second_us}
use gridlens.Timeaxis.Duration.{codes}
use gridlens.Lake.Query.{Execution}
use gridlens.Lake.Gaps.{missing_settlement_days}
use gridlens.Handlers.{Event}
use gridlens.Quality.Bronze.{Verdict}
use gridlens.Quality.Restatement.{Counts, ProductionRun, differences}
use gridlens.Quality.Restatement.Window.{Window, last_month, schema_for}
use gridlens.Scripts.TableStats.{codes_leb}

-- bronze_backfill.py
abbrev pub lookback_days : ℕ
lookback_days = 7

-- the window of `find_gaps`, from the date of the run
unfoldable pub gap_window : ℕ → ℕ × ℕ
gap_window today = let end = today - 1 in (end - (lookback_days - 1), end)

-- `find_gaps`, from the engine's answers and the rows of the dates it has
unfoldable pub find_gaps :
    (String → Option ℕ)
    → (ℕ → String)
    → (ℕ → Execution)
    → List (List String)
    → ℕ
    → ℕ
    → Option (Result Exception (List String))
find_gaps read_date isoformat answers rows fuel today =
    let (start, end) = gap_window today in
    elim (missing_settlement_days read_date answers rows fuel start end) [
      | none ↦ none
      | some (err e) ↦ some (err e)
      | some (ok gaps) ↦ some (ok (map isoformat gaps))
    ]

abbrev pub less_text : String → String → String
less_text a b = if codes_leb (codes a) (codes b) then a else b

abbrev pub greater_text : String → String → String
greater_text a b = if codes_leb (codes a) (codes b) then b else a

-- `min(gaps)` and `max(gaps)`
unfoldable pub span_of_gaps : String → String → List String → String × String
span_of_gaps low high [] = (low, high)
span_of_gaps low high (g ∷ rest) = span_of_gaps (less_text low g) (greater_text high g) rest

pub record BackfillPayload : Type 0 where
  pub start_date : String
  pub end_date : String
  pub known_at : String

-- the payload of `backfill`, with the run's time to the second
unfoldable pub backfill_payload : (ℕ → String) → ℕ → List String → Result Exception BackfillPayload
backfill_payload isoformat run_after [] = err (airflow_skip "nothing missing")
backfill_payload isoformat run_after (g ∷ gaps) =
    let (low, high) = span_of_gaps g g gaps in
    ok (record {
      start_date = low;
      end_date = high;
      known_at = isoformat (run_after - run_after % second_us);
    })

-- The payload as the event of the lambda's handler.
abbrev pub payload_event : BackfillPayload → Event
payload_event payload = record {
  valid_date = none;
  known_at = payload.known_at;
  start_date = some payload.start_date;
  end_date = some payload.end_date;
  refetch_days = none;
}

-- The lambda's answer: its body, and whether its function raised.
pub record Invocation : Type 0 where
  pub body : String
  pub function_error : Bool

unfoldable pub backfill_task :
    (ℕ → String) → (BackfillPayload → Invocation) → ℕ → List String → Result Exception String
backfill_task isoformat invoke run_after gaps = do
  payload ← backfill_payload isoformat run_after gaps
  raise_if ((invoke payload).function_error) (runtime_error "backfill failed")
  ok ((invoke payload).body)

-- `validate` of bronze_quality.py
unfoldable pub validate_task : Verdict → Result Exception (ℕ × ℕ)
validate_task v = do
  raise_if (not v.passed) (airflow_failure "expectations failed")
  ok (v.expectations, v.scanned_bytes)

-- restatement_audit.py: the day of a run, and what `plan` hands on; a snapshot's id goes as a text.
unfoldable pub run_day : Zone → ℕ → ℕ
run_day paris run_after = paris.fromutc run_after / day_us

pub record Planned : Type 0 where
  pub schema : String
  pub git_sha : String
  pub snapshot_id : String
  pub learned_up_to : String

unfoldable pub plan :
    (ℕ → String)
    → (ℕ → String)
    → (ℕ → String)
    → ℕ
    → Result Exception Window
    → Result Exception ProductionRun
    → Result Exception Planned
plan compact number_text isoformat day window production = do
  w ← window
  r ← production
  ok (record {
    schema = schema_for compact day;
    git_sha = r.git_sha;
    snapshot_id = number_text r.snapshot_id;
    learned_up_to = isoformat r.learned_up_to;
  })

-- `_inputs`
unfoldable pub inputs :
    (String → Option ℕ)
    → (String → Option ℕ)
    → (ℕ → ℕ)
    → Zone
    → ℕ
    → Planned
    → Result Exception (Window × ProductionRun)
inputs read_int read_moment day_of_month paris day planned = do
  id ← or_raise (read_int planned.snapshot_id) (value_error "invalid literal for int()")
  learned ← or_raise (read_moment planned.learned_up_to) (value_error "invalid isoformat string")
  w ← last_month day_of_month paris day
  ok (w, record { git_sha = planned.git_sha; snapshot_id = id; learned_up_to = learned })

abbrev pub no_tables : List String → Bool
no_tables [] = true
no_tables (t ∷ rest) = false

-- `compare`, from what the comparison gives
unfoldable pub compare_task :
    Result Exception (List (String × Counts)) → Result Exception (List (String × Counts))
compare_task compared = do
  results ← compared
  raise_if (not (no_tables (differences results)))
      (airflow_failure "restated tables differ from production")
  ok results

-- `verdict`: the restated rows and the tables
unfoldable pub verdict : List (String × Counts) → ℕ × ℕ
verdict [] = (0, 0)
verdict ((table, c) ∷ rest) = let (rows, tables) = verdict rest in (c.left + rows, tables + 1)
