-- ===== src/Quality/Bronze.antt =====
-- src/gridlens/quality/bronze.py: the expectations of the bronze table. What great_expectations makes
-- of a frame is a parameter, and so is `pandas.to_numeric`.
pub mod Suites
pub mod Passing
use gridlens.Prelude.{
  ℕ, ◌+◌, ◌*◌, String, ◌<>◌, Bool, true, false, Option, none, some, List, [], ◌∷◌, ◌++◌, Result, ok,
  err, ◌>>=◌, or_raise, length, if◌then◌else◌,
}
use gridlens.Exceptions.{Exception, query_failed, index_error, value_error}
use gridlens.Timeaxis.{Zone, settlement_day, period_count, minute_us}
use gridlens.Lake.Query.{Execution, wait_for}
use gridlens.Lake.Bronze.{number_or_zero}

-- A `DataFrame` of texts: its columns' names, and its rows.
pub record Frame : Type 0 where
  pub columns : List (Option String)
  pub rows : List (List (Option String))

-- `fetch`, from the answers and the rows of the result; `none`: no terminal state.
unfoldable pub frame_of : List (List (Option String)) → Execution → Result Exception (Frame × ℕ)
frame_of [] done = err index_error
frame_of (header ∷ body) done =
    ok (record { columns = header; rows = body }, number_or_zero done.scanned)

unfoldable pub fetch :
    (ℕ → Execution) → ℕ → List (List (Option String)) → Option (Result Exception (Frame × ℕ))
fetch answers fuel rows = elim (wait_for answers fuel query_failed "query failed") [
  | none ↦ none
  | some (err e) ↦ some (err e)
  | some (ok done) ↦ some (frame_of rows done)
]

abbrev pub quarter_hour : ℕ
quarter_hour = 15 * minute_us

-- `expected_periods`
unfoldable pub expected_periods : (String → Option ℕ) → Zone → String → Result Exception ℕ
expected_periods read_date paris day_text = do
  day ← or_raise (read_date day_text) (value_error "invalid isoformat string")
  bounds ← settlement_day day paris
  period_count bounds.0 bounds.1 quarter_hour

-- An expectation of a suite, with the fields that its class is given.
pub data Expectation : Type 0 where
  values_between : String → ℕ → Option ℕ → Expectation
  at_least : String → ℕ → Expectation
  pair_equal : String → String → Expectation
  pair_greater_or_equal : String → String → Expectation
  not_null : String → Expectation

abbrev pub min_series_per_day : ℕ
min_series_per_day = 15

abbrev pub max_hours_since_last_learned : ℕ
max_hours_since_last_learned = 48

abbrev pub table_max_mw : ℕ
table_max_mw = 150000

-- The suites of `invariants` and `completeness`.
abbrev pub invariants : List Expectation
invariants =
    values_between "duplicate_keys" 0 (some 0)
    ∷ values_between "future_periods" 0 (some 0)
    ∷ values_between "known_before_it_happened" 0 (some 0)
    ∷ values_between "negative_quantities" 0 (some 0)
    ∷ values_between "hours_since_last_learned" 0 (some max_hours_since_last_learned)
    ∷ []

abbrev pub completeness : List Expectation
completeness =
    pair_equal "periods" "expected_periods"
    ∷ pair_greater_or_equal "expected_periods" "densest_series"
    ∷ at_least "series" min_series_per_day
    ∷ values_between "max_mw" 0 (some table_max_mw)
    ∷ not_null "zone"
    ∷ []

-- `kwargs.get("column") or kwargs.get("column_A")`
unfoldable pub column_of : Expectation → String
column_of (values_between column low high) = column
column_of (at_least column low) = column
column_of (pair_equal a b) = a
column_of (pair_greater_or_equal a b) = a
column_of (not_null column) = column

-- One result of a validation: what was expected, whether it held, and what was observed.
pub record Checked : Type 0 where
  pub expectation : Expectation
  pub success : Bool
  pub observed : String

-- The failures of a suite, as `run` names them.
unfoldable pub failures_of : String → List Checked → List String
failures_of name [] = []
failures_of name (c ∷ rest) =
    let later = failures_of name rest in
    if c.success
    then later
    else (name <> "." <> column_of c.expectation <> ": " <> c.observed) ∷ later

pub record Verdict : Type 0 where
  pub expectations : ℕ
  pub failed : List String
  pub passed : Bool
  pub scanned_bytes : ℕ

-- A suite, how its query is answered, and how its frame is validated.
pub record Suite : Type 0 where
  pub name : String
  pub fetched : Option (Result Exception (Frame × ℕ))
  pub validate_frame : Frame → Result Exception (List Checked)

abbrev pub no_failures : List String → Bool
no_failures [] = true
no_failures (f ∷ rest) = false

-- the loop of `run` over the suites, and its result
unfoldable pub run_suites : List Suite → ℕ → ℕ → List String → Option (Result Exception Verdict)
run_suites [] scanned checked failures = some (
    ok (record {
      expectations = checked;
      failed = failures;
      passed = no_failures failures;
      scanned_bytes = scanned;
    }))
run_suites (s ∷ rest) scanned checked failures = elim s.fetched [
  | none ↦ none
  | some (err e) ↦ some (err e)
  | some (ok (frame, bytes)) ↦ elim (s.validate_frame frame) [
    | err e ↦ some (err e)
    | ok results ↦
        run_suites rest (scanned + bytes) (checked + length results)
          (failures ++ failures_of s.name results)
  ]
]

unfoldable pub run : Suite → Suite → Option (Result Exception Verdict)
run invariant_suite completeness_suite =
    run_suites (invariant_suite ∷ completeness_suite ∷ []) 0 0 []

-- the exit status of scripts/validate_bronze.py
unfoldable pub validate_status : Verdict → ℕ
validate_status v = if v.passed then 0 else 1
