-- ===== src/Quality/Restatement/Window.antt =====
-- src/gridlens/quality/restatement.py: the window of the audit, the schema it builds into and the dbt
-- command. The calendar, the texts of dates and times and the subprocess are parameters.
use gridlens.Prelude.{
  ℕ, ◌-◌, String, ◌<>◌, Option, none, some, List, [], ◌∷◌, ◌++◌, Result, ok, err, ◌>>=◌, str_eq,
  if◌then◌else◌,
}
use gridlens.Prelude.Int.{ℤ, pos, eqb_ℤ}
use gridlens.Exceptions.{Exception, audit_failed}
use gridlens.Timeaxis.{Zone, settlement_day}
use gridlens.Quality.Restatement.{ProductionRun}

pub record Window : Type 0 where
  pub first_day : ℕ
  pub last_day : ℕ
  pub start : ℕ
  pub end : ℕ

-- `Window.valid_time_predicate`; `sql_timestamp` is a parameter.
unfoldable pub valid_time_predicate : (ℕ → String) → Window → String
valid_time_predicate sql_timestamp w =
    "valid_time >= TIMESTAMP '"
    <> sql_timestamp w.start
    <> "' AND valid_time < TIMESTAMP '"
    <> sql_timestamp w.end
    <> "'"

-- `Window.settlement_day_predicate`
unfoldable pub settlement_day_predicate : (ℕ → String) → Window → String
settlement_day_predicate isoformat w =
    "settlement_day BETWEEN DATE '"
    <> isoformat w.first_day
    <> "' AND DATE '"
    <> isoformat w.last_day
    <> "'"

-- `last_month`; `day.replace(day=1)` goes back by the day of the month less one.
unfoldable pub last_month : (ℕ → ℕ) → Zone → ℕ → Result Exception Window
last_month day_of_month paris today = do
  let last_day = today - (day_of_month today - 1) - 1
  let first_day = last_day - (day_of_month last_day - 1)
  first ← settlement_day first_day paris
  last ← settlement_day last_day paris
  ok (record { first_day = first_day; last_day = last_day; start = first.0; end = last.1 })

-- `schema_for`; the text of a date as `%Y%m%d` is a parameter.
abbrev pub audit_prefix : String
audit_prefix = "gridlens_audit_"

unfoldable pub schema_for : (ℕ → String) → ℕ → String
schema_for compact run_day = audit_prefix <> compact run_day

-- the variables of `restate`, and the command with them as JSON
unfoldable pub variables : (ℕ → String) → Window → ProductionRun → List (String × String)
variables sql_timestamp w run =
    ("restate_as_of", sql_timestamp run.learned_up_to)
    ∷ ("restate_from", sql_timestamp w.start)
    ∷ ("restate_to", sql_timestamp w.end)
    ∷ []

unfoldable pub dbt_command : String → String → String → Option String → List String
dbt_command dbt project_dir vars artifacts_dir =
    (dbt ∷ "run" ∷ "--project-dir" ∷ project_dir ∷ "--profiles-dir" ∷ project_dir ∷ "--target"
      ∷ "audit" ∷ "--exclude" ∷ "run_manifest" ∷ "--vars" ∷ vars ∷ [])
    ++ (elim artifacts_dir [
      | none ↦ []
      | some dir ↦
          if str_eq dir ""
          then []
          else "--target-path" ∷ (dir <> "/target") ∷ "--log-path" ∷ (dir <> "/logs") ∷ []
    ])

pub record Completed : Type 0 where
  pub returncode : ℤ
  pub stdout : String
  pub stderr : String

-- `restate`, from what the runner completes with for the command and the schema
unfoldable pub restate :
    (ℕ → String)
    → (List (String × String) → String)
    → (List String → String → Completed)
    → String
    → String
    → String
    → Window
    → ProductionRun
    → Option String
    → Result Exception String
restate sql_timestamp json_dumps runner dbt project_dir schema w run artifacts_dir =
    let result =
      runner
        (dbt_command dbt project_dir (json_dumps (variables sql_timestamp w run)) artifacts_dir)
        schema in
    if eqb_ℤ result.returncode (pos 0)
    then ok (result.stdout <> result.stderr)
    else err (audit_failed "dbt exited with an error")
