-- ===== src/Dags/Audit.antt =====
-- A run of dags/restatement_audit.py: its tasks in their order, with airflow's trigger rules. A task
-- runs once its upstreams have succeeded, the teardown once they are done. The answers of the engine,
-- of dbt, of STS and of the teardown script are parameters.
pub mod Verdict
mod Tests
use gridlens.Prelude.{
  ℕ, String, Bool, true, false, Option, none, some, List, [], ◌∷◌, ◌++◌, Result, ok, err, ◌>>=◌,
  ◌<>◌,
}
use gridlens.Exceptions.{Exception}
use gridlens.Timeaxis.{Zone}
use gridlens.Quality.Restatement.{Counts, ProductionRun}
use gridlens.Quality.Restatement.Window.{Window, last_month, schema_for}
use gridlens.Dags.{Planned, plan, inputs, compare_task, verdict}

-- What the outside answers the tasks of one run.
pub record Answers : Type 0 where
  pub production_run : Result Exception ProductionRun
  pub check_clocks : Window → ProductionRun → Result Exception Counts
  pub restate : String → Window → ProductionRun → Result Exception String
  pub compare : String → Window → Result Exception (List (String × Counts))
  pub account : Result Exception String
  pub run_teardown : String → String → Result Exception (Unit {0})

-- How the text of numbers, dates and times goes between the tasks.
pub record Texts : Type 0 where
  pub compact : ℕ → String
  pub number_text : ℕ → String
  pub isoformat : ℕ → String
  pub read_int : String → Option ℕ
  pub read_moment : String → Option ℕ
  pub day_of_month : ℕ → ℕ

-- A task that has run, or one that an upstream kept from running.
pub data Task (A : Type 0) : Type 0 where
  upstream_failed : Task A
  ran : Result Exception A → Task A

-- `all_success`
unfoldable pub after : {A B : Type 0} → Task A → (A → Result Exception B) → Task B
after upstream_failed task = upstream_failed
after (ran (err e)) task = upstream_failed
after (ran (ok a)) task = ran (task a)

unfoldable pub after_both :
    {A B C : Type 0} → Task A → Task B → (A → B → Result Exception C) → Task C
after_both (ran (ok a)) (ran (ok b)) task = ran (task a b)
after_both (ran (ok a)) (ran (err e)) task = upstream_failed
after_both (ran (ok a)) upstream_failed task = upstream_failed
after_both (ran (err e)) second task = upstream_failed
after_both upstream_failed second task = upstream_failed

-- `all_done`
unfoldable pub all_done : {A B : Type 0} → Task A → Result Exception B → Task B
all_done upstream_failed task = ran task
all_done (ran r) task = ran task

pub data SchemaCall : Type 0 where
  built_into : String → SchemaCall
  schema_dropped : String → String → SchemaCall

-- what a task of one upstream does, if it runs
unfoldable pub done_calls : {A : Type 0} → Task A → List SchemaCall → List SchemaCall
done_calls upstream_failed calls = []
done_calls (ran r) calls = calls

-- what a task does, if it runs
unfoldable pub calls_of :
    {A B : Type 0} → Task A → Task B → (A → B → List SchemaCall) → List SchemaCall
calls_of (ran (ok a)) (ran (ok b)) calls = calls a b
calls_of (ran (ok a)) (ran (err e)) calls = []
calls_of (ran (ok a)) upstream_failed calls = []
calls_of (ran (err e)) second calls = []
calls_of upstream_failed second calls = []

-- The states of a run's tasks at its end, and what they did to schemas.
pub record AuditRun : Type 0 where
  pub planned : Task Planned
  pub checked : Task Counts
  pub built : Task String
  pub compared : Task (List (String × Counts))
  pub dropped : Task (Unit {0})
  pub judged : Task (ℕ × ℕ)
  pub calls : List SchemaCall

abbrev pub succeeded : {A : Type 0} → Task A → Bool
succeeded upstream_failed = false
succeeded (ran (err e)) = false
succeeded (ran (ok a)) = true

module _ (texts : Texts) (answers : Answers) (paris : Zone) (day : ℕ) where
  unfoldable pub plan_task : Result Exception Planned
  plan_task =
      plan texts.compact texts.number_text texts.isoformat day
        (last_month texts.day_of_month paris day) answers.production_run

  abbrev pub task_inputs : Planned → Result Exception (Window × ProductionRun)
  task_inputs planned = inputs texts.read_int texts.read_moment texts.day_of_month paris day planned

  unfoldable pub check_clocks_task : Planned → Result Exception Counts
  check_clocks_task planned = do given ← task_inputs planned; answers.check_clocks given.0 given.1

  unfoldable pub restate_task : Planned → Result Exception String
  restate_task planned = do
    given ← task_inputs planned
    answers.restate planned.schema given.0 given.1

  unfoldable pub compare_tables_task : Planned → Result Exception (List (String × Counts))
  compare_tables_task planned = do
    given ← task_inputs planned
    compare_task (answers.compare planned.schema given.0)

  unfoldable pub teardown_task : Result Exception (Unit {0})
  teardown_task = do
    account ← answers.account
    answers.run_teardown (schema_for texts.compact day)
        ("s3://gridlens-lake-" <> account <> "/audit/")

  -- What the tasks do to schemas: dbt builds into one, the teardown's script is asked to drop one, and
  -- what is under the data prefix, once the account is known.
  unfoldable pub teardown_calls : List SchemaCall
  teardown_calls = elim answers.account [
    | err e ↦ []
    | ok account ↦
        schema_dropped (schema_for texts.compact day)
          ("s3://gridlens-lake-" <> account <> "/audit/")
        ∷ []
  ]

  unfoldable pub restate_calls : Planned → List SchemaCall
  restate_calls planned = elim (task_inputs planned) [
    | err e ↦ []
    | ok given ↦ built_into planned.schema ∷ []
  ]

  -- A run: `planned >> checked >> built >> compared >> dropped >> verdict`.
  unfoldable pub audit : AuditRun
  audit =
      let planned = ran plan_task in
      let checked = after planned check_clocks_task in
      let built = after_both checked planned (λ c p. restate_task p) in
      let compared = after_both built planned (λ output p. compare_tables_task p) in
      let dropped = all_done compared teardown_task in
      record {
        planned = planned;
        checked = checked;
        built = built;
        compared = compared;
        dropped = dropped;
        judged = after_both dropped compared (λ u results. ok (verdict results));
        calls =
            calls_of checked planned (λ c p. restate_calls p) ++ done_calls dropped teardown_calls;
      }

-- Airflow judges a run by its leaf.
unfoldable pub is_green : AuditRun → Bool
is_green run = succeeded run.judged
