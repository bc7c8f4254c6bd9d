-- ===== src/Dags/Audit/Tests.antt =====
-- Examples of the theorems about a run of the audit.
use gridlens.Prelude.{
  ℕ, ◌<>◌, ◌≡◌, ◌≢◌, ◌⊎◌, refl, String, Bool, true, false, some, List, [], ◌∷◌, ok, err, leb, ◌&&◌,
  ◌||◌, eq_iff,
}
use gridlens.Prelude.Int.{pos}
use gridlens.Exceptions.{audit_failed}
use gridlens.Timeaxis.{Zone, settlement_day, assert_unambiguous}
use gridlens.Quality.Restatement.{Counts, ProductionRun, differences}
use gridlens.Quality.Restatement.Window.{Window, last_month, schema_for}
use gridlens.Scripts.Teardown.{check_schema}
use gridlens.Dags.{Planned, plan, inputs, compare_task}
use gridlens.Dags.Audit.{
  Answers, Texts, all_done, done_calls, teardown_calls, after, after_both, calls_of, restate_calls,
  built_into, schema_dropped, plan_task, task_inputs, check_clocks_task, restate_task,
  compare_tables_task, teardown_task, audit, is_green,
}
use gridlens.Dags.Audit.Verdict.{audit_cleans, audit_green}

abbrev utc_zone : Zone
utc_zone = record { utcoffset = λ r fold. pos 0; fromutc = λ u. u }

-- A month of two days.
abbrev texts : Texts
texts = record {
  compact = λ d. "20261002";
  number_text = λ n. "7";
  isoformat = λ t. "2026-10-01T05:00:00+00:00";
  read_int = λ s. some 7;
  read_moment = λ s. some 63926000000000;
  day_of_month = λ d. 2;
}

abbrev same_counts : Counts
same_counts = record { left = 7; right = 7; only_left = 0; only_right = 0 }

abbrev answers : Answers
answers = record {
  production_run =
      ok (record { git_sha = "c0ffee"; snapshot_id = 7; learned_up_to = 63926000000000 });
  check_clocks = λ w r. ok same_counts;
  restate = λ schema w r. ok "done";
  compare = λ schema w. ok (("daily_generation_mix", same_counts) ∷ []);
  account = ok "123456789012";
  run_teardown = λ schema data_prefix. ok tt;
}

abbrev ascii_alnum : ℕ → Bool
ascii_alnum c = (leb b'a' c && leb c b'z') || (leb b'0' c && leb c b'9')

dated : ◌≢◌ {A = String} "20261002" ""
dated e = let y = (eq_iff "20261002" "").1 e in cc y

abbrev audit_data : String
audit_data = "s3://gridlens-lake-123456789012/audit/"

audit_cleans_example :
    (check_schema ascii_alnum (schema_for (λ d. "20261002") 739891) ≡ ok tt)
    × (((audit texts answers utc_zone 739891).calls
          ≡ schema_dropped (schema_for (λ d. "20261002") 739891) audit_data ∷ [])
        ⊎ ((audit texts answers utc_zone 739891).calls
            ≡ built_into (schema_for (λ d. "20261002") 739891)
              ∷ schema_dropped (schema_for (λ d. "20261002") 739891) audit_data
              ∷ []))
audit_cleans_example =
    audit_cleans ascii_alnum texts answers utc_zone 739891 "123456789012" refl dated refl refl

all_well : is_green (audit texts answers utc_zone 739891) ≡ true
unfolding is_green audit all_done after after_both plan_task plan last_month settlement_day
    assert_unambiguous inputs check_clocks_task restate_task compare_tables_task compare_task
    differences teardown_task
all_well = refl

audit_green_example :
    (planned : Planned) × (window : Window) × (run : ProductionRun) × (counts : Counts)
    × (output : String) × (results : List (String × Counts)) × (plan_task texts answers utc_zone
          739891
        ≡ ok planned)
    × (task_inputs texts answers utc_zone 739891 planned ≡ ok (window, run))
    × (answers.check_clocks window run ≡ ok counts)
    × (answers.restate planned.schema window run ≡ ok output)
    × (answers.compare planned.schema window ≡ ok results)
    × (differences results ≡ [])
    × (account : String) × (answers.account ≡ ok account)
    × (answers.run_teardown
          (schema_for (λ d. "20261002") 739891)
          ("s3://gridlens-lake-" <> account <> "/audit/")
        ≡ ok tt)
audit_green_example = audit_green texts answers utc_zone 739891 all_well

-- dbt fails: the schema is dropped all the same, and the run is not green.
abbrev dbt_fails : Answers
dbt_fails = record answers { restate = λ schema w r. err (audit_failed "dbt exited with an error") }

dropped_anyway :
    (audit texts dbt_fails utc_zone 739891).calls
    ≡ built_into "gridlens_audit_20261002"
      ∷ schema_dropped "gridlens_audit_20261002" audit_data
      ∷ []
unfolding audit all_done done_calls teardown_calls after after_both calls_of restate_calls plan_task
    plan last_month settlement_day assert_unambiguous inputs check_clocks_task restate_task
    schema_for
dropped_anyway = refl

not_green : is_green (audit texts dbt_fails utc_zone 739891) ≡ false
unfolding is_green audit all_done after after_both plan_task plan last_month settlement_day
    assert_unambiguous inputs check_clocks_task restate_task teardown_task
not_green = refl
