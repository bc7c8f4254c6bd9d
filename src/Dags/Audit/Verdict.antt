-- ===== src/Dags/Audit/Verdict.antt =====
-- What a run of the audit promises: it leaves no schema behind, and is green only if all is identical.
use gridlens.Prelude.{
  ℕ, ◌≡◌, not, raise_if, ◌≢◌, ◌⊎◌, refl, sym, ap, ◌∙◌, inl, inr, String, Bool, true, ◌||◌, List, [],
  ◌∷◌, ◌<>◌, all, Result, ok, err, Result-cases, >>=-eq-ok, ok-injective, ◌++◌, ◌==◌,
}
use gridlens.Exceptions.{Exception}
use gridlens.Timeaxis.{Zone}
use gridlens.Timeaxis.Duration.{codes}
use gridlens.Quality.Restatement.{Counts, ProductionRun, differences}
use gridlens.Quality.Restatement.Window.{Window, audit_prefix, schema_for, last_month}
use gridlens.Quality.Restatement.Schema.{check_schema-schema_for}
use gridlens.Scripts.Teardown.{check_schema}
use gridlens.Dags.{Planned, plan, no_tables, compare_task}
use gridlens.Dags.Audit.{
  Answers, Texts, Task, upstream_failed, ran, after, after_both, SchemaCall, built_into,
  schema_dropped, calls_of, all_done, done_calls, teardown_calls, succeeded, plan_task, task_inputs,
  check_clocks_task, restate_task, compare_tables_task, teardown_task, restate_calls, audit,
  is_green,
}

ran-injective : {A : Type 0} {r s : Result Exception A} → ◌≡◌ {A = Task A} (ran r) (ran s) → r ≡ s
ran-injective h = cc

succeeded-ran : {A : Type 0} (t : Task A) → succeeded t ≡ true → (a : A) × (t ≡ ran (ok a))
succeeded-ran upstream_failed h = cc
succeeded-ran (ran (err e)) h = cc
succeeded-ran (ran (ok a)) h = (a, refl)

after-ran :
    {A B : Type 0} (t : Task A) (task : A → Result Exception B) (b : B)
    → after t task ≡ ran (ok b)
    → (a : A) × (t ≡ ran (ok a)) × (task a ≡ ok b)
unfolding after
after-ran upstream_failed task b h = cc
after-ran (ran (err e)) task b h = cc
after-ran (ran (ok a)) task b h = (a, refl, cc (h))

after_both-ran :
    {A B C : Type 0} (s : Task A) (t : Task B) (task : A → B → Result Exception C) (c : C)
    → after_both s t task ≡ ran (ok c)
    → (a : A) × (b : B) × (s ≡ ran (ok a)) × (t ≡ ran (ok b)) × (task a b ≡ ok c)
unfolding after_both
after_both-ran upstream_failed t task c h = cc
after_both-ran (ran (err e)) t task c h = cc
after_both-ran (ran (ok a)) upstream_failed task c h = cc
after_both-ran (ran (ok a)) (ran (err e)) task c h = cc
after_both-ran (ran (ok a)) (ran (ok b)) task c h = (a, b, refl, refl, cc (h))

-- The task was reached, or nothing was called.
calls_of-shape :
    {A B : Type 0} (P : List SchemaCall → Type 0) (s : Task A) (t : Task B)
    (calls : A → B → List SchemaCall)
    → P []
    → ((a : A) (b : B) → t ≡ ran (ok b) → P (calls a b))
    → P (calls_of s t calls)
unfolding calls_of
calls_of-shape P upstream_failed t calls n h = n
calls_of-shape P (ran (err e)) t calls n h = n
calls_of-shape P (ran (ok a)) upstream_failed calls n h = n
calls_of-shape P (ran (ok a)) (ran (err e)) calls n h = n
calls_of-shape P (ran (ok a)) (ran (ok b)) calls n h = h a b refl

module _ (texts : Texts) (answers : Answers) (paris : Zone) (day : ℕ) where
  planned_schema :
      (p : Planned)
      → plan_task texts answers paris day ≡ ok p
      → p.schema ≡ schema_for texts.compact day
  unfolding plan_task plan
  planned_schema p h =
      let (w, a, after_window) = >>=-eq-ok (last_month texts.day_of_month paris day) _ h in
      let (r, b, made) = >>=-eq-ok answers.production_run _ after_window in
      sym (ap Planned.schema (ok-injective made))

  -- Nothing was built, or one schema was.
  abbrev pub BuiltOnly : String → List SchemaCall → Type 0
  BuiltOnly schema calls = (calls ≡ []) ⊎ (calls ≡ built_into schema ∷ [])

  restate_calls-BuiltOnly :
      (p : Planned)
      → plan_task texts answers paris day ≡ ok p
      → BuiltOnly (schema_for texts.compact day) (restate_calls texts answers paris day p)
  unfolding restate_calls
  restate_calls-BuiltOnly p h = elim (Result-cases (task_inputs texts answers paris day p)) [
    | inr (e, a) ↦ inl (rw (a, restate_calls) refl)
    | inl (g, a) ↦ inr (rw (a, planned_schema p h, restate_calls) refl)
  ]

all_done-ran : {A B : Type 0} (t : Task A) (task : Result Exception B) → all_done t task ≡ ran task
unfolding all_done
all_done-ran upstream_failed task = refl
all_done-ran (ran r) task = refl

-- Whatever the other tasks of a run come to, and whatever the teardown script does: where the account
-- can be read, dbt builds into one schema at most, the one of the run's day, and the last thing done to
-- a schema is that the script is asked to drop that one and what lies under the account's audit
-- prefix. Where the text of a date is not empty and of letters and digits, as the prefix of a schema
-- is but for its underscores, it is a schema that the script accepts.
pub audit_cleans :
    (is_alnum : ℕ → Bool) (texts : Texts) (answers : Answers) (paris : Zone) (day : ℕ)
    (account : String)
    → answers.account ≡ ok account
    → texts.compact day ≢ ""
    → all is_alnum (codes (texts.compact day)) ≡ true
    → all (λ c. is_alnum c || c == b'_') (codes audit_prefix) ≡ true
    → let schema = schema_for texts.compact day in
      let drop = schema_dropped schema ("s3://gridlens-lake-" <> account <> "/audit/") in
      (check_schema is_alnum schema ≡ ok tt)
      × (((audit texts answers paris day).calls ≡ drop ∷ [])
          ⊎ ((audit texts answers paris day).calls ≡ built_into schema ∷ drop ∷ []))
unfolding audit teardown_calls done_calls
audit_cleans is_alnum texts answers paris day account known some_text plain lead =
    let schema = schema_for texts.compact day in
    let drop = schema_dropped schema ("s3://gridlens-lake-" <> account <> "/audit/") in
    let run = audit texts answers paris day in
    let calls = calls_of run.checked run.planned (λ c p. restate_calls texts answers paris day p) in
    let built =
      calls_of-shape (BuiltOnly texts answers paris day schema) run.checked run.planned
        (λ c p. restate_calls texts answers paris day p) (inl refl)
        (λ c p e. restate_calls-BuiltOnly texts answers paris day p (ran-injective e)) in
    let all_calls : run.calls ≡ calls ++ drop ∷ [] =
      ap (λ t. calls ++ done_calls t (teardown_calls texts answers paris day))
        (all_done-ran run.compared (teardown_task texts answers paris day))
      ∙ rw (known, teardown_calls) refl in
    (
      check_schema-schema_for is_alnum texts.compact day some_text plain lead,
      elim built [
        | inl none_built ↦ inl (all_calls ∙ ap (λ l. l ++ drop ∷ []) none_built)
        | inr one_built ↦ inr (all_calls ∙ ap (λ l. l ++ drop ∷ []) one_built)
      ],
    )

no_differences :
    (tables : List String) (e : Exception)
    → raise_if (not (no_tables tables)) e ≡ ok tt
    → tables ≡ []
no_differences [] e h = refl
no_differences (t ∷ tables) e h = cc (h)

compare_task-ok :
    (compared : Result Exception (List (String × Counts))) (results : List (String × Counts))
    → compare_task compared ≡ ok results
    → (compared ≡ ok results) × (differences results ≡ [])
unfolding compare_task
compare_task-ok compared results h =
    let (found, e, rest) = >>=-eq-ok compared _ h in
    let (u, passed, same) = >>=-eq-ok _ _ rest in
    let one : found ≡ results = ok-injective same in
    (e ∙ ap ok one, sym (ap differences one) ∙ no_differences (differences found) _ passed)

-- A run is green only where everything went well: the month and the newest manifest were read, the
-- clock check gave counts, dbt succeeded, the comparison of each table was read and no table differs
-- from production, the account was read, and the teardown script dropped the schema.
pub audit_green :
    (texts : Texts) (answers : Answers) (paris : Zone) (day : ℕ)
    → is_green (audit texts answers paris day) ≡ true
    → (planned : Planned) × (window : Window) × (run : ProductionRun) × (counts : Counts)
      × (output : String) × (results : List (String × Counts)) × (plan_task texts answers paris day
          ≡ ok planned)
      × (task_inputs texts answers paris day planned ≡ ok (window, run))
      × (answers.check_clocks window run ≡ ok counts)
      × (answers.restate planned.schema window run ≡ ok output)
      × (answers.compare planned.schema window ≡ ok results)
      × (differences results ≡ [])
      × (account : String) × (answers.account ≡ ok account)
      × (answers.run_teardown
            (schema_for texts.compact day)
            ("s3://gridlens-lake-" <> account <> "/audit/")
          ≡ ok tt)
unfolding is_green audit check_clocks_task restate_task compare_tables_task teardown_task
    compare_task
audit_green texts answers paris day h =
    let run' = audit texts answers paris day in
    let (numbers, judged) = succeeded-ran run'.judged h in
    let (u, results, dropped, compared, same) =
      after_both-ran run'.dropped run'.compared _ numbers judged in
    let (output, p, built, planned, compares) =
      after_both-ran run'.built run'.planned _ results compared in
    let (counts, p', checked, planned', restates) =
      after_both-ran run'.checked run'.planned _ output built in
    let (p'', planned'', checks) = after-ran run'.planned _ counts checked in
    let plan_ok = ran-injective planned in
    let same' : p' ≡ p = ok-injective (sym (ran-injective planned') ∙ plan_ok) in
    let same'' : p'' ≡ p = ok-injective (sym (ran-injective planned'') ∙ plan_ok) in
    let (given, read, clocks) =
      >>=-eq-ok (task_inputs texts answers paris day p) _ (rw same'' at checks) in
    let (given', read', restated) =
      >>=-eq-ok (task_inputs texts answers paris day p) _ (rw same' at restates) in
    let (given'', read'', tables) = >>=-eq-ok (task_inputs texts answers paris day p) _ compares in
    let one : given' ≡ given = ok-injective (sym read' ∙ read) in
    let two : given'' ≡ given = ok-injective (sym read'' ∙ read) in
    let cleaned =
      ran-injective
        (sym (all_done-ran run'.compared (teardown_task texts answers paris day)) ∙ dropped) in
    let (account, known, torn) = >>=-eq-ok answers.account _ cleaned in
    let (found, none_differs) = compare_task-ok _ results (rw two at tables) in
    (
      p,
      given.0,
      given.1,
      counts,
      output,
      results,
      plan_ok,
      read,
      clocks,
      rw one at restated,
      found,
      none_differs,
      account,
      known,
      torn,
    )
