-- ===== src/Scripts/Tests.antt =====
-- Runs of the scripts, and of what works on texts like them.
use gridlens.Prelude.{
  ◌==◌, false, ℕ, ◌≡◌, ◌⊎◌, refl, String, Bool, true, none, some, List, [], ◌∷◌, Result, ok, All,
}
use gridlens.Timeaxis.Duration.{codes}
use gridlens.Ingest.Redaction.{filter, redact, replace, replace_from}
use gridlens.Stream.Service.{round_half_even}
use gridlens.Scripts.Commit.{
  conventional, behind, scope_matches, scope_end, bang_matches, colon_matches,
}
use gridlens.Scripts.Texts.{before_last, after_last, occurs, ends_with}
use gridlens.Scripts.TableStats.{classify, manifest_lists, table_root}
use gridlens.Ingest.Client.{has_prefix, contains}
use gridlens.Lake.Query.{Execution, wait_for, poll, check_state}
use gridlens.Scripts.Texts.{lstrip, rstrip}
use gridlens.Scripts.Teardown.{
  check_schema, Table, ClientError, relations, drop_statement, drop_relations, Action, ran,
  deleted_database, Location, sweep_prefix, sweep_pages, sweep, Teardown, finish, drop_found,
  teardown,
}
use gridlens.Scripts.Teardown.Confined.{Throwaway, Confined, Listing, teardown-Confined}

abbrev succeeds : String → ℕ → Execution
succeeds sql n = record { state = "SUCCEEDED"; reason = none; scanned = none; millis = none }

-- A store without objects.
abbrev no_objects : String → String → List (List String)
no_objects bucket prefix = [] ∷ []

no_objects-Listing : Listing no_objects
no_objects-Listing bucket prefix = (tt, tt)

abbrev plain : ℕ → Bool
plain c = true

abbrev one_view : List (Result ClientError (List Table))
one_view = ok ((record { name = "v"; table_type = some "VIRTUAL_VIEW" }) ∷ []) ∷ []

abbrev audit_place : Location
audit_place = record { bucket = "lake"; path = "/audit/" }

abbrev audit_log : List Action
audit_log =
    ran "DROP VIEW IF EXISTS \"gridlens_ci_7\".\"v\"" ∷ deleted_database "gridlens_ci_7" ∷ []

abbrev torn_down : Teardown
torn_down = record { existed = true; dropped = "v" ∷ []; objects_swept = 0 }

one_view-torn_down :
    teardown plain succeeds 1 no_objects one_view (some audit_place) "gridlens_ci_7"
    ≡ some (ok torn_down, audit_log)
unfolding teardown check_schema has_prefix relations drop_found drop_relations drop_statement
    wait_for poll check_state finish sweep sweep_prefix sweep_pages lstrip rstrip
one_view-torn_down = refl

teardown-Confined_example :
    (audit_log ≡ [])
    ⊎ (Throwaway plain "gridlens_ci_7"
        × All (Confined (some audit_place) "gridlens_ci_7") audit_log)
teardown-Confined_example =
    teardown-Confined plain succeeds 1 no_objects no_objects-Listing one_view (some audit_place)
      "gridlens_ci_7" audit_log (ok torn_down) one_view-torn_down

abbrev three_objects : List (String × ℕ)
three_objects =
    ("t/metadata/snap-1.avro", 10) ∷ ("t/metadata/m1.avro", 20) ∷ ("t/metadata/m2.avro", 30) ∷ []

-- Runs on short texts.
conventional_scope : conventional (λ c. c == b' ') (codes "fix(lake)!: keep rows") ≡ true
unfolding conventional behind scope_matches scope_end bang_matches colon_matches
conventional_scope = refl

conventional_unknown : conventional (λ c. c == b' ') (codes "update: keep rows") ≡ false
unfolding conventional behind
conventional_unknown = refl

classified : classify "t/metadata/snap-1.avro" ≡ manifest_lists
unfolding classify after_last occurs ends_with has_prefix
classified = refl

root_of_table : table_root "s3://b/t/metadata/v1.metadata.json" ≡ "s3://b/t/"
unfolding table_root before_last has_prefix
root_of_table = refl

half_even : round_half_even 25 10 ≡ 2
unfolding round_half_even
half_even = refl

redacted : filter ("tok" ∷ []) "GET ?t=tok&d=tok1" ≡ "GET ?t=<redacted>&d=<redacted>1"
unfolding filter redact replace replace_from contains has_prefix
redacted = refl
