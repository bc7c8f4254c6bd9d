-- ===== src/Lake/Tests.antt =====
-- Examples of the theorems about the lake.
use gridlens.Prelude.{
  ℕ, zero, suc, ◌+◌, ◌-◌, ◌≤◌, arith, ◌≡◌, refl, false, none, some, List, [], ◌∷◌, ◌++◌, any, ok,
  err, All,
}
use gridlens.Prelude.Int.{pos}
use gridlens.Exceptions.{bronze_load_failed, value_error, entsoe_no_data}
use gridlens.Timeaxis.{Zone, settlement_day, assert_unambiguous}
use gridlens.Contracts.Records.{aware, entsoe, generation, megawatt, finite, GenerationRecord}
use gridlens.Contracts.Reference.{BiddingZone, ProductionType}
use gridlens.Ingest.Xml.{Readers}
use gridlens.Lake.Backfill.{
  Services, Summary, days, days_from, check_range, backfill_day, backfill_days, backfill,
}
use gridlens.Lake.Backfill.Window.{backfill_accounts}
use gridlens.Lake.Query.{Execution, wait_for}
use gridlens.Lake.Query.Polling.{FirstTerminal, wait_for-first}
use gridlens.Lake.Bronze.{require_utc, Row, Lake, same_period, same_version, merge, batch_rows}
use gridlens.Lake.Bronze.Restate.{OnePerPeriod, view}
use gridlens.Lake.Bronze.History.{Batch, InOrder, merge_all, restate_all, merge_all-refines}
use gridlens.Lake.Staging.{write}
use gridlens.Lake.Bronze.Bag.{Load, Bag, bag_of, merge_bag, merge_bag_laws}
use gridlens.Lake.Bronze.Merge.{merge_idempotent}
use gridlens.Lake.Bronze.Unique.{Unique, merge-Unique, merge_duplicates}

abbrev row : ℕ → ℕ → ℕ → Row
row valid_time known_at quantity = record {
  source = "entsoe";
  source_document_id = some "m1";
  zone = "10YFR-RTE------C";
  production_type = "B14";
  direction = "generation";
  unit = "MW";
  resolution_minutes = 15;
  valid_time = valid_time;
  known_at = known_at;
  source_updated_at = none;
  quantity = pos quantity;
}

-- A table that holds the first quarter, and a batch that restates it and adds the next.
abbrev held : List Row
held = row 900 1000 40125 ∷ []

abbrev restated : List Row
restated = row 900 2000 40130 ∷ row 1800 2000 39000 ∷ []

merge_idempotent_example :
    merge 900 2700 restated (merge 900 2700 restated held) ≡ merge 900 2700 restated held
merge_idempotent_example =
    merge_idempotent 900 2700 2000 restated held (refl, (refl, tt)) (refl, (refl, tt))

restated-Unique : Unique restated
unfolding same_version same_period
restated-Unique = (refl, (refl, tt))

merge-Unique_example :
    Unique (merge 900 2700 restated held)
    × (added : List Row) × (merge 900 2700 restated held ≡ held ++ added)
merge-Unique_example =
    merge-Unique 900 2700 restated held (refl, tt) restated-Unique (refl, (refl, tt))

-- One identity staged twice, and a row of another period.
abbrev twins : List Row
twins = row 1800 2000 1 ∷ row 2700 2000 3 ∷ row 1800 2000 2 ∷ []

twins_fresh : All (λ s. any (λ t. same_period t s) held ≡ false) twins
unfolding same_period
twins_fresh = (refl, (refl, (refl, tt)))

twins_twice : ¬ Unique twins
unfolding same_version same_period
twins_twice u = ground (arith, u.0)

merge_duplicates_example :
    (merge 900 3600 twins held ≡ held ++ twins) × (¬ Unique (merge 900 3600 twins held))
merge_duplicates_example = merge_duplicates 900 3600 twins held twins_fresh twins_twice

restated-OnePerPeriod : OnePerPeriod restated
unfolding same_period
restated-OnePerPeriod = (refl, (refl, tt))

-- The batch, and one that learns the second quarter anew.
abbrev firings : List Batch
firings =
    (record { known_at = 2000; staged = restated })
    ∷ (record { known_at = 3000; staged = row 1800 3000 39010 ∷ [] })
    ∷ []

firings-InOrder : InOrder 900 2700 1000 firings
unfolding same_period
firings-InOrder = (
  omega arith,
  (((refl, refl), ((refl, refl), tt)), restated-OnePerPeriod),
  (omega arith, (((refl, refl), tt), (refl, tt)), tt),
)

merge_all-refines_example :
    view 900 2700 (merge_all 900 2700 firings held) ≡ restate_all firings (view 900 2700 held)
merge_all-refines_example =
    merge_all-refines 900 2700 1000 firings held (omega arith, tt) firings-InOrder

-- A record, staged.
abbrev record_staged : GenerationRecord
record_staged = record {
  source = entsoe;
  source_document_id = some "m1";
  zone = BiddingZone.fr;
  production_type = ProductionType.nuclear;
  direction = generation;
  unit = megawatt;
  resolution_minutes = 15;
  valid_time = 900;
  known_at = 2000;
  source_updated_at = none;
  quantity_mw = finite false 40125 (pos 0);
}

abbrev before : Lake
before = record { staging = ("b0", row 900 1000 40125) ∷ []; table = held }

abbrev staged : Lake
unfolding write
staged = (write "b1" (ok tt) (record_staged ∷ []) before).1

written : write "b1" (ok tt) (record_staged ∷ []) before ≡ (ok ("b1", 1), staged)
unfolding write
written = refl

new_batch : batch_rows "b1" before.staging ≡ []
unfolding batch_rows
new_batch = refl

-- An engine that runs for one answer and fails.
abbrev running : Execution
running = record { state = "RUNNING"; reason = none; scanned = none; millis = none }

abbrev failed : Execution
failed = record running { state = "FAILED"; reason = some "HIVE_ERROR" }

abbrev fails_at_one : ℕ → Execution
fails_at_one zero = running
fails_at_one (suc n) = failed

fails-FirstTerminal : FirstTerminal fails_at_one 0 1
fails-FirstTerminal = record {
  after = omega arith;
  terminal = refl;
  earlier = elim [ zero ↦ λ a b. refl | suc m ↦ λ a b. absurd (omega (arith, b)) ];
}

wait_for-first_example :
    wait_for fails_at_one 3 bronze_load_failed "no reason given"
    ≡ some (err (bronze_load_failed "HIVE_ERROR"))
wait_for-first_example =
    wait_for-first fails_at_one 3 1 bronze_load_failed "no reason given" fails-FirstTerminal
      (omega arith)

-- A source that has nothing for a day, in a zone that is UTC.
abbrev utc_zone : Zone
utc_zone = record { utcoffset = λ r fold. pos 0; fromutc = λ u. u }

abbrev no_readers : Readers
no_readers = record {
  digit = λ c. none;
  strip = λ s. s;
  read_int = λ s. none;
  read_decimal = λ s. none;
  read_moment = λ s. none;
  fromstring = λ s. err (value_error "not read here");
}

abbrev silent : Services ℕ
silent = record {
  fetch = λ start end w. (err (entsoe_no_data "999" "No matching data found" 200), suc w);
  write = λ records w. (err (value_error "not written here"), w);
  merge = λ batch start end w. (err (value_error "not merged here"), w);
}

abbrev two_empty : Summary
two_empty = record { days_merged = 0; days_empty = 10 ∷ 11 ∷ []; rows = 0; scanned_bytes = 0 }

backfilled :
    backfill no_readers silent utc_zone (aware 950400000000 (pos 0)) 10 11 0 ≡ (ok two_empty, 2)
unfolding backfill check_range require_utc days days_from backfill_days backfill_day settlement_day
    assert_unambiguous
backfilled = refl

backfill_accounts_example : (10 ≤ 11) × (11 - 10 + 1 ≤ 31) × (0 + 2 ≡ 11 - 10 + 1)
backfill_accounts_example =
    backfill_accounts no_readers silent utc_zone (aware 950400000000 (pos 0)) 10 11 two_empty 0 2
      backfilled

-- A table of one row, a load of its period learned later, and one of the next quarter.
abbrev restating : Load
restating = record {
  start = 900;
  end = 1800;
  staged = row 900 2000 40130 ∷ [];
  unique = (refl, tt);
  within = (refl, tt);
}

abbrev following : Load
following = record {
  start = 1800;
  end = 2700;
  staged = row 1800 3000 39000 ∷ [];
  unique = (refl, tt);
  within = (refl, tt);
}

apart_quarters : any (λ t. same_period t (row 1800 3000 39000)) restating.staged ≡ false
unfolding same_period
apart_quarters = refl

abbrev one_row : Bag
one_row = bag_of (row 900 1000 40125 ∷ [], (refl, tt))

merge_bag_laws_example :
    (merge_bag following (merge_bag restating one_row)
      ≡ merge_bag restating (merge_bag following one_row))
    × (merge_bag restating (merge_bag restating one_row) ≡ merge_bag restating one_row)
merge_bag_laws_example =
    merge_bag_laws restating following 2000 one_row (apart_quarters, tt) (refl, tt)
