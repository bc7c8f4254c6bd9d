-- ===== src/Quality/Bronze/Suites/Tests.antt =====
-- The frame of a completeness check.
use gridlens.Prelude.{
  ℕ, ◌+◌, true, length, Result, ◌≡◌, refl, String, Option, none, some, List, [], ◌∷◌, ok, str_eq,
  if◌then◌else◌,
}
use gridlens.Prelude.Int.{pos}
use gridlens.Timeaxis.{Zone, settlement_day, assert_unambiguous, period_count}
use gridlens.Exceptions.{Exception}
use gridlens.Quality.Bronze.{
  Frame, expected_periods, Expectation, not_null, Checked, Verdict, failures_of, run_suites, run,
}
use gridlens.Quality.Bronze.Passing.{AllHeld, run_bronze-passed}
use gridlens.Quality.Bronze.Suites.{
  text, number, numeric, numeric_rows, numeric_row, numeric_cell, text_at, with_expected,
  completeness_frame, Checkable, validate_invariants, validate_completeness, run_bronze,
}

abbrev utc_zone : Zone
utc_zone = record { utcoffset = λ r fold. pos 0; fromutc = λ u. u }

abbrev one_day : Frame
one_day = record {
  columns =
      some "settlement_day"
      ∷ some "periods"
      ∷ some "series"
      ∷ some "densest_series"
      ∷ some "max_mw"
      ∷ [];
  rows = (some "0001-01-11" ∷ some "96" ∷ some "96" ∷ none ∷ some "96" ∷ []) ∷ [];
}

expected_added :
    completeness_frame
      (λ s. some 10)
      utc_zone
      (λ s. if str_eq s "96" then some 96 else none)
      one_day
    ≡ ok (record {
      names =
          some "settlement_day"
          ∷ some "periods"
          ∷ some "series"
          ∷ some "densest_series"
          ∷ some "max_mw"
          ∷ some "expected_periods"
          ∷ [];
      cells =
          (text (some "0001-01-11")
            ∷ number (some 96)
            ∷ number (some 96)
            ∷ number none
            ∷ number (some 96)
            ∷ number (some 96)
            ∷ [])
          ∷ [];
    })
unfolding completeness_frame numeric numeric_rows numeric_row numeric_cell text_at with_expected
    expected_periods settlement_day assert_unambiguous period_count
expected_added = refl

-- A validation that finds nothing wrong, of a row of zeros and of a full day.
abbrev all_held : String → Checkable → List Expectation → List Checked
all_held name frame expectations =
    record { expectation = not_null "zone"; success = true; observed = "[]" } ∷ []

abbrev zeros : Frame
zeros = record {
  columns =
      some "duplicate_keys"
      ∷ some "future_periods"
      ∷ some "known_before_it_happened"
      ∷ some "negative_quantities"
      ∷ some "hours_since_last_learned"
      ∷ [];
  rows = [];
}

abbrev nothing_yet : Frame
nothing_yet = record {
  columns =
      some "settlement_day"
      ∷ some "periods"
      ∷ some "series"
      ∷ some "densest_series"
      ∷ some "max_mw"
      ∷ [];
  rows = [];
}

abbrev good : Verdict
good = record { expectations = 2; failed = []; passed = true; scanned_bytes = 30 }

passes :
    run_bronze all_held
      (λ s. some 0)
      (λ s. none)
      utc_zone
      (some (ok (zeros, 10)))
      (some (ok (nothing_yet, 20)))
    ≡ some (ok good)
unfolding run_bronze run run_suites failures_of validate_invariants validate_completeness
    completeness_frame numeric numeric_rows with_expected
passes = refl

run_bronze-passed_example :
    (f : Frame) × (g : Frame) × (m : ℕ) × (n : ℕ) × (r : List Checked) × (s : List Checked) × (◌≡◌
      {A = Option (Result Exception (Frame × ℕ))}
      (some (ok (zeros, 10)))
      (some (ok (f, m))))
    × (◌≡◌ {A = Option (Result Exception (Frame × ℕ))}
        (some (ok (nothing_yet, 20)))
        (some (ok (g, n))))
    × (validate_invariants all_held (λ s. some 0) (λ s. none) utc_zone f ≡ ok r)
    × (validate_completeness all_held (λ s. some 0) (λ s. none) utc_zone g ≡ ok s)
    × AllHeld r
    × AllHeld s
    × (good.expectations ≡ length r + length s)
    × (good.scanned_bytes ≡ m + n)
run_bronze-passed_example =
    run_bronze-passed all_held (λ s. some 0) (λ s. none) utc_zone (some (ok (zeros, 10)))
      (some (ok (nothing_yet, 20))) good passes refl
