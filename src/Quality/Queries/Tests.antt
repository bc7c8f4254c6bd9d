-- ===== src/Quality/Queries/Tests.antt =====
-- Examples of the theorems about the queries.
use gridlens.Prelude.{
  ◌*◌, ◌+◌, ◌≤◌, ◌≡◌, ◌↔◌, refl, inl, inr, true, false, ◌&&◌, none, some, List, [], ◌∷◌, map, any,
  All, ok, ◌==◌, arith,
}
use gridlens.Prelude.Int.{pos, negsuc}
use gridlens.Timeaxis.{Zone, assert_unambiguous, settlement_day, period_count}
use gridlens.Contracts.Reference.{zone_value, BiddingZone, ProductionType}
use gridlens.Contracts.Records.{GenerationRecord, entsoe, generation, megawatt, finite}
use gridlens.Contracts.Records.Contract.{IsContract}
use gridlens.Ingest.Parse.{range}
use gridlens.Lake.Bronze.{same_version, same_period, Row, merge}
use gridlens.Lake.Staging.{staged_row}
use gridlens.Quality.Bronze.{quarter_hour, expected_periods}
use gridlens.Quality.Queries.{same_day, day_row, excess, add_copy, keyed, invariants_row}
use gridlens.Quality.Queries.{completeness_rows, periods_of, densest_series, distinct_by}
use gridlens.Quality.Queries.Invariants.{IsZero, merge-invariants_row}
use gridlens.Quality.Queries.Completeness.{day_row-exact}

-- 00:15 of a day, learned the next
abbrev quarter : GenerationRecord
quarter = record {
  source = entsoe;
  source_document_id = some "m1";
  zone = BiddingZone.fr;
  production_type = ProductionType.nuclear;
  direction = generation;
  unit = megawatt;
  resolution_minutes = 15;
  valid_time = 864900000000;
  known_at = 950400000000;
  source_updated_at = none;
  quantity_mw = finite false 40125 (negsuc 0);
}

quarter-IsContract : IsContract quarter
quarter-IsContract = record {
  minutes_positive = omega arith;
  minutes_in_day = omega arith;
  on_boundary = refl;
  realised = omega arith;
  plausible = (inl refl, inr (omega arith), omega arith);
}

abbrev held : List Row
held = staged_row quarter ∷ []

-- The same quarter, learned a day later.
abbrev revised : GenerationRecord
revised = record quarter { known_at = 1036800000000 }

revised-IsContract : IsContract revised
revised-IsContract = record {
  minutes_positive = omega arith;
  minutes_in_day = omega arith;
  on_boundary = refl;
  realised = omega arith;
  plausible = (inl refl, inr (omega arith), omega arith);
}

held-Zero : IsZero (invariants_row 2000000000000 held)
unfolding invariants_row keyed add_copy excess staged_row
held-Zero = (refl, refl, refl, refl)

merge-invariants_row_example : IsZero (
    invariants_row 2000000000000
      (merge 864000000000 950400000000 (map staged_row (revised ∷ [])) held))
unfolding staged_row
merge-invariants_row_example =
    merge-invariants_row 864000000000 950400000000 2000000000000 (revised ∷ []) held
      (revised-IsContract, tt) (omega arith, tt) (refl, tt) (refl, tt) held-Zero

abbrev utc_zone : Zone
utc_zone = record { utcoffset = λ r fold. pos 0; fromutc = λ u. u }

held-Quarters : settlement_day 10 utc_zone ≡ ok (864000000000, 950400000000)
unfolding settlement_day assert_unambiguous
held-Quarters = refl

held-Expected : expected_periods (λ s. some 10) utc_zone "0001-01-11" ≡ ok 96
unfolding expected_periods settlement_day assert_unambiguous period_count
held-Expected = refl

day_row-exact_example :
    ((day_row utc_zone held (staged_row quarter)).densest
      ≤ (day_row utc_zone held (staged_row quarter)).periods)
    × ((day_row utc_zone held (staged_row quarter)).periods ≤ 96)
    × (((day_row utc_zone held (staged_row quarter)).periods ≡ 96)
        ↔ All
            (λ k.
              any
                (λ r.
                  r.valid_time == 864000000000 + k * quarter_hour
                  && same_day utc_zone r (staged_row quarter))
                held
              ≡ true)
            (range 0 96))
unfolding staged_row
day_row-exact_example =
    day_row-exact (λ s. some 10) utc_zone "0001-01-11" held (staged_row quarter) 864000000000
      950400000000 96 refl held-Quarters held-Expected ((omega arith, omega arith, refl), tt)

-- The same row twice is one duplicate; a row of a later day leaves the first day in the answer.
counted_twice :
    invariants_row 2000000000000 (staged_row quarter ∷ staged_row quarter ∷ []) ≡ record {
      duplicate_keys = 1;
      future_periods = 0;
      known_before_it_happened = 0;
      negative_quantities = 0;
      hours_since_last_learned = some (pos 291);
    }
unfolding invariants_row keyed add_copy excess staged_row same_version same_period
counted_twice = refl

abbrev next_day : GenerationRecord
next_day = record revised { valid_time = 950400000000 }

one_day :
    completeness_rows utc_zone (staged_row quarter ∷ staged_row revised ∷ staged_row next_day ∷ [])
    ≡ record {
      zone = zone_value BiddingZone.fr;
      settlement_day = 10;
      periods = 1;
      series = 1;
      densest = 1;
      max_mw = pos 4012500;
    }
      ∷ []
unfolding completeness_rows day_row periods_of densest_series distinct_by staged_row
one_day = refl
