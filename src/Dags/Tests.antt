-- ===== src/Dags/Tests.antt =====
-- Examples of the theorems about the gaps and the tasks of the DAGs.
use gridlens.Prelude.{
  ℕ, zero, suc, ◌+◌, ◌≤◌, ◌≡◌, refl, ap, String, Option, none, some, [], ◌∷◌, map, length, ok, err,
  All, arith, leb,
}
use gridlens.Prelude.Int.{pos}
use gridlens.Exceptions.{value_error}
use gridlens.Timeaxis.{Zone, hour_us}
use gridlens.Timeaxis.Duration.{codes}
use gridlens.Contracts.Records.{aware}
use gridlens.Ingest.Sample.{readers}
use gridlens.Ingest.Parse.{range}
use gridlens.Lake.Query.{Execution}
use gridlens.Lake.Query.Polling.{FirstTerminal}
use gridlens.Lake.Bronze.{Row}
use gridlens.Lake.Backfill.{Services, check_range}
use gridlens.Lake.Gaps.{missing_days}
use gridlens.Lake.Gaps.Exact.{WithinDay, days_without_rows}
use gridlens.Handlers.{window}
use gridlens.Scripts.TableStats.{codes_leb}
use gridlens.Dags.{gap_window, find_gaps, BackfillPayload, backfill_payload, payload_event}
use gridlens.Dags.Refetch.{missing_days-refetched}

-- Dates printed as tallies, which stand in the order of the dates.
tally : ℕ → String
tally zero = String.[]
tally (suc d) = String.◌∷◌ "i" (tally d)

abbrev read_tally : String → Option ℕ
read_tally s = some (length (codes s))

length-tally : (d : ℕ) → length (codes (tally d)) ≡ d
unfolding tally
length-tally zero = refl
length-tally (suc d) = ap suc (length-tally d)

tally-read : (d : ℕ) → read_tally (tally d) ≡ some d
tally-read d = ap some (length-tally d)

tally-ordered : (a b : ℕ) → codes_leb (codes (tally a)) (codes (tally b)) ≡ leb a b
unfolding tally
tally-ordered zero zero = refl
tally-ordered zero (suc b) = ground arith
tally-ordered (suc a) zero = ground arith
tally-ordered (suc a) (suc b) = let h = tally-ordered a b in ground (arith, h)

abbrev winter : Zone
winter = record { utcoffset = λ r fold. pos hour_us; fromutc = λ t. t + hour_us }

winter-WithinDay : WithinDay winter
winter-WithinDay t = (omega arith, omega arith)

abbrev done : ℕ → Execution
done n = record { state = "SUCCEEDED"; reason = none; scanned = some 1; millis = none }

done-FirstTerminal : FirstTerminal done 0 0
done-FirstTerminal = record {
  after = omega arith;
  terminal = refl;
  earlier = λ m a b. absurd (omega (arith, b));
}

-- A row of the last half hour of day 4 in UTC, which is of day 5 in the zone.
abbrev late_row : Row
late_row = record {
  source = "entsoe";
  source_document_id = none;
  zone = "10YFR-RTE------C";
  production_type = "B14";
  direction = "generation";
  unit = "MW";
  resolution_minutes = 30;
  valid_time = 430200000000;
  known_at = 500000000000;
  source_updated_at = none;
  quantity = pos 1000;
}

found :
    days_without_rows winter (gap_window 8).0 (gap_window 8).1 (late_row ∷ [])
    ≡ 1 ∷ 2 ∷ 3 ∷ 4 ∷ 6 ∷ 7 ∷ []
unfolding gap_window range
found = refl

abbrev no_services : Services ℕ
no_services = record {
  fetch = λ a b w. (err (value_error "not asked here"), w);
  write = λ rs w. (err (value_error "not asked here"), w);
  merge = λ b s e w. (err (value_error "not asked here"), w);
}

missing_days-refetched_example :
    (find_gaps read_tally tally done
        (("missing_day" ∷ [])
          ∷ map
              (λ d. tally d ∷ [])
              (missing_days winter (gap_window 8).0 (gap_window 8).1 (late_row ∷ [])))
        1
        8
      ≡ some (ok (map tally (1 ∷ 2 ∷ 3 ∷ 4 ∷ 6 ∷ 7 ∷ []))))
    × (payload : BackfillPayload) × (start : ℕ) × (end : ℕ) × (backfill_payload tally 9000000
          (map tally (1 ∷ 2 ∷ 3 ∷ 4 ∷ 6 ∷ 7 ∷ []))
        ≡ ok payload)
    × (window read_tally (λ s. none) (payload_event payload) 700000000000 winter ≡ ok (start, end))
    × (check_range readers no_services winter (aware 700000000000 (pos 0)) start end ≡ ok tt)
    × ((gap_window 8).0 ≤ start)
    × (end ≤ (gap_window 8).1)
    × All (λ d. (start ≤ d) × (d ≤ end)) (1 ∷ 2 ∷ 3 ∷ 4 ∷ 6 ∷ 7 ∷ [])
missing_days-refetched_example =
    missing_days-refetched readers no_services read_tally (λ s. none) tally tally winter
      (late_row ∷ []) done ("missing_day" ∷ []) 1 0 9000000 8 700000000000 1
      (2 ∷ 3 ∷ 4 ∷ 6 ∷ 7 ∷ []) tally-read tally-ordered winter-WithinDay done-FirstTerminal refl
      (omega arith) found
