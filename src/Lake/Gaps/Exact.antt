-- ===== src/Lake/Gaps/Exact.antt =====
-- The literal bounds of the query lose no row, and `missing_settlement_days` returns what it selects.
use gridlens.Prelude.{
  ℕ, zero, suc, ◌+◌, ◌-◌, ◌≤◌, ◌<◌, ◌≡◌, refl, ap, String, Bool, false, not, ◌&&◌, Option, some,
  List, [], ◌∷◌, map, ok, raise_if, any, any_congr, keep, keep_congr, All, All_always, All-map,
  arith, ltb, ◌==◌,
}
use gridlens.Exceptions.{Exception, value_error, gap_query_failed}
use gridlens.Timeaxis.{Zone, midnight, local_date, day_us}
use gridlens.Ingest.Parse.{range}
use gridlens.Lake.Query.{Execution}
use gridlens.Lake.Query.Polling.{FirstTerminal, wait_for-first}
use gridlens.Lake.Bronze.{Row, in_window}
use gridlens.Lake.Gaps.{missing_days, gap_rows, read_dates, missing_settlement_days}

-- A zone's reading is less than a day from the instant.
abbrev pub WithinDay : Zone → Type 0
WithinDay zone = (t : ℕ) → (zone.fromutc t < t + day_us) × (t < zone.fromutc t + day_us)

-- The days of a window without a row in the whole table.
abbrev pub days_without_rows : Zone → ℕ → ℕ → List Row → List ℕ
days_without_rows zone start end table =
    keep (λ d. not (any (λ r. local_date zone r.valid_time == d) table))
      (range start (end + 1 - start))

row_in_bounds :
    (zone : Zone) (start end d : ℕ) (r : Row)
    → WithinDay zone
    → start ≤ d
    → d ≤ end
    → (in_window (midnight (start - 1)) (midnight (end + 2)) r && local_date zone r.valid_time == d)
      ≡ (local_date zone r.valid_time == d)
row_in_bounds zone start end d r near a b = ground (arith, near r.valid_time)

-- The days of a window lie in it.
pub range-Between : (first n : ℕ) → All (λ d. (first ≤ d) × (d < first + n)) (range first n)
unfolding range
range-Between first zero = tt
range-Between first (suc n) = (
  (omega arith, omega arith),
  All-map _ _ (range (suc first) n) (λ d h. (omega (arith, h.0), omega (arith, h.1)))
      (range-Between (suc first) n),
)

missing_days-without_rows :
    (zone : Zone) (start end : ℕ) (table : List Row)
    → WithinDay zone
    → missing_days zone start end table ≡ days_without_rows zone start end table
unfolding missing_days
missing_days-without_rows zone start end table near =
    keep_congr _ _ (range start (end + 1 - start)) (
      All-map _ _ (range start (end + 1 - start))
        (λ d h. ap not (
          any_congr _ _ table (
            All_always _ table
              (λ r. row_in_bounds zone start end d r near h.0 (omega (arith, h.0, h.1))))))
        (range-Between start (end + 1 - start)))

read_dates-map :
    (read_date : String → Option ℕ) (print : ℕ → String) (days : List ℕ)
    → ((d : ℕ) → read_date (print d) ≡ some d)
    → read_dates read_date (map (λ d. print d ∷ []) days) ≡ ok days
unfolding read_dates
read_dates-map read_date print [] h = refl
read_dates-map read_date print (d ∷ days) h = rw (h d, read_dates-map read_date print days h) refl

raise_if_not : (b : Bool) (e : Exception) → b ≡ false → raise_if b e ≡ ok tt
raise_if_not b e h = ground arith

gap_rows_result :
    (answers : ℕ → Execution) (header : List String) (rest : List (List String)) (fuel n : ℕ)
    → FirstTerminal answers 0 n
    → (answers n).state ≡ "SUCCEEDED"
    → n < fuel
    → gap_rows answers (header ∷ rest) fuel ≡ some (ok rest)
unfolding gap_rows
gap_rows_result answers header rest fuel n f s h =
    rw (wait_for-first answers fuel n gap_query_failed "no reason" f h, s, gap_rows) refl

-- If the n-th answer of the engine is the first terminal one, the query succeeded and its result is
-- the header and the days that the query selects from the table, printed as dates that read back,
-- then in a zone whose reading is less than a day from the instant `missing_settlement_days` returns
-- exactly the days of the window without a row in the whole table, each once and in order, although
-- the query reads only the rows between its literal bounds.
pub missing_settlement_days-exact :
    (read_date : String → Option ℕ) (print : ℕ → String) (zone : Zone) (table : List Row)
    (answers : ℕ → Execution) (header : List String) (fuel n start end : ℕ)
    → ((d : ℕ) → read_date (print d) ≡ some d)
    → WithinDay zone
    → FirstTerminal answers 0 n
    → (answers n).state ≡ "SUCCEEDED"
    → n < fuel
    → start ≤ end
    → missing_settlement_days read_date answers
        (header ∷ map (λ d. print d ∷ []) (missing_days zone start end table))
        fuel
        start
        end
      ≡ some (ok (days_without_rows zone start end table))
unfolding missing_settlement_days
missing_settlement_days-exact read_date print zone table answers header fuel n start end back near f
      s h le =
    rw
      (
        raise_if_not (ltb end start) (value_error "end is before start") (ground arith),
        gap_rows_result answers header _ fuel n f s h,
        missing_days-without_rows zone start end table near,
        missing_settlement_days,
      )
      (ap some (read_dates-map read_date print (days_without_rows zone start end table) back))
