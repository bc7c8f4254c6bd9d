-- ===== src/Lake/Gaps.antt =====
-- src/gridlens/lake/gaps.py: the settlement days that the bronze table has no rows for.
pub mod Exact
use gridlens.Prelude.{
  ℕ, String, Bool, Option, none, some, List, [], ◌∷◌, Result, ok, err, ◌>>=◌, raise_if, or_raise,
  ltb, not, ◌&&◌, any, keep, ◌==◌, ◌+◌, ◌-◌,
}
use gridlens.Exceptions.{Exception, value_error, index_error, gap_query_failed}
use gridlens.Timeaxis.{Zone, midnight, local_date}
use gridlens.Ingest.Parse.{range}
use gridlens.Lake.Query.{Execution, wait_for}
use gridlens.Lake.Bronze.{Row, in_window}

-- The days that MISSING_DAYS selects from a table: `present` reads the rows between the literal
-- bounds only.
unfoldable pub missing_days : Zone → ℕ → ℕ → List Row → List ℕ
missing_days paris start end table = keep (λ d. not (present d)) (range start (end + 1 - start))
  where
    present : ℕ → Bool
    present d =
        any
          (λ r.
            in_window (midnight (start - 1)) (midnight (end + 2)) r
            && local_date paris r.valid_time == d)
          table

-- `_rows`, from the execution's answers and the rows of its result, the header's included; a missing
-- cell is the empty text. `none` means that the fuel ran out before a terminal answer.
unfoldable pub gap_rows :
    (ℕ → Execution) → List (List String) → ℕ → Option (Result Exception (List (List String)))
gap_rows answers result fuel = elim (wait_for answers fuel gap_query_failed "no reason") [
  | none ↦ none
  | some (err e) ↦ some (err e)
  | some (ok done) ↦ elim result [ [] ↦ some (ok []) | header ∷ rest ↦ some (ok rest) ]
]

-- the dates in the first cells; `date.fromisoformat` is a parameter
unfoldable pub read_dates : (String → Option ℕ) → List (List String) → Result Exception (List ℕ)
read_dates read_date [] = ok []
read_dates read_date ([] ∷ rest) = err index_error
read_dates read_date ((cell ∷ cells) ∷ rest) = do
  d ← or_raise (read_date cell) (value_error "invalid isoformat string")
  later ← read_dates read_date rest
  ok (d ∷ later)

unfoldable pub missing_settlement_days :
    (String → Option ℕ)
    → (ℕ → Execution)
    → List (List String)
    → ℕ
    → ℕ
    → ℕ
    → Option (Result Exception (List ℕ))
missing_settlement_days read_date answers result fuel start end =
    elim (raise_if (ltb end start) (value_error "end is before start")) [
      | err e ↦ some (err e)
      | ok _ ↦ elim (gap_rows answers result fuel) [
        | none ↦ none
        | some rows ↦ some (do found ← rows; read_dates read_date found)
      ]
    ]
