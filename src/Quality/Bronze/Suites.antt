-- ===== src/Quality/Bronze/Suites.antt =====
-- `_numeric`, `invariants` and `completeness` of src/gridlens/quality/bronze.py: the frames that
-- great_expectations is given. What it makes of a frame and a suite is a parameter, and so is
-- `pandas.to_numeric` of a text.
mod Tests
use gridlens.Prelude.{
  ℕ, String, Bool, true, false, not, Option, none, some, List, [], ◌∷◌, ◌++◌, Result, ok, err,
  ◌>>=◌, ◌>>◌, raise_if, or_raise, any, all, str_eq, if◌then◌else◌,
}
use gridlens.Exceptions.{Exception, key_error, value_error}
use gridlens.Timeaxis.{Zone}
use gridlens.Quality.Bronze.{
  Frame, Expectation, invariants, completeness, expected_periods, Checked, Suite, Verdict, run,
}

-- A cell as it came, or as a number; a missing value has no number.
pub data Cell : Type 0 where
  text : Option String → Cell
  number : Option ℕ → Cell

-- A frame whose columns may be numeric: its columns' names, and its rows.
pub record Checkable : Type 0 where
  pub names : List (Option String)
  pub cells : List (List Cell)

abbrev pub is_named : String → Option String → Bool
is_named name none = false
is_named name (some column) = str_eq column name

abbrev pub counts : List String
counts =
    "duplicate_keys" ∷ "future_periods" ∷ "known_before_it_happened" ∷ "negative_quantities"
    ∷ "hours_since_last_learned" ∷ []

abbrev pub measures : List String
measures = "periods" ∷ "series" ∷ "densest_series" ∷ "max_mw" ∷ []

module _ (to_number : String → Option ℕ) where
  -- `pd.to_numeric` of a cell
  unfoldable pub numeric_cell : Option String → Result Exception Cell
  numeric_cell none = ok (number none)
  numeric_cell (some s) = do
    n ← or_raise (to_number s) (value_error "unable to parse string")
    ok (number (some n))

  -- a row, with the listed columns made numeric
  unfoldable pub numeric_row :
      List String → List (Option String) → List (Option String) → Result Exception (List Cell)
  numeric_row columns [] values = ok []
  numeric_row columns (h ∷ header) [] = ok []
  numeric_row columns (h ∷ header) (v ∷ values) = do
    cell ← (if any (λ c. is_named c h) columns then numeric_cell v else ok (text v))
    later ← numeric_row columns header values
    ok (cell ∷ later)

  unfoldable pub numeric_rows :
      List String
      → List (Option String)
      → List (List (Option String))
      → Result Exception (List (List Cell))
  numeric_rows columns header [] = ok []
  numeric_rows columns header (values ∷ rest) = do
    row ← numeric_row columns header values
    later ← numeric_rows columns header rest
    ok (row ∷ later)

  -- `_numeric`; a column that the frame does not have raises.
  unfoldable pub numeric : Frame → List String → Result Exception Checkable
  numeric frame columns = do
    raise_if (not (all (λ c. any (is_named c) frame.columns) columns)) (key_error "column")
    cells ← numeric_rows columns frame.columns frame.rows
    ok (record { names = frame.columns; cells = cells })

-- the cell of a column, as a text
unfoldable pub text_at : String → List (Option String) → List Cell → Result Exception String
text_at name [] cells = err (key_error name)
text_at name (h ∷ header) [] = err (key_error name)
text_at name (h ∷ header) (c ∷ cells) =
    let later = text_at name header cells in
    if is_named name h
    then (elim c [
      | text (some s) ↦ ok s
      | text none ↦ err (value_error "fromisoformat: argument must be str")
      | number n ↦ err (value_error "fromisoformat: argument must be str")
    ])
    else later

module _ (read_date : String → Option ℕ) (paris : Zone) where
  -- the column `expected_periods`, behind the others
  unfoldable pub with_expected :
      List (Option String) → List (List Cell) → Result Exception (List (List Cell))
  with_expected header [] = ok []
  with_expected header (row ∷ rest) = do
    day ← text_at "settlement_day" header row
    expected ← expected_periods read_date paris day
    later ← with_expected header rest
    ok ((row ++ number (some expected) ∷ []) ∷ later)

  -- the frame that `completeness` validates
  unfoldable pub completeness_frame : (String → Option ℕ) → Frame → Result Exception Checkable
  completeness_frame to_number frame = do
    checked ← numeric to_number frame measures
    cells ← with_expected checked.names checked.cells
    ok (record { names = checked.names ++ some "expected_periods" ∷ []; cells = cells })

module _ (validate : String → Checkable → List Expectation → List Checked)
    (to_number : String → Option ℕ) (read_date : String → Option ℕ) (paris : Zone) where
  unfoldable pub validate_invariants : Frame → Result Exception (List Checked)
  validate_invariants frame = do
    checked ← numeric to_number frame counts
    ok (validate "bronze-invariants" checked invariants)

  unfoldable pub validate_completeness : Frame → Result Exception (List Checked)
  validate_completeness frame = do
    checked ← completeness_frame read_date paris to_number frame
    ok (validate "bronze-completeness" checked completeness)

  -- `run`, from how its two queries are answered
  unfoldable pub run_bronze :
      Option (Result Exception (Frame × ℕ))
      → Option (Result Exception (Frame × ℕ))
      → Option (Result Exception Verdict)
  run_bronze first second =
      run (record { name = "invariants"; fetched = first; validate_frame = validate_invariants })
        (record { name = "completeness"; fetched = second; validate_frame = validate_completeness })
