-- ===== src/Quality/Restatement.antt =====
-- src/gridlens/quality/restatement.py: the comparison of a rebuilt table with production, the clock
-- check and the manifest row. The rows of a table are of any type with a test that SQL takes for
-- equality; a query's rows come from the engine, read as texts.
mod Tests
pub mod Compare
pub mod Window
pub mod Manifest
pub mod Schema
use gridlens.Prelude.{
  ℕ, zero, suc, ◌+◌, String, Bool, true, false, not, ◌&&◌, ◌||◌, Option, none, some, List, [], ◌∷◌,
  ◌++◌, map, Result, ok, err, ◌>>=◌, ◌>>◌, raise_if, or_raise, length, any, all, keep, ◌==◌, str_eq,
  if◌then◌else◌,
}
use gridlens.Exceptions.{Exception, value_error, index_error, audit_failed}
use gridlens.Lake.Query.{Execution, wait_for}
use gridlens.Timeaxis.Duration.{codes}

-- `dict(zip(COUNTS, …))`
pub record Counts : Type 0 where
  pub left : ℕ
  pub right : ℕ
  pub only_left : ℕ
  pub only_right : ℕ

-- `_identical`
unfoldable pub identical : Counts → Bool
identical c = c.left == c.right && (c.only_left == 0 && c.only_right == 0)

-- What the statements CLOCKS and DIFF count of two tables.
module _ {A : Type 0} (eqb : A → A → Bool) where
  -- `a IN table`
  abbrev pub holds : List A → A → Bool
  holds table a = any (λ t. eqb t a) table

  -- `SELECT DISTINCT`
  pub distinct : List A → List A
  distinct [] = []
  distinct (x ∷ xs) = let rest = distinct xs in if holds xs x then rest else x ∷ rest

  -- `left EXCEPT right`, a set operation
  pub except : List A → List A → List A
  unfolding distinct
  except left right = distinct (keep (λ a. not (holds right a)) left)

  unfoldable pub compare_tables : List A → List A → Counts
  unfolding except
  compare_tables left right = record {
    left = length left;
    right = length right;
    only_left = length (except left right);
    only_right = length (except right left);
  }

-- `_rows`: the rows behind the header, a missing cell as the empty text.
abbrev pub cell : Option String → String
cell none = ""
cell (some s) = s

abbrev pub drop_header : List (List (Option String)) → List (List String)
drop_header [] = []
drop_header (header ∷ rest) = map (map cell) rest

-- An execution's answers and the rows that it has once it succeeded.
pub record Query : Type 0 where
  pub answers : ℕ → Execution
  pub rows : List (List (Option String))

-- `none` means that the fuel ran out before the engine gave a terminal state.
unfoldable pub run_rows : Query → ℕ → Option (Result Exception (List (List String)))
run_rows q fuel = elim (wait_for q.answers fuel audit_failed "no reason") [
  | none ↦ none
  | some (err e) ↦ some (err e)
  | some (ok done) ↦ some (ok (drop_header q.rows))
]

-- `int` of a text
module _ (read_int : String → Option ℕ) where
  -- `_counts`; `zip(…, strict=True)` refuses a row of another length.
  unfoldable pub counts_of : List String → Result Exception Counts
  counts_of (a ∷ b ∷ c ∷ d ∷ []) = do
    left ← or_raise (read_int a) (value_error "invalid literal for int()")
    right ← or_raise (read_int b) (value_error "invalid literal for int()")
    only_left ← or_raise (read_int c) (value_error "invalid literal for int()")
    only_right ← or_raise (read_int d) (value_error "invalid literal for int()")
    ok (record { left = left; right = right; only_left = only_left; only_right = only_right })
  counts_of _ = err (value_error "zip() arguments differ in length")

  -- the first row of a result, `rows[0]`
  abbrev pub first_row : List (List String) → Result Exception (List String)
  first_row [] = err index_error
  first_row (r ∷ rest) = ok r

  -- `check_clocks`, from what its query gives
  unfoldable pub check_clocks : Result Exception (List (List String)) → Result Exception Counts
  check_clocks (err (audit_failed reason)) = err (audit_failed "clock check failed")
  check_clocks (err e) = err e
  check_clocks (ok rows) = do
    row ← first_row rows
    counts ← counts_of row
    raise_if (not (identical counts)) (audit_failed "known_at and snapshot disagree")
    ok counts

  -- `compare`, from what the query of each table gives
  unfoldable pub compare_rows :
      List (String × Result Exception (List (List String)))
      → Result Exception (List (String × Counts))
  compare_rows [] = ok []
  compare_rows ((table, result) ∷ rest) = do
    rows ← result
    row ← first_row rows
    counts ← counts_of row
    later ← compare_rows rest
    ok ((table, counts) ∷ later)

-- `differences`
unfoldable pub differs : Counts → Bool
differs c = not (c.left == c.right) || (not (c.only_left == 0) || not (c.only_right == 0))

unfoldable pub differences : List (String × Counts) → List String
unfolding differs
differences [] = []
differences ((table, c) ∷ rest) =
    let later = differences rest in if differs c then table ∷ later else later

pub record ProductionRun : Type 0 where
  pub git_sha : String
  pub snapshot_id : ℕ
  pub learned_up_to : ℕ

-- `production_run`, from its rows; `str.isdigit`, `int` and `datetime.fromisoformat` are parameters.
unfoldable pub production_run :
    (ℕ → Bool)
    → (String → Option ℕ)
    → (String → Option ℕ)
    → List (List String)
    → Result Exception ProductionRun
production_run is_digit read_int read_naive ((git_sha ∷ snapshot ∷ committed ∷ []) ∷ rest) = do
  raise_if (str_eq snapshot "" || not (all is_digit (codes snapshot)))
      (audit_failed "snapshot id is not a number")
  id ← or_raise (read_int snapshot) (value_error "invalid literal for int()")
  learned ← or_raise (read_naive committed) (value_error "invalid isoformat string")
  ok (record { git_sha = git_sha; snapshot_id = id; learned_up_to = learned })
production_run is_digit read_int read_naive [] =
    err (audit_failed "run_manifest is empty, so there is no production to audit")
production_run is_digit read_int read_naive _ = err (value_error "not three values to unpack")
