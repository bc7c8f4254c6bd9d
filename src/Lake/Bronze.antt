-- ===== src/Lake/Bronze.antt =====
-- src/gridlens/lake/bronze.py: what the MERGE statement does to the table, and `merge_batch`. A row
-- is what the statement casts: texts, UTC instants, and the quantity in thousandths. The engine
-- runs the whole statement if the execution succeeds, and changes nothing otherwise.
pub mod Merge
pub mod Unique
pub mod Restate
pub mod History
pub mod Order
pub mod Exchange
pub mod Bag
use gridlens.Prelude.{
  ℕ, zero, suc, ◌+◌, ◌≡◌, String, Bool, true, false, not, ◌&&◌, ◌||◌, Option, none, some, List, [],
  ◌∷◌, ◌++◌, map, Result, ok, err, ◌>>=◌, ◌>>◌, raise_if, any, all, keep, ltb, leb, ◌==◌, str_eq,
  if◌then◌else◌,
}
use gridlens.Prelude.Int.{ℤ, pos, eqb_ℤ}
use gridlens.Exceptions.{Exception, value_error, bronze_load_failed}
use gridlens.Contracts.Records.{Moment, naive, aware}
use gridlens.Timeaxis.Duration.{codes}
use gridlens.Lake.Query.{Execution, wait_for}

pub record Row : Type 0 where
  pub source : String
  pub source_document_id : Option String
  pub zone : String
  pub production_type : String
  pub direction : String
  pub unit : String
  pub resolution_minutes : ℕ
  pub valid_time : ℕ
  pub known_at : ℕ
  pub source_updated_at : Option ℕ
  pub quantity : ℤ

-- the columns that `latest` is partitioned by and joined on
unfoldable pub same_period : Row → Row → Bool
same_period a b =
    str_eq a.source b.source
    && (str_eq a.zone b.zone
        && (str_eq a.production_type b.production_type
            && (str_eq a.direction b.direction && a.valid_time == b.valid_time)))

-- the identity that the MERGE is ON
unfoldable pub same_version : Row → Row → Bool
same_version a b = same_period a b && a.known_at == b.known_at

abbrev pub in_window : ℕ → ℕ → Row → Bool
in_window start end r = leb start r.valid_time && ltb r.valid_time end

-- `a IS DISTINCT FROM b`
abbrev pub distinct_from : Option ℕ → Option ℕ → Bool
distinct_from none none = false
distinct_from (some a) (some b) = not (a == b)
distinct_from none (some b) = true
distinct_from (some a) none = true

-- Of two rows of a period, the one known later. Of two known at the same time ROW_NUMBER may take
-- either; here it is the first.
unfoldable pub later_of : Row → Option Row → Option Row
later_of r none = some r
later_of r (some l) = if ltb r.known_at l.known_at then some l else some r

-- `latest`: the row of a period in the window with recency 1
unfoldable pub latest : ℕ → ℕ → Row → List Row → Option Row
latest start end s [] = none
latest start end s (t ∷ rest) =
    let older = latest start end s rest in
    if same_period t s && in_window start end t then later_of t older else older

-- the WHERE of the subquery
unfoldable pub changed : Row → Option Row → Bool
changed s none = true
changed s (some l) =
    not (eqb_ℤ l.quantity s.quantity) || distinct_from l.source_updated_at s.source_updated_at

-- the ON of the MERGE, for some row of the table
unfoldable pub matched : ℕ → ℕ → Row → List Row → Bool
matched start end s table = any (λ t. same_version t s && in_window start end t) table

-- WHEN NOT MATCHED THEN INSERT
unfoldable pub is_inserted : ℕ → ℕ → List Row → Row → Bool
is_inserted start end table s =
    changed s (latest start end s table) && not (matched start end s table)

unfoldable pub merge : ℕ → ℕ → List Row → List Row → List Row
merge start end staged table = table ++ keep (is_inserted start end table) staged

-- The lake: the bronze table, and the staged rows under their batch ids.
pub record Lake : Type 0 where
  pub table : List Row
  pub staging : List (String × Row)

-- `WHERE batch_id = '…'`
unfoldable pub batch_rows : String → List (String × Row) → List Row
batch_rows id [] = []
batch_rows id ((i, r) ∷ rest) =
    let later = batch_rows id rest in if str_eq i id then r ∷ later else later

pub record Stats : Type 0 where
  pub scanned_bytes : ℕ
  pub millis : ℕ

abbrev pub number_or_zero : Option ℕ → ℕ
number_or_zero none = 0
number_or_zero (some n) = n

-- `moment.tzinfo is None or moment.utcoffset() != timedelta(0)`
unfoldable pub require_utc : String → Moment → Result Exception ℕ
require_utc message (naive reading) = err (value_error message)
require_utc message (aware reading offset) =
    if eqb_ℤ offset (pos 0) then ok reading else err (value_error message)

-- The guards of `merge_batch`; `str.isalnum` is a table of characters, which is a parameter.
unfoldable pub check_batch : (ℕ → Bool) → String → Moment → Moment → Result Exception (ℕ × ℕ)
check_batch is_alnum batch_id window_start window_end = do
  raise_if (str_eq batch_id "") (value_error "batch_id is required")
  raise_if (not (all is_alnum (codes batch_id))) (value_error "batch_id is not a plain hex string")
  start ← require_utc "window_start must be utc aware" window_start
  end ← require_utc "window_end must be utc aware" window_end
  raise_if (leb end start) (value_error "window_end must be after window_start")
  ok (start, end)

-- The lake after the engine has run the statement, and what `merge_batch` returns.
unfoldable pub finish_merge :
    String → ℕ × ℕ → Lake → Result Exception Execution → Result Exception Stats × Lake
finish_merge batch_id (start, end) lake (err e) = (err e, lake)
finish_merge batch_id (start, end) lake (ok done) = (
  ok (record { scanned_bytes = number_or_zero done.scanned; millis = number_or_zero done.millis }),
  record lake { table = merge start end (batch_rows batch_id lake.staging) lake.table },
)

-- `none` means that the fuel ran out before the engine gave a terminal state.
unfoldable pub merge_batch :
    (ℕ → Bool)
    → (ℕ → Execution)
    → ℕ
    → String
    → Moment
    → Moment
    → Lake
    → Option (Result Exception Stats × Lake)
merge_batch is_alnum answers fuel batch_id window_start window_end lake =
    elim (check_batch is_alnum batch_id window_start window_end) [
      | err e ↦ some (err e, lake)
      | ok window ↦ elim (wait_for answers fuel bronze_load_failed "no reason given") [
        | none ↦ none
        | some r ↦ some (finish_merge batch_id window lake r)
      ]
    ]
