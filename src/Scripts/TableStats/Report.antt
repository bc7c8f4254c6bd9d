-- ===== src/Scripts/TableStats/Report.antt =====
-- scripts/table_stats.py: the figures of the report, which Layout prints.
use gridlens.Prelude.{
  ℕ, zero, suc, ◌+◌, ◌-◌, String, Option, none, some, List, [], ◌∷◌, length, Result, ok, ◌>>=◌,
  or_raise, dict_get, if◌then◌else◌,
}
use gridlens.Prelude.Int.{ℤ, pos, ◌-ℤ◌, ltb_ℤ}
use gridlens.Exceptions.{Exception, key_error, value_error}
use gridlens.Scripts.TableStats.{Grouped, same_class, data_files, totals}

abbrev pub listing_limit : ℕ
listing_limit = 5

-- the bytes of every class but the data
unfoldable pub metadata_bytes : Grouped → ℕ
metadata_bytes [] = 0
metadata_bytes ((kind, (count, total)) ∷ rest) =
    let others = metadata_bytes rest in
    if same_class kind data_files then others else total + others

unfoldable pub take_texts : ℕ → List String → List String
take_texts zero xs = []
take_texts (suc n) [] = []
take_texts (suc n) (x ∷ xs) = x ∷ take_texts n xs

-- The figures of `format_report`.
pub record Report : Type 0 where
  pub parquet_bytes : ℕ
  pub other_bytes : ℕ
  pub delete_files : ℤ
  pub positions : ℤ
  pub masked : ℤ
  pub on_disk : ℕ
  pub leftover : ℤ
  pub listed : List String
  pub more : ℕ

-- `int(summary.get(key, 0))`
unfoldable pub summary_number :
    (String → Option ℤ) → String → List (String × String) → Result Exception ℤ
summary_number read_int key summary = elim (dict_get key summary) [
  | none ↦ ok (pos 0)
  | some text ↦ or_raise (read_int text) (value_error "invalid literal for int()")
]

-- The paths that are named, and the count of those that are not.
unfoldable pub listed_paths : ℤ → List String → List String × ℕ
unfolding take_texts
listed_paths leftover paths =
    if ltb_ℤ (pos 0) leftover
    then (take_texts listing_limit paths, length paths - listing_limit)
    else ([], 0)

unfoldable pub format_report :
    (String → Option ℤ)
    → List (String × String)
    → List (String × String)
    → String
    → Grouped
    → List String
    → Result Exception Report
unfolding totals
format_report read_int files summary live_rows storage paths = do
  deletes ← summary_number read_int "total-delete-files" summary
  positions ← summary_number read_int "total-position-deletes" summary
  written ← or_raise (dict_get "rows" files) (key_error "rows")
  in_files ← or_raise (read_int written) (value_error "invalid literal for int()")
  live ← or_raise (read_int live_rows) (value_error "invalid literal for int()")
  let leftover = pos (length paths) -ℤ deletes
  let named = listed_paths leftover paths
  let parquet = totals data_files storage
  ok (record {
    parquet_bytes = parquet.1;
    other_bytes = metadata_bytes storage;
    delete_files = deletes;
    positions = positions;
    masked = in_files -ℤ live;
    on_disk = parquet.0;
    leftover = leftover;
    listed = named.0;
    more = named.1;
  })
