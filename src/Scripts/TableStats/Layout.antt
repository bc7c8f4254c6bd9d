-- ===== src/Scripts/TableStats/Layout.antt =====
-- scripts/table_stats.py: the lines of the report, and `main` up to printing them. How numbers are
-- printed and padded is a parameter, and so are the answers of the engine, the catalog and the store.
use gridlens.Prelude.{
  ℕ, String, ◌<>◌, Option, List, [], ◌∷◌, ◌++◌, map, Result, ok, err, ◌>>=◌, or_raise, dict_get,
  ◌==◌, if◌then◌else◌,
}
use gridlens.Prelude.Int.{ℤ, pos, eqb_ℤ, ltb_ℤ}
use gridlens.Exceptions.{Exception, key_error, index_error}
use gridlens.Scripts.TableStats.{
  StorageClass, data_files, manifests, manifest_lists, metadata_json, Grouped, totals,
  group_by_class, list_pages, metadata_location, table_root, current_summary, unmatched,
}
use gridlens.Scripts.TableStats.Report.{Report, format_report}

-- A row of a result, keyed by column.
abbrev pub Keyed : Type 0
Keyed = List (String × String)

abbrev pub column : String → Keyed → Result Exception String
column name row = or_raise (dict_get name row) (key_error name)

pub record Printing : Type 0 where
  pub number : ℕ → String
  pub signed : ℤ → String
  pub pad_right : ℕ → String → String
  pub pad_left : ℕ → String → String
  pub ratio : ℕ → ℕ → String

-- The statements of the script.
pub data Statement : Type 0 where
  file_stats partition_stats snapshot_stats live_files live_rows : Statement

-- What `main` asks of the engine, of the catalog and of the store.
pub record Outside : Type 0 where
  pub query : Statement → Result Exception (List Keyed)
  pub parameters : Option Keyed
  pub bucket_of : String → String
  pub pages : String → List (List (String × ℕ))
  pub metadata : String → List (Option Keyed)

module _ (printing : Printing) where
  -- the line of the rows
  unfoldable pub rows_line : Report → String → Keyed → Result Exception String
  rows_line report live files =
      let line = "  rows          " <> live <> " live" in
      if eqb_ℤ report.masked (pos 0) then ok line else (do
        written ← column "rows" files
        ok (
            line
            <> ", "
            <> written
            <> " in data files, "
            <> printing.signed report.masked
            <> " masked by deletes"))

  -- the line of a class
  unfoldable pub storage_line : Grouped → StorageClass × String → String
  storage_line storage (kind, label) =
      let (count, total) = totals kind storage in
      "    "
      <> printing.pad_right 15 label
      <> printing.pad_left 5 (printing.number count)
      <> " objects"
      <> printing.pad_left 10 (printing.number total)
      <> " bytes"

  abbrev pub labels : List (StorageClass × String)
  labels =
      (data_files, "parquet")
      ∷ (manifests, "manifests")
      ∷ (manifest_lists, "manifest lists")
      ∷ (metadata_json, "metadata json")
      ∷ []

  -- the lines of the paths that are named
  unfoldable pub unaccounted_lines : Report → List String
  unaccounted_lines report =
      let more =
        if report.more == 0
        then []
        else ("    and " <> printing.number report.more <> " more") ∷ [] in
      if ltb_ℤ (pos 0) report.leftover
      then ("  unaccounted objects are held by an older snapshot or orphaned" ∷ [])
        ++ map (λ key. "    " <> key) report.listed
        ++ more
      else []

  unfoldable pub report_lines :
      String → Report → Keyed → Keyed → Keyed → String → Grouped → Result Exception (List String)
  report_lines table report files partitions snapshots live storage = do
    rows ← rows_line report live files
    count ← column "files" files
    smallest ← column "smallest" files
    mean ← column "mean" files
    largest ← column "largest" files
    parts ← column "partitions" partitions
    mean_files ← column "mean_files" partitions
    most_files ← column "most_files" partitions
    snaps ← column "snapshots" snapshots
    oldest ← column "oldest" snapshots
    newest ← column "newest" snapshots
    let deleted = if eqb_ℤ report.positions (pos 1) then "delete" else "deletes"
    ok (
        (table
          ∷ ""
          ∷ rows
          ∷ ("  data files    " <> count)
          ∷ ("  delete files  "
              <> printing.signed report.delete_files
              <> ", holding "
              <> printing.signed report.positions
              <> " position "
              <> deleted)
          ∷ ("  file size     " <> smallest <> " min, " <> mean <> " mean, " <> largest <> " max")
          ∷ ("  partitions    " <> parts <> ", " <> mean_files <> " files each on average, "
              <> most_files <> " at most")
          ∷ ("  snapshots     " <> snaps <> ", " <> oldest <> " to " <> newest)
          ∷ ""
          ∷ "  storage"
          ∷ [])
        ++ map (storage_line storage) labels
        ++ (("    metadata is "
              <> printing.ratio report.other_bytes report.parquet_bytes
              <> "x the parquet it describes")
            ∷ ""
            ∷ ("  "
                <> printing.number report.on_disk
                <> " parquet objects under data/: "
                <> count
                <> " in the current snapshot, "
                <> printing.signed report.delete_files
                <> " delete, "
                <> printing.signed report.leftover
                <> " unaccounted")
            ∷ [])
        ++ unaccounted_lines report)

-- `query(sql)[0]`
unfoldable pub first_row : Result Exception (List Keyed) → Result Exception Keyed
first_row answer = do rows ← answer; elim rows [ [] ↦ err index_error | row ∷ rest ↦ ok row ]

unfoldable pub file_paths : List Keyed → Result Exception (List String)
file_paths [] = ok []
file_paths (row ∷ rest) = do
  path ← column "file_path" row
  later ← file_paths rest
  ok (path ∷ later)

-- `main` for a table, up to the lines that it prints
unfoldable pub main_lines :
    Printing → (String → Option ℤ) → Outside → String → Result Exception (List String)
main_lines printing read_int outside table = do
  files ← first_row (outside.query file_stats)
  partitions ← first_row (outside.query partition_stats)
  snapshots ← first_row (outside.query snapshot_stats)
  counted ← first_row (outside.query live_rows)
  rows ← column "rows" counted
  found ← outside.query live_files
  live ← file_paths found
  location ← metadata_location outside.parameters
  let objects = list_pages [] (outside.pages (table_root location))
  let summary = current_summary (outside.metadata location)
  let paths = unmatched (outside.bucket_of location) live objects
  let storage = group_by_class objects
  report ← format_report read_int files summary rows storage paths
  report_lines printing table report files partitions snapshots rows storage
