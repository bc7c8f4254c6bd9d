-- ===== src/Scripts/TableStats/Tests.antt =====
-- An example of the theorem about the report.
use gridlens.Prelude.{ℕ, ◌≡◌, refl, String, some, List, [], ◌∷◌, length, ok}
use gridlens.Prelude.Int.{pos, ◌+ℤ◌, ◌-ℤ◌}
use gridlens.Ingest.Client.{has_prefix}
use gridlens.Scripts.Texts.{ends_with, occurs, after_last}
use gridlens.Scripts.TableStats.{
  insert_text, sort_texts, unmatched, classify, data_files, totals, put_totals, group_from,
  group_by_class,
}
use gridlens.Scripts.TableStats.Grouping.{of_class}
use gridlens.Scripts.TableStats.Report.{
  Report, summary_number, metadata_bytes, take_texts, listed_paths, format_report,
}
use gridlens.Scripts.TableStats.Accounts.{named, format_report-accounts}

abbrev two_files : List (String × ℕ)
two_files = ("t/data/a.parquet", 100) ∷ ("t/data/b.parquet", 50) ∷ []

abbrev live : List String
live = "s3://lake/t/data/a.parquet" ∷ []

abbrev one_left : Report
one_left = record {
  parquet_bytes = 150;
  other_bytes = 0;
  delete_files = pos 0;
  positions = pos 0;
  masked = pos 0;
  on_disk = 2;
  leftover = pos 1;
  listed = "s3://lake/t/data/b.parquet" ∷ [];
  more = 0;
}

reported :
    format_report
      (λ s. some (pos 9))
      (("rows", "9") ∷ [])
      []
      "9"
      (group_by_class two_files)
      (unmatched "lake" live two_files)
    ≡ ok one_left
unfolding format_report summary_number metadata_bytes take_texts listed_paths group_by_class
    group_from put_totals totals unmatched sort_texts insert_text classify after_last occurs
    ends_with has_prefix ◌-ℤ◌
reported = refl

format_report-accounts_example :
    (one_left.on_disk ≡ length (of_class data_files two_files))
    × ((one_left.leftover +ℤ one_left.delete_files) +ℤ pos (length (named "lake" live two_files))
        ≡ pos one_left.on_disk)
format_report-accounts_example =
    format_report-accounts (λ s. some (pos 9)) (("rows", "9") ∷ []) [] "9" "lake" live two_files
      one_left reported
