-- ===== src/Scripts/TableStats.antt =====
-- scripts/table_stats.py: what an Iceberg table's objects are and cost. The answers of the engine, the
-- store and the catalog are parameters.
pub mod Grouping
pub mod Report
pub mod Layout
pub mod Accounts
mod Tests
use gridlens.Prelude.{
  ℕ, zero, suc, ◌+◌, ◌-◌, String, ◌<>◌, Bool, true, false, not, ◌&&◌, ◌||◌, Option, none, some,
  List, [], ◌∷◌, ◌++◌, map, keep, any, all, length, Result, ok, err, ◌>>=◌, or_raise, dict_get,
  dict_set, ltb, ◌==◌, str_eq, if◌then◌else◌,
}
use gridlens.Prelude.Int.{ℤ, pos, ◌-ℤ◌, ltb_ℤ, eqb_ℤ}
use gridlens.Exceptions.{Exception, query_failed, key_error, value_error}
use gridlens.Timeaxis.Duration.{codes}
use gridlens.Lake.Query.{Execution, wait_for}
use gridlens.Scripts.Texts.{starts_with, ends_with, after_last, before_last}

abbrev cell_text : Option String → String
cell_text none = ""
cell_text (some s) = s

-- `dict(zip(header, values, strict=False))`
unfoldable pub zip_row : List String → List String → List (String × String) → List (String × String)
zip_row [] values row = row
zip_row (h ∷ header) [] row = row
zip_row (h ∷ header) (v ∷ values) row = zip_row header values (dict_set h v row)

-- The loop of `run_query` over the rows of all pages: the first row that is not empty is the header.
unfoldable pub keyed_rows :
    List String → List (List (Option String)) → List (List (String × String))
keyed_rows header [] = []
keyed_rows [] (cells ∷ rest) = keyed_rows (map cell_text cells) rest
keyed_rows (h ∷ header) (cells ∷ rest) =
    zip_row (h ∷ header) (map cell_text cells) [] ∷ keyed_rows (h ∷ header) rest

unfoldable pub all_rows : List (List (List (Option String))) → List (List (Option String))
all_rows [] = []
all_rows (page ∷ pages) = page ++ all_rows pages

-- `run_query`, from the answers and the pages of the result
unfoldable pub run_query :
    (ℕ → Execution)
    → ℕ
    → List (List (List (Option String)))
    → Option (Result Exception (List (List (String × String))))
run_query answers fuel pages = elim (wait_for answers fuel query_failed "no reason") [
  | none ↦ none
  | some (err e) ↦ some (err e)
  | some (ok done) ↦ some (ok (keyed_rows [] (all_rows pages)))
]

pub data StorageClass : Type 0 where
  metadata_json manifest_lists manifests data_files : StorageClass

abbrev pub same_class : StorageClass → StorageClass → Bool
same_class metadata_json metadata_json = true
same_class manifest_lists manifest_lists = true
same_class manifests manifests = true
same_class data_files data_files = true
same_class _ _ = false

unfoldable pub classify : String → StorageClass
classify key =
    let name = after_last b'/' key in
    if ends_with name ".metadata.json"
    then metadata_json
    else if starts_with name "snap-" && ends_with name ".avro"
    then manifest_lists
    else if ends_with name ".avro"
    then manifests
    else data_files

-- Counts and bytes of the classes that were met.
abbrev pub Grouped : Type 0
Grouped = List (StorageClass × (ℕ × ℕ))

-- `grouped.get(kind, (0, 0))`
pub totals : StorageClass → Grouped → ℕ × ℕ
totals kind [] = (0, 0)
totals kind ((k, t) ∷ rest) = if same_class k kind then t else totals kind rest

pub put_totals : StorageClass → ℕ × ℕ → Grouped → Grouped
put_totals kind t [] = (kind, t) ∷ []
put_totals kind t ((k, u) ∷ rest) =
    if same_class k kind then (k, t) ∷ rest else (k, u) ∷ put_totals kind t rest

pub group_from : Grouped → List (String × ℕ) → Grouped
group_from grouped [] = grouped
group_from grouped ((key, size) ∷ rest) =
    let kind = classify key in
    let (count, total) = totals kind grouped in
    group_from (put_totals kind (count + 1, total + size) grouped) rest

-- `group_by_class`
unfoldable pub group_by_class : List (String × ℕ) → Grouped
unfolding group_from
group_by_class objects = group_from [] objects

-- `list_objects`, from the pages of entries
unfoldable pub list_page : List (String × ℕ) → List (String × ℕ) → List (String × ℕ)
list_page objects [] = objects
list_page objects ((key, size) ∷ entries) = list_page (dict_set key size objects) entries

unfoldable pub list_pages : List (String × ℕ) → List (List (String × ℕ)) → List (String × ℕ)
list_pages objects [] = objects
list_pages objects (page ∷ pages) = list_pages (list_page objects page) pages

-- `metadata_location`, from the parameters of the catalog's table
unfoldable pub metadata_location : Option (List (String × String)) → Result Exception String
metadata_location none = err (query_failed "the table has no metadata_location")
metadata_location (some parameters) = elim (dict_get "metadata_location" parameters) [
  | none ↦ err (query_failed "the table has no metadata_location")
  | some location ↦
      if str_eq location ""
      then err (query_failed "the table has no metadata_location")
      else ok location
]

unfoldable pub table_root : String → String
table_root location = before_last "/metadata/" location <> "/"

-- `current_summary`, from the snapshots of the metadata document and their summaries
unfoldable pub current_summary : List (Option (List (String × String))) → List (String × String)
current_summary [] = []
current_summary (s ∷ []) = elim s [ none ↦ [] | some summary ↦ summary ]
current_summary (s ∷ t ∷ rest) = current_summary (t ∷ rest)

-- Order of texts, by code points
abbrev pub codes_leb : List ℕ → List ℕ → Bool
codes_leb [] ds = true
codes_leb (c ∷ cs) [] = false
codes_leb (c ∷ cs) (d ∷ ds) = ltb c d || (c == d && codes_leb cs ds)

unfoldable pub insert_text : String → List String → List String
insert_text s [] = s ∷ []
insert_text s (t ∷ rest) =
    if codes_leb (codes s) (codes t) then s ∷ t ∷ rest else t ∷ insert_text s rest

unfoldable pub sort_texts : List String → List String
sort_texts [] = []
sort_texts (s ∷ rest) = insert_text s (sort_texts rest)

abbrev pub object_path : String → String → String
object_path bucket key = "s3://" <> bucket <> "/" <> key

-- the generator of `unmatched` in `main`: data objects that no live path names
unfoldable pub unmatched : String → List String → List (String × ℕ) → List String
unmatched bucket live objects = sort_texts (
    map (λ o. object_path bucket o.0)
      (keep
        (λ o.
          same_class (classify o.0) data_files
          && not (any (λ p. str_eq p (object_path bucket o.0)) live))
        objects))
