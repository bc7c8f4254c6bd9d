-- ===== src/Scripts/Teardown.antt =====
-- scripts/dbt_teardown.py: dropping a throwaway dbt schema. What the catalog, the engine and the
-- store answer are parameters; what is done to them is a list of actions, in order.
pub mod Confined
use gridlens.Prelude.{
  ℕ, String, ◌<>◌, Bool, true, false, not, ◌&&◌, ◌||◌, Option, none, some, List, [], ◌∷◌, ◌++◌, map,
  Result, ok, err, ◌>>=◌, ◌>>◌, raise_if, any, all, length, ◌+◌, ◌==◌, str_eq, if◌then◌else◌,
}
use gridlens.Exceptions.{Exception, refused_schema, drop_failed}
use gridlens.Timeaxis.Duration.{codes}
use gridlens.Lake.Query.{Execution, wait_for}
use gridlens.Scripts.Texts.{starts_with, lstrip, rstrip}

abbrev pub prefixes : List String
prefixes = "gridlens_ci_" ∷ "gridlens_audit_" ∷ []

-- `check_schema`; `str.isalnum` is a table of characters.
unfoldable pub check_schema : (ℕ → Bool) → String → Result Exception (Unit {0})
check_schema is_alnum name = do
  raise_if (not (any (λ p. starts_with name p && not (str_eq name p)) prefixes))
      (refused_schema "is not a ci or audit schema, refusing to drop it")
  raise_if (not (all (λ c. is_alnum c || c == b'_') (codes name)))
      (refused_schema "contains characters these schemas never have")
  ok tt

-- A table of the catalog, and how a page of its tables is answered: an error has the code of its
-- response, where it has one.
pub record Table : Type 0 where
  pub name : String
  pub table_type : Option String

pub record ClientError : Type 0 where
  pub error_code : Option String
  pub raised : Exception

-- `_missing`
unfoldable pub is_missing : ClientError → Bool
is_missing e = elim e.error_code [ none ↦ false | some c ↦ str_eq c "EntityNotFoundException" ]

abbrev pub is_view : Table → Bool
is_view t = elim t.table_type [ none ↦ false | some kind ↦ str_eq kind "VIRTUAL_VIEW" ]

-- `relations`, from the pages that are left and what was found before them.
unfoldable pub relations :
    List (Result ClientError (List Table))
    → List (String × Bool)
    → Result Exception (Option (List (String × Bool)))
relations [] found = ok (some found)
relations (err e ∷ pages) found = if is_missing e then ok none else err e.raised
relations (ok page ∷ pages) found = relations pages (found ++ map (λ t. (t.name, is_view t)) page)

-- What is done to the outside.
pub data Action : Type 0 where
  ran : String → Action
  deleted_database : String → Action
  deleted_objects : String → List String → Action

-- DROP VIEW is quoted for trino and DROP TABLE for hive.
unfoldable pub drop_statement : String → String → Bool → String
drop_statement database name true = "DROP VIEW IF EXISTS \"" <> database <> "\".\"" <> name <> "\""
drop_statement database name false = "DROP TABLE IF EXISTS `" <> database <> "`.`" <> name <> "`"

-- `_run`, from the answers to a statement; `none`: it came to no terminal state.
abbrev pub run_drop : (ℕ → Execution) → ℕ → Option (Result Exception Execution)
run_drop answers fuel = wait_for answers fuel drop_failed "no reason given"

module _ (is_alnum : ℕ → Bool) (answers : String → ℕ → Execution) (fuel : ℕ) where
  -- The loop over the relations: the names dropped, and the actions; `none`: a statement
  -- came to no terminal state.
  unfoldable pub drop_relations :
      String
      → List (String × Bool)
      → List String
      → List Action
      → Option (Result Exception (List String) × List Action)
  drop_relations database [] dropped log = some (ok dropped, log)
  drop_relations database ((name, view) ∷ rest) dropped log =
      elim (check_schema is_alnum database) [
        | err e ↦ some (err e, log)
        | ok _ ↦
            let sql = drop_statement database name view in
            elim (run_drop (answers sql) fuel) [
              | none ↦ none
              | some (err e) ↦ some (err e, log ++ ran sql ∷ [])
              | some (ok _) ↦
                  drop_relations database rest (dropped ++ name ∷ []) (log ++ ran sql ∷ [])
            ]
      ]

-- The prefix that `sweep` lists, from the path of `--data-prefix`.
unfoldable pub sweep_prefix : String → String → String
sweep_prefix path database = rstrip b'/' (lstrip b'/' path) <> "/" <> database <> "/"

-- The loop of `sweep` over the pages of keys.
unfoldable pub sweep_pages : String → List (List String) → ℕ → List Action → ℕ × List Action
sweep_pages bucket [] deleted log = (deleted, log)
sweep_pages bucket ([] ∷ pages) deleted log = sweep_pages bucket pages deleted log
sweep_pages bucket ((k ∷ keys) ∷ pages) deleted log =
    sweep_pages bucket pages (deleted + length (k ∷ keys))
      (log ++ deleted_objects bucket (k ∷ keys) ∷ [])

-- The data prefix as `urlparse` splits it.
pub record Location : Type 0 where
  pub bucket : String
  pub path : String

unfoldable pub sweep :
    (String → String → List (List String)) → Location → String → List Action → ℕ × List Action
sweep list_objects place database log =
    sweep_pages place.bucket (list_objects place.bucket (sweep_prefix place.path database)) 0 log

pub record Teardown : Type 0 where
  pub existed : Bool
  pub dropped : List String
  pub objects_swept : ℕ

module _ (is_alnum : ℕ → Bool) (answers : String → ℕ → Execution) (fuel : ℕ)
    (list_objects : String → String → List (List String)) where
  -- the end of `teardown`; `none`: no store or no data prefix was given
  unfoldable pub finish :
      Option Location → String → Bool → List String → List Action → Teardown × List Action
  finish none database existed dropped log =
      (record { existed = existed; dropped = dropped; objects_swept = 0 }, log)
  finish (some place) database existed dropped log =
      let (swept, log') = sweep list_objects place database log in
      (record { existed = existed; dropped = dropped; objects_swept = swept }, log')

  -- dropping what was found, and the database
  unfoldable pub drop_found :
      Option Location
      → String
      → Option (List (String × Bool))
      → Option (Result Exception Teardown × List Action)
  drop_found place database none =
      let (t, log) = finish place database false [] [] in some (ok t, log)
  drop_found place database (some found) =
      elim (drop_relations is_alnum answers fuel database found [] []) [
        | none ↦ none
        | some (err e, log) ↦ some (err e, log)
        | some (ok dropped, log) ↦
            let (t, log') =
              finish place database true dropped (log ++ deleted_database database ∷ []) in
            some (ok t, log')
      ]

  unfoldable pub teardown :
      List (Result ClientError (List Table))
      → Option Location
      → String
      → Option (Result Exception Teardown × List Action)
  teardown pages place database = elim (check_schema is_alnum database) [
    | err e ↦ some (err e, [])
    | ok _ ↦ elim (relations pages []) [
      | err e ↦ some (err e, [])
      | ok found ↦ drop_found place database found
    ]
  ]

-- the exit status of `main`; `none`: the exception is not caught
unfoldable pub exit_status : Result Exception Teardown → Option ℕ
exit_status (ok t) = some 0
exit_status (err e) = elim e [ refused_schema text ↦ some 2 | other ↦ none ]
