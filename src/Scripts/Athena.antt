-- ===== src/Scripts/Athena.antt =====
-- scripts/athena.py: the statement of a SQL file, and the exit status. Reading a file and cutting it
-- into lines (`str.splitlines`, `str.strip`) are parameters.
use gridlens.Prelude.{
  ℕ, String, Bool, not, ◌&&◌, ◌||◌, Option, none, some, List, [], ◌∷◌, join, str_eq, if◌then◌else◌,
}
use gridlens.Lake.Query.{Execution, poll}
use gridlens.Scripts.Texts.{starts_with, rstrip}

-- the lines from the first that is neither blank nor a comment
unfoldable pub drop_comments : (String → String) → List String → List String
drop_comments strip [] = []
drop_comments strip (line ∷ rest) =
    let later = drop_comments strip rest in
    if not (str_eq (strip line) "") && not (starts_with (strip line) "--")
    then line ∷ rest
    else later

unfoldable pub strip_leading_comments : (String → String) → (String → List String) → String → String
strip_leading_comments strip splitlines sql =
    strip (join "\n" (drop_comments strip (splitlines sql)))

-- `run_statement`: the first terminal execution of the statement
unfoldable pub run_statement : (String → ℕ → Execution) → ℕ → String → Option Execution
run_statement answers fuel sql = poll (answers sql) fuel 0

-- the loop of `main` over the texts of the files: whether any statement did not succeed
unfoldable pub run_files :
    (String → String)
    → (String → List String)
    → (String → ℕ → Execution)
    → ℕ
    → List String
    → Bool
    → Option Bool
run_files strip splitlines answers fuel [] failed = some failed
run_files strip splitlines answers fuel (text ∷ rest) failed =
    elim (run_statement answers fuel (rstrip b';' (strip_leading_comments strip splitlines text))) [
      | none ↦ none
      | some e ↦
          run_files strip splitlines answers fuel rest (failed || not (str_eq e.state "SUCCEEDED"))
    ]

abbrev pub status_of : Bool → ℕ
status_of failed = if failed then 1 else 0
