-- ===== src/Contracts/Quarantine.antt =====
-- src/gridlens/contracts/quarantine.py: what the sinks write of the violations. A line is what
-- `json.dumps` is given; how the store answers is a parameter, and so are the text of a date and the
-- random part of a key.
use gridlens.Prelude.{
  ℕ, String, ◌<>◌, List, [], ◌∷◌, map, Result, ok, ◌>>=◌, length, str_eq, if◌then◌else◌,
}
use gridlens.Exceptions.{Exception}
use gridlens.Contracts.Gate.{Violation}

pub record Line : Type 0 where
  pub seen_at : ℕ
  pub violation : Violation

-- `serialise`
unfoldable pub quarantine_lines : List Violation → ℕ → List Line
quarantine_lines violations seen_at =
    map (λ v. record { seen_at = seen_at; violation = v }) violations

-- `partition`
unfoldable pub partition : (ℕ → String) → ℕ → String
partition date_text seen_at = "seen_date=" <> date_text seen_at

-- `S3Quarantine.key`
unfoldable pub quarantine_key : (ℕ → String) → String → ℕ → String → String
unfolding partition
quarantine_key date_text prefix seen_at hex =
    let name = partition date_text seen_at <> "/" <> hex <> ".jsonl" in
    if str_eq prefix "" then name else prefix <> "/" <> name

-- An object of the store: its key and its lines.
pub record Object : Type 0 where
  pub key : String
  pub lines : List Line

-- `write` of either sink: what it puts, if anything, and the count that it returns.
unfoldable pub quarantine_write :
    (Object → Result Exception (Unit {0})) → String → List Violation → ℕ → Result Exception ℕ
unfolding quarantine_lines
quarantine_write put key [] seen_at = ok 0
quarantine_write put key (v ∷ violations) seen_at = do
  u ← put (record { key = key; lines = quarantine_lines (v ∷ violations) seen_at })
  ok (length (v ∷ violations))
