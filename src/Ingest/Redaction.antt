-- ===== src/Ingest/Redaction.antt =====
-- src/gridlens/ingest/redaction.py: the filter that strips secrets out of a log record. A record is its
-- message, which is all that a handler formats after the filter has replaced it.
mod Tests
pub mod Replacing
pub mod Clean
use gridlens.Prelude.{
  ℕ, zero, suc, ◌-◌, String, ◌<>◌, not, List, [], ◌∷◌, ◌++◌, keep, any, length, str_eq,
  if◌then◌else◌,
}
use gridlens.Timeaxis.Duration.{codes}
use gridlens.Ingest.Client.{has_prefix, contains}

-- `RedactingFilter.__init__`: empty secrets are dropped.
unfoldable pub secrets_of : List String → List String
secrets_of secrets = keep (λ s. not (str_eq s "")) secrets

-- Where a text is replaced from left to right, the characters of a match that are still to be passed
-- over are counted.
unfoldable pub replace_from : List ℕ → String → ℕ → String → String
replace_from needle new skip String.[] = String.[]
replace_from needle new (suc skip) (String.◌∷◌ c s) = replace_from needle new skip s
replace_from needle new zero (String.◌∷◌ c s) =
    let passed = replace_from needle new (length needle - 1) s in
    let kept = replace_from needle new zero s in
    if has_prefix needle (codes (String.◌∷◌ c s)) then new <> passed else String.◌∷◌ c kept

-- `message.replace(secret, new)` for a secret that is not empty
unfoldable pub replace : String → String → String → String
replace secret new message = replace_from (codes secret) new zero message

abbrev pub placeholder : String
placeholder = "<redacted>"

unfoldable pub redact : List String → String → String
redact [] message = message
redact (s ∷ secrets) message = redact secrets (replace s placeholder message)

-- `filter`: what the record says after it; it always lets the record pass.
unfoldable pub filter : List String → String → String
filter secrets message =
    if any (λ s. contains (codes s) (codes message)) secrets
    then redact secrets message
    else message

-- A root logger: the filters of each of its handlers, and its own. A filter is its secrets.
pub record Logger : Type 0 where
  pub handlers : List (List (List String))
  pub filters : List (List String)

unfoldable pub add_filter : List String → List (List (List String)) → List (List (List String))
add_filter secrets [] = []
add_filter secrets (h ∷ rest) = (h ++ secrets ∷ []) ∷ add_filter secrets rest

-- `install`
unfoldable pub install : List String → Logger → Logger
install secrets root = elim root.handlers [
  | [] ↦ record root { filters = root.filters ++ secrets_of secrets ∷ [] }
  | h ∷ rest ↦ record root { handlers = add_filter (secrets_of secrets) (h ∷ rest) }
]
