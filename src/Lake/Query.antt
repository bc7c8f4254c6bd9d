-- ===== src/Lake/Query.antt =====
-- The query loop that src/gridlens/lake/bronze.py, lake/gaps.py, quality/restatement.py and
-- quality/bronze.py each write out: ask for the state of an execution until it is terminal, then
-- raise unless it succeeded. The engine is the sequence of its answers; the loop's rounds are fuel.
pub mod Polling
use gridlens.Prelude.{
  ℕ, zero, suc, String, Bool, true, false, ◌||◌, Option, none, some, Result, ok, err, str_eq,
  if◌then◌else◌,
}
use gridlens.Exceptions.{Exception}

-- An answer of `get_query_execution`.
pub record Execution : Type 0 where
  pub state : String
  pub reason : Option String
  pub scanned : Option ℕ
  pub millis : Option ℕ

-- `state in TERMINAL`
abbrev pub is_terminal : Execution → Bool
is_terminal e =
    str_eq e.state "SUCCEEDED" || (str_eq e.state "FAILED" || str_eq e.state "CANCELLED")

-- The loop, from its n-th answer on; `none` means that the fuel ran out.
unfoldable pub poll : (ℕ → Execution) → ℕ → ℕ → Option Execution
poll answers zero n = none
poll answers (suc fuel) n =
    let rest = poll answers fuel (suc n) in
    if is_terminal (answers n) then some (answers n) else rest

-- `execution["Status"].get("StateChangeReason", default)`
abbrev pub reason_or : String → Option String → String
reason_or default none = default
reason_or default (some r) = r

-- `if state != "SUCCEEDED": raise …`
unfoldable pub check_state : (String → Exception) → String → Execution → Result Exception Execution
check_state raised default e =
    if str_eq e.state "SUCCEEDED" then ok e else err (raised (reason_or default e.reason))

-- The loop from its first answer, and the check.
unfoldable pub wait_for :
    (ℕ → Execution) → ℕ → (String → Exception) → String → Option (Result Exception Execution)
wait_for answers fuel raised default = elim (poll answers fuel zero) [
  | none ↦ none
  | some e ↦ some (check_state raised default e)
]
