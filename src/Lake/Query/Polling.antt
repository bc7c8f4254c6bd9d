-- ===== src/Lake/Query/Polling.antt =====
-- The query loop ends at the first terminal answer.
use gridlens.Prelude.{
  ℕ, zero, suc, ◌+◌, ◌≤◌, ◌<◌, ◌≡◌, refl, ◌⊎◌, inl, inr, String, true, false, some, ok, err, arith,
  str_eq, if◌then◌else◌,
}
use gridlens.Exceptions.{Exception}
use gridlens.Lake.Query.{Execution, is_terminal, poll, reason_or, check_state, wait_for}

-- The n-th answer is terminal, and none before it is, from `start` on.
pub record FirstTerminal (answers : ℕ → Execution) (start n : ℕ) : Type 0 where
  pub after : start ≤ n
  pub terminal : is_terminal (answers n) ≡ true
  pub earlier : (m : ℕ) → start ≤ m → m < n → is_terminal (answers m) ≡ false

poll-first :
    (answers : ℕ → Execution) (fuel start n : ℕ)
    → FirstTerminal answers start n
    → n < start + fuel
    → poll answers fuel start ≡ some (answers n)
unfolding poll
poll-first answers zero start n f h = absurd (omega (arith, f.after))
poll-first answers (suc fuel) start n f h =
    let c : (start ≡ n) ⊎ (start < n) = omega (arith, f.after) in
    elim c [
      | inl here ↦
          let now : is_terminal (answers start) ≡ true = rw here f.terminal in rw now (rw here refl)
      | inr on ↦ rw (f.earlier start (omega arith) on) (
          poll-first answers fuel (suc start) n
            (record {
              after = on;
              terminal = f.terminal;
              earlier = λ m a b. f.earlier m (omega arith) b;
            })
            (omega arith))
    ]

-- If the n-th answer is the first terminal one and the fuel is more than n, the loop ends there:
-- it returns that execution if it succeeded, and otherwise raises with the reason that the engine
-- gives, or with the default if it gives none.
pub wait_for-first :
    (answers : ℕ → Execution) (fuel n : ℕ) (raised : String → Exception) (default : String)
    → FirstTerminal answers 0 n
    → n < fuel
    → wait_for answers fuel raised default
      ≡ some (
          if str_eq (answers n).state "SUCCEEDED"
          then ok (answers n)
          else err (raised (reason_or default (answers n).reason)))
unfolding wait_for check_state
wait_for-first answers fuel n raised default f h =
    rw (poll-first answers fuel 0 n f (omega arith), wait_for) refl
