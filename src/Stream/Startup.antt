-- ===== src/Stream/Startup.antt =====
-- src/gridlens/stream/producer.py: what `run` does before its loop. The parameter store, the broker's
-- administration and the registry are the calls of a record.
use gridlens.Prelude.{ℕ, String, Bool, Option, some, List, [], ◌∷◌, Result, ok, err}
use gridlens.Exceptions.{Exception}
use gridlens.Ingest.Redaction.{Logger, install}
use gridlens.Stream.Service.{Running, run}

pub record Startup (W : Type 0) : Type 0 where
  pub token : W → Result Exception String × W
  pub ensure_topics : W → Result Exception (List String) × W
  pub register_schema : W → Result Exception ℕ × W
  pub service : String → ℕ → Running W

module _ {W : Type 0} (startup : Startup W) where
  -- from the topics on, with the token's filter on the root logger
  unfoldable pub start_service :
      ℕ → Bool → ℕ → String → W → Option (Result Exception (Unit {0}) × W)
  start_service fuel once interval token w =
      let (created, w1) = startup.ensure_topics w in
      let (registered, w2) = startup.register_schema w1 in
      elim created [
        | err e ↦ some (err e, w1)
        | ok names ↦ elim registered [
          | err e ↦ some (err e, w2)
          | ok schema_id ↦ run (startup.service token schema_id) fuel once interval w2
        ]
      ]

  -- The token is hidden from the log before anything else is called.
  unfoldable pub start :
      ℕ → Bool → ℕ → Logger → W → Option (Result Exception (Unit {0}) × W) × Logger
  start fuel once interval root w =
      let (token, w1) = startup.token w in
      elim token [
        | err e ↦ (some (err e, w1), root)
        | ok secret ↦ (start_service fuel once interval secret w1, install (secret ∷ []) root)
      ]
