-- ===== src/Exceptions.antt =====
-- The exceptions that the modelled modules raise (src/gridlens/ingest/errors.py, ingest/entsoe.py,
-- ingest/rte.py, lake/bronze.py, lake/gaps.py, quality/restatement.py, stream/producer.py, scripts/dbt_teardown.py). A message is kept as its
-- fixed words; what an f-string puts between them is left out.
use gridlens.Prelude.{ℕ, String}

pub data Exception : Type 0 where
  value_error : String → Exception
  key_error : String → Exception
  zero_division invalid_operation index_error overflow_error : Exception
  ambiguous_local_time : String → Exception
  -- ingest: `RateLimited.retry_after` in microseconds, then the classes under `EntsoeError`
  rate_limited : ℕ → Exception
  entsoe_no_data entsoe_auth_error entsoe_rejected : String → String → ℕ → Exception
  entsoe_unavailable : Exception
  rte_auth_error rte_no_application rte_unavailable : String → Exception
  rte_error : ℕ → Exception
  -- lake and quality: the reason that the query engine gives
  bronze_load_failed gap_query_failed audit_failed query_failed : String → Exception
  -- the stream: messages still queued, and messages refused
  delivery_failed : ℕ → ℕ → Exception
  -- scripts/dbt_teardown.py
  refused_schema drop_failed : String → Exception
  -- dags/: what fails a task, what skips it, and the answer of the lambda
  airflow_failure airflow_skip runtime_error : String → Exception
