-- ===== src/Lib.antt =====
-- Grid data from ENTSO-E, from the answer of the platform to the bronze table: the parts of
-- src/gridlens that decide what is kept, with the DAGs and the scripts around them, modelled and proved.
--
-- The parts. The client (`Ingest`) fetches a document over HTTP, under a rate limit (`RateLimit`),
-- and retries what is worth retrying. The parser turns the document into series with a UTC time on
-- every point, by the settlement-day rules of `Timeaxis`. The gate (`Contracts`) splits a document
-- into records that the contract accepts, violations and gaps. The lake (`Lake`) stages records and
-- merges them into the bronze table, one settlement day at a time in a backfill. The audit
-- (`Quality`) compares a rebuilt table with production. The stream (`Stream`) publishes what the gate
-- makes of the day in play. The handlers (`Handlers`) compose these for one event, the DAGs (`Dags`)
-- decide when to ask for more, and the scripts (`Scripts`) look after tables, schemas and archives.
--
-- Which file models which code:
--   Timeaxis, Timeaxis/Duration          src/gridlens/timeaxis.py, function by function; the pattern
--                                        of `parse_resolution` is a matcher over code points
--   RateLimit                            src/gridlens/ingest/ratelimit.py, `TokenBucket`
--   Contracts/Reference, Records, Gate   src/gridlens/contracts/reference.py, records.py, gate.py
--   Ingest/Document, Xml, Parse          src/gridlens/ingest/entsoe_parse.py
--   Ingest/Client                        src/gridlens/ingest/entsoe.py: `fetch`, `_interpret`,
--                                        `_backoff`, `_retry_after`; Client/Reason is `_reason`
--   Ingest/Rte, Ingest/RteParse          src/gridlens/ingest/rte.py, rte_parse.py
--   Lake/Query, Bronze, Backfill         src/gridlens/lake/bronze.py, backfill.py; the query loop is
--                                        the same in lake/gaps.py and quality/
--   Quality/Restatement                  src/gridlens/quality/restatement.py
--   Lake/Gaps                            src/gridlens/lake/gaps.py: what MISSING_DAYS selects from a
--                                        table, and `missing_settlement_days`
--   Stream, Stream/Wire                  src/gridlens/stream/producer.py (`poll_once`), topics.py
--                                        (`ensure`), serialization.py (`encode`, `decode`)
--   Contracts/Quarantine                 src/gridlens/contracts/quarantine.py, both sinks
--   Lake/Staging                         src/gridlens/lake/staging.py; a staged line is the row that
--                                        its texts are cast to
--   Ingest/Client/Request, Ingest/Redaction
--                                        src/gridlens/ingest/entsoe.py (`format_period`), redaction.py
--   Quality/Restatement/Manifest         the query for the newest run
--   Quality/Restatement/Window           the window, schema and dbt command of the same file
--   Quality/Bronze                       src/gridlens/quality/bronze.py, `fetch` to `run`
--   Quality/Bronze/Suites                the frames that its suites validate
--   Quality/Queries                      src/gridlens/quality/queries.py: INVARIANTS and COMPLETENESS
--                                        as functions of the table's rows
--   Stream/Service, Stream/Startup       `to_avro`, `key` and `register`, and `run`: what it does
--                                        first, and its loop
--   Stream/Figures                       the message of a record against its staged row
--   Lake/Bronze/Order, Exchange, Bag     the MERGE on tables up to the order of their rows
--   Handlers                             src/gridlens/handlers/ingest_entsoe.py, backfill_entsoe.py
--   Dags                                 dags/: the bodies of the tasks
--   Dags/Audit                           a run of dags/restatement_audit.py, task after task
--   Dags/Refetch                         from the table's gaps to the days that the lambda is asked for
--   Scripts/Teardown, TableStats         scripts/dbt_teardown.py, table_stats.py
--   Scripts/Athena, Bundle               scripts/athena.py; build_lambda.py, dev_env.py
--   Scripts/Style, Commit                scripts/check_style.py; its patterns are matchers over code
--                                        points
--   Ingest/Sample                        a document that several tests parse
--   Exceptions                           the exceptions of these modules, as values
--   Prelude                              lists, integers and results that the parts share
--
-- How the code corresponds. An instant is a number of microseconds from the year 1 in UTC, a wall
-- clock reading the same count on the local clock, a duration a number of microseconds. A quantity
-- is a decimal: sign, digits and exponent. What raises returns a `Result`; a message keeps its
-- fixed words. The state that a method changes is an argument and a result. A while loop runs on
-- fuel: the query loop's theorem says that any fuel beyond the first terminal answer is enough, and
-- `days` is given one round for each day of the range. The grid of an RTE window runs out of fuel
-- where the source's loop has no end, at a resolution of zero; at a negative one it ends in an
-- overflow of the date, which is modelled as that exception. The retry loop is
-- bounded in the source, by `max_attempts`.
--
-- What is a parameter: a time zone's offsets, the decimal digits and the readers of numbers, times
-- and XML of the standard library, the network's answers and its clock, the jitter, and the query
-- engine's answers.
--
-- What is not modelled: the text of messages and of the SQL statements that only copy or list rows, avro and JSON, logging, the waiting
-- itself, environment variables and secrets, the scheduling of Airflow, what great_expectations makes
-- of a frame, and the calls of other programs in the scripts (uv, git, zip).
pub mod Prelude
pub mod Exceptions
pub mod Timeaxis
pub mod RateLimit
pub mod Contracts
pub mod Ingest
pub mod Lake
pub mod Quality
pub mod Stream
pub mod Scripts
pub mod Handlers
pub mod Dags
