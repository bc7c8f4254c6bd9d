-- ===== src/Handlers.antt =====
-- src/gridlens/handlers/: what the Lambda handlers do with an event. The environment's settings, the
-- clock, the client's answer and the answers of the stores and of the engine are parameters; the token
-- and the logging are left out.
mod Tests
pub mod Loading
pub mod Retry
use gridlens.Prelude.{
  ℕ, ◌+◌, ◌-◌, ◌*◌, ◌/◌, String, ◌<>◌, Bool, true, false, Option, none, some, List, [], ◌∷◌, Result,
  ok, err, ◌>>=◌, ◌>>◌, raise_if, or_raise, length, ltb, ◌==◌, str_eq, if◌then◌else◌,
}
use gridlens.Prelude.Int.{ℤ, pos, pos_part, ltb_ℤ}
use gridlens.Exceptions.{Exception, value_error, entsoe_no_data}
use gridlens.Timeaxis.{Zone, settlement_day, day_us, local_date}
use gridlens.Contracts.Records.{Moment, aware, GenerationRecord}
use gridlens.Contracts.Gate.{GateResult, apply_gate, accepted}
use gridlens.Contracts.Quarantine.{Object, quarantine_write}
use gridlens.Ingest.Xml.{Readers}
use gridlens.Ingest.Parse.{parse_generation}
use gridlens.Lake.Query.{Execution}
use gridlens.Lake.Bronze.{Lake, Stats, merge_batch}
use gridlens.Lake.Backfill.{Services, Summary as BackfillSummary, parse_known_at, backfill}
use gridlens.Lake.Staging.{write}

-- The fields of an event that the handlers read.
pub record Event : Type 0 where
  pub valid_date : Option String
  pub known_at : String
  pub start_date : Option String
  pub end_date : Option String
  pub refetch_days : Option String

-- `_target_day` of ingest_entsoe.py; `now` less the lookback is an instant in the zone's wall time.
unfoldable pub target_day : (String → Option ℕ) → Zone → ℕ → ℕ → Event → Result Exception ℕ
target_day read_date zone_tz lookback now event = elim event.valid_date [
  | none ↦ ok ((zone_tz.fromutc now - lookback * day_us) / day_us)
  | some asked ↦
      if str_eq asked ""
      then ok ((zone_tz.fromutc now - lookback * day_us) / day_us)
      else or_raise (read_date asked) (value_error "invalid isoformat string")
]

-- The days counted back from the one before yesterday.
unfoldable pub refetch_window : ℕ → ℤ → Result Exception (ℕ × ℕ)
refetch_window today count = do
  raise_if (ltb_ℤ count (pos 1)) (value_error "refetch_days has to be at least 1")
  ok (today - 2 - (pos_part count - 1), today - 2)

-- `window` of backfill_entsoe.py
unfoldable pub window :
    (String → Option ℕ) → (String → Option ℤ) → Event → ℕ → Zone → Result Exception (ℕ × ℕ)
window read_date read_int event known_at zone_tz = elim event.start_date [
  | some first ↦ elim event.end_date [
    | some last ↦ do
      start ← or_raise (read_date first) (value_error "invalid isoformat string")
      end ← or_raise (read_date last) (value_error "invalid isoformat string")
      ok (start, end)
    | none ↦ counted
  ]
  | none ↦ counted
]
  where
    counted : Result Exception (ℕ × ℕ)
    counted = elim event.refetch_days [
      | none ↦ err (value_error "pass start_date and end_date, or refetch_days")
      | some text ↦ do
        count ← or_raise (read_int text) (value_error "invalid literal for int()")
        refetch_window (local_date zone_tz known_at) count
    ]

-- How the outside answers one call of the ingest handler.
pub record Outside : Type 0 where
  pub fetched : Result Exception (String × ℕ)
  pub put_raw : Result Exception (Unit {0})
  pub put_quarantine : Object → Result Exception (Unit {0})
  pub refused_key : String
  pub put_batch : Result Exception (Unit {0})
  pub batch_id : String
  pub answers : ℕ → Execution
  pub fuel : ℕ

pub data Summary : Type 0 where
  no_data : Summary
  loaded : ℕ → ℕ → ℕ → String → ℕ → ℕ → Summary

module _ (readers : Readers) (is_alnum : ℕ → Bool) where
  -- From the body to the gate's result and the count of quarantined violations.
  pub gate_and_quarantine : Outside → String → ℕ → String → Result Exception (GateResult × ℕ)
  gate_and_quarantine out body fetched_at known_at = do
    learned ← parse_known_at readers.read_moment known_at fetched_at
    u ← out.put_raw
    document ← parse_generation readers body
    result ← apply_gate document (aware learned (pos 0))
    quarantined ← quarantine_write out.put_quarantine out.refused_key result.violations learned
    ok (result, quarantined)

  -- the summary of what was merged
  pub merged :
      (ℕ → Summary)
      → Option (Result Exception Stats × Lake)
      → Option (Result Exception Summary × Lake)
  merged summary none = none
  merged summary (some (err e, lake)) = some (err e, lake)
  merged summary (some (ok stats, lake)) = some (ok (summary stats.scanned_bytes), lake)

  -- Merging what was staged, if anything, and the summary.
  pub load_staged :
      Outside
      → ℕ
      → ℕ
      → GateResult
      → ℕ
      → Result Exception (String × ℕ)
      → Lake
      → Option (Result Exception Summary × Lake)
  load_staged out start end result quarantined (err e) lake = some (err e, lake)
  load_staged out start end result quarantined (ok (batch, staged)) lake =
      let summary : ℕ → Summary =
        λ scanned. loaded (accepted result) quarantined (length result.gaps) batch staged scanned in
      if staged == 0
      then some (ok (summary 0), lake)
      else merged summary (
          merge_batch is_alnum out.answers out.fuel batch (aware start (pos 0)) (aware end (pos 0))
            lake)

  -- Staging and merging the records; `none`: the engine gave no terminal state.
  pub load : Outside → ℕ → ℕ → GateResult → ℕ → Lake → Option (Result Exception Summary × Lake)
  load out start end result quarantined lake =
      let (written, lake') = write out.batch_id out.put_batch result.records lake in
      load_staged out start end result quarantined written lake'

  -- `handler` of ingest_entsoe.py, from the day on
  pub ingest : Outside → Zone → ℕ → Event → Lake → Option (Result Exception Summary × Lake)
  ingest out zone_tz day event lake = elim (settlement_day day zone_tz) [
    | err e ↦ some (err e, lake)
    | ok (start, end) ↦ elim out.fetched [
      | err e ↦ elim e [
        | entsoe_no_data code text status ↦ some (ok no_data, lake)
        | other ↦ some (err other, lake)
      ]
      | ok (body, fetched_at) ↦ elim (gate_and_quarantine out body fetched_at event.known_at) [
        | err e ↦ some (err e, lake)
        | ok (result, quarantined) ↦ load out start end result quarantined lake
      ]
    ]
  ]

  -- `handler` of ingest_entsoe.py: the day, and what follows it.
  pub ingest_handler :
      (String → Option ℕ)
      → Outside
      → Zone
      → ℕ
      → ℕ
      → Event
      → Lake
      → Option (Result Exception Summary × Lake)
  ingest_handler read_date out zone_tz lookback now event lake =
      elim (target_day read_date zone_tz lookback now event) [
        | err e ↦ some (err e, lake)
        | ok day ↦ ingest out zone_tz day event lake
      ]

  -- what `handler` of backfill_entsoe.py hands to `backfill`
  unfoldable pub backfill_arguments :
      (String → Option ℕ) → (String → Option ℤ) → Zone → ℕ → Event → Result Exception (ℕ × ℕ × ℕ)
  backfill_arguments read_date read_int zone_tz now event = do
    learned ← parse_known_at readers.read_moment event.known_at now
    days ← window read_date read_int event learned zone_tz
    ok (learned, days.0, days.1)

  -- `handler` of backfill_entsoe.py
  unfoldable pub backfill_handler :
      {World : Type 0}
      → (String → Option ℕ)
      → (String → Option ℤ)
      → Services World
      → Zone
      → ℕ
      → Event
      → World
      → Result Exception BackfillSummary × World
  backfill_handler read_date read_int services zone_tz now event w =
      elim (backfill_arguments read_date read_int zone_tz now event) [
        | err e ↦ (err e, w)
        | ok (learned, start, end) ↦
            backfill readers services zone_tz (aware learned (pos 0)) start end w
      ]
