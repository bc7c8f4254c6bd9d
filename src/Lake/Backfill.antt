-- ===== src/Lake/Backfill.antt =====
-- src/gridlens/lake/backfill.py: the range of days, and the loop that fetches, gates, stages and
-- merges them. The client, the staging area and the merge are what a day is handed; their results
-- are one `Outcome` for each day, in the model of the loop.
pub mod Window
use gridlens.Prelude.{
  ℕ, zero, suc, ◌+◌, ◌-◌, String, Bool, true, false, not, Option, none, some, List, [], ◌∷◌, ◌++◌,
  Result, ok, err, ◌>>=◌, ◌>>◌, raise_if, length, ltb, leb, ◌==◌, str_eq, if◌then◌else◌,
}
use gridlens.Prelude.Int.{ℤ, pos, eqb_ℤ}
use gridlens.Exceptions.{Exception, value_error, entsoe_no_data}
use gridlens.Timeaxis.{Zone, settlement_day, sub_offset}
use gridlens.Contracts.Records.{Moment, naive, aware, GenerationRecord}
use gridlens.Contracts.Gate.{GateResult, apply_gate}
use gridlens.Ingest.Xml.{Readers}
use gridlens.Ingest.Parse.{parse_generation}
use gridlens.Lake.Bronze.{Stats, require_utc}

abbrev pub max_days : ℕ
max_days = 31

-- `days`: every date from start to end inclusive; the loop's rounds are fuel.
unfoldable pub days_from : ℕ → ℕ → ℕ → List ℕ
days_from zero current end = []
days_from (suc fuel) current end =
    let rest = days_from fuel (current + 1) end in if leb current end then current ∷ rest else []

unfoldable pub days : ℕ → ℕ → List ℕ
unfolding days_from
days start end = days_from (end + 1 - start) start end

-- The summary that `backfill` returns.
pub record Summary : Type 0 where
  pub days_merged : ℕ
  pub days_empty : List ℕ
  pub rows : ℕ
  pub scanned_bytes : ℕ

abbrev pub no_summary : Summary
no_summary = record { days_merged = 0; days_empty = []; rows = 0; scanned_bytes = 0 }

-- What the loop calls, over a state of the outside world: the client's body for a window, the batch
-- that the staging area writes and its count, and the merge of a batch over a window.
pub record Services (World : Type 0) : Type 0 where
  pub fetch : ℕ → ℕ → World → Result Exception String × World
  pub write : List GenerationRecord → World → Result Exception (String × ℕ) × World
  pub merge : String → ℕ → ℕ → World → Result Exception Stats × World

module _ {World : Type 0} (readers : Readers) (services : Services World) (zone_tz : Zone)
    (known_at : Moment) where
  -- staging and merging the records of a day
  pub load_day : ℕ → ℕ → ℕ → GateResult → Summary → World → Result Exception Summary × World
  load_day day start end result summary w =
      let (written, w') = services.write result.records w in
      elim written [
        | err e ↦ (err e, w')
        | ok (batch, staged) ↦
            let (merged, w'') = services.merge batch start end w' in
            if staged == 0
            then (ok (record summary { days_empty = summary.days_empty ++ day ∷ [] }), w')
            else elim merged [
              | err e ↦ (err e, w'')
              | ok stats ↦ (
                ok (record summary {
                  rows = summary.rows + staged;
                  days_merged = summary.days_merged + 1;
                  scanned_bytes = summary.scanned_bytes + stats.scanned_bytes;
                }),
                w'',
              )
            ]
      ]

  -- the body of the response
  pub gate_body : String → Result Exception GateResult
  gate_body body = do document ← parse_generation readers body; apply_gate document known_at

  -- one round of the loop
  unfoldable pub backfill_day : Summary → ℕ → World → Result Exception Summary × World
  backfill_day summary day w = elim (settlement_day day zone_tz) [
    | err e ↦ (err e, w)
    | ok (start, end) ↦
        let (fetched, w') = services.fetch start end w in
        elim fetched [
          | err e ↦ elim e [
            | entsoe_no_data code text status ↦
                (ok (record summary { days_empty = summary.days_empty ++ day ∷ [] }), w')
            | other ↦ (err other, w')
          ]
          | ok body ↦ elim (gate_body body) [
            | err e ↦ (err e, w')
            | ok result ↦ load_day day start end result summary w'
          ]
        ]
  ]

  unfoldable pub backfill_days : Summary → List ℕ → World → Result Exception Summary × World
  backfill_days summary [] w = (ok summary, w)
  backfill_days summary (day ∷ rest) w =
      let (done, w') = backfill_day summary day w in
      elim done [ err e ↦ (err e, w') | ok summary' ↦ backfill_days summary' rest w' ]

  -- the guards of `backfill`
  unfoldable pub check_range : ℕ → ℕ → Result Exception (Unit {0})
  check_range start end = do
    raise_if (ltb end start) (value_error "end is before start")
    raise_if (ltb max_days (end - start + 1)) (value_error "more than the 31 day limit")
    (do u ← require_utc "known_at must be utc aware" known_at; ok tt)

  unfoldable pub backfill : ℕ → ℕ → World → Result Exception Summary × World
  backfill start end w = elim (check_range start end) [
    | err e ↦ (err e, w)
    | ok _ ↦ backfill_days no_summary (days start end) w
  ]

-- `parse_known_at`: the event's text, or `now` where it is empty. The reader is `datetime.fromisoformat`
-- of the text with its `Z` written out.
unfoldable pub parse_known_at : (String → Option Moment) → String → ℕ → Result Exception ℕ
parse_known_at read_moment value now =
    if str_eq value "" then ok now else elim (read_moment value) [
      | none ↦ err (value_error "invalid isoformat string")
      | some m ↦ elim m [
        | naive reading ↦ err (value_error "known_at has no offset")
        | aware reading offset ↦ ok (sub_offset reading offset)
      ]
    ]
