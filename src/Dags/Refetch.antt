-- ===== src/Dags/Refetch.antt =====
-- bronze_backfill.py from the table to the lambda: the days that `find_gaps` finds are those that
-- `backfill` is asked to fetch.
use gridlens.Prelude.{
  ℕ, ◌+◌, ◌-◌, ◌%◌, ◌≤◌, ◌<◌, ◌≡◌, refl, ap, inl, inr, String, true, false, Option, some, List, [],
  ◌∷◌, map, ok, All, All-map, All-keep, Bool, ◌∙◌, if◌then◌else◌, Bool-cases, arith, leb,
}
use gridlens.Prelude.Int.{ℤ, pos}
use gridlens.Timeaxis.{Zone, second_us}
use gridlens.Timeaxis.Duration.{codes}
use gridlens.Contracts.Records.{aware}
use gridlens.Ingest.Xml.{Readers}
use gridlens.Ingest.Parse.{range}
use gridlens.Lake.Query.{Execution}
use gridlens.Lake.Query.Polling.{FirstTerminal}
use gridlens.Lake.Bronze.{Row, require_utc}
use gridlens.Lake.Backfill.{Services, check_range}
use gridlens.Lake.Gaps.{missing_days}
use gridlens.Lake.Gaps.Exact.{
  WithinDay, days_without_rows, range-Between, missing_settlement_days-exact,
}
use gridlens.Handlers.{window}
use gridlens.Scripts.TableStats.{codes_leb}
use gridlens.Dags.{
  gap_window, find_gaps, less_text, greater_text, span_of_gaps, BackfillPayload, backfill_payload,
  payload_event,
}

module _ (iso : ℕ → String)
    (ordered : (a b : ℕ) → codes_leb (codes (iso a)) (codes (iso b)) ≡ leb a b) where
  less_text-iso : (a b : ℕ) → less_text (iso a) (iso b) ≡ iso (if leb a b then a else b)
  less_text-iso a b = elim (Bool-cases (leb a b)) [
    | inl y ↦ rw (ordered a b, y) refl
    | inr n ↦ rw (ordered a b, n) refl
  ]

  greater_text-iso : (a b : ℕ) → greater_text (iso a) (iso b) ≡ iso (if leb a b then b else a)
  greater_text-iso a b = elim (Bool-cases (leb a b)) [
    | inl y ↦ rw (ordered a b, y) refl
    | inr n ↦ rw (ordered a b, n) refl
  ]

  span_step :
      (low high d : ℕ) (days : List ℕ)
      → span_of_gaps (iso low) (iso high) (map iso (d ∷ days))
        ≡ span_of_gaps
            (iso (if leb low d then low else d))
            (iso (if leb high d then d else high))
            (map iso days)
  unfolding span_of_gaps
  span_step low high d days =
      ap (λ l. span_of_gaps l (greater_text (iso high) (iso d)) (map iso days))
        (less_text-iso low d)
      ∙ ap (λ h. span_of_gaps (iso (if leb low d then low else d)) h (map iso days))
          (greater_text-iso high d)

  either_holds : (P : ℕ → Type 0) (b : Bool) (x y : ℕ) → P x → P y → P (if b then x else y)
  either_holds P true x y p q = p
  either_holds P false x y p q = q

  -- The least and the greatest of printed dates are those of dates, and dates among them.
  span-Covers :
      (P : ℕ → Type 0) (low high : ℕ) (days : List ℕ)
      → P low
      → P high
      → low ≤ high
      → All P days
      → (a : ℕ) × (b : ℕ) × (span_of_gaps (iso low) (iso high) (map iso days) ≡ (iso a, iso b))
        × ((P a × P b) × (a ≤ low) × (high ≤ b))
        × All (λ d. (a ≤ d) × (d ≤ b)) days
  unfolding span_of_gaps
  span-Covers P low high [] p q le h = (low, high, refl, ((p, q), omega arith, omega arith), tt)
  span-Covers P low high (d ∷ days) p q le h =
      let low' : ℕ = if leb low d then low else d in
      let high' : ℕ = if leb high d then d else high in
      let (a, b, e, ((pa, pb), below, over), rest) =
        span-Covers P low' high' days (either_holds P (leb low d) low d p h.0)
          (either_holds P (leb high d) d high h.0 q) (ground arith) h.1 in
      (
        a,
        b,
        span_step low high d days ∙ e,
        ((pa, pb), ground (arith, below), ground (arith, over)),
        ((ground (arith, below), ground (arith, over)), rest),
      )

days_in_window :
    (zone : Zone) (today : ℕ) (table : List Row)
    → All
        (λ d. ((gap_window today).0 ≤ d) × (d ≤ (gap_window today).1))
        (days_without_rows zone (gap_window today).0 (gap_window today).1 table)
days_in_window zone today table =
    All-keep _ _ (range (gap_window today).0 ((gap_window today).1 + 1 - (gap_window today).0)) (
      All-map _ _ _ (λ d h. (h.0, omega (arith, h.0, h.1)))
        (range-Between (gap_window today).0 ((gap_window today).1 + 1 - (gap_window today).0)))

gap_window-Ordered : (today : ℕ) → (gap_window today).0 ≤ (gap_window today).1
unfolding gap_window
gap_window-Ordered today = omega arith

gap_window-Short : (today : ℕ) → (gap_window today).1 ≤ (gap_window today).0 + 6
unfolding gap_window
gap_window-Short today = omega arith

check_range-ok :
    {World : Type 0} (readers : Readers) (services : Services World) (zone : Zone)
    (learned start end : ℕ)
    → start ≤ end
    → end ≤ start + 6
    → check_range readers services zone (aware learned (pos 0)) start end ≡ ok tt
unfolding check_range require_utc
check_range-ok readers services zone learned start end a b = ground arith

window-span :
    (read_date : String → Option ℕ) (read_int : String → Option ℤ) (iso : ℕ → String) (zone : Zone)
    (known_at : String) (learned start end : ℕ)
    → ((d : ℕ) → read_date (iso d) ≡ some d)
    → window read_date read_int
        (payload_event (record { start_date = iso start; end_date = iso end; known_at = known_at }))
        learned
        zone
      ≡ ok (start, end)
unfolding window
window-span read_date read_int iso zone known_at learned start end back =
    rw (back start, back end) refl

-- What `find_gaps` finds is what `backfill` asks for: in a zone whose reading is less than a day from
-- the instant, with dates that are printed in their order and read back, and a query that succeeds at
-- the n-th answer with the days it selects, where some day of its window has no row: `find_gaps`
-- returns the printed days of its window without a row, and the payload of `backfill` is one that the
-- lambda's handler reads as a range of days which lies in the window, holds each of those days, and is
-- not refused.
pub missing_days-refetched :
    {World : Type 0} (readers : Readers) (services : Services World) (read_date : String → Option ℕ)
    (read_int : String → Option ℤ) (iso iso_time : ℕ → String) (zone : Zone) (table : List Row)
    (answers : ℕ → Execution) (header : List String) (fuel n run_after today learned g : ℕ)
    (rest : List ℕ)
    → ((d : ℕ) → read_date (iso d) ≡ some d)
    → ((a b : ℕ) → codes_leb (codes (iso a)) (codes (iso b)) ≡ leb a b)
    → WithinDay zone
    → FirstTerminal answers 0 n
    → (answers n).state ≡ "SUCCEEDED"
    → n < fuel
    → days_without_rows zone (gap_window today).0 (gap_window today).1 table ≡ g ∷ rest
    → (find_gaps read_date iso answers
          (header
            ∷ map
                (λ d. iso d ∷ [])
                (missing_days zone (gap_window today).0 (gap_window today).1 table))
          fuel
          today
        ≡ some (ok (map iso (g ∷ rest))))
      × (payload : BackfillPayload) × (start : ℕ) × (end : ℕ) × (backfill_payload iso_time run_after
            (map iso (g ∷ rest))
          ≡ ok payload)
      × (window read_date read_int (payload_event payload) learned zone ≡ ok (start, end))
      × (check_range readers services zone (aware learned (pos 0)) start end ≡ ok tt)
      × ((gap_window today).0 ≤ start)
      × (end ≤ (gap_window today).1)
      × All (λ d. (start ≤ d) × (d ≤ end)) (g ∷ rest)
unfolding find_gaps backfill_payload
missing_days-refetched readers services read_date read_int iso iso_time zone table answers header
      fuel n run_after today learned g rest back ordered near f s h gaps =
    let exact =
      missing_settlement_days-exact read_date iso zone table answers header fuel n
        (gap_window today).0 (gap_window today).1 back near f s h (gap_window-Ordered today) in
    let inside = rw gaps at (days_in_window zone today table) in
    let (start, end, e, (((low, _), (_, high)), below, over), covered) =
      span-Covers iso ordered (λ d. ((gap_window today).0 ≤ d) × (d ≤ (gap_window today).1)) g g
        rest inside.0 inside.0 (omega arith) inside.1 in
    (
      rw (exact, gaps, find_gaps) refl,
      record {
        start_date = iso start;
        end_date = iso end;
        known_at = iso_time (run_after - run_after % second_us);
      },
      start,
      end,
      rw (e, backfill_payload) refl,
      window-span read_date read_int iso zone _ learned start end back,
      check_range-ok readers services zone learned start end (omega (arith, below, over))
          (omega (arith, low, high, gap_window-Short today)),
      low,
      high,
      ((below, over), covered),
    )
