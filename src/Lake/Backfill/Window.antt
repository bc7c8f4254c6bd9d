-- ===== src/Lake/Backfill/Window.antt =====
-- Which days `backfill` visits, and that its summary accounts for each.
use gridlens.Prelude.{
  ℕ, zero, suc, ◌+◌, ◌-◌, ◌≤◌, ◌≡◌, refl, ap, ◌∙◌, inl, inr, true, List, [], ◌∷◌, ok, length,
  length-append, leb, Result-cases, arith,
}
use gridlens.Timeaxis.{Zone, settlement_day}
use gridlens.Contracts.Records.{Moment}
use gridlens.Contracts.Gate.{GateResult}
use gridlens.Ingest.Xml.{Readers}
use gridlens.Ingest.Parse.{range}
use gridlens.Ingest.Parse.Counting.{length-range}
use gridlens.Lake.Backfill.{
  days_from, days, Summary, no_summary, Services, gate_body, load_day, backfill_day, backfill_days,
  check_range, backfill,
}

days_from-range :
    (n current end : ℕ) → current + n ≡ end + 1 → days_from n current end ≡ range current n
unfolding days_from range
days_from-range zero current end h = refl
days_from-range (suc n) current end h =
    let le : leb current end ≡ true = ground arith in
    let e : current + 1 ≡ suc current = omega arith in
    rw (le, e) (ap (λ r. current ∷ r) (days_from-range n (suc current) end (omega arith)))

-- `days` yields every date from the first to the last, each once and in order.
pub days-range : (start end : ℕ) → start ≤ end → days start end ≡ range start (end + 1 - start)
unfolding days
days-range start end h = days_from-range (end + 1 - start) start end (omega arith)

abbrev counted : Summary → ℕ
counted s = s.days_merged + length s.days_empty

module _ {World : Type 0} (readers : Readers) (services : Services World) (zone_tz : Zone)
    (known_at : Moment) where
  load_day_counts :
      (day start end : ℕ) (result : GateResult) (s s' : Summary) (w w' : World)
      → load_day readers services zone_tz known_at day start end result s w ≡ (ok s', w')
      → counted s' ≡ counted s + 1
  unfolding load_day
  load_day_counts day start end result s s' w w' h =
      ground (arith, length-append {0} s.days_empty (day ∷ []))

  backfill_day_counts :
      (s s' : Summary) (day : ℕ) (w w' : World)
      → backfill_day readers services zone_tz known_at s day w ≡ (ok s', w')
      → counted s' ≡ counted s + 1
  unfolding backfill_day
  backfill_day_counts s s' day w w' h = elim (Result-cases (settlement_day day zone_tz)) [
    | inr (e, p) ↦ absurd (ground arith)
    | inl ((a, b), p) ↦ elim (Result-cases (services.fetch a b w).0) [
      | inr (e, q) ↦ ground (arith, length-append {0} s.days_empty (day ∷ []))
      | inl (body, q) ↦ elim (Result-cases (gate_body readers services zone_tz known_at body)) [
        | inr (e, r) ↦ absurd (ground arith)
        | inl (g, r) ↦ ground (arith, load_day_counts day a b g s s' (services.fetch a b w).1 w')
      ]
    ]
  ]

  backfill_days_count :
      (days : List ℕ) (s s' : Summary) (w w' : World)
      → backfill_days readers services zone_tz known_at s days w ≡ (ok s', w')
      → counted s' ≡ counted s + length days
  unfolding backfill_days
  backfill_days_count [] s s' w w' h = ground arith
  backfill_days_count (day ∷ rest) s s' w w' h =
      let (r, w1) = backfill_day readers services zone_tz known_at s day w in
      elim (Result-cases (backfill_day readers services zone_tz known_at s day w).0) [
        | inr (e, p) ↦ absurd (ground arith)
        | inl (s1, p) ↦
            let one : counted s1 ≡ counted s + 1 =
              backfill_day_counts s s1 day w
                (backfill_day readers services zone_tz known_at s day w).1 (ground arith) in
            let more : counted s' ≡ counted s1 + length rest =
              backfill_days_count rest s1 s'
                (backfill_day readers services zone_tz known_at s day w).1 w' (ground arith) in
            omega arith
      ]

check_range_bounds :
    {World : Type 0} (readers : Readers) (services : Services World) (zone_tz : Zone)
    (known_at : Moment) (start end : ℕ)
    → check_range readers services zone_tz known_at start end ≡ ok tt
    → (start ≤ end) × (end - start + 1 ≤ 31)
unfolding check_range
check_range_bounds readers services zone_tz known_at start end h = (ground arith, ground arith)

-- When `backfill` returns a summary, whatever the client, the staging area and the engine did, the
-- last day was not before the first, the range had at most 31 days, and every day of it is counted
-- once: as merged or among the empty ones.
pub backfill_accounts :
    {World : Type 0} (readers : Readers) (services : Services World) (zone_tz : Zone)
    (known_at : Moment) (start end : ℕ) (s : Summary) (w w' : World)
    → backfill readers services zone_tz known_at start end w ≡ (ok s, w')
    → (start ≤ end)
      × (end - start + 1 ≤ 31)
      × (s.days_merged + length s.days_empty ≡ end - start + 1)
unfolding backfill
backfill_accounts readers services zone_tz known_at start end s w w' h =
    elim (Result-cases (check_range readers services zone_tz known_at start end)) [
      | inr (e, p) ↦ absurd (ground arith)
      | inl (u, p) ↦
          let (le, short) = check_range_bounds readers services zone_tz known_at start end p in
          let counts =
            backfill_days_count readers services zone_tz known_at (days start end) no_summary s w w'
              (rw (p, backfill) at h) in
          let size : length (days start end) ≡ end + 1 - start =
            ap length (days-range start end le) ∙ length-range start (end + 1 - start) in
          (le, short, omega (arith, counts, size))
    ]
