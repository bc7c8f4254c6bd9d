-- ===== src/Handlers/Retry.antt =====
-- The ingest handler, run again for the same firing.
use gridlens.Prelude.{
  ℕ, ◌≡◌, ◌≤◌, ◌<◌, refl, sym, ap, ◌∙◌, inl, inr, String, Bool, true, false, Option, some, [], map,
  ok, >>=-eq-ok, ok-injective, Result-cases, All, All-map, str_eq, leb, ltb, ◌&&◌, arith,
}
use gridlens.Prelude.Int.{pos}
use gridlens.Timeaxis.{Zone, settlement_day}
use gridlens.Contracts.Records.{Moment, aware, GenerationRecord}
use gridlens.Contracts.Gate.{GateResult, apply_gate}
use gridlens.Contracts.Gate.Provenance.{InWindow, FromDocument, apply_gate-FromDocument}
use gridlens.Contracts.Quarantine.{quarantine_write}
use gridlens.Ingest.Document.{Document}
use gridlens.Ingest.Xml.{Readers}
use gridlens.Ingest.Parse.{parse_generation}
use gridlens.Lake.Bronze.{Lake, in_window, batch_rows, merge}
use gridlens.Lake.Bronze.Merge.{merge_idempotent}
use gridlens.Lake.Backfill.{parse_known_at}
use gridlens.Lake.Staging.{staged_row, All-staged, staged_row_times}
use gridlens.Handlers.{Event, Outside, Summary, gate_and_quarantine, load, ingest}
use gridlens.Handlers.Loading.{load_table}

-- `known_at` of an event that names it does not depend on when the answer came.
parse_known_at_given :
    (read_moment : String → Option Moment) (value : String) (now later : ℕ)
    → str_eq value "" ≡ false
    → parse_known_at read_moment value now ≡ parse_known_at read_moment value later
unfolding parse_known_at
parse_known_at_given read_moment value now later h = rw h refl

-- What the gate was given, where the steps before the staging have not raised.
gate_parts :
    (readers : Readers) (is_alnum : ℕ → Bool) (out : Outside) (body known_at : String)
    (fetched_at : ℕ) (g : GateResult) (q : ℕ)
    → gate_and_quarantine readers is_alnum out body fetched_at known_at ≡ ok (g, q)
    → (k : ℕ) × (d : Document) × (parse_known_at readers.read_moment known_at fetched_at ≡ ok k)
      × (parse_generation readers body ≡ ok d)
      × (apply_gate d (aware k (pos 0)) ≡ ok g)
unfolding gate_and_quarantine
gate_parts readers is_alnum out body known_at fetched_at g q h =
    let (k, learned, h1) = >>=-eq-ok (parse_known_at readers.read_moment known_at fetched_at) _ h in
    let (u, _, h2) = >>=-eq-ok out.put_raw _ h1 in
    let (d, parsed, h3) = >>=-eq-ok (parse_generation readers body) _ h2 in
    let (g', gated, h4) = >>=-eq-ok (apply_gate d (aware k (pos 0))) _ h3 in
    let (q', _, h5) =
      >>=-eq-ok (quarantine_write out.put_quarantine out.refused_key g'.violations k) _ h4 in
    let e : g' ≡ g = ap (λ p. p.0) (ok-injective h5) in (k, d, learned, parsed, gated ∙ ap ok e)

aware_injective : {a b : ℕ} → aware a (pos 0) ≡ aware b (pos 0) → a ≡ b
aware_injective h = cc h

in_bounds : (start end t : ℕ) → start ≤ t → t < end → leb start t && ltb t end ≡ true
in_bounds start end t a b = ground arith

-- A run that returns a summary for a body has gated it and loaded what the gate let through.
ingest_parts :
    (readers : Readers) (is_alnum : ℕ → Bool) (out : Outside) (zone_tz : Zone) (day : ℕ)
    (event : Event) (start end : ℕ) (body : String) (fetched_at : ℕ) (lake lake' : Lake)
    (s : Summary)
    → settlement_day day zone_tz ≡ ok (start, end)
    → out.fetched ≡ ok (body, fetched_at)
    → ingest readers is_alnum out zone_tz day event lake ≡ some (ok s, lake')
    → (g : GateResult) × (q : ℕ) × (gate_and_quarantine readers is_alnum out body fetched_at
          event.known_at
        ≡ ok (g, q))
      × (load readers is_alnum out start end g q lake ≡ some (ok s, lake'))
unfolding ingest
ingest_parts readers is_alnum out zone_tz day event start end body fetched_at lake lake' s bounds
      answered h =
    let h' = rw (answered, ingest) at (rw (bounds, ingest) at h) in
    elim (Result-cases (gate_and_quarantine readers is_alnum out body fetched_at event.known_at)) [
      | inr (e, c) ↦ cc (rw (c, ingest) at h')
      | inl ((g, q), c) ↦ (g, q, c, rw (c, ingest) at h')
    ]

staged_row-FromDocument :
    (d : Document) (k start end : ℕ) (r : GenerationRecord)
    → FromDocument d (aware k (pos 0)) start end r
    → ((staged_row r).known_at ≡ k) × (in_window start end (staged_row r) ≡ true)
staged_row-FromDocument d k start end r f =
    let (known, valid) = staged_row_times r in
    let e : r.known_at ≡ k = aware_injective (sym f.learned) in
    (known ∙ e, rw valid (in_bounds start end r.valid_time f.after f.before))

-- The ingest handler, run twice for the same event and the same body under new batch ids, where the
-- event names its `known_at`, every observation of the document lies in the day's window, and both
-- runs return a summary: the second run leaves the table as the first run left it.
pub ingest_retry :
    (readers : Readers) (is_alnum : ℕ → Bool) (first later : Outside) (zone_tz : Zone) (day : ℕ)
    (event : Event) (start end : ℕ) (body : String) (d : Document) (fetched_at again_at : ℕ)
    (lake lake1 lake2 : Lake) (s1 s2 : Summary)
    → settlement_day day zone_tz ≡ ok (start, end)
    → str_eq event.known_at "" ≡ false
    → parse_generation readers body ≡ ok d
    → All (InWindow start end) d.series
    → first.fetched ≡ ok (body, fetched_at)
    → later.fetched ≡ ok (body, again_at)
    → batch_rows first.batch_id lake.staging ≡ []
    → batch_rows later.batch_id lake1.staging ≡ []
    → ingest readers is_alnum first zone_tz day event lake ≡ some (ok s1, lake1)
    → ingest readers is_alnum later zone_tz day event lake1 ≡ some (ok s2, lake2)
    → lake2.table ≡ lake1.table
ingest_retry readers is_alnum first later zone_tz day event start end body d fetched_at again_at
      lake lake1 lake2 s1 s2 bounds named parsed within answered1 answered2 new1 new2 run1 run2 =
    let (g, q, gated1, loaded1) =
      ingest_parts readers is_alnum first zone_tz day event start end body fetched_at lake lake1 s1
        bounds answered1 run1 in
    let (g', q', gated2, loaded2) =
      ingest_parts readers is_alnum later zone_tz day event start end body again_at lake1 lake2 s2
        bounds answered2 run2 in
    let (k, d1, learned1, parsed1, kept1) =
      gate_parts readers is_alnum first body event.known_at fetched_at g q gated1 in
    let (k', d2, learned2, parsed2, kept2) =
      gate_parts readers is_alnum later body event.known_at again_at g' q' gated2 in
    let same_k : k' ≡ k = ok-injective (
      sym learned2
      ∙ sym (parse_known_at_given readers.read_moment event.known_at fetched_at again_at named)
      ∙ learned1) in
    let same_d1 : d1 ≡ d = ok-injective (sym parsed1 ∙ parsed) in
    let same_d2 : d2 ≡ d = ok-injective (sym parsed2 ∙ parsed) in
    let gate1 : apply_gate d (aware k (pos 0)) ≡ ok g = rw same_d1 at kept1 in
    let gate2 : apply_gate d (aware k (pos 0)) ≡ ok g' = rw same_k at (rw same_d2 at kept2) in
    let same_g : g' ≡ g = ok-injective (sym gate2 ∙ gate1) in
    let table1 = load_table readers is_alnum first start end g q lake lake1 s1 new1 loaded1 in
    let table2 = load_table readers is_alnum later start end g' q' lake1 lake2 s2 new2 loaded2 in
    let from = apply_gate-FromDocument d (aware k (pos 0)) start end g within gate1 in
    let known : All (λ r. r.known_at ≡ k) (map staged_row g.records) =
      All-staged _ g.records
        (All-map _ _ g.records (λ r f. (staged_row-FromDocument d k start end r f).0) from) in
    let inside : All (λ r. in_window start end r ≡ true) (map staged_row g.records) =
      All-staged _ g.records
        (All-map _ _ g.records (λ r f. (staged_row-FromDocument d k start end r f).1) from) in
    rw same_g at table2
    ∙ ap (λ t. merge start end (map staged_row g.records) t) table1
    ∙ merge_idempotent start end k (map staged_row g.records) lake.table known inside
    ∙ sym table1
