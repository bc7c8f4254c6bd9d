-- ===== src/Stream/Published.antt =====
-- What a poll has published when it returns a summary.
use mathlib.Core.List.{append-nil, append_assoc}
use gridlens.Prelude.{
  ℕ, err, Option, none, some, ◌≡◌, refl, sym, ap, ◌∙◌, inl, inr, List, [], ◌∷◌, ◌++◌, map, ok,
  Result-cases, Bool-cases, ok-injective, ◌+◌, arith, ◌==◌, not, ◌||◌,
}
use gridlens.Exceptions.{Exception, entsoe_no_data}
use gridlens.Timeaxis.{Zone, settlement_day}
use gridlens.Ingest.Xml.{Readers}
use gridlens.Stream.{
  days_to_poll, Message, observation, refusal, Broker, PollSummary, nothing_polled, publish_records,
  publish_refusals, publish, to_second, gate_fetched, unanswered, poll_day, poll_days, poll_once,
}
use gridlens.Stream.Learned.{
  recorded, Learned, OutcomeOf, EachDay, EachDay-append, answered_of, answered_of-append,
  all_messages, all_accepted, all_refused, all_messages-append, all_accepted-append,
  all_refused-append,
}
use gridlens.Stream.Sent.{publish_records-log, publish_refusals-log}

module _ {W : Type 0} (readers : Readers) (broker : Broker W) (zone_tz : Zone) where
  -- What days have published: the log and the counts have grown by what was learned on them.
  record Grown (days : List ℕ) (s s' : PollSummary) (p p' : W × List Message) : Type 0 where
    outcomes : List (Option Learned)
    each : EachDay readers broker zone_tz days outcomes
    log : p'.1 ≡ p.1 ++ all_messages (answered_of outcomes)
    published : s'.published ≡ s.published + all_accepted (answered_of outcomes)
    quarantined : s'.quarantined ≡ s.quarantined + all_refused (answered_of outcomes)

  publish-Grown :
      (day : ℕ) (l : Learned) (s s' : PollSummary) (p p' : W × List Message)
      → OutcomeOf readers broker zone_tz day (some l)
      → publish readers (recorded broker) zone_tz day l.known_at l.gated s p ≡ (ok s', p')
      → Grown (day ∷ []) s s' p p'
  unfolding publish all_messages all_accepted all_refused answered_of
  publish-Grown day l s s' p p' source h =
      let sent = publish_records readers (recorded broker) zone_tz l.gated.records p in
      elim (Result-cases sent.0) [
        | inr (e, c) ↦ cc (ap (λ q. q.0) (rw (c, publish) at h))
        | inl (u, c) ↦
            let h' = rw (c, publish) at h in
            let refused =
              publish_refusals readers (recorded broker) zone_tz l.known_at l.gated.violations
                sent.1 in
            elim (Result-cases refused.0) [
              | inr (e, d) ↦ cc (ap (λ q. q.0) (rw (d, publish) at h'))
              | inl (v, d) ↦
                  let h'' = rw (d, publish) at h' in
                  let log1 =
                    publish_records-log readers broker zone_tz l.gated.records p sent.1
                      (ap (λ r. (r, sent.1)) c) in
                  let log2 =
                    publish_refusals-log readers broker zone_tz l.known_at l.gated.violations sent.1
                      refused.1 (ap (λ r. (r, refused.1)) d) in
                  let done = ok-injective (ap (λ q. q.0) h'') in
                  let same : refused.1 ≡ p' = ap (λ q. q.1) h'' in
                  let records = map observation l.gated.records in
                  let refusals = map (refusal l.known_at) l.gated.violations in
                  record {
                    outcomes = some l ∷ [];
                    each = (source, tt);
                    log =
                        ap (λ q. q.1) (sym same)
                        ∙ log2
                        ∙ ap (λ m. m ++ refusals) log1
                        ∙ append_assoc p.1 records refusals
                        ∙ ap (λ m. p.1 ++ m) (sym (append-nil (records ++ refusals)));
                    published = ap (λ t. t.published) (sym done) ∙ omega arith;
                    quarantined = ap (λ t. t.quarantined) (sym done) ∙ omega arith;
                  }
            ]
      ]

  -- a day without an answer
  Grown-none :
      (days : List ℕ) (outcomes : List (Option Learned)) (s s' : PollSummary)
      (p p' : W × List Message)
      → EachDay readers broker zone_tz days outcomes
      → answered_of outcomes ≡ []
      → s'.published ≡ s.published
      → s'.quarantined ≡ s.quarantined
      → p'.1 ≡ p.1
      → Grown days s s' p p'
  unfolding all_messages all_accepted all_refused
  Grown-none days outcomes s s' p p' each empty a b c = record {
    outcomes = outcomes;
    each = each;
    log = c ∙ rw empty (sym (append-nil p.1));
    published = rw empty (omega (arith, a));
    quarantined = rw empty (omega (arith, b));
  }

  unanswered-Grown :
      (e : Exception) (day : ℕ) (s s' : PollSummary) (p p' q : W × List Message)
      → q.1 ≡ p.1
      → (start end : ℕ) (w : W) → settlement_day day zone_tz ≡ ok (start, end)
      → (broker.fetch start end w).0 ≡ err e
      → unanswered readers (recorded broker) zone_tz s day e q ≡ (ok s', p')
      → Grown (day ∷ []) s s' p p'
  unfolding unanswered answered_of
  unanswered-Grown (entsoe_no_data code text status) day s s' p p' q kept start end w window asked
        h =
      let done = ok-injective (ap (λ r. r.0) h) in
      Grown-none (day ∷ []) (none ∷ []) s s' p p'
        ((start, end, w, code, text, status, window, asked), tt) refl
        (ap (λ t. t.published) (sym done)) (ap (λ t. t.quarantined) (sym done))
        (ap (λ r. r.1.1) (sym h) ∙ kept)
  unanswered-Grown other day s s' p p' q kept start end w window asked h = cc (ap (λ r. r.0) h)

  -- fetching publishes nothing
  after_fetch :
      {days : List ℕ} {s s' : PollSummary} (p p' : W × List Message) (w : W)
      → Grown days s s' (w, p.1) p'
      → Grown days s s' p p'
  after_fetch p p' w g = record {
    outcomes = g.outcomes;
    each = g.each;
    log = g.log;
    published = g.published;
    quarantined = g.quarantined;
  }

  poll_day-Grown :
      (day : ℕ) (s s' : PollSummary) (p p' : W × List Message)
      → poll_day readers (recorded broker) zone_tz s day p ≡ (ok s', p')
      → Grown (day ∷ []) s s' p p'
  unfolding poll_day recorded
  poll_day-Grown day s s' p p' h = elim (Result-cases (settlement_day day zone_tz)) [
    | inr (e, c) ↦ cc (ap (λ q. q.0) (rw (c, poll_day) at h))
    | inl ((start, end), c) ↦
        let h' = rw (c, poll_day) at h in
        let f = broker.fetch start end p.0 in
        elim (Result-cases f.0) [
          | inr (e, d) ↦
              unanswered-Grown e day s s' p p' (f.1, p.1) refl start end p.0 c d
                (rw (d, poll_day) at h')
          | inl ((body, fetched_at), d) ↦
              let h'' = rw (d, poll_day) at h' in
              elim (Result-cases (gate_fetched readers body (to_second fetched_at))) [
                | inr (e, g) ↦ cc (ap (λ q. q.0) (rw (g, poll_day) at h''))
                | inl (result, g) ↦
                    let l : Learned = record { known_at = to_second fetched_at; gated = result } in
                    after_fetch p p' f.1 (
                      publish-Grown day l s s' (f.1, p.1) p'
                        (start, end, p.0, body, fetched_at, c, d, refl, g)
                        (rw (g, poll_day) at h''))
              ]
        ]
  ]

  Grown-trans :
      (ds es : List ℕ) (s t u : PollSummary) (p q r : W × List Message)
      → Grown ds s t p q
      → Grown es t u q r
      → Grown (ds ++ es) s u p r
  Grown-trans ds es s t u p q r a b =
      let xs = answered_of a.outcomes in
      let ys = answered_of b.outcomes in
      let split = answered_of-append a.outcomes b.outcomes in
      record {
        outcomes = a.outcomes ++ b.outcomes;
        each = EachDay-append readers broker zone_tz ds es a.outcomes b.outcomes a.each b.each;
        log =
            b.log
            ∙ ap (λ m. m ++ all_messages ys) a.log
            ∙ append_assoc p.1 (all_messages xs) (all_messages ys)
            ∙ rw split (ap (λ m. p.1 ++ m) (sym (all_messages-append xs ys)));
        published = rw split (omega (arith, a.published, b.published, all_accepted-append xs ys));
        quarantined =
            rw split (omega (arith, a.quarantined, b.quarantined, all_refused-append xs ys));
      }

  poll_days-Grown :
      (days : List ℕ) (s s' : PollSummary) (p p' : W × List Message)
      → poll_days readers (recorded broker) zone_tz s days p ≡ (ok s', p')
      → Grown days s s' p p'
  unfolding poll_days answered_of
  poll_days-Grown [] s s' p p' h =
      let done = ok-injective (ap (λ r. r.0) h) in
      Grown-none [] [] s s' p p' tt refl (ap (λ t. t.published) (sym done))
        (ap (λ t. t.quarantined) (sym done)) (ap (λ r. r.1.1) (sym h))
  poll_days-Grown (day ∷ rest) s s' p p' h =
      let one = poll_day readers (recorded broker) zone_tz s day p in
      elim (Result-cases one.0) [
        | inr (e, c) ↦ cc (ap (λ q. q.0) (rw (c, poll_days) at h))
        | inl (t, c) ↦
            Grown-trans (day ∷ []) rest s t s' p one.1 p'
              (poll_day-Grown day s t p one.1 (ap (λ r. (r, one.1)) c))
              (poll_days-Grown rest t s' one.1 p' (rw (c, poll_days) at h))
      ]

  -- Whatever the source answers, and however the broker takes messages: when `poll_once` returns a
  -- summary, each day to poll, in order, has been fetched over its settlement window and has either been
  -- answered, with a body that the gate took at the second it was fetched, or was said to have no data;
  -- what was published is, for each day that was answered, every record that the gate accepted and
  -- then every violation, in their order and nothing else; the summary counts them; and no delivery
  -- callback has reported an error.
  pub poll_once_publishes :
      (now : ℕ) (w w' : W) (s : PollSummary) (log : List Message)
      → poll_once readers (recorded broker) zone_tz now (w, []) ≡ (ok s, (w', log))
      → (outcomes : List (Option Learned)) × EachDay readers broker zone_tz
          (days_to_poll zone_tz now)
          outcomes
        × (log ≡ all_messages (answered_of outcomes))
        × (s.published ≡ all_accepted (answered_of outcomes))
        × (s.quarantined ≡ all_refused (answered_of outcomes))
        × (broker.refused w' ≡ 0)
  unfolding poll_once recorded
  poll_once_publishes now w w' s log h =
      let run =
        poll_days readers (recorded broker) zone_tz nothing_polled (days_to_poll zone_tz now)
          (w, []) in
      elim (Result-cases run.0) [
        | inr (e, c) ↦ cc (ap (λ q. q.0) (rw (c, poll_once) at h))
        | inl (t, c) ↦
            let h' = rw (c, poll_once) at h in
            let flushed = broker.flush run.1.0 in
            let all_sent = flushed.0 == 0 in
            let none_refused = broker.refused flushed.1 == 0 in
            elim (Bool-cases (not all_sent || not none_refused)) [
              | inl y ↦ cc (ap (λ q. q.0) (rw (y, poll_once) at h'))
              | inr n ↦
                  let h'' = rw (n, poll_once) at h' in
                  let same = ok-injective (ap (λ q. q.0) h'') in
                  let quiet : broker.refused flushed.1 ≡ 0 = ground arith in
                  let g =
                    poll_days-Grown (days_to_poll zone_tz now) nothing_polled t (w, []) run.1
                      (ap (λ r. (r, run.1)) c) in
                  (
                    g.outcomes,
                    g.each,
                    ap (λ q. q.1.1) (sym h'') ∙ g.log,
                    ap (λ q. q.published) (sym same) ∙ g.published ∙ omega arith,
                    ap (λ q. q.quarantined) (sym same) ∙ g.quarantined ∙ omega arith,
                    ap (λ q. broker.refused q.1.0) (sym h'') ∙ quiet,
                  )
            ]
      ]
