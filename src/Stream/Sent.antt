-- ===== src/Stream/Sent.antt =====
-- The log of a broker after `publish` of src/gridlens/stream/producer.py has sent records and refusals.
use mathlib.Core.List.{append-nil, append_assoc}
use gridlens.Prelude.{ℕ, ◌≡◌, sym, ap, ◌∙◌, inl, inr, List, [], ◌∷◌, ◌++◌, map, ok, Result-cases}
use gridlens.Timeaxis.{Zone}
use gridlens.Contracts.Records.{GenerationRecord}
use gridlens.Contracts.Gate.{Violation}
use gridlens.Ingest.Xml.{Readers}
use gridlens.Stream.{Message, observation, refusal, Broker, publish_records, publish_refusals}
use gridlens.Stream.Learned.{recorded}

module _ {W : Type 0} (readers : Readers) (broker : Broker W) (zone_tz : Zone) where
  pub publish_records-log :
      (records : List GenerationRecord) (p p' : W × List Message)
      → publish_records readers (recorded broker) zone_tz records p ≡ (ok tt, p')
      → p'.1 ≡ p.1 ++ map observation records
  unfolding publish_records recorded
  publish_records-log [] p p' h = ap (λ q. q.1.1) (sym h) ∙ sym (append-nil p.1)
  publish_records-log (r ∷ rest) p p' h =
      elim (Result-cases (broker.produce (observation r) p.0).0) [
        | inr (e, c) ↦ cc (ap (λ q. q.0) (rw (c, publish_records) at h))
        | inl (u, c) ↦
            publish_records-log rest _ p' (rw (c, publish_records) at h)
            ∙ rw c (append_assoc p.1 (observation r ∷ []) (map observation rest))
      ]

  pub publish_refusals-log :
      (seen_at : ℕ) (violations : List Violation) (p p' : W × List Message)
      → publish_refusals readers (recorded broker) zone_tz seen_at violations p ≡ (ok tt, p')
      → p'.1 ≡ p.1 ++ map (refusal seen_at) violations
  unfolding publish_refusals recorded
  publish_refusals-log seen_at [] p p' h = ap (λ q. q.1.1) (sym h) ∙ sym (append-nil p.1)
  publish_refusals-log seen_at (v ∷ rest) p p' h =
      elim (Result-cases (broker.produce (refusal seen_at v) p.0).0) [
        | inr (e, c) ↦ cc (ap (λ q. q.0) (rw (c, publish_refusals) at h))
        | inl (u, c) ↦
            publish_refusals-log seen_at rest _ p' (rw (c, publish_refusals) at h)
            ∙ rw c (append_assoc p.1 (refusal seen_at v ∷ []) (map (refusal seen_at) rest))
      ]
