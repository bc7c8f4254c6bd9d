-- ===== src/Contracts/Gate/Provenance.antt =====
-- Where the records of the gate come from.
use gridlens.Prelude.{
  ℕ, ◌/◌, ◌%◌, ◌==◌, ◌≤◌, ◌<◌, ◌≡◌, refl, sym, ap, ◌∙◌, inl, inr, some, List, [], ◌∷◌, Result, ok,
  err, >>=-eq-ok, ok-injective, fold_ok, All, All-append, All-map, Bool-cases, arith,
}
use gridlens.Prelude.Int.{pos}
use gridlens.Timeaxis.{second_us, position_time}
use gridlens.Contracts.Records.{Moment, aware, GenerationRecord, Candidate, validate}
use gridlens.Contracts.Records.Contract.{validate_exact}
use gridlens.Ingest.Document.{Observation, GenerationSeries, Document}
use gridlens.Contracts.Gate.{
  GateResult, Violation, no_result, build_record, candidate_of, sort_out, gate_observations,
  add_gap, gate_series, apply_gate,
}

build_record_sound :
    (c : Candidate) (r : GenerationRecord) → build_record c ≡ ok r → validate c ≡ ok r
unfolding build_record
build_record_sound c r h = ground arith

-- A property of every record that an observation of the document can make is one of every record of
-- the result.
module _ (P : GenerationRecord → Type 0) (d : Document) (known_at : Moment) where
  abbrev pub Makes : GenerationSeries → Type 0
  Makes s =
      (minutes : ℕ)
      → All
          (λ o.
            (r : GenerationRecord) → validate (candidate_of d s minutes known_at o) ≡ ok r → P r)
          s.observations

  sort_out-All :
      (g : GateResult) (c : Candidate)
      → ((r : GenerationRecord) → validate c ≡ ok r → P r)
      → All P g.records
      → All P (sort_out g (build_record c)).records
  sort_out-All g c make h = go (build_record c) refl
    where
      go :
          (b : Result Violation GenerationRecord)
          → build_record c ≡ b
          → All P (sort_out g b).records
      go (ok r) e =
          unfold sort_out in
          All-append P g.records (r ∷ []) h (make r (build_record_sound c r e), tt)
      go (err v) e = unfold sort_out in h

  observations-All :
      (s : GenerationSeries) (minutes : ℕ) (g : GateResult) (os : List Observation)
      → All
          (λ o.
            (r : GenerationRecord) → validate (candidate_of d s minutes known_at o) ≡ ok r → P r)
          os
      → All P g.records
      → All P (gate_observations d s minutes known_at g os).records
  unfolding gate_observations
  observations-All s minutes g [] make h = h
  observations-All s minutes g (o ∷ rest) make h =
      let c = candidate_of d s minutes known_at o in
      observations-All s minutes (sort_out g (build_record c)) rest make.1
        (sort_out-All g c make.0 h)

  gaps-All :
      (s : GenerationSeries) (g g' : GateResult) (ps : List ℕ)
      → fold_ok (add_gap s) g ps ≡ ok g'
      → g'.records ≡ g.records
  unfolding fold_ok add_gap
  gaps-All s g g' [] h = ap (λ r. r.records) (sym (ok-injective h))
  gaps-All s g g' (p ∷ ps) h =
      let (g1, one, later) = >>=-eq-ok (add_gap s g p) _ h in
      let (t, _, e) = >>=-eq-ok (position_time s.interval_start s.resolution (pos p)) _ one in
      gaps-All s g1 g' ps later ∙ ap (λ r. r.records) (sym (ok-injective e))

  gate_series-All :
      (g g' : GateResult) (s : GenerationSeries)
      → Makes s
      → All P g.records
      → gate_series d known_at g s ≡ ok g'
      → All P g'.records
  unfolding gate_series
  gate_series-All g g' s make a h = elim (Bool-cases (s.resolution / second_us % 60 == 0)) [
    | inl whole ↦
        let minutes = s.resolution / second_us / 60 in
        rw
          (gaps-All s (gate_observations d s minutes known_at g s.observations) g'
            s.missing_positions (rw whole at h))
          (observations-All s minutes g s.observations (make minutes) a)
    | inr part ↦ rw (← ok-injective (rw part at h)) a
  ]

  all_series-All :
      (g g' : GateResult) (ss : List GenerationSeries)
      → All Makes ss
      → All P g.records
      → fold_ok (gate_series d known_at) g ss ≡ ok g'
      → All P g'.records
  unfolding fold_ok
  all_series-All g g' [] make a h = rw (← ok-injective h) a
  all_series-All g g' (s ∷ ss) make a h =
      let (g1, one, later) = >>=-eq-ok (gate_series d known_at g s) _ h in
      all_series-All g1 g' ss make.1 (gate_series-All g g1 s make.0 a one) later

  pub apply_gate-All :
      (g : GateResult) → All Makes d.series → apply_gate d known_at ≡ ok g → All P g.records
  unfolding apply_gate
  apply_gate-All g make h = all_series-All no_result g d.series make tt h

-- Learned at the moment given, from the document given, in a window.
pub record FromDocument (d : Document) (known_at : Moment) (start end : ℕ) (r : GenerationRecord)
    : Type 0 where
  pub learned : known_at ≡ aware r.known_at (pos 0)
  pub document : r.source_document_id ≡ some d.mrid
  pub after : start ≤ r.valid_time
  pub before : r.valid_time < end

-- Every observation lies in the window.
abbrev pub InWindow : ℕ → ℕ → GenerationSeries → Type 0
InWindow start end s = All (λ o. (start ≤ o.valid_time) × (o.valid_time < end)) s.observations

candidate-FromDocument :
    (d : Document) (s : GenerationSeries) (minutes : ℕ) (known_at : Moment) (o : Observation)
    (start end : ℕ) (r : GenerationRecord)
    → start ≤ o.valid_time
    → o.valid_time < end
    → validate (candidate_of d s minutes known_at o) ≡ ok r
    → FromDocument d known_at start end r
unfolding candidate_of
candidate-FromDocument d s minutes known_at o start end r a b h =
    let e = ((validate_exact (candidate_of d s minutes known_at o) r).0 h).0 in
    let t : o.valid_time ≡ r.valid_time = cc (ap (λ c. c.valid_time) e) in
    record {
      learned = ap (λ c. c.known_at) e;
      document = sym (ap (λ c. c.source_document_id) e);
      after = omega arith;
      before = omega arith;
    }

-- Every record that the gate lets through was learned at the moment that the gate was given, which is
-- therefore a UTC one, names the document's mRID, and lies in any window that the document's
-- observations lie in.
pub apply_gate-FromDocument :
    (d : Document) (known_at : Moment) (start end : ℕ) (g : GateResult)
    → All (InWindow start end) d.series
    → apply_gate d known_at ≡ ok g
    → All (FromDocument d known_at start end) g.records
apply_gate-FromDocument d known_at start end g within h =
    apply_gate-All (FromDocument d known_at start end) d known_at g
      (All-map _ _ d.series
        (λ s w minutes.
          All-map _ _ s.observations
            (λ o p r v. candidate-FromDocument d s minutes known_at o start end r p.0 p.1 v) w)
        within)
      h
