-- ===== src/Contracts/Gate/Conservation.antt =====
-- The gate drops nothing.
use mathlib.Core.List.{append-nil, append_assoc}
use gridlens.Prelude.{
  ℕ, zero, suc, ◌-◌, ◌*◌, ◌++◌, map, ap, sym, ◌+◌, ◌/◌, ◌%◌, ◌≡◌, refl, ◌∙◌, inl, inr, Bool, List,
  [], ◌∷◌, Result, ok, err, >>=-eq-ok, ok-injective, fold_ok, length, length-append, Bool-cases,
  arith, ◌==◌, if◌then◌else◌,
}
use gridlens.Timeaxis.{second_us, position_time}
use gridlens.Contracts.Records.{Moment, GenerationRecord}
use gridlens.Ingest.Document.{Observation, GenerationSeries, Document}
use gridlens.Contracts.Gate.{
  Gap, GateResult, Violation, accepted, no_result, build_record, candidate_of, sort_out,
  gate_observations, add_gap, gate_series, apply_gate,
}

-- What an input counts for: a series in whole minutes its observations and its missing positions,
-- any other series one violation.
abbrev pub whole_minutes : GenerationSeries → Bool
whole_minutes s = s.resolution / second_us % 60 == 0

abbrev pub rows_of : List GenerationSeries → ℕ
rows_of [] = 0
rows_of (s ∷ rest) = (if whole_minutes s then length s.observations else 1) + rows_of rest

-- The gap of a missing position, and all of them, in their order.
abbrev pub gap_at : GenerationSeries → ℕ → Gap
gap_at s p = record {
  zone = s.zone;
  production_type = s.production_type;
  direction = s.direction;
  valid_time = s.interval_start + (p - 1) * s.resolution;
  position = p;
}

abbrev pub gaps_of : List GenerationSeries → List Gap
gaps_of [] = []
gaps_of (s ∷ rest) =
    (if whole_minutes s then map (gap_at s) s.missing_positions else []) ++ gaps_of rest

abbrev pub rows : GateResult → ℕ
rows g = accepted g + length g.violations

pub sort_out-rows :
    (g : GateResult) (b : Result Violation GenerationRecord)
    → (rows (sort_out g b) ≡ rows g + 1) × ((sort_out g b).gaps ≡ g.gaps)
unfolding sort_out
sort_out-rows g (ok r) = (omega (arith, length-append {0} g.records (r ∷ [])), refl)
sort_out-rows g (err v) = (omega (arith, length-append {0} g.violations (v ∷ [])), refl)

observations-rows :
    (d : Document) (s : GenerationSeries) (minutes : ℕ) (known_at : Moment) (g : GateResult)
    (os : List Observation)
    → let g' = gate_observations d s minutes known_at g os in
      (rows g' ≡ rows g + length os) × (g'.gaps ≡ g.gaps)
unfolding gate_observations
observations-rows d s minutes known_at g [] = (omega arith, refl)
observations-rows d s minutes known_at g (o ∷ rest) =
    let b = build_record (candidate_of d s minutes known_at o) in
    let one = sort_out-rows g b in
    let more = observations-rows d s minutes known_at (sort_out g b) rest in
    (omega (arith, one.0, more.0), more.1 ∙ one.1)

add_gap-rows :
    (s : GenerationSeries) (g g' : GateResult) (p : ℕ)
    → add_gap s g p ≡ ok g'
    → (rows g' ≡ rows g) × (g'.gaps ≡ g.gaps ++ gap_at s p ∷ [])
unfolding add_gap position_time
add_gap-rows s g g' zero h = cc h
add_gap-rows s g g' (suc k) h =
    let e : suc k - 1 ≡ k = omega arith in rw (← ok-injective h) (refl, rw e refl)

gap-rows :
    (s : GenerationSeries) (g g' : GateResult) (ps : List ℕ)
    → fold_ok (add_gap s) g ps ≡ ok g'
    → (rows g' ≡ rows g) × (g'.gaps ≡ g.gaps ++ map (gap_at s) ps)
unfolding fold_ok
gap-rows s g g' [] h = rw (← ok-injective h) (refl, sym (append-nil g.gaps))
gap-rows s g g' (p ∷ ps) h =
    let (g1, one, later) = >>=-eq-ok (add_gap s g p) _ h in
    let a = add_gap-rows s g g1 p one in
    let b = gap-rows s g1 g' ps later in
    (
      b.0 ∙ a.0,
      b.1
          ∙ ap (λ gs. gs ++ map (gap_at s) ps) a.1
          ∙ append_assoc g.gaps (gap_at s p ∷ []) (map (gap_at s) ps),
    )

-- One series is counted in full.
gate_series-rows :
    (d : Document) (known_at : Moment) (g g' : GateResult) (s : GenerationSeries)
    → gate_series d known_at g s ≡ ok g'
    → (rows g' ≡ rows g + (if whole_minutes s then length s.observations else 1))
      × (g'.gaps ≡ g.gaps ++ (if whole_minutes s then map (gap_at s) s.missing_positions else []))
unfolding gate_series
gate_series-rows d known_at g g' s h = elim (Bool-cases (whole_minutes s)) [
  | inl whole ↦
      let minutes = s.resolution / second_us / 60 in
      let a = observations-rows d s minutes known_at g s.observations in
      let b =
        gap-rows s (gate_observations d s minutes known_at g s.observations) g' s.missing_positions
          (rw whole at h) in
      rw whole (b.0 ∙ a.0, b.1 ∙ ap (λ gs. gs ++ map (gap_at s) s.missing_positions) a.1)
  | inr part ↦
      let e = ok-injective (rw part at h) in
      rw (part, ← e)
        (omega (arith, length-append {0} g.violations (_ ∷ [])), sym (append-nil g.gaps))
]

series-rows :
    (d : Document) (known_at : Moment) (g g' : GateResult) (ss : List GenerationSeries)
    → fold_ok (gate_series d known_at) g ss ≡ ok g'
    → (rows g' ≡ rows g + rows_of ss) × (g'.gaps ≡ g.gaps ++ gaps_of ss)
unfolding fold_ok
series-rows d known_at g g' [] h = rw (← ok-injective h) (omega arith, sym (append-nil g.gaps))
series-rows d known_at g g' (s ∷ ss) h =
    let (g1, one, later) = >>=-eq-ok (gate_series d known_at g s) _ h in
    let a = gate_series-rows d known_at g g1 s one in
    let b = series-rows d known_at g1 g' ss later in
    let own = if whole_minutes s then map (gap_at s) s.missing_positions else [] in
    (
      omega (arith, a.0, b.0),
      b.1 ∙ ap (λ gs. gs ++ gaps_of ss) a.1 ∙ append_assoc g.gaps own (gaps_of ss),
    )

-- Nothing that a document holds is dropped: the records and the violations together are as many
-- as the observations of the series in whole minutes and the other series, and the gaps are exactly
-- the missing positions of the series in whole minutes, in their order, each with its series' zone,
-- type and direction, its number, and the time of that position counted from the interval's start.
pub apply_gate_conserves :
    (d : Document) (known_at : Moment) (g : GateResult)
    → apply_gate d known_at ≡ ok g
    → (accepted g + length g.violations ≡ rows_of d.series) × (g.gaps ≡ gaps_of d.series)
unfolding apply_gate
apply_gate_conserves d known_at g h =
    let r = series-rows d known_at no_result g d.series h in (omega (arith, r.0), r.1)
