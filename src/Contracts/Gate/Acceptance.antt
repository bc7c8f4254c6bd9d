-- ===== src/Contracts/Gate/Acceptance.antt =====
-- What the gate lets through meets the contract, and it raises on no parsed document.
use gridlens.Prelude.{
  ℕ, zero, suc, ◌/◌, ◌%◌, ◌==◌, ◌≤◌, ◌≡◌, refl, inl, inr, ok, fold_ok_total, All, All_always,
  Bool-cases, arith,
}
use gridlens.Timeaxis.{second_us}
use gridlens.Timeaxis.Positions.{position_time_lem}
use gridlens.Contracts.Records.{Moment}
use gridlens.Contracts.Records.Contract.{IsContract, validate_exact}
use gridlens.Ingest.Document.{GenerationSeries, Document}
use gridlens.Contracts.Gate.Provenance.{apply_gate-All}
use gridlens.Contracts.Gate.{GateResult, no_result, add_gap, gate_series, apply_gate}

-- A series whose missing positions count from 1, as a parsed one's do.
abbrev pub CountsFromOne : GenerationSeries → Type 0
CountsFromOne s = All (λ p. 1 ≤ p) s.missing_positions

add_gap_total :
    (s : GenerationSeries) (g : GateResult) (p : ℕ)
    → 1 ≤ p
    → (g' : GateResult) × (add_gap s g p ≡ ok g')
unfolding add_gap
add_gap_total s g zero h = absurd (omega arith)
add_gap_total s g (suc k) h = rw (position_time_lem s.interval_start s.resolution k) (_, refl)

gate_series_total :
    (d : Document) (known_at : Moment) (g : GateResult) (s : GenerationSeries)
    → CountsFromOne s
    → (g' : GateResult) × (gate_series d known_at g s ≡ ok g')
unfolding gate_series
gate_series_total d known_at g s c = elim (Bool-cases (s.resolution / second_us % 60 == 0)) [
  | inl whole ↦
      rw whole (fold_ok_total (λ p. 1 ≤ p) (add_gap s) (add_gap_total s) _ s.missing_positions c)
  | inr part ↦ rw part (_, refl)
]

-- On a document whose missing positions count from 1, whatever its texts, units and quantities are
-- and whatever `known_at` is, the gate returns a result, and every record of the result meets the
-- contract.
pub apply_gate_accepts :
    (d : Document) (known_at : Moment)
    → All CountsFromOne d.series
    → (g : GateResult) × (apply_gate d known_at ≡ ok g) × All IsContract g.records
unfolding apply_gate
apply_gate_accepts d known_at c =
    let (g, done) =
      fold_ok_total CountsFromOne (gate_series d known_at) (gate_series_total d known_at) no_result
        d.series c in
    (
      g,
      done,
      apply_gate-All IsContract d known_at g
          (All_always _ d.series
            (λ s minutes. All_always _ s.observations (λ o r h. ((validate_exact _ r).0 h).1)))
          done,
    )
