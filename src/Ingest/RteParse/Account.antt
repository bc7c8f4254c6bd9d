-- ===== src/Ingest/RteParse/Account.antt =====
-- What becomes of the moments of an entry's grid.
use mathlib.Core.List.{append-nil, append_assoc}
use gridlens.Prelude.{
  ℕ, ◌-◌, ◌≤◌, ◌<◌, ◌≡◌, refl, sym, ap, ◌∙◌, ◌⊎◌, inl, inr, String, not, Option, none, some, List,
  [], ◌∷◌, ◌++◌, map, keep, Result-cases, ok, err, >>=-eq-ok, ok-injective, fold_ok,
}
use gridlens.Exceptions.{Exception}
use gridlens.Contracts.Reference.{ProductionType, BiddingZone}
use gridlens.Contracts.Records.{Decimal, Moment, GenerationRecord}
use gridlens.Contracts.Gate.{Gap, GateResult, Violation}
use gridlens.Ingest.RteParse.{
  Value, Entry, expected_moments, instant_at, add_present, add_moment, fill_grid,
}
use gridlens.Ingest.RteParse.Grid.{steps, Covers, expected_moments_grid, expected_moments_endless}
use gridlens.Ingest.RteParse.Moments.{
  is_held, gap_for, RecordAt, RefusedAt, Becomes, add_moment-Becomes,
}

-- The moments, in their order, are those of the records and of the violations, each in its order.
pub Accounted :
    (ℕ → GenerationRecord → Type 0)
    → (ℕ → Violation → Type 0)
    → List ℕ
    → List GenerationRecord
    → List Violation
    → Type 0
Accounted P Q [] rs us = (rs ≡ []) × (us ≡ [])
Accounted P Q (m ∷ ms) rs us =
    ((r : GenerationRecord) × (rest : List GenerationRecord) × (rs ≡ r ∷ rest)
      × P m r
      × Accounted P Q ms rest us)
    ⊎ ((u : Violation) × (rest : List Violation) × (us ≡ u ∷ rest)
        × Q m u
        × Accounted P Q ms rs rest)

module _ (read_moment : String → Option Moment) (read_decimal : String → Option Decimal)
    (zone : BiddingZone) (known_at : Moment) where
  -- The gaps of the moments at which no value starts.
  abbrev pub gaps_in : ProductionType → ℕ → List (ℕ × Value) → List ℕ → List Gap
  gaps_in production_type resolution present moments =
      map (gap_for read_moment read_decimal zone known_at production_type resolution present) (
        keep
          (λ m.
            not
              (is_held read_moment read_decimal zone known_at production_type resolution present m))
          moments)

  -- What a grid has added: a gap for each moment without a value, and for each other moment a record
  -- of its value or the violation that its value is.
  pub record Filled (production_type : ProductionType) (resolution : ℕ) (present : List (ℕ × Value))
      (moments : List ℕ) (g g' : GateResult) : Type 0 where
    pub records : List GenerationRecord
    pub violations : List Violation
    pub more_records : g'.records ≡ g.records ++ records
    pub more_violations : g'.violations ≡ g.violations ++ violations
    pub more_gaps : g'.gaps ≡ g.gaps ++ gaps_in production_type resolution present moments
    pub accounted :
        Accounted
          (RecordAt read_moment read_decimal zone known_at production_type resolution present)
          (RefusedAt read_moment read_decimal zone known_at production_type resolution present)
          (keep
            (is_held read_moment read_decimal zone known_at production_type resolution present)
            moments)
          records
          violations

  Filled-step :
      (production_type : ProductionType) (resolution : ℕ) (present : List (ℕ × Value)) (m : ℕ)
      (moments : List ℕ) (g g1 g' : GateResult)
      → Becomes read_moment read_decimal zone known_at production_type resolution present m g g1
      → Filled production_type resolution present moments g1 g'
      → Filled production_type resolution present (m ∷ moments) g g'
  unfolding Accounted
  Filled-step production_type resolution present m moments g g1 g' (inl (missing, e)) f = record {
    records = f.records;
    violations = f.violations;
    more_records = f.more_records ∙ ap (λ q. q.records ++ f.records) e;
    more_violations = f.more_violations ∙ ap (λ q. q.violations ++ f.violations) e;
    more_gaps = rw missing (
        f.more_gaps
        ∙ ap (λ q. q.gaps ++ gaps_in production_type resolution present moments) e
        ∙ append_assoc g.gaps
            (gap_for read_moment read_decimal zone known_at production_type resolution present m
              ∷ [])
            (gaps_in production_type resolution present moments));
    accounted = rw missing f.accounted;
  }
  Filled-step production_type resolution present m moments g g1 g' (inr (inl (r, held, at, e))) f =
      record {
        records = r ∷ f.records;
        violations = f.violations;
        more_records =
            f.more_records
            ∙ ap (λ q. q.records ++ f.records) e
            ∙ append_assoc g.records (r ∷ []) f.records;
        more_violations = f.more_violations ∙ ap (λ q. q.violations ++ f.violations) e;
        more_gaps = rw held (
            f.more_gaps ∙ ap (λ q. q.gaps ++ gaps_in production_type resolution present moments) e);
        accounted = rw held (inl (r, f.records, refl, at, f.accounted));
      }
  Filled-step production_type resolution present m moments g g1 g' (inr (inr (u, held, at, e))) f =
      record {
        records = f.records;
        violations = u ∷ f.violations;
        more_records = f.more_records ∙ ap (λ q. q.records ++ f.records) e;
        more_violations =
            f.more_violations
            ∙ ap (λ q. q.violations ++ f.violations) e
            ∙ append_assoc g.violations (u ∷ []) f.violations;
        more_gaps = rw held (
            f.more_gaps ∙ ap (λ q. q.gaps ++ gaps_in production_type resolution present moments) e);
        accounted = rw held (inr (u, f.violations, refl, at, f.accounted));
      }

  grid-Filled :
      (production_type : ProductionType) (resolution : ℕ) (present : List (ℕ × Value))
      (g g' : GateResult) (moments : List ℕ)
      → fold_ok
          (add_moment read_moment read_decimal zone known_at production_type resolution present)
          g
          moments
        ≡ ok g'
      → Filled production_type resolution present moments g g'
  unfolding fold_ok Accounted
  grid-Filled production_type resolution present g g' [] h =
      let same = sym (ok-injective h) in
      record {
        records = [];
        violations = [];
        more_records = ap (λ q. q.records) same ∙ sym (append-nil g.records);
        more_violations = ap (λ q. q.violations) same ∙ sym (append-nil g.violations);
        more_gaps = ap (λ q. q.gaps) same ∙ sym (append-nil g.gaps);
        accounted = (refl, refl);
      }
  grid-Filled production_type resolution present g g' (m ∷ moments) h =
      let (g1, one, later) =
        >>=-eq-ok
          (add_moment read_moment read_decimal zone known_at production_type resolution present g m)
          _ h in
      Filled-step production_type resolution present m moments g g1 g'
        (add_moment-Becomes read_moment read_decimal zone known_at production_type resolution
          present g g1 m one)
        (grid-Filled production_type resolution present g1 g' moments later)

  -- What `fill_grid` reads before its loop: the values by their start, and the window.
  pub record Window (e : Entry) : Type 0 where
    pub present : List (ℕ × Value)
    pub start : ℕ
    pub end : ℕ
    pub held : fold_ok (add_present read_moment read_decimal zone known_at) [] e.values ≡ ok present
    pub from :
        instant_at read_moment read_decimal zone known_at "start_date" e.start_date ≡ ok start
    pub until : instant_at read_moment read_decimal zone known_at "end_date" e.end_date ≡ ok end

  fill_grid_in :
      (fuel : ℕ) (production_type : ProductionType) (resolution : ℕ) (e : Entry) (g : GateResult)
      (w : Window e) (moments : List ℕ)
      → expected_moments fuel w.start w.end resolution ≡ some moments
      → fill_grid read_moment read_decimal zone known_at fuel production_type resolution e g
        ≡ some (
            fold_ok
              (add_moment read_moment read_decimal zone known_at production_type resolution
                w.present)
              g
              moments)
  unfolding fill_grid
  fill_grid_in fuel production_type resolution e g w moments h =
      rw (w.held, fill_grid) (rw (w.from, w.until, h, fill_grid) refl)

-- With a positive span and more rounds than the window is long, the grid of an entry is gone through
-- to its end, unless that raises: the moments are those a span apart from the window's start that lie
-- before its end, and what is added is exactly a gap for each moment at which no value starts and, for
-- each other moment, in order, the record of its value or, where the contract refuses that, its
-- violation. A record's quantity is the value's magnitude, and its direction the value's sign.
pub fill_grid_accounts :
    (read_moment : String → Option Moment) (read_decimal : String → Option Decimal)
    (zone : BiddingZone) (known_at : Moment) (fuel : ℕ) (production_type : ProductionType)
    (resolution : ℕ) (e : Entry) (g : GateResult)
    (w : Window read_moment read_decimal zone known_at e)
    → 1 ≤ resolution
    → w.end - w.start < fuel
    → let run =
        fill_grid read_moment read_decimal zone known_at fuel production_type resolution e g in
      (n : ℕ) × Covers w.start w.end resolution n
      × (((x : Exception) × (run ≡ some (err x)))
          ⊎ ((g' : GateResult) × (run ≡ some (ok g'))
              × Filled read_moment read_decimal zone known_at production_type resolution w.present
                  (steps w.start resolution n)
                  g
                  g'))
fill_grid_accounts read_moment read_decimal zone known_at fuel production_type resolution e g w p
      h =
    let (n, grid, covers) = expected_moments_grid fuel w.start w.end resolution p h in
    let moments = steps w.start resolution n in
    let run =
      fill_grid_in read_moment read_decimal zone known_at fuel production_type resolution e g w
        moments grid in
    let filled =
      fold_ok
        (add_moment read_moment read_decimal zone known_at production_type resolution w.present) g
        moments in
    (
      n,
      covers,
      elim (Result-cases filled) [
        | inr (x, c) ↦ inl (x, run ∙ ap some c)
        | inl (g', c) ↦ inr (
          g',
          run ∙ ap some c,
          grid-Filled read_moment read_decimal zone known_at production_type resolution w.present g
              g' moments c,
        )
      ],
    )

-- If the span is zero, as it is where every value ends when it starts, and the window is not
-- empty, the loop over the grid ends on no number of rounds.
pub fill_grid_endless :
    (read_moment : String → Option Moment) (read_decimal : String → Option Decimal)
    (zone : BiddingZone) (known_at : Moment) (fuel : ℕ) (production_type : ProductionType)
    (e : Entry) (g : GateResult) (w : Window read_moment read_decimal zone known_at e)
    → w.start < w.end
    → fill_grid read_moment read_decimal zone known_at fuel production_type 0 e g ≡ none
unfolding fill_grid
fill_grid_endless read_moment read_decimal zone known_at fuel production_type e g w h =
    let endless = expected_moments_endless fuel w.start w.end h in
    rw (w.held, fill_grid) (rw (w.from, w.until, endless, fill_grid) refl)
