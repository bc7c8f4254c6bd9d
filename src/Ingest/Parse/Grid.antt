-- ===== src/Ingest/Parse/Grid.antt =====
-- What a parsed Period says of the interval's grid.
use gridlens.Prelude.{
  ℕ, zero, suc, ◌+◌, ◌*◌, ◌≤◌, ◌≡◌, refl, sym, ap, ◌∙◌, inl, inr, String, Bool, true, false, not,
  Option, none, some, [], ◌∷◌, map, ok, >>=-eq-ok, ok-injective, raise_if, or_raise, length,
  length-map, any, keep, All, arith, Bool-cases, count, length-keep-not,
}
use gridlens.Prelude.Int.{pos, negsuc, ltb_ℤ}
use gridlens.Timeaxis.{period_count}
use gridlens.Timeaxis.Positions.{period_count_exact}
use gridlens.Contracts.Records.{Direction}
use gridlens.Ingest.Document.{GenerationSeries, expected_positions}
use gridlens.Ingest.Parse.{
  Quantities, has_position, range, sort_positions, observe, PeriodParts, build_period,
}
use gridlens.Ingest.Parse.Positions.{
  OnGrid, Ascending, Positive, carried, All-of_sort, All-sort, length-sort_positions, observe_parts,
  sort_positions-Ascending,
}
use gridlens.Ingest.Parse.Counting.{Distinct, InGrid, count_positions, length-range}

or_raise-eq-ok : {E A : Type 0} (o : Option A) (e : E) (a : A) → or_raise o e ≡ ok a → o ≡ some a
or_raise-eq-ok none e a h = cc
or_raise-eq-ok (some b) e a h = ap some (ok-injective h)

pub raise_if-eq-ok : {E : Type 0} (b : Bool) (e : E) → raise_if b e ≡ ok tt → b ≡ false
raise_if-eq-ok true e h = cc
raise_if-eq-ok false e h = refl

-- The steps of a Period that is built.
record Built (parts : PeriodParts) (s : GenerationSeries) : Type 0 where
  expected : ℕ
  counted : period_count s.interval_start s.interval_end s.resolution ≡ ok expected
  within : any (λ q. ltb_ℤ (pos expected) q.0) parts.quantities ≡ false
  seen : observe s.interval_start s.resolution (sort_positions parts.quantities) ≡ ok s.observations
  missing :
      s.missing_positions
      ≡ keep (λ p. not (has_position (pos p) parts.quantities)) (range 1 expected)

build_period-Built :
    (zone production_type : String) (direction : Direction) (unit : String) (parts : PeriodParts)
    (s : GenerationSeries)
    → build_period zone production_type direction unit parts ≡ ok s
    → Built parts s
unfolding build_period
build_period-Built zone production_type direction unit parts s h =
    let (r, _, h0) = >>=-eq-ok (or_raise parts.resolution _) _ h in
    let (st, _, h1) = >>=-eq-ok (or_raise parts.start _) _ h0 in
    let (en, _, h2) = >>=-eq-ok (or_raise parts.end _) _ h1 in
    let (n, counted, h3) = >>=-eq-ok (period_count st en r) _ h2 in
    let (u, within, h4) =
      >>=-eq-ok (raise_if (any (λ q. ltb_ℤ (pos n) q.0) parts.quantities) _) _ h3 in
    let (os, seen, h5) = >>=-eq-ok (observe st r (sort_positions parts.quantities)) _ h4 in
    rw (← ok-injective h5) (record {
      expected = n;
      counted = counted;
      within = raise_if-eq-ok _ _ within;
      seen = seen;
      missing = refl;
    })

not_past :
    (n : ℕ) (qs : Quantities)
    → any (λ q. ltb_ℤ (pos n) q.0) qs ≡ false
    → All Positive qs
    → All (λ q. InGrid n q.0) qs
not_past n [] h p = tt
not_past n ((pos k, v) ∷ rest) h ((j, e), p) = (ground arith, not_past n rest (ground arith) p)
not_past n ((negsuc k, v) ∷ rest) h ((j, e), p) = absurd (ground arith)

-- A missing position stands in the grid and carries no quantity.
abbrev pub IsMissing : ℕ → Quantities → ℕ → Type 0
IsMissing n qs p = (1 ≤ p) × (p ≤ n) × (has_position (pos p) qs ≡ false)

IsMissing-range :
    (n first count : ℕ) (qs : Quantities)
    → 1 ≤ first
    → first + count ≤ suc n
    → All (IsMissing n qs) (keep (λ p. not (has_position (pos p) qs)) (range first count))
unfolding range
IsMissing-range n first zero qs a b = tt
IsMissing-range n first (suc count) qs a b =
    let later = IsMissing-range n (suc first) count qs (omega arith) (omega arith) in
    elim (Bool-cases (has_position (pos first) qs)) [
      | inl held ↦ rw held later
      | inr open_slot ↦ rw open_slot ((a, omega arith, open_slot), later)
    ]

-- What is said of a series over a grid of `n` periods, for the quantities that were read.
pub record OverGrid (n : ℕ) (qs : Quantities) (s : GenerationSeries) : Type 0 where
  pub spans : s.interval_start + n * s.resolution ≡ s.interval_end
  pub complete : expected_positions s ≡ n
  pub carries : map carried s.observations ≡ sort_positions qs
  pub ordered : Ascending (map carried s.observations)
  pub placed : All (OnGrid s.interval_start s.resolution) s.observations
  pub in_grid : All (λ q. InGrid n q.0) (map carried s.observations)
  pub absent : All (IsMissing n qs) s.missing_positions

-- From a Period whose positions are distinct, as those that are parsed are, `_parse_period` builds
-- a series over exactly the whole periods of its interval: the observations are the quantities
-- read, in strictly ascending order of positions, each in the grid and at its position's time;
-- the missing positions lie in the grid and carry no quantity; and there are as many of both
-- together as the grid has periods.
pub build_period-OverGrid :
    (zone production_type : String) (direction : Direction) (unit : String) (parts : PeriodParts)
    (s : GenerationSeries)
    → Distinct parts.quantities
    → build_period zone production_type direction unit parts ≡ ok s
    → (n : ℕ) × OverGrid n parts.quantities s
unfolding expected_positions
build_period-OverGrid zone production_type direction unit parts s d h =
    let qs : Quantities = parts.quantities in
    let b = build_period-Built zone production_type direction unit parts s h in
    let n = b.expected in
    let exact = period_count_exact s.interval_start s.interval_end s.resolution n b.counted in
    let (same, positive, placed) =
      observe_parts s.interval_start s.resolution (sort_positions qs) s.observations b.seen in
    let grid : All (λ q. InGrid n q.0) qs =
      not_past n qs b.within (All-of_sort Positive qs positive) in
    let size : length s.observations ≡ length qs =
      sym (length-map carried s.observations) ∙ ap length same ∙ length-sort_positions qs in
    let left = length-keep-not (λ p. has_position (pos p) qs) (range 1 n) in
    (
      n,
      record {
        spans = exact.2;
        complete =
            omega (
              arith,
              size,
              ap length b.missing,
              left,
              count_positions n qs d grid,
              length-range 1 n,
            );
        carries = same;
        ordered = rw same (sort_positions-Ascending qs d);
        placed = placed;
        in_grid = rw same (All-sort (λ q. InGrid n q.0) qs grid);
        absent = rw b.missing (IsMissing-range n 1 n qs (omega arith) (omega arith));
      },
    )
