-- ===== src/Ingest/Parse/Periods.antt =====
-- `_parse_period` from an element on: no position is taken twice, so its series is over its grid.
use gridlens.Prelude.{
  ℕ, ◌≡◌, refl, inl, inr, String, false, ◌||◌, [], ◌∷◌, ◌++◌, ok, ◌>>=◌, >>=-eq-ok, ok-injective,
  fold_ok, fold_ok_inv, raise_if, Bool-cases, arith, str_eq,
}
use gridlens.Prelude.Int.{ℤ, eqb_ℤ}
use gridlens.Contracts.Records.{Decimal, Direction}
use gridlens.Ingest.Xml.{Element, Readers, children, tag_of, local_name}
use gridlens.Ingest.Document.{GenerationSeries}
use gridlens.Ingest.Parse.{
  Quantities, has_position, PeriodParts, parse_point, interval_child, add_point, period_child,
  no_parts, parse_period,
}
use gridlens.Ingest.Parse.Counting.{Distinct}
use gridlens.Ingest.Parse.Grid.{OverGrid, build_period-OverGrid, raise_if-eq-ok}

has_position-append :
    (p : ℤ) (qs : Quantities) (r : ℤ × Decimal)
    → has_position p (qs ++ r ∷ []) ≡ (has_position p qs || eqb_ℤ r.0 p)
unfolding has_position
has_position-append p [] r = ground arith
has_position-append p (q ∷ qs) r = ground (arith, has_position-append p qs r)

Distinct-append :
    (qs : Quantities) (r : ℤ × Decimal)
    → Distinct qs
    → has_position r.0 qs ≡ false
    → Distinct (qs ++ r ∷ [])
unfolding has_position
Distinct-append [] r d h = (refl, tt)
Distinct-append (q ∷ qs) r d h =
    (ground (arith, has_position-append q.0 qs r), Distinct-append qs r d.1 (ground arith))

add_point-Distinct :
    (s s' : PeriodParts) (point : ℤ × Decimal)
    → Distinct s.quantities
    → add_point s point ≡ ok s'
    → Distinct s'.quantities
unfolding add_point
add_point-Distinct s s' point d h =
    let (u, new, e) = >>=-eq-ok (raise_if (has_position point.0 s.quantities) _) _ h in
    rw (← ok-injective e) (Distinct-append s.quantities point d (raise_if-eq-ok _ _ new))

interval_child_keeps :
    (readers : Readers) (s s' : PeriodParts) (sub : Element)
    → Distinct s.quantities
    → interval_child readers s sub ≡ ok s'
    → Distinct s'.quantities
unfolding interval_child
interval_child_keeps readers s s' sub d h =
    let same : s'.quantities ≡ s.quantities = ground arith in rw same d

period_child-Distinct :
    (readers : Readers) (s s' : PeriodParts) (child : Element)
    → Distinct s.quantities
    → period_child readers s child ≡ ok s'
    → Distinct s'.quantities
unfolding period_child
period_child-Distinct readers s s' child d h =
    elim (Bool-cases (str_eq (local_name (tag_of child)) "resolution")) [
      | inl r ↦ let same : s'.quantities ≡ s.quantities = ground arith in rw same d
      | inr nr ↦ elim (Bool-cases (str_eq (local_name (tag_of child)) "timeInterval")) [
        | inl i ↦
            fold_ok_inv (λ p. Distinct p.quantities) (interval_child readers)
              (interval_child_keeps readers) s s' (children child) d (ground arith)
        | inr ni ↦ elim (Bool-cases (str_eq (local_name (tag_of child)) "Point")) [
          | inl p ↦
              let h' : (parse_point readers child >>= add_point s) ≡ ok s' = rw (nr, ni, p) at h in
              let (point, _, e) = >>=-eq-ok (parse_point readers child) (add_point s) h' in
              add_point-Distinct s s' point d e
          | inr np ↦ let same : s'.quantities ≡ s.quantities = ground arith in rw same d
        ]
      ]
    ]

-- Every Period that `_parse_period` accepts gives a series over its grid: the quantities that the
-- loop over its children has read have distinct positions, and `OverGrid` holds of them and the
-- series, so observations and missing positions divide the whole periods of the interval.
pub parse_period-OverGrid :
    (readers : Readers) (node : Element) (zone production_type : String) (direction : Direction)
    (unit : String) (s : GenerationSeries)
    → parse_period readers node zone production_type direction unit ≡ ok s
    → (n : ℕ) × (parts : PeriodParts) × (fold_ok (period_child readers) no_parts (children node)
        ≡ ok parts)
      × Distinct parts.quantities
      × OverGrid n parts.quantities s
unfolding parse_period
parse_period-OverGrid readers node zone production_type direction unit s h =
    let (parts, read, built) =
      >>=-eq-ok (fold_ok (period_child readers) no_parts (children node)) _ h in
    let d : Distinct parts.quantities =
      fold_ok_inv (λ p. Distinct p.quantities) (period_child readers)
        (period_child-Distinct readers) no_parts parts (children node) tt read in
    let (n, g) = build_period-OverGrid zone production_type direction unit parts s d built in
    (n, parts, read, d, g)
