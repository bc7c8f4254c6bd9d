-- ===== src/Quality/Queries.antt =====
-- src/gridlens/quality/queries.py: what the two queries over the bronze table compute.
pub mod Invariants
pub mod Distinct
pub mod Completeness
mod Tests
use gridlens.Prelude.{
  ℕ, Option, none, some, leb, ◌/◌, ◌+◌, ◌-◌, Bool, true, false, ◌&&◌, List, [], ◌∷◌, keep, length,
  map, any, not, ltb, ◌==◌, str_eq, max, String, ◌<>◌, if◌then◌else◌,
}
use gridlens.Prelude.Int.{ℤ, pos, ltb_ℤ, ◌-ℤ◌}
use gridlens.Timeaxis.{Zone, local_date, hour_us}
use gridlens.Lake.Bronze.{Row, same_version}

-- `keyed`: a row of each identity, and how many rows have it.
unfoldable pub add_copy : Row → List (Row × ℕ) → List (Row × ℕ)
add_copy r [] = (r, 1) ∷ []
add_copy r ((k, copies) ∷ rest) =
    let others = add_copy r rest in
    if same_version k r then (k, copies + 1) ∷ rest else (k, copies) ∷ others

unfoldable pub keyed : List Row → List (Row × ℕ)
keyed [] = []
keyed (r ∷ rest) = add_copy r (keyed rest)

-- `coalesce(sum(copies - 1), 0)` where `copies > 1`
unfoldable pub excess : List (Row × ℕ) → ℕ
excess [] = 0
excess ((k, copies) ∷ rest) = (if ltb 1 copies then copies - 1 else 0) + excess rest

-- The row that INVARIANTS selects.
pub record InvariantsRow : Type 0 where
  pub duplicate_keys : ℕ
  pub future_periods : ℕ
  pub known_before_it_happened : ℕ
  pub negative_quantities : ℕ
  pub hours_since_last_learned : Option ℤ

abbrev pub maximum : List ℕ → ℕ
maximum [] = 0
maximum (x ∷ xs) = let m = maximum xs in if ltb m x then x else m

-- `date_diff('hour', a, b)`: whole hours, towards zero
abbrev pub hours_between : ℕ → ℕ → ℤ
hours_between a b = if leb a b then pos ((b - a) / hour_us) else pos 0 -ℤ pos ((a - b) / hour_us)

-- `max` over no rows is NULL, and so is a difference with it.
abbrev pub hours_since : ℕ → List Row → Option ℤ
hours_since now [] = none
hours_since now (r ∷ rest) = some (hours_between (maximum (map (λ t. t.known_at) (r ∷ rest))) now)

unfoldable pub invariants_row : ℕ → List Row → InvariantsRow
invariants_row now table = record {
  duplicate_keys = excess (keyed table);
  future_periods = length (keep (λ r. ltb now r.valid_time) table);
  known_before_it_happened = length (keep (λ r. ltb r.known_at r.valid_time) table);
  negative_quantities = length (keep (λ r. ltb_ℤ r.quantity (pos 0)) table);
  hours_since_last_learned = hours_since now table;
}

-- `count(DISTINCT …)` counts these.
unfoldable pub distinct_by {ℓ} : {A : Type ℓ} → (A → A → Bool) → List A → List A
distinct_by same [] = []
distinct_by same (x ∷ xs) =
    let rest = distinct_by same xs in if any (λ y. same y x) rest then rest else x ∷ rest

-- `max` of quantities
abbrev pub maximum_ℤ : ℤ → List ℤ → ℤ
maximum_ℤ x [] = x
maximum_ℤ x (y ∷ ys) = let m = maximum_ℤ y ys in if ltb_ℤ m x then x else m

-- The day's own row is one of those selected.
abbrev pub greatest : ℤ → List ℤ → ℤ
greatest own [] = own
greatest own (x ∷ xs) = maximum_ℤ x xs

-- the groups of `per_day` and of `per_series`
abbrev pub same_day : Zone → Row → Row → Bool
same_day paris a b =
    str_eq a.zone b.zone && local_date paris a.valid_time == local_date paris b.valid_time

abbrev pub same_series : Zone → Row → Row → Bool
same_series paris a b =
    same_day paris a b
    && (str_eq a.production_type b.production_type && str_eq a.direction b.direction)

-- `count(DISTINCT valid_time)` of the rows that a test selects
unfoldable pub periods_of : (Row → Bool) → List Row → ℕ
periods_of selected table =
    length (distinct_by (λ a b. a == b) (map (λ r. r.valid_time) (keep selected table)))

-- `densest`: the greatest count of the series of a day
unfoldable pub densest_series : Zone → List Row → Row → ℕ
densest_series paris table day = maximum (
    map (λ s. periods_of (λ r. same_series paris r s) table)
      (keep (λ r. same_day paris r day) table))

-- A row that COMPLETENESS selects; the quantity in thousandths.
pub record DayRow : Type 0 where
  pub zone : String
  pub settlement_day : ℕ
  pub periods : ℕ
  pub series : ℕ
  pub densest : ℕ
  pub max_mw : ℤ

unfoldable pub day_row : Zone → List Row → Row → DayRow
day_row paris table day = record {
  zone = day.zone;
  settlement_day = local_date paris day.valid_time;
  periods = periods_of (λ r. same_day paris r day) table;
  series = length (
      distinct_by (λ a b. str_eq a b)
        (map (λ r. r.production_type <> "/" <> r.direction)
          (keep (λ r. same_day paris r day) table)));
  densest = densest_series paris table day;
  max_mw = greatest day.quantity (map (λ r. r.quantity) (keep (λ r. same_day paris r day) table));
}

-- The days of the table but the newest, each zone's by itself.
unfoldable pub completeness_rows : Zone → List Row → List DayRow
completeness_rows paris table =
    let newest = maximum (map (λ r. local_date paris r.valid_time) table) in
    map (day_row paris table)
      (keep (λ r. ltb (local_date paris r.valid_time) newest) (distinct_by (same_day paris) table))
