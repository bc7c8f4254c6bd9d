-- ===== src/Quality/Queries/Invariants.antt =====
-- The row of INVARIANTS is zero where the table is what the loader promises, and loading keeps it so.
use gridlens.Prelude.{
  ℕ, ◌+◌, ◌≤◌, ◌≡◌, ◌↔◌, refl, ◌∙◌, inl, inr, Bool, true, false, ◌||◌, List, [], ◌∷◌, map, any,
  keep, length, All, All-append, All-keep, Bool-cases, arith, ltb, if◌then◌else◌,
}
use gridlens.Prelude.Int.{pos, ltb_ℤ}
use gridlens.Stream.Figures.{quantity-IsPlausible}
use gridlens.Contracts.Records.{GenerationRecord}
use gridlens.Contracts.Records.Contract.{IsContract}
use gridlens.Lake.Bronze.{Row, same_version, in_window, is_inserted, merge}
use gridlens.Lake.Bronze.Unique.{same_version_left, Unique, merge-Unique}
use gridlens.Lake.Staging.{staged_row}
use gridlens.Quality.Queries.{add_copy, keyed, excess, InvariantsRow, invariants_row}

-- a key of a group that is a row's
abbrev has_key : Row → List (Row × ℕ) → Bool
has_key r groups = any (λ g. same_version g.0 r) groups

abbrev Counted : List (Row × ℕ) → Type 0
Counted groups = All (λ g. 1 ≤ g.1) groups

has_key-add_copy :
    (t r : Row) (groups : List (Row × ℕ))
    → has_key r (add_copy t groups) ≡ (same_version t r || has_key r groups)
unfolding add_copy
has_key-add_copy t r [] = refl
has_key-add_copy t r ((k, n) ∷ groups) = elim (Bool-cases (same_version k t)) [
  | inl y ↦ let e = same_version_left k t r y in rw y (ground (arith, e))
  | inr n ↦ rw n (let h = has_key-add_copy t r groups in ground (arith, h))
]

has_key-keyed :
    (r : Row) (table : List Row) → has_key r (keyed table) ≡ any (λ t. same_version t r) table
unfolding keyed
has_key-keyed r [] = refl
has_key-keyed r (t ∷ table) = has_key-add_copy t r (keyed table) ∙ rw (has_key-keyed r table) refl

add_copy-Counted :
    (r : Row) (groups : List (Row × ℕ)) → Counted groups → Counted (add_copy r groups)
unfolding add_copy
add_copy-Counted r [] h = (omega arith, tt)
add_copy-Counted r ((k, n) ∷ groups) h = elim (Bool-cases (same_version k r)) [
  | inl y ↦ rw y (omega arith, h.1)
  | inr m ↦ rw m (h.0, add_copy-Counted r groups h.1)
]

keyed-Counted : (table : List Row) → Counted (keyed table)
unfolding keyed
keyed-Counted [] = tt
keyed-Counted (r ∷ table) = add_copy-Counted r (keyed table) (keyed-Counted table)

excess-add_copy :
    (r : Row) (groups : List (Row × ℕ))
    → Counted groups
    → excess (add_copy r groups) ≡ excess groups + (if has_key r groups then 1 else 0)
unfolding add_copy excess
excess-add_copy r [] h = refl
excess-add_copy r ((k, n) ∷ groups) h = elim (Bool-cases (same_version k r)) [
  | inl y ↦ rw y (ground (arith, h.0))
  | inr m ↦ rw m (let e = excess-add_copy r groups h.1 in ground (arith, e))
]

excess-cons :
    (r : Row) (table : List Row)
    → excess (keyed (r ∷ table))
      ≡ excess (keyed table) + (if any (λ t. same_version t r) table then 1 else 0)
unfolding keyed
excess-cons r table =
    excess-add_copy r (keyed table) (keyed-Counted table) ∙ rw (has_key-keyed r table) refl

excess-Unique : (table : List Row) → (excess (keyed table) ≡ 0) ↔ Unique table
unfolding keyed excess
excess-Unique [] = (λ h. tt, λ u. refl)
excess-Unique (r ∷ table) =
    let step = excess-cons r table in
    let (to, from) = excess-Unique table in
    (
      λ h. (ground (arith, step, h), to (ground (arith, step, h))),
      λ u. ground (arith, step, from u.1, u.0),
    )

length-keep-zero :
    (p : Row → Bool) (xs : List Row) → (length (keep p xs) ≡ 0) ↔ All (λ r. p r ≡ false) xs
length-keep-zero p [] = (λ h. tt, λ h. refl)
length-keep-zero p (x ∷ xs) =
    let (to, from) = length-keep-zero p xs in
    (λ h. (ground (arith, h), to (ground (arith, h))), λ h. rw h.0 (from h.1))

-- What the loader promises of the table at an instant: no two rows of one identity, and no row of a
-- period that is still to come or that was known before it began.
abbrev pub IsSound : ℕ → List Row → Type 0
IsSound now table =
    Unique table
    × All (λ r. ltb now r.valid_time ≡ false) table
    × All (λ r. ltb r.known_at r.valid_time ≡ false) table
    × All (λ r. ltb_ℤ r.quantity (pos 0) ≡ false) table

-- The four counts are zero.
abbrev pub IsZero : InvariantsRow → Type 0
IsZero row =
    (row.duplicate_keys ≡ 0)
    × (row.future_periods ≡ 0)
    × (row.known_before_it_happened ≡ 0)
    × (row.negative_quantities ≡ 0)

-- The four counts of INVARIANTS are zero exactly where the table has no two rows of one identity, no
-- row of a period that begins after the engine's clock, none that was known before its period
-- began, and none of a negative quantity.
pub invariants_row-IsSound :
    (now : ℕ) (table : List Row) → IsZero (invariants_row now table) ↔ IsSound now table
unfolding invariants_row
invariants_row-IsSound now table =
    let (u, v) = excess-Unique table in
    let (f, g) = length-keep-zero (λ r. ltb now r.valid_time) table in
    let (k, l) = length-keep-zero (λ r. ltb r.known_at r.valid_time) table in
    let (m, n) = length-keep-zero (λ r. ltb_ℤ r.quantity (pos 0)) table in
    (λ h. (u h.0, f h.1, k h.2, m h.3), λ s. (v s.0, g s.1, l s.2, n s.3))

staged-Sound :
    (now : ℕ) (records : List GenerationRecord)
    → All IsContract records
    → All (λ r. r.known_at ≤ now) records
    → All (λ r. ltb now r.valid_time ≡ false) (map staged_row records)
      × All (λ r. ltb r.known_at r.valid_time ≡ false) (map staged_row records)
      × All (λ r. ltb_ℤ r.quantity (pos 0) ≡ false) (map staged_row records)
unfolding staged_row
staged-Sound now [] c k = (tt, tt, tt)
staged-Sound now (r ∷ records) c k =
    let (a, b, d) = staged-Sound now records c.1 k.1 in
    let realised = c.0.realised in
    let plain = quantity-IsPlausible r.quantity_mw c.0.plausible in
    (
      (ground (arith, k.0, realised), a),
      (ground (arith, realised), b),
      (rw plain (ground arith), d),
    )

-- Loading keeps the four counts of INVARIANTS, duplicate_keys, future_periods,
-- known_before_it_happened and negative_quantities, at zero: if they are zero for the table, and the
-- batch's records meet the contract, were known by the engine's clock, have no identity twice and lie
-- in the window, then they are zero for the merged table.
pub merge-invariants_row :
    (start end now : ℕ) (records : List GenerationRecord) (table : List Row)
    → All IsContract records
    → All (λ r. r.known_at ≤ now) records
    → Unique (map staged_row records)
    → All (λ r. in_window start end r ≡ true) (map staged_row records)
    → IsZero (invariants_row now table)
    → IsZero (invariants_row now (merge start end (map staged_row records) table))
unfolding merge
merge-invariants_row start end now records table contract known unique within none_wrong =
    let staged = map staged_row records in
    let ins = is_inserted start end table in
    let (u, f, k, m) = (invariants_row-IsSound now table).0 none_wrong in
    let (sf, sk, sm) = staged-Sound now records contract known in
    (invariants_row-IsSound now (merge start end staged table)).1 (
      (merge-Unique start end staged table u unique within).0,
      All-append _ table (keep ins staged) f (All-keep _ ins staged sf),
      All-append _ table (keep ins staged) k (All-keep _ ins staged sk),
      All-append _ table (keep ins staged) m (All-keep _ ins staged sm),
    )
