-- ===== src/Lake/Bronze/History.antt =====
-- A sequence of batches, merged one after the other.
use mathlib.Core.Path.{fun_ext}
use gridlens.Prelude.{
  ℕ, ◌≤◌, ◌<◌, ◌≡◌, refl, ap, ◌∙◌, true, List, [], ◌∷◌, keep, All, All-map, All-append, All-keep,
  arith,
}
use gridlens.Lake.Bronze.{Row, in_window, is_inserted, merge}
use gridlens.Lake.Bronze.Restate.{View, view, restate, OnePerPeriod, view-merge}

pub record Batch : Type 0 where
  pub known_at : ℕ
  pub staged : List Row

-- What the code stages for one firing: rows of the window, learned at one time, one for a period.
abbrev pub IsBatch : ℕ → ℕ → Batch → Type 0
IsBatch start end b =
    All (λ r. (r.known_at ≡ b.known_at) × (in_window start end r ≡ true)) b.staged
    × OnePerPeriod b.staged

-- Each batch is learned after the one before it.
abbrev pub InOrder : ℕ → ℕ → ℕ → List Batch → Type 0
InOrder start end k [] = Unit
InOrder start end k (b ∷ batches) =
    (k < b.known_at) × IsBatch start end b × InOrder start end b.known_at batches

pub merge_all : ℕ → ℕ → List Batch → List Row → List Row
merge_all start end [] table = table
merge_all start end (b ∷ batches) table =
    merge_all start end batches (merge start end b.staged table)

pub restate_all : List Batch → View → View
restate_all [] v = v
restate_all (b ∷ batches) v = restate_all batches (restate b.staged v)

merge-known :
    (start end : ℕ) (b : Batch) (k : ℕ) (table : List Row)
    → k < b.known_at
    → All (λ r. r.known_at ≤ k) table
    → IsBatch start end b
    → All (λ r. r.known_at ≤ b.known_at) (merge start end b.staged table)
unfolding merge
merge-known start end b k table l h w =
    All-append _ table (keep (is_inserted start end table) b.staged)
      (All-map _ _ table (λ r e. omega (arith, e, l)) h)
      (All-keep _ _ b.staged (All-map _ _ b.staged (λ r e. omega (arith, e.0)) w.0))

-- Batches that are learned one after the other, each with one row for a period, refine their
-- restatements: however many are merged into a table that knows nothing newer, its view is what
-- restating them in turn makes of the view it had.
pub merge_all-refines :
    (start end k : ℕ) (batches : List Batch) (table : List Row)
    → All (λ r. r.known_at ≤ k) table
    → InOrder start end k batches
    → view start end (merge_all start end batches table)
      ≡ restate_all batches (view start end table)
unfolding merge_all restate_all
merge_all-refines start end k [] table h o = refl
merge_all-refines start end k (b ∷ batches) table h o =
    let one : view start end (merge start end b.staged table)
        ≡ restate b.staged (view start end table) =
      fun_ext (
        view-merge start end b.known_at b.staged table
          (All-map _ _ table (λ r e. omega (arith, e, o.0)) h) o.1.0 o.1.1) in
    merge_all-refines start end b.known_at batches (merge start end b.staged table)
      (merge-known start end b k table o.0 h o.1) o.2
    ∙ ap (restate_all batches) one
