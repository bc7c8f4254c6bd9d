-- ===== src/Quality/Restatement/Manifest.antt =====
-- LATEST_RUN of src/gridlens/quality/restatement.py, over the rows of the run manifest; a number and a
-- time are rendered by parameters.
use gridlens.Prelude.{
  In, any, ℕ, ◌≤◌, ◌≡◌, refl, inl, inr, String, Bool, true, false, Option, some, List, [], ◌∷◌, ok,
  All, all, str_eq, Bool-cases, arith, ltb, if◌then◌else◌,
}
use gridlens.Timeaxis.Duration.{codes}
use gridlens.Quality.Restatement.{production_run}

pub record ManifestRow : Type 0 where
  pub git_sha : String
  pub bronze_snapshot_id : ℕ
  pub bronze_committed_at : ℕ
  pub run_started_at : ℕ

abbrev pub later_run : ManifestRow → ManifestRow → ManifestRow
later_run best m = if ltb best.run_started_at m.run_started_at then m else best

-- the first row of `ORDER BY run_started_at DESC`
unfoldable pub newest_run : ManifestRow → List ManifestRow → ManifestRow
newest_run best [] = best
newest_run best (m ∷ rest) = newest_run (later_run best m) rest

unfoldable pub latest_run : (ℕ → String) → (ℕ → String) → List ManifestRow → List (List String)
latest_run number timestamp [] = []
latest_run number timestamp (m ∷ rest) =
    let newest = newest_run m rest in
    (newest.git_sha ∷ number newest.bronze_snapshot_id ∷ timestamp newest.bronze_committed_at ∷ [])
    ∷ []

later_run-greatest :
    (best m : ManifestRow)
    → (best.run_started_at ≤ (later_run best m).run_started_at)
      × (m.run_started_at ≤ (later_run best m).run_started_at)
later_run-greatest best m = elim (Bool-cases (ltb best.run_started_at m.run_started_at)) [
  | inl y ↦ rw y (ground arith, omega arith)
  | inr n ↦ rw n (omega arith, ground arith)
]

newest_run-greatest :
    (best : ManifestRow) (rest : List ManifestRow)
    → (best.run_started_at ≤ (newest_run best rest).run_started_at)
      × All (λ m. m.run_started_at ≤ (newest_run best rest).run_started_at) rest
unfolding newest_run
newest_run-greatest best [] = (omega arith, tt)
newest_run-greatest best (m ∷ rest) =
    let (own, others) = newest_run-greatest (later_run best m) rest in
    let (first, second) = later_run-greatest best m in
    (omega (arith, own, first), (omega (arith, own, second), others))

later_run-In :
    (best m : ManifestRow) (q : ManifestRow → Bool)
    → q (later_run best m) ≡ true
    → any q (best ∷ m ∷ []) ≡ true
later_run-In best m q h = elim (Bool-cases (ltb best.run_started_at m.run_started_at)) [
  | inl y ↦ let picked : q m ≡ true = rw y at h in ground arith
  | inr n ↦ let picked : q best ≡ true = rw n at h in ground arith
]

newest_run-In :
    (best : ManifestRow) (rest : List ManifestRow) → In (newest_run best rest) (best ∷ rest)
unfolding newest_run
newest_run-In best [] q h = ground arith
newest_run-In best (m ∷ rest) q h = elim (Bool-cases (q (later_run best m))) [
  | inl y ↦ ground (arith, later_run-In best m q y)
  | inr n ↦ ground (arith, newest_run-In (later_run best m) rest q h)
]

-- The audit is bounded at what the newest production build read: where numbers are printed in digits,
-- and numbers and times read back, `production_run` makes of the query's answer the run of a row that
-- stands in the manifest, and no row of the manifest was started after that one.
pub production_run-newest :
    (is_digit : ℕ → Bool) (read_int read_naive : String → Option ℕ) (number timestamp : ℕ → String)
    (m : ManifestRow) (rest : List ManifestRow)
    → ((n : ℕ) → str_eq (number n) "" ≡ false)
    → ((n : ℕ) → all is_digit (codes (number n)) ≡ true)
    → ((n : ℕ) → read_int (number n) ≡ some n)
    → ((t : ℕ) → read_naive (timestamp t) ≡ some t)
    → (newest : ManifestRow) × In newest (m ∷ rest)
      × (production_run is_digit read_int read_naive (latest_run number timestamp (m ∷ rest))
          ≡ ok (record {
            git_sha = newest.git_sha;
            snapshot_id = newest.bronze_snapshot_id;
            learned_up_to = newest.bronze_committed_at;
          }))
      × All (λ r. r.run_started_at ≤ newest.run_started_at) (m ∷ rest)
unfolding latest_run production_run
production_run-newest is_digit read_int read_naive number timestamp m rest some_text digits int
      time =
    let newest = newest_run m rest in
    (
      newest,
      newest_run-In m rest,
      rw
          (
            some_text newest.bronze_snapshot_id,
            digits newest.bronze_snapshot_id,
            int newest.bronze_snapshot_id,
            time newest.bronze_committed_at,
          )
          refl,
      newest_run-greatest m rest,
    )
