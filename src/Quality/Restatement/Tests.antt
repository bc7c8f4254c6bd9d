-- ===== src/Quality/Restatement/Tests.antt =====
-- Examples of the theorems about the comparison.
use gridlens.Prelude.{
  In, false, Bool-cases, inl, inr, eq_iff, eq_iff, ℕ, ◌≡◌, ◌↔◌, refl, ◌==◌, String, Bool, true,
  Option, none, some, List, [], ◌∷◌, length, ok, str_eq, if◌then◌else◌, zero, suc, ◌+◌, ◌-◌, ◌≤◌,
  ap, arith, all, All,
}
use gridlens.Timeaxis.Duration.{codes}
use gridlens.Quality.Restatement.{production_run}
use gridlens.Quality.Restatement.Manifest.{ManifestRow, latest_run, production_run-newest}
use gridlens.Quality.Restatement.{Counts, identical, compare_tables, check_clocks, counts_of}
use gridlens.Quality.Restatement.Compare.{Within, identical-compare_tables}

abbrev eqb : ℕ → ℕ → Bool
eqb a b = a == b

identical-compare_tables_example :
    (identical (compare_tables eqb (1 ∷ 2 ∷ []) (2 ∷ 1 ∷ [])) ≡ true) ↔ (
      (length {A = ℕ} (1 ∷ 2 ∷ []) ≡ length {A = ℕ} (2 ∷ 1 ∷ []))
      × Within eqb (1 ∷ 2 ∷ []) (2 ∷ 1 ∷ [])
      × Within eqb (2 ∷ 1 ∷ []) (1 ∷ 2 ∷ []))
identical-compare_tables_example = identical-compare_tables eqb (1 ∷ 2 ∷ []) (2 ∷ 1 ∷ [])

abbrev read_digit : String → Option ℕ
read_digit s = if str_eq s "0" then some 0 else if str_eq s "7" then some 7 else none

abbrev sevens : List String
sevens = "7" ∷ "7" ∷ "0" ∷ "0" ∷ []

abbrev same_counts : Counts
same_counts = record { left = 7; right = 7; only_left = 0; only_right = 0 }

clocks_agree : check_clocks read_digit (ok (sevens ∷ [])) ≡ ok same_counts
unfolding check_clocks counts_of identical
clocks_agree = refl

-- Numbers as tallies of the digit 1.
tally : ℕ → String
tally zero = String.◌∷◌ "1" String.[]
tally (suc n) = String.◌∷◌ "1" (tally n)

abbrev read_tally : String → Option ℕ
read_tally s = some (length (codes s) - 1)

tally_digits : (n : ℕ) → all (λ c. c == b'1') (codes (tally n)) ≡ true
unfolding tally
tally_digits zero = refl
tally_digits (suc n) = tally_digits n

length-tally : (n : ℕ) → length (codes (tally n)) ≡ n + 1
unfolding tally
length-tally zero = refl
length-tally (suc n) = omega (arith, length-tally n)

tally_text : (n : ℕ) → str_eq (tally n) "" ≡ false
tally_text n = elim (Bool-cases (str_eq (tally n) "")) [
  | inl y ↦
      let size : length (codes (tally n)) ≡ 0 =
        ap (λ s. length (codes s)) ((eq_iff (tally n) "").0 y) in
      absurd (omega (arith, size, length-tally n))
  | inr m ↦ m
]

tally_read : (n : ℕ) → read_tally (tally n) ≡ some n
tally_read n = ap some (omega (arith, length-tally n))

abbrev first_build : ManifestRow
first_build = record {
  git_sha = "a1";
  bronze_snapshot_id = 7;
  bronze_committed_at = 90;
  run_started_at = 100;
}

abbrev second_build : ManifestRow
second_build = record {
  git_sha = "b2";
  bronze_snapshot_id = 8;
  bronze_committed_at = 190;
  run_started_at = 200;
}

production_run-newest_example :
    (newest : ManifestRow) × In newest (first_build ∷ second_build ∷ [])
    × (production_run
          (λ c. c == b'1')
          read_tally
          read_tally
          (latest_run tally tally (first_build ∷ second_build ∷ []))
        ≡ ok (record {
          git_sha = newest.git_sha;
          snapshot_id = newest.bronze_snapshot_id;
          learned_up_to = newest.bronze_committed_at;
        }))
    × All (λ r. r.run_started_at ≤ newest.run_started_at) (first_build ∷ second_build ∷ [])
production_run-newest_example =
    production_run-newest (λ c. c == b'1') read_tally read_tally tally tally first_build
      (second_build ∷ []) tally_text tally_digits tally_read tally_read
