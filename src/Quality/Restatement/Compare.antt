-- ===== src/Quality/Restatement/Compare.antt =====
-- What identical counts say of two tables, and how `differences` and the clock check read them.
use gridlens.Prelude.{
  ℕ, ◌≡◌, ◌↔◌, refl, ap, inl, inr, String, Bool, true, false, not, List, [], ◌∷◌, map, Option,
  Result, ok, err, >>=-eq-ok, ok-injective, raise_if, length, keep, All, Bool-cases, arith,
}
use gridlens.Exceptions.{Exception, audit_failed}
use gridlens.Quality.Restatement.{
  Counts, identical, holds, distinct, except, compare_tables, differs, differences, check_clocks,
  counts_of,
}

module _ {A : Type 0} (eqb : A → A → Bool) where
  -- Every row of one table stands in the other.
  abbrev pub Within : List A → List A → Type 0
  Within xs ys = All (λ x. holds eqb ys x ≡ true) xs

  distinct_empty : (xs : List A) → length (distinct eqb xs) ≡ 0 → xs ≡ []
  unfolding distinct
  distinct_empty [] h = refl
  distinct_empty (x ∷ xs) h = elim (Bool-cases (holds eqb xs x)) [
    | inl y ↦
        let none_left : xs ≡ [] = distinct_empty xs (ground arith) in
        let gone : holds eqb [] x ≡ true = rw none_left at y in cc gone
    | inr n ↦ absurd (ground arith)
  ]

  distinct_nil : length (distinct eqb []) ≡ 0
  unfolding distinct
  distinct_nil = refl

  keep_none_Within : (xs ys : List A) → (keep (λ a. not (holds eqb ys a)) xs ≡ []) ↔ Within xs ys
  keep_none_Within [] ys = (λ h. tt, λ h. refl)
  keep_none_Within (x ∷ xs) ys = elim (Bool-cases (holds eqb ys x)) [
    | inl y ↦ rw y (λ h. (refl, (keep_none_Within xs ys).0 h), λ h. (keep_none_Within xs ys).1 h.1)
    | inr n ↦ rw n (λ h. cc h, λ h. cc h.0)
  ]

  except_iff : (xs ys : List A) → (length (except eqb xs ys) ≡ 0) ↔ Within xs ys
  unfolding except
  except_iff xs ys = (
    λ h. (keep_none_Within xs ys).0 (distinct_empty _ h),
    λ h. rw ((keep_none_Within xs ys).1 h) distinct_nil,
  )

-- The counts of two tables are identical exactly if the tables have as many rows and every row of
-- each stands in the other.
pub identical-compare_tables :
    {A : Type 0} (eqb : A → A → Bool) (left right : List A)
    → (identical (compare_tables eqb left right) ≡ true)
      ↔ ((length left ≡ length right) × Within eqb left right × Within eqb right left)
unfolding identical compare_tables
identical-compare_tables eqb left right =
    let l = except_iff eqb left right in
    let r = except_iff eqb right left in
    (
      λ h. (ground arith, l.0 (ground arith), r.0 (ground arith)),
      λ (n, a, b). rw (n, l.1 a, r.1 b) (ground arith),
    )

identical_of_check :
    (c : Counts) (e : Exception) → raise_if (not (identical c)) e ≡ ok tt → identical c ≡ true
identical_of_check c e h = ground arith

-- The clock check returns counts only if they are those of its first row and identical, so both
-- clocks select as many rows and neither selects one that the other does not; any failure of its
-- query stays a failure.
pub check_clocks_sound :
    (read_int : String → Option ℕ) (result : Result Exception (List (List String))) (c : Counts)
    → check_clocks read_int result ≡ ok c
    → (row : List String) × (rest : List (List String)) × (result ≡ ok (row ∷ rest))
      × (counts_of read_int row ≡ ok c)
      × (identical c ≡ true)
unfolding check_clocks
check_clocks_sound read_int (err (audit_failed r)) c h = cc
check_clocks_sound read_int (err _) c h = cc
check_clocks_sound read_int (ok []) c h = cc
check_clocks_sound read_int (ok (row ∷ rest)) c h =
    let (counts, read, h1) = >>=-eq-ok (counts_of read_int row) _ h in
    let (u, same, h2) = >>=-eq-ok (raise_if (not (identical counts)) _) _ h1 in
    (
      row,
      rest,
      refl,
      rw (ok-injective h2) at read,
      rw (ok-injective h2) at (identical_of_check counts _ same),
    )

-- A table is named by `differences` as often as it is listed with counts that are not identical.
pub differences-keep :
    (results : List (String × Counts))
    → differences results ≡ map (λ r. r.0) (keep (λ r. not (identical r.1)) results)
unfolding differences identical
differences-keep [] = refl
differences-keep ((table, c) ∷ rest) = elim (Bool-cases (identical c)) [
  | inl y ↦ let d : differs c ≡ false = ground arith in rw (d, y, identical) (differences-keep rest)
  | inr n ↦
      let d : differs c ≡ true = ground arith in
      rw (d, n, identical) (ap (λ r. table ∷ r) (differences-keep rest))
]
