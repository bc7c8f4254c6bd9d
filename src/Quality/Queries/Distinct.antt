-- ===== src/Quality/Queries/Distinct.antt =====
-- The distinct numbers of a list, counted over a grid that holds them.
use gridlens.Prelude.{
  ℕ, ◌<◌, ◌≡◌, refl, sym, ◌∙◌, inl, inr, Bool, true, false, ◌&&◌, ◌||◌, List, [], ◌∷◌, any, length,
  All, Bool-cases, arith, ◌==◌, count, count-false, count_or, count_congr,
}
use gridlens.Prelude.Int.{pos, eqb_ℤ}
use gridlens.Ingest.Parse.{range}
use gridlens.Ingest.Parse.Counting.{count_once}
use gridlens.Quality.Queries.{distinct_by}

-- DISTINCT of numbers
abbrev pub distinct : List ℕ → List ℕ
distinct = distinct_by (λ a b. a == b)

any-distinct : (x : ℕ) (xs : List ℕ) → any (λ y. y == x) (distinct xs) ≡ any (λ y. y == x) xs
unfolding distinct_by
any-distinct x [] = refl
any-distinct x (y ∷ xs) =
    let rest = any-distinct x xs in
    elim (Bool-cases (any (λ z. z == y) (distinct xs))) [
      | inl there ↦ rw there (elim (Bool-cases (y == x)) [
        | inl same ↦ let e : y ≡ x = ground arith in ground (arith, rw e at there)
        | inr other ↦ rw other rest
      ])
      | inr fresh ↦ rw fresh (rw rest refl)
    ]

module _ (f : ℕ → ℕ) (apart : (a b : ℕ) → (f a == f b) ≡ (a == b)) (n : ℕ) where
  -- a number of the grid
  abbrev pub OnGrid : ℕ → Type 0
  OnGrid x = (k : ℕ) × (k < n) × (x ≡ f k)

  abbrev pub hits : List ℕ → ℕ → Bool
  hits xs k = any (λ x. x == f k) xs

  one_hit : (j : ℕ) → j < n → count (λ k. f j == f k) (range 0 n) ≡ 1
  one_hit j h =
      count_congr (λ k. f j == f k) (λ k. eqb_ℤ (pos j) (pos k)) (range 0 n)
        (λ k. apart j k ∙ ground arith)
      ∙ count_once j 0 n (omega arith) (omega arith)

  hits_again :
      (x k : ℕ) (xs : List ℕ) → any (λ y. y == x) xs ≡ true → ((x == f k) || hits xs k) ≡ hits xs k
  hits_again x k xs there = elim (Bool-cases (x == f k)) [
    | inl y ↦ let e : x ≡ f k = ground arith in rw y (sym (rw e at there))
    | inr m ↦ rw m refl
  ]

  no_hit :
      (x k : ℕ) (xs : List ℕ) → any (λ y. y == x) xs ≡ false → ((x == f k) && hits xs k) ≡ false
  no_hit x k xs fresh = elim (Bool-cases (x == f k)) [
    | inl y ↦ let e : x ≡ f k = ground arith in rw y (rw e at fresh)
    | inr m ↦ rw m refl
  ]

  -- The distinct numbers of a grid are as many as the places of the grid that are hit.
  pub length-distinct :
      (xs : List ℕ) → All OnGrid xs → length (distinct xs) ≡ count (hits xs) (range 0 n)
  unfolding distinct_by
  length-distinct [] h = sym (count-false _ (range 0 n) (λ k. refl))
  length-distinct (x ∷ xs) h =
      let rest = length-distinct xs h.1 in
      elim (Bool-cases (any (λ y. y == x) xs)) [
        | inl there ↦ rw ((any-distinct x xs ∙ there)) (
            rest
            ∙ sym
                (count_congr (hits (x ∷ xs)) (hits xs) (range 0 n) (λ k. hits_again x k xs there)))
        | inr fresh ↦
            let (j, below, e) = h.0 in
            let split = count_or (λ k. x == f k) (hits xs) (range 0 n) (λ k. no_hit x k xs fresh) in
            let one : count (λ k. x == f k) (range 0 n) ≡ 1 = rw e (one_hit j below) in
            rw ((any-distinct x xs ∙ fresh)) (omega (arith, split, one, rest))
      ]
