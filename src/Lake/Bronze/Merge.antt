-- ===== src/Lake/Bronze/Merge.antt =====
-- A retry of the MERGE inserts nothing.
use gridlens.Prelude.{
  ℕ, ◌≡◌, refl, ap, ◌∙◌, inl, inr, true, false, ◌&&◌, ◌||◌, List, [], ◌∷◌, ◌++◌, any, keep, All, In,
  All-In, All-keep, All-map, All-both, any-append, any-keep, any_congr, keep_nothing, Bool-cases,
  arith,
}
use mathlib.Core.List.{append-nil}
use text.Mathlib.TextPositions.{eq_refl}
use gridlens.Lake.Bronze.{
  Row, same_period, same_version, in_window, latest, changed, matched, is_inserted, merge,
}

module _ (start end : ℕ) where
  -- Rows of other periods, or outside the window, leave the latest row of a period as it is.
  pub latest-append :
      (s : Row) (table added : List Row)
      → any (λ t. same_period t s && in_window start end t) added ≡ false
      → latest start end s (table ++ added) ≡ latest start end s table
  unfolding latest
  latest-append s [] [] h = refl
  latest-append s [] (t ∷ added) h = ground (arith, latest-append s [] added)
  latest-append s (t ∷ table) added h = ground (arith, latest-append s table added h)

  same_version_self : (s : Row) → same_version s s ≡ true
  unfolding same_version same_period
  same_version_self s =
      ground
        (arith, eq_refl s.source, eq_refl s.zone, eq_refl s.production_type, eq_refl s.direction)

  -- Among rows known at one time a row of the period is the version.
  version_of_period :
      (k : ℕ) (s a : Row)
      → s.known_at ≡ k
      → a.known_at ≡ k
      → (same_period a s && in_window start end a) ≡ (same_version a s && in_window start end a)
  unfolding same_version
  version_of_period k s a e f = ground arith

  -- Once its version is in the table, or what it would change is, a staged row is not inserted.
  not_inserted_of_matched :
      (table : List Row) (s : Row)
      → matched start end s table ≡ true
      → is_inserted start end table s ≡ false
  unfolding is_inserted
  not_inserted_of_matched table s h = ground arith

  inserted_parts :
      (table : List Row) (s : Row)
      → is_inserted start end table s ≡ false
      → (matched start end s table ≡ false → changed s (latest start end s table) ≡ false)
  unfolding is_inserted
  inserted_parts table s h m = ground arith

  pub matched-append :
      (s : Row) (table added : List Row)
      → matched start end s (table ++ added)
        ≡ (matched start end s table || any (λ t. same_version t s && in_window start end t) added)
  unfolding matched
  matched-append s table added = any-append _ table added

  not_inserted_of_unchanged :
      (table table' : List Row) (s : Row)
      → changed s (latest start end s table) ≡ false
      → latest start end s table' ≡ latest start end s table
      → is_inserted start end table' s ≡ false
  unfolding is_inserted
  not_inserted_of_unchanged table table' s h e = rw (e, h) refl

  -- A staged row after the merge of a batch that holds it and is known at one time.
  settled :
      (k : ℕ) (staged table : List Row) (s : Row)
      → All (λ r. r.known_at ≡ k) staged
      → In s staged
      → s.known_at ≡ k
      → in_window start end s ≡ true
      → is_inserted start end (merge start end staged table) s ≡ false
  unfolding merge
  settled k staged table s known member sk sw =
      let added = keep (is_inserted start end table) staged in
      elim (Bool-cases (any (λ t. same_version t s && in_window start end t) added)) [
        | inl there ↦
            not_inserted_of_matched (table ++ added) s (matched-append s table added ∙ ground arith)
        | inr fresh ↦
            let other : any (λ t. same_period t s && in_window start end t) added ≡ false =
              any_congr _ _ added (
                All-keep _ _ staged
                  (All-map _ _ staged (λ a e. version_of_period k s a sk e) known))
              ∙ fresh in
            let same = latest-append s table added other in
            elim (Bool-cases (is_inserted start end table s)) [
              | inl was ↦
                  let here : any (λ t. same_version t s && in_window start end t) added ≡ true =
                    any-keep _ _ staged
                    ∙ member
                        (λ t.
                          (same_version t s && in_window start end t)
                          && is_inserted start end table t)
                        (rw (same_version_self s, sw, was) refl) in
                  cc (here, fresh)
              | inr not_was ↦ elim (Bool-cases (matched start end s table)) [
                | inl m ↦
                    not_inserted_of_matched (table ++ added) s
                      (matched-append s table added ∙ rw m refl)
                | inr nm ↦
                    not_inserted_of_unchanged table (table ++ added) s
                      (inserted_parts table s not_was nm) same
              ]
            ]
      ]

merge_nothing :
    (start end : ℕ) (staged table : List Row)
    → All (λ s. is_inserted start end table s ≡ false) staged
    → merge start end staged table ≡ table
unfolding merge
merge_nothing start end staged table h =
    ap (λ added. table ++ added) (keep_nothing (is_inserted start end table) staged h)
    ∙ append-nil table

-- Merging a batch a second time changes nothing: if every staged row is known at the same time and
-- its period lies in the window, the second merge leaves the table that the first has made.
pub merge_idempotent :
    (start end k : ℕ) (staged table : List Row)
    → All (λ r. r.known_at ≡ k) staged
    → All (λ r. in_window start end r ≡ true) staged
    → merge start end staged (merge start end staged table) ≡ merge start end staged table
merge_idempotent start end k staged table known within =
    merge_nothing start end staged (merge start end staged table) (
      All-map _ _ staged (λ s h. settled start end k staged table s known h.1 h.0.0 h.0.1)
        (All-both _ _ staged (All-both _ _ staged known within) (All-In staged)))
