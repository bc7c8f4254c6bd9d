-- ===== src/Lake/Bronze/Restate.antt =====
-- What the table promises its readers: for each period the newest values, which a batch replaces where
-- it restates them. A sequence of merges does to the table what the batches do to that view.
use gridlens.Prelude.{
  ℕ, ◌<◌, ◌≡◌, refl, sym, ap, ◌∙◌, inl, inr, String, Bool, true, false, Option, none, some, List,
  [], ◌∷◌, ◌++◌, any, keep, All, All-map, Bool-cases, Option-cases, arith, str_eq, eq_iff,
  if◌then◌else◌,
}
use gridlens.Prelude.Int.{ℤ, eqb_ℤ-sound}
use mathlib.Core.Path.{fun_ext}
use gridlens.Lake.Bronze.{
  Row, same_period, same_version, in_window, latest, later_of, distinct_from, changed, matched,
  is_inserted, merge,
}

-- What a reader sees of a period: the quantity, and when the source last changed it.
pub record Values : Type 0 where
  pub quantity : ℤ
  pub source_updated_at : Option ℕ

abbrev pub values : Row → Values
values r = record { quantity = r.quantity; source_updated_at = r.source_updated_at }

-- The view of a table: a row stands for its period.
abbrev pub View : Type 0
View = Row → Option Values

abbrev pub of_row : Option Row → Option Values
of_row none = none
of_row (some r) = some (values r)

pub view : ℕ → ℕ → List Row → View
view start end table s = of_row (latest start end s table)

-- The first row of a batch for a period.
pub staged_for : Row → List Row → Option Row
staged_for s [] = none
staged_for s (t ∷ rest) = let later = staged_for s rest in if same_period t s then some t else later

-- The abstract operation: a period that the batch has a row for takes the row's values.
pub restate : List Row → View → View
restate staged v s = elim (staged_for s staged) [ none ↦ v s | some t ↦ some (values t) ]

-- A batch has one row for a period.
abbrev pub OnePerPeriod : List Row → Type 0
OnePerPeriod [] = Unit
OnePerPeriod (r ∷ rest) = (any (λ t. same_period t r) rest ≡ false) × OnePerPeriod rest

str_eq_trans : (a b c : String) → str_eq a b ≡ true → str_eq c a ≡ str_eq c b
str_eq_trans a b c h = rw ((eq_iff a b).0 h) refl

period_parts :
    (a b : Row)
    → same_period a b ≡ true
    → (str_eq a.source b.source ≡ true)
      × (str_eq a.zone b.zone ≡ true)
      × (str_eq a.production_type b.production_type ≡ true)
      × (str_eq a.direction b.direction ≡ true)
      × (a.valid_time ≡ b.valid_time)
unfolding same_period
period_parts a b h = (ground arith, ground arith, ground arith, ground arith, ground arith)

-- Rows of one period are of the same period as the same rows.
same_period_congr : (a b x : Row) → same_period a b ≡ true → same_period x a ≡ same_period x b
unfolding same_period
same_period_congr a b x h =
    let (s, z, p, d, v) = period_parts a b h in
    rw
      (
        str_eq_trans a.source b.source x.source s,
        str_eq_trans a.zone b.zone x.zone z,
        str_eq_trans a.production_type b.production_type x.production_type p,
        str_eq_trans a.direction b.direction x.direction d,
        v,
      )
      refl

module _ (start end : ℕ) where
  latest_congr :
      (a b : Row) (table : List Row)
      → same_period a b ≡ true
      → latest start end a table ≡ latest start end b table
  unfolding latest
  latest_congr a b [] h = refl
  latest_congr a b (t ∷ table) h = rw (same_period_congr a b t h, latest_congr a b table h) refl

  latest-keep-none :
      (ins : Row → Bool) (s : Row) (staged : List Row)
      → any (λ t. same_period t s) staged ≡ false
      → latest start end s (keep ins staged) ≡ none
  unfolding latest
  latest-keep-none ins s [] h = refl
  latest-keep-none ins s (t ∷ staged) h = ground (arith, latest-keep-none ins s staged)

  -- Of the rows of a batch that are inserted, the latest of a period is the batch's row for it.
  latest-keep :
      (ins : Row → Bool) (s t : Row) (staged : List Row)
      → OnePerPeriod staged
      → All (λ r. in_window start end r ≡ true) staged
      → staged_for s staged ≡ some t
      → latest start end s (keep ins staged) ≡ (if ins t then some t else none)
  unfolding latest later_of staged_for
  latest-keep ins s t [] u w h = cc
  latest-keep ins s t (x ∷ staged) u w h = elim (Bool-cases (same_period x s)) [
    | inl same ↦
        let others : any (λ r. same_period r s) staged ≡ false =
          ap (λ f. any f staged) (fun_ext (λ r. sym (same_period_congr x s r same))) ∙ u.0 in
        ground (arith, latest-keep-none ins s staged others)
    | inr other ↦ ground (arith, latest-keep ins s t staged u.1 w.1)
  ]

  latest-append-some :
      (k : ℕ) (s a : Row) (table added : List Row)
      → All (λ r. r.known_at < k) table
      → a.known_at ≡ k
      → latest start end s added ≡ some a
      → latest start end s (table ++ added) ≡ some a
  unfolding latest later_of
  latest-append-some k s a [] added h e l = l
  latest-append-some k s a (t ∷ table) added h e l =
      ground (arith, latest-append-some k s a table added h.1 e l)

  latest-append-none :
      (s : Row) (table added : List Row)
      → latest start end s added ≡ none
      → latest start end s (table ++ added) ≡ latest start end s table
  unfolding latest
  latest-append-none s [] added l = l
  latest-append-none s (t ∷ table) added l = rw (latest-append-none s table added l) refl

  not_matched :
      (k : ℕ) (t : Row) (table : List Row)
      → All (λ r. r.known_at < k) table
      → t.known_at ≡ k
      → matched start end t table ≡ false
  unfolding matched same_version
  not_matched k t [] h e = refl
  not_matched k t (r ∷ table) h e = ground (arith, not_matched k t table h.1 e)

distinct_from-false : (a b : Option ℕ) → distinct_from a b ≡ false → a ≡ b
distinct_from-false none none h = refl
distinct_from-false none (some b) h = cc
distinct_from-false (some a) none h = cc
distinct_from-false (some a) (some b) h = ground arith

changed_values : (t : Row) (l : Option Row) → changed t l ≡ false → of_row l ≡ some (values t)
unfolding changed
changed_values t none h = cc
changed_values t (some l) h =
    let q : l.quantity ≡ t.quantity = eqb_ℤ-sound l.quantity t.quantity (ground arith) in
    let u : l.source_updated_at ≡ t.source_updated_at =
      distinct_from-false l.source_updated_at t.source_updated_at (ground arith) in
    cc (q, u)

staged_for_period :
    (P : Row → Type 0) (s t : Row) (staged : List Row)
    → All P staged
    → staged_for s staged ≡ some t
    → P t × (same_period t s ≡ true)
unfolding staged_for
staged_for_period P s t [] h e = cc
staged_for_period P s t (x ∷ staged) h e = elim (Bool-cases (same_period x s)) [
  | inl same ↦
      let x_is_t : x ≡ t = cc (rw (same, staged_for) at e) in
      let found : P x × (same_period x s ≡ true) = (h.0, same) in rw x_is_t at found
  | inr other ↦ staged_for_period P s t staged h.1 (rw (other, staged_for) at e)
]

staged_for-none :
    (s : Row) (staged : List Row)
    → staged_for s staged ≡ none
    → any (λ t. same_period t s) staged ≡ false
unfolding staged_for
staged_for-none s [] h = refl
staged_for-none s (t ∷ staged) h = ground (arith, staged_for-none s staged)

is_inserted_unless_same :
    (start end k : ℕ) (t : Row) (table : List Row)
    → All (λ r. r.known_at < k) table
    → t.known_at ≡ k
    → is_inserted start end table t ≡ false
    → changed t (latest start end t table) ≡ false
unfolding is_inserted
is_inserted_unless_same start end k t table h e i =
    let fresh = not_matched start end k t table h e in ground arith

-- A batch of one row for a period, learned after everything in the table, does to the table what it
-- does to the view: in its window a period that the batch has a row for shows that row's values,
-- whether or not the row was inserted, and any other period shows what it did.
pub view-merge :
    (start end k : ℕ) (staged table : List Row)
    → All (λ r. r.known_at < k) table
    → All (λ r. (r.known_at ≡ k) × (in_window start end r ≡ true)) staged
    → OnePerPeriod staged
    → (s : Row)
    → view start end (merge start end staged table) s ≡ restate staged (view start end table) s
unfolding merge view restate
view-merge start end k staged table older new one s =
    let ins = is_inserted start end table in
    let window = All-map _ _ staged (λ r h. h.1) new in
    elim (Option-cases (staged_for s staged)) [
      | inl absent ↦
          rw (absent, restate)
            (ap of_row (
              latest-append-none start end s table (keep ins staged)
                (latest-keep-none start end ins s staged (staged_for-none s staged absent))))
      | inr (t, present) ↦
          let (is_new, same) = staged_for_period _ s t staged new present in
          let added = latest-keep start end ins s t staged one window present in
          rw (present, restate)
            (elim (Bool-cases (ins t)) [
              | inl inserted ↦ ap of_row (
                  latest-append-some start end k s t table (keep ins staged) older is_new.0
                    (added ∙ rw inserted refl))
              | inr kept ↦
                  ap of_row
                    (latest-append-none start end s table (keep ins staged) (added ∙ rw kept refl))
                  ∙ ap of_row (sym (latest_congr start end t s table same))
                  ∙ changed_values t (latest start end t table)
                      (is_inserted_unless_same start end k t table older is_new.0 kept)
            ])
    ]
