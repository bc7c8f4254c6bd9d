-- ===== src/Lake/Bronze/Unique.antt =====
-- The MERGE and the identity of a row.
use mathlib.Core.Path.{fun_ext}
use gridlens.Prelude.{
  ℕ, ◌≡◌, refl, sym, ap, ◌∙◌, inl, inr, String, Bool, true, false, ◌&&◌, none, List, [], ◌∷◌, ◌++◌,
  any, keep, All, All-keep, All-map, All-both, any-append, keep_holds, Bool-cases, arith, str_eq,
  eq_iff,
}
use gridlens.Lake.Bronze.{
  Row, same_period, same_version, in_window, latest, changed, matched, is_inserted, merge,
}

-- No two rows have one identity.
abbrev pub Unique : List Row → Type 0
Unique [] = Unit
Unique (r ∷ rest) = (any (λ t. same_version t r) rest ≡ false) × Unique rest

str_eq_sym : (a b : String) → str_eq a b ≡ str_eq b a
str_eq_sym a b = ground (arith, eq_iff a b, eq_iff b a)

pub same_period_sym : (a b : Row) → same_period a b ≡ same_period b a
unfolding same_period
same_period_sym a b =
    rw
      (
        str_eq_sym a.source b.source,
        str_eq_sym a.zone b.zone,
        str_eq_sym a.production_type b.production_type,
        str_eq_sym a.direction b.direction,
      )
      (ground arith)

pub same_version_sym : (a b : Row) → same_version a b ≡ same_version b a
unfolding same_version
same_version_sym a b = ground (arith, same_period_sym a b)

str_eq_left : (a b c : String) → str_eq a b ≡ true → str_eq a c ≡ str_eq b c
str_eq_left a b c h = rw ((eq_iff a b).0 h) refl

-- Rows of one period, or of one identity, have it of the same rows.
pub same_period_left : (a b c : Row) → same_period a b ≡ true → same_period a c ≡ same_period b c
unfolding same_period
same_period_left a b c h =
    let s = str_eq_left a.source b.source c.source (ground arith) in
    let z = str_eq_left a.zone b.zone c.zone (ground arith) in
    let p = str_eq_left a.production_type b.production_type c.production_type (ground arith) in
    let d = str_eq_left a.direction b.direction c.direction (ground arith) in
    ground (arith, s, z, p, d)

pub same_version_left :
    (a b c : Row) → same_version a b ≡ true → same_version a c ≡ same_version b c
unfolding same_version
same_version_left a b c h =
    let period = same_period_left a b c (ground arith) in ground (arith, period)

-- No row has the identity of a given one, seen from the other side.
any_from_other :
    (x : Row) (ys : List Row)
    → All (λ y. same_version x y ≡ false) ys
    → any (λ t. same_version t x) ys ≡ false
any_from_other x [] h = refl
any_from_other x (y ∷ ys) h = rw (same_version_sym y x, h.0) (any_from_other x ys h.1)

Unique-append :
    (xs ys : List Row)
    → Unique xs
    → Unique ys
    → All (λ y. any (λ t. same_version t y) xs ≡ false) ys
    → Unique (xs ++ ys)
Unique-append [] ys u v h = v
Unique-append (x ∷ xs) ys u v h = (
  any-append (λ t. same_version t x) xs ys
      ∙ rw u.0 (any_from_other x ys (All-map _ _ ys (λ y e. ground arith) h)),
  Unique-append xs ys u.1 v (All-map _ _ ys (λ y e. ground arith) h),
)

any-keep-false : (q p : Row → Bool) (xs : List Row) → any q xs ≡ false → any q (keep p xs) ≡ false
any-keep-false q p [] h = refl
any-keep-false q p (x ∷ xs) h = ground (arith, any-keep-false q p xs)

Unique-keep : (p : Row → Bool) (xs : List Row) → Unique xs → Unique (keep p xs)
Unique-keep p [] u = tt
Unique-keep p (x ∷ xs) u = elim (Bool-cases (p x)) [
  | inl y ↦ rw y (any-keep-false _ p xs u.0, Unique-keep p xs u.1)
  | inr n ↦ rw n (Unique-keep p xs u.1)
]

-- Rows of one version lie in the window together.
version_in_window :
    (start end : ℕ) (t s : Row)
    → in_window start end s ≡ true
    → (same_version t s && in_window start end t) ≡ same_version t s
unfolding same_version same_period
version_in_window start end t s w = ground arith

not_matched_fresh :
    (start end : ℕ) (table : List Row) (s : Row)
    → in_window start end s ≡ true
    → is_inserted start end table s ≡ true
    → any (λ t. same_version t s) table ≡ false
unfolding is_inserted matched
not_matched_fresh start end table s w h =
    let same : any (λ t. same_version t s && in_window start end t) table
        ≡ any (λ t. same_version t s) table =
      ap (λ f. any f table) (fun_ext (λ t. version_in_window start end t s w)) in
    sym same ∙ ground arith

-- If no two rows of the table and no two rows of the batch have one identity, and the batch lies in
-- the window, then no two rows of the merged table have one identity, and it begins with the
-- table's rows as they were.
pub merge-Unique :
    (start end : ℕ) (staged table : List Row)
    → Unique table
    → Unique staged
    → All (λ r. in_window start end r ≡ true) staged
    → Unique (merge start end staged table)
      × (added : List Row) × (merge start end staged table ≡ table ++ added)
unfolding merge
merge-Unique start end staged table u v w =
    let ins = is_inserted start end table in
    (
      Unique-append table (keep ins staged) u (Unique-keep ins staged v) (
          All-map _ _ (keep ins staged) (λ s h. not_matched_fresh start end table s h.0 h.1)
            (All-both _ _ (keep ins staged) (All-keep _ ins staged w) (keep_holds ins staged))),
      keep ins staged,
      refl,
    )

latest-none :
    (start end : ℕ) (s : Row) (table : List Row)
    → any (λ t. same_period t s) table ≡ false
    → latest start end s table ≡ none
unfolding latest
latest-none start end s [] h = refl
latest-none start end s (t ∷ table) h = ground (arith, latest-none start end s table)

matched_none :
    (start end : ℕ) (s : Row) (table : List Row)
    → any (λ t. same_period t s) table ≡ false
    → matched start end s table ≡ false
unfolding matched same_version
matched_none start end s [] h = refl
matched_none start end s (t ∷ table) h = ground (arith, matched_none start end s table)

Unique-suffix : (xs ys : List Row) → Unique (xs ++ ys) → Unique ys
Unique-suffix [] ys u = u
Unique-suffix (x ∷ xs) ys u = Unique-suffix xs ys u.1

fresh_inserted :
    (start end : ℕ) (table : List Row) (s : Row)
    → any (λ t. same_period t s) table ≡ false
    → is_inserted start end table s ≡ true
unfolding is_inserted changed
fresh_inserted start end table s h =
    rw (latest-none start end s table h, matched_none start end s table h) refl

keep_everything : (p : Row → Bool) (xs : List Row) → All (λ x. p x ≡ true) xs → keep p xs ≡ xs
keep_everything p [] h = refl
keep_everything p (x ∷ xs) h = rw h.0 (ap (λ ys. x ∷ ys) (keep_everything p xs h.1))

-- The statement does not look for one identity twice within a batch: a batch of any length that holds
-- an identity twice, all of periods that the table does not hold, is inserted whole after the table's
-- rows, and the merged table holds an identity twice.
pub merge_duplicates :
    (start end : ℕ) (staged table : List Row)
    → All (λ s. any (λ t. same_period t s) table ≡ false) staged
    → ¬ Unique staged
    → (merge start end staged table ≡ table ++ staged) × (¬ Unique (merge start end staged table))
unfolding merge
merge_duplicates start end staged table fresh twice =
    let all_in : keep (is_inserted start end table) staged ≡ staged =
      keep_everything (is_inserted start end table) staged
        (All-map _ _ staged (λ s h. fresh_inserted start end table s h) fresh) in
    (ap (λ ys. table ++ ys) all_in, λ u. twice (Unique-suffix table staged (rw all_in at u)))
