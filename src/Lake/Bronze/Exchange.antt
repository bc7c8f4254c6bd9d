-- ===== src/Lake/Bronze/Exchange.antt =====
-- Batches of different periods can be merged in either order.
use mathlib.Core.List.Permᴰ
use mathlib.Core.List.{Permᴰ}
use gridlens.Prelude.{
  ℕ, ◌≡◌, refl, ◌∙◌, Bool, true, false, ◌&&◌, List, [], ◌∷◌, ◌++◌, any, any-keep, keep, keep_congr,
  All, All-map, arith,
}
use gridlens.Lake.Bronze.{Row, same_period, same_version, in_window, is_inserted, merge}
use gridlens.Lake.Bronze.Unique.{same_period_sym}
use gridlens.Lake.Bronze.Merge.{latest-append, matched-append}

any_narrow :
    (p q : Row → Bool) (xs : List Row)
    → ((x : Row) → q x ≡ true → p x ≡ true)
    → any p xs ≡ false
    → any q xs ≡ false
any_narrow p q [] h e = refl
any_narrow p q (x ∷ xs) h e =
    let f = h x in let rest = any_narrow p q xs h (ground arith) in ground (arith, f, rest, e)

module _ (start end : ℕ) where
  -- Rows of other periods do not matter to a staged row.
  is_inserted-append :
      (table added : List Row) (r : Row)
      → any (λ t. same_period t r) added ≡ false
      → is_inserted start end (table ++ added) r ≡ is_inserted start end table r
  unfolding is_inserted same_version
  is_inserted-append table added r h =
      let period =
        any_narrow _ (λ t. same_period t r && in_window start end t) added (λ t e. ground arith)
          h in
      let version =
        any_narrow _ (λ t. same_version t r && in_window start end t) added (λ t e. ground arith)
          h in
      rw
        (
          latest-append start end r table added period,
          matched-append start end r table added,
          version,
        )
        (ground arith)

  keep-inserted-append :
      (staged table added : List Row)
      → All (λ r. any (λ t. same_period t r) added ≡ false) staged
      → keep (is_inserted start end (table ++ added)) staged
        ≡ keep (is_inserted start end table) staged
  keep-inserted-append staged table added h =
      keep_congr _ _ staged (All-map _ _ staged (is_inserted-append table added) h)

-- Seen from the other batch.
apart_head :
    (x : Row) (b : List Row)
    → All (λ r. same_period x r ≡ false) b
    → any (λ t. same_period t x) b ≡ false
apart_head x [] h = refl
apart_head x (r ∷ b) h = rw (same_period_sym r x, h.0) (apart_head x b h.1)

apart_sym :
    (a b : List Row)
    → All (λ r. any (λ t. same_period t r) a ≡ false) b
    → All (λ r. any (λ t. same_period t r) b ≡ false) a
apart_sym [] b h = tt
apart_sym (x ∷ a) b h = (
  apart_head x b (All-map _ _ b (λ r e. ground arith) h),
  apart_sym a b (All-map _ _ b (λ r e. ground arith) h),
)

any_kept :
    (p : Row → Bool) (a b : List Row)
    → All (λ r. any (λ t. same_period t r) a ≡ false) b
    → All (λ r. any (λ t. same_period t r) (keep p a) ≡ false) b
any_kept p a b h =
    All-map _ _ b
      (λ r e. any-keep (λ t. same_period t r) p a ∙ any_narrow _ _ a (λ t f. ground arith) e) h

append_comm : (xs ys : List Row) → Permᴰ (xs ++ ys) (ys ++ xs)
append_comm [] ys = Permᴰ.symm (Permᴰ.append-nil ys)
append_comm (x ∷ xs) ys =
    Permᴰ.trans (Permᴰ.cons refl (append_comm xs ys)) (Permᴰ.symm (Permᴰ.middle x ys xs))

append_exchange : (t xs ys : List Row) → Permᴰ (t ++ xs ++ ys) (t ++ ys ++ xs)
append_exchange [] xs ys = append_comm xs ys
append_exchange (r ∷ t) xs ys = Permᴰ.cons refl (append_exchange t xs ys)

-- Two batches of different periods, each with its window, can be merged in either order: the tables
-- hold the same rows, up to their order.
pub merge-merge-Perm :
    (start end start' end' : ℕ) (a b table : List Row)
    → All (λ r. any (λ t. same_period t r) a ≡ false) b
    → Permᴰ
        (merge start' end' b (merge start end a table))
        (merge start end a (merge start' end' b table))
unfolding merge
merge-merge-Perm start end start' end' a b table h =
    let added = keep (is_inserted start end table) a in
    let added' = keep (is_inserted start' end' table) b in
    let first : keep (is_inserted start' end' (table ++ added)) b ≡ added' =
      keep-inserted-append start' end' b table added (any_kept _ a b h) in
    let second : keep (is_inserted start end (table ++ added')) a ≡ added =
      keep-inserted-append start end a table added' (any_kept _ b a (apart_sym a b h)) in
    rw (first, second) (append_exchange table added added')
