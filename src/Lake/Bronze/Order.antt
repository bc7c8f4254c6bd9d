-- ===== src/Lake/Bronze/Order.antt =====
-- The MERGE does not look at the order of the rows, of the table or of the batch.
use mathlib.Core.Path.{subst}
use mathlib.Core.List.Permᴰ
use mathlib.Core.List.{Permᴰ}
use gridlens.Prelude.{
  ℕ, ◌≡◌, refl, sym, ap, ◌∙◌, inl, inr, Bool, true, false, ◌&&◌, Option, none, some, List, ◌∷◌,
  ◌++◌, any, keep, keep_congr, All_always, Bool-cases, arith, ◌==◌,
}
use gridlens.Lake.Bronze.{
  Row, same_period, same_version, in_window, later_of, latest, matched, is_inserted, merge,
}
use gridlens.Lake.Bronze.Unique.{Unique, same_period_sym, same_period_left, same_version_sym}

any-Perm : (p : Row → Bool) {xs ys : List Row} → Permᴰ xs ys → any p xs ≡ any p ys
any-Perm p Permᴰ.nil = refl
any-Perm p (Permᴰ.cons e d) = rw (e, any-Perm p d) refl
any-Perm p (Permᴰ.swap {l = l} e f) = rw (e, f) (ground arith)
any-Perm p (Permᴰ.trans d g) = any-Perm p d ∙ any-Perm p g

keep-swap :
    (p : Row → Bool) (a b : Row) (l : List Row) → Permᴰ (keep p (a ∷ b ∷ l)) (keep p (b ∷ a ∷ l))
keep-swap p a b l = elim (Bool-cases (p a)) [
  | inl y ↦ elim (Bool-cases (p b)) [
    | inl z ↦ rw (y, z) (Permᴰ.swap refl refl)
    | inr z ↦ rw (y, z) (Permᴰ.refl (a ∷ keep p l))
  ]
  | inr n ↦ rw n (Permᴰ.refl (keep p (b ∷ l)))
]

keep-Perm : (p : Row → Bool) {xs ys : List Row} → Permᴰ xs ys → Permᴰ (keep p xs) (keep p ys)
keep-Perm p Permᴰ.nil = Permᴰ.nil
keep-Perm p (Permᴰ.cons {a = a} {b = b} e d) = elim (Bool-cases (p a)) [
  | inl y ↦ let z : p b ≡ true = sym (ap p e) ∙ y in rw (y, z) (Permᴰ.cons e (keep-Perm p d))
  | inr n ↦ let z : p b ≡ false = sym (ap p e) ∙ n in rw (n, z) (keep-Perm p d)
]
keep-Perm p (Permᴰ.swap {a = a} {b = b} {l = l} e f) = rw (sym e, sym f) (keep-swap p a b l)
keep-Perm p (Permᴰ.trans d g) = Permᴰ.trans (keep-Perm p d) (keep-Perm p g)

Unique-swap : (a b : Row) (l : List Row) → Unique (a ∷ b ∷ l) → Unique (b ∷ a ∷ l)
Unique-swap a b l u =
    (ground (arith, u.0, u.1.0, same_version_sym a b), (ground (arith, u.0), u.1.1))

pub Unique-Perm : {xs ys : List Row} → Permᴰ xs ys → Unique xs → Unique ys
Unique-Perm Permᴰ.nil u = tt
Unique-Perm (Permᴰ.cons {a = a} {b = b} {l₁ = l} {l₂ = l'} e d) u =
    (sym (any-Perm (λ t. same_version t b) d) ∙ rw (sym e) u.0, Unique-Perm d u.1)
Unique-Perm (Permᴰ.swap {a = a} {b = b} {a' = c} {b' = d} {l = l} e f) u =
    subst (λ z. Unique (z ∷ d ∷ l)) f (subst (λ z. Unique (b ∷ z ∷ l)) e (Unique-swap a b l u))
Unique-Perm (Permᴰ.trans d g) u = Unique-Perm g (Unique-Perm d u)

later_of_swap :
    (x y : Row) (o : Option Row)
    → (x.known_at == y.known_at) ≡ false
    → later_of x (later_of y o) ≡ later_of y (later_of x o)
unfolding later_of
later_of_swap x y none h = ground arith
later_of_swap x y (some l) h = ground arith

known_apart :
    (s a b : Row)
    → same_period a s ≡ true
    → same_period b s ≡ true
    → same_version b a ≡ false
    → (a.known_at == b.known_at) ≡ false
unfolding same_version
known_apart s a b h k v =
    let e = same_period_left b s a k in ground (arith, e, h, same_period_sym a s)

module _ (start end : ℕ) where
  abbrev stands_for : Row → Row → Bool
  stands_for s t = same_period t s && in_window start end t

  latest-swap :
      (s a b : Row) (l : List Row)
      → same_version b a ≡ false
      → latest start end s (a ∷ b ∷ l) ≡ latest start end s (b ∷ a ∷ l)
  unfolding latest
  latest-swap s a b l h = elim (Bool-cases (stands_for s a)) [
    | inl y ↦ elim (Bool-cases (stands_for s b)) [
      | inl z ↦
          rw (y, z)
            (later_of_swap a b (latest start end s l)
              (known_apart s a b (ground arith) (ground arith) h))
      | inr m ↦ rw (y, m) refl
    ]
    | inr n ↦ rw n refl
  ]

  latest-Perm :
      (s : Row) {xs ys : List Row}
      → Permᴰ xs ys
      → Unique xs
      → latest start end s xs ≡ latest start end s ys
  unfolding latest
  latest-Perm s Permᴰ.nil u = refl
  latest-Perm s (Permᴰ.cons e d) u = rw (e, latest-Perm s d u.1) refl
  latest-Perm s (Permᴰ.swap {a = a} {b = b} {a' = c} {b' = d} {l = l} e f) u =
      latest-swap s a b l (ground (arith, u.0))
      ∙ ap (λ z. latest start end s (b ∷ z ∷ l)) e
      ∙ ap (λ z. latest start end s (z ∷ d ∷ l)) f
  latest-Perm s (Permᴰ.trans d g) u = latest-Perm s d u ∙ latest-Perm s g (Unique-Perm d u)

  is_inserted-Perm :
      {xs ys : List Row}
      → Permᴰ xs ys
      → Unique xs
      → (s : Row) → is_inserted start end xs s ≡ is_inserted start end ys s
  unfolding is_inserted matched
  is_inserted-Perm d u s = rw (latest-Perm s d u, any-Perm _ d) refl

  -- The MERGE is an operation on bags of rows: reordering the table or the batch reorders the result.
  pub merge-Perm :
      {staged staged' table table' : List Row}
      → Unique table
      → Permᴰ staged staged'
      → Permᴰ table table'
      → Permᴰ (merge start end staged table) (merge start end staged' table')
  unfolding merge
  merge-Perm {staged = staged} {staged' = staged'} {table = table} {table' = table'} u p d =
      let same : keep (is_inserted start end table) staged'
          ≡ keep (is_inserted start end table') staged' =
        keep_congr _ _ staged' (All_always _ staged' (is_inserted-Perm d u)) in
      subst (λ z. Permᴰ (merge start end staged table) (table' ++ z)) same
        (Permᴰ.trans (Permᴰ.append_right (keep (is_inserted start end table) staged) d)
          (Permᴰ.append_left table' (keep-Perm (is_inserted start end table) p)))
