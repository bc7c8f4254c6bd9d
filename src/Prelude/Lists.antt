-- ===== src/Prelude/Lists.antt =====
-- Lists measured by native numbers, Boolean search and filtering, and predicates on every item.
use Prim.Native.Nat.{ℕ, suc, ◌+◌}
use mathlib.Core.Path.{◌≡◌, refl, ap}
use mathlib.Core.Bool.{Bool, true, false, ◌&&◌, ◌||◌}
use mathlib.Core.List.{List, [], ◌∷◌, ◌++◌, map}
use native.Mathlib.Omega.{arith}
use mathlib.Core.Logic.{inl, inr}
use gridlens.Prelude.Tests.{if◌then◌else◌, Bool-cases}

module _ {ℓ} {A : Type ℓ} where
  abbrev pub length : List A → ℕ
  length [] = 0
  length (x ∷ xs) = suc (length xs)

  -- `any(p(x) for x in xs)`
  abbrev pub any : (A → Bool) → List A → Bool
  any p [] = false
  any p (x ∷ xs) = p x || any p xs

  abbrev pub all : (A → Bool) → List A → Bool
  all p [] = true
  all p (x ∷ xs) = p x && all p xs

  -- `[x for x in xs if p(x)]`
  abbrev pub keep : (A → Bool) → List A → List A
  keep p [] = []
  keep p (x ∷ xs) = let rest = keep p xs in if p x then x ∷ rest else rest

  abbrev pub All {κ} : (A → Type κ) → List A → Type κ
  All P [] = Unit
  All P (x ∷ xs) = P x × All P xs

  pub length-append : (xs ys : List A) → length (xs ++ ys) ≡ length xs + length ys
  length-append [] ys = omega arith
  length-append (x ∷ xs) ys = omega (arith, length-append xs ys)

  pub All-append {κ} : (P : A → Type κ) (xs ys : List A) → All P xs → All P ys → All P (xs ++ ys)
  All-append P [] ys h k = k
  All-append P (x ∷ xs) ys h k = (h.0, All-append P xs ys h.1 k)

  pub any-append : (p : A → Bool) (xs ys : List A) → any p (xs ++ ys) ≡ (any p xs || any p ys)
  any-append p [] ys = refl
  any-append p (x ∷ xs) ys = ground (arith, any-append p xs ys)

module _ {ℓ κ} {A : Type ℓ} {B : Type κ} where
  pub length-map : (f : A → B) (xs : List A) → length (map f xs) ≡ length xs
  length-map f [] = refl
  length-map f (x ∷ xs) = ap suc (length-map f xs)

module _ {ℓ} {A : Type ℓ} where
  -- Membership, as what Boolean search can see of it.
  abbrev pub In : A → List A → Type ℓ
  In a xs = (q : A → Bool) → q a ≡ true → any q xs ≡ true

  any_cons : (q : A → Bool) (x : A) (xs : List A) → any q xs ≡ true → any q (x ∷ xs) ≡ true
  any_cons q x xs h = ground arith

  All-In_cons : (x : A) (xs ys : List A) → All (λ a. In a xs) ys → All (λ a. In a (x ∷ xs)) ys
  All-In_cons x xs [] h = tt
  All-In_cons x xs (y ∷ ys) h = (λ q e. any_cons q x xs (h.0 q e), All-In_cons x xs ys h.1)

  pub All-In : (xs : List A) → All (λ a. In a xs) xs
  All-In [] = tt
  All-In (x ∷ xs) = (λ q e. ground arith, All-In_cons x xs xs (All-In xs))

  pub All-keep {κ} : (P : A → Type κ) (p : A → Bool) (xs : List A) → All P xs → All P (keep p xs)
  All-keep P p [] h = tt
  All-keep P p (x ∷ xs) h = elim (Bool-cases (p x)) [
    | inl y ↦ rw y (h.0, All-keep P p xs h.1)
    | inr n ↦ rw n (All-keep P p xs h.1)
  ]

  pub keep_holds : (p : A → Bool) (xs : List A) → All (λ x. p x ≡ true) (keep p xs)
  keep_holds p [] = tt
  keep_holds p (x ∷ xs) = elim (Bool-cases (p x)) [
    | inl y ↦ rw y (y, keep_holds p xs)
    | inr n ↦ rw n (keep_holds p xs)
  ]

  pub keep_nothing : (p : A → Bool) (xs : List A) → All (λ x. p x ≡ false) xs → keep p xs ≡ []
  keep_nothing p [] h = refl
  keep_nothing p (x ∷ xs) h = rw h.0 (keep_nothing p xs h.1)

  pub keep_congr : (f g : A → Bool) (xs : List A) → All (λ x. f x ≡ g x) xs → keep f xs ≡ keep g xs
  keep_congr f g [] h = refl
  keep_congr f g (x ∷ xs) h = rw (h.0, keep_congr f g xs h.1) refl

  pub any-keep : (q p : A → Bool) (xs : List A) → any q (keep p xs) ≡ any (λ x. q x && p x) xs
  any-keep q p [] = refl
  any-keep q p (x ∷ xs) = ground (arith, any-keep q p xs)

  pub any_congr : (f g : A → Bool) (xs : List A) → All (λ x. f x ≡ g x) xs → any f xs ≡ any g xs
  any_congr f g [] h = refl
  any_congr f g (x ∷ xs) h = rw (h.0, any_congr f g xs h.1)

  pub All-map {κ μ} :
      (P : A → Type κ) (Q : A → Type μ) (xs : List A) → ((x : A) → P x → Q x) → All P xs → All Q xs
  All-map P Q [] f h = tt
  All-map P Q (x ∷ xs) f h = (f x h.0, All-map P Q xs f h.1)

  -- What holds of anything holds of every item.
  pub All_always {κ} : (P : A → Type κ) (xs : List A) → ((x : A) → P x) → All P xs
  All_always P [] f = tt
  All_always P (x ∷ xs) f = (f x, All_always P xs f)

  pub All-both {κ μ} :
      (P : A → Type κ) (Q : A → Type μ) (xs : List A)
      → All P xs
      → All Q xs
      → All (λ x. P x × Q x) xs
  All-both P Q [] h k = tt
  All-both P Q (x ∷ xs) h k = ((h.0, k.0), All-both P Q xs h.1 k.1)
