-- ===== src/Prelude/Counts.antt =====
-- How many items of a list a test holds of.
use Prim.Native.Nat.{ℕ, ◌+◌, ◌≤◌}
use mathlib.Core.Path.{◌≡◌, refl}
use mathlib.Core.Logic.{◌↔◌, inl, inr}
use mathlib.Core.Bool.{Bool, true, false, not, ◌&&◌, ◌||◌}
use mathlib.Core.List.{List, [], ◌∷◌}
use native.Mathlib.Omega.{arith}
use gridlens.Prelude.Tests.{Bool-cases, if◌then◌else◌}
use gridlens.Prelude.Lists.{length, keep, All}

module _ {ℓ} {A : Type ℓ} where
  unfoldable pub count : (A → Bool) → List A → ℕ
  count p [] = 0
  count p (x ∷ xs) = (if p x then 1 else 0) + count p xs

  pub count-false : (p : A → Bool) (xs : List A) → ((x : A) → p x ≡ false) → count p xs ≡ 0
  unfolding count
  count-false p [] h = refl
  count-false p (x ∷ xs) h = rw (h x) (omega (arith, count-false p xs h))

  pub count_or :
      (p r : A → Bool) (xs : List A)
      → ((x : A) → (p x && r x) ≡ false)
      → count (λ x. p x || r x) xs ≡ count p xs + count r xs
  unfolding count
  count_or p r [] h = refl
  count_or p r (x ∷ xs) h = ground (arith, h x, count_or p r xs h)

  pub length-keep-not :
      (p : A → Bool) (xs : List A) → length (keep (λ x. not (p x)) xs) + count p xs ≡ length xs
  unfolding count
  length-keep-not p [] = refl
  length-keep-not p (x ∷ xs) = ground (arith, length-keep-not p xs)

  pub count_congr : (p r : A → Bool) (xs : List A) → ((x : A) → p x ≡ r x) → count p xs ≡ count r xs
  unfolding count
  count_congr p r [] h = refl
  count_congr p r (x ∷ xs) h = rw (h x, count_congr p r xs h) refl

  pub count_mono :
      (p r : A → Bool) (xs : List A) → ((x : A) → p x ≡ true → r x ≡ true) → count p xs ≤ count r xs
  unfolding count
  count_mono p r [] h = omega arith
  count_mono p r (x ∷ xs) h =
      let rest = count_mono p r xs h in
      elim (Bool-cases (p x)) [
        | inl y ↦ rw (y, h x y) (omega (arith, rest))
        | inr n ↦ ground (arith, n, rest)
      ]

  pub count-length : (p : A → Bool) (xs : List A) → count p xs ≤ length xs
  unfolding count
  count-length p [] = omega arith
  count-length p (x ∷ xs) = let rest = count-length p xs in ground (arith, rest)

  -- The count is the length exactly where every item is counted.
  pub count_full :
      (p : A → Bool) (xs : List A) → (count p xs ≡ length xs) ↔ All (λ x. p x ≡ true) xs
  unfolding count
  count_full p [] = (λ h. tt, λ h. refl)
  count_full p (x ∷ xs) =
      let most = count-length p xs in
      let (to, from) = count_full p xs in
      (
        λ h. (ground (arith, h, most), to (ground (arith, h, most))),
        λ h. rw h.0 (omega (arith, from h.1)),
      )
