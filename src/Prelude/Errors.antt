-- ===== src/Prelude/Errors.antt =====
-- Code that may raise: the value, or the exception.
use mathlib.Core.Path.{◌≡◌, refl, subst, ap, ◌∙◌}
use mathlib.Core.Bool.{Bool, true, false}
use mathlib.Core.Option.{Option, none, some}
use mathlib.Core.Logic.{◌⊎◌, inl, inr}
use mathlib.Core.List.{List, [], ◌∷◌}
use gridlens.Prelude.Lists.{All}

pub data Result {ℓ} (E A : Type ℓ) : Type ℓ where
  ok : A → Result E A
  err : E → Result E A

infixl 5 ◌>>=◌ ◌>>◌
-- What follows a step that did not raise.
abbrev pub ◌>>=◌ {ℓ} : {E A B : Type ℓ} → Result E A → (A → Result E B) → Result E B
err e >>= next = err e
ok a >>= next = next a

abbrev pub ◌>>◌ : {E B : Type 0} → Result E (Unit {0}) → Result E B → Result E B
step >> next = step >>= λ done. next

-- `if c: raise e`
abbrev pub raise_if : {E : Type 0} → Bool → E → Result E (Unit {0})
raise_if true e = err e
raise_if false e = ok tt

abbrev pub or_raise {ℓ} : {E A : Type ℓ} → Option A → E → Result E A
or_raise none e = err e
or_raise (some a) e = ok a

-- A sequence that did not raise: its first step gave a value, and the rest went on with it.
pub >>=-eq-ok {ℓ} :
    {E A B : Type ℓ} {result : B} (step : Result E A) (next : A → Result E B)
    → (step >>= next) ≡ ok result
    → (value : A) × (step ≡ ok value) × (next value ≡ ok result)
>>=-eq-ok (err e) next h = cc
>>=-eq-ok (ok a) next h = (a, refl, h)

pub ok-injective {ℓ} : {E A : Type ℓ} {a b : A} → ◌≡◌ {A = Result E A} (ok a) (ok b) → a ≡ b
ok-injective h = cc

-- A `for` loop that may raise, over the state that it changes.
unfoldable pub fold_ok {ℓ} : {E S A : Type ℓ} → (S → A → Result E S) → S → List A → Result E S
fold_ok f s [] = ok s
fold_ok f s (a ∷ rest) = f s a >>= λ s'. fold_ok f s' rest

-- An invariant of the loop's body is one of the loop.
pub fold_ok_inv {ℓ κ} :
    {E S A : Type ℓ} (P : S → Type κ) (f : S → A → Result E S)
    → ((s s' : S) (a : A) → P s → f s a ≡ ok s' → P s')
    → (s s' : S) (xs : List A) → P s
    → fold_ok f s xs ≡ ok s'
    → P s'
unfolding fold_ok
fold_ok_inv P f keep s s' [] h e = subst P (ok-injective e) h
fold_ok_inv P f keep s s' (a ∷ rest) h e =
    let (t, step, later) = >>=-eq-ok (f s a) _ e in
    fold_ok_inv P f keep t s' rest (keep s t a h step) later

-- A loop whose body does not raise at the items of a list gets through the list.
pub fold_ok_total {ℓ κ} :
    {E S A : Type ℓ} (Q : A → Type κ) (f : S → A → Result E S)
    → ((s : S) (a : A) → Q a → (s' : S) × (f s a ≡ ok s'))
    → (s : S) (xs : List A) → All Q xs
    → (s' : S) × (fold_ok f s xs ≡ ok s')
unfolding fold_ok
fold_ok_total Q f go s [] h = (s, refl)
fold_ok_total Q f go s (a ∷ rest) h =
    let (t, step) = go s a h.0 in
    let (u, later) = fold_ok_total Q f go t rest h.1 in
    (u, ap (λ m. m >>= λ s'. fold_ok f s' rest) step ∙ later)

pub Result-cases {ℓ} :
    {E A : Type ℓ} (r : Result E A) → ((a : A) × (r ≡ ok a)) ⊎ ((e : E) × (r ≡ err e))
Result-cases (ok a) = inl (a, refl)
Result-cases (err e) = inr (e, refl)
