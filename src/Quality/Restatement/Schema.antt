-- ===== src/Quality/Restatement/Schema.antt =====
-- The schema that the audit builds into is one that the teardown drops.
use text.Mathlib.TextLemmas.{append-nil, append_cancel_left}
use gridlens.Prelude.{
  ◌<>◌, sym, ◌++◌, &&_parts, ℕ, ◌≡◌, ◌≢◌, refl, ◌∙◌, String, Bool, true, not, ◌&&◌, ◌||◌, List, [],
  ◌∷◌, ok, all, any, str_eq, eq_iff, ◌==◌, arith, Bool-cases, inl, inr,
}
use gridlens.Timeaxis.Duration.{codes}
use gridlens.Timeaxis.Duration.Joined.{codes-append}
use gridlens.Ingest.Client.{has_prefix}
use gridlens.Scripts.Texts.{starts_with}
use gridlens.Scripts.Teardown.{prefixes, check_schema}
use gridlens.Quality.Restatement.Window.{audit_prefix, schema_for}

has_prefix_self : (p s : List ℕ) → has_prefix p (p ++ s) ≡ true
unfolding has_prefix
has_prefix_self [] s = refl
has_prefix_self (c ∷ p) s = let h = has_prefix_self p s in ground (arith, h)

all-append :
    (q : ℕ → Bool) (xs ys : List ℕ) → all q xs ≡ true → all q ys ≡ true → all q (xs ++ ys) ≡ true
all-append q [] ys h k = k
all-append q (x ∷ xs) ys h k =
    let (a, b) = &&_parts (q x) (all q xs) h in rw (a, all-append q xs ys b k) refl

all_weaken : (q r : ℕ → Bool) (xs : List ℕ) → all q xs ≡ true → all (λ c. q c || r c) xs ≡ true
all_weaken q r [] h = refl
all_weaken q r (x ∷ xs) h =
    let (a, b) = &&_parts (q x) (all q xs) h in rw (a, all_weaken q r xs b) refl

extends_self : (p t : String) → t ≢ "" → (starts_with (p <> t) p && not (str_eq (p <> t) p)) ≡ true
extends_self p t some_text =
    let begins : starts_with (p <> t) p ≡ true =
      rw (codes-append p t) (has_prefix_self (codes p) (codes t)) in
    elim (Bool-cases (str_eq (p <> t) p)) [
      | inl y ↦
          absurd
            (some_text (append_cancel_left p t "" ((eq_iff (p <> t) p).0 y ∙ sym (append-nil p))))
      | inr n ↦ rw (begins, n) refl
    ]

-- Where the text of a date is not empty and every character of it is a letter or a digit, and so are
-- those of the prefix but its underscores: `check_schema` of the teardown accepts the schema that
-- `schema_for` names, for every day.
pub check_schema-schema_for :
    (is_alnum : ℕ → Bool) (compact : ℕ → String) (run_day : ℕ)
    → compact run_day ≢ ""
    → all is_alnum (codes (compact run_day)) ≡ true
    → all (λ c. is_alnum c || c == b'_') (codes audit_prefix) ≡ true
    → check_schema is_alnum (schema_for compact run_day) ≡ ok tt
unfolding check_schema schema_for
check_schema-schema_for is_alnum compact run_day some_text plain lead =
    let t = compact run_day in
    let name = audit_prefix <> t in
    let listed = extends_self audit_prefix t some_text in
    let every : all (λ c. is_alnum c || c == b'_') (codes name) ≡ true =
      rw (codes-append audit_prefix t) (
        all-append (λ c. is_alnum c || c == b'_') (codes audit_prefix) (codes t) lead
          (all_weaken is_alnum (λ c. c == b'_') (codes t) plain)) in
    let known : any (λ p. starts_with name p && not (str_eq name p)) prefixes ≡ true =
      ground arith in
    rw (known, every) refl
