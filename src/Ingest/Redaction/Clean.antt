-- ===== src/Ingest/Redaction/Clean.antt =====
-- No secret is left in what the filter lets pass.
use text.Mathlib.TextPositions.{eq_refl}
use gridlens.Prelude.{
  zero, ◌≡◌, refl, sym, ap, ◌∙◌, inl, inr, String, Bool, true, false, not, List, [], ◌∷◌, any, keep,
  keep_holds, All, All-keep, Bool-cases, arith, str_eq,
}
use gridlens.Timeaxis.Duration.{codes}
use gridlens.Ingest.Client.{contains}
use gridlens.Ingest.Redaction.{secrets_of, replace, placeholder, redact, filter}
use gridlens.Ingest.Redaction.Replacing.{
  has, replaced, codes-replace_from, contains-replaced, needle-replaced,
}

-- A secret that the placeholder cannot spell: without its brackets, and not a part of it.
abbrev pub IsPlain : String → Type 0
IsPlain s =
    (has b'<' (codes s) ≡ false)
    × (has b'>' (codes s) ≡ false)
    × (contains (codes s) (codes placeholder) ≡ false)

-- A text in which a secret does not stand.
abbrev pub IsFree : String → String → Type 0
IsFree message s = contains (codes s) (codes message) ≡ false

replace-IsFree :
    (s message : String)
    → IsPlain s
    → str_eq s "" ≡ false
    → IsFree (replace s placeholder message) s
unfolding replace
replace-IsFree String.[] message p e = absurd (ground (arith, eq_refl ""))
replace-IsFree (String.◌∷◌ c s) message p e =
    ap (contains (codes (String.◌∷◌ c s)))
      (codes-replace_from (codes (String.◌∷◌ c s)) placeholder zero message)
    ∙ needle-replaced _ _ _ (codes message) zero b'<' b'>' p.0 p.1 refl p.2

-- Replacing another secret brings none back.
replace-keeps-IsFree :
    (t s message : String) → IsPlain s → IsFree message s → IsFree (replace t placeholder message) s
unfolding replace
replace-keeps-IsFree t s message p h =
    elim (Bool-cases (contains (codes s) (codes (replace t placeholder message)))) [
      | inl y ↦
          let there : contains (codes s)
                (replaced (codes t) (codes placeholder) zero (codes message))
              ≡ true =
            sym (ap (contains (codes s)) (codes-replace_from (codes t) placeholder zero message))
            ∙ y in
          let was =
            contains-replaced (codes t) _ (codes s) (codes message) zero b'<' b'>' p.0 p.1 refl p.2
              there in
          absurd (ground (arith, was, h))
      | inr n ↦ n
    ]

redact-keeps-IsFree :
    (secrets : List String) (s message : String)
    → IsPlain s
    → IsFree message s
    → IsFree (redact secrets message) s
unfolding redact
redact-keeps-IsFree [] s message p h = h
redact-keeps-IsFree (t ∷ secrets) s message p h =
    redact-keeps-IsFree secrets s (replace t placeholder message) p
      (replace-keeps-IsFree t s message p h)

redact-IsFree :
    (secrets : List String) (message : String)
    → All IsPlain secrets
    → All (λ s. not (str_eq s "") ≡ true) secrets
    → All (IsFree (redact secrets message)) secrets
unfolding redact
redact-IsFree [] message p e = tt
redact-IsFree (s ∷ secrets) message p e = (
  redact-keeps-IsFree secrets s (replace s placeholder message) p.0
      (replace-IsFree s message p.0 (ground (arith, e.0))),
  redact-IsFree secrets (replace s placeholder message) p.1 e.1,
)

any_none : {A : Type 0} (p : A → Bool) (xs : List A) → any p xs ≡ false → All (λ x. p x ≡ false) xs
any_none p [] h = tt
any_none p (x ∷ xs) h = (ground (arith, h), any_none p xs (ground (arith, h)))

-- Whatever the message, none of the filter's secrets stands in what it lets pass, if the placeholder
-- cannot spell them: each is without the placeholder's brackets, and not a part of it.
pub filter-IsFree :
    (secrets : List String) (message : String)
    → All IsPlain secrets
    → All (IsFree (filter (secrets_of secrets) message)) (secrets_of secrets)
unfolding filter secrets_of
filter-IsFree secrets message p =
    let own = keep (λ s. not (str_eq s "")) secrets in
    elim (Bool-cases (any (λ s. contains (codes s) (codes message)) own)) [
      | inl y ↦ rw y (redact-IsFree own message (All-keep _ _ secrets p) (keep_holds _ secrets))
      | inr n ↦ rw n (any_none _ own n)
    ]
