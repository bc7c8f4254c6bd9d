-- ===== src/Ingest/Redaction/Replacing.antt =====
-- Replacing in code points: what stands in the result stood in the text or in the replacement.
use gridlens.Prelude.{
  ℕ, zero, suc, ◌-◌, ◌≡◌, refl, ap, ◌∙◌, inl, inr, String, Bool, true, false, List, [], ◌∷◌, ◌++◌,
  any, length, Bool-cases, arith, ◌==◌, if◌then◌else◌,
}
use Prim.Native.Char.{code}
use gridlens.Timeaxis.Duration.{codes}
use gridlens.Timeaxis.Duration.Joined.{codes-append}
use gridlens.Ingest.Client.{has_prefix, contains}
use gridlens.Ingest.Redaction.{replace_from}

abbrev pub has : ℕ → List ℕ → Bool
has c s = any (λ d. d == c) s

-- `replace_from` over code points.
pub replaced : List ℕ → List ℕ → ℕ → List ℕ → List ℕ
replaced needle new skip [] = []
replaced needle new (suc skip) (c ∷ s) = replaced needle new skip s
replaced needle new zero (c ∷ s) =
    let passed = replaced needle new (length needle - 1) s in
    let kept = replaced needle new zero s in
    if has_prefix needle (c ∷ s) then new ++ passed else c ∷ kept

pub codes-replace_from :
    (needle : List ℕ) (new : String) (skip : ℕ) (s : String)
    → codes (replace_from needle new skip s) ≡ replaced needle (codes new) skip (codes s)
unfolding replace_from replaced
codes-replace_from needle new skip String.[] = refl
codes-replace_from needle new (suc skip) (String.◌∷◌ c s) = codes-replace_from needle new skip s
codes-replace_from needle new zero (String.◌∷◌ c s) =
    elim (Bool-cases (has_prefix needle (codes (String.◌∷◌ c s)))) [
      | inl y ↦ rw y (
          codes-append new (replace_from needle new (length needle - 1) s)
          ∙ ap (λ r. codes new ++ r) (codes-replace_from needle new (length needle - 1) s))
      | inr n ↦ rw n (ap (λ r. code c ∷ r) (codes-replace_from needle new zero s))
    ]

-- A prefix that ends before a mark stands within what goes up to the mark.
prefix_within :
    (s p rest : List ℕ) (mark : ℕ)
    → has mark s ≡ false
    → has mark p ≡ true
    → has_prefix s (p ++ rest) ≡ true
    → has_prefix s p ≡ true
unfolding has_prefix
prefix_within [] p rest mark a b h = refl
prefix_within (c ∷ s) [] rest mark a b h = cc b
prefix_within (c ∷ s) (d ∷ p) rest mark a b h =
    let same : c ≡ d = ground arith in
    let later : has mark p ≡ true = ground arith in
    let inner = prefix_within s p rest mark (ground arith) later (ground arith) in ground arith

-- The last item is the mark, if there is one.
abbrev pub ends_with : ℕ → List ℕ → Bool
ends_with mark [] = true
ends_with mark (c ∷ []) = c == mark
ends_with mark (c ∷ d ∷ s) = ends_with mark (d ∷ s)

ends_with-has : (mark c : ℕ) (s : List ℕ) → ends_with mark (c ∷ s) ≡ true → has mark (c ∷ s) ≡ true
ends_with-has mark c [] h = ground arith
ends_with-has mark c (d ∷ s) h = let rest = ends_with-has mark d s h in ground (arith, rest)

-- What is free of the mark and not in a text that ends with it is found only behind that text.
contains-behind :
    (s p rest : List ℕ) (mark : ℕ)
    → has mark s ≡ false
    → ends_with mark p ≡ true
    → contains s p ≡ false
    → contains s (p ++ rest) ≡ true
    → contains s rest ≡ true
unfolding contains
contains-behind s [] rest mark a e n h = h
contains-behind s (c ∷ []) rest mark a e n h = elim (Bool-cases (has_prefix s (c ∷ rest))) [
  | inl y ↦
      let within = prefix_within s (c ∷ []) rest mark a (ends_with-has mark c [] e) y in
      ground arith
  | inr m ↦ ground arith
]
contains-behind s (c ∷ d ∷ p) rest mark a e n h =
    elim (Bool-cases (has_prefix s (c ∷ d ∷ p ++ rest))) [
      | inl y ↦
          let within = prefix_within s (c ∷ d ∷ p) rest mark a (ends_with-has mark c (d ∷ p) e) y in
          ground arith
      | inr m ↦ contains-behind s (d ∷ p) rest mark a e (ground arith) (ground arith)
    ]

-- Where the replacement begins with a mark that `s` does not have, a prefix of the result is one of
-- the text.
pub prefix-replaced :
    (needle new s text : List ℕ) (mark : ℕ)
    → has mark s ≡ false
    → has_prefix s (replaced needle (mark ∷ new) zero text) ≡ true
    → has_prefix s text ≡ true
unfolding replaced has_prefix
prefix-replaced needle new [] text mark a h = refl
prefix-replaced needle new (c ∷ s) [] mark a h = h
prefix-replaced needle new (c ∷ s) (d ∷ text) mark a h =
    elim (Bool-cases (has_prefix needle (d ∷ text))) [
      | inl y ↦ absurd (ground (arith, rw (y, replaced) at h))
      | inr n ↦
          let h' = rw (n, replaced) at h in
          let rest = prefix-replaced needle new s text mark (ground arith) (ground (arith, h')) in
          ground (arith, h', rest)
    ]

-- What is free of the marks around the replacement, and not in it, is found in the result only if it
-- is found in the text.
pub contains-replaced :
    (needle new s text : List ℕ) (skip mark last : ℕ)
    → has mark s ≡ false
    → has last s ≡ false
    → ends_with last (mark ∷ new) ≡ true
    → contains s (mark ∷ new) ≡ false
    → contains s (replaced needle (mark ∷ new) skip text) ≡ true
    → contains s text ≡ true
unfolding replaced contains
contains-replaced needle new s [] skip mark last a b e n h = h
contains-replaced needle new s (c ∷ text) (suc skip) mark last a b e n h =
    let rest = contains-replaced needle new s text skip mark last a b e n h in ground (arith, rest)
contains-replaced needle new s (c ∷ text) zero mark last a b e n h =
    elim (Bool-cases (has_prefix needle (c ∷ text))) [
      | inl y ↦
          let behind =
            contains-behind s (mark ∷ new) (replaced needle (mark ∷ new) (length needle - 1) text)
              last b e n (rw (y, replaced) at h) in
          let rest =
            contains-replaced needle new s text (length needle - 1) mark last a b e n behind in
          ground (arith, rest)
      | inr m ↦
          let h' = rw (m, replaced) at h in
          let tail = replaced needle (mark ∷ new) zero text in
          elim (Bool-cases (has_prefix s (c ∷ tail))) [
            | inl y ↦
                let whole : has_prefix s (replaced needle (mark ∷ new) zero (c ∷ text)) ≡ true =
                  rw (m, replaced) y in
                let found = prefix-replaced needle new s (c ∷ text) mark a whole in
                ground (arith, found)
            | inr o ↦
                let rest =
                  contains-replaced needle new s text zero mark last a b e n
                    (ground (arith, h', o)) in
                ground (arith, rest)
          ]
    ]

-- No match is left.
pub needle-replaced :
    (x : ℕ) (xs new text : List ℕ) (skip mark last : ℕ)
    → has mark (x ∷ xs) ≡ false
    → has last (x ∷ xs) ≡ false
    → ends_with last (mark ∷ new) ≡ true
    → contains (x ∷ xs) (mark ∷ new) ≡ false
    → contains (x ∷ xs) (replaced (x ∷ xs) (mark ∷ new) skip text) ≡ false
unfolding replaced contains
needle-replaced x xs new [] skip mark last a b e n = unfold has_prefix in refl
needle-replaced x xs new (c ∷ text) (suc skip) mark last a b e n =
    needle-replaced x xs new text skip mark last a b e n
needle-replaced x xs new (c ∷ text) zero mark last a b e n =
    let needle = x ∷ xs in
    elim (Bool-cases (has_prefix needle (c ∷ text))) [
      | inl y ↦
          let tail = replaced needle (mark ∷ new) (length needle - 1) text in
          let rest = needle-replaced x xs new text (length needle - 1) mark last a b e n in
          elim (Bool-cases (contains needle (mark ∷ new ++ tail))) [
            | inl z ↦
                let behind = contains-behind needle (mark ∷ new) tail last b e n z in
                absurd (ground (arith, behind, rest))
            | inr z ↦ rw (y, replaced) z
          ]
      | inr m ↦
          let tail = replaced needle (mark ∷ new) zero text in
          let rest = needle-replaced x xs new text zero mark last a b e n in
          elim (Bool-cases (has_prefix needle (c ∷ tail))) [
            | inl z ↦
                let whole : has_prefix needle (replaced needle (mark ∷ new) zero (c ∷ text))
                    ≡ true =
                  rw (m, replaced) z in
                let found = prefix-replaced needle new needle (c ∷ text) mark a whole in
                absurd (ground (arith, found, m))
            | inr z ↦ rw (m, replaced) (ground (arith, z, rest))
          ]
    ]
