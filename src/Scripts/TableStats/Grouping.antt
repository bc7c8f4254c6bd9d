-- ===== src/Scripts/TableStats/Grouping.antt =====
-- What `group_by_class` counts.
use gridlens.Prelude.{
  ℕ, ◌≡◌, refl, ap, ◌∙◌, inl, inr, String, true, false, List, [], ◌∷◌, keep, length, ◌+◌, arith,
  Bool-cases, if◌then◌else◌,
}
use gridlens.Scripts.TableStats.{
  StorageClass, same_class, metadata_json, manifest_lists, manifests, data_files, classify, Grouped,
  totals, put_totals, group_from, group_by_class,
}

-- the objects of a class
abbrev pub of_class : StorageClass → List (String × ℕ) → List (String × ℕ)
of_class kind objects = keep (λ o. same_class (classify o.0) kind) objects

pub bytes : List (String × ℕ) → ℕ
bytes [] = 0
bytes ((key, size) ∷ rest) = size + bytes rest

same_class_sound : (a b : StorageClass) → same_class a b ≡ true → a ≡ b
same_class_sound metadata_json metadata_json h = refl
same_class_sound manifest_lists manifest_lists h = refl
same_class_sound manifests manifests h = refl
same_class_sound data_files data_files h = refl
same_class_sound a b h = cc h

same_class_self : (a : StorageClass) → same_class a a ≡ true
same_class_self metadata_json = refl
same_class_self manifest_lists = refl
same_class_self manifests = refl
same_class_self data_files = refl

totals-put_same :
    (kind : StorageClass) (t : ℕ × ℕ) (g : Grouped) → totals kind (put_totals kind t g) ≡ t
unfolding totals put_totals
totals-put_same kind t [] = rw (same_class_self kind) refl
totals-put_same kind t ((k, u) ∷ rest) = elim (Bool-cases (same_class k kind)) [
  | inl y ↦ rw y (rw y refl)
  | inr n ↦ rw n (rw n (totals-put_same kind t rest))
]

totals-put_other :
    (kind other : StorageClass) (t : ℕ × ℕ) (g : Grouped)
    → same_class kind other ≡ false
    → totals other (put_totals kind t g) ≡ totals other g
unfolding totals put_totals
totals-put_other kind other t [] h = rw h refl
totals-put_other kind other t ((k, u) ∷ rest) h = elim (Bool-cases (same_class k kind)) [
  | inl y ↦ let e = same_class_sound k kind y in rw (y, e) (rw h refl)
  | inr n ↦
      rw n (ap (λ w. if same_class k other then u else w) (totals-put_other kind other t rest h))
]

pair_eq : {a b c d : ℕ} → a ≡ c → b ≡ d → ◌≡◌ {A = ℕ × ℕ} (a, b) (c, d)
pair_eq h k = rw (h, k) refl

-- Each class has what it had, with the objects of the class added.
group_from-totals :
    (kind : StorageClass) (g : Grouped) (objects : List (String × ℕ))
    → totals kind (group_from g objects) ≡ (
      (totals kind g).0 + length (of_class kind objects),
      (totals kind g).1 + bytes (of_class kind objects),
    )
unfolding group_from bytes
group_from-totals kind g [] = pair_eq (omega arith) (omega arith)
group_from-totals kind g ((key, size) ∷ rest) = elim (Bool-cases (same_class (classify key) kind)) [
  | inl y ↦
      let e = same_class_sound (classify key) kind y in
      let t : ℕ × ℕ = ((totals kind g).0 + 1, (totals kind g).1 + size) in
      rw (y, e)
        (group_from-totals kind (put_totals kind t g) rest
          ∙ rw (totals-put_same kind t g) (pair_eq (omega arith) (omega arith)))
  | inr n ↦
      let t : ℕ × ℕ = ((totals (classify key) g).0 + 1, (totals (classify key) g).1 + size) in
      rw n (
        group_from-totals kind (put_totals (classify key) t g) rest
        ∙ rw (totals-put_other (classify key) kind t g n) refl)
]

-- Whatever the objects under the root are, the count and the bytes that `group_by_class` has for a
-- class are the number and the total size of the objects that `classify` puts in that class; a class
-- that no object is in has none.
pub group_by_class_exact :
    (kind : StorageClass) (objects : List (String × ℕ))
    → totals kind (group_by_class objects)
      ≡ (length (of_class kind objects), bytes (of_class kind objects))
unfolding group_by_class totals
group_by_class_exact kind objects =
    group_from-totals kind [] objects ∙ pair_eq (omega arith) (omega arith)
