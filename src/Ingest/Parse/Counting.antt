-- ===== src/Ingest/Parse/Counting.antt =====
-- How often a number stands among positions and in a range.
use gridlens.Prelude.{
  ℕ, zero, suc, ◌+◌, ◌≤◌, ◌<◌, ◌≡◌, refl, ap, inl, inr, false, ◌&&◌, [], ◌∷◌, length, All, arith,
  Bool-cases, count, count-false, count_or,
}
use gridlens.Prelude.Int.{ℤ, pos, negsuc, eqb_ℤ, eqb_ℤ-sound}
use gridlens.Contracts.Records.{Decimal}
use gridlens.Ingest.Parse.{Quantities, has_position, range}

-- No position is held twice.
abbrev pub Distinct : Quantities → Type 0
Distinct [] = Unit
Distinct (q ∷ rest) = (has_position q.0 rest ≡ false) × Distinct rest

pub length-range : (first n : ℕ) → length (range first n) ≡ n
unfolding range
length-range first zero = refl
length-range first (suc n) = ap suc (length-range (suc first) n)

-- A number below a range does not stand in it, and one of a range stands in it once.
count_below : (k first n : ℕ) → k < first → count (λ p. eqb_ℤ (pos k) (pos p)) (range first n) ≡ 0
unfolding count range
count_below k first zero h = refl
count_below k first (suc n) h = ground (arith, count_below k (suc first) n)

pub count_once :
    (k first n : ℕ)
    → first ≤ k
    → k < first + n
    → count (λ p. eqb_ℤ (pos k) (pos p)) (range first n) ≡ 1
unfolding count range
count_once k first zero h l = absurd (omega arith)
count_once k first (suc n) h l =
    ground (arith, count_below k (suc first) n, count_once k (suc first) n)

-- A position in 1 to `n`.
abbrev pub InGrid : ℕ → ℤ → Type 0
InGrid n (pos k) = (1 ≤ k) × (k ≤ n)
InGrid n (negsuc k) = ⊥

disjoint_position :
    (q p : ℤ) (rest : Quantities)
    → has_position q rest ≡ false
    → (eqb_ℤ q p && has_position p rest) ≡ false
disjoint_position q p rest h = elim (Bool-cases (eqb_ℤ q p)) [
  | inl same ↦ rw same (rw (eqb_ℤ-sound q p same) at h)
  | inr other ↦ rw other
]

count_cons :
    (k n : ℕ) (v : Decimal) (rest : Quantities)
    → has_position (pos k) rest ≡ false
    → count (λ p. has_position (pos p) ((pos k, v) ∷ rest)) (range 1 n)
      ≡ count (λ p. eqb_ℤ (pos k) (pos p)) (range 1 n)
        + count (λ p. has_position (pos p) rest) (range 1 n)
unfolding has_position
count_cons k n v rest h =
    count_or (λ p. eqb_ℤ (pos k) (pos p)) (λ p. has_position (pos p) rest) (range 1 n)
      (λ p. disjoint_position (pos k) (pos p) rest h)

pub count_positions :
    (n : ℕ) (qs : Quantities)
    → Distinct qs
    → All (λ q. InGrid n q.0) qs
    → count (λ p. has_position (pos p) qs) (range 1 n) ≡ length qs
count_positions n [] d g = unfold has_position in count-false _ (range 1 n) (λ p. refl)
count_positions n ((pos k, v) ∷ rest) d g = omega (
  arith,
  count_cons k n v rest d.0,
  count_once k 1 n g.0.0 (omega arith),
  count_positions n rest d.1 g.1,
)
count_positions n ((negsuc k, v) ∷ rest) d g = absurd g.0
