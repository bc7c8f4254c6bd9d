-- ===== src/Ingest/RteParse/Grid.antt =====
-- The grid that `_expected` builds.
use gridlens.Prelude.{
  ℕ, zero, suc, ◌+◌, ◌-◌, ◌*◌, ◌≤◌, ◌<◌, ◌≡◌, refl, ap, inl, inr, true, none, some, List, [], ◌∷◌,
  arith, Bool-cases, ltb, length,
}
use gridlens.Ingest.RteParse.{expected_moments}

-- `n` moments from one on, a resolution apart.
abbrev pub steps : ℕ → ℕ → ℕ → List ℕ
steps moment resolution zero = []
steps moment resolution (suc n) = moment ∷ steps (moment + resolution) resolution n

pub length-steps : (moment resolution n : ℕ) → length (steps moment resolution n) ≡ n
length-steps moment resolution zero = refl
length-steps moment resolution (suc n) = ap suc (length-steps (moment + resolution) resolution n)

-- `n` is the number of moments from `start` on that lie before `end`.
abbrev pub Covers : ℕ → ℕ → ℕ → ℕ → Type 0
Covers start end resolution n =
    (end ≤ start + n * resolution) × ((k : ℕ) → k < n → start + k * resolution < end)

Covers-step :
    (start end resolution n : ℕ)
    → start < end
    → Covers (start + resolution) end resolution n
    → Covers start end resolution (suc n)
Covers-step start end resolution n h c = (grind (arith, c.0), later)
  where
    later : (k : ℕ) → k < suc n → start + k * resolution < end
    later zero l = omega (arith, h)
    later (suc k) l = grind (arith, c.1 k (omega (arith, l)))

-- With a positive resolution, and one round more than the window is long, `_expected` ends: it
-- gives the moments of the grid before the window's end, all of them and no other.
pub expected_moments_grid :
    (fuel start end resolution : ℕ)
    → 1 ≤ resolution
    → end - start < fuel
    → (n : ℕ) × (expected_moments fuel start end resolution ≡ some (steps start resolution n))
      × Covers start end resolution n
unfolding expected_moments
expected_moments_grid zero start end resolution p h = absurd (omega arith)
expected_moments_grid (suc fuel) start end resolution p h = elim (Bool-cases (ltb start end)) [
  | inl more ↦
      let (n, e, c) =
        expected_moments_grid fuel (start + resolution) end resolution p (ground arith) in
      (suc n, rw (more, e) refl, Covers-step start end resolution n (ground arith) c)
  | inr done ↦ (0, rw done refl, (ground arith, λ k l. absurd (omega (arith, l))))
]

-- With a resolution of zero a window that is not empty exhausts any fuel.
pub expected_moments_endless :
    (fuel start end : ℕ) → start < end → expected_moments fuel start end 0 ≡ none
unfolding expected_moments
expected_moments_endless zero start end h = refl
expected_moments_endless (suc fuel) start end h =
    let more : ltb start end ≡ true = ground arith in
    rw (more, expected_moments_endless fuel (start + 0) end (omega arith)) refl
