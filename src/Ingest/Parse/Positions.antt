-- ===== src/Ingest/Parse/Positions.antt =====
-- A period's observations and missing positions divide its grid between them.
use gridlens.Prelude.{
  ℕ, zero, suc, ◌+◌, ◌*◌, ◌≡◌, refl, sym, ap, ◌∙◌, inl, inr, true, false, ◌||◌, List, [], ◌∷◌, map,
  ok, >>=-eq-ok, ok-injective, length, All, arith, Bool-cases,
}
use gridlens.Prelude.Int.{ℤ, pos, negsuc, eqb_ℤ, leb_ℤ, ltb_ℤ}
use gridlens.Timeaxis.{position_time}
use gridlens.Contracts.Records.{Decimal}
use gridlens.Ingest.Document.{Observation}
use gridlens.Ingest.Parse.{Quantities, has_position, insert_sorted, sort_positions, observe}
use gridlens.Ingest.Parse.Counting.{Distinct}

-- Sorting keeps every item, and leaves the positions in order.
module _ (P : ℤ × Decimal → Type 0) where
  All-insert : (q : ℤ × Decimal) (qs : Quantities) → P q → All P qs → All P (insert_sorted q qs)
  unfolding insert_sorted
  All-insert q [] h k = (h, tt)
  All-insert q (r ∷ rest) h k = elim (Bool-cases (leb_ℤ q.0 r.0)) [
    | inl first ↦ rw first (h, k)
    | inr later ↦ rw later (k.0, All-insert q rest h k.1)
  ]

  pub All-sort : (qs : Quantities) → All P qs → All P (sort_positions qs)
  unfolding sort_positions
  All-sort [] h = tt
  All-sort (q ∷ rest) h = All-insert q (sort_positions rest) h.0 (All-sort rest h.1)

  All-of_insert : (q : ℤ × Decimal) (qs : Quantities) → All P (insert_sorted q qs) → P q × All P qs
  unfolding insert_sorted
  All-of_insert q [] h = h
  All-of_insert q (r ∷ rest) h = elim (Bool-cases (leb_ℤ q.0 r.0)) [
    | inl first ↦ rw first at h
    | inr later ↦
        let h' : P r × All P (insert_sorted q rest) = rw later at h in
        let k = All-of_insert q rest h'.1 in (k.0, (h'.0, k.1))
  ]

  pub All-of_sort : (qs : Quantities) → All P (sort_positions qs) → All P qs
  unfolding sort_positions
  All-of_sort [] h = tt
  All-of_sort (q ∷ rest) h =
      let k = All-of_insert q (sort_positions rest) h in (k.0, All-of_sort rest k.1)

length-insert_sorted :
    (q : ℤ × Decimal) (qs : Quantities) → length (insert_sorted q qs) ≡ suc (length qs)
unfolding insert_sorted
length-insert_sorted q [] = refl
length-insert_sorted q (r ∷ rest) = ground (arith, length-insert_sorted q rest)

pub length-sort_positions : (qs : Quantities) → length (sort_positions qs) ≡ length qs
unfolding sort_positions
length-sort_positions [] = refl
length-sort_positions (q ∷ rest) =
    length-insert_sorted q (sort_positions rest) ∙ ap suc (length-sort_positions rest)

-- An observation stands at its position's time.
abbrev pub OnGrid : ℕ → ℕ → Observation → Type 0
OnGrid start resolution o =
    (k : ℕ) × (o.position ≡ pos (suc k)) × (o.valid_time ≡ start + k * resolution)

position_time_parts :
    (start resolution t : ℕ) (p : ℤ)
    → position_time start resolution p ≡ ok t
    → (k : ℕ) × (p ≡ pos (suc k)) × (t ≡ start + k * resolution)
unfolding position_time
position_time_parts start resolution t (pos zero) h = cc
position_time_parts start resolution t (pos (suc k)) h = (k, refl, sym (ok-injective h))
position_time_parts start resolution t (negsuc k) h = cc

-- Positions in strictly ascending order.
abbrev pub Below : ℤ → ℤ × Decimal → Type 0
Below p q = ltb_ℤ p q.0 ≡ true

abbrev pub Ascending : Quantities → Type 0
Ascending [] = Unit
Ascending (q ∷ rest) = All (Below q.0) rest × Ascending rest

Below-trans : (p q : ℤ) (qs : Quantities) → ltb_ℤ p q ≡ true → All (Below q) qs → All (Below p) qs
Below-trans p q [] h k = tt
Below-trans p q (r ∷ rest) h k = (ground arith, Below-trans p q rest h k.1)

has_position-insert :
    (p : ℤ) (q : ℤ × Decimal) (qs : Quantities)
    → has_position p (insert_sorted q qs) ≡ (eqb_ℤ q.0 p || has_position p qs)
unfolding has_position insert_sorted
has_position-insert p q [] = refl
has_position-insert p q (r ∷ rest) = ground (arith, has_position-insert p q rest)

has_position-sort :
    (p : ℤ) (qs : Quantities) → has_position p (sort_positions qs) ≡ has_position p qs
unfolding has_position sort_positions
has_position-sort p [] = refl
has_position-sort p (q ∷ rest) =
    has_position-insert p q (sort_positions rest)
    ∙ ap (λ b. eqb_ℤ q.0 p || b) (has_position-sort p rest)

other_position :
    (p : ℤ) (r : ℤ × Decimal) (rest : Quantities)
    → has_position p (r ∷ rest) ≡ false
    → (eqb_ℤ r.0 p ≡ false) × (has_position p rest ≡ false)
unfolding has_position
other_position p r rest h = ground arith

insert_sorted-Ascending :
    (q : ℤ × Decimal) (qs : Quantities)
    → Ascending qs
    → has_position q.0 qs ≡ false
    → Ascending (insert_sorted q qs)
unfolding insert_sorted
insert_sorted-Ascending q [] a h = (tt, tt)
insert_sorted-Ascending q (r ∷ rest) a h =
    let (ne, new) = other_position q.0 r rest h in
    elim (Bool-cases (leb_ℤ q.0 r.0)) [
      | inl first ↦
          let lt : ltb_ℤ q.0 r.0 ≡ true = ground arith in
          rw first ((lt, Below-trans q.0 r.0 rest lt a.0), a)
      | inr later ↦
          let gt : ltb_ℤ r.0 q.0 ≡ true = ground arith in
          rw later (All-insert (Below r.0) q rest gt a.0, insert_sorted-Ascending q rest a.1 new)
    ]

pub sort_positions-Ascending : (qs : Quantities) → Distinct qs → Ascending (sort_positions qs)
unfolding sort_positions
sort_positions-Ascending [] d = tt
sort_positions-Ascending (q ∷ rest) d =
    insert_sorted-Ascending q (sort_positions rest) (sort_positions-Ascending rest d.1)
      (has_position-sort q.0 rest ∙ d.0)

-- What `observe` makes of its quantities, one by one.
abbrev pub carried : Observation → ℤ × Decimal
carried o = (o.position, o.quantity)

abbrev pub Positive : ℤ × Decimal → Type 0
Positive q = (k : ℕ) × (q.0 ≡ pos (suc k))

pub observe_parts :
    (start resolution : ℕ) (qs : Quantities) (os : List Observation)
    → observe start resolution qs ≡ ok os
    → (map carried os ≡ qs) × All Positive qs × All (OnGrid start resolution) os
unfolding observe
observe_parts start resolution [] os h = rw (← ok-injective h) (refl, tt, tt)
observe_parts start resolution ((p, v) ∷ rest) os h =
    let (t, timed, h1) = >>=-eq-ok (position_time start resolution p) _ h in
    let (later, seen, h2) = >>=-eq-ok (observe start resolution rest) _ h1 in
    let (k, kp, kt) = position_time_parts start resolution t p timed in
    let (n, a, g) = observe_parts start resolution rest later seen in
    rw (← ok-injective h2) (ap (λ r. (p, v) ∷ r) n, ((k, kp), a), ((k, kp, kt), g))
