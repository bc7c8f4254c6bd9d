-- ===== src/Timeaxis/Ambiguity.antt =====
-- Which wall clock readings `assert_unambiguous` lets through, and what `settlement_day` returns.
use gridlens.Prelude.{
  ℕ, ◌+◌, ◌-◌, ◌≤◌, ◌<◌, ◌≡◌, sym, ap, ◌∙◌, ◌↔◌, ◌⊎◌, inl, inr, Bool, true, false, some, ok, err,
  Result-cases, arith,
}
use gridlens.Exceptions.{Exception}
use gridlens.Prelude.Int.{ℤ, pos, pos_part, eqb_ℤ, eqb_ℤ-sound}
use gridlens.Timeaxis.{
  Zone, day_us, sub_offset, to_utc, assert_unambiguous, midnight, settlement_day,
}

-- What PEP 495 documents of a time zone: an offset is less than a day; an instant is recovered from
-- its reading under one of the two folds; fold 0 names an instant with that reading if there is
-- one, and then so does fold 1.
pub record IsTimeZone (z : Zone) : Type 0 where
  pub offset_small : (r : ℕ) (f : Bool) → pos_part (z.utcoffset r f) < day_us
  pub recovered : (u : ℕ) → (u ≡ to_utc z (z.fromutc u) false) ⊎ (u ≡ to_utc z (z.fromutc u) true)
  pub fold_zero : (u : ℕ) → z.fromutc (to_utc z (z.fromutc u) false) ≡ z.fromutc u
  pub fold_one : (r : ℕ) → z.fromutc (to_utc z r false) ≡ r → z.fromutc (to_utc z r true) ≡ r

-- Exactly one instant has the reading.
abbrev pub HappensOnce : Zone → ℕ → Type 0
HappensOnce z r = (u : ℕ) × (z.fromutc u ≡ r) × ((v : ℕ) → z.fromutc v ≡ r → v ≡ u)

accepted_parts :
    (z : Zone) (r : ℕ)
    → assert_unambiguous (some z) r false ≡ ok tt
    → (z.fromutc (to_utc z r false) ≡ r) × (z.utcoffset r false ≡ z.utcoffset r true)
unfolding assert_unambiguous
accepted_parts z r h = ground (arith, eqb_ℤ-sound (z.utcoffset r false) (z.utcoffset r true))

accepted_of_parts :
    (z : Zone) (r : ℕ)
    → z.fromutc (to_utc z r false) ≡ r
    → eqb_ℤ (z.utcoffset r false) (z.utcoffset r true) ≡ true
    → assert_unambiguous (some z) r false ≡ ok tt
unfolding assert_unambiguous
accepted_of_parts z r h k = ground arith

-- Two small offsets that lead to the same instant are one.
eqb-sub_offset :
    (r : ℕ) (a b : ℤ)
    → day_us ≤ r
    → pos_part a < day_us
    → pos_part b < day_us
    → sub_offset r a ≡ sub_offset r b
    → eqb_ℤ a b ≡ true
eqb-sub_offset r a b h ha hb e = ground arith

module _ (z : Zone) (tz : IsTimeZone z) (r : ℕ) where
  only_reading :
      z.utcoffset r false ≡ z.utcoffset r true → (v : ℕ) → z.fromutc v ≡ r → v ≡ to_utc z r false
  only_reading same v e = elim (tz.recovered v) [
    | inl p ↦ p ∙ ap (λ x. to_utc z x false) e
    | inr p ↦ p ∙ ap (λ x. to_utc z x true) e ∙ ap (sub_offset r) (sym same)
  ]

  reads_itself : (u : ℕ) → z.fromutc u ≡ r → z.fromutc (to_utc z r false) ≡ r
  reads_itself u e = cc (tz.fold_zero u, e)

  once_of_accepted : assert_unambiguous (some z) r false ≡ ok tt → HappensOnce z r
  once_of_accepted h = let p = accepted_parts z r h in (to_utc z r false, p.0, only_reading p.1)

  accepted_of_once : day_us ≤ r → HappensOnce z r → assert_unambiguous (some z) r false ≡ ok tt
  accepted_of_once big (u, reads, only) =
      let back = reads_itself u reads in
      accepted_of_parts z r back (
        eqb-sub_offset r (z.utcoffset r false) (z.utcoffset r true) big (tz.offset_small r false)
          (tz.offset_small r true)
          (only (to_utc z r false) back ∙ sym (only (to_utc z r true) (tz.fold_one r back))))

-- In a time zone, for a reading with fold 0 that is at least one day after the start of year 1,
-- `assert_unambiguous` returns exactly if one instant and no more has that reading.
pub assert_unambiguous-HappensOnce :
    (z : Zone)
    → IsTimeZone z
    → (r : ℕ) → day_us ≤ r
    → (assert_unambiguous (some z) r false ≡ ok tt) ↔ HappensOnce z r
assert_unambiguous-HappensOnce z tz r big = (once_of_accepted z tz r, accepted_of_once z tz r big)

-- What a returned settlement day is made of.
settlement_day_parts :
    (z : Zone) (day s e : ℕ)
    → settlement_day day z ≡ ok (s, e)
    → (assert_unambiguous (some z) (midnight day) false ≡ ok tt)
      × (assert_unambiguous (some z) (midnight (day + 1)) false ≡ ok tt)
      × (s ≡ to_utc z (midnight day) false)
      × (e ≡ to_utc z (midnight (day + 1)) false)
unfolding settlement_day
settlement_day_parts z day s e h = ground arith

-- In a time zone, a settlement day that is returned starts and ends at the only instants at which the
-- zone reads midnight of the date and of the next date, and the day after either raises or is
-- returned and starts where this one ends.
pub settlement_day_midnights :
    (z : Zone) (day s e : ℕ)
    → IsTimeZone z
    → settlement_day day z ≡ ok (s, e)
    → (z.fromutc s ≡ midnight day)
      × (z.fromutc e ≡ midnight (day + 1))
      × ((v : ℕ) → z.fromutc v ≡ midnight day → v ≡ s)
      × ((v : ℕ) → z.fromutc v ≡ midnight (day + 1) → v ≡ e)
      × (((x : Exception) × (settlement_day (day + 1) z ≡ err x))
          ⊎ ((e' : ℕ) × (settlement_day (day + 1) z ≡ ok (e, e'))))
settlement_day_midnights z day s e tz h =
    let p = settlement_day_parts z day s e h in
    let a = accepted_parts z (midnight day) p.0 in
    let b = accepted_parts z (midnight (day + 1)) p.1 in
    (
      ap z.fromutc p.2 ∙ a.0,
      ap z.fromutc p.3 ∙ b.0,
      λ v r. only_reading z tz (midnight day) a.1 v r ∙ sym p.2,
      λ v r. only_reading z tz (midnight (day + 1)) b.1 v r ∙ sym p.3,
      elim (Result-cases (settlement_day (day + 1) z)) [
        | inr (x, c) ↦ inl (x, c)
        | inl ((s', e'), c) ↦
            let q = settlement_day_parts z (day + 1) s' e' c in
            let same : s' ≡ e = q.2 ∙ sym p.3 in inr (e', c ∙ ap (λ u. ok (u, e')) same)
      ],
    )

-- A settlement day under positive offsets is 24 hours long, plus what the offset falls by during
-- it: 25 hours when an hour is taken off, 23 when one is added.
pub settlement_day_length :
    (z : Zone) (day s e a b : ℕ)
    → 1 ≤ day
    → z.utcoffset (midnight day) false ≡ pos a
    → z.utcoffset (midnight (day + 1)) false ≡ pos b
    → a ≤ day_us
    → b ≤ day_us
    → settlement_day day z ≡ ok (s, e)
    → e - s + b ≡ day_us + a
settlement_day_length z day s e a b d ha hb la lb h =
    let p = settlement_day_parts z day s e h in
    let ps : s ≡ sub_offset (midnight day) (pos a) = p.2 ∙ ap (sub_offset (midnight day)) ha in
    let pe : e ≡ sub_offset (midnight (day + 1)) (pos b) =
      p.3 ∙ ap (sub_offset (midnight (day + 1))) hb in
    omega arith
