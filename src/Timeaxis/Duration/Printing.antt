-- ===== src/Timeaxis/Duration/Printing.antt =====
-- Texts of the form that `parse_resolution` reads, printed.
use mathlib.Core.List.{append_assoc}
use gridlens.Prelude.{
  ℕ, ◌≡◌, refl, ◌⊎◌, inl, inr, ap, true, false, Option, none, some, List, [], ◌∷◌, ◌++◌, All, ◌==◌,
  ==_iff, Bool-cases, arith,
}
use gridlens.Timeaxis.Duration.{
  is_digit, value_from, span_digits, close_group, group, at_end, match_time,
}

-- An optional group as a text: nothing, or digits (one at least) and the letter.
abbrev pub print_group : ℕ → Option (ℕ × List ℕ) → List ℕ
print_group letter none = []
print_group letter (some (d, ds)) = d ∷ (ds ++ letter ∷ [])

-- What an optional `T` part prints as, and its hours and minutes.
abbrev pub print_time : Option (Option (ℕ × List ℕ) × Option (ℕ × List ℕ)) → List ℕ
print_time none = []
print_time (some (h, m)) = b'T' ∷ (print_group b'H' h ++ print_group b'M' m)

module _ (digit : ℕ → Option ℕ) where
  abbrev IsDigit : ℕ → Type 0
  IsDigit c = is_digit digit c ≡ true

  abbrev pub group_value : Option (ℕ × List ℕ) → ℕ
  group_value none = 0
  group_value (some (d, ds)) = value_from digit 0 (d ∷ ds)

  abbrev pub GroupIsDigits : Option (ℕ × List ℕ) → Type 0
  GroupIsDigits none = Unit
  GroupIsDigits (some (d, ds)) = (is_digit digit d ≡ true) × All (λ c. is_digit digit c ≡ true) ds

  -- What is not a digit ends a run of digits.
  span-append :
      (ds : List ℕ) (c : ℕ) (rest : List ℕ)
      → All (λ c. is_digit digit c ≡ true) ds
      → is_digit digit c ≡ false
      → span_digits digit (ds ++ c ∷ rest) ≡ (ds, c ∷ rest)
  unfolding span_digits
  span-append [] c rest h n = rw n
  span-append (d ∷ ds) c rest h n = rw (span-append ds c rest h.1 n, h.0)

  -- A text that does not begin with a digit.
  abbrev StartsPlain : List ℕ → Type 0
  StartsPlain [] = Unit
  StartsPlain (c ∷ s) = is_digit digit c ≡ false

  group-absent : (letter : ℕ) (s : List ℕ) → StartsPlain s → group digit letter s ≡ (0, s)
  unfolding group
  group-absent letter [] h = refl
  group-absent letter (c ∷ s) h = rw h

  group-run :
      (letter d : ℕ) (ds s : List ℕ)
      → (is_digit digit d ≡ true) × All (λ c. is_digit digit c ≡ true) ds
      → is_digit digit letter ≡ false
      → group digit letter (d ∷ (ds ++ letter ∷ s)) ≡ (value_from digit 0 (d ∷ ds), s)
  unfolding group
  group-run letter d ds s h n = rw (span-append ds letter s h.1 n, h.0) (ground arith)

  abbrev pub time_value : Option (Option (ℕ × List ℕ) × Option (ℕ × List ℕ)) → ℕ × ℕ
  time_value none = (0, 0)
  time_value (some (h, m)) = (group_value h, group_value m)

  abbrev pub TimeIsDigits : Option (Option (ℕ × List ℕ) × Option (ℕ × List ℕ)) → Type 0
  TimeIsDigits none = Unit
  TimeIsDigits (some (h, m)) = GroupIsDigits h × GroupIsDigits m

  span_sound :
      (s : List ℕ)
      → All (λ c. is_digit digit c ≡ true) (span_digits digit s).0
        × (s ≡ (span_digits digit s).0 ++ (span_digits digit s).1)
  unfolding span_digits
  span_sound [] = (tt, refl)
  span_sound (c ∷ s) = elim (Bool-cases (is_digit digit c)) [
    | inl y ↦ rw y ((y, (span_sound s).0), ap (λ r. c ∷ r) (span_sound s).1)
    | inr n ↦ rw n (tt, refl)
  ]

  close_sound :
      (letter : ℕ) (s ds rest : List ℕ)
      → All (λ c. is_digit digit c ≡ true) ds
      → s ≡ ds ++ rest
      → (g : Option (ℕ × List ℕ)) × GroupIsDigits g
        × (s ≡ print_group letter g ++ (close_group digit letter s ds rest).1)
        × ((close_group digit letter s ds rest).0 ≡ group_value g)
  unfolding close_group
  close_sound letter s (d ∷ ds) (c ∷ rest) h e = elim (Bool-cases (c == letter)) [
    | inl y ↦
        rw y (
          some (d, ds),
          h,
          rw (append_assoc ds (letter ∷ []) rest, ← (==_iff c letter).0 y) e,
          refl,
        )
    | inr n ↦ rw n (none, tt, refl, refl)
  ]
  close_sound letter s [] rest h e = (none, tt, refl, refl)
  close_sound letter s (d ∷ ds) [] h e = (none, tt, refl, refl)

  pub group_sound :
      (letter : ℕ) (s : List ℕ)
      → (g : Option (ℕ × List ℕ)) × GroupIsDigits g
        × (s ≡ print_group letter g ++ (group digit letter s).1)
        × ((group digit letter s).0 ≡ group_value g)
  unfolding group
  group_sound letter s =
      close_sound letter s (span_digits digit s).0 (span_digits digit s).1 (span_sound s).0
        (span_sound s).1

  -- The letters and the newline are no digits.
  pub record LettersArePlain : Type 0 where
    pub d_plain : is_digit digit b'D' ≡ false
    pub t_plain : is_digit digit b'T' ≡ false
    pub h_plain : is_digit digit b'H' ≡ false
    pub m_plain : is_digit digit b'M' ≡ false

  -- Digits with another letter behind them are no group.
  group-other :
      (letter other d : ℕ) (ds : List ℕ)
      → (is_digit digit d ≡ true) × All (λ c. is_digit digit c ≡ true) ds
      → is_digit digit other ≡ false
      → (other == letter) ≡ false
      → group digit letter (d ∷ (ds ++ other ∷ [])) ≡ (0, d ∷ (ds ++ other ∷ []))
  unfolding group
  group-other letter other d ds h n ne = rw (span-append ds other [] h.1 n, h.0) (ground arith)

  hours-print :
      (h m : Option (ℕ × List ℕ))
      → LettersArePlain
      → GroupIsDigits h
      → GroupIsDigits m
      → group digit b'H' (print_group b'H' h ++ print_group b'M' m)
        ≡ (group_value h, print_group b'M' m)
  hours-print none none l a b = group-absent b'H' [] tt
  hours-print none (some (d, ds)) l a b = group-other b'H' b'M' d ds b l.m_plain (ground arith)
  hours-print (some (d, ds)) m l a b =
      rw (append_assoc ds (b'H' ∷ []) (print_group b'M' m))
        (group-run b'H' d ds (print_group b'M' m) a l.h_plain)

  minutes-print :
      (m : Option (ℕ × List ℕ))
      → LettersArePlain
      → GroupIsDigits m
      → group digit b'M' (print_group b'M' m) ≡ (group_value m, [])
  minutes-print none l a = group-absent b'M' [] tt
  minutes-print (some (d, ds)) l a = group-run b'M' d ds [] a l.m_plain

  pub days-print :
      (d : Option (ℕ × List ℕ)) (t : Option (Option (ℕ × List ℕ) × Option (ℕ × List ℕ)))
      → LettersArePlain
      → GroupIsDigits d
      → group digit b'D' (print_group b'D' d ++ print_time t) ≡ (group_value d, print_time t)
  days-print none none l a = group-absent b'D' [] tt
  days-print none (some t) l a = group-absent b'D' (print_time (some t)) l.t_plain
  days-print (some (d, ds)) t l a =
      rw (append_assoc ds (b'D' ∷ []) (print_time t))
        (group-run b'D' d ds (print_time t) a l.d_plain)

  pub match_time-print :
      (days : ℕ) (t : Option (Option (ℕ × List ℕ) × Option (ℕ × List ℕ)))
      → LettersArePlain
      → TimeIsDigits t
      → match_time digit days (print_time t) ≡ some (days, (time_value t).0, (time_value t).1)
  unfolding match_time
  match_time-print days none l h = refl
  match_time-print days (some (h, m)) l (a, b) =
      rw (hours-print h m l a b, minutes-print m l b) refl

  match_time_cases :
      (days c : ℕ) (s : List ℕ) (r : ℕ × ℕ × ℕ)
      → match_time digit days (c ∷ s) ≡ some r
      → let (hours, s') = group digit b'H' s in
        let (minutes, s'') = group digit b'M' s' in
        ((c ≡ b'T') × (at_end s'' ≡ true) × (r ≡ (days, hours, minutes)))
        ⊎ ((at_end (c ∷ s) ≡ true) × (r ≡ (days, 0, 0)))
  unfolding match_time
  match_time_cases days c s r h = elim (Bool-cases (c == b'T')) [
    | inl y ↦ inl (ground arith, ground arith, ground arith)
    | inr n ↦ inr (ground arith, ground arith)
  ]

  pub match_time_sound :
      (days : ℕ) (s : List ℕ) (r : ℕ × ℕ × ℕ)
      → match_time digit days s ≡ some r
      → (t : Option (Option (ℕ × List ℕ) × Option (ℕ × List ℕ))) × (end : List ℕ) × TimeIsDigits t
        × (s ≡ print_time t ++ end)
        × (at_end end ≡ true)
        × (r ≡ (days, (time_value t).0, (time_value t).1))
  unfolding match_time
  match_time_sound days [] r h = (none, [], tt, refl, refl, ground arith)
  match_time_sound days (c ∷ s) r h =
      let (hn, hd, he, hv) = group_sound b'H' s in
      let (mn, md, me, mv) = group_sound b'M' (group digit b'H' s).1 in
      elim (match_time_cases days c s r h) [
        | inl (y, fin, v) ↦ (
          some (hn, mn),
          (group digit b'M' (group digit b'H' s).1).1,
          (hd, md),
          rw (y, append_assoc (print_group b'H' hn) (print_group b'M' mn)) (cc (he, me)),
          fin,
          cc (v, hv, mv),
        )
        | inr (fin, v) ↦ (none, c ∷ s, tt, refl, fin, v)
      ]
