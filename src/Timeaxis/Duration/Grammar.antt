-- ===== src/Timeaxis/Duration/Grammar.antt =====
-- Which texts `parse_resolution` accepts, and what it makes of them.
use gridlens.Prelude.{
  ℕ, ◌*◌, ◌-◌, ◌≤◌, ◌<◌, length, false, ◌≡◌, refl, ◌⊎◌, inl, inr, ◌≢◌, ap, true, Option, some, List,
  [], ◌∷◌, ◌++◌, ok, ==_iff, Option-cases, arith,
}
use gridlens.Timeaxis.Duration.{
  group, at_end, match_time, match_duration, is_too_long, checked_total, total_us, parse_codes,
}
use gridlens.Timeaxis.Duration.Printing.{
  print_group, print_time, group_value, GroupIsDigits, time_value, TimeIsDigits, group_sound,
  LettersArePlain, days-print, match_time-print, match_time_sound,
}

match_duration-print :
    (digit : ℕ → Option ℕ)
    → LettersArePlain digit
    → (d : Option (ℕ × List ℕ)) (t : Option (Option (ℕ × List ℕ) × Option (ℕ × List ℕ)))
    → GroupIsDigits digit d
    → TimeIsDigits digit t
    → match_duration digit (b'P' ∷ (print_group b'D' d ++ print_time t))
      ≡ some (group_value digit d, (time_value digit t).0, (time_value digit t).1)
unfolding match_duration
match_duration-print digit l d t gd gt =
    rw (days-print digit d t l gd) (match_time-print digit (group_value digit d) t l gt)

is_too_long-short :
    (digit : ℕ → Option ℕ) (room : ℕ) (s : List ℕ)
    → length s ≤ room
    → room ≤ 4300
    → is_too_long digit room s ≡ false
unfolding is_too_long
is_too_long-short digit room [] h k = refl
is_too_long-short digit room (c ∷ s) h k = ground (
  arith,
  is_too_long-short digit (room - 1) s (omega arith) (omega arith),
  is_too_long-short digit 4300 s (omega arith) (omega arith),
)

-- `parse_resolution` accepts a text of at most 4300 characters that is `P`, an optional number of days
-- `…D`, and an optional `T` with an optional number of hours `…H` and of minutes `…M`, where their
-- sum is not zero and less than 1000000000 days, and reads it as that sum.
pub parse_codes-print :
    (digit : ℕ → Option ℕ)
    → LettersArePlain digit
    → (d : Option (ℕ × List ℕ)) (t : Option (Option (ℕ × List ℕ) × Option (ℕ × List ℕ)))
    → GroupIsDigits digit d
    → TimeIsDigits digit t
    → let total = total_us (group_value digit d) (time_value digit t).0 (time_value digit t).1 in
      let text = b'P' ∷ (print_group b'D' d ++ print_time t) in
      total ≢ 0
      → total < 1000000000 * 86400000000
      → length text ≤ 4300
      → parse_codes digit text ≡ ok total
unfolding parse_codes checked_total
parse_codes-print digit l d t gd gt nz below short =
    let fits =
      is_too_long-short digit 4300 (b'P' ∷ (print_group b'D' d ++ print_time t)) short
        (omega arith) in
    ground (arith, match_duration-print digit l d t gd gt, fits)

end_cases : (end : List ℕ) → at_end end ≡ true → (end ≡ []) ⊎ (end ≡ 10 ∷ [])
end_cases [] h = inl refl
end_cases (c ∷ []) h = inr (ap (λ x. x ∷ []) ((==_iff c 10).0 h))
end_cases (c ∷ d ∷ s) h = absurd (ground arith)

-- What an accepted text has gone through.
duration_cases :
    (digit : ℕ → Option ℕ) (c : ℕ) (s : List ℕ) (total : ℕ)
    → parse_codes digit (c ∷ s) ≡ ok total
    → (c ≡ b'P')
      × (r : ℕ × ℕ × ℕ) × (match_time digit (group digit b'D' s).0 (group digit b'D' s).1 ≡ some r)
      × (total ≡ total_us r.0 r.1 r.2)
      × (total ≢ 0)
unfolding parse_codes match_duration checked_total
duration_cases digit c s total h = elim (Option-cases (match_duration digit (c ∷ s))) [
  | inl e ↦ absurd (ground arith)
  | inr (r, e) ↦ (ground arith, r, ground arith, ground arith, ground arith)
]

-- Conversely a text that is accepted is such a text, with at most a newline behind it, and the
-- result is the positive sum of its days, hours and minutes.
pub parse_codes_sound :
    (digit : ℕ → Option ℕ) (s : List ℕ) (total : ℕ)
    → parse_codes digit s ≡ ok total
    → (d : Option (ℕ × List ℕ)) × (t : Option (Option (ℕ × List ℕ) × Option (ℕ × List ℕ)))
      × (end : List ℕ) × GroupIsDigits digit d
      × TimeIsDigits digit t
      × (s ≡ b'P' ∷ (print_group b'D' d ++ (print_time t ++ end)))
      × ((end ≡ []) ⊎ (end ≡ 10 ∷ []))
      × (total ≡ total_us (group_value digit d) (time_value digit t).0 (time_value digit t).1)
      × (total ≢ 0)
unfolding parse_codes match_duration
parse_codes_sound digit [] total h = absurd (ground arith)
parse_codes_sound digit (c ∷ s) total h =
    let (dn, dd, de, dv) = group_sound digit b'D' s in
    let (p, r, mt, tot, nz) = duration_cases digit c s total h in
    let (t, end, td, e, fin, rv) =
      match_time_sound digit (group digit b'D' s).0 (group digit b'D' s).1 r mt in
    (dn, t, end, dd, td, cc (p, de, e), end_cases end fin, cc (tot, rv, dv), nz)
