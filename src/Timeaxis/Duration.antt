-- ===== src/Timeaxis/Duration.antt =====
-- `parse_resolution` of src/gridlens/timeaxis.py, over the code points of its text. The pattern's
-- `\d` and `int` agree on which characters are digits and what they are worth: that table is the
-- parameter `digit`.
pub mod Printing
pub mod Joined
pub mod Grammar
use Prim.Native.Char.{code}
use Prim.Native.String
use gridlens.Prelude.{
  ℕ, leb, ◌-◌, ◌+◌, ◌*◌, String, Bool, true, false, ◌||◌, Option, none, some, List, [], ◌∷◌, Result,
  ok, err, ◌==◌, if◌then◌else◌,
}
use gridlens.Exceptions.{Exception, value_error, overflow_error}

abbrev pub codes : String → List ℕ
codes String.[] = []
codes (String.◌∷◌ c s) = code c ∷ codes s

-- `$` also matches before a newline that ends the text.
abbrev pub at_end : List ℕ → Bool
at_end [] = true
at_end (c ∷ []) = c == 10
at_end (c ∷ _ ∷ _) = false

-- A `timedelta` has less than 1000000000 days, in microseconds.
abbrev pub timedelta_limit : ℕ
timedelta_limit = 86400000000000000000

pub checked_total : ℕ → Result Exception ℕ
checked_total total =
    if leb timedelta_limit total
    then err overflow_error
    else if total == 0
    then err (value_error "unsupported resolution")
    else ok total

-- A `timedelta` in microseconds.
abbrev pub total_us : ℕ → ℕ → ℕ → ℕ
total_us days hours minutes = days * 86400000000 + hours * 3600000000 + minutes * 60000000

module _ (digit : ℕ → Option ℕ) where
  abbrev pub is_digit : ℕ → Bool
  is_digit c = elim (digit c) [ none ↦ false | some v ↦ true ]

  -- `int` of a run of digits
  pub value_from : ℕ → List ℕ → ℕ
  value_from acc [] = acc
  value_from acc (c ∷ cs) = value_from (acc * 10 + (elim (digit c) [ none ↦ 0 | some v ↦ v ])) cs

  -- `\d+`, as far as it goes: the digits and the rest
  pub span_digits : List ℕ → List ℕ × List ℕ
  span_digits [] = ([], [])
  span_digits (c ∷ s) =
      let (ds, rest) = span_digits s in if is_digit c then (c ∷ ds, rest) else ([], c ∷ s)

  -- `(?:(\d+)U)?` for the letter U, and `int(group or 0)`
  pub close_group : ℕ → List ℕ → List ℕ → List ℕ → ℕ × List ℕ
  close_group letter s (d ∷ ds) (c ∷ rest) =
      if c == letter then (value_from 0 (d ∷ ds), rest) else (0, s)
  close_group letter s _ _ = (0, s)

  unfoldable pub group : ℕ → List ℕ → ℕ × List ℕ
  unfolding close_group span_digits value_from
  group letter s = let (ds, rest) = span_digits s in close_group letter s ds rest

  -- A run of more than 4300 digits, which `int` refuses, or of more than `room` at the start.
  unfoldable pub is_too_long : ℕ → List ℕ → Bool
  is_too_long room [] = false
  is_too_long room (c ∷ s) =
      let here = is_too_long (room - 1) s in
      let next = is_too_long 4300 s in
      if is_digit c then (if room == 0 then true else here) else next

  -- The three groups, or `none` where the pattern does not match.
  pub match_time : ℕ → List ℕ → Option (ℕ × ℕ × ℕ)
  match_time days [] = some (days, 0, 0)
  match_time days (c ∷ s) =
      let (hours, s') = group b'H' s in
      let (minutes, s'') = group b'M' s' in
      if c == b'T'
      then (if at_end s'' then some (days, hours, minutes) else none)
      else if at_end (c ∷ s)
      then some (days, 0, 0)
      else none

  pub match_duration : List ℕ → Option (ℕ × ℕ × ℕ)
  match_duration [] = none
  match_duration (c ∷ s) =
      let (days, s') = group b'D' s in if c == b'P' then match_time days s' else none

  pub parse_codes : List ℕ → Result Exception ℕ
  parse_codes s = elim (match_duration s) [
    | none ↦ err (value_error "unsupported resolution")
    | some (days, hours, minutes) ↦
        if is_too_long 4300 s
        then err (value_error "exceeds the limit for integer string conversion")
        else checked_total (total_us days hours minutes)
  ]

  unfoldable pub parse_resolution : String → Result Exception ℕ
  unfolding parse_codes match_duration match_time group is_too_long checked_total
  parse_resolution value = parse_codes (codes value)

-- The ASCII digits.
abbrev pub ascii_digit : ℕ → Option ℕ
ascii_digit c = elim (Prim.Native.Nat.compare c 48) [
  | Prim.Native.Nat.Ordering.lt ↦ none
  | _ ↦ elim (Prim.Native.Nat.compare c 57) [
    | Prim.Native.Nat.Ordering.gt ↦ none
    | _ ↦ some (Prim.Native.Nat.◌-◌ c 48)
  ]
]
