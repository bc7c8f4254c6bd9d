-- ===== src/Ingest/RteParse/Totals.antt =====
-- src/gridlens/ingest/rte_parse.py: the total that RTE ships against the sum of its components. `int`
-- is a parameter, and a missing key raises.
use gridlens.Prelude.{
  String, Option, none, some, List, [], ◌∷◌, Result, ok, ◌>>=◌, or_raise, dict_set, dict_get,
  if◌then◌else◌,
}
use gridlens.Prelude.Int.{ℤ, pos, ◌+ℤ◌, eqb_ℤ}
use gridlens.Exceptions.{Exception, key_error, value_error}
use gridlens.Ingest.RteParse.{Entry, Value, is_total}

-- a value's start and its integer
unfoldable pub dated_number : (String → Option ℤ) → Value → Result Exception (String × ℤ)
dated_number read_int v = do
  start ← or_raise v.start_date (key_error "start_date")
  text ← or_raise v.value (key_error "value")
  n ← or_raise (read_int text) (value_error "invalid literal for int()")
  ok (start, n)

-- `summed.get(start, 0)`
unfoldable pub sum_at : String → List (String × ℤ) → ℤ
sum_at start summed = elim (dict_get start summed) [ none ↦ pos 0 | some n ↦ n ]

unfoldable pub sum_values :
    (String → Option ℤ) → List Value → List (String × ℤ) → Result Exception (List (String × ℤ))
sum_values read_int [] summed = ok summed
sum_values read_int (v ∷ rest) summed = do
  found ← dated_number read_int v
  sum_values read_int rest (dict_set found.0 (sum_at found.0 summed +ℤ found.1) summed)

-- The loop over the entries, past the totals.
unfoldable pub sum_entries :
    (String → Option ℤ) → List Entry → List (String × ℤ) → Result Exception (List (String × ℤ))
sum_entries read_int [] summed = ok summed
sum_entries read_int (e ∷ rest) summed =
    if is_total e
    then sum_entries read_int rest summed
    else (do summed' ← sum_values read_int e.values summed; sum_entries read_int rest summed')

unfoldable pub find_total : List Entry → Option Entry
find_total [] = none
find_total (e ∷ rest) = if is_total e then some e else find_total rest

-- The starts at which the total is not the sum, with both.
unfoldable pub mismatches :
    (String → Option ℤ)
    → List (String × ℤ)
    → List Value
    → List (String × (ℤ × ℤ))
    → Result Exception (List (String × (ℤ × ℤ)))
mismatches read_int summed [] found = ok found
mismatches read_int summed (v ∷ rest) found = do
  total ← dated_number read_int v
  mismatches read_int summed rest (
      if eqb_ℤ (sum_at total.0 summed) total.1
      then found
      else dict_set total.0 (total.1, sum_at total.0 summed) found)

-- `total_matches_components`
unfoldable pub total_matches_components :
    (String → Option ℤ) → List Entry → Result Exception (List (String × (ℤ × ℤ)))
total_matches_components read_int payload = elim (find_total payload) [
  | none ↦ ok []
  | some total ↦ do
    summed ← sum_entries read_int payload []
    mismatches read_int summed total.values []
]
